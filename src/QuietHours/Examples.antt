-- ===== src/QuietHours/Examples.antt =====
-- The schedule of a delivery on concrete preferences.
use wax_watch_api.Prelude.{ℕ, ◌*◌, ◌<◌, ◌≡◌, ◌≢◌, refl, none, some, false, arith}
use wax_watch_api.Prelude.Text.{codes, text_eq}
use wax_watch_api.QuietHours.{
  hour, hour_of, at_hour, is_within_quiet_hours, window_end, next_quiet_window_end,
  delivery_frequency_seconds, frequency_defer_until, Quiet, delivery_candidate, next_delivery_time,
}
use wax_watch_api.QuietHours.Laws.{IsRegular, is_quiet}
use wax_watch_api.QuietHours.Delivery.{
  HasPaused, IsSound, deferred_to, immediate_allowed, all_day_never,
}
use wax_watch_api.Samples.{utc_zone}

utc-IsRegular : IsRegular utc_zone
utc-IsRegular = record { later = λ now wall fold h. h; shown = λ now wall fold h. refl }

abbrev nightly : Quiet
nightly = record { zone = utc_zone; start = some 22; stop = some 7; frequency = codes "daily" }

nightly-IsSound : IsSound nightly
nightly-IsSound = record {
  regular = utc-IsRegular;
  start_hour = ground arith;
  stop_hour = ground arith;
}

abbrev late : ℕ
late = 23 * hour

night_ends : next_delivery_time nightly none late ≡ some (31 * hour)
unfolding next_delivery_time delivery_candidate next_quiet_window_end is_within_quiet_hours
    window_end hour_of at_hour frequency_defer_until delivery_frequency_seconds text_eq
night_ends = refl

abbrev evening : ℕ
evening = 22

ends_differ : evening ≢ 7
ends_differ e = ground arith

deferred_to_example :
    (late < 31 * hour)
    × (is_quiet nightly (31 * hour) ≡ false)
    × HasPaused (codes "daily") none (31 * hour)
deferred_to_example = deferred_to nightly nightly-IsSound ends_differ none late night_ends

abbrev noon : ℕ
noon = 60 * hour

noon_free : next_delivery_time nightly (some (20 * hour)) noon ≡ none
unfolding next_delivery_time delivery_candidate next_quiet_window_end is_within_quiet_hours
    window_end hour_of at_hour frequency_defer_until delivery_frequency_seconds text_eq
noon_free = refl

immediate_allowed_example :
    (is_quiet nightly noon ≡ false) × HasPaused (codes "daily") (some (20 * hour)) noon
immediate_allowed_example =
    immediate_allowed nightly nightly-IsSound ends_differ (some (20 * hour)) noon noon_free

abbrev all_day : Quiet
all_day = record { zone = utc_zone; start = some 8; stop = some 8; frequency = codes "instant" }

all_day-IsSound : IsSound all_day
all_day-IsSound = record {
  regular = utc-IsRegular;
  start_hour = ground arith;
  stop_hour = ground arith;
}

all_day_never_example : next_delivery_time all_day none late ≢ none
all_day_never_example = all_day_never all_day 8 none late all_day-IsSound refl refl

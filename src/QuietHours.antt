-- ===== src/QuietHours.antt =====
-- app/services/notifications.py: quiet hours, delivery frequencies and the time of a delivery.
-- Times are microseconds of UTC. `ZoneInfo` is a parameter: the wall clock of an instant, the fold
-- of that wall clock, and the instant of a wall clock with a fold.
pub mod Laws
pub mod Delivery
mod Examples
use wax_watch_api.Prelude.{
  ℕ, ◌+◌, ◌-◌, ◌*◌, ◌/◌, ◌%◌, Option, none, some, Bool, true, false, ◌&&◌, ◌||◌, List, [], ◌∷◌, ltb,
  leb, ◌==◌, max, is_some, if◌then◌else◌,
}
use wax_watch_api.Prelude.Text.{Text, codes, text_eq}

abbrev pub second : ℕ
second = 1000000

abbrev pub hour : ℕ
hour = 3600000000

pub record Zone : Type 0 where
  pub wall : ℕ → ℕ
  pub fold : ℕ → Bool
  pub utc_of : ℕ → Bool → ℕ

-- `local.hour`
unfoldable pub hour_of : ℕ → ℕ
hour_of wall = wall / hour % 24

-- `local.replace(hour=h, minute=0, second=0, microsecond=0)`
unfoldable pub at_hour : ℕ → ℕ → ℕ
at_hour wall h = (wall / hour / 24 * 24 + h) * hour

-- `+ timedelta(days=1)` on a wall clock
abbrev pub next_day : ℕ → ℕ
next_day wall = wall + 24 * hour

abbrev pub is_between : (hour_now start stop : ℕ) → Bool
is_between h start stop =
    if start == stop
    then true
    else if ltb start stop
    then leb start h && ltb h stop
    else leb start h || ltb h stop

unfoldable pub is_within_quiet_hours : ℕ → Option ℕ → Option ℕ → Bool
is_within_quiet_hours h (some start) (some stop) = is_between h start stop
is_within_quiet_hours h (some start) none = false
is_within_quiet_hours h none stop = false

-- The wall clock at which the window ends; `datetime + timedelta` starts again from fold 0.
unfoldable pub window_end : (wall start stop : ℕ) (fold : Bool) → ℕ × Bool
unfolding hour_of at_hour
window_end wall start stop fold =
    let end_local = at_hour wall stop in
    if ltb start stop
    then (if leb end_local wall then (next_day end_local, false) else (end_local, fold))
    else (if leb start (hour_of wall) then (next_day end_local, false) else (end_local, fold))

unfoldable pub next_quiet_window_end : Zone → ℕ → Option ℕ → Option ℕ → Option ℕ
unfolding window_end hour_of at_hour is_within_quiet_hours
next_quiet_window_end z now (some start) (some stop) =
    let wall = z.wall now in
    if is_within_quiet_hours (hour_of wall) (some start) (some stop)
    then (let (end_local, fold) = window_end wall start stop (z.fold now) in
        some (z.utc_of end_local fold))
    else none
next_quiet_window_end z now (some start) none = none
next_quiet_window_end z now none stop = none

-- DELIVERY_FREQUENCY_SECONDS.get(frequency, 0)
unfoldable pub delivery_frequency_seconds : Text → ℕ
delivery_frequency_seconds f =
    if text_eq f (codes "instant")
    then 0
    else if text_eq f (codes "hourly")
    then 60 * 60
    else if text_eq f (codes "daily")
    then 60 * 60 * 24
    else 0

-- `_frequency_defer_until`, given the latest `delivered_at` of the user and channel.
unfoldable pub frequency_defer_until : Text → Option ℕ → Option ℕ
unfolding delivery_frequency_seconds
frequency_defer_until frequency last_delivered_at =
    if leb (delivery_frequency_seconds frequency) 0 then none else elim last_delivered_at [
      | none ↦ none
      | some at ↦ some (at + delivery_frequency_seconds frequency * second)
    ]

-- `if until is not None and until > candidate: candidate = until`
abbrev pub postpone : Option ℕ → ℕ → ℕ
postpone none candidate = candidate
postpone (some until) candidate = if ltb candidate until then until else candidate

-- The fields of the preference that the schedule reads.
pub record Quiet : Type 0 where
  pub zone : Zone
  pub start : Option ℕ
  pub stop : Option ℕ
  pub frequency : Text

abbrev pub quiet_end : Quiet → ℕ → Option ℕ
quiet_end q candidate = next_quiet_window_end q.zone candidate q.start q.stop

unfoldable pub delivery_candidate : Quiet → Option ℕ → ℕ → ℕ
delivery_candidate q last_delivered_at now =
    let first = postpone (quiet_end q now) now in
    let second = postpone (frequency_defer_until q.frequency last_delivered_at) first in
    postpone (quiet_end q second) second

unfoldable pub next_delivery_time : Quiet → Option ℕ → ℕ → Option ℕ
unfolding delivery_candidate
next_delivery_time q last_delivered_at now =
    let candidate = delivery_candidate q last_delivered_at now in
    if leb candidate now then none else some candidate

-- `max(int((next_at - now).total_seconds()), 1)`; the two clock readings may differ.
abbrev pub defer_seconds : Option ℕ → ℕ → Option ℕ
defer_seconds none now = none
defer_seconds (some next_at) now = some (max ((next_at - now) / second) 1)

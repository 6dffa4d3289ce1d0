-- ===== src/Notifications/Preferences.antt =====
-- app/services/notifications.py: the preferences of a user, and what they allow.
use wax_watch_api.Prelude.{
  ℕ, ◌==◌, Option, none, some, Bool, true, List, [], ◌∷◌, ◌++◌, first, any, get_or, or_else,
  if◌then◌else◌,
}
use wax_watch_api.Prelude.Text.{Text, codes, text_key, truthy_text}
use wax_watch_api.Prelude.Dict.{Dict, get}
use wax_watch_api.Json.{Json, boolean, truthy}
use wax_watch_api.Models.{
  EventType, event_value, rule_created, rule_updated, rule_disabled, rule_deleted, rule_enabled,
  watch_release_created, watch_release_updated, watch_release_disabled, watch_release_enabled,
  listing_first_seen, listing_price_drop, listing_price_rise, listing_ended, new_match,
  import_started, import_completed, import_failed, UserNotificationPreference,
}
use wax_watch_api.QuietHours.{Zone}
use wax_watch_api.Environment.{Environment}
use wax_watch_api.Session.{
  Action, integrity_error, no_result_found, pure, raise, gets, modify, ◌>>=◌, ◌>>◌, option_case,
  now_utc, fresh_id, overtaken, catch_integrity_error,
}
use wax_watch_api.Outbox.{begin_nested}

abbrev pub event_types : List EventType
event_types =
    rule_created ∷ rule_updated ∷ rule_disabled ∷ rule_deleted ∷ rule_enabled
    ∷ watch_release_created ∷ watch_release_updated ∷ watch_release_disabled ∷ watch_release_enabled
    ∷ listing_first_seen ∷ listing_price_drop ∷ listing_price_rise ∷ listing_ended ∷ new_match
    ∷ import_started ∷ import_completed ∷ import_failed ∷ []

-- `_default_event_toggles`
abbrev pub toggles_for : List EventType → Dict Text Json
toggles_for [] = []
toggles_for (e ∷ es) = (event_value e, boolean true) ∷ toggles_for es

unfoldable pub default_event_toggles : Dict Text Json
default_event_toggles = toggles_for event_types

-- `_preference_allows_event`
unfoldable pub preference_allows_event : Option UserNotificationPreference → EventType → Bool
unfolding get truthy
preference_allows_event none e = true
preference_allows_event (some p) e =
    truthy (get_or (get (event_value e) (get_or p.event_toggles [])) (boolean true))

-- `_resolve_timezone`
unfoldable pub resolve_timezone : Environment → UserNotificationPreference → Option Text → Zone
resolve_timezone env p user_timezone =
    let candidate =
      get_or (or_else (truthy_text p.timezone_override) (truthy_text user_timezone))
        (codes "UTC") in
    get_or (env.zone_info candidate) env.utc

abbrev pub preference_of : ℕ → List UserNotificationPreference → Option UserNotificationPreference
preference_of user_id = first (λ p. p.user_id == user_id)

unfoldable pub append_preference : UserNotificationPreference → Action (Unit {0})
append_preference p =
    modify (λ w. record w { db = record w.db { preferences = w.preferences ++ p ∷ [] } })

-- The unique index `ix_user_notification_preferences_user`.
unfoldable pub insert_preference : UserNotificationPreference → Action UserNotificationPreference
unfolding append_preference
insert_preference p = do
  taken ← gets (λ w. any (λ q. q.user_id == p.user_id) w.preferences)
  if taken then raise integrity_error else (do append_preference p; pure p)

abbrev default_preferences : (id user_id created updated : ℕ) → UserNotificationPreference
default_preferences id user_id created updated = record {
  id = id;
  user_id = user_id;
  email_enabled = true;
  realtime_enabled = true;
  quiet_hours_start = none;
  quiet_hours_end = none;
  timezone_override = none;
  delivery_frequency = codes "instant";
  event_toggles = some default_event_toggles;
  created_at = created;
  updated_at = updated;
}

unfoldable pub create_preferences : ℕ → Action UserNotificationPreference
unfolding insert_preference
create_preferences user_id = do
  id ← fresh_id
  created ← now_utc
  updated ← now_utc
  insert_preference (default_preferences id user_id created updated)

unfoldable pub reread_preferences : ℕ → Action UserNotificationPreference
reread_preferences user_id = do
  found ← gets (λ w. preference_of user_id w.preferences)
  option_case found (raise no_result_found) pure

unfoldable pub get_or_create_preferences : Environment → ℕ → Action UserNotificationPreference
unfolding create_preferences reread_preferences
get_or_create_preferences env user_id = do
  found ← gets (λ w. preference_of user_id w.preferences)
  option_case found
      (do
        overtaken
        catch_integrity_error (begin_nested env (create_preferences user_id))
            (reread_preferences user_id))
      pure

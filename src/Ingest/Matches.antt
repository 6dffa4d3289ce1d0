-- ===== src/Ingest/Matches.antt =====
-- app/services/ingest.py: `_create_match_if_needed`, `_create_release_match_event_if_needed` and
-- `match_listing_to_rules`.
pub mod Repeat
pub mod Pairs
use wax_watch_api.Prelude.{
  ℕ, ◌+◌, ◌==◌, Option, none, some, Bool, true, false, ◌&&◌, List, [], ◌∷◌, ◌++◌, first, any, keep,
  get_or, is_some, if◌then◌else◌,
}
use wax_watch_api.Prelude.Text.{Text, truthy_text}
use wax_watch_api.Json.{Json}
use wax_watch_api.Models.{
  EventType, new_match, Event, WatchMatch, WatchSearchRule, WatchRelease, Listing, User,
}
use wax_watch_api.Environment.{Environment}
use wax_watch_api.Session.{
  World, Action, pure, raise, gets, modify, ◌>>=◌, ◌>>◌, option_case, now_utc, fresh_id,
}
use wax_watch_api.Events.{Subject, no_subject, event_at, append_event, add_event}
use wax_watch_api.Notifications.Enqueue.{enqueue_from_event}
use wax_watch_api.WatchRules.Owner.{find_user}
use wax_watch_api.Ingest.Title.{normalize_title}
use wax_watch_api.Ingest.Match.{rule_matches_listing, watch_release_matches_listing}

unfoldable pub append_match : WatchMatch → Action (Unit {0})
append_match m = modify (λ w. record w { db = record w.db { matches = w.matches ++ m ∷ [] } })

unfoldable pub is_matched : ℕ → ℕ → List WatchMatch → Bool
is_matched rule_id listing_id = any (λ m. m.rule_id == rule_id && m.listing_id == listing_id)

-- `INSERT ... ON CONFLICT (rule_id, listing_id) DO NOTHING RETURNING id`
unfoldable pub insert_match : (rule_id listing_id now : ℕ) → Action (Option ℕ)
insert_match rule_id listing_id now = do
  id ← fresh_id
  clash ← gets (λ w. is_matched rule_id listing_id w.matches)
  if clash then pure none else (do
    append_match (record { id = id; rule_id = rule_id; listing_id = listing_id; matched_at = now })
    pure (some id))

abbrev is_new_match : EventType → Bool
is_new_match new_match = true
is_new_match _ = false

abbrev is_id : Option ℕ → ℕ → Bool
is_id none id = false
is_id (some a) id = a == id

-- The unique index over NEW_MATCH events of a watched release.
unfoldable pub is_notified : ℕ → ℕ → ℕ → List Event → Bool
is_notified user_id watch_id listing_id = any (λ e.
    e.user_id == user_id
    && is_new_match e.type
    && is_id e.watch_release_id watch_id
    && is_id e.listing_id listing_id)

unfoldable pub insert_event_once : ℕ → ℕ → ℕ → ℕ → Action (Option ℕ)
insert_event_once user_id watch_id listing_id now = do
  id ← fresh_id
  clash ← gets (λ w. is_notified user_id watch_id listing_id w.events)
  if clash then pure none else (do
    append_event (
        event_at user_id new_match
          (record {
            watch_release_id = some watch_id;
            rule_id = none;
            listing_id = some listing_id;
          })
          id now)
    pure (some id))

abbrev event_with : ℕ → List Event → Option Event
event_with id = first (λ e. e.id == id)

abbrev pub listing_title : Environment → Listing → Text
listing_title env l = get_or (truthy_text l.normalized_title) (normalize_title env.unicode l.title)

abbrev pub user_currency : Option User → Option Text
user_currency none = none
user_currency (some u) = u.currency

module _ (env : Environment) (print : Json → Text) where
  unfoldable pub announce : ℕ → Action ℕ
  announce event_id = do
    found ← gets (λ w. event_with event_id w.events)
    option_case found (pure 0) (λ e. do ns ← enqueue_from_event env e; pure 1)

  -- `_create_release_match_event_if_needed`
  unfoldable pub create_release_match_event_if_needed : ℕ → WatchRelease → Listing → Action ℕ
  create_release_match_event_if_needed user_id watch l = do
    now ← now_utc
    inserted ← insert_event_once user_id watch.id l.id now
    option_case inserted (pure 0) announce

  -- `_create_match_if_needed`
  unfoldable pub create_match_if_needed : ℕ → WatchSearchRule → Listing → Action ℕ
  create_match_if_needed user_id rule l = do
    now ← now_utc
    inserted ← insert_match rule.id l.id now
    option_case inserted (pure 0) (λ id. do
      event ←
          add_event env user_id new_match
            (record { watch_release_id = none; rule_id = some rule.id; listing_id = some l.id }) now
      pure 1)

  unfoldable pub match_rules : ℕ → Listing → Text → Option Text → List WatchSearchRule → Action ℕ
  match_rules user_id l title currency [] = pure 0
  match_rules user_id l title currency (rule ∷ rules) =
      let rest = match_rules user_id l title currency rules in
      if rule_matches_listing env.unicode print rule l title currency
      then (do made ← create_match_if_needed user_id rule l; more ← rest; pure (made + more))
      else rest

  unfoldable pub match_watches : ℕ → Listing → List WatchRelease → Action ℕ
  match_watches user_id l [] = pure 0
  match_watches user_id l (watch ∷ watches) =
      let rest = match_watches user_id l watches in
      if watch_release_matches_listing watch l
      then (do
        made ← create_release_match_event_if_needed user_id watch l
        more ← rest
        pure (made + more))
      else rest

  unfoldable pub match_listing_to_rules : ℕ → Listing → Action ℕ
  unfolding match_rules match_watches
  match_listing_to_rules user_id l = do
    user ← gets (λ w. find_user user_id w.users)
    rules ← gets (λ w. keep (λ (r : WatchSearchRule). r.user_id == user_id && r.is_active) w.rules)
    made ← match_rules user_id l (listing_title env l) (user_currency user) rules
    watches ←
        gets (λ w. keep (λ (r : WatchRelease). r.user_id == user_id && r.is_active) w.releases)
    more ← match_watches user_id l watches
    pure (made + more)

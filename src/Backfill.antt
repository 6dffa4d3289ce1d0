-- ===== src/Backfill.antt =====
-- app/services/backfill.py: matches of a rule with the listings that were seen lately.
pub mod Unique
mod Examples
use wax_watch_api.Prelude.{
  ℕ, ◌+◌, ◌*◌, ◌==◌, leb, Option, none, some, Bool, true, false, not, List, [], ◌∷◌, keep, take,
  get_or, if◌then◌else◌,
}
use wax_watch_api.Prelude.Text.{Text}
use wax_watch_api.Json.{Json}
use wax_watch_api.Models.{Event, new_match, WatchMatch, WatchSearchRule, Listing}
use wax_watch_api.Environment.{Environment}
use wax_watch_api.Session.{
  World, Action, integrity_error, pure, raise, gets, ◌>>=◌, ◌>>◌, option_case, now_utc, fresh_id,
  catch_integrity_error,
}
use wax_watch_api.Outbox.{begin_nested}
use wax_watch_api.Events.{Subject, event_at, append_event}
use wax_watch_api.Notifications.Enqueue.{enqueue_from_event}
use wax_watch_api.WatchRules.Owner.{find_user}
use wax_watch_api.WatchRules.Store.{rule_of}
use wax_watch_api.Paging.{Stamp, order_by}
use wax_watch_api.Ingest.Match.{rule_matches_listing}
use wax_watch_api.Ingest.Matches.{is_matched, append_match, listing_title, user_currency}

-- The settings of a backfill.
pub record Settings : Type 0 where
  pub dev_backfill_on_rule_change : Bool
  pub dev_backfill_days : ℕ
  pub dev_backfill_limit : ℕ

abbrev pub day : ℕ
day = 86400000000

-- Listings seen at one time come in the order of their identifiers.
abbrev seen_stamp : Listing → Stamp
seen_stamp l = (l.last_seen_at, l.id)

-- The listings that were seen in the last `days`, the latest first.
unfoldable pub recent_listings : (now days limit : ℕ) → List Listing → List Listing
unfolding order_by
recent_listings now days limit ls =
    take limit (order_by seen_stamp (keep (λ l. leb now (l.last_seen_at + days * day)) ls))

-- The flush of the match, with its unique constraint, and of the event.
unfoldable pub flush_match : ℕ → WatchSearchRule → Listing → ℕ → Action Event
unfolding is_matched append_match append_event
flush_match user_id rule l now = do
  id ← fresh_id
  event_id ← fresh_id
  clash ← gets (λ w. is_matched rule.id l.id w.matches)
  if clash then raise integrity_error else (do
    append_match (record { id = id; rule_id = rule.id; listing_id = l.id; matched_at = now })
    append_event (
        event_at user_id new_match
          (record { watch_release_id = none; rule_id = some rule.id; listing_id = some l.id })
          event_id now)
    pure (
        event_at user_id new_match
          (record { watch_release_id = none; rule_id = some rule.id; listing_id = some l.id })
          event_id now))

module _ (env : Environment) (print : Json → Text) where
  -- `begin_nested` flushes the pending rows before it opens the savepoint.
  unfoldable pub store_match : ℕ → WatchSearchRule → Listing → ℕ → Action (Option Event)
  unfolding flush_match
  store_match user_id rule l now =
      catch_integrity_error
        (do event ← flush_match user_id rule l now; begin_nested env (pure (some event)))
        (pure none)

  unfoldable pub add_match : ℕ → WatchSearchRule → Listing → ℕ → Action ℕ
  unfolding store_match
  add_match user_id rule l now = do
    stored ← store_match user_id rule l now
    option_case stored (pure 0) (λ event. do ns ← enqueue_from_event env event; pure 1)

  unfoldable pub backfill_listing : ℕ → WatchSearchRule → Option Text → ℕ → Listing → Action ℕ
  unfolding add_match
  backfill_listing user_id rule currency now l =
      if rule_matches_listing env.unicode print rule l (listing_title env l) currency
      then (do
        exists ← gets (λ w. is_matched rule.id l.id w.matches)
        if exists then pure 0 else add_match user_id rule l now)
      else pure 0

  unfoldable pub backfill_listings : ℕ → WatchSearchRule → Option Text → ℕ → List Listing → Action ℕ
  unfolding backfill_listing
  backfill_listings user_id rule currency now [] = pure 0
  backfill_listings user_id rule currency now (l ∷ ls) = do
    made ← backfill_listing user_id rule currency now l
    more ← backfill_listings user_id rule currency now ls
    pure (made + more)

  unfoldable pub backfill_rule : ℕ → WatchSearchRule → (days limit : ℕ) → Action ℕ
  unfolding recent_listings backfill_listings
  backfill_rule user_id rule days limit = do
    user ← gets (λ w. find_user rule.user_id w.users)
    since ← now_utc
    listings ← gets (λ w. recent_listings since days limit w.listings)
    now ← now_utc
    backfill_listings user_id rule (user_currency user) now listings

  unfoldable pub backfill_matches_for_rule :
      Settings → (user_id rule_id : ℕ) → (days limit : Option ℕ) → Action ℕ
  unfolding backfill_rule
  backfill_matches_for_rule settings user_id rule_id days limit =
      if not settings.dev_backfill_on_rule_change then pure 0 else (do
        found ← gets (λ w. rule_of user_id rule_id w.rules)
        option_case found (pure 0) (λ rule.
            if not rule.is_active
            then pure 0
            else backfill_rule user_id rule (get_or days settings.dev_backfill_days)
                (get_or limit settings.dev_backfill_limit)))

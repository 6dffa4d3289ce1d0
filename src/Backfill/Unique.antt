-- ===== src/Backfill/Unique.antt =====
-- app/services/backfill.py, with app/services/ingest.py: the matches under both.
use wax_watch_api.Prelude.{ℕ, ◌≡◌, refl, ◌∙◌, not, Option, none, some, Bool, false, List, [], ◌∷◌}
use wax_watch_api.Prelude.Text.{Text}
use wax_watch_api.Json.{Json}
use wax_watch_api.Models.{WatchSearchRule, Listing}
use wax_watch_api.Environment.{Environment}
use wax_watch_api.Session.{World, integrity_error}
use wax_watch_api.Session.Keeps.{
  Keeps, Keeps-bind, Keeps-pure, Keeps-if, Keeps-gets, Keeps-option, Keeps-catch, Holds,
  Holds-now_utc, Holds-fresh_id,
}
use wax_watch_api.Session.Ensures.{
  Ensures, Ensures-bind, Ensures-gets, Ensures-pure, Ensures-raise, Ensures-if, Ensures_of_keeps,
  Keeps_of_ensures,
}
use wax_watch_api.Outbox.Keeps.{Holds-IgnoresOutbox, begin_nested-Keeps}
use wax_watch_api.Notifications.Frame.{enqueue_from_event_kept}
use wax_watch_api.Ingest.Match.{rule_matches_listing}
use wax_watch_api.Ingest.Matches.{is_matched, append_match, listing_title, match_listing_to_rules}
use wax_watch_api.Ingest.Matches.Pairs.{
  UniqueMatches, UniqueMatches-IgnoresDelivery, append_match_lem, append_event_kept,
  match_listing_kept,
}
use wax_watch_api.Backfill.{
  Settings, flush_match, store_match, add_match, backfill_listing, backfill_listings, backfill_rule,
  backfill_matches_for_rule,
}

flush_match_kept :
    (user_id : ℕ) (rule : WatchSearchRule) (l : Listing) (now : ℕ)
    → Keeps (Holds UniqueMatches) (flush_match user_id rule l now)
unfolding flush_match
flush_match_kept user_id rule l now =
    Keeps_of_ensures (λ _ w h. h)
      (Ensures-bind _ _ (Ensures_of_keeps Holds-fresh_id) (λ id.
        Ensures-bind _ _ (Ensures_of_keeps Holds-fresh_id) (λ event_id.
          Ensures-bind
            {R = λ clash w. Holds UniqueMatches w × (is_matched rule.id l.id w.matches ≡ clash)} _ _
            (Ensures-gets _ (λ w h. (h, refl)))
            (λ clash.
              Ensures-if clash _ _ (λ is. Ensures-raise integrity_error (λ w h. h.0))
                (λ free. Ensures-bind {R = λ _. Holds UniqueMatches} _ _ (appended id free) (λ _.
                  Ensures-bind _ _ (Ensures_of_keeps (append_event_kept _))
                    (λ _. Ensures-pure _ (λ w h. h))))))))
  where
    appended :
        (id : ℕ) {clash : Bool}
        → clash ≡ false
        → Ensures
            (λ w. Holds UniqueMatches w × (is_matched rule.id l.id w.matches ≡ clash))
            (append_match
              (record { id = id; rule_id = rule.id; listing_id = l.id; matched_at = now }))
            (λ _. Holds UniqueMatches)
            (Holds UniqueMatches)
    appended id {clash} free = record { at = λ w h. (append_match_lem _).at w (h.0, h.1 ∙ free) }

module _ (env : Environment) (print : Json → Text) where
  store_match_kept :
      (user_id : ℕ) (rule : WatchSearchRule) (l : Listing) (now : ℕ)
      → Keeps (Holds UniqueMatches) (store_match env print user_id rule l now)
  unfolding store_match
  store_match_kept user_id rule l now =
      Keeps-catch _ _
        (Keeps-bind _ _ (flush_match_kept user_id rule l now)
          (λ event. begin_nested-Keeps Holds-IgnoresOutbox env _ (Keeps-pure (some event))))
        (Keeps-pure none)

  add_match_kept :
      (user_id : ℕ) (rule : WatchSearchRule) (l : Listing) (now : ℕ)
      → Keeps (Holds UniqueMatches) (add_match env print user_id rule l now)
  unfolding add_match
  add_match_kept user_id rule l now =
      Keeps-bind _ _ (store_match_kept user_id rule l now) (λ stored.
        Keeps-option stored _ _ (Keeps-pure 0) (λ event.
          Keeps-bind _ _ (enqueue_from_event_kept UniqueMatches-IgnoresDelivery env event)
            (λ ns. Keeps-pure 1)))

  backfill_listing_kept :
      (user_id : ℕ) (rule : WatchSearchRule) (currency : Option Text) (now : ℕ) (l : Listing)
      → Keeps (Holds UniqueMatches) (backfill_listing env print user_id rule currency now l)
  unfolding backfill_listing
  backfill_listing_kept user_id rule currency now l =
      Keeps-if (rule_matches_listing env.unicode print rule l (listing_title env l) currency) _ _
        (Keeps-bind _ _ (Keeps-gets _)
          (λ exists. Keeps-if exists _ _ (Keeps-pure 0) (add_match_kept user_id rule l now)))
        (Keeps-pure 0)

  backfill_listings_kept :
      (user_id : ℕ) (rule : WatchSearchRule) (currency : Option Text) (now : ℕ) (ls : List Listing)
      → Keeps (Holds UniqueMatches) (backfill_listings env print user_id rule currency now ls)
  unfolding backfill_listings
  backfill_listings_kept user_id rule currency now [] = Keeps-pure 0
  backfill_listings_kept user_id rule currency now (l ∷ ls) =
      let rest = backfill_listings_kept user_id rule currency now ls in
      Keeps-bind _ _ (backfill_listing_kept user_id rule currency now l)
        (λ made. Keeps-bind _ _ rest (λ more. Keeps-pure _))

  backfill_rule_kept :
      (user_id : ℕ) (rule : WatchSearchRule) (days limit : ℕ)
      → Keeps (Holds UniqueMatches) (backfill_rule env print user_id rule days limit)
  unfolding backfill_rule
  backfill_rule_kept user_id rule days limit = Keeps-bind _ _ (Keeps-gets _) (λ user.
      Keeps-bind _ _ Holds-now_utc (λ since.
        Keeps-bind _ _ (Keeps-gets _) (λ ls.
          Keeps-bind _ _ Holds-now_utc (λ now. backfill_listings_kept user_id rule _ now ls))))

  backfill_kept :
      (settings : Settings) (user_id rule_id : ℕ) (days limit : Option ℕ)
      → Keeps
          (Holds UniqueMatches)
          (backfill_matches_for_rule env print settings user_id rule_id days limit)
  unfolding backfill_matches_for_rule
  backfill_kept settings user_id rule_id days limit =
      Keeps-if (not settings.dev_backfill_on_rule_change) _ _ (Keeps-pure 0) (
        Keeps-bind _ _ (Keeps-gets _) (λ found. Keeps-option found _ _ (Keeps-pure 0) (λ rule.
          Keeps-if (not rule.is_active) _ _ (Keeps-pure 0) (backfill_rule_kept user_id rule _ _))))

  -- On every path of matching a listing and of a backfill, errors included: if no two matches had
  -- the same rule and listing before, and other transactions keep it so, no two have after.
  pub matches_unique :
      (settings : Settings) (user_id rule_id : ℕ) (days limit : Option ℕ) (l : Listing) (w : World)
      → Holds UniqueMatches w
      → Holds UniqueMatches (match_listing_to_rules env print user_id l w).1
        × Holds UniqueMatches
            (backfill_matches_for_rule env print settings user_id rule_id days limit w).1
  matches_unique settings user_id rule_id days limit l w h = (
    (match_listing_kept env print user_id l).at w h,
    (backfill_kept settings user_id rule_id days limit).at w h,
  )

-- ===== src/Ingest/Matches/Pairs.antt =====
-- app/services/ingest.py: the pairs of rule and listing in the matches.
use wax_watch_api.Prelude.{
  ℕ, ◌≡◌, refl, ◌∙◌, Option, none, some, Bool, false, List, [], ◌∷◌, ◌++◌, any-append, arith,
}
use wax_watch_api.Prelude.Text.{Text}
use wax_watch_api.Json.{Json}
use wax_watch_api.Models.{WatchMatch, WatchSearchRule, WatchRelease, Listing, Event}
use wax_watch_api.Environment.{Environment}
use wax_watch_api.Session.{Tables}
use wax_watch_api.Session.Keeps.{
  Keeps, Keeps-modify, Keeps-bind, Keeps-pure, Keeps-if, Keeps-gets, Keeps-option, Holds,
  Holds-now_utc, Holds-fresh_id,
}
use wax_watch_api.Session.Ensures.{
  Ensures, Ensures-bind, Ensures-gets, Ensures-modify, Ensures-pure, Ensures-if, Ensures_of_keeps,
  Keeps_of_ensures,
}
use wax_watch_api.Notifications.Frame.{IgnoresDelivery, enqueue_from_event_kept}
use wax_watch_api.Events.{append_event, add_event-Holds}
use wax_watch_api.Ingest.Match.{rule_matches_listing, watch_release_matches_listing}
use wax_watch_api.Ingest.Matches.{
  append_match, is_matched, insert_match, insert_event_once, announce, create_match_if_needed,
  create_release_match_event_if_needed, match_rules, match_watches, match_listing_to_rules,
}

-- No later row has the rule and the listing of an earlier one.
unfoldable pub IsPairwise : List WatchMatch → Type 0
IsPairwise [] = Unit
IsPairwise (m ∷ ms) = (is_matched m.rule_id m.listing_id ms ≡ false) × IsPairwise ms

pub record UniqueMatches (t : Tables) : Type 0 where
  pub pairwise : IsPairwise t.matches

pub UniqueMatches-IgnoresDelivery : IgnoresDelivery UniqueMatches
UniqueMatches-IgnoresDelivery = record {
  preferences = λ t ps h. record { pairwise = h.pairwise };
  notifications = λ t ns h. record { pairwise = h.pairwise };
}

append-IsPairwise :
    (ms : List WatchMatch) (m : WatchMatch)
    → is_matched m.rule_id m.listing_id ms ≡ false
    → IsPairwise ms
    → IsPairwise (ms ++ m ∷ [])
unfolding IsPairwise is_matched
append-IsPairwise [] m new h = (refl, tt)
append-IsPairwise (k ∷ ms) m new (h, hs) =
    (any-append _ ms (m ∷ []) ∙ ground (arith, h), append-IsPairwise ms m (ground arith) hs)

-- A row that is new may be added.
pub append_match_lem :
    (m : WatchMatch)
    → Ensures
        (λ w. Holds UniqueMatches w × (is_matched m.rule_id m.listing_id w.matches ≡ false))
        (append_match m)
        (λ _. Holds UniqueMatches)
        (Holds UniqueMatches)
unfolding append_match
append_match_lem m = Ensures-modify _ (λ w h. record {
  here = record { pairwise = append-IsPairwise w.matches m h.1 h.0.here.pairwise };
  elsewhere = h.0.elsewhere;
})

pub append_event_kept : (e : Event) → Keeps (Holds UniqueMatches) (append_event e)
unfolding append_event
append_event_kept e =
    Keeps-modify _
      (λ w h. record { here = record { pairwise = h.here.pairwise }; elsewhere = h.elsewhere })

insert_match_kept :
    (rule_id listing_id now : ℕ) → Keeps (Holds UniqueMatches) (insert_match rule_id listing_id now)
unfolding insert_match
insert_match_kept rule_id listing_id now =
    Keeps_of_ensures (λ _ w h. h)
      (Ensures-bind _ _ (Ensures_of_keeps Holds-fresh_id) (λ id.
        Ensures-bind
          {R = λ clash w. Holds UniqueMatches w × (is_matched rule_id listing_id w.matches ≡ clash)}
          _ _ (Ensures-gets _ (λ w h. (h, refl)))
          (λ clash.
            Ensures-if clash _ _ (λ is. Ensures-pure none (λ w h. h.0))
              (λ free.
                Ensures-bind {R = λ _. Holds UniqueMatches} _ _ (appended id free)
                  (λ _. Ensures-pure (some id) (λ w h. h))))))
  where
    appended :
        (id : ℕ) {clash : Bool}
        → clash ≡ false
        → Ensures
            (λ w. Holds UniqueMatches w × (is_matched rule_id listing_id w.matches ≡ clash))
            (append_match
              (record { id = id; rule_id = rule_id; listing_id = listing_id; matched_at = now }))
            (λ _. Holds UniqueMatches)
            (Holds UniqueMatches)
    appended id {clash} free = record { at = λ w h. (append_match_lem _).at w (h.0, h.1 ∙ free) }

module _ (env : Environment) (print : Json → Text) where
  create_match_kept :
      (user_id : ℕ) (rule : WatchSearchRule) (l : Listing)
      → Keeps (Holds UniqueMatches) (create_match_if_needed env print user_id rule l)
  unfolding create_match_if_needed
  create_match_kept user_id rule l = Keeps-bind _ _ Holds-now_utc (λ now.
      Keeps-bind _ _ (insert_match_kept rule.id l.id now) (λ inserted.
        Keeps-option inserted _ _ (Keeps-pure 0) (λ id.
          Keeps-bind _ _
            (add_event-Holds UniqueMatches-IgnoresDelivery
              (λ t es h. record { pairwise = h.pairwise }) env user_id _ _ now)
            (λ e. Keeps-pure 1))))

  insert_event_kept :
      (user_id watch_id listing_id now : ℕ)
      → Keeps (Holds UniqueMatches) (insert_event_once user_id watch_id listing_id now)
  unfolding insert_event_once
  insert_event_kept user_id watch_id listing_id now = Keeps-bind _ _ Holds-fresh_id (λ id.
      Keeps-bind _ _ (Keeps-gets _) (λ clash.
        Keeps-if clash _ _ (Keeps-pure none)
          (Keeps-bind _ _ (append_event_kept _) (λ _. Keeps-pure (some id)))))

  announce_kept : (event_id : ℕ) → Keeps (Holds UniqueMatches) (announce env print event_id)
  unfolding announce
  announce_kept event_id = Keeps-bind _ _ (Keeps-gets _) (λ found.
      Keeps-option found _ _ (Keeps-pure 0) (λ e.
        Keeps-bind _ _ (enqueue_from_event_kept UniqueMatches-IgnoresDelivery env e)
          (λ _. Keeps-pure 1)))

  create_release_kept :
      (user_id : ℕ) (watch : WatchRelease) (l : Listing)
      → Keeps (Holds UniqueMatches) (create_release_match_event_if_needed env print user_id watch l)
  unfolding create_release_match_event_if_needed
  create_release_kept user_id watch l = Keeps-bind _ _ Holds-now_utc (λ now.
      Keeps-bind _ _ (insert_event_kept user_id watch.id l.id now)
        (λ inserted. Keeps-option inserted _ _ (Keeps-pure 0) announce_kept))

  match_rules_kept :
      (user_id : ℕ) (l : Listing) (title : Text) (currency : Option Text)
      (rules : List WatchSearchRule)
      → Keeps (Holds UniqueMatches) (match_rules env print user_id l title currency rules)
  unfolding match_rules
  match_rules_kept user_id l title currency [] = Keeps-pure 0
  match_rules_kept user_id l title currency (rule ∷ rules) =
      let rest = match_rules_kept user_id l title currency rules in
      Keeps-if (rule_matches_listing env.unicode print rule l title currency) _ _
        (Keeps-bind _ _ (create_match_kept user_id rule l)
          (λ made. Keeps-bind _ _ rest (λ more. Keeps-pure _)))
        rest

  match_watches_kept :
      (user_id : ℕ) (l : Listing) (watches : List WatchRelease)
      → Keeps (Holds UniqueMatches) (match_watches env print user_id l watches)
  unfolding match_watches
  match_watches_kept user_id l [] = Keeps-pure 0
  match_watches_kept user_id l (watch ∷ watches) =
      let rest = match_watches_kept user_id l watches in
      Keeps-if (watch_release_matches_listing watch l) _ _
        (Keeps-bind _ _ (create_release_kept user_id watch l)
          (λ made. Keeps-bind _ _ rest (λ more. Keeps-pure _)))
        rest

  pub match_listing_kept :
      (user_id : ℕ) (l : Listing)
      → Keeps (Holds UniqueMatches) (match_listing_to_rules env print user_id l)
  unfolding match_listing_to_rules
  match_listing_kept user_id l = Keeps-bind _ _ (Keeps-gets _) (λ user.
      Keeps-bind _ _ (Keeps-gets _) (λ rules.
        Keeps-bind _ _ (match_rules_kept user_id l _ _ rules) (λ made.
          Keeps-bind _ _ (Keeps-gets _) (λ watches.
            Keeps-bind _ _ (match_watches_kept user_id l watches) (λ more. Keeps-pure _)))))

-- ===== src/Ingest/Matches/Repeat.antt =====
-- app/services/ingest.py: a rule and a listing that are matched again.
use wax_watch_api.Prelude.{
  ℕ, suc, ◌≡◌, refl, ◌∙◌, All, none, some, true, List, [], ◌∷◌, ◌++◌, arith,
}
use wax_watch_api.Prelude.Text.{Text}
use wax_watch_api.Json.{Json}
use wax_watch_api.Models.{WatchMatch, WatchSearchRule, Listing}
use wax_watch_api.Environment.{Environment}
use wax_watch_api.Session.{Tables, World, Outcome, ok, raised, pure, gets, ◌>>=◌, now_utc, fresh_id}
use wax_watch_api.Session.Keeps.{Holds}
use wax_watch_api.Ingest.Matches.{append_match, is_matched, insert_match, create_match_if_needed}
use wax_watch_api.Session.Ensures.{
  Post, Ensures, Ensures-bind, Ensures-gets, Ensures-pure, Ensures-if, Ensures-modify,
  Ensures-option, Ensures_kept,
}
use wax_watch_api.Notifications.Frame.{IgnoresDelivery}
use wax_watch_api.Events.{add_event-Holds}

module _ (rule_id listing_id : ℕ) where
  -- The rule is matched with the listing.
  pub record Matched (t : Tables) : Type 0 where
    pub matched : is_matched rule_id listing_id t.matches ≡ true

  ignores : IgnoresDelivery Matched
  ignores = record {
    preferences = λ t ps h. record { matched = h.matched };
    notifications = λ t ns h. record { matched = h.matched };
  }

  -- No other transaction deletes the match.
  pub record NotDeleted (w : World) : Type 0 where
    pub elsewhere : All (λ step. (t : Tables) → Matched t → Matched (step t)) w.others

  ticked : Ensures NotDeleted now_utc (λ _. NotDeleted) (λ _. Unit {0})
  unfolding now_utc
  ticked = record { at = λ w h. record { elsewhere = h.elsewhere } }

  numbered : Ensures NotDeleted fresh_id (λ _. NotDeleted) (λ _. Unit {0})
  unfolding fresh_id
  numbered = record { at = λ w h. record { elsewhere = h.elsewhere } }

  append_matched :
      (id now : ℕ) (ms : List WatchMatch)
      → is_matched rule_id listing_id (
          ms
          ++ record { id = id; rule_id = rule_id; listing_id = listing_id; matched_at = now } ∷ [])
        ≡ true
  unfolding is_matched
  append_matched id now [] = ground arith
  append_matched id now (m ∷ ms) = ground (arith, append_matched id now ms)

  inserted-Matched :
      (now : ℕ)
      → Ensures NotDeleted
          (insert_match rule_id listing_id now)
          (λ _. Holds Matched)
          (λ _. Unit {0})
  unfolding insert_match append_match
  inserted-Matched now = Ensures-bind _ _ numbered (λ id.
      Ensures-bind {R = λ clash w. NotDeleted w × (is_matched rule_id listing_id w.matches ≡ clash)}
        _ _ (Ensures-gets _ (λ w h. (h, refl)))
        (λ clash.
          Ensures-if clash _ _
            (λ is.
              Ensures-pure none
                (λ w h. record { here = record { matched = h.1 ∙ is }; elsewhere = h.0.elsewhere }))
            (λ _.
              Ensures-bind {R = λ _. Holds Matched} _ _
                (Ensures-modify _ (λ w h. record {
                  here = record { matched = append_matched id now w.matches };
                  elsewhere = h.0.elsewhere;
                }))
                (λ _. Ensures-pure (some id) (λ w h. h)))))

module _ (env : Environment) (print : Json → Text) (user_id : ℕ) (rule : WatchSearchRule)
    (l : Listing) where
  created-Matched :
      Ensures
        (NotDeleted rule.id l.id)
        (create_match_if_needed env print user_id rule l)
        (λ _. Holds (Matched rule.id l.id))
        (λ _. Unit {0})
  unfolding create_match_if_needed
  created-Matched = Ensures-bind _ _ (ticked rule.id l.id) (λ now.
      Ensures-bind _ _ (inserted-Matched rule.id l.id now) (λ inserted.
        Ensures-option inserted _ _ (Ensures-pure 0 (λ w h. h)) (λ id.
          Ensures-bind _ _
            (Ensures_kept
              (add_event-Holds (ignores rule.id l.id) (λ t es h. record { matched = h.matched }) env
                user_id _ _ now)
              (λ w h. tt))
            (λ e. Ensures-pure 1 (λ w h. h)))))

  -- What a second call does: it reads the clock, takes an identifier, and finds the match.
  abbrev pub Again : World → Type 0
  Again w =
      create_match_if_needed env print user_id rule l w
      ≡ (ok 0, record w { readings = suc w.readings; next_id = suc w.next_id })

  Again-after : (w : World) → Holds (Matched rule.id l.id) w → Again w
  unfolding create_match_if_needed insert_match now_utc fresh_id gets pure ◌>>=◌
  Again-after w h = rw (h.here.matched) refl

  -- Provided that no other transaction deletes the match: once a rule was matched with a listing
  -- without an error, matching them again makes no match, no event and no notification.
  pub matched_once :
      (w : World)
      → NotDeleted rule.id l.id w
      → Post (λ _. Again) (λ _. Unit {0}) (create_match_if_needed env print user_id rule l w)
  matched_once w kept =
      post_map (create_match_if_needed env print user_id rule l w) (created-Matched.at w kept)
    where
      post_map :
          (out : Outcome ℕ × World)
          → Post (λ _. Holds (Matched rule.id l.id)) (λ _. Unit {0}) out
          → Post (λ _. Again) (λ _. Unit {0}) out
      post_map (ok n, v) h = Again-after v h
      post_map (raised e, v) h = tt

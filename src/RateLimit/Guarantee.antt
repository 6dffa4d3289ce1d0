-- ===== src/RateLimit/Guarantee.antt =====
-- app/core/rate_limit.py: sequences of checks of one key, beside the history of what they admitted.
use wax_watch_api.Prelude.{
  ℕ, ◌+◌, ◌*◌, ◌≤◌, ◌<◌, ◌≡◌, refl, ap, ◌∙◌, sym, ◌↔◌, inl, inr, List, [], ◌∷◌, ◌++◌, length,
  keep-append, leb, Bool-cases, arith, if◌then◌else◌,
}
use wax_watch_api.RateLimit.{
  second, RateLimitPolicy, capacity, window, Verdict, allowed, denied, index_error, retry_after,
  check_events,
}
use wax_watch_api.RateLimit.Window.{
  recent, recent-recent, IsOrdered-mono, IsValid, check_events-eq, check_events-IsValid,
  length-recent-le,
}

-- Times that ascend from `before` to `now`.
abbrev pub IsAscending : ℕ → List ℕ → ℕ → Type 0
IsAscending before [] now = before ≤ now
IsAscending before (t ∷ ts) now = (before ≤ t) × IsAscending t ts now

abbrev pub note : Verdict → ℕ → List ℕ → List ℕ
note allowed t hist = hist ++ t ∷ []
note (denied r) t hist = hist
note index_error t hist = hist

-- Checks of one key at the times `ts`: the deque, and beside it every time that was ever admitted.
unfoldable pub serve : RateLimitPolicy → List ℕ → List ℕ → List ℕ → List ℕ × List ℕ
serve p es hist [] = (es, hist)
serve p es hist (t ∷ ts) =
    let (es', answer) = check_events p t es in serve p es' (note answer t hist) ts

-- From `now` on, the deque and the history show the same events.
pub record Shows (p : RateLimitPolicy) (now : ℕ) (es hist : List ℕ) : Type 0 where
  pub valid : IsValid p now es
  pub same : (t : ℕ) → now ≤ t → recent (window p) t es ≡ recent (window p) t hist

abbrev decide_at : RateLimitPolicy → ℕ → List ℕ → List ℕ × Verdict
decide_at p t es =
    if leb (capacity p) (length es)
    then (es, retry_after (window p) t es)
    else (es ++ t ∷ [], allowed)

retry_after-note : (w t : ℕ) (es hist : List ℕ) → note (retry_after w t es) t hist ≡ hist
unfolding retry_after
retry_after-note w t [] hist = refl
retry_after-note w t (e ∷ es) hist = refl

module _ (p : RateLimitPolicy) where
  decide-same :
      (t later : ℕ) (es hist : List ℕ)
      → recent (window p) later es ≡ recent (window p) later hist
      → recent (window p) later (decide_at p t es).0
        ≡ recent (window p) later (note (decide_at p t es).1 t hist)
  decide-same t later es hist h = elim (Bool-cases (leb (capacity p) (length es))) [
    | inl full ↦ rw full (rw retry_after-note h)
    | inr room ↦ rw room (
        keep-append _ es (t ∷ [])
        ∙ ap (λ (x : List ℕ). x ++ recent (window p) later (t ∷ [])) h
        ∙ sym (keep-append _ hist (t ∷ [])))
  ]

  pub check_events-Shows :
      (now t : ℕ) (es hist : List ℕ)
      → now ≤ t
      → Shows p now es hist
      → Shows p t (check_events p t es).0 (note (check_events p t es).1 t hist)
  check_events-Shows now t es hist le s = record {
    valid = check_events-IsValid p now t es le s.valid;
    same = λ later after. rw (check_events-eq p now t es le s.valid) (
        decide-same t later (recent (window p) t es) hist
          (recent-recent (window p) t later es after ∙ s.same later (omega arith)));
  }

  pub serve-Shows :
      (now last : ℕ) (ts es hist : List ℕ)
      → Shows p now es hist
      → IsAscending now ts last
      → Shows p last (serve p es hist ts).0 (serve p es hist ts).1
  unfolding serve
  serve-Shows now last [] es hist s a = record {
    valid = record { ordered = IsOrdered-mono es a s.valid.ordered; bounded = s.valid.bounded };
    same = λ t le. s.same t (omega arith);
  }
  serve-Shows now last (t ∷ ts) es hist s (le, a) =
      serve-Shows t last ts _ _ (check_events-Shows now t es hist le s) a

  pub Shows-nil : Shows p 0 [] []
  Shows-nil = record { valid = record { ordered = tt; bounded = omega arith }; same = λ t le. refl }

-- However a client times its requests to one key, at no moment do more than `limit + burst` of
-- the requests that the limiter admitted lie in the window that ends there.
pub admitted_bounded :
    (p : RateLimitPolicy) (ts : List ℕ) (now : ℕ)
    → IsAscending 0 ts now
    → length (recent (window p) now (serve p [] [] ts).1) ≤ capacity p
admitted_bounded p ts now a =
    let s = serve-Shows p 0 now ts [] [] (Shows-nil p) a in
    rw (← s.same now (omega arith))
      (omega (arith, length-recent-le (window p) now (serve p [] [] ts).0, s.valid.bounded))

decide-allowed :
    (p : RateLimitPolicy) (t : ℕ) (es : List ℕ)
    → ((decide_at p t es).1 ≡ allowed) ↔ (length es < capacity p)
unfolding retry_after
decide-allowed p t [] = ground arith
decide-allowed p t (e ∷ es) = ground arith

-- After any requests to one key at ascending times, the next is admitted exactly when fewer than
-- `limit + burst` of the admitted ones lie in its window.
pub admitted_exactly :
    (p : RateLimitPolicy) (ts : List ℕ) (now : ℕ)
    → IsAscending 0 ts now
    → ((check_events p now (serve p [] [] ts).0).1 ≡ allowed)
      ↔ (length (recent (window p) now (serve p [] [] ts).1) < capacity p)
admitted_exactly p ts now a =
    let s = serve-Shows p 0 now ts [] [] (Shows-nil p) a in
    rw (check_events-eq p now now _ (omega arith) s.valid, ← s.same now (omega arith))
      (decide-allowed p now (recent (window p) now (serve p [] [] ts).0))

retry_room :
    (w now later cap r : ℕ) (es : List ℕ)
    → retry_after w now es ≡ denied r
    → length es ≤ cap
    → now + (r + 1) * second ≤ later
    → length (recent w later es) < cap
unfolding retry_after
retry_room w now later cap r [] e le far = ground arith
retry_room w now later cap r (x ∷ es) e le far = ground (arith, length-recent-le w later es)

check_events_denied :
    (p : RateLimitPolicy) (now r : ℕ) (es : List ℕ)
    → IsValid p now es
    → (check_events p now es).1 ≡ denied r
    → ((check_events p now es).0 ≡ recent (window p) now es)
      × (retry_after (window p) now (recent (window p) now es) ≡ denied r)
check_events_denied p now r es v e =
    let eq = check_events-eq p now now es (omega arith) v in
    elim (Bool-cases (leb (capacity p) (length (recent (window p) now es)))) [
      | inl full ↦ (rw eq (rw full), rw (eq, full) at e)
      | inr room ↦ absurd (allowed-ne-denied r (rw (eq, room) at e))
    ]
  where
    allowed-ne-denied : (r : ℕ) → allowed ≡ denied r → ⊥
    allowed-ne-denied r h = cc

-- A refused client that makes no request until one second past its `retry_after` is admitted.
pub retry_served :
    (p : RateLimitPolicy) (ts : List ℕ) (now later r : ℕ)
    → IsAscending 0 ts now
    → (check_events p now (serve p [] [] ts).0).1 ≡ denied r
    → now + (r + 1) * second ≤ later
    → (check_events p later (check_events p now (serve p [] [] ts).0).0).1 ≡ allowed
retry_served p ts now later r a e far =
    let v = (serve-Shows p 0 now ts [] [] (Shows-nil p) a).valid in
    let v' = check_events-IsValid p now now _ (omega arith) v in
    let (left, r_eq) = check_events_denied p now r _ v e in
    rw (check_events-eq p now later _ (omega arith) v') (
      (decide-allowed p later _).1 (
        rw left (
          retry_room (window p) now later (capacity p) r _ r_eq
            (omega (arith, length-recent-le (window p) now (serve p [] [] ts).0, v.bounded)) far)))

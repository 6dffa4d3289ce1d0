-- ===== src/RateLimit/Window.antt =====
-- app/core/rate_limit.py: the deque of one key, its order and its bound.
use wax_watch_api.Prelude.{
  ℕ, ◌+◌, ◌≤◌, ◌<◌, ◌≡◌, refl, inl, inr, List, [], ◌∷◌, ◌++◌, length, length-append, keep, All,
  All-append, leb, ltb, Bool-cases, arith, if◌then◌else◌,
}
use wax_watch_api.RateLimit.{
  RateLimitPolicy, capacity, window, allowed, prune, retry_after, check_events,
}

-- Ascending, and none later than `now`.
abbrev pub IsOrdered : ℕ → List ℕ → Type 0
IsOrdered now [] = Unit
IsOrdered now (e ∷ es) = (e ≤ now) × All (λ f. e ≤ f) es × IsOrdered now es

-- The events of the last `w` ticks: later than `now - w`.
abbrev pub recent : (w now : ℕ) → List ℕ → List ℕ
recent w now = keep (λ e. ltb now (e + w))

recent-All : (w now e : ℕ) (es : List ℕ) → now < e + w → All (λ f. e ≤ f) es → recent w now es ≡ es
recent-All w now e [] h a = refl
recent-All w now e (f ∷ es) h (le, a) = ground (arith, recent-All w now e es h a)

-- On a deque in order, dropping from the left is filtering.
pub prune-eq-recent :
    (w now later : ℕ) (es : List ℕ) → IsOrdered later es → prune w now es ≡ recent w now es
unfolding prune
prune-eq-recent w now later [] h = refl
prune-eq-recent w now later (e ∷ es) (le, a, h) =
    ground (arith, prune-eq-recent w now later es h, recent-All w now e es)

pub recent-recent :
    (w now later : ℕ) (es : List ℕ)
    → now ≤ later
    → recent w later (recent w now es) ≡ recent w later es
recent-recent w now later [] h = refl
recent-recent w now later (e ∷ es) h = ground (arith, recent-recent w now later es h)

All-recent : (a w now : ℕ) (es : List ℕ) → All (λ f. a ≤ f) es → All (λ f. a ≤ f) (recent w now es)
All-recent a w now [] h = tt
All-recent a w now (e ∷ es) (p, h) = ground (arith, All-recent a w now es h)

pub recent-IsOrdered :
    (w now later : ℕ) (es : List ℕ) → IsOrdered later es → IsOrdered later (recent w now es)
recent-IsOrdered w now later [] h = tt
recent-IsOrdered w now later (e ∷ es) (le, a, h) =
    ground (arith, recent-IsOrdered w now later es h, All-recent e w now es a)

pub IsOrdered-mono :
    {now later : ℕ} (es : List ℕ) → now ≤ later → IsOrdered now es → IsOrdered later es
IsOrdered-mono [] le h = tt
IsOrdered-mono (e ∷ es) le (p, a, h) = (omega arith, a, IsOrdered-mono es le h)

All-snoc :
    (a now : ℕ) (es : List ℕ) → a ≤ now → All (λ f. a ≤ f) es → All (λ f. a ≤ f) (es ++ now ∷ [])
All-snoc a now es le h = All-append (λ f. a ≤ f) es (now ∷ []) h (le, tt)

pub IsOrdered-snoc : (now : ℕ) (es : List ℕ) → IsOrdered now es → IsOrdered now (es ++ now ∷ [])
IsOrdered-snoc now [] h = (omega arith, tt, tt)
IsOrdered-snoc now (e ∷ es) (p, a, h) = (p, All-snoc e now es p a, IsOrdered-snoc now es h)

-- The invariant of a deque: in order, nothing from the future, and never more than the capacity.
pub record IsValid (p : RateLimitPolicy) (now : ℕ) (es : List ℕ) : Type 0 where
  pub ordered : IsOrdered now es
  pub bounded : length es ≤ capacity p

pub length-recent-le : (w now : ℕ) (es : List ℕ) → length (recent w now es) ≤ length es
length-recent-le w now [] = omega arith
length-recent-le w now (e ∷ es) = ground (arith, length-recent-le w now es)

module _ (p : RateLimitPolicy) (before now : ℕ) (es : List ℕ) (le : before ≤ now)
    (v : IsValid p before es) where
  recent-IsOrdered_now : IsOrdered now (recent (window p) now es)
  recent-IsOrdered_now = recent-IsOrdered (window p) now now es (IsOrdered-mono es le v.ordered)

  prune-eq-recent_now : prune (window p) now es ≡ recent (window p) now es
  prune-eq-recent_now = prune-eq-recent (window p) now before es v.ordered

  -- The answer is `allowed` exactly when fewer events than the capacity lie in the window.
  pub check_events-eq : check_events p now es ≡ (
      if leb (capacity p) (length (recent (window p) now es))
      then (recent (window p) now es, retry_after (window p) now (recent (window p) now es))
      else (recent (window p) now es ++ now ∷ [], allowed))
  unfolding check_events
  check_events-eq = rw prune-eq-recent_now

  pub check_events-IsValid : IsValid p now (check_events p now es).0
  check_events-IsValid =
      rw check_events-eq (elim (Bool-cases (leb (capacity p) (length (recent (window p) now es)))) [
        | inl full ↦ rw full (record {
          ordered = recent-IsOrdered_now;
          bounded = omega (arith, length-recent-le (window p) now es, v.bounded);
        })
        | inr room ↦ rw room (record {
          ordered = IsOrdered-snoc now _ recent-IsOrdered_now;
          bounded = rw length-append (ground arith);
        })
      ])

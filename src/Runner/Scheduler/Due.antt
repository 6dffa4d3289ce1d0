-- ===== src/Runner/Scheduler/Due.antt =====
-- app/services/scheduler.py: which rules `run_due_rules_once` takes.
use wax_watch_api.Prelude.{
  ℕ, suc, ◌≤◌, min, ◌≡◌, ap, ◌∙◌, inl, inr, Option, none, some, Bool, true, false, not, ◌&&◌, List,
  [], ◌∷◌, All, All-take, keep, length, length-take, take, Bool-cases, arith,
}
use wax_watch_api.Prelude.Sort.{sort_by-All, length-sort_by}
use wax_watch_api.Models.{WatchSearchRule}
use wax_watch_api.Runner.Scheduler.{SchedulerSettings, is_due, is_due_at, runs_before, sort_due}

-- Never run, or due at `now` or before.
abbrev pub IsDueBy : ℕ → Option ℕ → Type 0
IsDueBy now none = Unit
IsDueBy now (some at) = at ≤ now

-- Active, due, and not locked by another transaction.
abbrev pub IsDue : SchedulerSettings → (now : ℕ) → WatchSearchRule → Type 0
IsDue s now r = (r.is_active ≡ true) × IsDueBy now r.next_run_at × (s.locked r.id ≡ false)

-- So many of the elements have the property.
pub data IsCount {A : Type 0} (P : A → Type 0) : List A → ℕ → Type 0 where
  none_counted : IsCount P [] 0
  one_more : {a : A} {xs : List A} {n : ℕ} → P a → IsCount P xs n → IsCount P (a ∷ xs) (suc n)
  passed_over : {a : A} {xs : List A} {n : ℕ} → ¬ P a → IsCount P xs n → IsCount P (a ∷ xs) n

module _ (s : SchedulerSettings) (now : ℕ) where
  abbrev pub takes : WatchSearchRule → Bool
  takes r = is_due now r && not (s.locked r.id)

  taken-IsDue : (r : WatchSearchRule) → takes r ≡ true → IsDue s now r
  taken-IsDue r h = split r.next_run_at h
    where
      split :
          (at : Option ℕ)
          → ((r.is_active && is_due_at at now) && not (s.locked r.id)) ≡ true
          → (r.is_active ≡ true) × IsDueBy now at × (s.locked r.id ≡ false)
      split none h = ground (arith, h)
      split (some at) h = ground (arith, h)

  left-not_due : (r : WatchSearchRule) → takes r ≡ false → ¬ IsDue s now r
  left-not_due r h = split r.next_run_at h
    where
      split :
          (at : Option ℕ)
          → ((r.is_active && is_due_at at now) && not (s.locked r.id)) ≡ false
          → ¬ ((r.is_active ≡ true) × IsDueBy now at × (s.locked r.id ≡ false))
      split none h (a, d, l) = ground (arith, h, a, l)
      split (some at) h (a, d, l) = ground (arith, h, a, d, l)

  kept-All : (rs : List WatchSearchRule) → All (IsDue s now) (keep takes rs)
  kept-All [] = tt
  kept-All (r ∷ rs) = elim (Bool-cases (takes r)) [
    | inl yes_due ↦ rw yes_due (taken-IsDue r yes_due, kept-All rs)
    | inr not_due ↦ rw not_due (kept-All rs)
  ]

  kept-IsCount : (rs : List WatchSearchRule) → IsCount (IsDue s now) rs (length (keep takes rs))
  kept-IsCount [] = none_counted
  kept-IsCount (r ∷ rs) = elim (Bool-cases (takes r)) [
    | inl yes_due ↦ rw yes_due (one_more (taken-IsDue r yes_due) (kept-IsCount rs))
    | inr not_due ↦ rw not_due (passed_over (left-not_due r not_due) (kept-IsCount rs))
  ]

  -- The list that the query of the scheduler returns.
  abbrev pub batch_of : ℕ → List WatchSearchRule → List WatchSearchRule
  batch_of size rs = take size (sort_due (keep takes rs))

  pub batch-All :
      (P : WatchSearchRule → Type 0) (size : ℕ) (rs : List WatchSearchRule)
      → All P (keep takes rs)
      → All P (batch_of size rs)
  unfolding sort_due
  batch-All P size rs h = All-take P size _ (sort_by-All runs_before P (keep takes rs) h)

  pub batch-IsDue : (size : ℕ) (rs : List WatchSearchRule) → All (IsDue s now) (batch_of size rs)
  batch-IsDue size rs = batch-All (IsDue s now) size rs (kept-All rs)

  pub length-batch :
      (size : ℕ) (rs : List WatchSearchRule)
      → (n : ℕ) × IsCount (IsDue s now) rs n × (length (batch_of size rs) ≡ min size n)
  unfolding sort_due
  length-batch size rs = (
    length (keep takes rs),
    kept-IsCount rs,
    length-take size _ ∙ ap (min size) (length-sort_by runs_before (keep takes rs)),
  )

-- ===== src/Runner/Scheduler/Reschedule.antt =====
-- app/services/scheduler.py: the rules after a run of the scheduler.
use wax_watch_api.Prelude.{
  ℕ, ◌+◌, ◌==◌, ◌≤◌, ◌<◌, ◌≡◌, Option, none, some, true, List, [], ◌∷◌, All, length, min,
}
use wax_watch_api.Prelude.Text.{Text}
use wax_watch_api.Json.{Json}
use wax_watch_api.Models.{WatchSearchRule}
use wax_watch_api.Environment.{Environment}
use wax_watch_api.Session.{World}
use wax_watch_api.Session.Ensures.{Ensures}
use wax_watch_api.Runner.Scheduler.{SchedulerSettings, SchedulerRunResult, process_rule}
use wax_watch_api.Runner.Scheduler.Due.{IsDue, IsCount}

-- The rule comes due later than `now`.
unfoldable pub IsLater : ℕ → Option ℕ → Type 0
IsLater now none = ⊥
IsLater now (some at) = now < at

-- Every row of the rule comes due later than `now`.
abbrev pub IsPostponed : (now id : ℕ) → List WatchSearchRule → Type 0
IsPostponed now id = All (λ (r : WatchSearchRule). (r.id == id) ≡ true → IsLater now r.next_run_at)

module _ (env : Environment) (print : Json → Text) (s : SchedulerSettings) where
  abbrev Anything : World → Type 0
  Anything w = Unit

  -- The rules are processed one after the other, from the world `w` to the world `z`, and after
  -- its turn each comes due later than the time at which its turn began.
  pub data IsBatch (rule_limit : ℕ) : List WatchSearchRule → World → World → Type 0 where
    no_more : {w : World} → IsBatch rule_limit [] w w
    one_run :
        {r : WatchSearchRule} {rs : List WatchSearchRule} {w v z : World}
        → (process_rule env print s rule_limit r w).1 ≡ v
        → IsPostponed (w.clock w.readings) r.id v.rules
        → IsBatch rule_limit rs v z
        → IsBatch rule_limit (r ∷ rs) w z

  -- What the loop over the rules establishes, from `done` and `w` on.
  abbrev Ran :
      (rule_limit : ℕ)
      → List WatchSearchRule
      → SchedulerRunResult
      → World
      → SchedulerRunResult
      → World
      → Type 0
  Ran rule_limit rs done w res z =
      (res.processed_rules ≡ done.processed_rules + length rs)
      × (res.failed_rules ≤ done.failed_rules + length rs)
      × IsBatch rule_limit rs w z

  -- What a run of the scheduler at the time `now` promises of the rules that it takes.
  pub record IsRound (now size rule_limit : ℕ) (rules : List WatchSearchRule) (w : World)
      (res : SchedulerRunResult) (z : World) : Type 0 where
    pub taken : List WatchSearchRule
    pub due : All (IsDue s now) taken
    pub due_count : ℕ
    pub count : IsCount (IsDue s now) rules due_count
    pub as_many : length taken ≡ min size due_count
    pub processed_all : res.processed_rules ≡ length taken
    pub failed_few : res.failed_rules ≤ length taken
    pub batch : IsBatch rule_limit taken w z

-- ===== src/Runner/Scheduler.antt =====
-- app/services/scheduler.py: `run_due_rules_once`. app/tasks.py: `poll_due_rules_task` and
-- `backfill_rule_matches_task`.
pub mod Due
pub mod Reschedule
use wax_watch_api.Prelude.{
  ℕ, suc, ◌+◌, ◌*◌, ◌==◌, Option, none, some, Bool, true, false, not, ◌&&◌, ◌||◌, List, [], ◌∷◌,
  keep, take, leb, ltb, if◌then◌else◌,
}
use wax_watch_api.Prelude.Sort.{sort_by}
use wax_watch_api.Prelude.Text.{Text}
use wax_watch_api.Json.{Json}
use wax_watch_api.Models.{WatchSearchRule}
use wax_watch_api.Environment.{Environment}
use wax_watch_api.Session.{
  World, Action, Outcome, ok, raised, pure, gets, ◌>>=◌, ◌>>◌, now_utc, fresh_id,
}
use wax_watch_api.Outbox.{commit, rollback}
use wax_watch_api.WatchRules.Store.{write_rule}
use wax_watch_api.Backfill.{Settings, backfill_matches_for_rule}
use wax_watch_api.Runner.Registry.{RegistrySettings}
use wax_watch_api.Runner.Rules.{RuleRunSummary, run_rule_once}

-- The settings of the scheduler, and what it reads besides the tables.
pub record SchedulerSettings : Type 0 where
  pub scheduler_batch_size : ℕ
  pub scheduler_rule_limit : ℕ
  pub scheduler_next_run_jitter_seconds : ℕ
  pub scheduler_failure_retry_jitter_seconds : ℕ
  pub registry : RegistrySettings
  -- `str(rule.id)`
  pub seed_of : ℕ → Text
  -- `random.randint(0, bound)`, the n-th
  pub randint : (n bound : ℕ) → ℕ
  -- The rows that another transaction has locked, which SKIP LOCKED passes over
  pub locked : ℕ → Bool

pub record SchedulerRunResult : Type 0 where
  pub processed_rules : ℕ
  pub failed_rules : ℕ

-- FAILURE_RETRY_DELAY_SECONDS
abbrev pub failure_retry_delay_seconds : ℕ
failure_retry_delay_seconds = 30

abbrev pub is_due_at : Option ℕ → ℕ → Bool
is_due_at none now = true
is_due_at (some at) now = leb at now

abbrev pub is_due : ℕ → WatchSearchRule → Bool
is_due now r = r.is_active && is_due_at r.next_run_at now

-- `next_run_at.asc().nullsfirst()`, then `created_at.asc()`
abbrev pub runs_before : WatchSearchRule → WatchSearchRule → Bool
runs_before a b = by_next a.next_run_at b.next_run_at
  where
    by_next : Option ℕ → Option ℕ → Bool
    by_next none none = leb a.created_at b.created_at
    by_next none (some n) = true
    by_next (some m) none = false
    by_next (some m) (some n) = ltb m n || (m == n && leb a.created_at b.created_at)

unfoldable pub sort_due : List WatchSearchRule → List WatchSearchRule
unfolding sort_by
sort_due = sort_by runs_before

abbrev pub seconds : ℕ → ℕ
seconds n = n * 1000000

abbrev pub after_success : (current jitter : ℕ) → WatchSearchRule → WatchSearchRule
after_success current jitter r = record r {
  last_run_at = some current;
  next_run_at = some (current + seconds (r.poll_interval_seconds + jitter));
}

abbrev pub after_failure : (current jitter : ℕ) → WatchSearchRule → WatchSearchRule
after_failure current jitter r = record r {
  next_run_at = some (current + seconds (failure_retry_delay_seconds + jitter));
}

abbrev pub count_run : Bool → SchedulerRunResult → SchedulerRunResult
count_run succeeded done = record {
  processed_rules = suc done.processed_rules;
  failed_rules = if succeeded then done.failed_rules else suc done.failed_rules;
}

module _ (env : Environment) (print : Json → Text) (s : SchedulerSettings) where
  unfoldable pub due_rules : (now batch_size : ℕ) → Action (List WatchSearchRule)
  unfolding sort_due
  due_rules now batch_size = gets (λ w.
      take batch_size
        (sort_due (keep (λ (r : WatchSearchRule). is_due now r && not (s.locked r.id)) w.rules)))

  -- The end of one run: `false` after an exception, which is logged.
  unfoldable pub reschedule : (current : ℕ) → WatchSearchRule → Bool → Action Bool
  unfolding write_rule
  reschedule current r true = do
    n ← fresh_id
    write_rule (after_success current (s.randint n s.scheduler_next_run_jitter_seconds) r)
    pure true
  reschedule current r false = do
    n ← fresh_id
    write_rule (after_failure current (s.randint n s.scheduler_failure_retry_jitter_seconds) r)
    pure false

  -- `try: run_rule_once(...) except Exception: ...`. Every exception of the model leaves the session
  -- usable. In the source a flush outside a savepoint that the database refuses (that of
  -- `log_provider_request`, say) makes the `db.flush()` after the handler raise, which ends the task
  -- with a rollback; flushes that the database refuses for such a reason are not modelled.
  abbrev caught : Outcome RuleRunSummary × World → Outcome Bool × World
  caught (ok summary, w) = (ok true, w)
  caught (raised e, w) = (ok false, w)

  unfoldable pub try_rule : ℕ → WatchSearchRule → Action Bool
  unfolding run_rule_once
  try_rule rule_limit r w =
      caught (run_rule_once env print s.registry s.seed_of r.user_id r.id rule_limit w)

  unfoldable pub process_rule : ℕ → WatchSearchRule → Action Bool
  unfolding try_rule reschedule
  process_rule rule_limit r = do
    current ← now_utc
    succeeded ← try_rule rule_limit r
    reschedule current r succeeded

  unfoldable pub process_rules :
      ℕ → List WatchSearchRule → SchedulerRunResult → Action SchedulerRunResult
  unfolding process_rule
  process_rules rule_limit [] done = pure done
  process_rules rule_limit (r ∷ rs) done = do
    succeeded ← process_rule rule_limit r
    process_rules rule_limit rs (count_run succeeded done)

  unfoldable pub run_due_rules_once : (batch_size rule_limit : ℕ) → Action SchedulerRunResult
  unfolding due_rules process_rules
  run_due_rules_once batch_size rule_limit = do
    now ← now_utc
    rules ← due_rules now batch_size
    process_rules rule_limit rules (record { processed_rules = 0; failed_rules = 0 })

  abbrev end_or_roll_back : {A : Type 0} → Outcome A × World → Outcome A × World
  end_or_roll_back (ok a, w) = (ok a, commit env w)
  end_or_roll_back (raised e, w) = (raised e, rollback env w)

  unfoldable pub poll_due_rules_task : Action SchedulerRunResult
  unfolding run_due_rules_once commit rollback
  poll_due_rules_task w =
      end_or_roll_back (run_due_rules_once s.scheduler_batch_size s.scheduler_rule_limit w)

  unfoldable pub backfill_rule_matches_task : Settings → (user_id rule_id : ℕ) → Action ℕ
  unfolding backfill_matches_for_rule commit rollback
  backfill_rule_matches_task settings user_id rule_id w =
      end_or_roll_back (backfill_matches_for_rule env print settings user_id rule_id none none w)

-- ===== src/Runner/Examples.antt =====
-- A run of the scheduler over one rule.
use wax_watch_api.Prelude.{false, []}
use wax_watch_api.Prelude.Text.{Text}
use wax_watch_api.Json.{Json}
use wax_watch_api.Runner.Scheduler.{SchedulerSettings}
use wax_watch_api.Samples.{registry}

abbrev print : Json → Text
print v = []

abbrev settings : SchedulerSettings
settings = record {
  scheduler_batch_size = 10;
  scheduler_rule_limit = 20;
  scheduler_next_run_jitter_seconds = 0;
  scheduler_failure_retry_jitter_seconds = 0;
  registry = registry;
  seed_of = λ id. [];
  randint = λ n bound. 0;
  locked = λ id. false;
}

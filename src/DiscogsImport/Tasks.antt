-- ===== src/DiscogsImport/Tasks.antt =====
-- app/tasks.py: the tasks of the Discogs import.
pub mod Lone
pub mod Over
pub mod Ends
use wax_watch_api.Prelude.{
  ℕ, suc, ◌+◌, Option, none, some, Bool, true, false, not, List, [], ◌∷◌, ◌++◌, length,
  if◌then◌else◌,
}
use wax_watch_api.Prelude.Text.{Text, codes}
use wax_watch_api.Models.{ImportJob, ExternalAccountLink}
use wax_watch_api.Environment.{Environment}
use wax_watch_api.Session.{
  World, Action, Outcome, ok, raised, broker_error, pure, raise, gets, modify, ◌>>=◌, ◌>>◌,
  option_case, fresh_id,
}
use wax_watch_api.Outbox.{commit, rollback}
use wax_watch_api.DiscogsImport.{Discogs}
use wax_watch_api.DiscogsImport.Accounts.{list_sync_candidates}
use wax_watch_api.DiscogsImport.Jobs.{ensure_import_job, execute_import_job}

-- The settings of the periodic synchronization, and whether Celery takes the n-th job.
pub record SyncSettings : Type 0 where
  pub discogs_sync_enabled : Bool
  pub discogs_sync_user_batch_size : ℕ
  pub discogs_sync_interval_seconds : ℕ
  pub discogs_sync_jitter_seconds : ℕ
  pub discogs_sync_spread_seconds : ℕ
  pub accepts_import : (n job_id : ℕ) → Bool

-- The counters that the task returns.
pub record SyncResult : Type 0 where
  pub discovered_users : ℕ
  pub enqueued_jobs : ℕ
  pub reused_jobs : ℕ
  pub disabled : ℕ

-- What the loop over the links has made.
pub record Synced : Type 0 where
  pub queued_jobs : List (ℕ × ℕ)
  pub reused : ℕ

module _ (env : Environment) (d : Discogs) where
  -- `except Exception: db.rollback(); raise`, and else the commit
  abbrev pub end_run : {A : Type 0} → Outcome (Option A) × World → Outcome (Option A) × World
  end_run (ok none, w) = (ok none, w)
  end_run (ok (some a), w) = (ok (some a), commit env w)
  end_run (raised e, w) = (raised e, rollback env w)

  unfoldable pub run_discogs_import_task : ℕ → ℕ → Action (Option ImportJob)
  unfolding execute_import_job
  run_discogs_import_task fuel job_id w = end_run (execute_import_job env d fuel job_id w)

  module _ (s : SyncSettings) where
    unfoldable pub sync_link : ExternalAccountLink → Synced → Action Synced
    unfolding ensure_import_job
    sync_link l made = do
      (job, created) ←
          ensure_import_job env d l.user_id (codes "both") (some s.discogs_sync_interval_seconds)
      n ← fresh_id
      m ← fresh_id
      if created
          then pure (record made {
            queued_jobs =
                made.queued_jobs
                ++ (
                  job.id,
                  d.randint n s.discogs_sync_jitter_seconds
                      + d.randint m s.discogs_sync_spread_seconds,
                )
                  ∷ [];
          })
          else pure (record made { reused = suc made.reused })

    unfoldable pub sync_links : List ExternalAccountLink → Synced → Action Synced
    unfolding sync_link
    sync_links [] made = pure made
    sync_links (l ∷ ls) made = do more ← sync_link l made; sync_links ls more

    -- `run_discogs_import_task.apply_async(...)`
    unfoldable pub apply_import : ℕ × ℕ → Action (Unit {0})
    apply_import job = do
      n ← gets (λ w. length w.imports)
      if s.accepts_import n (job.0)
          then modify (λ w. record w { imports = w.imports ++ job ∷ [] })
          else raise broker_error

    unfoldable pub apply_imports : List (ℕ × ℕ) → Action (Unit {0})
    unfolding apply_import
    apply_imports [] = pure tt
    apply_imports (job ∷ jobs) = do apply_import job; apply_imports jobs

    unfoldable pub sync_all : Action SyncResult
    unfolding list_sync_candidates sync_links commit apply_imports
    sync_all = do
      links ← list_sync_candidates s.discogs_sync_user_batch_size
      made ← sync_links links (record { queued_jobs = []; reused = 0 })
      modify (commit env)
      apply_imports made.queued_jobs
      pure (record {
        discovered_users = length links;
        enqueued_jobs = length made.queued_jobs;
        reused_jobs = made.reused;
        disabled = 0;
      })

    abbrev or_rollback : Outcome SyncResult × World → Outcome SyncResult × World
    or_rollback (ok r, w) = (ok r, w)
    or_rollback (raised e, w) = (raised e, rollback env w)

    unfoldable pub sync_discogs_lists_task : Action SyncResult
    unfolding sync_all rollback
    sync_discogs_lists_task w = if s.discogs_sync_enabled then or_rollback (sync_all w) else (
      ok (record { discovered_users = 0; enqueued_jobs = 0; reused_jobs = 0; disabled = 1 }),
      w,
    )

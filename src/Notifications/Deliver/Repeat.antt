-- ===== src/Notifications/Deliver/Repeat.antt =====
-- app/tasks.py: sequences of runs of `deliver_notification_task`.
use wax_watch_api.Prelude.{
  ℕ, ◌==◌, ◌≤◌, ◌≡◌, refl, ap, ◌∙◌, inl, inr, Option, none, some, Bool, false, List, [], ◌∷◌,
  first_sound, ==_iff, Bool-cases, arith,
}
use wax_watch_api.Models.{Notification, is_sent}
use wax_watch_api.Environment.{Environment}
use wax_watch_api.Session.{
  Tables, World, http_exception, value_error, runtime_error, integrity_error, attribute_error,
  no_result_found, broker_error, type_error, transport_error, flush_failed, pending_rollback_error,
  Outcome, ok, raised,
}
use wax_watch_api.Session.Ensures.{Post}
use wax_watch_api.Outbox.{before_commit, commit, rollback}
use wax_watch_api.Outbox.Keeps.{IgnoresOutbox, after_commit_kept}
use wax_watch_api.Notifications.Deliver.{
  row_of, deliver_now_or_later, end_task, deliver_row, deliver_notification_task, new_session,
  run_tasks,
}
use wax_watch_api.Notifications.Deliver.Once.{successes, IsOnce, Effect-IsOnce}
use wax_watch_api.Notifications.Deliver.Endings.{Ended, Broken}
use wax_watch_api.Notifications.Deliver.Attempt.{attempt_lem}

-- The log and the committed rows, whatever the outbox.
record Logged (mails : List (ℕ × Bool)) (rows : List Notification) (w : World) : Type 0 where
  lone : w.others ≡ []
  mails_eq : w.mailed ≡ mails
  rows_eq : w.committed.notifications ≡ rows

module _ {mails : List (ℕ × Bool)} {rows : List Notification} where
  Logged-IgnoresOutbox : IgnoresOutbox (Logged mails rows)
  Logged-IgnoresOutbox = record {
    outbox = λ w q e f d h. record { lone = h.lone; mails_eq = h.mails_eq; rows_eq = h.rows_eq };
    restored = λ w w' h h'. record { lone = h'.lone; mails_eq = h'.mails_eq; rows_eq = h'.rows_eq };
  }

-- No other transaction interferes, and notification `id` was mailed at most once.
record IsQuiet (id : ℕ) (w : World) : Type 0 where
  quiet : w.others ≡ []
  once : IsOnce id w.mailed w.committed.notifications

IsOnce-at :
    {id : ℕ} {mails mails' : List (ℕ × Bool)} {rows rows' : List Notification}
    → mails' ≡ mails
    → rows' ≡ rows
    → IsOnce id mails rows
    → IsOnce id mails' rows'
IsOnce-at p q o = rw (p, q) o

module _ (env : Environment) (id : ℕ) where
  committed-IsQuiet :
      (w : World) → w.others ≡ [] → IsOnce id w.mailed w.notifications → IsQuiet id (commit env w)
  unfolding commit before_commit
  committed-IsQuiet w alone o =
      let w' = before_commit w in
      let l =
        after_commit_kept {P = Logged w.mailed w.notifications} Logged-IgnoresOutbox env
          (record w' { committed = w'.db })
          (record { lone = alone; mails_eq = refl; rows_eq = refl }) in
      record { quiet = l.lone; once = IsOnce-at l.mails_eq l.rows_eq o }

  rolled-IsQuiet :
      (w : World)
      → w.others ≡ []
      → IsOnce id w.mailed w.committed.notifications
      → IsQuiet id (rollback env w)
  unfolding rollback
  rolled-IsQuiet w alone o = record { quiet = alone; once = o }

  -- The task has loaded row `n` and found it not sent.
  module _ (n : Notification) (mails : List (ℕ × Bool)) (base : Tables)
      (found : row_of n.id base.notifications ≡ some n) (not_sent : is_sent n.status ≡ false)
      (o : IsOnce id mails base.notifications) where
    after_commit-IsQuiet :
        (w : World) → Ended n.id mails base base.notifications w → IsQuiet id (commit env w)
    after_commit-IsQuiet w h = committed-IsQuiet w h.alone (
        Effect-IsOnce id n.id n mails w.mailed base.notifications w.notifications found not_sent
          h.effect o)

    after_rollback-IsQuiet :
        (w : World) → Broken n.id mails base base.notifications w → IsQuiet id (rollback env w)
    after_rollback-IsQuiet w h = rolled-IsQuiet w h.ended.alone (record {
      atmost = rw (h.untaken id) o.atmost;
      done = λ pos. rw (h.ended.base_eq) (o.done (rw (h.untaken id) at pos));
    })

    Ended-IsQuiet :
        (out : Outcome (Unit {0}) × World)
        → Post
            (λ _. Ended n.id mails base base.notifications)
            (Broken n.id mails base base.notifications)
            out
        → IsQuiet id (end_task env out).1
    Ended-IsQuiet (ok a, w) h = after_commit-IsQuiet w h
    Ended-IsQuiet (raised runtime_error, w) h = after_commit-IsQuiet w h.ended
    Ended-IsQuiet (raised (http_exception c), w) h = after_rollback-IsQuiet w h
    Ended-IsQuiet (raised value_error, w) h = after_rollback-IsQuiet w h
    Ended-IsQuiet (raised integrity_error, w) h = after_rollback-IsQuiet w h
    Ended-IsQuiet (raised attribute_error, w) h = after_rollback-IsQuiet w h
    Ended-IsQuiet (raised no_result_found, w) h = after_rollback-IsQuiet w h
    Ended-IsQuiet (raised broker_error, w) h = after_rollback-IsQuiet w h
    Ended-IsQuiet (raised type_error, w) h = after_rollback-IsQuiet w h
    Ended-IsQuiet (raised transport_error, w) h = after_rollback-IsQuiet w h
    Ended-IsQuiet (raised flush_failed, w) h = after_rollback-IsQuiet w h
    Ended-IsQuiet (raised pending_rollback_error, w) h = after_rollback-IsQuiet w h

  row-IsQuiet :
      (w : World) (task_id : ℕ) (r : Option Notification)
      → row_of task_id w.notifications ≡ r
      → w.committed ≡ w.db
      → IsQuiet id w
      → IsQuiet id (deliver_row env false r w).1
  row-IsQuiet w task_id none found start q = q
  row-IsQuiet w task_id (some n) found start q = elim (Bool-cases (is_sent n.status)) [
    | inl is ↦ rw is q
    | inr not_sent ↦ rw not_sent (
        Ended-IsQuiet n w.mailed w.db (ap (λ (k : ℕ). row_of k w.notifications) own ∙ found)
          not_sent (simp start at q.once) (deliver_now_or_later env false n w)
          ((attempt_lem env n w.mailed w.db w.notifications false).at w
            (record { alone = q.quiet; mails_eq = refl; base_eq = start; rows_eq = refl })))
  ]
    where
      own : n.id ≡ task_id
      own =
          (==_iff n.id task_id).0
            (first_sound (λ (m : Notification). m.id == task_id) w.notifications found)

  task-IsQuiet :
      (w : World) (task_id : ℕ)
      → IsQuiet id w
      → IsQuiet id (deliver_notification_task env false task_id (new_session w)).1
  unfolding deliver_notification_task
  task-IsQuiet w task_id q =
      row-IsQuiet (new_session w) task_id _ refl refl (record { quiet = q.quiet; once = q.once })

  tasks-IsQuiet : (ids : List ℕ) (w : World) → IsQuiet id w → IsQuiet id (run_tasks env ids w)
  unfolding run_tasks
  tasks-IsQuiet [] w q = q
  tasks-IsQuiet (task_id ∷ ids) w q = tasks-IsQuiet ids _ (task-IsQuiet w task_id q)

-- Whatever sequence of delivery tasks runs (retries, repeats and several notifications
-- included), on whatever answers of the provider and of the queue, as long as no other
-- transaction interferes: a notification that no mail was yet taken for is mailed successfully
-- at most once.
pub mailed_once :
    (env : Environment) (ids : List ℕ) (id : ℕ) (w : World)
    → w.others ≡ []
    → successes id w.mailed ≡ 0
    → successes id (run_tasks env ids w).mailed ≤ 1
mailed_once env ids id w alone none_taken =
    (tasks-IsQuiet env id ids w (record {
      quiet = alone;
      once = record { atmost = ground arith; done = λ pos. ground arith };
    })).once.atmost

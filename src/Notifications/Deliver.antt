-- ===== src/Notifications/Deliver.antt =====
-- app/services/notifications.py: `send_email` and `publish_realtime`; app/tasks.py:
-- `deliver_notification_task`, with the commit or rollback that ends each of its paths.
pub mod Once
pub mod Endings
pub mod Attempt
pub mod Repeat
pub mod Now
use wax_watch_api.Prelude.{
  ℕ, ◌==◌, Option, none, some, Bool, true, false, not, ◌&&◌, List, [], ◌∷◌, ◌++◌, first, length,
  is_some, if◌then◌else◌,
}
use wax_watch_api.Models.{
  Notification, NotificationChannel, email, realtime, channel_eq, NotificationStatus, sent, failed,
  is_sent,
}
use wax_watch_api.Environment.{Environment, EmailDeliveryResult}
use wax_watch_api.Session.{
  World, Error, Outcome, ok, raised, Action, value_error, runtime_error, broker_error, pure, raise,
  gets, modify, ◌>>=◌, ◌>>◌, option_case, now_utc,
}
use wax_watch_api.Outbox.{commit, rollback}
use wax_watch_api.Notifications.Preferences.{get_or_create_preferences}
use wax_watch_api.Notifications.Enqueue.{user_of, defer_delivery_seconds}

-- A write to the row of an object.
unfoldable pub update_rows :
    ℕ → (Notification → Notification) → List Notification → List Notification
update_rows id f [] = []
update_rows id f (n ∷ ns) = (if n.id == id then f n else n) ∷ update_rows id f ns

unfoldable pub update_notification : ℕ → (Notification → Notification) → Action (Unit {0})
update_notification id f =
    modify (λ w. record w { db = record w.db { notifications = update_rows id f w.notifications } })

abbrev pub mark_sent : ℕ → Notification → Notification
mark_sent now n = record n {
  status = sent;
  delivered_at = some now;
  failed_at = none;
  updated_at = now;
}

abbrev pub mark_failed : ℕ → Notification → Notification
mark_failed now n = record n { status = failed; failed_at = some now; updated_at = now }

abbrev pub row_of : ℕ → List Notification → Option Notification
row_of id = first (λ n. n.id == id)

-- A session that begins: it reads the committed tables, and its `info` is empty.
abbrev pub new_session : World → World
new_session w = record w { db = w.committed; queue = none; epoch = 0; failed_epoch = none }

module _ (env : Environment) where
  -- `provider.send_email(request)`
  unfoldable pub call_provider : ℕ → Action EmailDeliveryResult
  call_provider id w =
      let result = env.mail_result (length w.mailed) in
      (ok result, record w { mailed = (id, result.success) ∷ w.mailed })

  unfoldable pub record_result : Notification → EmailDeliveryResult → ℕ → Action (Unit {0})
  record_result n result now =
      if result.success then update_notification n.id (mark_sent now) else (do
        update_notification n.id (mark_failed now)
        if result.retryable then raise runtime_error else pure tt)

  unfoldable pub mail_out : Notification → Action (Unit {0})
  unfolding record_result call_provider
  mail_out n = do
    user ← user_of n.user_id
    result ← call_provider n.id
    now ← now_utc
    record_result n result now

  unfoldable pub send_email : Notification → Action (Unit {0})
  send_email n =
      if not (channel_eq n.channel email)
      then raise value_error
      else (if is_sent n.status then pure tt else (do
        preference ← get_or_create_preferences env n.user_id
        if not preference.email_enabled then pure tt else mail_out n))

  -- The stream takes every payload: `publish` puts it on the queues of the user's subscribers.
  unfoldable pub publish : ℕ → Action (Unit {0})
  publish id = modify (λ w. record w { published = id ∷ w.published })

  unfoldable pub publish_realtime : Notification → Action (Unit {0})
  publish_realtime n =
      if not (channel_eq n.channel realtime)
      then raise value_error
      else (if is_sent n.status
          then pure tt
          else (do publish n.id; now ← now_utc; update_notification n.id (mark_sent now)))

  -- `deliver_notification_task.apply_async(args=[id], countdown=seconds)`
  unfoldable pub apply_async : ℕ → ℕ → Action (Unit {0})
  apply_async id seconds w =
      if env.accepts w.epoch id
      then (ok tt, record w { enqueued = w.enqueued ++ (id, some seconds) ∷ [] })
      else (raised broker_error, w)

  abbrev pub send_on : NotificationChannel → Notification → Action (Unit {0})
  send_on email n = send_email n
  send_on realtime n = publish_realtime n

  -- The body of the task from the point where the row is loaded and not sent.
  unfoldable pub deliver_now_or_later : Bool → Notification → Action (Unit {0})
  deliver_now_or_later is_eager n = do
    defer_seconds ← defer_delivery_seconds env n
    option_case defer_seconds (send_on n.channel n)
        (λ seconds. if is_eager then pure tt else apply_async n.id seconds)

  -- `db.commit()` at the end of the body; `except RuntimeError` commits too, and any other
  -- exception rolls back. Both raise again.
  abbrev pub end_task : Outcome (Unit {0}) × World → Outcome (Unit {0}) × World
  end_task (ok a, w) = (ok a, commit env w)
  end_task (raised runtime_error, w) = (raised runtime_error, commit env w)
  end_task (raised e, w) = (raised e, rollback env w)

  abbrev pub deliver_row : Bool → Option Notification → Action (Unit {0})
  deliver_row is_eager none w = (ok tt, w)
  deliver_row is_eager (some n) w =
      if is_sent n.status then (ok tt, w) else end_task (deliver_now_or_later is_eager n w)

  -- `deliver_notification_task(notification_id)`
  unfoldable pub deliver_notification_task : Bool → ℕ → Action (Unit {0})
  unfolding deliver_now_or_later
  deliver_notification_task is_eager id w = deliver_row is_eager (row_of id w.notifications) w

  -- Tasks as Celery runs them one after another, retries of failed ones included: each starts a
  -- session of its own on the committed tables.
  unfoldable pub run_tasks : List ℕ → World → World
  run_tasks [] w = w
  run_tasks (id ∷ ids) w = run_tasks ids (deliver_notification_task false id (new_session w)).1

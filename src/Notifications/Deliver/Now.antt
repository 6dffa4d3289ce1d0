-- ===== src/Notifications/Deliver/Now.antt =====
-- app/tasks.py: a run of `deliver_notification_task` for a mail that is due.
use wax_watch_api.Prelude.{
  ℕ, suc, ◌==◌, ◌≡◌, refl, none, some, Bool, true, false, List, ◌∷◌, first, length,
}
use wax_watch_api.Models.{Notification, email, is_sent, User, UserNotificationPreference}
use wax_watch_api.QuietHours.{next_delivery_time}
use wax_watch_api.Environment.{Environment}
use wax_watch_api.Session.{World, ok, pure, gets, modify, now_utc, ◌>>=◌}
use wax_watch_api.Outbox.{before_commit, commit}
use wax_watch_api.Outbox.Keeps.{IgnoresOutbox, after_commit_kept}
use wax_watch_api.Notifications.Preferences.{preference_of, get_or_create_preferences}
use wax_watch_api.Notifications.Enqueue.{
  quiet_of, last_delivered, user_of, next_time, defer_delivery_seconds,
}
use wax_watch_api.Notifications.Deliver.{
  update_rows, update_notification, mark_sent, row_of, call_provider, record_result, mail_out,
  send_email, send_on, deliver_now_or_later, deliver_notification_task, new_session,
}
use wax_watch_api.Notifications.Deliver.Once.{IsDelivered, sent_now}

-- A mail that is due: the row is not sent, its user and preferences are stored and want mail, and
-- the schedule puts it off no more.
pub record IsDue (env : Environment) (w : World) (n : Notification) (p : UserNotificationPreference)
    (u : User) : Type 0 where
  pub stored : row_of n.id w.committed.notifications ≡ some n
  pub unsent : is_sent n.status ≡ false
  pub mail : n.channel ≡ email
  pub wanted : p.email_enabled ≡ true
  pub preference : preference_of n.user_id w.committed.preferences ≡ some p
  pub user : first (λ v. v.id == n.user_id) w.committed.users ≡ some u
  pub due :
      next_delivery_time
        (quiet_of env p u)
        (last_delivered n.user_id n.channel w.committed.notifications)
        (w.clock w.readings)
      ≡ none

module _ (env : Environment) (n : Notification) (p : UserNotificationPreference) (u : User) where
  defer_none :
      (w : World)
      → preference_of n.user_id w.preferences ≡ some p
      → first (λ v. v.id == n.user_id) w.users ≡ some u
      → next_delivery_time
          (quiet_of env p u)
          (last_delivered n.user_id n.channel w.notifications)
          (w.clock w.readings)
        ≡ none
      → defer_delivery_seconds env n w ≡ (ok none, record w { readings = suc w.readings })
  unfolding defer_delivery_seconds next_time get_or_create_preferences user_of ◌>>=◌ gets pure
      now_utc
  defer_none w pref usr due = rw (pref, usr, due) refl

  sends :
      (w : World)
      → n.channel ≡ email
      → is_sent n.status ≡ false
      → p.email_enabled ≡ true
      → preference_of n.user_id w.preferences ≡ some p
      → first (λ v. v.id == n.user_id) w.users ≡ some u
      → (env.mail_result (length w.mailed)).success ≡ true
      → send_on env n.channel n w ≡ (
        ok tt,
        record w {
          db = record w.db {
            notifications = update_rows n.id (mark_sent (w.clock w.readings)) w.notifications;
          };
          readings = suc w.readings;
          mailed = (n.id, true) ∷ w.mailed;
        },
      )
  unfolding send_email mail_out call_provider record_result update_notification modify
      get_or_create_preferences user_of ◌>>=◌ gets pure now_utc
  sends w mail unsent wanted pref usr taken = rw (mail, unsent, pref, wanted, usr, taken) refl

-- The log and the committed rows.
record Written (mails : List (ℕ × Bool)) (rows : List Notification) (w : World) : Type 0 where
  mails_eq : w.mailed ≡ mails
  rows_eq : w.committed.notifications ≡ rows

Written-IgnoresOutbox :
    {mails : List (ℕ × Bool)} {rows : List Notification} → IgnoresOutbox (Written mails rows)
Written-IgnoresOutbox = record {
  outbox = λ w q e f d h. record { mails_eq = h.mails_eq; rows_eq = h.rows_eq };
  restored = λ w w' h h'. record { mails_eq = h'.mails_eq; rows_eq = h'.rows_eq };
}

commit-Written : (env : Environment) (w : World) → Written w.mailed w.notifications (commit env w)
unfolding commit before_commit
commit-Written env w =
    let w' = before_commit w in
    after_commit_kept {P = Written w.mailed w.notifications} Written-IgnoresOutbox env
      (record w' { committed = w'.db }) (record { mails_eq = refl; rows_eq = refl })

module _ (env : Environment) (is_eager : Bool) (n : Notification) (p : UserNotificationPreference)
    (u : User) (w : World) (h : IsDue env w n p u)
    (taken : (env.mail_result (length w.mailed)).success ≡ true) where
  -- The session after the body of the task.
  abbrev sent_world : World
  sent_world =
      let s = new_session w in
      record s {
        db = record s.db {
          notifications =
              update_rows n.id (mark_sent (w.clock (suc w.readings))) w.committed.notifications;
        };
        readings = suc (suc w.readings);
        mailed = (n.id, true) ∷ w.mailed;
      }

  body_sends : deliver_now_or_later env is_eager n (new_session w) ≡ (ok tt, sent_world)
  unfolding deliver_now_or_later ◌>>=◌
  body_sends =
      let s = new_session w in
      rw (defer_none env n p u s h.preference h.user h.due) (
        sends env n p u (record s { readings = suc w.readings }) h.mail h.unsent h.wanted
          h.preference h.user taken)

  task_commits :
      deliver_notification_task env is_eager n.id (new_session w) ≡ (ok tt, commit env sent_world)
  unfolding deliver_notification_task
  task_commits = rw (h.stored, h.unsent, body_sends) refl

  -- A delivery task that finds a mail that is due (the row not sent, the user and the preferences
  -- stored, mail wanted, the schedule putting it off no more), with a provider that takes the mail,
  -- returns; the mail is logged once, and the committed row says that it was sent.
  pub due_mailed :
      ((deliver_notification_task env is_eager n.id (new_session w)).0 ≡ ok tt)
      × ((deliver_notification_task env is_eager n.id (new_session w)).1.mailed
          ≡ (n.id, true) ∷ w.mailed)
      × IsDelivered n.id
          (deliver_notification_task env is_eager n.id (new_session w)).1.committed.notifications
  due_mailed =
      let c = commit-Written env sent_world in
      rw task_commits (
        refl,
        c.mails_eq,
        rw (c.rows_eq)
            (sent_now n.id (w.clock (suc w.readings)) n w.committed.notifications h.stored),
      )

-- ===== src/Notifications/Deliver/Attempt.antt =====
-- app/tasks.py: one attempt to deliver, with the mail log and the rows on every path.
use wax_watch_api.Prelude.{ℕ, ap, some, Bool, true, false, not, List, [], ◌∷◌, ◌++◌, if◌then◌else◌}
use wax_watch_api.Models.{Notification, NotificationChannel, email, realtime, channel_eq, is_sent}
use wax_watch_api.Environment.{Environment, EmailDeliveryResult}
use wax_watch_api.Session.{Tables, ok, raised, broker_error, pure, now_utc}
use wax_watch_api.Session.Ensures.{
  Post, Ensures, Ensures-bind, Ensures-pure, Ensures-raise, Ensures-if, Ensures_kept,
  Ensures-option, Ensures-modify,
}
use wax_watch_api.Notifications.Frame.{
  get_or_create_preferences-Keeps, defer_delivery_seconds-Keeps, user_of-Keeps,
}
use wax_watch_api.Notifications.Deliver.{
  update_rows, update_notification, mark_sent, mark_failed, call_provider, record_result, mail_out,
  send_email, publish, publish_realtime, apply_async, send_on, deliver_now_or_later,
}
use wax_watch_api.Notifications.Deliver.Once.{Steady, Steady-KeptByReads, idle, taken, streamed}
use wax_watch_api.Notifications.Deliver.Endings.{
  Ended, Broken, Answered, Refused, Effect_at, Steady-Ended, Steady-Broken, Refused-Ended,
  Refused-Broken, Answered-now,
}

module _ (env : Environment) (n : Notification) (mails : List (ℕ × Bool)) (base : Tables)
    (rows : List Notification) where
  call_provider_lem :
      Ensures
        (Steady mails base rows)
        (call_provider env n.id)
        (λ result. Answered n.id mails base rows result.success)
        (Broken n.id mails base rows)
  unfolding call_provider
  call_provider_lem = record {
    at = λ w h. record {
      alone = h.alone;
      base_eq = h.base_eq;
      mails_eq = rw (← h.mails_eq);
      rows_eq = h.rows_eq;
    };
  }

  record_result_lem :
      (result : EmailDeliveryResult) (now : ℕ)
      → Ensures
          (Answered n.id mails base rows result.success)
          (record_result env n result now)
          (λ _. Ended n.id mails base rows)
          (Broken n.id mails base rows)
  unfolding record_result update_notification
  record_result_lem result now =
      Ensures-if result.success _ _
        (λ success. Ensures-modify _ (λ w h. record {
          alone = h.alone;
          base_eq = h.base_eq;
          effect =
              Effect_at n.id mails base rows (rw success at h.mails_eq)
                (ap (update_rows n.id (mark_sent now)) h.rows_eq) (taken now);
        }))
        (λ failure.
          Ensures-bind {R = λ _. Refused n.id mails base rows now} _ _
            (Ensures-modify _ (λ w h. record {
              alone = h.alone;
              base_eq = h.base_eq;
              mails_eq = rw failure at h.mails_eq;
              rows_eq = ap (update_rows n.id (mark_failed now)) h.rows_eq;
            }))
            (λ _.
              Ensures-if result.retryable _ _
                (λ _. Ensures-raise _ (Refused-Broken n.id mails base rows now))
                (λ _. Ensures-pure tt (Refused-Ended n.id mails base rows now))))

  mail_out_lem :
      Ensures
        (Steady mails base rows)
        (mail_out env n)
        (λ _. Ended n.id mails base rows)
        (Broken n.id mails base rows)
  unfolding mail_out
  mail_out_lem =
      Ensures-bind _ _
        (Ensures_kept (user_of-Keeps env (Steady-KeptByReads env) n.user_id)
          (Steady-Broken n.id mails base rows))
        (λ user. Ensures-bind _ _ call_provider_lem (λ result.
          Ensures-bind _ _ (Answered-now n.id mails base rows result.success)
            (λ now. record_result_lem result now)))

  done_idle :
      Ensures
        (Steady mails base rows)
        (pure tt)
        (λ _. Ended n.id mails base rows)
        (Broken n.id mails base rows)
  done_idle = Ensures-pure tt (Steady-Ended n.id mails base rows)

  send_email_lem :
      Ensures
        (Steady mails base rows)
        (send_email env n)
        (λ _. Ended n.id mails base rows)
        (Broken n.id mails base rows)
  unfolding send_email
  send_email_lem =
      Ensures-if (not (channel_eq n.channel email)) _ _
        (λ _. Ensures-raise _ (Steady-Broken n.id mails base rows))
        (λ _.
          Ensures-if (is_sent n.status) _ _ (λ _. done_idle)
            (λ _.
              Ensures-bind _ _
                (Ensures_kept
                  (get_or_create_preferences-Keeps env (Steady-KeptByReads env) n.user_id)
                  (Steady-Broken n.id mails base rows))
                (λ p. Ensures-if (not p.email_enabled) _ _ (λ _. done_idle) (λ _. mail_out_lem))))

  Steady-now :
      Ensures
        (Steady mails base rows)
        now_utc
        (λ _. Steady mails base rows)
        (Broken n.id mails base rows)
  Steady-now = Ensures_kept (Steady-KeptByReads env).now (Steady-Broken n.id mails base rows)

  publish_realtime_lem :
      Ensures
        (Steady mails base rows)
        (publish_realtime env n)
        (λ _. Ended n.id mails base rows)
        (Broken n.id mails base rows)
  unfolding publish_realtime publish update_notification
  publish_realtime_lem =
      Ensures-if (not (channel_eq n.channel realtime)) _ _
        (λ _. Ensures-raise _ (Steady-Broken n.id mails base rows))
        (λ _.
          Ensures-if (is_sent n.status) _ _ (λ _. done_idle)
            (λ _.
              Ensures-bind {R = λ _. Steady mails base rows} _ _
                (Ensures-modify _ (λ w h. record {
                  alone = h.alone;
                  mails_eq = h.mails_eq;
                  base_eq = h.base_eq;
                  rows_eq = h.rows_eq;
                }))
                (λ _. Ensures-bind _ _ Steady-now (λ now. Ensures-modify _ (λ w h. record {
                  alone = h.alone;
                  base_eq = h.base_eq;
                  effect =
                      Effect_at n.id mails base rows h.mails_eq
                        (ap (update_rows n.id (mark_sent now)) h.rows_eq) (streamed now);
                })))))

  send_on_lem :
      (c : NotificationChannel)
      → Ensures
          (Steady mails base rows)
          (send_on env c n)
          (λ _. Ended n.id mails base rows)
          (Broken n.id mails base rows)
  send_on_lem email = send_email_lem
  send_on_lem realtime = publish_realtime_lem

  apply_async_lem :
      (seconds : ℕ)
      → Ensures
          (Steady mails base rows)
          (apply_async env n.id seconds)
          (λ _. Ended n.id mails base rows)
          (Broken n.id mails base rows)
  unfolding apply_async
  apply_async_lem seconds = record {
    at = λ w h.
        elim (env.accepts w.epoch n.id)
          as (λ b.
            Post (λ _. Ended n.id mails base rows) (Broken n.id mails base rows)
              (if b
                then (ok tt, record w { enqueued = w.enqueued ++ (n.id, some seconds) ∷ [] })
                else (raised broker_error, w))) [
                  | true ↦ record {
                    alone = h.alone;
                    base_eq = h.base_eq;
                    effect = Effect_at n.id mails base rows h.mails_eq h.rows_eq idle;
                  }
                  | false ↦ Steady-Broken n.id mails base rows w h
                ];
  }

  -- Put off, mailed, refused or streamed: nothing else happens to the log and the rows, and a
  -- broken attempt took no mail.
  pub attempt_lem :
      (is_eager : Bool)
      → Ensures
          (Steady mails base rows)
          (deliver_now_or_later env is_eager n)
          (λ _. Ended n.id mails base rows)
          (Broken n.id mails base rows)
  unfolding deliver_now_or_later
  attempt_lem is_eager =
      Ensures-bind _ _
        (Ensures_kept (defer_delivery_seconds-Keeps env (Steady-KeptByReads env) n)
          (Steady-Broken n.id mails base rows))
        (λ defer.
          Ensures-option defer _ _ (send_on_lem n.channel)
            (λ seconds. Ensures-if is_eager _ _ (λ _. done_idle) (λ _. apply_async_lem seconds)))

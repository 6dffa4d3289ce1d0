-- ===== src/Notifications/Enqueue.antt =====
-- app/services/notifications.py: `enqueue_from_event` and the delay of a delivery.
use wax_watch_api.Prelude.{
  ℕ, ◌==◌, ltb, Option, none, some, Bool, false, ◌&&◌, List, [], ◌∷◌, ◌++◌, first, if◌then◌else◌,
}
use wax_watch_api.Models.{
  Event, Notification, NotificationChannel, email, realtime, channel_eq, pending, is_sent,
  is_pending, User, UserNotificationPreference,
}
use wax_watch_api.QuietHours.{Quiet, next_delivery_time, defer_seconds}
use wax_watch_api.Environment.{Environment}
use wax_watch_api.Session.{
  Action, attribute_error, integrity_error, pure, raise, gets, modify, ◌>>=◌, ◌>>◌, option_case,
  now_utc, fresh_id,
}
use wax_watch_api.Outbox.{queue_notification_delivery}
use wax_watch_api.Notifications.Preferences.{
  get_or_create_preferences, preference_allows_event, resolve_timezone,
}

-- `func.max` over a column: NULL is skipped, and the maximum of nothing is NULL.
abbrev pub later : Option ℕ → Option ℕ → Option ℕ
later none b = b
later (some a) none = some a
later (some a) (some b) = some (if ltb a b then b else a)

-- The latest `delivered_at` of what was sent to the user on the channel.
unfoldable pub last_delivered : ℕ → NotificationChannel → List Notification → Option ℕ
last_delivered user_id channel [] = none
last_delivered user_id channel (n ∷ ns) =
    let rest = last_delivered user_id channel ns in
    if n.user_id == user_id && channel_eq n.channel channel && is_sent n.status
    then later n.delivered_at rest
    else rest

-- `notification.user`
unfoldable pub user_of : ℕ → Action User
user_of user_id = do
  found ← gets (λ w. first (λ u. u.id == user_id) w.users)
  option_case found (raise attribute_error) pure

abbrev pub quiet_of : Environment → UserNotificationPreference → User → Quiet
quiet_of env p u = record {
  zone = resolve_timezone env p u.timezone;
  start = p.quiet_hours_start;
  stop = p.quiet_hours_end;
  frequency = p.delivery_frequency;
}

module _ (env : Environment) where
  unfoldable pub next_time : Notification → Action (Option ℕ)
  next_time n = do
    now ← now_utc
    preference ← get_or_create_preferences env n.user_id
    user ← user_of n.user_id
    last ← gets (λ w. last_delivered n.user_id n.channel w.notifications)
    pure (next_delivery_time (quiet_of env preference user) last now)

  unfoldable pub defer_delivery_seconds : Notification → Action (Option ℕ)
  defer_delivery_seconds n = do
    next_at ← next_time n
    option_case next_at (pure none) (λ at. do now ← now_utc; pure (defer_seconds (some at) now))

abbrev pub notification_of : ℕ → NotificationChannel → List Notification → Option Notification
notification_of event_id channel =
    first (λ n. n.event_id == event_id && channel_eq n.channel channel)

unfoldable pub append_notification : Notification → Action (Unit {0})
append_notification n =
    modify (λ w. record w { db = record w.db { notifications = w.notifications ++ n ∷ [] } })

-- The unique constraint `uq_notifications_event_channel`.
unfoldable pub insert_notification : Notification → Action Notification
unfolding append_notification
insert_notification n = do
  clash ← gets (λ w. notification_of n.event_id n.channel w.notifications)
  option_case clash (do append_notification n; pure n) (λ _. raise integrity_error)

abbrev new_notification : Event → NotificationChannel → (id created updated : ℕ) → Notification
new_notification e channel id created updated = record {
  id = id;
  user_id = e.user_id;
  event_id = e.id;
  event_type = e.type;
  channel = channel;
  status = pending;
  is_read = false;
  delivered_at = none;
  failed_at = none;
  read_at = none;
  created_at = created;
  updated_at = updated;
}

unfoldable pub create_notification : Event → NotificationChannel → Action Notification
create_notification e channel = do
  id ← fresh_id
  created ← now_utc
  updated ← now_utc
  insert_notification (new_notification e channel id created updated)

-- The notification of the event on the channel, which is created if there is none.
unfoldable pub ensure_notification : Event → NotificationChannel → Action Notification
ensure_notification e channel = do
  found ← gets (λ w. notification_of e.id channel w.notifications)
  option_case found (create_notification e channel) pure

abbrev pub channel_enabled : UserNotificationPreference → NotificationChannel → Bool
channel_enabled p email = p.email_enabled
channel_enabled p realtime = p.realtime_enabled

module _ (env : Environment) where
  unfoldable pub queue_if_pending : Notification → Action (Unit {0})
  queue_if_pending n =
      if is_pending n.status
      then (do countdown ← defer_delivery_seconds env n; queue_notification_delivery n.id countdown)
      else pure tt

  unfoldable pub enqueue_channels :
      Event → UserNotificationPreference → List NotificationChannel → Action (List Notification)
  enqueue_channels e p [] = pure []
  enqueue_channels e p (channel ∷ channels) =
      let rest = enqueue_channels e p channels in
      if channel_enabled p channel
      then (do n ← ensure_notification e channel; queue_if_pending n; ns ← rest; pure (n ∷ ns))
      else rest

  -- `enqueue_from_event(db, event=event)`
  unfoldable pub enqueue_from_event : Event → Action (List Notification)
  enqueue_from_event e = do
    preference ← get_or_create_preferences env e.user_id
    if preference_allows_event (some preference) e.type
        then enqueue_channels e preference (email ∷ realtime ∷ [])
        else pure []

-- ===== src/Notifications/Frame.antt =====
-- app/services/notifications.py: the steps that the services are made of, for predicates of the
-- world that each step keeps.
use wax_watch_api.Prelude.{ℕ, Option, none, some, List, [], ◌∷◌}
use wax_watch_api.Models.{
  Event, Notification, NotificationChannel, is_pending, email, realtime, UserNotificationPreference,
}
use wax_watch_api.Environment.{Environment}
use wax_watch_api.Session.{Tables, World, Action, now_utc, fresh_id, overtaken}
use wax_watch_api.Session.Keeps.{
  Keeps, Keeps-modify, Keeps-if, Keeps-bind, Keeps-pure, Keeps-gets, Keeps-option, Keeps-catch,
  Holds, keeps_rules, Holds-now_utc, Holds-fresh_id, Holds-overtaken,
}
use wax_watch_api.Outbox.{queue_notification_delivery, begin_nested}
use wax_watch_api.Outbox.Keeps.{Holds-IgnoresOutbox, queue-Keeps, begin_nested-Keeps}
use wax_watch_api.Notifications.Preferences.{
  append_preference, insert_preference, create_preferences, reread_preferences,
  get_or_create_preferences, preference_allows_event,
}
use wax_watch_api.Notifications.Enqueue.{
  channel_enabled, user_of, next_time, defer_delivery_seconds, append_notification,
  insert_notification, create_notification, ensure_notification, queue_if_pending, enqueue_channels,
  enqueue_from_event,
}

-- The steps from which the delay of a delivery is computed.
pub record KeptByReads (env : Environment) (P : World → Type 0) : Type 1 where
  pub now : Keeps P now_utc
  pub fresh : Keeps P fresh_id
  pub overtaken_kept : Keeps P overtaken
  pub nested : {A : Type 0} (m : Action A) → Keeps P m → Keeps P (begin_nested env m)
  pub preference : (p : UserNotificationPreference) → Keeps P (append_preference p)

module _ {P : World → Type 0} (env : Environment) (k : KeptByReads env P) where
  insert_preference-Keeps : (p : UserNotificationPreference) → Keeps P (insert_preference p)
  unfolding insert_preference
  insert_preference-Keeps p = search (keeps_rules, k.preference)

  create_preferences-Keeps : (user_id : ℕ) → Keeps P (create_preferences user_id)
  unfolding create_preferences
  create_preferences-Keeps user_id =
      search (keeps_rules, k.now, k.fresh, insert_preference-Keeps) depth 8

  reread_preferences-Keeps : (user_id : ℕ) → Keeps P (reread_preferences user_id)
  unfolding reread_preferences
  reread_preferences-Keeps user_id = search keeps_rules

  create_nested-Keeps : (user_id : ℕ) → Keeps P (begin_nested env (create_preferences user_id))
  create_nested-Keeps user_id = k.nested _ (create_preferences-Keeps user_id)

  pub get_or_create_preferences-Keeps :
      (user_id : ℕ) → Keeps P (get_or_create_preferences env user_id)
  unfolding get_or_create_preferences
  get_or_create_preferences-Keeps user_id = Keeps-bind _ _ (Keeps-gets _) (λ found.
      Keeps-option found _ _
        (Keeps-bind _ _ k.overtaken_kept
          (λ _. Keeps-catch _ _ (create_nested-Keeps user_id) (reread_preferences-Keeps user_id)))
        (λ p. Keeps-pure p))

  pub user_of-Keeps : (user_id : ℕ) → Keeps P (user_of user_id)
  unfolding user_of
  user_of-Keeps user_id = search keeps_rules

  next_time-Keeps : (n : Notification) → Keeps P (next_time env n)
  unfolding next_time
  next_time-Keeps n = Keeps-bind _ _ k.now (λ now.
      Keeps-bind _ _ (get_or_create_preferences-Keeps n.user_id) (λ p.
        Keeps-bind _ _ (user_of-Keeps n.user_id)
          (λ u. Keeps-bind _ _ (Keeps-gets _) (λ last. Keeps-pure _))))

  pub defer_delivery_seconds-Keeps : (n : Notification) → Keeps P (defer_delivery_seconds env n)
  unfolding defer_delivery_seconds
  defer_delivery_seconds-Keeps n = Keeps-bind _ _ (next_time-Keeps n) (λ next_at.
      Keeps-option next_at _ _ (Keeps-pure none) (λ at. Keeps-bind _ _ k.now (λ now. Keeps-pure _)))

-- And the steps that write notifications and the outbox.
pub record KeptByWrites (P : World → Type 0) : Type 0 where
  pub notification : (n : Notification) → Keeps P (append_notification n)
  pub queue_kept :
      (id : ℕ) (countdown : Option ℕ) → Keeps P (queue_notification_delivery id countdown)

module _ {P : World → Type 0} (env : Environment) (k : KeptByReads env P) (v : KeptByWrites P) where
  insert_notification-Keeps : (n : Notification) → Keeps P (insert_notification n)
  unfolding insert_notification
  insert_notification-Keeps n = search (keeps_rules, v.notification)

  create_notification-Keeps :
      (e : Event) (c : NotificationChannel) → Keeps P (create_notification e c)
  unfolding create_notification
  create_notification-Keeps e c =
      search (keeps_rules, k.now, k.fresh, insert_notification-Keeps) depth 8

  ensure_notification-Keeps :
      (e : Event) (c : NotificationChannel) → Keeps P (ensure_notification e c)
  unfolding ensure_notification
  ensure_notification-Keeps e c = search (keeps_rules, create_notification-Keeps)

  queue_if_pending-Keeps : (n : Notification) → Keeps P (queue_if_pending env n)
  unfolding queue_if_pending
  queue_if_pending-Keeps n =
      Keeps-if (is_pending n.status) _ _
        (Keeps-bind _ _ (defer_delivery_seconds-Keeps env k n) (λ c. v.queue_kept n.id c))
        (Keeps-pure tt)

  enqueue_channels-Keeps :
      (e : Event) (p : UserNotificationPreference) (cs : List NotificationChannel)
      → Keeps P (enqueue_channels env e p cs)
  unfolding enqueue_channels
  enqueue_channels-Keeps e p [] = search keeps_rules
  enqueue_channels-Keeps e p (c ∷ cs) =
      let rest = enqueue_channels-Keeps e p cs in
      Keeps-if (channel_enabled p c) _ _
        (Keeps-bind _ _ (ensure_notification-Keeps e c) (λ n.
          Keeps-bind _ _ (queue_if_pending-Keeps n)
            (λ _. Keeps-bind _ _ rest (λ ns. Keeps-pure _))))
        rest

  pub enqueue_from_event-Keeps : (e : Event) → Keeps P (enqueue_from_event env e)
  unfolding enqueue_from_event
  enqueue_from_event-Keeps e =
      Keeps-bind _ _ (get_or_create_preferences-Keeps env k e.user_id) (λ p.
        Keeps-if (preference_allows_event (some p) e.type) _ _
          (enqueue_channels-Keeps e p (email ∷ realtime ∷ [])) (Keeps-pure _))

-- An invariant of the tables that speaks neither of preferences nor of notifications.
pub record IgnoresDelivery (I : Tables → Type 0) : Type 0 where
  pub preferences :
      (t : Tables) (ps : List UserNotificationPreference) → I t → I (record t { preferences = ps })
  pub notifications :
      (t : Tables) (ns : List Notification) → I t → I (record t { notifications = ns })

module _ {I : Tables → Type 0} (ig : IgnoresDelivery I) where
  append_preference-Holds : (p : UserNotificationPreference) → Keeps (Holds I) (append_preference p)
  unfolding append_preference
  append_preference-Holds p =
      Keeps-modify _
        (λ w h. record { here = ig.preferences w.db _ h.here; elsewhere = h.elsewhere })

  append_notification-Holds : (n : Notification) → Keeps (Holds I) (append_notification n)
  unfolding append_notification
  append_notification-Holds n =
      Keeps-modify _
        (λ w h. record { here = ig.notifications w.db _ h.here; elsewhere = h.elsewhere })

  pub Holds-KeptByReads : (env : Environment) → KeptByReads env (Holds I)
  Holds-KeptByReads env = record {
    now = Holds-now_utc;
    fresh = Holds-fresh_id;
    overtaken_kept = Holds-overtaken;
    nested = λ m km. begin_nested-Keeps Holds-IgnoresOutbox env m km;
    preference = append_preference-Holds;
  }

  pub enqueue_from_event_kept :
      (env : Environment) (e : Event) → Keeps (Holds I) (enqueue_from_event env e)
  enqueue_from_event_kept env e =
      enqueue_from_event-Keeps env (Holds-KeptByReads env)
        (record {
          notification = append_notification-Holds;
          queue_kept = queue-Keeps Holds-IgnoresOutbox;
        })
        e

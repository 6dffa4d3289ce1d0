-- ===== src/Notifications/Examples.antt =====
-- A delivery that the provider refuses once and takes then, and one after another mail.
use wax_watch_api.Prelude.{true, ◌≤◌, ◌≡◌, refl, [], ◌∷◌, false}
use wax_watch_api.Prelude.Text.{text_eq}
use wax_watch_api.Session.{World, ok}
use wax_watch_api.QuietHours.{
  next_delivery_time, delivery_candidate, next_quiet_window_end, frequency_defer_until,
  delivery_frequency_seconds,
}
use wax_watch_api.Notifications.Deliver.{deliver_notification_task, new_session, run_tasks}
use wax_watch_api.Notifications.Deliver.Now.{IsDue, due_mailed}
use wax_watch_api.Notifications.Deliver.Once.{successes, IsDelivered}
use wax_watch_api.Notifications.Deliver.Repeat.{mailed_once}
use wax_watch_api.Samples.{environment, alone, user, preference, notification}

none_yet : successes 5 [] ≡ 0
unfolding successes
none_yet = refl

mailed_once_example : successes 5 (run_tasks environment (5 ∷ 5 ∷ 5 ∷ []) alone).mailed ≤ 1
mailed_once_example = mailed_once environment (5 ∷ 5 ∷ 5 ∷ []) 5 alone refl none_yet

-- Another notification was mailed before.
abbrev second_mail : World
second_mail = record alone { mailed = (9, true) ∷ [] }

notification-IsDue : IsDue environment second_mail notification preference user
unfolding next_delivery_time delivery_candidate next_quiet_window_end frequency_defer_until
    delivery_frequency_seconds text_eq
notification-IsDue = record {
  stored = refl;
  unsent = refl;
  mail = refl;
  wanted = refl;
  preference = refl;
  user = refl;
  due = refl;
}

due_mailed_example :
    ((deliver_notification_task environment false 5 (new_session second_mail)).0 ≡ ok tt)
    × ((deliver_notification_task environment false 5 (new_session second_mail)).1.mailed
        ≡ (5, true) ∷ (9, true) ∷ [])
    × IsDelivered 5
        (deliver_notification_task environment false 5
          (new_session second_mail)).1.committed.notifications
due_mailed_example =
    due_mailed environment false notification preference user second_mail notification-IsDue refl

-- ===== src/Notifications.antt =====
-- app/services/notifications.py: preferences, the notifications of an event, and their delivery.
-- Log lines and the backlog gauge have no effect on the state and are left out.
pub mod Preferences
pub mod Enqueue
pub mod Frame
pub mod Deliver
mod Examples

-- ===== src/Environment.antt =====
-- The settings and the outside services that the services of app/services read: the Unicode
-- tables, the time zone database, Celery's broker and the mail provider. None of them is program
-- code; the theorems name what they assume of them.
use wax_watch_api.Prelude.{ℕ, Option, Bool}
use wax_watch_api.Prelude.Text.{Text, Unicode}
use wax_watch_api.QuietHours.{Zone}

-- EmailDeliveryResult of app/services/email_provider.py
pub record EmailDeliveryResult : Type 0 where
  pub success : Bool
  pub retryable : Bool

pub record Environment : Type 0 where
  pub unicode : Unicode
  -- `ZoneInfo(name)`, which raises for an unknown name, and `ZoneInfo("UTC")`
  pub zone_info : Text → Option Zone
  pub utc : Zone
  -- Whether Celery accepts the delivery of a notification after a commit.
  pub accepts : (epoch notification_id : ℕ) → Bool
  -- What the provider answers to the n-th mail.
  pub mail_result : ℕ → EmailDeliveryResult
  -- Whether SQLAlchemy runs the commit and rollback hooks at the end of a savepoint too.
  pub savepoint_hooks : Bool
  pub dev_auto_create_users : Bool

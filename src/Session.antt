-- ===== src/Session.antt =====
-- The world of a request or a task: a SQLAlchemy session over the tables of app/db/models.py, the
-- clock, and what has been handed to Celery, the mail provider and the event stream. A method is
-- an action on it; a raise leaves what was written before it, until the session rolls back.
pub mod Keeps
pub mod Ensures
use wax_watch_api.Prelude.{
  ℕ, suc, ◌+◌, Option, none, some, Bool, true, false, List, [], ◌∷◌, ◌++◌, if◌then◌else◌,
}
use wax_watch_api.Prelude.Text.{Text}
use wax_watch_api.Prelude.Dict.{Dict}
use wax_watch_api.Models.{
  User, WatchRelease, WatchSearchRule, Listing, WatchMatch, Event, Notification,
  UserNotificationPreference, PriceSnapshot, ExternalAccountLink, ImportJob, ProviderRequest,
}

pub record Tables : Type 0 where
  pub users : List User
  pub releases : List WatchRelease
  pub rules : List WatchSearchRule
  pub listings : List Listing
  pub matches : List WatchMatch
  pub events : List Event
  pub notifications : List Notification
  pub preferences : List UserNotificationPreference
  pub snapshots : List PriceSnapshot
  pub links : List ExternalAccountLink
  pub jobs : List ImportJob
  pub provider_requests : List ProviderRequest

pub record World : Type 0 where
  -- The tables as the session sees them, and as they were last committed.
  pub db : Tables
  pub open db use *
  pub committed : Tables
  -- Watched releases that `db.add` took and no flush has written yet: no query sees them.
  pub added : List WatchRelease
  -- What other transactions commit, one step at each point where the program can be overtaken.
  pub others : List (Tables → Tables)
  -- `datetime.now(timezone.utc)`: the n-th reading, and how many were taken.
  pub clock : ℕ → ℕ
  pub readings : ℕ
  -- `uuid4()`: no identifier is given twice.
  pub next_id : ℕ
  -- The three keys of `session.info`: deliveries to dispatch after the commit, the number of the
  -- commit, and the commit whose dispatch failed.
  pub queue : Option (Dict ℕ (Option ℕ))
  pub epoch : ℕ
  pub failed_epoch : Option ℕ
  -- Calls of `enqueue_notification_delivery` that went through, mails handed to the provider with
  -- its success, and payloads published on the stream, each by the notification.
  pub enqueued : List (ℕ × Option ℕ)
  pub mailed : List (ℕ × Bool)
  pub published : List ℕ
  -- HTTP requests made to Discogs, and the import jobs handed to Celery, with their countdown.
  pub requests : ℕ
  pub imports : List (ℕ × ℕ)

pub data Error : Type 0 where
  http_exception : (status_code : ℕ) → Error
  value_error runtime_error integrity_error attribute_error no_result_found broker_error : Error
  type_error transport_error : Error
  -- A flush outside a savepoint that the database refused, and what every later use of the session
  -- raises until it is rolled back.
  flush_failed pending_rollback_error : Error

pub data Outcome {ℓ} (A : Type ℓ) : Type ℓ where
  ok : A → Outcome A
  raised : Error → Outcome A

abbrev pub Action : Type 0 → Type 0
Action A = World → Outcome A × World

module _ {A : Type 0} where
  unfoldable pub pure : A → Action A
  pure a w = (ok a, w)

  unfoldable pub raise : Error → Action A
  raise e w = (raised e, w)

  unfoldable pub gets : (World → A) → Action A
  gets f w = (ok (f w), w)

unfoldable pub modify : (World → World) → Action (Unit {0})
modify f w = (ok tt, f w)

module _ {A B : Type 0} where
  abbrev pub continue : Outcome A → (A → Action B) → Action B
  continue (ok a) f w = f a w
  continue (raised e) f w = (raised e, w)

  infixl 5 ◌>>=◌ ◌>>◌
  unfoldable pub ◌>>=◌ : Action A → (A → Action B) → Action B
  unfolding pure raise gets modify
  ◌>>=◌ m f w = let (r, w') = m w in continue r f w'

  abbrev pub ◌>>◌ : Action A → Action B → Action B
  m >> k = m >>= λ _. k

-- `if x is None: ... else: ...`
abbrev pub option_case : {A B : Type 0} → Option A → B → (A → B) → B
option_case none b f = b
option_case (some a) b f = f a

-- A computation that may raise, as a step.
abbrev pub lift : {A : Type 0} → Outcome A → Action A
lift (ok a) w = (ok a, w)
lift (raised e) w = (raised e, w)

-- `datetime.now(timezone.utc)`
unfoldable pub now_utc : Action ℕ
now_utc w = (ok (w.clock w.readings), record w { readings = suc w.readings })

-- `uuid4()`
unfoldable pub fresh_id : Action ℕ
fresh_id w = (ok w.next_id, record w { next_id = suc w.next_id })

-- Another transaction may commit here.
abbrev pub take_over : List (Tables → Tables) → World → World
take_over [] w = w
take_over (step ∷ rest) w = record w { db = step w.db; others = rest }

unfoldable pub overtaken : Action (Unit {0})
overtaken w = (ok tt, take_over w.others w)

-- `try: ... except IntegrityError: ...`
abbrev pub on_integrity_error : {A : Type 0} → Action A → Outcome A × World → Outcome A × World
on_integrity_error handler (ok a, w) = (ok a, w)
on_integrity_error handler (raised integrity_error, w) = handler w
on_integrity_error handler (raised e, w) = (raised e, w)

unfoldable pub catch_integrity_error : {A : Type 0} → Action A → Action A → Action A
catch_integrity_error m handler w = on_integrity_error handler (m w)

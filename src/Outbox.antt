-- ===== src/Outbox.antt =====
-- app/services/notifications.py: deliveries that wait in `session.info` for the commit, and the
-- session events that dispatch or drop them.
pub mod Laws
pub mod Divided
pub mod Keeps
mod Examples
use wax_watch_api.Prelude.{
  ℕ, suc, ◌+◌, Option, none, some, Bool, true, false, not, ◌&&◌, List, [], ◌∷◌, ◌++◌, keep, ◌==◌,
  get_or, if◌then◌else◌,
}
use wax_watch_api.Prelude.Dict.{Dict, put, nat_key}
use wax_watch_api.Environment.{Environment}
use wax_watch_api.Session.{Tables, World, Action, Outcome, ok, raised, modify}

abbrev pub Dispatches : Type 0
Dispatches = Dict ℕ (Option ℕ)

abbrev pub pending : World → Dispatches
pending w = get_or w.queue []

-- `_queue_notification_delivery`
unfoldable pub queue_notification_delivery : ℕ → Option ℕ → Action (Unit {0})
queue_notification_delivery notification_id countdown =
    modify (λ w. record w { queue = some (put notification_id countdown (pending w)) })

-- `_bump_notification_delivery_commit_epoch`
unfoldable pub before_commit : World → World
before_commit w = record w { epoch = suc w.epoch }

-- `failed_epoch == commit_epoch`
abbrev pub failed_in : Option ℕ → ℕ → Bool
failed_in none epoch = false
failed_in (some e) epoch = e == epoch

module _ (env : Environment) where
  -- Dispatches that Celery takes in this commit, and those that raise.
  abbrev pub taken : ℕ → Dispatches → Dispatches
  taken epoch = keep (λ d. env.accepts epoch d.0)

  abbrev pub refused : ℕ → Dispatches → Dispatches
  refused epoch = keep (λ d. not (env.accepts epoch d.0))

  abbrev settle : World → Dispatches → World
  settle w [] = record w { queue = none; failed_epoch = none }
  settle w (d ∷ ds) = record w { queue = some (d ∷ ds); failed_epoch = some w.epoch }

  abbrev dispatch_all : World → Dispatches → World
  dispatch_all w [] = w
  dispatch_all w (d ∷ ds) =
      settle (record w { enqueued = w.enqueued ++ taken w.epoch (d ∷ ds) })
        (refused w.epoch (d ∷ ds))

  -- `_dispatch_notification_delivery_after_commit`
  unfoldable pub after_commit : World → World
  after_commit w = if failed_in w.failed_epoch w.epoch then w else dispatch_all w (pending w)

  -- `_clear_notification_delivery_after_rollback`
  unfoldable pub after_rollback : World → World
  after_rollback w = record w { queue = none; failed_epoch = none }

  -- `db.commit()` and `db.rollback()` with the program's hooks
  unfoldable pub commit : World → World
  unfolding before_commit after_commit
  commit w = let w' = before_commit w in after_commit (record w' { committed = w'.db })

  unfoldable pub rollback : World → World
  unfolding after_rollback
  rollback w = after_rollback (record w { db = w.committed; added = [] })

  abbrev close_savepoint : {A : Type 0} → Tables → Outcome A × World → Outcome A × World
  close_savepoint before (ok a, w) =
      (ok a, if env.savepoint_hooks then after_commit (before_commit w) else w)
  close_savepoint before (raised e, w) =
      let w' = record w { db = before } in
      (raised e, if env.savepoint_hooks then after_rollback w' else w')

  -- `with db.begin_nested(): ...`
  unfoldable pub begin_nested : {A : Type 0} → Action A → Action A
  unfolding before_commit after_commit after_rollback
  begin_nested m w = close_savepoint w.db (m w)

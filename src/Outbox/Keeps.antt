-- ===== src/Outbox/Keeps.antt =====
-- app/services/notifications.py: the session events, for predicates that do not read the outbox.
use wax_watch_api.Prelude.{ℕ, suc, Option, none, some, true, false, List, [], ◌∷◌, if◌then◌else◌}
use wax_watch_api.Environment.{Environment}
use wax_watch_api.Session.{Tables, World, Outcome, ok, raised, Action}
use wax_watch_api.Session.Keeps.{Keeps, Keeps-modify, Holds}
use wax_watch_api.Outbox.{
  Dispatches, pending, queue_notification_delivery, before_commit, failed_in, settle, refused,
  dispatch_all, after_commit, after_rollback, close_savepoint, begin_nested,
}

-- `w` with another outbox
abbrev pub with_outbox : World → Option Dispatches → ℕ → Option ℕ → List (ℕ × Option ℕ) → World
with_outbox w q e f d = record w { queue = q; epoch = e; failed_epoch = f; enqueued = d }

pub record IgnoresOutbox (P : World → Type 0) : Type 0 where
  pub outbox :
      (w : World) (q : Option Dispatches) (e : ℕ) (f : Option ℕ) (d : List (ℕ × Option ℕ))
      → P w
      → P (with_outbox w q e f d)
  pub restored : (w w' : World) → P w → P w' → P (record w' { db = w.db })

module _ {P : World → Type 0} (ig : IgnoresOutbox P) where
  pub queue-Keeps :
      (id : ℕ) (countdown : Option ℕ) → Keeps P (queue_notification_delivery id countdown)
  unfolding queue_notification_delivery
  queue-Keeps id countdown =
      Keeps-modify _ (λ w h. ig.outbox w _ w.epoch w.failed_epoch w.enqueued h)

  settled :
      (env : Environment) (w : World) (d : List (ℕ × Option ℕ)) (r : Dispatches)
      → P w
      → P (settle env (record w { enqueued = d }) r)
  settled env w d [] h = ig.outbox w none w.epoch none d h
  settled env w d (x ∷ r) h = ig.outbox w (some (x ∷ r)) w.epoch (some w.epoch) d h

  dispatched : (env : Environment) (w : World) (ds : Dispatches) → P w → P (dispatch_all env w ds)
  dispatched env w [] h = h
  dispatched env w (d ∷ ds) h = settled env w _ (refused env w.epoch (d ∷ ds)) h

  pub after_commit_kept : (env : Environment) (w : World) → P w → P (after_commit env w)
  unfolding after_commit
  after_commit_kept env w h =
      elim (failed_in w.failed_epoch w.epoch)
        as (λ b. P (if b then w else dispatch_all env w (pending w))) [
          | true ↦ h
          | false ↦ dispatched env w (pending w) h
        ]

  closed :
      {A : Type 0} (env : Environment) (before : World) (out : Outcome A × World)
      → P before
      → P out.1
      → P (close_savepoint env before.db out).1
  unfolding before_commit after_rollback
  closed env before (ok a, w) b h =
      elim env.savepoint_hooks
        as (λ hooks. P (if hooks then after_commit env (before_commit w) else w)) [
          | true ↦
              after_commit_kept env (record w { epoch = suc w.epoch })
                (ig.outbox w w.queue (suc w.epoch) w.failed_epoch w.enqueued h)
          | false ↦ h
        ]
  closed env before (raised e, w) b h =
      let r = ig.restored before w b h in
      elim env.savepoint_hooks
        as (λ hooks. P (
          if hooks
          then after_rollback env (record w { db = before.db })
          else record w { db = before.db })) [
            | true ↦ ig.outbox (record w { db = before.db }) none w.epoch none w.enqueued r
            | false ↦ r
          ]

  pub begin_nested-Keeps :
      {A : Type 0} (env : Environment) (m : Action A) → Keeps P m → Keeps P (begin_nested env m)
  unfolding begin_nested
  begin_nested-Keeps env m k = record { at = λ w h. closed env w (m w) h (k.at w h) }

module _ {I : Tables → Type 0} where
  pub Holds-IgnoresOutbox : IgnoresOutbox (Holds I)
  Holds-IgnoresOutbox = record {
    outbox = λ w q e f d h. record { here = h.here; elsewhere = h.elsewhere };
    restored = λ w w' h h'. record { here = h.here; elsewhere = h'.elsewhere };
  }

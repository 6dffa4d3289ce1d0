-- ===== src/Outbox/Divided.antt =====
-- app/services/notifications.py: the commits of a session that queues, commits and rolls back.
use wax_watch_api.Prelude.{
  ℕ, suc, ◌≡◌, inl, inr, Bool-cases, Bool, Option, none, true, false, List, [], ◌∷◌, ◌++◌,
}
use wax_watch_api.Environment.{Environment}
use wax_watch_api.Session.{World, modify}
use wax_watch_api.Outbox.{
  Dispatches, pending, queue_notification_delivery, taken, refused, after_rollback, commit,
  rollback,
}
use wax_watch_api.Outbox.Laws.{IsPast, commit_lem, commit-IsPast}

-- The deliveries of a list, each either handed over, if it was accepted, or left, if it was not;
-- both in the order of the list.
pub data IsDivided (accepted : ℕ → Bool) : Dispatches → Dispatches → Dispatches → Type 0 where
  all_divided : IsDivided accepted [] [] []
  handed_over :
      {d : ℕ × Option ℕ} {ds handed left : Dispatches}
      → accepted d.0 ≡ true
      → IsDivided accepted ds handed left
      → IsDivided accepted (d ∷ ds) (d ∷ handed) left
  left_waiting :
      {d : ℕ × Option ℕ} {ds handed left : Dispatches}
      → accepted d.0 ≡ false
      → IsDivided accepted ds handed left
      → IsDivided accepted (d ∷ ds) handed (d ∷ left)

-- What a session does with its outbox.
pub data SessionStep : Type 0 where
  queues : (notification_id : ℕ) (countdown : Option ℕ) → SessionStep
  commits : SessionStep
  rolls_back : SessionStep

module _ (env : Environment) where
  abbrev pub session_step : SessionStep → World → World
  session_step (queues id countdown) w = (queue_notification_delivery id countdown w).1
  session_step commits w = commit env w
  session_step rolls_back w = rollback env w

  abbrev pub session_after : List SessionStep → World → World
  session_after [] w = w
  session_after (step ∷ steps) w = session_after steps (session_step step w)

  step-IsPast :
      (step : SessionStep) (w : World)
      → IsPast w.failed_epoch w.epoch
      → IsPast (session_step step w).failed_epoch (session_step step w).epoch
  unfolding queue_notification_delivery rollback after_rollback modify
  step-IsPast (queues id countdown) w h = h
  step-IsPast commits w h = commit-IsPast env w h
  step-IsPast rolls_back w h = tt

  session-IsPast :
      (steps : List SessionStep) (w : World)
      → IsPast w.failed_epoch w.epoch
      → IsPast (session_after steps w).failed_epoch (session_after steps w).epoch
  session-IsPast [] w h = h
  session-IsPast (step ∷ steps) w h =
      session-IsPast steps (session_step step w) (step-IsPast step w h)

  divided :
      (epoch : ℕ) (ds : Dispatches)
      → IsDivided (env.accepts epoch) ds (taken env epoch ds) (refused env epoch ds)
  divided epoch [] = all_divided
  divided epoch (d ∷ ds) = elim (Bool-cases (env.accepts epoch d.0)) [
    | inl took ↦ rw took (handed_over took (divided epoch ds))
    | inr raised ↦ rw raised (left_waiting raised (divided epoch ds))
  ]

  -- After whatever a session has queued, committed and rolled back, a commit makes its tables the
  -- committed ones, and each delivery that waits is either handed over to Celery, once, if Celery
  -- accepts it, or waits on, if it does not; nothing else is handed over, and nothing else waits.
  pub commit_divides :
      (steps : List SessionStep) (w : World)
      → w.failed_epoch ≡ none
      → let v = session_after steps w in
        ((commit env v).committed ≡ v.db)
        × ((handed : Dispatches) × ((commit env v).enqueued ≡ v.enqueued ++ handed)
            × IsDivided (env.accepts (suc v.epoch)) (pending v) handed (pending (commit env v)))
  commit_divides steps w fresh =
      let v = session_after steps w in
      let (kept, handed, left) = commit_lem env v (session-IsPast steps w (rw fresh tt)) in
      (
        kept,
        (taken env (suc v.epoch) (pending v), handed, rw left (divided (suc v.epoch) (pending v))),
      )

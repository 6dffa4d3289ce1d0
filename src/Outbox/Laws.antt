-- ===== src/Outbox/Laws.antt =====
-- app/services/notifications.py: what waits, what is handed over and what is dropped.
use wax_watch_api.Prelude.{
  ℕ, suc, ◌≤◌, ◌≡◌, refl, ap, ◌∙◌, sym, inl, inr, Bool-cases, All, Option, none, some, true, false,
  [], ◌∷◌, ◌++◌, append-nil, arith,
}
use wax_watch_api.Environment.{Environment}
use wax_watch_api.Session.{World}
use wax_watch_api.Outbox.{
  Dispatches, pending, failed_in, taken, refused, settle, dispatch_all, after_commit, commit,
}

-- No commit has failed that is yet to come.
abbrev pub IsPast : Option ℕ → ℕ → Type 0
IsPast none epoch = Unit
IsPast (some e) epoch = e ≤ epoch

past_not_failed : (f : Option ℕ) (epoch : ℕ) → IsPast f epoch → failed_in f (suc epoch) ≡ false
past_not_failed none epoch h = refl
past_not_failed (some e) epoch h = ground arith

settle-pending : (env : Environment) (w : World) (r : Dispatches) → pending (settle env w r) ≡ r
settle-pending env w [] = refl
settle-pending env w (d ∷ r) = refl

settle-enqueued :
    (env : Environment) (w : World) (r : Dispatches) → (settle env w r).enqueued ≡ w.enqueued
settle-enqueued env w [] = refl
settle-enqueued env w (d ∷ r) = refl

settle-db :
    (env : Environment) (w : World) (r : Dispatches) → (settle env w r).committed ≡ w.committed
settle-db env w [] = refl
settle-db env w (d ∷ r) = refl

module _ (env : Environment) where
  dispatch_all-pending :
      (w : World) (ds : Dispatches)
      → pending w ≡ ds
      → pending (dispatch_all env w ds) ≡ refused env w.epoch ds
  dispatch_all-pending w [] h = h
  dispatch_all-pending w (d ∷ ds) h =
      settle-pending env (record w { enqueued = w.enqueued ++ taken env w.epoch (d ∷ ds) })
        (refused env w.epoch (d ∷ ds))

  dispatch_all-enqueued :
      (w : World) (ds : Dispatches)
      → (dispatch_all env w ds).enqueued ≡ w.enqueued ++ taken env w.epoch ds
  dispatch_all-enqueued w [] = rw append-nil
  dispatch_all-enqueued w (d ∷ ds) =
      settle-enqueued env (record w { enqueued = w.enqueued ++ taken env w.epoch (d ∷ ds) })
        (refused env w.epoch (d ∷ ds))

  dispatch_all-committed :
      (w : World) (ds : Dispatches) → (dispatch_all env w ds).committed ≡ w.committed
  dispatch_all-committed w [] = refl
  dispatch_all-committed w (d ∷ ds) =
      settle-db env (record w { enqueued = w.enqueued ++ taken env w.epoch (d ∷ ds) })
        (refused env w.epoch (d ∷ ds))

  -- Provided that no commit to come is marked as failed: a commit makes the session's tables the
  -- committed ones, and hands Celery exactly those waiting deliveries that it accepts, in order;
  -- the others, and no more, wait for the next commit.
  pub commit_lem :
      (w : World)
      → IsPast w.failed_epoch w.epoch
      → ((commit env w).committed ≡ w.db)
        × ((commit env w).enqueued ≡ w.enqueued ++ taken env (suc w.epoch) (pending w))
        × (pending (commit env w) ≡ refused env (suc w.epoch) (pending w))
  unfolding commit
  commit_lem w h =
      let w' = record w { epoch = suc w.epoch; committed = w.db } in
      simp (past_not_failed w.failed_epoch w.epoch h) (
        dispatch_all-committed w' (pending w),
        dispatch_all-enqueued w' (pending w),
        dispatch_all-pending w' (pending w) refl,
      )

  settle-IsPast :
      (w : World) (r : Dispatches) → IsPast (settle env w r).failed_epoch (settle env w r).epoch
  settle-IsPast w [] = tt
  settle-IsPast w (d ∷ r) = omega arith

  dispatch_all-IsPast :
      (w : World) (ds : Dispatches)
      → IsPast w.failed_epoch w.epoch
      → IsPast (dispatch_all env w ds).failed_epoch (dispatch_all env w ds).epoch
  dispatch_all-IsPast w [] h = h
  dispatch_all-IsPast w (d ∷ ds) h =
      settle-IsPast (record w { enqueued = w.enqueued ++ taken env w.epoch (d ∷ ds) })
        (refused env w.epoch (d ∷ ds))

  IsPast-suc : (f : Option ℕ) (epoch : ℕ) → IsPast f epoch → IsPast f (suc epoch)
  IsPast-suc none epoch h = tt
  IsPast-suc (some e) epoch h = omega arith

  -- So no later commit finds its dispatch already marked as failed.
  pub commit-IsPast :
      (w : World)
      → IsPast w.failed_epoch w.epoch
      → IsPast (commit env w).failed_epoch (commit env w).epoch
  unfolding commit
  commit-IsPast w h =
      let w' = record w { epoch = suc w.epoch; committed = w.db } in
      simp (past_not_failed w.failed_epoch w.epoch h)
        (dispatch_all-IsPast w' (pending w) (IsPast-suc w.failed_epoch w.epoch h))

  again-settle : (w : World) (r : Dispatches) → after_commit env (settle env w r) ≡ settle env w r
  unfolding after_commit
  again-settle w [] = refl
  again-settle w (d ∷ r) = ground arith

  again :
      (w : World) (ds : Dispatches)
      → failed_in w.failed_epoch w.epoch ≡ false
      → pending w ≡ ds
      → after_commit env (dispatch_all env w ds) ≡ dispatch_all env w ds
  again w [] h p = unfold after_commit in simp (h, p)
  again w (d ∷ ds) h p =
      again-settle (record w { enqueued = w.enqueued ++ taken env w.epoch (d ∷ ds) })
        (refused env w.epoch (d ∷ ds))

  -- The hook that runs twice for one commit dispatches nothing a second time, not even what failed.
  after_commit_idem : (w : World) → after_commit env (after_commit env w) ≡ after_commit env w
  after_commit_idem w = elim (Bool-cases (failed_in w.failed_epoch w.epoch)) [
    | inl failed ↦
        let same : after_commit env w ≡ w = unfold after_commit in simp failed in
        ap (after_commit env) same
    | inr fresh ↦
        let same : after_commit env w ≡ dispatch_all env w (pending w) =
          unfold after_commit in simp fresh in
        ap (after_commit env) same ∙ again w (pending w) fresh refl ∙ sym same
  ]

  -- A commit whose dispatches are all accepted leaves nothing waiting.
  refused_none :
      (epoch : ℕ) (ds : Dispatches)
      → All (λ d. env.accepts epoch d.0 ≡ true) ds
      → refused env epoch ds ≡ []
  refused_none epoch [] h = refl
  refused_none epoch (d ∷ ds) (a, h) = rw a (refused_none epoch ds h)

  taken-All :
      (epoch : ℕ) (ds : Dispatches)
      → All (λ d. env.accepts epoch d.0 ≡ true) ds
      → taken env epoch ds ≡ ds
  taken-All epoch [] h = refl
  taken-All epoch (d ∷ ds) (a, h) = rw a (ap (◌∷◌ d) (taken-All epoch ds h))

  -- Provided that no commit to come is marked as failed: deliveries that one commit could not hand
  -- over are handed over by the next one, if the broker is back; each exactly once, with the
  -- countdown that it had.
  pub retry_delivers :
      (w : World)
      → IsPast w.failed_epoch w.epoch
      → All
          (λ d. env.accepts (suc (commit env w).epoch) d.0 ≡ true)
          (refused env (suc w.epoch) (pending w))
      → ((commit env (commit env w)).enqueued
          ≡ (w.enqueued ++ taken env (suc w.epoch) (pending w))
            ++ refused env (suc w.epoch) (pending w))
        × (pending (commit env (commit env w)) ≡ [])
  retry_delivers w h back =
      let first = commit_lem w h in
      let second = commit_lem (commit env w) (commit-IsPast w h) in
      let left = refused env (suc w.epoch) (pending w) in
      let epoch = suc (commit env w).epoch in
      (
        second.1 ∙ rw (first.1, first.2, taken-All epoch left back),
        second.2 ∙ rw (first.2, refused_none epoch left back),
      )

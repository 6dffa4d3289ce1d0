-- ===== src/DiscogsImport/Tasks/Ends.antt =====
-- app/tasks.py: how `run_discogs_import_task` ends.
use wax_watch_api.Prelude.{
  ℕ, suc, ◌==◌, ==_iff, ◌≤◌, ◌<◌, ◌≡◌, refl, sym, ap, ◌∙◌, subst, Option, none, some, false, get_or,
  List, [], ◌∷◌, first_sound, arith, if◌then◌else◌,
}
use wax_watch_api.Prelude.Text.{Text, truthy_text}
use wax_watch_api.Models.{ImportJob, EventType, ExternalAccountLink, is_running}
use wax_watch_api.Environment.{Environment}
use wax_watch_api.Session.{
  Tables, World, Error, Outcome, ok, raised, flush_failed, no_result_found, http_exception, pure,
  raise, option_case, modify, ◌>>◌,
}
use wax_watch_api.Session.Keeps.{Keeps}
use wax_watch_api.Session.Ensures.{
  Ensures, Ensures-bind, Ensures-pure, Ensures-raise, Ensures-gets, Ensures-if, Ensures-fact,
  Ensures-option, Ensures_kept, Ensures_of_keeps, Post,
}
use wax_watch_api.Outbox.{commit, rollback, before_commit, after_rollback}
use wax_watch_api.Outbox.Keeps.{IgnoresOutbox, after_commit_kept}
use wax_watch_api.DiscogsImport.{Discogs}
use wax_watch_api.DiscogsImport.Pages.{set_job, counted, page_done}
use wax_watch_api.DiscogsImport.Frame.{flush-Keeps, import_source-Keeps}
use wax_watch_api.DiscogsImport.Pages.Ends.{AtMost, import_source_ends}
use wax_watch_api.DiscogsImport.Jobs.{
  job_at, completed, failed, emit_import_event, complete_job, end_failed, fail_job, import_sources,
  import_all, or_fail, try_import, reload_job, run_job, execute_import_job,
}
use wax_watch_api.DiscogsImport.Jobs.Steps.{emit-Keeps, decrypted-Keeps, KeptByRun}
use wax_watch_api.DiscogsImport.Jobs.Invariant.{emits-InJobs}
use wax_watch_api.DiscogsImport.Tasks.{end_run, run_discogs_import_task}
use wax_watch_api.DiscogsImport.Tasks.Lone.{Lone, Lone-KeptByRun, Ensures_some}
use wax_watch_api.DiscogsImport.Tasks.Over.{
  Over, both_kept, job_over, over_after, over_rows, revised_over,
}

module _ (env : Environment) (d : Discogs) (base : Tables) where
  abbrev lone : KeptByRun env d (Lone base)
  lone = Lone-KeptByRun env d

  emit-Over :
      (id user_id : ℕ) (type : EventType)
      → Keeps (Over base id) (emit_import_event env d user_id type)
  emit-Over id user_id type =
      both_kept base id (emit-Keeps env d lone.links.rows lone.emits user_id type) (
        emit-Keeps env d (over_rows id)
          (emits-InJobs (λ at created js h. revised_over id at (counted created) js (λ j o. o) h)
            (λ at page cursor now js h.
              revised_over id at (page_done page cursor now) js (λ j o. o) h)
            env)
          user_id type)

  -- The job is given its end, and the event is emitted.
  ends_job :
      (id user_id : ℕ) (type : EventType) (f : ImportJob → ImportJob)
      → ((j : ImportJob) → is_running (f j).status ≡ false)
      → Keeps (Lone base) (set_job id f)
      → Ensures
          (Lone base)
          (set_job id f >> emit_import_event env d user_id type)
          (λ _. Over base id)
          (Lone base)
  unfolding set_job modify
  ends_job id user_id type f over k =
      Ensures-bind {R = λ _. Over base id} _ _
        (record { at = λ w h. (k.at w h, over_after id f w.jobs over) })
        (λ _. Ensures_kept (emit-Over id user_id type) (λ w h. h.0))

  complete_ends :
      (id user_id : ℕ)
      → Ensures (Lone base) (complete_job env d id user_id) (λ _. Over base id) (Lone base)
  unfolding complete_job
  complete_ends id user_id = Ensures-bind _ _ (Ensures_of_keeps lone.links.rows.now) (λ at.
      Ensures-bind _ _ (Ensures_of_keeps lone.links.rows.now)
        (λ now. ends_job id user_id _ (completed at now) (λ j. refl) (lone.completes id at now)))

  end_failed_ends :
      (id user_id : ℕ) (e : Error)
      → Ensures (Lone base) (end_failed env d id user_id e) (λ _. Over base id) (Lone base)
  unfolding end_failed
  end_failed_ends id user_id e = Ensures-bind _ _ (Ensures_of_keeps lone.links.rows.now) (λ at.
      Ensures-bind _ _ (Ensures_of_keeps lone.links.rows.now)
        (λ now. ends_job id user_id _ (failed d e at now) (λ j. refl) (lone.fails id e at now)))

  fail_ends :
      (id user_id : ℕ) (e : Error)
      → Ensures (Lone base) (fail_job env d id user_id e) (λ _. Over base id) (Lone base)
  unfolding fail_job
  fail_ends id user_id flush_failed = Ensures-raise _ (λ w h. h)
  fail_ends id user_id e = end_failed_ends id user_id e

  -- The job under its id is the one returned, and it is not running.
  abbrev Reloaded : ℕ → Option ImportJob → World → Type 0
  Reloaded id r w =
      Lone base w
      × ((j : ImportJob) × (r ≡ some j)
          × (job_at id w.jobs ≡ some j)
          × (is_running j.status ≡ false))

  reload_ends : (id : ℕ) → Ensures (Over base id) (reload_job env d id) (Reloaded id) (Lone base)
  unfolding reload_job
  reload_ends id =
      Ensures-bind _ _
        (Ensures_kept (both_kept base id (flush-Keeps lone.links.rows) (flush-Keeps (over_rows id)))
          (λ w h. h.0))
        (λ _.
          Ensures-bind {R = λ found w. Over base id w × (job_at id w.jobs ≡ found)} _ _
            (Ensures-gets _ (λ w h. (h, refl))) reloaded)
    where
      reloaded :
          (found : Option ImportJob)
          → Ensures
              (λ w. Over base id w × (job_at id w.jobs ≡ found))
              (option_case found (raise no_result_found) (λ j. pure (some j)))
              (Reloaded id)
              (Lone base)
      reloaded none = Ensures-raise _ (λ w h. h.0.0)
      reloaded (some j) =
          Ensures-pure _ (λ w h. (h.0.0, (j, refl, h.1, job_over id w.jobs h.0.1 h.1)))

  module _ (most fuel : ℕ) (b : AtMost env d most) (some_page : 1 ≤ most)
      (enough : most < fuel) where
    sources_end :
        (id user_id : ℕ) (username token : Text) (ss : List Text)
        → Ensures
            (Lone base)
            (import_sources env d fuel id user_id username token ss)
            (λ r w. Lone base w × (r ≡ some tt))
            (Lone base)
    unfolding import_sources
    sources_end id user_id username token [] = Ensures-pure _ (λ w h. (h, refl))
    sources_end id user_id username token (s ∷ ss) =
        let rest = sources_end id user_id username token ss in
        Ensures-bind {R = λ r w. Lone base w × (r ≡ some tt)} _ _
          (Ensures_some
            (import_source-Keeps lone.links.rows lone.asks env d fuel id user_id username token s)
            (λ w.
              (import_source_ends env d most b fuel id user_id username token s w some_page
                enough).ends))
          (λ r. Ensures-fact (λ e.
            subst
              (λ r.
                Ensures (Lone base)
                  (option_case r (pure none)
                    (λ _. import_sources env d fuel id user_id username token ss))
                  (λ r w. Lone base w × (r ≡ some tt)) (Lone base))
              (sym e) rest))

    import_all_ends :
        (j : ImportJob) (l : ExternalAccountLink) (token : Text)
        → Ensures
            (Lone base)
            (import_all env d fuel j l token)
            (λ r w. Over base j.id w × (r ≡ some tt))
            (Lone base)
    unfolding import_all
    import_all_ends j l token =
        Ensures-bind {R = λ r w. Lone base w × (r ≡ some tt)} _ _
          (sources_end j.id j.user_id l.external_user_id token _)
          (λ r. Ensures-fact (λ e.
            subst
              (λ r.
                Ensures (Lone base)
                  (option_case r (pure none)
                    (λ _. do complete_job env d j.id j.user_id; pure (some tt)))
                  (λ r w. Over base j.id w × (r ≡ some tt)) (Lone base))
              (sym e)
              (Ensures-bind _ _ (complete_ends j.id j.user_id)
                (λ _. Ensures-pure _ (λ w h. (h, refl))))))

    or_fail_ends :
        (j : ImportJob) (out : Outcome (Option (Unit {0})) × World)
        → Post (λ r w. Over base j.id w × (r ≡ some tt)) (Lone base) out
        → Post (λ r w. Over base j.id w × (r ≡ some tt)) (Lone base) (or_fail env d j out)
    or_fail_ends j (ok a, w) h = h
    or_fail_ends j (raised e, w) h =
        (Ensures-bind (fail_job env d j.id j.user_id e) (λ _. pure (some tt))
            (fail_ends j.id j.user_id e) (λ _. Ensures-pure _ (λ w h. (h, refl)))).at
          w h

    try_import_ends :
        (j : ImportJob) (l : ExternalAccountLink) (token : Text)
        → Ensures
            (Lone base)
            (try_import env d fuel j l token)
            (λ r w. Over base j.id w × (r ≡ some tt))
            (Lone base)
    unfolding try_import
    try_import_ends j l token = record {
      at = λ w h.
          or_fail_ends j (import_all env d fuel j l token w) ((import_all_ends j l token).at w h);
    }

    run_job_ends :
        (j : ImportJob) → Ensures (Lone base) (run_job env d fuel j) (Reloaded j.id) (Lone base)
    unfolding run_job
    run_job_ends j = Ensures-bind {R = λ _. Lone base} _ _ (Ensures-gets _ (λ w h. h)) (λ link.
        Ensures-option link _ _ (Ensures-raise _ (λ w h. h)) (λ l.
          Ensures-bind _ _ (Ensures_of_keeps (decrypted-Keeps lone.links env d l)) (λ token.
            Ensures-option (truthy_text token) _ _ (Ensures-raise _ (λ w h. h)) (λ t.
              Ensures-bind {R = λ r w. Over base j.id w × (r ≡ some tt)} _ _ (try_import_ends j l t)
                (λ r. Ensures-fact (λ e.
                  subst
                    (λ r.
                      Ensures (Over base j.id)
                        (option_case r (pure none) (λ _. reload_job env d j.id)) (Reloaded j.id)
                        (Lone base))
                    (sym e) (reload_ends j.id)))))))

    execute_ends :
        (id : ℕ) → Ensures (Lone base) (execute_import_job env d fuel id) (Reloaded id) (Lone base)
    unfolding execute_import_job
    execute_ends id =
        Ensures-bind {R = λ found w. Lone base w × (job_at id w.jobs ≡ found)} _ _
          (Ensures-gets _ (λ w h. (h, refl))) found_ends
      where
        found_ends :
            (found : Option ImportJob)
            → Ensures
                (λ w. Lone base w × (job_at id w.jobs ≡ found))
                (option_case found
                  (raise (http_exception 404))
                  (λ j. if is_running j.status then run_job env d fuel j else pure (some j)))
                (Reloaded id)
                (Lone base)
        found_ends none = Ensures-raise _ (λ w h. h.0)
        found_ends (some j) =
            Ensures-if (is_running j.status) _ _
              (λ running. record {
                at = λ w h.
                    (subst
                        (λ i. Ensures (Lone base) (run_job env d fuel j) (Reloaded i) (Lone base))
                        (same_id w.jobs h.1) (run_job_ends j)).at
                      w h.0;
              })
              (λ over. Ensures-pure _ (λ w h. (h.0, (j, refl, h.1, over))))
          where
            same_id : (js : List ImportJob) → job_at id js ≡ some j → j.id ≡ id
            same_id js e = (==_iff j.id id).0 (first_sound (λ (k : ImportJob). k.id == id) js e)

-- The job that is returned is stored and not running; or the error leaves the committed tables.
pub HasEnded : ℕ → World → Outcome (Option ImportJob) × World → Type 0
HasEnded id before (ok none, w) = ⊥
HasEnded id before (ok (some j), w) =
    (job_at id w.committed.jobs ≡ some j) × (is_running j.status ≡ false)
HasEnded id before (raised e, w) = (w.committed ≡ before.committed) × (w.db ≡ before.committed)

committed-IgnoresOutbox : (t : Tables) → IgnoresOutbox (λ w. w.committed ≡ t)
committed-IgnoresOutbox t = record { outbox = λ w q e f d h. h; restored = λ w w' h h'. h' }

commit-committed : (env : Environment) (w : World) → (commit env w).committed ≡ w.db
unfolding commit before_commit
commit-committed env w =
    after_commit_kept (committed-IgnoresOutbox w.db) env
      (record w { epoch = suc w.epoch; committed = w.db }) refl

module _ (env : Environment) (d : Discogs) where
  run_ended :
      (id : ℕ) (before : World) (out : Outcome (Option ImportJob) × World)
      → Post (Reloaded env d before.committed id) (Lone before.committed) out
      → HasEnded id before (end_run env d out)
  unfolding HasEnded rollback after_rollback
  run_ended id before (ok none, w) h = ground (arith, h.1.1)
  run_ended id before (ok (some j), w) h = (
    ap (λ t. job_at id t.jobs) (commit-committed env w) ∙ h.1.2 ∙ sym (h.1.1),
    subst (λ (k : ImportJob). is_running k.status ≡ false) (sym (ap (λ o. get_or o j) (h.1.1)))
        (h.1.3),
  )
  run_ended id before (raised e, w) h = (h.base_eq, h.base_eq)

  -- If no other transaction interferes, no answer of Discogs counts more than `most` pages, and
  -- `most` is at least 1: with fuel above `most` the task ends. It returns the job as it is
  -- committed, no longer running; or it raises, and the committed tables are the old ones.
  pub import_task_ends :
      (most fuel job_id : ℕ) (w : World)
      → AtMost env d most
      → 1 ≤ most
      → most < fuel
      → w.others ≡ []
      → HasEnded job_id w (run_discogs_import_task env d fuel job_id w)
  unfolding run_discogs_import_task
  import_task_ends most fuel job_id w b some_page enough alone =
      run_ended job_id w (execute_import_job env d fuel job_id w) (
        (execute_ends env d w.committed most fuel b some_page enough job_id).at w
          (record { alone = alone; base_eq = refl }))

-- ===== src/DiscogsImport/Jobs/Steps.antt =====
-- app/services/discogs_import.py: the operations of import jobs, for predicates of the world that
-- each of their steps keeps.
use wax_watch_api.Prelude.{ℕ, zero, suc, Option, none, some, not, ◌||◌, List, [], ◌∷◌, is_some}
use wax_watch_api.Prelude.Text.{Text, truthy_text}
use wax_watch_api.Json.{Json}
use wax_watch_api.Models.{ExternalAccountLink, ImportJob, EventType, is_running, import_started}
use wax_watch_api.Environment.{Environment}
use wax_watch_api.Session.{World, Error, Outcome, ok, raised, flush_failed, pure, overtaken}
use wax_watch_api.Session.Keeps.{
  Keeps, Keeps-if, Keeps-bind, Keeps-pure, Keeps-gets, Keeps-lift, Keeps-option, Keeps-raise,
}
use wax_watch_api.Events.{no_subject, add_event}
use wax_watch_api.Tokens.Crypto.{is_encrypted}
use wax_watch_api.DiscogsImport.{Discogs, Reply, request}
use wax_watch_api.DiscogsImport.Accounts.{
  write_link, encrypt_access_token, lifecycle_of, ensure_normalized_lifecycle_fields, store_token,
  ensure_token_encrypted, get_status, get_decrypted_access_token, fills_any,
}
use wax_watch_api.DiscogsImport.Pages.{set_job}
use wax_watch_api.DiscogsImport.Frame.{KeptByRows, flush-Keeps, import_source-Keeps}
use wax_watch_api.DiscogsImport.Jobs.{
  new_job, insert_job, delete_job, in_flight_job, recent_job, completed, failed, emit_import_event,
  start_job, insert_or_join, ensure_import_job, complete_job, end_failed, fail_job, import_sources,
  import_all, or_fail, try_import, reload_job, run_job, execute_import_job,
}

-- The steps of the account's token.
pub record KeptByLinks (P : World → Type 0) : Type 0 where
  pub rows : KeptByRows P
  pub link : (l : ExternalAccountLink) → Keeps P (write_link l)

module _ {P : World → Type 0} (k : KeptByLinks P) (env : Environment) (d : Discogs) where
  encrypt-Keeps : (token : Option Text) → Keeps P (encrypt_access_token env d token)
  unfolding encrypt_access_token
  encrypt-Keeps token = Keeps-bind _ _ k.rows.fresh (λ nonce. Keeps-pure _)

  store_token-Keeps :
      (token : Option Text) (l : ExternalAccountLink) → Keeps P (store_token env d token l)
  unfolding store_token
  store_token-Keeps token l =
      Keeps-bind _ _ (encrypt-Keeps token)
        (λ t. Keeps-bind _ _ k.rows.now (λ now. Keeps-bind _ _ (k.link _) (λ _. Keeps-pure _)))

  fields-Keeps : (l : ExternalAccountLink) → Keeps P (ensure_normalized_lifecycle_fields env d l)
  unfolding ensure_normalized_lifecycle_fields lifecycle_of
  fields-Keeps l = Keeps-bind _ _ (Keeps-bind _ _ (Keeps-lift _) (λ e. Keeps-pure _)) (λ f.
      Keeps-if (fills_any f l) _ _
        (Keeps-bind _ _ k.rows.now (λ now. Keeps-bind _ _ (k.link _) (λ _. Keeps-pure _)))
        (Keeps-pure l))

  encrypted-Keeps : (l : ExternalAccountLink) → Keeps P (ensure_token_encrypted env d l)
  unfolding ensure_token_encrypted
  encrypted-Keeps l =
      Keeps-if (not (is_some (truthy_text l.access_token)) || is_encrypted l.access_token) _ _
        (Keeps-pure l) (store_token-Keeps l.access_token l)

  pub get_status-Keeps : (user_id : ℕ) → Keeps P (get_status env d user_id)
  unfolding get_status
  get_status-Keeps user_id = Keeps-bind _ _ (Keeps-gets _) (λ found.
      Keeps-option found _ _ (Keeps-pure none) (λ l.
        Keeps-bind _ _ (fields-Keeps l)
          (λ n. Keeps-bind _ _ (encrypted-Keeps n) (λ e. Keeps-pure _))))

  pub decrypted-Keeps : (l : ExternalAccountLink) → Keeps P (get_decrypted_access_token env d l)
  unfolding get_decrypted_access_token
  decrypted-Keeps l =
      Keeps-if (is_some (truthy_text l.access_token)) _ _
        (Keeps-bind _ _ (Keeps-lift _) (λ r.
          Keeps-if r.requires_migration _ _
            (Keeps-bind _ _ (store_token-Keeps r.plaintext l) (λ _. Keeps-pure _)) (Keeps-pure _)))
        (Keeps-pure none)

-- The steps of a running job.
pub record KeptByRun (env : Environment) (d : Discogs) (P : World → Type 0) : Type 0 where
  pub links : KeptByLinks P
  pub asks : (ask : ℕ → Reply Json) → Keeps P (request ask)
  pub emits :
      (user_id : ℕ) (type : EventType) (at : ℕ) → Keeps P (add_event env user_id type no_subject at)
  pub completes : (id at now : ℕ) → Keeps P (set_job id (completed at now))
  pub fails : (id : ℕ) (e : Error) (at now : ℕ) → Keeps P (set_job id (failed d e at now))

module _ {P : World → Type 0} (env : Environment) (d : Discogs) (rows : KeptByRows P)
    (emits : (user_id : ℕ) (type : EventType) (at : ℕ)
      → Keeps P (add_event env user_id type no_subject at)) where
  pub emit-Keeps : (user_id : ℕ) (type : EventType) → Keeps P (emit_import_event env d user_id type)
  unfolding emit_import_event
  emit-Keeps user_id type = Keeps-bind _ _ rows.now (λ at.
      Keeps-bind _ _ (flush-Keeps rows)
        (λ _. Keeps-bind _ _ (emits user_id type at) (λ event. Keeps-pure tt)))

module _ {P : World → Type 0} (env : Environment) (d : Discogs) (k : KeptByRun env d P) where
  abbrev rows : KeptByRows P
  rows = k.links.rows

  emitted-Keeps : (user_id : ℕ) (type : EventType) → Keeps P (emit_import_event env d user_id type)
  emitted-Keeps = emit-Keeps env d rows k.emits

  complete_job-Keeps : (job_id user_id : ℕ) → Keeps P (complete_job env d job_id user_id)
  unfolding complete_job
  complete_job-Keeps job_id user_id = Keeps-bind _ _ rows.now (λ at.
      Keeps-bind _ _ rows.now
        (λ now. Keeps-bind _ _ (k.completes job_id at now) (λ _. emitted-Keeps user_id _)))

  end_failed-Keeps : (job_id user_id : ℕ) (e : Error) → Keeps P (end_failed env d job_id user_id e)
  unfolding end_failed
  end_failed-Keeps job_id user_id e = Keeps-bind _ _ rows.now (λ at.
      Keeps-bind _ _ rows.now
        (λ now. Keeps-bind _ _ (k.fails job_id e at now) (λ _. emitted-Keeps user_id _)))

  fail_job-Keeps : (job_id user_id : ℕ) (e : Error) → Keeps P (fail_job env d job_id user_id e)
  unfolding fail_job
  fail_job-Keeps job_id user_id flush_failed = Keeps-raise _
  fail_job-Keeps job_id user_id e = end_failed-Keeps job_id user_id e

  sources-Keeps :
      (fuel job_id user_id : ℕ) (username token : Text) (ss : List Text)
      → Keeps P (import_sources env d fuel job_id user_id username token ss)
  unfolding import_sources
  sources-Keeps fuel job_id user_id username token [] = Keeps-pure (some tt)
  sources-Keeps fuel job_id user_id username token (s ∷ ss) =
      let rest = sources-Keeps fuel job_id user_id username token ss in
      Keeps-bind _ _ (import_source-Keeps rows k.asks env d fuel job_id user_id username token s)
        (λ ended. Keeps-option ended _ _ (Keeps-pure none) (λ _. rest))

  import_all-Keeps :
      (fuel : ℕ) (j : ImportJob) (l : ExternalAccountLink) (token : Text)
      → Keeps P (import_all env d fuel j l token)
  unfolding import_all
  import_all-Keeps fuel j l token =
      Keeps-bind _ _ (sources-Keeps fuel j.id j.user_id l.external_user_id token _) (λ ended.
        Keeps-option ended _ _ (Keeps-pure none)
          (λ _. Keeps-bind _ _ (complete_job-Keeps j.id j.user_id) (λ _. Keeps-pure (some tt))))

  or_fail_kept :
      (j : ImportJob) (out : Outcome (Option (Unit {0})) × World)
      → P out.1
      → P (or_fail env d j out).1
  or_fail_kept j (ok a, w) h = h
  or_fail_kept j (raised e, w) h =
      (Keeps-bind (fail_job env d j.id j.user_id e) (λ _. pure (some tt))
          (fail_job-Keeps j.id j.user_id e) (λ _. Keeps-pure (some tt))).at
        w h

  try_import-Keeps :
      (fuel : ℕ) (j : ImportJob) (l : ExternalAccountLink) (token : Text)
      → Keeps P (try_import env d fuel j l token)
  unfolding try_import
  try_import-Keeps fuel j l token = record {
    at = λ w h.
        or_fail_kept j (import_all env d fuel j l token w)
          ((import_all-Keeps fuel j l token).at w h);
  }

  reload_job-Keeps : (id : ℕ) → Keeps P (reload_job env d id)
  unfolding reload_job
  reload_job-Keeps id = Keeps-bind _ _ (flush-Keeps rows) (λ _.
      Keeps-bind _ _ (Keeps-gets _)
        (λ found. Keeps-option found _ _ (Keeps-raise _) (λ j. Keeps-pure (some j))))

  run_job-Keeps : (fuel : ℕ) (j : ImportJob) → Keeps P (run_job env d fuel j)
  unfolding run_job
  run_job-Keeps fuel j = Keeps-bind _ _ (Keeps-gets _) (λ link.
      Keeps-option link _ _ (Keeps-raise _) (λ l.
        Keeps-bind _ _ (decrypted-Keeps k.links env d l) (λ token.
          Keeps-option (truthy_text token) _ _ (Keeps-raise _) (λ t.
            Keeps-bind _ _ (try_import-Keeps fuel j l t)
              (λ ended. Keeps-option ended _ _ (Keeps-pure none) (λ _. reload_job-Keeps j.id))))))

  pub execute-Keeps : (fuel job_id : ℕ) → Keeps P (execute_import_job env d fuel job_id)
  unfolding execute_import_job
  execute-Keeps fuel job_id = Keeps-bind _ _ (Keeps-gets _) (λ found.
      Keeps-option found _ _ (Keeps-raise _)
        (λ j. Keeps-if (is_running j.status) _ _ (run_job-Keeps fuel j) (Keeps-pure (some j))))

-- The steps that make a job.
pub record KeptByStart (P : World → Type 0) : Type 0 where
  pub over : Keeps P overtaken
  pub inserts :
      (id user_id link_id : ℕ) (source : Text) (now : ℕ)
      → Keeps P (insert_job (new_job id user_id link_id source now))
  pub deletes : (id : ℕ) → Keeps P (delete_job id)

module _ {P : World → Type 0} (env : Environment) (d : Discogs) (k : KeptByRun env d P)
    (s : KeptByStart P) where
  in_flight-Keeps : (user_id : ℕ) (source : Text) → Keeps P (in_flight_job user_id source)
  unfolding in_flight_job
  in_flight-Keeps user_id source = Keeps-bind _ _ s.over (λ _.
      Keeps-bind _ _ (Keeps-gets _)
        (λ found. Keeps-option found _ _ (Keeps-raise _) (λ j. Keeps-pure _)))

  recent-Keeps :
      (id user_id : ℕ) (source : Text) (cooldown : Option ℕ)
      → Keeps P (recent_job id user_id source cooldown)
  unfolding recent_job
  recent-Keeps id user_id source none = Keeps-pure none
  recent-Keeps id user_id source (some zero) = Keeps-pure none
  recent-Keeps id user_id source (some (suc cooldown)) =
      Keeps-bind _ _ k.links.rows.now (λ now. Keeps-gets _)

  start-Keeps : (j : ImportJob) (cooldown : Option ℕ) → Keeps P (start_job env d j cooldown)
  unfolding start_job
  start-Keeps j cooldown =
      Keeps-bind _ _ (recent-Keeps j.id j.user_id j.import_scope cooldown) (λ recent.
        Keeps-option recent _ _
          (Keeps-bind _ _ (emit-Keeps env d k.links.rows k.emits j.user_id import_started)
            (λ _. Keeps-pure _))
          (λ old. Keeps-bind _ _ (s.deletes j.id) (λ _. Keeps-pure _)))

  join-Keeps :
      (user_id link_id : ℕ) (source : Text) (cooldown : Option ℕ)
      → Keeps P (insert_or_join env d user_id link_id source cooldown)
  unfolding insert_or_join
  join-Keeps user_id link_id source cooldown = Keeps-bind _ _ k.links.rows.now (λ now.
      Keeps-bind _ _ k.links.rows.fresh (λ id. Keeps-bind _ _ s.over (λ _.
        Keeps-bind _ _ (s.inserts id user_id link_id source now) (λ inserted.
          Keeps-if inserted _ _ (start-Keeps _ cooldown) (in_flight-Keeps user_id source)))))

  pub ensure-Keeps :
      (user_id : ℕ) (source : Text) (cooldown : Option ℕ)
      → Keeps P (ensure_import_job env d user_id source cooldown)
  unfolding ensure_import_job
  ensure-Keeps user_id source cooldown =
      Keeps-bind _ _ (get_status-Keeps k.links env d user_id) (λ link.
        Keeps-option link _ _ (Keeps-raise _) (λ l.
          Keeps-bind _ _ (decrypted-Keeps k.links env d l) (λ token.
            Keeps-if (is_some (truthy_text token)) _ _ (join-Keeps user_id l.id source cooldown)
              (Keeps-raise _))))

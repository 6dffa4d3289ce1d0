-- ===== src/DiscogsImport/Jobs.antt =====
-- app/services/discogs_import.py: import jobs, from their creation to their end.
pub mod Steps
pub mod Invariant
pub mod Sound
pub mod Single
use wax_watch_api.Prelude.{
  ℕ, zero, suc, ◌+◌, ◌*◌, ◌==◌, Option, none, some, Bool, true, false, not, ◌&&◌, ◌||◌, List, [],
  ◌∷◌, ◌++◌, first, keep, leb, ltb, is_some, get_or, if◌then◌else◌,
}
use wax_watch_api.Prelude.Text.{Text, codes, text_eq, truthy_text}
use wax_watch_api.Models.{
  discogs, provider_eq, ImportJob, JobStatus, job_running, job_completed, job_failed, is_in_flight,
  is_running, ExternalAccountLink, EventType, import_started, import_completed, import_failed,
}
use wax_watch_api.Environment.{Environment}
use wax_watch_api.Session.{
  World, Action, Error, Outcome, ok, raised, http_exception, no_result_found, flush_failed,
  pending_rollback_error, pure, raise, gets, modify, ◌>>=◌, ◌>>◌, option_case, now_utc, fresh_id,
  overtaken,
}
use wax_watch_api.Events.{no_subject, add_event}
use wax_watch_api.DiscogsImport.{Discogs}
use wax_watch_api.DiscogsImport.Accounts.{get_status, get_decrypted_access_token}
use wax_watch_api.DiscogsImport.Releases.{flush}
use wax_watch_api.DiscogsImport.Pages.{set_job, import_source}

-- The columns of the unique index over jobs in flight.
abbrev pub same_key : (user_id : ℕ) → (scope : Text) → ImportJob → Bool
same_key user_id scope j =
    j.user_id == user_id && provider_eq j.provider discogs && text_eq j.import_scope scope

abbrev pub in_flight : (user_id : ℕ) → (scope : Text) → ImportJob → Bool
in_flight user_id scope j = same_key user_id scope j && is_in_flight j.status

abbrev pub job_at : ℕ → List ImportJob → Option ImportJob
job_at id = first (λ j. j.id == id)

abbrev later : ImportJob → Option ImportJob → ImportJob
later j none = j
later j (some k) = if ltb j.created_at k.created_at then k else j

-- `.order_by(created_at.desc()).first()`
unfoldable pub latest : List ImportJob → Option ImportJob
latest [] = none
latest (j ∷ js) = some (later j (latest js))

unfoldable pub append_job : ImportJob → Action (Unit {0})
append_job j = modify (λ w. record w { db = record w.db { jobs = w.jobs ++ j ∷ [] } })

unfoldable pub delete_job : ℕ → Action (Unit {0})
delete_job id =
    modify (λ w. record w { db = record w.db { jobs = keep (λ j. not (j.id == id)) w.jobs } })

abbrev pub new_job : (id user_id link_id : ℕ) → (source : Text) → (now : ℕ) → ImportJob
new_job id user_id link_id source now = record {
  id = id;
  user_id = user_id;
  external_account_link_id = some link_id;
  provider = discogs;
  import_scope = source;
  status = job_running;
  cursor = none;
  page = 1;
  processed_count = 0;
  imported_count = 0;
  created_count = 0;
  updated_count = 0;
  error_count = 0;
  errors = some [];
  started_at = some now;
  completed_at = none;
  created_at = now;
  updated_at = now;
}

-- `INSERT ... ON CONFLICT DO NOTHING RETURNING id`, over the index of the jobs in flight
unfoldable pub insert_job : ImportJob → Action Bool
unfolding append_job
insert_job j = do
  clash ← gets (λ w. first (in_flight j.user_id j.import_scope) w.jobs)
  option_case clash (do append_job j; pure true) (λ _. pure false)

-- The job in flight that the insert ran into; it may have ended since.
unfoldable pub in_flight_job : ℕ → Text → Action (ImportJob × Bool)
unfolding latest
in_flight_job user_id source = do
  overtaken
  found ← gets (λ w. latest (keep (in_flight user_id source) w.jobs))
  option_case found (raise (http_exception 409)) (λ j. pure (j, false))

-- `created_at >= now - cooldown`
abbrev is_recent : (id user_id : ℕ) → Text → (cooldown now : ℕ) → ImportJob → Bool
is_recent id user_id source cooldown now j =
    same_key user_id source j && not (j.id == id) && leb now (j.created_at + cooldown * 1000000)

unfoldable pub recent_job : (id user_id : ℕ) → Text → Option ℕ → Action (Option ImportJob)
unfolding latest
recent_job id user_id source none = pure none
recent_job id user_id source (some zero) = pure none
recent_job id user_id source (some (suc cooldown)) = do
  now ← now_utc
  gets (λ w. latest (keep (is_recent id user_id source (suc cooldown) now) w.jobs))

abbrev pub completed : ℕ → ℕ → ImportJob → ImportJob
completed at now j = record j { status = job_completed; completed_at = some at; updated_at = now }

abbrev pub failed : Discogs → Error → ℕ → ℕ → ImportJob → ImportJob
failed d e at now j = record j {
  status = job_failed;
  error_count = suc j.error_count;
  errors = some (get_or j.errors [] ++ d.error_text e ∷ []);
  completed_at = some at;
  updated_at = now;
}

abbrev pub sources_of : Text → List Text
sources_of scope =
    if text_eq scope (codes "both") then codes "wantlist" ∷ codes "collection" ∷ [] else scope ∷ []

module _ (env : Environment) (d : Discogs) where
  -- `_emit_import_event`
  unfoldable pub emit_import_event : ℕ → EventType → Action (Unit {0})
  unfolding flush
  emit_import_event user_id type = do
    at ← now_utc
    flush
    event ← add_event env user_id type no_subject at
    pure tt

  unfoldable pub start_job : ImportJob → Option ℕ → Action (ImportJob × Bool)
  unfolding recent_job delete_job emit_import_event
  start_job j cooldown = do
    recent ← recent_job j.id j.user_id j.import_scope cooldown
    option_case recent (do emit_import_event j.user_id import_started; pure (j, true))
        (λ old. do delete_job j.id; pure (old, false))

  unfoldable pub insert_or_join :
      (user_id link_id : ℕ) → Text → Option ℕ → Action (ImportJob × Bool)
  unfolding insert_job in_flight_job start_job
  insert_or_join user_id link_id source cooldown = do
    now ← now_utc
    id ← fresh_id
    overtaken
    inserted ← insert_job (new_job id user_id link_id source now)
    if inserted
        then start_job (new_job id user_id link_id source now) cooldown
        else in_flight_job user_id source

  unfoldable pub ensure_import_job : ℕ → Text → Option ℕ → Action (ImportJob × Bool)
  unfolding insert_or_join
  ensure_import_job user_id source cooldown = do
    link ← get_status env d user_id
    option_case link (raise (http_exception 400)) (λ l. do
      token ← get_decrypted_access_token env d l
      if is_some (truthy_text token)
          then insert_or_join user_id l.id source cooldown
          else raise (http_exception 400))

  unfoldable pub create_import_job : ℕ → Text → Action ImportJob
  unfolding ensure_import_job
  create_import_job user_id source = do r ← ensure_import_job user_id source none; pure (r.0)

  unfoldable pub run_import : ℕ → Text → Action ImportJob
  unfolding ensure_import_job
  run_import user_id source = do r ← ensure_import_job user_id source none; pure (r.0)

  unfoldable pub complete_job : (job_id user_id : ℕ) → Action (Unit {0})
  unfolding set_job emit_import_event
  complete_job job_id user_id = do
    at ← now_utc
    now ← now_utc
    set_job job_id (completed at now)
    emit_import_event user_id import_completed

  unfoldable pub end_failed : (job_id user_id : ℕ) → Error → Action (Unit {0})
  unfolding set_job emit_import_event
  end_failed job_id user_id e = do
    at ← now_utc
    now ← now_utc
    set_job job_id (failed d e at now)
    emit_import_event user_id import_failed

  -- The handler reads the job's attributes: after a failed flush this raises.
  unfoldable pub fail_job : (job_id user_id : ℕ) → Error → Action (Unit {0})
  unfolding end_failed
  fail_job job_id user_id flush_failed = raise pending_rollback_error
  fail_job job_id user_id e = end_failed job_id user_id e

  unfoldable pub import_sources :
      ℕ → (job_id user_id : ℕ) → (username token : Text) → List Text → Action (Option (Unit {0}))
  unfolding import_source
  import_sources fuel job_id user_id username token [] = pure (some tt)
  import_sources fuel job_id user_id username token (s ∷ ss) = do
    ended ← import_source env d fuel job_id user_id username token s
    option_case ended (pure none) (λ _. import_sources fuel job_id user_id username token ss)

  unfoldable pub import_all :
      ℕ → ImportJob → ExternalAccountLink → Text → Action (Option (Unit {0}))
  unfolding import_sources complete_job text_eq
  import_all fuel j link token = do
    ended ←
        import_sources fuel j.id j.user_id link.external_user_id token (sources_of j.import_scope)
    option_case ended (pure none) (λ _. do complete_job j.id j.user_id; pure (some tt))

  -- `try: ... except Exception as exc: ...`
  abbrev pub or_fail :
      ImportJob → Outcome (Option (Unit {0})) × World → Outcome (Option (Unit {0})) × World
  or_fail j (ok a, w) = (ok a, w)
  or_fail j (raised e, w) = (do fail_job j.id j.user_id e; pure (some tt)) w

  unfoldable pub try_import :
      ℕ → ImportJob → ExternalAccountLink → Text → Action (Option (Unit {0}))
  unfolding import_all fail_job
  try_import fuel j link token w = or_fail j (import_all fuel j link token w)

  unfoldable pub reload_job : ℕ → Action (Option ImportJob)
  unfolding flush
  reload_job id = do
    flush
    found ← gets (λ w. job_at id w.jobs)
    option_case found (raise no_result_found) (λ j. pure (some j))

  unfoldable pub run_job : ℕ → ImportJob → Action (Option ImportJob)
  unfolding try_import reload_job
  run_job fuel j = do
    link ← gets (λ w. first (λ l. is_id j.external_account_link_id l.id) w.links)
    option_case link (raise no_result_found) (λ l. do
      token ← get_decrypted_access_token env d l
      option_case (truthy_text token) (raise (http_exception 400)) (λ t. do
        ended ← try_import fuel j l t
        option_case ended (pure none) (λ _. reload_job j.id)))
    where
      is_id : Option ℕ → ℕ → Bool
      is_id none id = false
      is_id (some a) id = a == id

  -- Nothing, where the fuel ends before the loop over the pages.
  unfoldable pub execute_import_job : ℕ → ℕ → Action (Option ImportJob)
  unfolding run_job
  execute_import_job fuel job_id = do
    found ← gets (λ w. job_at job_id w.jobs)
    option_case found (raise (http_exception 404))
        (λ j. if is_running j.status then run_job fuel j else pure (some j))

unfoldable pub get_job : (user_id job_id : ℕ) → Action ImportJob
get_job user_id job_id = do
  found ← gets (λ w. first (λ (j : ImportJob). j.id == job_id && j.user_id == user_id) w.jobs)
  option_case found (raise (http_exception 404)) pure

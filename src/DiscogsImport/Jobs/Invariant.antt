-- ===== src/DiscogsImport/Jobs/Invariant.antt =====
-- app/services/discogs_import.py: predicates of the rows of `import_jobs`.
use wax_watch_api.Prelude.{
  ℕ, ◌==◌, ◌≡◌, refl, Option, none, some, Bool, not, List, [], ◌∷◌, ◌++◌, first, keep,
}
use wax_watch_api.Prelude.Text.{Text}
use wax_watch_api.Models.{ImportJob, EventType}
use wax_watch_api.Environment.{Environment}
use wax_watch_api.Session.{Tables, World, Error, pure, ◌>>◌, option_case}
use wax_watch_api.Session.Keeps.{
  Keeps, Keeps-modify, Holds, Holds-now_utc, Holds-fresh_id, Holds-overtaken,
}
use wax_watch_api.Session.Ensures.{
  Ensures, Ensures-bind, Ensures-gets, Ensures-modify, Ensures-pure, Keeps_of_ensures,
}
use wax_watch_api.Notifications.Frame.{IgnoresDelivery}
use wax_watch_api.Events.{no_subject, add_event, add_event-Holds}
use wax_watch_api.WatchReleases.{write_release}
use wax_watch_api.DiscogsImport.{Discogs, request}
use wax_watch_api.DiscogsImport.Accounts.{write_link}
use wax_watch_api.DiscogsImport.Releases.{add_release, write_added}
use wax_watch_api.DiscogsImport.Pages.{set_job, revise_jobs, counted, page_done}
use wax_watch_api.DiscogsImport.Frame.{KeptByRows}
use wax_watch_api.DiscogsImport.Jobs.{
  new_job, append_job, insert_job, delete_job, in_flight, completed, failed, ensure_import_job,
  execute_import_job,
}
use wax_watch_api.DiscogsImport.Jobs.Steps.{
  KeptByLinks, KeptByRun, KeptByStart, execute-Keeps, ensure-Keeps,
}

-- What the rows must allow: a job that finds none in flight, the changes of a running job, and
-- deletions.
pub record JobLaws (d : Discogs) (J : List ImportJob → Type 0) : Type 0 where
  pub appended :
      (id user_id link_id : ℕ) (source : Text) (now : ℕ) (js : List ImportJob)
      → first (in_flight user_id source) js ≡ none
      → J js
      → J (js ++ new_job id user_id link_id source now ∷ [])
  pub counted_kept :
      (id : ℕ) (created : Bool) (js : List ImportJob)
      → J js
      → J (revise_jobs id (counted created) js)
  pub progress :
      (id page : ℕ) (cursor : Text) (at : ℕ) (js : List ImportJob)
      → J js
      → J (revise_jobs id (page_done page cursor at) js)
  pub completed_kept :
      (id at now : ℕ) (js : List ImportJob) → J js → J (revise_jobs id (completed at now) js)
  pub failed_kept :
      (id : ℕ) (e : Error) (at now : ℕ) (js : List ImportJob)
      → J js
      → J (revise_jobs id (failed d e at now) js)
  pub deleted : (p : ImportJob → Bool) (js : List ImportJob) → J js → J (keep p js)

pub record InJobs (J : List ImportJob → Type 0) (t : Tables) : Type 0 where
  pub jobs_hold : J t.jobs

module _ {J : List ImportJob → Type 0} where
  ignores : IgnoresDelivery (InJobs J)
  ignores = record {
    preferences = λ t ps h. record { jobs_hold = h.jobs_hold };
    notifications = λ t ns h. record { jobs_hold = h.jobs_hold };
  }

  -- A change of the jobs that keeps `J`.
  changed :
      (f : List ImportJob → List ImportJob)
      → ((js : List ImportJob) → J js → J (f js))
      → (w : World) → Holds (InJobs J) w
      → Holds (InJobs J) (record w { db = record w.db { jobs = f w.jobs } })
  changed f k w h = record {
    here = record { jobs_hold = k w.jobs h.here.jobs_hold };
    elsewhere = h.elsewhere;
  }

module _ {J : List ImportJob → Type 0}
    (counts : (id : ℕ) (created : Bool) (js : List ImportJob)
      → J js
      → J (revise_jobs id (counted created) js))
    (progresses : (id page : ℕ) (cursor : Text) (at : ℕ) (js : List ImportJob)
      → J js
      → J (revise_jobs id (page_done page cursor at) js)) where
  pub rows-InJobs : KeptByRows (Holds (InJobs J))
  unfolding write_release add_release write_added set_job
  rows-InJobs = record {
    now = Holds-now_utc;
    fresh = Holds-fresh_id;
    write = λ r.
        Keeps-modify _ (λ w h. record {
          here = record { jobs_hold = h.here.jobs_hold };
          elsewhere = h.elsewhere;
        });
    add = λ r. Keeps-modify _ (λ w h. record { here = h.here; elsewhere = h.elsewhere });
    written =
        Keeps-modify _ (λ w h. record {
          here = record { jobs_hold = h.here.jobs_hold };
          elsewhere = h.elsewhere;
        });
    count = λ id created.
        Keeps-modify _ (λ w h. changed (revise_jobs id (counted created)) (counts id created) w h);
    progress = λ id page cursor at. Keeps-modify _ (λ w h.
        changed (revise_jobs id (page_done page cursor at)) (progresses id page cursor at) w h);
  }

  pub emits-InJobs :
      (env : Environment) (user_id : ℕ) (type : EventType) (at : ℕ)
      → Keeps (Holds (InJobs J)) (add_event env user_id type no_subject at)
  emits-InJobs env user_id type at =
      add_event-Holds ignores (λ t es h. record { jobs_hold = h.jobs_hold }) env user_id type _ at

module _ {J : List ImportJob → Type 0} {d : Discogs} (laws : JobLaws d J) where
  rows : KeptByRows (Holds (InJobs J))
  rows = rows-InJobs laws.counted_kept laws.progress

  links : KeptByLinks (Holds (InJobs J))
  unfolding write_link
  links = record {
    rows = rows;
    link = λ l.
        Keeps-modify _ (λ w h. record {
          here = record { jobs_hold = h.here.jobs_hold };
          elsewhere = h.elsewhere;
        });
  }

  run : (env : Environment) → KeptByRun env d (Holds (InJobs J))
  unfolding request set_job
  run env = record {
    links = links;
    asks = λ ask. record { at = λ w h. record { here = h.here; elsewhere = h.elsewhere } };
    emits = emits-InJobs laws.counted_kept laws.progress env;
    completes = λ id at now.
        Keeps-modify _
          (λ w h. changed (revise_jobs id (completed at now)) (laws.completed_kept id at now) w h);
    fails = λ id e at now.
        Keeps-modify _
          (λ w h. changed (revise_jobs id (failed d e at now)) (laws.failed_kept id e at now) w h);
  }

  inserted :
      (id user_id link_id : ℕ) (source : Text) (now : ℕ) (o : Option ImportJob)
      → Ensures
          (λ w. Holds (InJobs J) w × (first (in_flight user_id source) w.jobs ≡ o))
          (option_case o
            (do append_job (new_job id user_id link_id source now); pure Bool.true)
            (λ _. pure Bool.false))
          (λ _. Holds (InJobs J))
          (Holds (InJobs J))
  unfolding append_job
  inserted id user_id link_id source now none =
      Ensures-bind {R = λ _. Holds (InJobs J)} _ _
        (Ensures-modify _ (λ w h. record {
          here = record {
            jobs_hold = laws.appended id user_id link_id source now w.jobs h.1 h.0.here.jobs_hold;
          };
          elsewhere = h.0.elsewhere;
        }))
        (λ _. Ensures-pure _ (λ w h. h))
  inserted id user_id link_id source now (some k) = Ensures-pure _ (λ w h. h.0)

  start : KeptByStart (Holds (InJobs J))
  unfolding insert_job delete_job
  start = record {
    over = Holds-overtaken;
    inserts = λ id user_id link_id source now.
        Keeps_of_ensures (λ _ w h. h)
          (Ensures-bind
            {R = λ o w. Holds (InJobs J) w × (first (in_flight user_id source) w.jobs ≡ o)} _ _
            (Ensures-gets _ (λ w h. (h, refl))) (inserted id user_id link_id source now));
    deletes =
        λ id. Keeps-modify _ (λ w h. changed (keep (λ j. not (j.id == id))) (laws.deleted _) w h);
  }

  pub execute-InJobs :
      (env : Environment) (fuel job_id : ℕ)
      → Keeps (Holds (InJobs J)) (execute_import_job env d fuel job_id)
  execute-InJobs env = execute-Keeps env d (run env)

  pub ensure-InJobs :
      (env : Environment) (user_id : ℕ) (source : Text) (cooldown : Option ℕ)
      → Keeps (Holds (InJobs J)) (ensure_import_job env d user_id source cooldown)
  ensure-InJobs env = ensure-Keeps env d (run env) start

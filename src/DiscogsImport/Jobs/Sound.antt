-- ===== src/DiscogsImport/Jobs/Sound.antt =====
-- app/services/discogs_import.py: the counters, the errors and the end of import jobs.
use wax_watch_api.Prelude.{
  ℕ, ◌+◌, ◌==◌, ◌≡◌, refl, Option, Bool, true, false, ◌||◌, List, [], ◌∷◌, All, All-append,
  All-keep, length, length-append, is_some, get_or, arith, if◌then◌else◌,
}
use wax_watch_api.Prelude.Text.{Text}
use wax_watch_api.Models.{ImportJob, is_in_flight}
use wax_watch_api.Environment.{Environment}
use wax_watch_api.Session.{World}
use wax_watch_api.Session.Keeps.{Holds}
use wax_watch_api.DiscogsImport.{Discogs}
use wax_watch_api.DiscogsImport.Pages.{revise_jobs, counted}
use wax_watch_api.DiscogsImport.Jobs.{ensure_import_job, execute_import_job}
use wax_watch_api.DiscogsImport.Jobs.Invariant.{JobLaws, InJobs, execute-InJobs, ensure-InJobs}

-- A job's counters add up, its errors are counted, and it has a time of its end if it has ended.
pub record IsSound (j : ImportJob) : Type 0 where
  pub imported_eq : j.processed_count ≡ j.imported_count
  pub added_up : j.imported_count ≡ j.created_count + j.updated_count
  pub errors_counted : length (get_or j.errors []) ≡ j.error_count
  pub timed : (is_in_flight j.status || is_some j.completed_at) ≡ true

unfoldable pub AllSound : List ImportJob → Type 0
AllSound = All IsSound

revised :
    (id : ℕ) (f : ImportJob → ImportJob) (js : List ImportJob)
    → ((j : ImportJob) → IsSound j → IsSound (f j))
    → All IsSound js
    → All IsSound (revise_jobs id f js)
unfolding revise_jobs
revised id f [] k h = tt
revised id f (j ∷ js) k (s, h) = (
  elim (j.id == id) as (λ b. IsSound (if b then f j else j)) [ true ↦ k j s | false ↦ s ],
  revised id f js k h,
)

counted-IsSound : (created : Bool) (j : ImportJob) → IsSound j → IsSound (counted created j)
counted-IsSound true j s = record {
  imported_eq = omega (arith, s.imported_eq);
  added_up = omega (arith, s.added_up);
  errors_counted = s.errors_counted;
  timed = s.timed;
}
counted-IsSound false j s = record {
  imported_eq = omega (arith, s.imported_eq);
  added_up = omega (arith, s.added_up);
  errors_counted = s.errors_counted;
  timed = s.timed;
}

sound-laws : (d : Discogs) → JobLaws d AllSound
unfolding AllSound
sound-laws d = record {
  appended = λ id user_id link_id source now js free h.
      All-append IsSound js _ h
        (record { imported_eq = refl; added_up = refl; errors_counted = refl; timed = refl }, tt);
  counted_kept = λ id created js h. revised id _ js (counted-IsSound created) h;
  progress = λ id page cursor at js h.
      revised id _ js
        (λ j s. record {
          imported_eq = s.imported_eq;
          added_up = s.added_up;
          errors_counted = s.errors_counted;
          timed = s.timed;
        })
        h;
  completed_kept = λ id at now js h.
      revised id _ js
        (λ j s. record {
          imported_eq = s.imported_eq;
          added_up = s.added_up;
          errors_counted = s.errors_counted;
          timed = refl;
        })
        h;
  failed_kept = λ id e at now js h.
      revised id _ js
        (λ j s. record {
          imported_eq = s.imported_eq;
          added_up = s.added_up;
          errors_counted =
              omega
                (arith, length-append (get_or j.errors []) (d.error_text e ∷ []), s.errors_counted);
          timed = refl;
        })
        h;
  deleted = λ p js h. All-keep IsSound p js h;
}

module _ (env : Environment) (d : Discogs) where
  -- On every path of creating and of running an import job, errors and lost races included: if
  -- every job's counters added up, its errors were counted and its end was timed before, and
  -- other transactions keep it so, this holds after.
  pub jobs_sound :
      (user_id : ℕ) (source : Text) (cooldown : Option ℕ) (fuel job_id : ℕ) (w : World)
      → Holds (InJobs AllSound) w
      → Holds (InJobs AllSound) (ensure_import_job env d user_id source cooldown w).1
        × Holds (InJobs AllSound) (execute_import_job env d fuel job_id w).1
  jobs_sound user_id source cooldown fuel job_id w h = (
    (ensure-InJobs (sound-laws d) env user_id source cooldown).at w h,
    (execute-InJobs (sound-laws d) env fuel job_id).at w h,
  )

-- ===== src/DiscogsImport/Jobs/Single.antt =====
-- app/services/discogs_import.py: how many import jobs of a user and a scope are in flight.
use wax_watch_api.Prelude.{
  ℕ, ◌==◌, ==_iff, ◌≡◌, refl, ◌∙◌, Option, none, Bool, true, false, ◌&&◌, List, [], ◌∷◌, ◌++◌, any,
  any-append, first, keep, arith, if◌then◌else◌,
}
use wax_watch_api.Prelude.Text.{Text, text_eq_iff}
use wax_watch_api.Models.{ImportJob}
use wax_watch_api.Environment.{Environment}
use wax_watch_api.Session.{World}
use wax_watch_api.Session.Keeps.{Holds}
use wax_watch_api.DiscogsImport.{Discogs}
use wax_watch_api.DiscogsImport.Pages.{revise_jobs, counted, page_done}
use wax_watch_api.DiscogsImport.Jobs.{
  new_job, in_flight, completed, failed, ensure_import_job, execute_import_job,
}
use wax_watch_api.DiscogsImport.Jobs.Invariant.{JobLaws, InJobs, execute-InJobs, ensure-InJobs}

-- Another job in flight for the same user and scope as `j`, which is in flight.
abbrev clashes : ImportJob → ImportJob → Bool
clashes j k = in_flight j.user_id j.import_scope j && in_flight j.user_id j.import_scope k

-- No later job clashes with an earlier one.
unfoldable pub IsSingle : List ImportJob → Type 0
IsSingle [] = Unit
IsSingle (j ∷ js) = (any (clashes j) js ≡ false) × IsSingle js

in_flight_sym : (j k : ImportJob) → clashes j k ≡ clashes k j
in_flight_sym j k = ground (
  arith,
  ==_iff j.user_id k.user_id,
  ==_iff k.user_id j.user_id,
  ==_iff j.user_id j.user_id,
  ==_iff k.user_id k.user_id,
  text_eq_iff j.import_scope k.import_scope,
  text_eq_iff k.import_scope j.import_scope,
  text_eq_iff j.import_scope j.import_scope,
  text_eq_iff k.import_scope k.import_scope,
)

append-IsSingle :
    (js : List ImportJob) (m : ImportJob)
    → first (in_flight m.user_id m.import_scope) js ≡ none
    → IsSingle js
    → IsSingle (js ++ m ∷ [])
unfolding IsSingle
append-IsSingle [] m free h = (refl, tt)
append-IsSingle (k ∷ js) m free (h, hs) = (
  any-append (clashes k) js (m ∷ []) ∙ ground (arith, in_flight_sym k m, h),
  append-IsSingle js m (ground arith) hs,
)

any-keep :
    (p q : ImportJob → Bool) (js : List ImportJob) → any p js ≡ false → any p (keep q js) ≡ false
any-keep p q [] h = refl
any-keep p q (j ∷ js) h = ground (arith, any-keep p q js)

keep-IsSingle : (q : ImportJob → Bool) (js : List ImportJob) → IsSingle js → IsSingle (keep q js)
unfolding IsSingle
keep-IsSingle q [] h = tt
keep-IsSingle q (j ∷ js) (h, hs) =
    elim (q j) as (λ b. IsSingle (if b then j ∷ keep q js else keep q js)) [
      | true ↦ (any-keep (clashes j) q js h, keep-IsSingle q js hs)
      | false ↦ keep-IsSingle q js hs
    ]

any_quiet :
    (p q : ImportJob → Bool)
    → ((k : ImportJob) → p k ≡ false → q k ≡ false)
    → (js : List ImportJob) → any p js ≡ false
    → any q js ≡ false
any_quiet p q i [] h = refl
any_quiet p q i (k ∷ js) h = ground (arith, i k, any_quiet p q i js)

-- A change of a job that makes no clash.
module _ (id : ℕ) (f : ImportJob → ImportJob)
    (quiet : (j k : ImportJob) → clashes j k ≡ false → clashes (f j) k ≡ false) where
  quiet_right : (j k : ImportJob) → clashes j k ≡ false → clashes j (f k) ≡ false
  quiet_right j k h = in_flight_sym j (f k) ∙ quiet k j (in_flight_sym k j ∙ h)

  any_revised :
      (p : ImportJob → Bool)
      → ((k : ImportJob) → p k ≡ false → p (f k) ≡ false)
      → (js : List ImportJob) → any p js ≡ false
      → any p (revise_jobs id f js) ≡ false
  unfolding revise_jobs
  any_revised p q [] h = refl
  any_revised p q (k ∷ js) h = ground (arith, q k, any_revised p q js)

  revise-IsSingle : (js : List ImportJob) → IsSingle js → IsSingle (revise_jobs id f js)
  unfolding IsSingle revise_jobs
  revise-IsSingle [] h = tt
  revise-IsSingle (j ∷ js) (h, hs) = (
    elim (j.id == id) as (λ b. any (clashes (if b then f j else j)) (revise_jobs id f js) ≡ false) [
      | true ↦
          any_quiet (clashes j) (clashes (f j)) (quiet j) (revise_jobs id f js)
            (any_revised (clashes j) (quiet_right j) js h)
      | false ↦ any_revised (clashes j) (quiet_right j) js h
    ],
    revise-IsSingle js hs,
  )

IsSingle-laws : (d : Discogs) → JobLaws d IsSingle
IsSingle-laws d = record {
  appended = λ id user_id link_id source now js free h.
      append-IsSingle js (new_job id user_id link_id source now) free h;
  counted_kept = λ id created js h. revise-IsSingle id (counted created) (λ j k e. e) js h;
  progress =
      λ id page cursor at js h. revise-IsSingle id (page_done page cursor at) (λ j k e. e) js h;
  completed_kept =
      λ id at now js h. revise-IsSingle id (completed at now) (λ j k e. ground arith) js h;
  failed_kept =
      λ id e at now js h. revise-IsSingle id (failed d e at now) (λ j k e. ground arith) js h;
  deleted = λ p js h. keep-IsSingle p js h;
}

module _ (env : Environment) (d : Discogs) where
  -- On every path of creating and of running an import job, errors and lost races included: if
  -- no two jobs of one user and one scope were in flight before, and other transactions keep it
  -- so, no two are after.
  pub jobs-IsSingle :
      (user_id : ℕ) (source : Text) (cooldown : Option ℕ) (fuel job_id : ℕ) (w : World)
      → Holds (InJobs IsSingle) w
      → Holds (InJobs IsSingle) (ensure_import_job env d user_id source cooldown w).1
        × Holds (InJobs IsSingle) (execute_import_job env d fuel job_id w).1
  jobs-IsSingle user_id source cooldown fuel job_id w h = (
    (ensure-InJobs (IsSingle-laws d) env user_id source cooldown).at w h,
    (execute-InJobs (IsSingle-laws d) env fuel job_id).at w h,
  )

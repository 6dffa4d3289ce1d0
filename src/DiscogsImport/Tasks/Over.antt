-- ===== src/DiscogsImport/Tasks/Over.antt =====
-- app/services/discogs_import.py: that a job is no longer running, kept by what follows its end.
use wax_watch_api.Prelude.{
  ℕ, ◌==◌, ◌≡◌, refl, sym, subst, some, true, false, List, [], ◌∷◌, All, All-first, first_sound,
  arith, if◌then◌else◌,
}
use wax_watch_api.Models.{ImportJob, is_running}
use wax_watch_api.Session.{Tables, World, Action}
use wax_watch_api.Session.Keeps.{Keeps, Holds}
use wax_watch_api.DiscogsImport.Pages.{revise_jobs, counted, page_done}
use wax_watch_api.DiscogsImport.Frame.{KeptByRows}
use wax_watch_api.DiscogsImport.Jobs.{job_at}
use wax_watch_api.DiscogsImport.Jobs.Invariant.{InJobs, rows-InJobs}
use wax_watch_api.DiscogsImport.Tasks.Lone.{Lone}

-- The job is not running.
abbrev pub IsOver : ℕ → ImportJob → Type 0
IsOver id j = (j.id == id) ≡ true → is_running j.status ≡ false

unfoldable pub AllOver : ℕ → List ImportJob → Type 0
AllOver id = All (IsOver id)

pub revised_over :
    (id at : ℕ) (f : ImportJob → ImportJob) (js : List ImportJob)
    → ((j : ImportJob) → IsOver id j → IsOver id (f j))
    → AllOver id js
    → AllOver id (revise_jobs at f js)
unfolding AllOver revise_jobs
revised_over id at f [] k h = tt
revised_over id at f (j ∷ js) k (o, h) = (
  elim (j.id == at) as (λ b. IsOver id (if b then f j else j)) [ true ↦ k j o | false ↦ o ],
  revised_over id at f js k h,
)

-- A change of the job itself that ends it.
pub over_after :
    (id : ℕ) (f : ImportJob → ImportJob) (js : List ImportJob)
    → ((j : ImportJob) → is_running (f j).status ≡ false)
    → AllOver id (revise_jobs id f js)
unfolding AllOver revise_jobs
over_after id f [] k = tt
over_after id f (j ∷ js) k = (
  elim (j.id == id) as (λ b. (j.id == id) ≡ b → IsOver id (if b then f j else j)) [
    | true ↦ (λ e here. k j)
    | false ↦ (λ e here. ground (arith, e, here))
  ]
      refl,
  over_after id f js k,
)

-- Alone, with the job not running.
abbrev pub Over : Tables → ℕ → World → Type 0
Over base id w = Lone base w × AllOver id w.jobs

pub over_rows : (id : ℕ) → KeptByRows (Holds (InJobs (AllOver id)))
over_rows id =
    rows-InJobs (λ at created js h. revised_over id at (counted created) js (λ j o. o) h)
      (λ at page cursor now js h. revised_over id at (page_done page cursor now) js (λ j o. o) h)

pub held : {base : Tables} (id : ℕ) (w : World) → Over base id w → Holds (InJobs (AllOver id)) w
held id w (l, o) = record {
  here = record { jobs_hold = o };
  elsewhere = subst (All _) (sym l.alone) tt;
}

pub both_kept :
    {A : Type 0} {m : Action A} (base : Tables) (id : ℕ)
    → Keeps (Lone base) m
    → Keeps (Holds (InJobs (AllOver id))) m
    → Keeps (Over base id) m
both_kept base id k o = record { at = λ w h. (k.at w h.0, (o.at w (held id w h)).here.jobs_hold) }

pub job_over :
    (id : ℕ) (js : List ImportJob) {j : ImportJob}
    → AllOver id js
    → job_at id js ≡ some j
    → is_running j.status ≡ false
unfolding AllOver
job_over id js o e =
    All-first (IsOver id) (λ k. k.id == id) js o e (first_sound (λ k. k.id == id) js e)

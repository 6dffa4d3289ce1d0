-- ===== src/DiscogsImport/Frame.antt =====
-- app/services/discogs_import.py: the steps of an import, for predicates of the world that each
-- step keeps.
use wax_watch_api.Prelude.{ℕ, zero, suc, Option, none, some, Bool, true, false, List, [], ◌∷◌, leb}
use wax_watch_api.Prelude.Text.{Text}
use wax_watch_api.Json.{Json}
use wax_watch_api.Models.{WatchRelease}
use wax_watch_api.Environment.{Environment}
use wax_watch_api.Session.{World, now_utc, fresh_id}
use wax_watch_api.Session.Keeps.{
  Keeps, Keeps-if, Keeps-bind, Keeps-pure, Keeps-gets, Keeps-lift, Keeps-option, Keeps-raise,
}
use wax_watch_api.WatchReleases.{write_release}
use wax_watch_api.DiscogsImport.{Discogs, Reply, request}
use wax_watch_api.DiscogsImport.Releases.{
  Normalized, add_release, upsert_watch_release, write_added, flush,
}
use wax_watch_api.DiscogsImport.Pages.{
  set_job, counted, page_done, fetch_page, import_normalized, import_releases, import_page,
  import_pages, import_source,
}

pub record KeptByRows (P : World → Type 0) : Type 0 where
  pub now : Keeps P now_utc
  pub fresh : Keeps P fresh_id
  pub write : (r : WatchRelease) → Keeps P (write_release r)
  pub add : (r : WatchRelease) → Keeps P (add_release r)
  pub written : Keeps P write_added
  pub count : (id : ℕ) → (created : Bool) → Keeps P (set_job id (counted created))
  pub progress :
      (id page : ℕ) → (cursor : Text) → (at : ℕ) → Keeps P (set_job id (page_done page cursor at))

module _ {P : World → Type 0} (k : KeptByRows P) where
  upsert-Keeps :
      (user_id : ℕ) (n : Normalized) (source : Text)
      → Keeps P (upsert_watch_release user_id n source)
  unfolding upsert_watch_release
  upsert-Keeps user_id n source = Keeps-bind _ _ (Keeps-gets _) (λ existing.
      Keeps-bind _ _ k.now (λ now.
        Keeps-option existing _ _
          (Keeps-bind _ _ k.fresh (λ id. Keeps-bind _ _ (k.add _) (λ _. Keeps-pure true)))
          (λ r. Keeps-bind _ _ (k.write _) (λ _. Keeps-pure false))))

  pub flush-Keeps : Keeps P flush
  unfolding flush
  flush-Keeps =
      Keeps-bind _ _ (Keeps-gets _) (λ clash. Keeps-if clash _ _ (Keeps-raise _) k.written)

  module _ (env : Environment) (d : Discogs) where
    import_normalized-Keeps :
        (job_id user_id : ℕ) (source : Text) (n : Option Normalized)
        → Keeps P (import_normalized env d job_id user_id source n)
    unfolding import_normalized
    import_normalized-Keeps job_id user_id source none = Keeps-pure tt
    import_normalized-Keeps job_id user_id source (some n) =
        Keeps-bind _ _ (upsert-Keeps user_id n source) (λ created. k.count job_id created)

    pub import_releases-Keeps :
        (job_id user_id : ℕ) (source : Text) (es : List Json)
        → Keeps P (import_releases env d job_id user_id source es)
    unfolding import_releases
    import_releases-Keeps job_id user_id source [] = Keeps-pure tt
    import_releases-Keeps job_id user_id source (e ∷ es) =
        let rest = import_releases-Keeps job_id user_id source es in
        Keeps-bind _ _ (Keeps-lift _)
          (λ n. Keeps-bind _ _ (import_normalized-Keeps job_id user_id source n) (λ _. rest))

  module _ (asks : (ask : ℕ → Reply Json) → Keeps P (request ask)) (env : Environment)
      (d : Discogs) where
    import_page-Keeps :
        (job_id user_id : ℕ) (source endpoint token : Text) (page : ℕ)
        → Keeps P (import_page env d job_id user_id source endpoint token page)
    unfolding import_page fetch_page
    import_page-Keeps job_id user_id source endpoint token page =
        Keeps-bind _ _ (Keeps-bind _ _ (asks _) (λ answer. Keeps-lift _)) (λ body.
          Keeps-bind _ _ (Keeps-lift _) (λ pages. Keeps-bind _ _ (Keeps-lift _) (λ es.
            Keeps-bind _ _ (import_releases-Keeps env d job_id user_id source es) (λ _.
              Keeps-bind _ _ k.now (λ now.
                Keeps-bind _ _ (k.progress job_id page _ now)
                  (λ _. Keeps-bind _ _ flush-Keeps (λ _. Keeps-pure pages)))))))

    import_pages-Keeps :
        (fuel job_id user_id : ℕ) (source endpoint token : Text) (page pages : ℕ)
        → Keeps P (import_pages env d fuel job_id user_id source endpoint token page pages)
    unfolding import_pages
    import_pages-Keeps zero job_id user_id source endpoint token page pages = Keeps-pure none
    import_pages-Keeps (suc fuel) job_id user_id source endpoint token page pages =
        Keeps-if (leb page pages) _ _
          (Keeps-bind _ _ (import_page-Keeps job_id user_id source endpoint token page) (λ total.
            import_pages-Keeps fuel job_id user_id source endpoint token (suc page) total))
          (Keeps-pure (some tt))

    pub import_source-Keeps :
        (fuel job_id user_id : ℕ) (username token source : Text)
        → Keeps P (import_source env d fuel job_id user_id username token source)
    unfolding import_source
    import_source-Keeps fuel job_id user_id username token source =
        Keeps-bind _ _ (Keeps-lift _)
          (λ endpoint. import_pages-Keeps fuel job_id user_id source endpoint token 1 1)

-- ===== src/DiscogsImport/Pages/Ends.antt =====
-- app/services/discogs_import.py: how long `_import_source` runs.
use wax_watch_api.Prelude.{
  ℕ, zero, suc, ◌+◌, ◌≤◌, ◌<◌, ◌≡◌, ◌≢◌, refl, Option, none, some, leb, arith, leb→le,
}
use wax_watch_api.Prelude.Text.{Text}
use wax_watch_api.Json.{Json}
use wax_watch_api.Environment.{Environment}
use wax_watch_api.Session.{World, Outcome, ok, raised, now_utc, fresh_id}
use wax_watch_api.Session.Keeps.{Keeps-modify}
use wax_watch_api.Session.Ensures.{
  Ensures, Ensures-bind, Ensures-pure, Ensures-if, Ensures-lift, Ensures_kept, Ensures_weaken,
  Ensures-fact, Post,
}
use wax_watch_api.WatchReleases.{write_release}
use wax_watch_api.DiscogsImport.{Discogs, request}
use wax_watch_api.DiscogsImport.Releases.{add_release, write_added}
use wax_watch_api.DiscogsImport.Pages.{
  set_job, fetch_page, page_body, pages_of, import_page, import_pages, import_source, endpoint_for,
}
use wax_watch_api.DiscogsImport.Frame.{KeptByRows, import_releases-Keeps, flush-Keeps}

-- No answer of Discogs counts more than `most` pages.
pub record AtMost (env : Environment) (d : Discogs) (most : ℕ) : Type 0 where
  pub counts :
      (n : ℕ) (endpoint : Text) (token : Option Text) (page : ℕ) (body : Json) (pages : ℕ)
      → page_body env d (d.page_reply n endpoint token page) ≡ ok body
      → pages_of env d body ≡ ok pages
      → pages ≤ most

-- The requests made so far.
abbrev Asked : ℕ → World → Type 0
Asked k w = w.requests ≡ k

abbrev AskedAtMost : ℕ → World → Type 0
AskedAtMost k w = w.requests ≤ k

Asked-rows : (k : ℕ) → KeptByRows (Asked k)
unfolding now_utc fresh_id write_release add_release write_added set_job
Asked-rows k = record {
  now = record { at = λ w h. h };
  fresh = record { at = λ w h. h };
  write = λ r. Keeps-modify _ (λ w h. h);
  add = λ r. Keeps-modify _ (λ w h. h);
  written = Keeps-modify _ (λ w h. h);
  count = λ id created. Keeps-modify _ (λ w h. h);
  progress = λ id page cursor at. Keeps-modify _ (λ w h. h);
}

-- The import of one list ended: with an error, or with nothing left to read; and it made no
-- more than `most` requests.
pub record Ended (most : ℕ) (before : World) (out : Outcome (Option (Unit {0})) × World)
    : Type 0 where
  pub ends : out.0 ≢ ok none
  pub few : out.1.requests ≤ before.requests + most

ended :
    (most : ℕ) (before : World) (out : Outcome (Option (Unit {0})) × World)
    → Post
        (λ r w. (r ≡ some tt) × (w.requests + 1 ≤ before.requests + suc most))
        (λ w. w.requests + 1 ≤ before.requests + suc most)
        out
    → Ended most before out
ended most before (ok none, w) h = record {
  ends = λ e. absurd (ground (arith, h.0));
  few = omega (arith, h.1);
}
ended most before (ok (some a), w) h = record {
  ends = λ e. ground (arith, e);
  few = omega (arith, h.1);
}
ended most before (raised e, w) h = record { ends = λ e. ground (arith, e); few = omega arith }

module _ (env : Environment) (d : Discogs) (most : ℕ) (b : AtMost env d most) where
  -- The pages that a body counts.
  abbrev Counts : Json → Type 0
  Counts body = (pages : ℕ) → pages_of env d body ≡ ok pages → pages ≤ most

  fetched :
      (k : ℕ) (endpoint : Text) (token : Option Text) (page : ℕ)
      → Ensures
          (Asked k)
          (fetch_page env d endpoint token page)
          (λ body w. Asked (suc k) w × Counts body)
          (AskedAtMost (suc k))
  unfolding fetch_page request
  fetched k endpoint token page =
      Ensures-bind
        {R = λ answer w.
          Asked (suc k) w × ((body : Json) → page_body env d answer ≡ ok body → Counts body)}
        _ _
        (record { at = λ w h. (omega arith, λ body e pages c. b.counts _ _ _ _ body pages e c) })
        (λ answer.
          Ensures-lift (page_body env d answer) (λ body e w h. (h.0, h.1 body e))
            (λ w h. omega arith))

  page_read :
      (k job_id user_id : ℕ) (source endpoint token : Text) (page : ℕ)
      → Ensures
          (Asked k)
          (import_page env d job_id user_id source endpoint token page)
          (λ pages w. Asked (suc k) w × (pages ≤ most))
          (AskedAtMost (suc k))
  unfolding import_page
  page_read k job_id user_id source endpoint token page =
      let rows = Asked-rows (suc k) in
      let over : (w : World) → Asked (suc k) w → AskedAtMost (suc k) w = λ w h. omega arith in
      Ensures-bind _ _ (fetched k endpoint (some token) page) (λ body.
        Ensures-bind {R = λ pages w. Asked (suc k) w × (pages ≤ most)} _ _
          (Ensures-lift (pages_of env d body) (λ pages e w h. (h.0, h.1 pages e))
            (λ w h. omega arith))
          (λ pages. Ensures-fact (λ few.
            Ensures-bind {R = λ _. Asked (suc k)} _ _
              (Ensures-lift _ (λ es e w h. h) (λ w h. omega arith))
              (λ es.
                Ensures-bind _ _
                  (Ensures_kept (import_releases-Keeps rows env d job_id user_id source es) over)
                  (λ _. Ensures-bind _ _ (Ensures_kept rows.now over) (λ now.
                    Ensures-bind _ _ (Ensures_kept (rows.progress job_id page _ now) over) (λ _.
                      Ensures-bind _ _ (Ensures_kept (flush-Keeps rows) over)
                        (λ _. Ensures-pure pages (λ w h. (h, few))))))))))

  pages_read :
      (fuel k job_id user_id : ℕ) (source endpoint token : Text) (page pages : ℕ)
      → page ≤ suc most
      → pages ≤ most
      → most + 2 ≤ fuel + page
      → Ensures
          (Asked k)
          (import_pages env d fuel job_id user_id source endpoint token page pages)
          (λ r w. (r ≡ some tt) × (w.requests + page ≤ k + suc most))
          (λ w. w.requests + page ≤ k + suc most)
  unfolding import_pages
  pages_read zero k job_id user_id source endpoint token page pages early few enough =
      absurd (omega arith)
  pages_read (suc fuel) k job_id user_id source endpoint token page pages early few enough =
      Ensures-if (leb page pages) _ _
        (λ more.
          let within = leb→le page pages more in
          Ensures-bind {R = λ total w. Asked (suc k) w × (total ≤ most)} _ _
            (Ensures_weaken {E = AskedAtMost (suc k)} (λ _ w h. h) (λ w h. omega arith)
              (page_read k job_id user_id source endpoint token page))
            (λ total. Ensures-fact (λ counted.
              Ensures_weaken {E = λ w. w.requests + suc page ≤ suc k + suc most}
                {Q = λ r w. (r ≡ some tt) × (w.requests + suc page ≤ suc k + suc most)}
                (λ r w h. (h.0, omega arith)) (λ w h. omega arith)
                (pages_read fuel (suc k) job_id user_id source endpoint token (suc page) total
                  (omega arith) counted (omega arith)))))
        (λ over. Ensures-pure (some tt) (λ w h. (refl, omega arith)))

  source_read :
      (fuel k job_id user_id : ℕ) (username token source : Text)
      → 1 ≤ most
      → most < fuel
      → Ensures
          (Asked k)
          (import_source env d fuel job_id user_id username token source)
          (λ r w. (r ≡ some tt) × (w.requests + 1 ≤ k + suc most))
          (λ w. w.requests + 1 ≤ k + suc most)
  unfolding import_source
  source_read fuel k job_id user_id username token source some_page enough =
      Ensures-bind {R = λ _. Asked k} _ _
        (Ensures-lift (endpoint_for source username) (λ a e w h. h) (λ w h. omega arith))
        (λ endpoint.
          pages_read fuel k job_id user_id source endpoint token 1 1 (omega arith) some_page
            (omega arith))

  pub import_source_ends :
      (fuel job_id user_id : ℕ) (username token source : Text) (w : World)
      → 1 ≤ most
      → most < fuel
      → Ended most w (import_source env d fuel job_id user_id username token source w)
  import_source_ends fuel job_id user_id username token source w some_page enough = ended most w _ (
      (source_read fuel w.requests job_id user_id username token source some_page enough).at w refl)

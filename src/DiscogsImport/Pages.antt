-- ===== src/DiscogsImport/Pages.antt =====
-- app/services/discogs_import.py: `_import_source`, which reads the pages of a Discogs list. The
-- loop runs on fuel, and is nothing where the fuel ends before it does.
pub mod Ends
use wax_watch_api.Prelude.{
  ℕ, zero, suc, ◌+◌, ◌==◌, Option, none, some, Bool, true, false, not, List, [], ◌∷◌, ◌++◌, or_else,
  leb, if◌then◌else◌,
}
use wax_watch_api.Prelude.Text.{Text, codes, text_eq, truthy_text}
use wax_watch_api.Prelude.Dict.{Dict}
use wax_watch_api.Json.{Json, text, arr, obj, number, items, fields, truthy}
use wax_watch_api.Models.{ImportJob, ExternalAccountLink}
use wax_watch_api.Environment.{Environment}
use wax_watch_api.Session.{
  lift, World, Action, Outcome, ok, raised, http_exception, type_error, value_error,
  transport_error, attribute_error, pure, raise, gets, modify, ◌>>=◌, ◌>>◌, option_case, now_utc,
}
use wax_watch_api.DiscogsImport.{Discogs, Reply, no_reply, reply, request}
use wax_watch_api.DiscogsImport.Metadata.{value_of, json_or}
use wax_watch_api.DiscogsImport.Releases.{
  Normalized, normalize_release, upsert_watch_release, flush, as_dict, int_of, and_then,
}

unfoldable pub revise_jobs : ℕ → (ImportJob → ImportJob) → List ImportJob → List ImportJob
revise_jobs id f [] = []
revise_jobs id f (j ∷ js) = (if j.id == id then f j else j) ∷ revise_jobs id f js

-- The attributes of a job that the session holds are assigned.
unfoldable pub set_job : ℕ → (ImportJob → ImportJob) → Action (Unit {0})
set_job id f = modify (λ w. record w { db = record w.db { jobs = revise_jobs id f w.jobs } })

abbrev pub counted : Bool → ImportJob → ImportJob
counted created j = record j {
  processed_count = suc j.processed_count;
  imported_count = suc j.imported_count;
  created_count = if created then suc j.created_count else j.created_count;
  updated_count = if created then j.updated_count else suc j.updated_count;
}

abbrev pub page_done : (page : ℕ) → (cursor : Text) → (now : ℕ) → ImportJob → ImportJob
page_done page cursor now j = record j { page = page; cursor = some cursor; updated_at = now }

-- `_endpoint_for`
unfoldable pub endpoint_for : (source username : Text) → Outcome Text
unfolding text_eq
endpoint_for source username =
    if text_eq source (codes "wantlist")
    then ok (codes "/users/" ++ username ++ codes "/wants")
    else if text_eq source (codes "collection")
    then ok (codes "/users/" ++ username ++ codes "/collection/folders/0/releases")
    else raised (http_exception 400)

-- The entries of a page, as `for` reads them: the items of a list, the characters of a text, the
-- keys of a dictionary.
abbrev chars : Text → List Json
chars [] = []
chars (c ∷ s) = text (c ∷ []) ∷ chars s

abbrev keys : Dict Text Json → List Json
keys [] = []
keys ((k, v) ∷ d) = text k ∷ keys d

abbrev entries : Json → Outcome (List Json)
entries (arr vs) = ok (items vs)
entries (text s) = ok (chars s)
entries (obj fs) = ok (keys (fields fs))
entries _ = raised type_error

module _ (env : Environment) (d : Discogs) where
  abbrev pub page_body : Reply Json → Outcome Json
  page_body no_reply = raised transport_error
  page_body (reply status none) =
      if status == 200 then raised value_error else raised (http_exception 502)
  page_body (reply status (some body)) =
      if status == 200 then ok body else raised (http_exception 502)

  -- `_fetch_page`
  unfoldable pub fetch_page : (endpoint : Text) → (token : Option Text) → (page : ℕ) → Action Json
  fetch_page endpoint token page = do
    answer ← request (λ n.
        d.page_reply n endpoint (or_else (truthy_text token) (truthy_text d.discogs_token)) page)
    lift (page_body answer)

  -- `int((data.get("pagination") or {}).get("pages") or 1)`
  abbrev count_of : Json → Outcome ℕ
  count_of v = if truthy v then int_of env d v else ok 1

  abbrev pages_in : Json → Outcome ℕ
  pages_in v =
      if truthy v then and_then (as_dict v) (λ p. count_of (value_of (codes "pages") p)) else ok 1

  unfoldable pub pages_of : Json → Outcome ℕ
  unfolding value_of truthy
  pages_of answer = and_then (as_dict answer) (λ fs. pages_in (value_of (codes "pagination") fs))

  abbrev listed : Json → Outcome (List Json)
  listed v = if truthy v then entries v else ok []

  -- `data.get("releases") or data.get("wants") or []`
  unfoldable pub releases_of : Json → Outcome (List Json)
  unfolding value_of truthy
  releases_of answer =
      and_then (as_dict answer)
        (λ fs. listed (json_or (value_of (codes "releases") fs) (value_of (codes "wants") fs)))

  unfoldable pub import_normalized :
      (job_id user_id : ℕ) → Text → Option Normalized → Action (Unit {0})
  unfolding upsert_watch_release set_job
  import_normalized job_id user_id source none = pure tt
  import_normalized job_id user_id source (some n) = do
    created ← upsert_watch_release user_id n source
    set_job job_id (counted created)

  unfoldable pub import_releases : (job_id user_id : ℕ) → Text → List Json → Action (Unit {0})
  unfolding normalize_release import_normalized
  import_releases job_id user_id source [] = pure tt
  import_releases job_id user_id source (entry ∷ es) = do
    n ← lift (normalize_release env d entry)
    import_normalized job_id user_id source n
    import_releases job_id user_id source es

  -- `f"{source}:{page}/{pages}"`
  abbrev cursor_text : Text → (page pages : ℕ) → Text
  cursor_text source page pages = source ++ b':' ∷ d.decimal page ++ b'/' ∷ d.decimal pages

  -- One round of the loop: the number of pages that the answer gives.
  unfoldable pub import_page :
      (job_id user_id : ℕ) → (source endpoint token : Text) → (page : ℕ) → Action ℕ
  unfolding fetch_page pages_of releases_of import_releases set_job flush
  import_page job_id user_id source endpoint token page = do
    answer ← fetch_page endpoint (some token) page
    pages ← lift (pages_of answer)
    releases ← lift (releases_of answer)
    import_releases job_id user_id source releases
    now ← now_utc
    set_job job_id (page_done page (cursor_text source page pages) now)
    flush
    pure pages

  unfoldable pub import_pages :
      ℕ
      → (job_id user_id : ℕ) → (source endpoint token : Text) → (page pages : ℕ)
      → Action (Option (Unit {0}))
  unfolding import_page
  import_pages zero job_id user_id source endpoint token page pages = pure none
  import_pages (suc fuel) job_id user_id source endpoint token page pages =
      if leb page pages
      then (do
        total ← import_page job_id user_id source endpoint token page
        import_pages fuel job_id user_id source endpoint token (suc page) total)
      else pure (some tt)

  -- `_import_source`
  unfoldable pub import_source :
      ℕ → (job_id user_id : ℕ) → (username token source : Text) → Action (Option (Unit {0}))
  unfolding endpoint_for import_pages
  import_source fuel job_id user_id username token source = do
    endpoint ← lift (endpoint_for source username)
    import_pages fuel job_id user_id source endpoint token 1 1

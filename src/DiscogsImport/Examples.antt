-- ===== src/DiscogsImport/Examples.antt =====
-- Imports of small Discogs lists.
use wax_watch_api.Prelude.{
  ℕ, ◌*◌, ◌≡◌, refl, ap, ◌∙◌, sym, none, some, true, List, [], ◌∷◌, map, arith,
}
use wax_watch_api.Prelude.Text.{codes, text_eq, starts_with}
use wax_watch_api.Prelude.Int.{pos}
use wax_watch_api.Prelude.Dict.{get}
use wax_watch_api.Json.{Json, number, text, obj, arr, to_fields, to_items, truthy}
use wax_watch_api.Models.{discogs, ExternalAccountLink, ImportJob, job_running}
use wax_watch_api.Session.{
  World, Outcome, ok, raised, pending_rollback_error, ◌>>=◌, now_utc, fresh_id,
}
use wax_watch_api.Session.Keeps.{Holds}
use wax_watch_api.Tokens.Crypto.{is_encrypted}
use wax_watch_api.DiscogsImport.{Discogs, reply, no_reply, request}
use wax_watch_api.DiscogsImport.Accounts.{
  Connection, connect_account, get_status, disconnect_account, get_decrypted_access_token,
}
use wax_watch_api.DiscogsImport.Accounts.Sealed.{IsSealed, AllSealed, sealed_token}
use wax_watch_api.DiscogsImport.Metadata.{value_of}
use wax_watch_api.DiscogsImport.OAuth.{start_oauth, complete_oauth}
use wax_watch_api.DiscogsImport.OAuth.Sealed.{tokens_sealed}
use wax_watch_api.WatchReleases.{replace_release}
use wax_watch_api.DiscogsImport.Pages.{pages_of, import_source, revise_jobs}
use wax_watch_api.DiscogsImport.Pages.Ends.{AtMost}
use wax_watch_api.DiscogsImport.Jobs.{ensure_import_job, execute_import_job}
use wax_watch_api.DiscogsImport.Jobs.Invariant.{InJobs}
use wax_watch_api.DiscogsImport.Jobs.Sound.{AllSound, jobs_sound}
use wax_watch_api.DiscogsImport.Jobs.Single.{IsSingle, jobs-IsSingle}
use wax_watch_api.DiscogsImport.Tasks.{run_discogs_import_task}
use wax_watch_api.DiscogsImport.Tasks.Ends.{HasEnded, import_task_ends}
use wax_watch_api.Samples.{environment, alone}

-- An entry of a list, and a page that does not count its pages.
abbrev entry : ℕ → Json
entry id = obj (
    to_fields
      ((codes "id", number (pos (id * 10000))) ∷ (codes "title", text (codes "Blue Train")) ∷ []))

abbrev page : List Json → Json
page es = obj (to_fields ((codes "wants", arr (to_items es)) ∷ []))

-- A Discogs that answers every request for a page with the same entries.
abbrev serving : List Json → Discogs
serving es = record {
  crypto = record { key_id = codes "k"; seal = λ nonce p. p; open_token = some };
  print = λ v. [];
  oauth_scopes = codes "identity";
  oauth_client_id = none;
  oauth_redirect_uri = none;
  oauth_state_ttl_seconds = 600;
  discogs_token = none;
  token_urlsafe = λ n. codes "s";
  urlencode = λ ps. [];
  isoformat = λ t. codes "t";
  fromisoformat = λ s. none;
  fromtimestamp = λ n. none;
  int_of_text = λ s. none;
  decimal = λ n. codes "1";
  error_text = λ e. codes "e";
  randint = λ n bound. 0;
  token_reply = λ n code. no_reply;
  identity_reply = λ n token. no_reply;
  page_reply = λ n endpoint token number. reply 200 (some (page es));
}

abbrev link : ExternalAccountLink
link = record {
  id = 40;
  user_id = 1;
  provider = discogs;
  external_user_id = codes "u";
  access_token = some (codes "enc:v1:k:tok");
  refresh_token = none;
  access_token_expires_at = none;
  token_type = none;
  scopes = none;
  token_metadata = none;
  connected_at = 0;
  created_at = 0;
  updated_at = 0;
}

abbrev job : ImportJob
job = record {
  id = 41;
  user_id = 1;
  external_account_link_id = some 40;
  provider = discogs;
  import_scope = codes "both";
  status = job_running;
  cursor = none;
  page = 1;
  processed_count = 0;
  imported_count = 0;
  created_count = 0;
  updated_count = 0;
  error_count = 0;
  errors = some [];
  started_at = some 0;
  completed_at = none;
  created_at = 0;
  updated_at = 0;
}

abbrev connected : World
connected = record alone {
  db = record alone.db { links = link ∷ []; jobs = job ∷ [] };
  committed = record alone.db { links = link ∷ []; jobs = job ∷ [] };
}

-- A list with a new release and one that is watched already.
abbrev list : Discogs
list = serving (entry 800 ∷ entry 700 ∷ [])

or_null : Outcome Json → Json
or_null (ok v) = v
or_null (raised e) = Json.null

or_zero : Outcome ℕ → ℕ
or_zero (ok n) = n
or_zero (raised e) = 0

one_page : AtMost environment list 1
unfolding pages_of value_of truthy get text_eq or_null or_zero
one_page = record {
  counts = λ n endpoint token number body pages answer counted.
      let same : body ≡ page (entry 800 ∷ entry 700 ∷ []) = sym (ap or_null answer) in
      let one : pages ≡ 1 = ap or_zero (sym counted ∙ ap (pages_of environment list) same) in
      omega arith;
}

import_task_ends_example :
    HasEnded 41 connected (run_discogs_import_task environment list 2 41 connected)
import_task_ends_example =
    import_task_ends environment list 1 2 41 connected one_page (omega arith) (omega arith) refl

jobs_sound_example :
    Holds (InJobs AllSound) (ensure_import_job environment list 1 (codes "both") none connected).1
    × Holds (InJobs AllSound) (execute_import_job environment list 2 41 connected).1
unfolding AllSound
jobs_sound_example = jobs_sound environment list 1 (codes "both") none 2 41 connected (record {
  here = record {
    jobs_hold =
        (record { imported_eq = refl; added_up = refl; errors_counted = refl; timed = refl }, tt);
  };
  elsewhere = tt;
})

jobs-IsSingle_example :
    Holds (InJobs IsSingle) (ensure_import_job environment list 1 (codes "both") none connected).1
    × Holds (InJobs IsSingle) (execute_import_job environment list 2 41 connected).1
unfolding IsSingle
jobs-IsSingle_example =
    jobs-IsSingle environment list 1 (codes "both") none 2 41 connected
      (record { here = record { jobs_hold = (refl, tt) }; elsewhere = tt })

abbrev connection : Connection
connection = record {
  external_user_id = codes "u";
  access_token = some (codes "plain");
  token_metadata = none;
  refresh_token = none;
  access_token_expires_at = none;
  token_type = none;
  scopes = none;
}

-- A Discogs that issues a token and names its owner.
abbrev issuing : Discogs
issuing = record list {
  token_reply = λ n code. reply 200 (
      some (record {
        access_token = some (codes "tok");
        refresh_token = none;
        token_type = none;
        scope = none;
        expires_in = none;
        expires_at = none;
        access_token_expires_at = none;
      }));
  identity_reply = λ n token. reply 200 (some ((codes "username", text (codes "u")) ∷ []));
}

tokens_sealed_example :
    Holds (AllSealed issuing.crypto) (connect_account environment issuing 1 connection connected).1
    × Holds (AllSealed issuing.crypto) (start_oauth environment issuing 1 none connected).1
    × Holds
        (AllSealed issuing.crypto)
        (complete_oauth environment issuing 1 (codes "s") (codes "c") connected).1
    × Holds (AllSealed issuing.crypto) (get_status environment issuing 1 connected).1
    × Holds (AllSealed issuing.crypto) (disconnect_account environment issuing 1 true connected).1
unfolding IsSealed is_encrypted starts_with
tokens_sealed_example =
    tokens_sealed environment issuing 1 connection none (codes "s") (codes "c") true connected refl
      (record { plain = λ n code. refl })
      (record { here = record { sealed = (sealed_token 0 (codes "tok"), tt) }; elsewhere = tt })

abbrev counts_of : ImportJob → ℕ × ℕ × ℕ
counts_of j = (j.processed_count, j.created_count, j.updated_count)

-- One list: a new release is added, the other is found.
import_counts :
    map counts_of
      (import_source environment list 2 41 1
        (codes "u")
        (codes "tok")
        (codes "wantlist")
        connected).1.jobs
    ≡ (2, 1, 1) ∷ []
unfolding import_source ◌>>=◌ request now_utc fresh_id replace_release revise_jobs
import_counts = refl

-- A collection with two copies of a new release: no flush writes them, and the task raises; the
-- committed job runs on.
copies_fail :
    (run_discogs_import_task environment (serving (entry 800 ∷ entry 800 ∷ [])) 2 41 connected).0
    ≡ raised pending_rollback_error
unfolding run_discogs_import_task execute_import_job ◌>>=◌ get_decrypted_access_token request
    now_utc fresh_id
copies_fail = refl

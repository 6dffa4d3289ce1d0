-- ===== src/Runner/Requests.antt =====
-- app/services/rule_runner.py and app/services/search.py: the requests that a search logs, and the
-- listings that it brings.
use wax_watch_api.Prelude.{ℕ, none, some, List, [], ◌∷◌, take, get_or}
use wax_watch_api.Prelude.Text.{Text, codes, truthy_text}
use wax_watch_api.Json.{text}
use wax_watch_api.Models.{Provider}
use wax_watch_api.Session.{Action, Outcome, ok, raised, value_error, pure, ◌>>◌}
use wax_watch_api.Ingest.Listings.{Payload, provider_of}
use wax_watch_api.Runner.{
  ProviderRequestLog, Searched, found, refused, crashed, Search, ProviderClient,
  log_provider_request,
}

unfoldable pub log_requests : ℕ → Provider → List ProviderRequestLog → Action (Unit {0})
unfolding log_provider_request
log_requests user_id provider [] = pure tt
log_requests user_id provider (r ∷ rs) = do
  log_provider_request user_id provider r
  log_requests user_id provider rs

-- What is logged of a search whose client logged nothing.
abbrev own_log : ProviderClient → Search → ProviderRequestLog
own_log client s = elim s.result [
  | found ls ↦ record {
    endpoint = client.default_endpoint;
    method = codes "GET";
    status_code = some 200;
    duration_ms = s.last_duration_ms;
    error = none;
    meta = s.last_request_meta;
  }
  | refused e ↦ record {
    endpoint = get_or (truthy_text e.endpoint) client.default_endpoint;
    method = get_or (truthy_text (some e.method)) (codes "GET");
    status_code = e.status_code;
    duration_ms = e.duration_ms;
    error = some (take 500 e.message);
    meta = e.meta;
  }
  | crashed message class_name ↦ record {
    endpoint = client.default_endpoint;
    method = codes "GET";
    status_code = none;
    duration_ms = s.last_duration_ms;
    error = some (take 500 message);
    meta = some ((codes "exception_type", text class_name) ∷ []);
  }
]

abbrev pub logs_of : ProviderClient → Search → List ProviderRequestLog
logs_of client s = elim s.logged [ [] ↦ own_log client s ∷ [] | r ∷ rs ↦ r ∷ rs ]

abbrev pub listings_of : Searched → List Payload
listings_of (found ls) = ls
listings_of (refused e) = []
listings_of (crashed message class_name) = []

unfoldable pub provider_or_raise : Text → Outcome Provider
unfolding provider_of
provider_or_raise source = elim (provider_of source) [ none ↦ raised value_error | some p ↦ ok p ]

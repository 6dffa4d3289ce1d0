-- ===== src/Runner.antt =====
-- app/providers/base.py: the interface of a provider's client, as the rule runner uses it.
-- app/services/provider_requests.py: `log_provider_request`.
pub mod Registry
pub mod Requests
pub mod Rules
pub mod Scheduler
mod Examples
use wax_watch_api.Prelude.{ℕ, Option, List, [], ◌∷◌, ◌++◌}
use wax_watch_api.Prelude.Text.{Text}
use wax_watch_api.Prelude.Dict.{Dict}
use wax_watch_api.Json.{Json}
use wax_watch_api.Models.{Provider, ProviderRequest}
use wax_watch_api.Session.{Action, modify, ◌>>=◌, ◌>>◌, now_utc, fresh_id}
use wax_watch_api.Ingest.Listings.{Payload}

-- ProviderRequestLog
pub record ProviderRequestLog : Type 0 where
  pub endpoint : Text
  pub method : Text
  pub status_code : Option ℕ
  pub duration_ms : Option ℕ
  pub error : Option Text
  pub meta : Option (Dict Text Json)

-- ProviderError, with its text
pub record ProviderError : Type 0 where
  pub message : Text
  pub status_code : Option ℕ
  pub meta : Option (Dict Text Json)
  pub endpoint : Option Text
  pub method : Text
  pub duration_ms : Option ℕ

-- How a search ends: listings, a `ProviderError`, or another exception, with its text and class.
pub data Searched : Type 0 where
  found : List Payload → Searched
  refused : ProviderError → Searched
  crashed : (message class_name : Text) → Searched

-- A search, with the requests that the client logged during it.
pub record Search : Type 0 where
  pub logged : List ProviderRequestLog
  pub last_duration_ms : Option ℕ
  pub last_request_meta : Option (Dict Text Json)
  pub result : Searched

-- ProviderClient; `n` says which search it is.
pub record ProviderClient : Type 0 where
  pub default_endpoint : Text
  pub search : (n : ℕ) → (query : Dict Text Json) → (limit : ℕ) → Search

unfoldable pub append_request : ProviderRequest → Action (Unit {0})
append_request r =
    modify
      (λ w. record w { db = record w.db { provider_requests = w.provider_requests ++ r ∷ [] } })

unfoldable pub log_provider_request : ℕ → Provider → ProviderRequestLog → Action (Unit {0})
unfolding append_request
log_provider_request user_id provider req = do
  at ← now_utc
  id ← fresh_id
  append_request (record {
    id = id;
    user_id = user_id;
    provider = provider;
    endpoint = req.endpoint;
    method = req.method;
    status_code = req.status_code;
    duration_ms = req.duration_ms;
    error = req.error;
    meta = req.meta;
    created_at = at;
  })

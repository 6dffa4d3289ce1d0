-- ===== src/Providers/EbayToken.antt =====
-- app/providers/ebay.py: the settings, and `_auth_token`.
use wax_watch_api.Prelude.{
  ℕ, ◌==◌, Option, none, some, true, false, List, [], ◌∷◌, ◌++◌, take, if◌then◌else◌,
}
use wax_watch_api.Prelude.Text.{Text, codes, text_key, truthy_text}
use wax_watch_api.Prelude.Dict.{Dict, get}
use wax_watch_api.Json.{Json, null, boolean, text, as_text}
use wax_watch_api.WatchRules.Validate.{look}
use wax_watch_api.Runner.{ProviderRequestLog, ProviderError}
use wax_watch_api.Providers.{
  HttpResponse, Reply, unreachable, answered, Python, RetrySettings, Wire,
}
use wax_watch_api.Providers.Answers.{
  Computed, value, thrown, ◌>>=◌, as_dict, decoded, count, optional_number, optional_text,
}
use wax_watch_api.Providers.Attempts.{Api, parse_retry_after_seconds}

pub record EbaySettings : Type 0 where
  pub client_id : Option Text
  pub client_secret : Option Text
  pub retrying : RetrySettings

abbrev pub search_endpoint : Text
search_endpoint = codes "/buy/browse/v1/item_summary/search"

abbrev token_endpoint : Text
token_endpoint = codes "/identity/v1/oauth2/token"

abbrev ebay_header : HttpResponse → Text → Json
ebay_header r name = optional_text (r.header name)

-- `attempt`, and the two totals
abbrev attempt_meta : (total attempt : ℕ) → Dict Text Json
attempt_meta total attempt =
    (codes "attempt", count attempt)
    ∷ (codes "attempts_total", count total)
    ∷ (codes "max_attempts", count total)
    ∷ []

abbrev seconds_of : Python → HttpResponse → Json
seconds_of py r = optional_number (parse_retry_after_seconds py (r.header (codes "Retry-After")))

abbrev pub ebay_api : Python → (total : ℕ) → Api
ebay_api py total = record {
  label = codes "eBay";
  endpoint = search_endpoint;
  network_meta = λ attempt.
      attempt_meta total attempt
      ++ (codes "retryable", boolean true)
        ∷ (codes "retry_after_seconds", null)
        ∷ (codes "request_id", null)
        ∷ (codes "rate_limit_remaining", null)
        ∷ [];
  raised_meta = λ attempt. attempt_meta total attempt ++ (codes "retryable", boolean true) ∷ [];
  response_meta = λ attempt r.
      attempt_meta total attempt
      ++ (codes "retry_after_seconds", seconds_of py r)
        ∷ (codes "request_id", ebay_header r (codes "x-ebay-c-request-id"))
        ∷ (codes "rate_limit_remaining", ebay_header r (codes "x-ebay-c-remaining-request-limit"))
        ∷ [];
}

-- How `_auth_token` ends.
pub data Authorized : Type 0 where
  authorized : (token : Text) → Authorized
  denied : ProviderError → Authorized
  broken : (message class_name : Text) → Authorized

-- The requests that it logs, and its end.
abbrev pub Auth : Type 0
Auth = List ProviderRequestLog × Authorized

module _ (py : Python) (w : Wire) where
  abbrev auth_log : Option ℕ → Option Text → Dict Text Json → ProviderRequestLog
  auth_log status error meta = record {
    endpoint = token_endpoint;
    method = codes "POST";
    status_code = status;
    duration_ms = some w.token_took;
    error = error;
    meta = some meta;
  }

  abbrev auth_error : Text → Option ℕ → Option ℕ → Option (Dict Text Json) → ProviderError
  auth_error message status duration_ms meta = record {
    message = message;
    status_code = status;
    meta = meta;
    endpoint = some token_endpoint;
    method = codes "POST";
    duration_ms = duration_ms;
  }

  abbrev auth_meta : HttpResponse → Dict Text Json
  auth_meta r =
      (codes "request_id", ebay_header r (codes "x-ebay-c-request-id"))
      ∷ (codes "rate_limit_remaining", ebay_header r (codes "x-ebay-c-remaining-request-limit"))
      ∷ (codes "retry_after_seconds", seconds_of py r)
      ∷ []

  abbrev missing : Text
  missing = codes "eBay auth missing access_token"

  abbrev pub token_in : HttpResponse → Option Text → Auth
  token_in r none = (
    auth_log (some r.status_code) (some missing)
          (auth_meta r ++ (codes "response_invalid", boolean true) ∷ [])
        ∷ [],
    denied (auth_error missing (some r.status_code) none none),
  )
  token_in r (some token) =
      (auth_log (some r.status_code) none (auth_meta r) ∷ [], authorized token)

  abbrev pub token_of : HttpResponse → Computed (Dict Text Json) → Auth
  token_of r (value payload) =
      token_in r (truthy_text (as_text (look (codes "access_token") payload)))
  token_of r (thrown message class_name) = ([], broken message class_name)

  abbrev pub auth_reply : Reply → Auth
  auth_reply (unreachable message) =
      let error = codes "eBay auth network error: " ++ message in
      (
        auth_log none (some error) ((codes "retryable", boolean false) ∷ []) ∷ [],
        denied (auth_error error none (some w.token_took) none),
      )
  auth_reply (answered r) =
      if r.status_code == 200 then token_of r (decoded py r r.body >>= as_dict py) else (
        auth_log (some r.status_code) (some (codes "eBay auth error " ++ py.show r.status_code))
              (auth_meta r)
            ∷ [],
        denied (
            auth_error (codes "eBay auth error " ++ py.show r.status_code) (some r.status_code)
              (some w.token_took) (some ((codes "response", text (take 500 r.content)) ∷ []))),
      )

  abbrev pub with_credentials : Option Text → Option Text → Auth
  with_credentials (some client_id) (some client_secret) = auth_reply w.token_reply
  with_credentials _ _ =
      ([], denied (auth_error (codes "eBay credentials missing") (some 401) none none))

  -- `_auth_token`
  unfoldable pub auth_token : EbaySettings → Auth
  unfolding get
  auth_token s = with_credentials (truthy_text s.client_id) (truthy_text s.client_secret)

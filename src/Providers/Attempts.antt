-- ===== src/Providers/Attempts.antt =====
-- app/providers/discogs.py and app/providers/ebay.py: the loop over the attempts of one search.
-- Delays are in ten-thousandths of a second, rounded down.
use wax_watch_api.Prelude.{
  ℕ, zero, suc, ◌+◌, ◌-◌, ◌*◌, ◌/◌, ◌^◌, max, min, ◌==◌, leb, Option, none, some, Bool, ◌||◌, List,
  [], ◌∷◌, ◌++◌, map_option, if◌then◌else◌,
}
use wax_watch_api.Prelude.Text.{Text, codes, text_key}
use wax_watch_api.Prelude.Int.{ℤ, pos_part}
use wax_watch_api.Prelude.Dict.{Dict}
use wax_watch_api.Json.{Json}
use wax_watch_api.Runner.{ProviderRequestLog, ProviderError}
use wax_watch_api.Providers.{
  HttpResponse, Reply, unreachable, answered, Python, RetrySettings, Wire,
}

-- `_is_retryable_status`
abbrev pub is_retryable_status : ℕ → Bool
is_retryable_status status = status == 429 || leb 500 status

abbrev nonnegative : Option ℤ → Option ℕ
nonnegative = map_option pos_part

-- `_parse_retry_after_seconds`
abbrev pub parse_retry_after_seconds : Python → Option Text → Option ℕ
parse_retry_after_seconds py none = none
parse_retry_after_seconds py (some []) = none
parse_retry_after_seconds py (some (c ∷ s)) = nonnegative (py.read_float (c ∷ s))

-- `_compute_backoff_seconds`
unfoldable pub compute_backoff : RetrySettings → (random attempt : ℕ) → ℕ
compute_backoff s random attempt =
    min (max s.retry_base_delay_ms 1 * 10 * 2 ^ (attempt - 1))
      (max s.retry_max_delay_ms s.retry_base_delay_ms * 10)
    * (5000 + random)
    / 10000

-- What the two clients write differently: their name, their endpoint, and the metadata of a network
-- error in the log and in the exception, and that of an answer.
pub record Api : Type 0 where
  pub label : Text
  pub endpoint : Text
  pub network_meta : (attempt : ℕ) → Dict Text Json
  pub raised_meta : (attempt : ℕ) → Dict Text Json
  pub response_meta : (attempt : ℕ) → HttpResponse → Dict Text Json

-- How the loop ends: with the answer to an attempt, or with an exception.
pub data Ended : Type 0 where
  arrived : HttpResponse → (attempt : ℕ) → Ended
  failed : ProviderError → Ended

-- The requests that it logs, and the delays that it sleeps.
pub record Tries : Type 0 where
  pub logged : List ProviderRequestLog
  pub slept : List ℕ
  pub ended : Ended

abbrev pub again : ProviderRequestLog → ℕ → Tries → Tries
again log delay rest = record {
  logged = log ∷ rest.logged;
  slept = delay ∷ rest.slept;
  ended = rest.ended;
}

abbrev pub stop : ProviderRequestLog → Ended → Tries
stop log ended = record { logged = log ∷ []; slept = []; ended = ended }

module _ (py : Python) (s : RetrySettings) (api : Api) (w : Wire) (reply : ℕ → Reply) where
  abbrev status_text : HttpResponse → Text
  status_text r = api.label ++ codes " error " ++ py.show r.status_code

  abbrev network_text : Text → Text
  network_text message = api.label ++ codes " network error: " ++ message

  abbrev log_network : ℕ → Text → ProviderRequestLog
  log_network attempt message = record {
    endpoint = api.endpoint;
    method = codes "GET";
    status_code = none;
    duration_ms = some (w.took attempt);
    error = some (network_text message);
    meta = some (api.network_meta attempt);
  }

  abbrev log_response : ℕ → HttpResponse → ProviderRequestLog
  log_response attempt r = record {
    endpoint = api.endpoint;
    method = codes "GET";
    status_code = some r.status_code;
    duration_ms = some (w.took attempt);
    error = if r.status_code == 200 then none else some (status_text r);
    meta = some (api.response_meta attempt r);
  }

  abbrev network_error : ℕ → Text → ProviderError
  network_error attempt message = record {
    message = network_text message;
    status_code = none;
    meta = some (api.raised_meta attempt);
    endpoint = some api.endpoint;
    method = codes "GET";
    duration_ms = some (w.elapsed attempt);
  }

  abbrev status_error : ℕ → HttpResponse → ProviderError
  status_error attempt r = record {
    message = status_text r;
    status_code = some r.status_code;
    meta = some (api.response_meta attempt r);
    endpoint = some api.endpoint;
    method = codes "GET";
    duration_ms = some (w.elapsed attempt);
  }

  abbrev backoff : ℕ → ℕ
  backoff attempt = compute_backoff s (w.random attempt) attempt

  abbrev pub delay : ℕ → Option ℕ → ℕ
  delay attempt none = backoff attempt
  delay attempt (some seconds) = seconds

  abbrev pub delay_of : ℕ → HttpResponse → ℕ
  delay_of attempt r = delay attempt (parse_retry_after_seconds py (r.header (codes "Retry-After")))

  abbrev pub settled_try : ℕ → HttpResponse → Tries
  settled_try attempt r =
      stop (log_response attempt r)
        (if r.status_code == 200 then arrived r attempt else failed (status_error attempt r))

  abbrev pub last_try : ℕ → Reply → Tries
  last_try attempt (unreachable message) =
      stop (log_network attempt message) (failed (network_error attempt message))
  last_try attempt (answered r) = settled_try attempt r

  abbrev pub next_try : ℕ → Reply → Tries → Tries
  next_try attempt (unreachable message) rest =
      again (log_network attempt message) (backoff attempt) rest
  next_try attempt (answered r) rest =
      if r.status_code == 200
      then settled_try attempt r
      else if is_retryable_status r.status_code
      then again (log_response attempt r) (delay_of attempt r) rest
      else settled_try attempt r

  -- The loop from `attempt` on, with `left` more attempts allowed after it.
  unfoldable pub tries : (left attempt : ℕ) → Tries
  unfolding compute_backoff
  tries zero attempt = last_try attempt (reply attempt)
  tries (suc left) attempt =
      let rest = tries left (suc attempt) in next_try attempt (reply attempt) rest

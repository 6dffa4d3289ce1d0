-- ===== src/RateLimit/Enforce.antt =====
-- app/core/rate_limit.py: who a request is counted against, and `GlobalRateLimitMiddleware` of
-- app/api/middleware.py. SHA-256 and the Unicode tables are parameters.
pub mod Isolation
pub mod Scopes
use wax_watch_api.Prelude.{
  ℕ, Option, none, some, Bool, true, false, not, ◌&&◌, ◌||◌, List, [], ◌∷◌, ◌++◌, drop, get_or,
  if◌then◌else◌,
}
use wax_watch_api.Prelude.Text.{
  Text, codes, text_eq, text_key, Unicode, starts_with, nonempty, before, strip, truthy_text,
}
use wax_watch_api.Prelude.Dict.{Dict, get}
use wax_watch_api.RateLimit.{
  RateLimitPolicy, Verdict, allowed, denied, index_error, SlidingWindowRateLimiter, check,
}

-- ScopeName
pub data ScopeName : Type 0 where
  global_authenticated global_anonymous auth_endpoints search_scope watch_rules discogs : ScopeName
  stream_events : ScopeName

abbrev pub scope_name : ScopeName → Text
scope_name global_authenticated = codes "global_authenticated"
scope_name global_anonymous = codes "global_anonymous"
scope_name auth_endpoints = codes "auth_endpoints"
scope_name search_scope = codes "search"
scope_name watch_rules = codes "watch_rules"
scope_name discogs = codes "discogs"
scope_name stream_events = codes "stream_events"

-- What the limiter reads of a Starlette request; header names are in lower case.
pub record Request : Type 0 where
  pub path : Text
  pub headers : Dict Text Text
  pub client_host : Option Text
  pub state_user_id : Option Text

-- The limits of `settings`, and the digest `sha256(...).hexdigest()[:24]`.
pub record Environment : Type 0 where
  pub rate_limit_enabled : Bool
  pub rpm : ScopeName → ℕ
  pub burst : ScopeName → ℕ
  pub digest : Text → Text
  pub unicode : Unicode

-- `raise RateLimitExceededError(...)` and the `IndexError` are answers.
pub data Enforcement : Type 0 where
  pass : Enforcement
  rate_limit_exceeded : ScopeName → (retry_after_seconds : ℕ) → Enforcement
  raises_index_error : Enforcement

-- What the middleware does with a request.
pub data Dispatch : Type 0 where
  call_next : Dispatch
  too_many_requests : ScopeName → (retry_after : ℕ) → Dispatch
  unhandled_index_error : Dispatch

module _ (env : Environment) where
  unfoldable pub client_identifier : Request → Text
  client_identifier r = elim (truthy_text (get (codes "x-forwarded-for") r.headers)) [
    | some forwarded_for ↦
        let client_ip = strip env.unicode (before b',' forwarded_for) in
        if nonempty client_ip
        then client_ip
        else get_or (truthy_text r.client_host) (codes "unknown")
    | none ↦ get_or (truthy_text r.client_host) (codes "unknown")
  ]

  abbrev fingerprint_of : Text → Option Text
  fingerprint_of [] = none
  fingerprint_of (c ∷ token) = some (env.digest (c ∷ token))

  unfoldable pub token_fingerprint : Request → Option Text
  token_fingerprint r =
      let auth_header = get_or (get (codes "authorization") r.headers) [] in
      if starts_with (codes "bearer ") (env.unicode.lower auth_header)
      then fingerprint_of (strip env.unicode (drop 7 auth_header))
      else none

  unfoldable pub scope_policies : ScopeName → RateLimitPolicy
  scope_policies scope = record {
    limit = env.rpm scope;
    burst = env.burst scope;
    window_seconds = 60;
  }

  abbrev anonymous_key : Bool → Text → Option Text → Text
  anonymous_key require client_key none = client_key
  anonymous_key true client_key (some identifier) = client_key ++ codes ":bearer"
  anonymous_key false client_key (some identifier) = codes "auth:" ++ identifier

  abbrev principal_for : Option Text → Text → Text
  principal_for (some user_id) anonymous = codes "auth:" ++ user_id
  principal_for none anonymous = anonymous

  unfoldable pub principal_key : Bool → Request → Text
  principal_key require r =
      principal_for (truthy_text r.state_user_id)
        (anonymous_key require (codes "anon:" ++ client_identifier r) (token_fingerprint r))

  -- f"{scope}:{principal_key}"
  abbrev pub limiter_key : ScopeName → Text → Text
  limiter_key scope principal = scope_name scope ++ b':' ∷ principal

  abbrev pub answer : ScopeName → Verdict → Enforcement
  answer scope allowed = pass
  answer scope (denied retry_after) = rate_limit_exceeded scope retry_after
  answer scope index_error = raises_index_error

  unfoldable pub enforce_rate_limit :
      ScopeName
      → Bool
      → Request
      → ℕ
      → SlidingWindowRateLimiter
      → SlidingWindowRateLimiter × Enforcement
  enforce_rate_limit scope require r now limiter =
      if env.rate_limit_enabled
      then (let (limiter', verdict) =
            check (limiter_key scope (principal_key require r)) (scope_policies scope) now
              limiter in
          (limiter', answer scope verdict))
      else (limiter, pass)

  abbrev global_scope : Option Text → ScopeName × Bool
  global_scope none = (global_anonymous, false)
  global_scope (some token) = (global_authenticated, true)

  unfoldable pub enforce_global_rate_limit :
      Request → ℕ → SlidingWindowRateLimiter → SlidingWindowRateLimiter × Enforcement
  unfolding enforce_rate_limit
  enforce_global_rate_limit r now limiter =
      let (scope, require) = global_scope (token_fingerprint r) in
      if env.rate_limit_enabled
      then enforce_rate_limit scope require r now limiter
      else (limiter, pass)

  unfoldable pub is_rate_limit_exempt_path : Text → Bool
  is_rate_limit_exempt_path path =
      text_eq path (codes "/healthz")
      || text_eq path (codes "/readyz")
      || text_eq path (codes "/metrics")

  abbrev respond : Enforcement → Dispatch
  respond pass = call_next
  respond (rate_limit_exceeded scope retry_after) = too_many_requests scope retry_after
  respond raises_index_error = unhandled_index_error

  unfoldable pub dispatch :
      Request → ℕ → SlidingWindowRateLimiter → SlidingWindowRateLimiter × Dispatch
  unfolding enforce_global_rate_limit is_rate_limit_exempt_path
  dispatch r now limiter =
      if starts_with (codes "/api") r.path && not (is_rate_limit_exempt_path r.path)
      then (let (limiter', outcome) = enforce_global_rate_limit r now limiter in
          (limiter', respond outcome))
      else (limiter, call_next)

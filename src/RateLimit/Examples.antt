-- ===== src/RateLimit/Examples.antt =====
-- The limiter on concrete requests.
use wax_watch_api.Prelude.{
  ℕ, ◌≤◌, ◌<◌, ◌≡◌, ◌↔◌, ◌≢◌, false, refl, none, some, true, List, [], ◌∷◌, length, arith,
}
use wax_watch_api.Prelude.Text.{Text, codes, ascii, text_eq, strip, lstrip, starts_with}
use wax_watch_api.Prelude.Dict.{get, put}
use wax_watch_api.RateLimit.{
  check, RateLimitPolicy, capacity, window, allowed, denied, prune, retry_after, check_events,
  events_at, reset_rate_limiter_state,
}
use wax_watch_api.RateLimit.Window.{recent}
use wax_watch_api.RateLimit.Guarantee.{
  IsAscending, serve, admitted_bounded, admitted_exactly, retry_served,
}
use wax_watch_api.RateLimit.Enforce.{
  search_scope, watch_rules, Request, Environment, token_fingerprint, client_identifier, ScopeName,
  global_authenticated, global_anonymous, auth_endpoints, discogs, stream_events, limiter_key,
  scope_policies, principal_key, enforce_rate_limit, enforce_global_rate_limit,
}
use wax_watch_api.RateLimit.Enforce.Isolation.{token_rotation}
use wax_watch_api.RateLimit.Enforce.Scopes.{Asked, enforce_all, times_under}

abbrev policy : RateLimitPolicy
policy = record { limit = 2; burst = 0; window_seconds = 1 }

abbrev times : List ℕ
times = 0 ∷ 300000 ∷ 500000 ∷ []

times_ascend : IsAscending 0 times 600000
times_ascend = (ground arith, (ground arith, (ground arith, ground arith)))

third_refused : (serve policy [] [] times).1 ≡ 0 ∷ 300000 ∷ []
unfolding serve check_events prune retry_after capacity
third_refused = refl

admitted_bounded_example :
    length (recent (window policy) 600000 (serve policy [] [] times).1) ≤ capacity policy
admitted_bounded_example = admitted_bounded policy times 600000 times_ascend

admitted_exactly_example :
    ((check_events policy 600000 (serve policy [] [] times).0).1 ≡ allowed)
    ↔ (length (recent (window policy) 600000 (serve policy [] [] times).1) < capacity policy)
admitted_exactly_example = admitted_exactly policy times 600000 times_ascend

refused_now : (check_events policy 600000 (serve policy [] [] times).0).1 ≡ denied 1
unfolding serve check_events prune retry_after capacity
refused_now = refl

retry_served_example :
    (check_events policy 2600000 (check_events policy 600000 (serve policy [] [] times).0).0).1
    ≡ allowed
retry_served_example =
    retry_served policy times 600000 2600000 1 times_ascend refused_now (ground arith)

abbrev settings : Environment
settings = record {
  rate_limit_enabled = true;
  rpm = λ scope. 2;
  burst = λ scope. 0;
  digest = λ token. token;
  unicode = ascii;
}

abbrev request : Text → Request
request token = record {
  path = codes "/api/search";
  headers = (codes "authorization", token) ∷ [];
  client_host = some (codes "10.0.0.1");
  state_user_id = none;
}

search_ne_rules : search_scope ≢ watch_rules
search_ne_rules e = cc

token_x : token_fingerprint settings (request (codes "Bearer x")) ≡ some (codes "x")
unfolding token_fingerprint starts_with get strip lstrip text_eq
token_x = refl

token_y : token_fingerprint settings (request (codes "Bearer y")) ≡ some (codes "y")
unfolding token_fingerprint starts_with get strip lstrip text_eq
token_y = refl

same_client :
    client_identifier settings (request (codes "Bearer x"))
    ≡ client_identifier settings (request (codes "Bearer y"))
unfolding client_identifier get text_eq
same_client = refl

token_rotation_example :
    enforce_global_rate_limit settings (request (codes "Bearer x")) 5 reset_rate_limiter_state
    ≡ enforce_global_rate_limit settings (request (codes "Bearer y")) 5 reset_rate_limiter_state
token_rotation_example =
    token_rotation settings (request (codes "Bearer x")) (request (codes "Bearer y")) 5
      reset_rate_limiter_state refl refl same_client token_x token_y

-- Searches may be made twice a minute, and rules read once.
abbrev two_scopes : Environment
two_scopes = record settings {
  rpm = λ scope. elim scope [
    | search_scope ↦ 2
    | watch_rules ↦ 1
    | global_authenticated ↦ 9
    | global_anonymous ↦ 9
    | auth_endpoints ↦ 9
    | discogs ↦ 9
    | stream_events ↦ 9
  ];
}

abbrev ask : ScopeName → ℕ → Asked
ask scope at = record {
  scope = scope;
  require = false;
  request = request (codes "Bearer x");
  at = at;
}

abbrev asked : List Asked
asked =
    ask search_scope 10
    ∷ ask watch_rules 20
    ∷ ask search_scope 30
    ∷ ask watch_rules 40
    ∷ ask search_scope 50
    ∷ []

two_searches :
    times_under two_scopes
      (limiter_key two_scopes search_scope (codes "auth:x"))
      (enforce_all two_scopes asked reset_rate_limiter_state []).1
    ≡ 10 ∷ 30 ∷ []
unfolding times_under enforce_all enforce_rate_limit scope_policies principal_key client_identifier
    token_fingerprint starts_with get strip lstrip text_eq check check_events prune retry_after
    capacity events_at put
two_searches = refl

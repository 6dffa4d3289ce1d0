-- ===== src/RateLimit/Enforce/Isolation.antt =====
-- app/core/rate_limit.py: which budgets a request can touch.
use wax_watch_api.Prelude.{
  ℕ, ◌≡◌, refl, ap, ◌∙◌, sym, ◌≢◌, inl, inr, none, some, Bool, true, ◌∷◌, ◌++◌, Bool-cases,
  if◌then◌else◌,
}
use wax_watch_api.Prelude.Text.{Text, codes, text_eq, text_key, before, truthy_text}
use wax_watch_api.RateLimit.{SlidingWindowRateLimiter, events_at}
use wax_watch_api.RateLimit.Keys.{check_frame}
use wax_watch_api.RateLimit.Enforce.{
  ScopeName, scope_name, global_authenticated, global_anonymous, auth_endpoints, search_scope,
  watch_rules, discogs, stream_events, Request, Environment, limiter_key, principal_key,
  client_identifier, token_fingerprint, enforce_rate_limit, scope_policies,
  enforce_global_rate_limit,
}

before-limiter_key :
    (env : Environment) (s : ScopeName) (p : Text)
    → before b':' (limiter_key env s p) ≡ scope_name s
unfolding before
before-limiter_key env global_authenticated p = refl
before-limiter_key env global_anonymous p = refl
before-limiter_key env auth_endpoints p = refl
before-limiter_key env search_scope p = refl
before-limiter_key env watch_rules p = refl
before-limiter_key env discogs p = refl
before-limiter_key env stream_events p = refl

-- A scope is found again from its name: its third character, or the eighth of the global ones.
abbrev scope_of : Text → ScopeName
scope_of (a ∷ b ∷ c ∷ d ∷ e ∷ f ∷ g ∷ h ∷ i ∷ s) =
    if text_eq (codes "global_authenticated") (a ∷ b ∷ c ∷ d ∷ e ∷ f ∷ g ∷ h ∷ i ∷ s)
    then global_authenticated
    else if text_eq (codes "global_anonymous") (a ∷ b ∷ c ∷ d ∷ e ∷ f ∷ g ∷ h ∷ i ∷ s)
    then global_anonymous
    else if text_eq (codes "auth_endpoints") (a ∷ b ∷ c ∷ d ∷ e ∷ f ∷ g ∷ h ∷ i ∷ s)
    then auth_endpoints
    else if text_eq (codes "watch_rules") (a ∷ b ∷ c ∷ d ∷ e ∷ f ∷ g ∷ h ∷ i ∷ s)
    then watch_rules
    else stream_events
scope_of (a ∷ b ∷ c ∷ d ∷ e ∷ f ∷ g ∷ s) = discogs
scope_of s = search_scope

scope_of-scope_name : (s : ScopeName) → scope_of (scope_name s) ≡ s
unfolding text_eq
scope_of-scope_name global_authenticated = refl
scope_of-scope_name global_anonymous = refl
scope_of-scope_name auth_endpoints = refl
scope_of-scope_name search_scope = refl
scope_of-scope_name watch_rules = refl
scope_of-scope_name discogs = refl
scope_of-scope_name stream_events = refl

pub limiter_key_scope :
    (env : Environment) (s t : ScopeName) (p q : Text)
    → limiter_key env s p ≡ limiter_key env t q
    → s ≡ t
limiter_key_scope env s t p q e =
    sym (scope_of-scope_name s)
    ∙ ap scope_of
        (sym (before-limiter_key env s p) ∙ ap (before b':') e ∙ before-limiter_key env t q)
    ∙ scope_of-scope_name t

module _ (env : Environment) where
  -- Counting a request in one scope leaves the deque of every key of another scope as it was.
  enforce_rate_limit_frame :
      (s t : ScopeName) (require : Bool) (r : Request) (now : ℕ) (l : SlidingWindowRateLimiter)
      (q : Text)
      → s ≢ t
      → events_at (limiter_key env t q) (enforce_rate_limit env s require r now l).0
        ≡ events_at (limiter_key env t q) l
  unfolding enforce_rate_limit
  enforce_rate_limit_frame s t require r now l q ne = elim (Bool-cases env.rate_limit_enabled) [
    | inl on ↦ simp on (
        check_frame (limiter_key env s (principal_key env require r)) (limiter_key env t q)
          (scope_policies env s) now l
          (λ e. ne (limiter_key_scope env s t (principal_key env require r) q e)))
    | inr off ↦ simp off
  ]

  principal_key_bearer :
      (r : Request) {a : Text}
      → truthy_text r.state_user_id ≡ none
      → token_fingerprint env r ≡ some a
      → principal_key env true r ≡ (codes "anon:" ++ client_identifier env r) ++ codes ":bearer"
  unfolding principal_key
  principal_key_bearer r anonymous token = rw (anonymous, token)

  -- Before authentication, two requests from one client that carry any two bearer tokens are the
  -- same to the global limiter: changing the token opens no new budget.
  pub token_rotation :
      (r r' : Request) {a b : Text} (now : ℕ) (l : SlidingWindowRateLimiter)
      → truthy_text r.state_user_id ≡ none
      → truthy_text r'.state_user_id ≡ none
      → client_identifier env r ≡ client_identifier env r'
      → token_fingerprint env r ≡ some a
      → token_fingerprint env r' ≡ some b
      → enforce_global_rate_limit env r now l ≡ enforce_global_rate_limit env r' now l
  unfolding enforce_global_rate_limit enforce_rate_limit
  token_rotation r r' now l anon anon' same token token' =
      rw (
        token,
        token',
        principal_key_bearer r anon token,
        principal_key_bearer r' anon' token',
        same,
      )

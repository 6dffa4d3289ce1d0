-- ===== src/RateLimit/Enforce/Scopes.antt =====
-- app/core/rate_limit.py: the one limiter under requests of every scope and every client.
use wax_watch_api.Prelude.{ℕ, Bool, List, [], ◌∷◌, ◌++◌, if◌then◌else◌}
use wax_watch_api.Prelude.Text.{Text, text_eq, text_key}
use wax_watch_api.RateLimit.{SlidingWindowRateLimiter, events_at}
use wax_watch_api.RateLimit.Guarantee.{Shows}
use wax_watch_api.RateLimit.Enforce.{
  ScopeName, Request, Environment, Enforcement, pass, rate_limit_exceeded, raises_index_error,
  principal_key, limiter_key, scope_policies, enforce_rate_limit,
}

-- A call of `enforce_rate_limit`, at the time that the limiter reads.
pub record Asked : Type 0 where
  pub scope : ScopeName
  pub require : Bool
  pub request : Request
  pub at : ℕ

module _ (env : Environment) where
  -- The calls that passed, with one more if it did.
  abbrev let_pass : Enforcement → Asked → List Asked → List Asked
  let_pass pass q passed = passed ++ q ∷ []
  let_pass (rate_limit_exceeded s n) q passed = passed
  let_pass raises_index_error q passed = passed

  -- The limiter and the calls that passed, after all calls, in the order of the lock.
  unfoldable pub enforce_all :
      List Asked → SlidingWindowRateLimiter → List Asked → SlidingWindowRateLimiter × List Asked
  unfolding enforce_rate_limit
  enforce_all [] limiter passed = (limiter, passed)
  enforce_all (q ∷ qs) limiter passed =
      let (limiter', outcome) = enforce_rate_limit env q.scope q.require q.request q.at limiter in
      enforce_all qs limiter' (let_pass outcome q passed)

  abbrev pub counted_under : Asked → Text
  counted_under q = limiter_key env q.scope (principal_key env q.require q.request)

  -- The times of the calls that are counted under a key.
  unfoldable pub times_under : Text → List Asked → List ℕ
  unfolding text_eq
  times_under key [] = []
  times_under key (q ∷ qs) =
      if text_eq (counted_under q) key then q.at ∷ times_under key qs else times_under key qs

  module _ (scope : ScopeName) (principal : Text) where
    abbrev own_key : Text
    own_key = limiter_key env scope principal

    abbrev Kept : ℕ → SlidingWindowRateLimiter → List Asked → Type 0
    Kept now limiter passed =
        Shows (scope_policies env scope) now (events_at own_key limiter)
          (times_under own_key passed)

-- ===== src/RateLimit/Keys.antt =====
-- app/core/rate_limit.py: what a check does to the deque of its key, and to the others.
use wax_watch_api.Prelude.{ℕ, ◌≡◌, refl, ◌≢◌, inl, inr, Bool-cases}
use wax_watch_api.Prelude.Text.{Text, text_eq, text_eq_iff, text_key}
use wax_watch_api.Prelude.Dict.{get-put}
use wax_watch_api.RateLimit.{
  RateLimitPolicy, SlidingWindowRateLimiter, check, check_events, events_at,
}

pub check_frame :
    (key other : Text) (p : RateLimitPolicy) (now : ℕ) (r : SlidingWindowRateLimiter)
    → key ≢ other
    → events_at other (check key p now r).0 ≡ events_at other r
unfolding check events_at
check_frame key other p now r ne = elim (Bool-cases (text_eq key other)) [
  | inl same ↦ absurd (ne ((text_eq_iff key other).0 same))
  | inr apart ↦ rw get-put (rw apart)
]

pub check_self :
    (key : Text) (p : RateLimitPolicy) (now : ℕ) (r : SlidingWindowRateLimiter)
    → events_at key (check key p now r).0 ≡ (check_events p now (events_at key r)).0
unfolding check events_at
check_self key p now r = rw get-put (rw ((text_eq_iff key key).1 refl))

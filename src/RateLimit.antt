-- ===== src/RateLimit.antt =====
-- app/core/rate_limit.py: the sliding window of one key, and the limiter's dictionary of keys.
-- The monotonic clock counts ticks; a reading is an argument of `check`. The source takes the
-- reading before it waits for the lock, so two threads may enter the lock in another order than
-- that of their readings; the model takes both in one step, and where a theorem asks for ascending
-- times, it is of the requests that entered in the order of their readings.
pub mod Window
pub mod Guarantee
pub mod Keys
pub mod Enforce
mod Examples
use wax_watch_api.Prelude.{
  ℕ, ◌+◌, ◌-◌, ◌*◌, ◌/◌, max, Option, none, some, List, [], ◌∷◌, ◌++◌, length, leb, get_or,
  if◌then◌else◌,
}
use wax_watch_api.Prelude.Text.{Text, text_key}
use wax_watch_api.Prelude.Dict.{Dict, get, put}

-- Ticks in one second.
abbrev pub second : ℕ
second = 1000000

-- @dataclass RateLimitPolicy
pub record RateLimitPolicy : Type 0 where
  pub limit : ℕ
  pub burst : ℕ
  pub window_seconds : ℕ

unfoldable pub capacity : RateLimitPolicy → ℕ
capacity p = p.limit + p.burst

abbrev pub window : RateLimitPolicy → ℕ
window p = p.window_seconds * second

-- What `check` returns. `events[0]` raises on an empty deque, which a capacity of 0 reaches.
pub data Verdict : Type 0 where
  allowed : Verdict
  denied : (retry_after : ℕ) → Verdict
  index_error : Verdict

-- `while events and events[0] <= window_start: events.popleft()`
unfoldable pub prune : (w now : ℕ) → List ℕ → List ℕ
prune w now [] = []
prune w now (e ∷ es) = if leb (e + w) now then prune w now es else e ∷ es

-- `max(int(events[0] + policy.window_seconds - now), 1)`
unfoldable pub retry_after : (w now : ℕ) → List ℕ → Verdict
retry_after w now [] = index_error
retry_after w now (e ∷ es) = denied (max ((e + w - now) / second) 1)

-- The deque that `check` leaves, and its answer.
unfoldable pub check_events : RateLimitPolicy → ℕ → List ℕ → List ℕ × Verdict
unfolding prune retry_after capacity
check_events p now es =
    let recent = prune (window p) now es in
    if leb (capacity p) (length recent)
    then (recent, retry_after (window p) now recent)
    else (recent ++ now ∷ [], allowed)

-- class SlidingWindowRateLimiter
pub record SlidingWindowRateLimiter : Type 0 where
  pub events : Dict Text (List ℕ)

-- `self._events[key]` of the defaultdict
unfoldable pub events_at : Text → SlidingWindowRateLimiter → List ℕ
unfolding get
events_at key r = get_or (get key r.events) []

unfoldable pub check :
    Text → RateLimitPolicy → ℕ → SlidingWindowRateLimiter → SlidingWindowRateLimiter × Verdict
unfolding check_events events_at
check key p now r =
    let (es, answer) = check_events p now (events_at key r) in
    (record { events = put key es r.events }, answer)

-- reset_rate_limiter_state
abbrev pub reset_rate_limiter_state : SlidingWindowRateLimiter
reset_rate_limiter_state = record { events = [] }

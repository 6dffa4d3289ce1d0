-- ===== src/Providers/Delays.antt =====
-- app/providers/discogs.py and app/providers/ebay.py: the delays between the attempts of a search.
use wax_watch_api.Prelude.{
  ℕ, zero, suc, ◌+◌, ◌-◌, ◌*◌, ◌^◌, ◌≤◌, ◌<◌, max, min, ◌≡◌, refl, ◌⊎◌, inl, inr, ◌==◌, Option,
  none, some, Bool, true, false, All, arith, if◌then◌else◌,
}
use native.Mathlib.Nat.{mul-le-mul, div-mul-le_self}
use wax_watch_api.Prelude.Text.{codes}
use wax_watch_api.Providers.{
  HttpResponse, Reply, unreachable, answered, Python, RetrySettings, Wire,
}
use wax_watch_api.Providers.Attempts.{
  Api, Tries, again, settled_try, last_try, next_try, tries, is_retryable_status,
  parse_retry_after_seconds, compute_backoff, delay, delay_of,
}

-- The cap of the settings.
abbrev pub max_delay : RetrySettings → ℕ
max_delay s = max s.retry_max_delay_ms s.retry_base_delay_ms * 10

least_bounded :
    (a cap random d : ℕ)
    → random < 10000
    → d * 10000 ≤ min a cap * (5000 + random)
    → 2 * d ≤ 3 * cap
least_bounded a cap random d drawn h =
    let low : min a cap ≤ cap = omega arith in
    let high : 5000 + random ≤ 15000 = omega arith in
    let both = mul-le-mul low high in omega (arith, both)

backoff_bounded :
    (s : RetrySettings) (random attempt : ℕ)
    → random < 10000
    → 2 * compute_backoff s random attempt ≤ 3 * max_delay s
unfolding compute_backoff
backoff_bounded s random attempt drawn =
    least_bounded (max s.retry_base_delay_ms 1 * 10 * 2 ^ (attempt - 1)) (max_delay s) random _
      drawn (div-mul-le_self _ 10000)

module _ (py : Python) (s : RetrySettings) (reply : ℕ → Reply) where
  -- What an answer says in its Retry-After header.
  abbrev pub IsAsked : ℕ → Type 0
  IsAsked d =
      (attempt : ℕ) × (r : HttpResponse) × (reply attempt ≡ answered r)
      × (parse_retry_after_seconds py (r.header (codes "Retry-After")) ≡ some d)

  -- Such a delay, or one of at most one and a half times the cap.
  abbrev pub IsDelay : ℕ → Type 0
  IsDelay d = IsAsked d ⊎ (2 * d ≤ 3 * max_delay s)

  module _ (api : Api) (w : Wire) (drawn : (attempt : ℕ) → w.random attempt < 10000) where
    delay_of-IsDelay :
        (attempt : ℕ) (r : HttpResponse)
        → reply attempt ≡ answered r
        → IsDelay (delay_of py s api w reply attempt r)
    delay_of-IsDelay attempt r e =
        chosen (parse_retry_after_seconds py (r.header (codes "Retry-After"))) refl
      where
        chosen :
            (o : Option ℕ)
            → parse_retry_after_seconds py (r.header (codes "Retry-After")) ≡ o
            → IsDelay (delay py s api w reply attempt o)
        chosen none k = inr (backoff_bounded s (w.random attempt) attempt (drawn attempt))
        chosen (some d) k = inl (attempt, r, e, k)

    picked_delays :
        (fine retry : Bool) (t u : Tries)
        → All IsDelay t.slept
        → All IsDelay u.slept
        → All IsDelay (if fine then t else if retry then u else t).slept
    picked_delays true retry t u h k = h
    picked_delays false true t u h k = k
    picked_delays false false t u h k = h

    last_delays :
        (attempt : ℕ) (r : Reply) → All IsDelay (last_try py s api w reply attempt r).slept
    last_delays attempt (unreachable message) = tt
    last_delays attempt (answered r) = tt

    next_delays :
        (attempt : ℕ) (r : Reply) (rest : Tries)
        → reply attempt ≡ r
        → All IsDelay rest.slept
        → All IsDelay (next_try py s api w reply attempt r rest).slept
    next_delays attempt (unreachable message) rest e h =
        (inr (backoff_bounded s (w.random attempt) attempt (drawn attempt)), h)
    next_delays attempt (answered r) rest e h =
        picked_delays (r.status_code == 200) (is_retryable_status r.status_code)
          (settled_try py s api w reply attempt r) (again _ _ rest) tt
          (delay_of-IsDelay attempt r e, h)

    pub All-delays : (left attempt : ℕ) → All IsDelay (tries py s api w reply left attempt).slept
    unfolding tries
    All-delays zero attempt = last_delays attempt (reply attempt)
    All-delays (suc left) attempt =
        next_delays attempt (reply attempt) _ refl (All-delays left (suc attempt))

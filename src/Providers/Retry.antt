-- ===== src/Providers/Retry.antt =====
-- app/providers/discogs.py and app/providers/ebay.py: the loop over the attempts of a search.
use wax_watch_api.Prelude.{
  ℕ, zero, suc, ◌-◌, ◌≤◌, ◌<◌, All, max, ◌≡◌, refl, ap, ◌⊎◌, inl, inr, ◌==◌, Option, none, some,
  Bool, true, false, List, ◌∷◌, ◌++◌, length, length-append, arith, Bool-cases, ==_iff,
  if◌then◌else◌,
}
use wax_watch_api.Prelude.Text.{Text}
use wax_watch_api.Prelude.Dict.{Dict}
use wax_watch_api.Json.{Json}
use wax_watch_api.Runner.{ProviderRequestLog}
use wax_watch_api.Providers.{
  HttpResponse, Reply, unreachable, answered, Python, RetrySettings, Wire,
}
use wax_watch_api.Providers.Answers.{Computed, value, thrown}
use wax_watch_api.Providers.Attempts.{
  Api, Ended, arrived, failed, Tries, again, settled_try, last_try, next_try, tries,
  is_retryable_status,
}
use wax_watch_api.Providers.Delays.{IsDelay, All-delays}
use wax_watch_api.Providers.Discogs.{
  discogs_api, discogs_tries, discogs_end, discogs_run, discogs_search,
}
use wax_watch_api.Providers.Ebay.{ebay_tries, ebay_end, ebay_authorized, ebay_run, ebay_search}
use wax_watch_api.Providers.EbayToken.{
  EbaySettings, Auth, authorized, denied, broken, auth_token, ebay_api,
}

-- The status of an attempt that is made again: there was no answer, or a retryable one.
abbrev pub MayRetry : Option ℕ → Type 0
MayRetry none = Unit
MayRetry (some status) = is_retryable_status status ≡ true

-- Each delay follows an attempt that may be made again.
abbrev pub AllRetried : List ProviderRequestLog → List ℕ → Type 0
AllRetried (log ∷ logs) (delay ∷ delays) = MayRetry log.status_code × AllRetried logs delays
AllRetried _ _ = Unit

abbrev pub IsFinal : Option ℕ → Type 0
IsFinal none = ⊥
IsFinal (some status) = (is_retryable_status status ≡ false) × ((status == 200) ≡ false)

-- After `made` of at most `most` attempts.
abbrev pub EndsRight : (made most : ℕ) → Ended → Type 0
EndsRight made most (arrived r attempt) = r.status_code ≡ 200
EndsRight made most (failed e) = (made ≡ most) ⊎ IsFinal e.status_code

pub record IsRun (most : ℕ) (t : Tries) : Type 0 where
  pub paired : length t.logged ≡ suc (length t.slept)
  pub bounded : length t.logged ≤ most
  pub retried : AllRetried t.logged t.slept
  pub ends : EndsRight (length t.logged) most t.ended

abbrev SameEnd : (made most made' most' : ℕ) → Ended → Type 0
SameEnd made most made' most' end = EndsRight made most end → EndsRight made' most' end

ends_later : (made most : ℕ) (end : Ended) → SameEnd made most (suc made) (suc most) end
ends_later made most (arrived r attempt) h = h
ends_later made most (failed e) (inl used) = inl (ap suc used)
ends_later made most (failed e) (inr final) = inr final

again-IsRun :
    (most delay : ℕ) (log : ProviderRequestLog) (rest : Tries)
    → MayRetry log.status_code
    → IsRun most rest
    → IsRun (suc most) (again log delay rest)
again-IsRun most delay log rest retry run = record {
  paired = ap suc run.paired;
  bounded = omega (arith, run.bounded);
  retried = (retry, run.retried);
  ends = ends_later (length rest.logged) most rest.ended run.ends;
}

picked :
    (most : ℕ) (fine retry : Bool) (t u : Tries)
    → (fine ≡ true → IsRun most t)
    → (retry ≡ true → IsRun most u)
    → (retry ≡ false → IsRun most t)
    → IsRun most (if fine then t else if retry then u else t)
picked most true retry t u h k l = h refl
picked most false true t u h k l = k refl
picked most false false t u h k l = l refl

module _ (py : Python) (s : RetrySettings) (api : Api) (w : Wire) (reply : ℕ → Reply) where
  settled_try-IsRun :
      (most attempt : ℕ) (r : HttpResponse)
      → ((r.status_code == 200) ≡ false
          → (1 ≡ suc most) ⊎ (is_retryable_status r.status_code ≡ false))
      → IsRun (suc most) (settled_try py s api w reply attempt r)
  settled_try-IsRun most attempt r h = record {
    paired = refl;
    bounded = omega arith;
    retried = tt;
    ends = elim (Bool-cases (r.status_code == 200)) [
      | inl fine ↦ rw fine ((==_iff r.status_code 200).0 fine)
      | inr wrong ↦
          rw wrong (elim (h wrong) [ inl used ↦ inl used | inr final ↦ inr (final, wrong) ])
    ];
  }

  last-IsRun : (attempt : ℕ) (r : Reply) → IsRun 1 (last_try py s api w reply attempt r)
  last-IsRun attempt (unreachable message) = record {
    paired = refl;
    bounded = omega arith;
    retried = tt;
    ends = inl refl;
  }
  last-IsRun attempt (answered r) = settled_try-IsRun 0 attempt r (λ _. inl refl)

  next-IsRun :
      (most attempt : ℕ) (r : Reply) (rest : Tries)
      → IsRun (suc most) rest
      → IsRun (suc (suc most)) (next_try py s api w reply attempt r rest)
  next-IsRun most attempt (unreachable message) rest run = again-IsRun (suc most) _ _ rest tt run
  next-IsRun most attempt (answered r) rest run =
      picked (suc (suc most)) (r.status_code == 200) (is_retryable_status r.status_code)
        (settled_try py s api w reply attempt r) (again _ _ rest)
        (λ fine. settled_try-IsRun (suc most) attempt r (λ h. ground (arith, fine, h)))
        (λ retry. again-IsRun (suc most) _ _ rest retry run)
        (λ final. settled_try-IsRun (suc most) attempt r (λ _. inr final))

  tries-IsRun' : (left attempt : ℕ) → IsRun (suc left) (tries py s api w reply left attempt)
  unfolding tries
  tries-IsRun' zero attempt = last-IsRun attempt (reply attempt)
  tries-IsRun' (suc left) attempt =
      next-IsRun left attempt (reply attempt) _ (tries-IsRun' left (suc attempt))

-- However the network, the clock and the random numbers are, the loop over the attempts ends, after
-- at least one attempt and at most `left` more. It sleeps before each further attempt, which is
-- made only after a network error or a status that may be retried: as long as an answer's
-- Retry-After says, or at most one and a half times the cap of the settings. It ends with an answer
-- of status 200, or with an error: then all attempts were made, or the last answer was one that
-- may not be retried.
pub tries-IsRun :
    (py : Python) (s : RetrySettings) (api : Api) (w : Wire) (reply : ℕ → Reply) (left attempt : ℕ)
    → ((n : ℕ) → w.random n < 10000)
    → IsRun (suc left) (tries py s api w reply left attempt)
      × All (IsDelay py s reply) (tries py s api w reply left attempt).slept
tries-IsRun py s api w reply left attempt drawn =
    (tries-IsRun' py s api w reply left attempt, All-delays py s reply api w drawn left attempt)

module _ (py : Python) (w : Wire) (limit : ℕ) where
  discogs_bounded :
      (s : RetrySettings) (token : Text) (q : Computed Text)
      → length (discogs_run py s token w limit q).logged ≤ max s.max_attempts 1
  discogs_bounded s token (thrown message class_name) = omega arith
  discogs_bounded s token (value q) =
      let t = discogs_tries py s token w q limit in
      ended t t.ended
        (omega (arith, (tries-IsRun' py s (discogs_api py (max s.max_attempts 1)) w _ _ 1).bounded))
    where
      ended :
          (t : Tries) (end : Ended)
          → length t.logged ≤ max s.max_attempts 1
          → length (discogs_end py w (discogs_api py (max s.max_attempts 1)) t end).logged
            ≤ max s.max_attempts 1
      ended t (arrived r attempt) h = h
      ended t (failed e) h = h

  auth_bounded : (e : EbaySettings) → length (auth_token py w e).0 ≤ 1
  unfolding auth_token
  auth_bounded e = ground arith

  ebay_ended :
      (e : EbaySettings) (logs : List ProviderRequestLog) (end : Ended)
      → length (ebay_end py e w logs end).logged ≡ length logs
  ebay_ended e logs (arrived r attempt) = refl
  ebay_ended e logs (failed x) = refl

  authorized_bounded :
      (e : EbaySettings) (q : Text) (auth : Auth)
      → length auth.0 ≤ 1
      → length (ebay_authorized py e w q limit auth).logged ≤ suc (max e.retrying.max_attempts 1)
  authorized_bounded e q (logs, authorized token) h =
      let most = max e.retrying.max_attempts 1 in
      let t = ebay_tries py e w token q limit in
      omega (
        arith,
        ebay_ended e (logs ++ t.logged) t.ended,
        length-append {0} logs t.logged,
        (tries-IsRun' py e.retrying (ebay_api py most) w _ (most - 1) 1).bounded,
      )
  authorized_bounded e q (logs, denied x) h = omega arith
  authorized_bounded e q (logs, broken message class_name) h = omega arith

  ebay_bounded :
      (e : EbaySettings) (q : Computed Text)
      → length (ebay_run py e w limit q).logged ≤ suc (max e.retrying.max_attempts 1)
  ebay_bounded e (value q) = authorized_bounded e q (auth_token py w e) (auth_bounded e)
  ebay_bounded e (thrown message class_name) = omega arith

-- A search of either client ends, and logs no more requests than the settings allow attempts, one
-- if they allow none; that of eBay one more, for its token.
pub searches_bounded :
    (py : Python) (s : RetrySettings) (token : Text) (e : EbaySettings) (w : Wire)
    (query : Dict Text Json) (limit : ℕ)
    → (length (discogs_search py s token w query limit).logged ≤ max s.max_attempts 1)
      × (length (ebay_search py e w query limit).logged ≤ suc (max e.retrying.max_attempts 1))
unfolding discogs_search ebay_search
searches_bounded py s token e w query limit =
    (discogs_bounded py w limit s token _, ebay_bounded py w limit e _)

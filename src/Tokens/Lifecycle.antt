-- ===== src/Tokens/Lifecycle.antt =====
-- app/services/token_lifecycle.py. Times are microseconds.
use wax_watch_api.Prelude.{
  ℕ, ◌+◌, ◌*◌, ◌≤◌, ◌≡◌, Option, none, some, Bool, true, false, leb, is_some, arith, if◌then◌else◌,
}
use wax_watch_api.Prelude.Text.{Text, truthy_text}

-- EXPIRY_SKEW
abbrev pub expiry_skew : ℕ
expiry_skew = 30 * 1000000

unfoldable pub is_token_expired : Option ℕ → ℕ → Bool
is_token_expired none now = false
is_token_expired (some expires_at) now = leb expires_at now

abbrev expires_within : Option ℕ → ℕ → Bool
expires_within none at = true
expires_within (some expires_at) at = leb expires_at at

unfoldable pub should_refresh_access_token :
    Option Text → Option ℕ → (now refresh_window : ℕ) → Bool
should_refresh_access_token refresh_token expires_at now refresh_window =
    if is_some (truthy_text refresh_token)
    then expires_within expires_at (now + refresh_window)
    else false

-- An access token that can be refreshed and is not to be has an expiry, and is not expired at any
-- time up to the end of the refresh window.
pub kept_token_valid :
    (refresh_token : Option Text) (expires_at : Option ℕ) (now refresh_window later : ℕ)
    → is_some (truthy_text refresh_token) ≡ true
    → should_refresh_access_token refresh_token expires_at now refresh_window ≡ false
    → later ≤ now + refresh_window
    → (is_some expires_at ≡ true) × (is_token_expired expires_at later ≡ false)
unfolding should_refresh_access_token is_token_expired
kept_token_valid refresh_token expires_at now refresh_window later has kept within =
    kept_until expires_at (rw has at kept)
  where
    kept_until :
        (e : Option ℕ)
        → expires_within e (now + refresh_window) ≡ false
        → (is_some e ≡ true) × (is_token_expired e later ≡ false)
    kept_until none h = ground arith
    kept_until (some at) h = ground arith

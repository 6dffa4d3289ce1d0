-- ===== src/Tokens/Crypto.antt =====
-- app/core/token_crypto.py: the envelope of a stored token. Fernet is a parameter: `seal` with the
-- randomness it draws, and `open_token`, which is nothing where Fernet raises InvalidToken.
pub mod Envelope
use wax_watch_api.Prelude.{
  ℕ, ◌==◌, Option, none, some, Bool, true, false, List, [], ◌∷◌, ◌++◌, if◌then◌else◌,
}
use wax_watch_api.Prelude.Text.{Text, codes, starts_with}
use wax_watch_api.Session.{Error, value_error, Outcome, ok, raised}

pub record TokenCrypto : Type 0 where
  pub key_id : Text
  pub seal : (nonce : ℕ) → Text → Text
  pub open_token : Text → Option Text

pub record DecryptResult : Type 0 where
  pub plaintext : Option Text
  pub requires_migration : Bool

-- `f"{ENC_PREFIX}:"`
abbrev pub prefix : Text
prefix = codes "enc:v1:"

unfoldable pub is_encrypted : Option Text → Bool
unfolding starts_with
is_encrypted none = false
is_encrypted (some value) = starts_with prefix value

-- What follows the first colon.
unfoldable pub after_colon : Text → Option Text
after_colon [] = none
after_colon (c ∷ s) = if c == b':' then some s else after_colon s

abbrev pub then_after : Option Text → Option Text
then_after none = none
then_after (some s) = after_colon s

-- The last of the four parts of `stored_value.split(":", 3)`.
unfoldable pub fourth_part : Text → Option Text
unfolding after_colon
fourth_part s = then_after (then_after (after_colon s))

module _ (c : TokenCrypto) where
  abbrev pub envelope : (nonce : ℕ) → Text → Text
  envelope nonce plaintext = prefix ++ c.key_id ++ b':' ∷ c.seal nonce plaintext

  unfoldable pub encrypt : (nonce : ℕ) → Option Text → Option Text
  unfolding is_encrypted
  encrypt nonce none = none
  encrypt nonce (some plaintext) =
      if is_encrypted (some plaintext) then some plaintext else some (envelope nonce plaintext)

  abbrev pub opened : Option Text → Outcome DecryptResult
  opened none = raised value_error
  opened (some plaintext) = ok (record { plaintext = some plaintext; requires_migration = false })

  abbrev pub open_part : Option Text → Outcome DecryptResult
  open_part none = raised value_error
  open_part (some ciphertext) = opened (c.open_token ciphertext)

  unfoldable pub decrypt : Option Text → Outcome DecryptResult
  unfolding is_encrypted fourth_part
  decrypt none = ok (record { plaintext = none; requires_migration = false })
  decrypt (some stored) =
      if is_encrypted (some stored)
      then open_part (fourth_part stored)
      else ok (record { plaintext = some stored; requires_migration = true })

-- ===== src/Tokens/Examples.antt =====
-- Tokens under a toy cipher that marks what it sealed.
use wax_watch_api.Prelude.{
  ℕ, ◌≡◌, refl, ◌==◌, Option, none, some, true, false, [], ◌∷◌, is_some, arith, if◌then◌else◌,
}
use wax_watch_api.Prelude.Text.{Text, codes, starts_with}
use wax_watch_api.Session.{value_error, ok, raised}
use wax_watch_api.Tokens.Crypto.{TokenCrypto, is_encrypted, encrypt, decrypt}
use wax_watch_api.Tokens.Crypto.Envelope.{IsFernet, decrypt-encrypt, colon_key_unreadable}
use wax_watch_api.Tokens.Lifecycle.{is_token_expired, should_refresh_access_token, kept_token_valid}

abbrev unseal : Text → Option Text
unseal [] = none
unseal (m ∷ s) = if m == b'g' then some s else none

abbrev toy : Text → TokenCrypto
toy key_id = record {
  key_id = key_id;
  seal = λ nonce plaintext. b'g' ∷ plaintext;
  open_token = unseal;
}

local-IsFernet : IsFernet (toy (codes "local"))
local-IsFernet = record { open_seal = λ nonce plaintext. refl }

plain_secret : is_encrypted (some (codes "secret")) ≡ false
unfolding is_encrypted starts_with
plain_secret = refl

decrypt-encrypt_example :
    decrypt (toy (codes "local")) (encrypt (toy (codes "local")) 0 (some (codes "secret")))
    ≡ ok (record { plaintext = some (codes "secret"); requires_migration = false })
decrypt-encrypt_example =
    decrypt-encrypt (toy (codes "local")) 0 (codes "secret") local-IsFernet
      (refl, (refl, (refl, (refl, (refl, tt))))) plain_secret

colon_key_unreadable_example :
    decrypt (toy (codes "arn:aws")) (encrypt (toy (codes "arn:aws")) 0 (some (codes "secret")))
    ≡ raised value_error
colon_key_unreadable_example =
    colon_key_unreadable (toy (codes "arn:aws")) 0 (codes "secret") (codes "arn") (codes "aws") refl
      (refl, (refl, (refl, tt))) refl plain_secret

abbrev expiry : Option ℕ
expiry = some 100000000

not_due : should_refresh_access_token (some (codes "r")) expiry 10000000 30000000 ≡ false
unfolding should_refresh_access_token
not_due = refl

kept_token_valid_example : (is_some expiry ≡ true) × (is_token_expired expiry 40000000 ≡ false)
kept_token_valid_example =
    kept_token_valid (some (codes "r")) expiry 10000000 30000000 40000000 refl not_due
      (ground arith)

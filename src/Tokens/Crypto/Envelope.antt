-- ===== src/Tokens/Crypto/Envelope.antt =====
-- app/core/token_crypto.py: the parts of an envelope, and the key id in it.
use wax_watch_api.Prelude.{
  ℕ, ◌==◌, ◌≡◌, refl, ap, ◌∙◌, inl, inr, Option, none, some, false, [], ◌∷◌, ◌++◌, append_assoc,
  All, Bool-cases,
}
use wax_watch_api.Prelude.Text.{Text, starts_with}
use wax_watch_api.Session.{value_error, ok, raised}
use wax_watch_api.Tokens.Crypto.{
  TokenCrypto, prefix, is_encrypted, after_colon, fourth_part, envelope, encrypt, opened, open_part,
  decrypt,
}

-- Fernet opens what it sealed.
pub record IsFernet (c : TokenCrypto) : Type 0 where
  pub open_seal :
      (nonce : ℕ) (plaintext : Text) → c.open_token (c.seal nonce plaintext) ≡ some plaintext

abbrev pub HasNoColon : Text → Type 0
HasNoColon s = All (λ c. (c == b':') ≡ false) s

after_colon-append : (a s : Text) → HasNoColon a → after_colon (a ++ b':' ∷ s) ≡ some s
unfolding after_colon
after_colon-append [] s h = refl
after_colon-append (c ∷ a) s (p, h) = rw p (after_colon-append a s h)

module _ (c : TokenCrypto) where
  -- The fourth part begins after the first colon of the key id and what follows it.
  fourth_part-envelope :
      (a s : Text) → HasNoColon a → fourth_part (prefix ++ a ++ b':' ∷ s) ≡ some s
  unfolding fourth_part after_colon
  fourth_part-envelope a s h = after_colon-append a s h

  decrypt-envelope :
      (nonce : ℕ) (plaintext a s : Text)
      → HasNoColon a
      → envelope c nonce plaintext ≡ prefix ++ a ++ b':' ∷ s
      → decrypt c (some (envelope c nonce plaintext)) ≡ opened c (c.open_token s)
  unfolding decrypt is_encrypted starts_with
  decrypt-envelope nonce plaintext a s h same =
      ap (open_part c) (ap fourth_part same ∙ fourth_part-envelope a s h)

  -- If Fernet opens what it sealed and the key id has no colon: a token that does not itself look
  -- encrypted is decrypted to what it was, and needs no migration.
  pub decrypt-encrypt :
      (nonce : ℕ) (plaintext : Text)
      → IsFernet c
      → HasNoColon c.key_id
      → is_encrypted (some plaintext) ≡ false
      → decrypt c (encrypt c nonce (some plaintext))
        ≡ ok (record { plaintext = some plaintext; requires_migration = false })
  unfolding encrypt
  decrypt-encrypt nonce plaintext f no_colon plain = rw plain (
      decrypt-envelope nonce plaintext c.key_id (c.seal nonce plaintext) no_colon refl
      ∙ ap (opened c) (f.open_seal nonce plaintext))

  encrypt-envelope :
      (nonce again : ℕ) (plaintext : Text)
      → encrypt c again (some (envelope c nonce plaintext)) ≡ some (envelope c nonce plaintext)
  unfolding encrypt is_encrypted starts_with
  encrypt-envelope nonce again plaintext = refl

  -- Encrypting a stored value again changes nothing.
  pub encrypt_idem :
      (nonce again : ℕ) (value : Option Text)
      → encrypt c again (encrypt c nonce value) ≡ encrypt c nonce value
  unfolding encrypt
  encrypt_idem nonce again none = refl
  encrypt_idem nonce again (some plaintext) = elim (Bool-cases (is_encrypted (some plaintext))) [
    | inl already ↦ rw already (rw already refl)
    | inr plain ↦ rw plain (encrypt-envelope nonce again plaintext)
  ]

  split_key :
      (nonce : ℕ) (plaintext a b : Text)
      → c.key_id ≡ a ++ b':' ∷ b
      → envelope c nonce plaintext ≡ prefix ++ a ++ b':' ∷ (b ++ b':' ∷ c.seal nonce plaintext)
  split_key nonce plaintext a b key =
      ap (λ (k : Text). prefix ++ k ++ b':' ∷ c.seal nonce plaintext) key
      ∙ ap (λ (k : Text). prefix ++ k) (append_assoc a (b':' ∷ b) (b':' ∷ c.seal nonce plaintext))

  -- If the key id has a colon, as the name of a KMS key has, and Fernet refuses a sealed token with
  -- the rest of the key id before it: what was encrypted cannot be decrypted.
  pub colon_key_unreadable :
      (nonce : ℕ) (plaintext a b : Text)
      → c.key_id ≡ a ++ b':' ∷ b
      → HasNoColon a
      → c.open_token (b ++ b':' ∷ c.seal nonce plaintext) ≡ none
      → is_encrypted (some plaintext) ≡ false
      → decrypt c (encrypt c nonce (some plaintext)) ≡ raised value_error
  unfolding encrypt
  colon_key_unreadable nonce plaintext a b key no_colon refused plain = rw plain (
      decrypt-envelope nonce plaintext a (b ++ b':' ∷ c.seal nonce plaintext) no_colon
        (split_key nonce plaintext a b key)
      ∙ ap (opened c) refused)

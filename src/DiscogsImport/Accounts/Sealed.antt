-- ===== src/DiscogsImport/Accounts/Sealed.antt =====
-- app/services/discogs_import.py: the access tokens as the links hold them.
use wax_watch_api.Prelude.{
  ℕ, ◌==◌, ◌≡◌, refl, subst, inl, inr, Option, none, some, true, false, not, ◌||◌, List, [], ◌∷◌,
  ◌++◌, arith, All, All-append, All-first, Bool-cases, is_some, if◌then◌else◌,
}
use wax_watch_api.Prelude.Text.{Text, codes, truthy_text}
use wax_watch_api.Models.{ExternalAccountLink}
use wax_watch_api.Environment.{Environment}
use wax_watch_api.Session.{Tables, World, Outcome, ok, raised, pure, option_case, ◌>>=◌}
use wax_watch_api.Session.Keeps.{
  Keeps, Keeps-modify, Keeps-bind, Keeps-pure, Keeps-lift, Keeps-if, Keeps-option, Keeps-gets,
  Holds, Holds-now_utc, Holds-fresh_id,
}
use wax_watch_api.Session.Ensures.{
  Ensures, Ensures-bind, Ensures-gets, Ensures-pure, Ensures-if, Ensures-option, Ensures-fact,
  Ensures_of_keeps, Ensures_weaken, Keeps_of_ensures, Ensures-lift,
}
use wax_watch_api.Tokens.Crypto.{
  TokenCrypto, DecryptResult, encrypt, is_encrypted, decrypt, opened, open_part, fourth_part,
}
use wax_watch_api.WatchRules.Owner.Kept.{ensure_user_exists-Holds}
use wax_watch_api.DiscogsImport.{Discogs}
use wax_watch_api.DiscogsImport.Accounts.{
  Connection, link_of, is_link_of, append_link, replace_link, write_link, normalized, fills_any,
  encrypt_access_token, lifecycle_of, lifecycle_or, connect_account,
  ensure_normalized_lifecycle_fields, store_token, ensure_token_encrypted, get_status,
  get_decrypted_access_token,
}

-- No token, or what Fernet sealed, in the envelope of the key.
pub data IsSealedBy (c : TokenCrypto) : Option Text → Type 0 where
  no_token : IsSealedBy c none
  sealed_token :
      (nonce : ℕ) (plaintext : Text)
      → IsSealedBy c (some (codes "enc:v1:" ++ c.key_id ++ b':' ∷ c.seal nonce plaintext))

unfoldable pub IsSealed : TokenCrypto → ExternalAccountLink → Type 0
IsSealed c l = IsSealedBy c l.access_token

pub record AllSealed (c : TokenCrypto) (t : Tables) : Type 0 where
  pub sealed : All (IsSealed c) t.links

module _ (c : TokenCrypto) where
  abbrev MigratesPlain : Outcome DecryptResult → Type 0
  MigratesPlain (ok r) = r.requires_migration ≡ true → is_encrypted r.plaintext ≡ false
  MigratesPlain (raised e) = Unit

  opened-Plain : (plaintext : Option Text) → MigratesPlain (opened c plaintext)
  opened-Plain none = tt
  opened-Plain (some plaintext) = λ m. elim (false_ne_true m) [ ]
    where
      false_ne_true : false ≡ true → ⊥
      false_ne_true e = cc

  part-Plain : (part : Option Text) → MigratesPlain (open_part c part)
  part-Plain none = tt
  part-Plain (some ciphertext) = opened-Plain (c.open_token ciphertext)

  -- What asks to be migrated is not encrypted.
  decrypt-Plain : (stored : Option Text) → MigratesPlain (decrypt c stored)
  unfolding decrypt is_encrypted
  decrypt-Plain none = λ m. refl
  decrypt-Plain (some t) = elim (Bool-cases (is_encrypted (some t))) [
    | inl already ↦ rw already (part-Plain (fourth_part t))
    | inr plain ↦ rw plain (λ m. plain)
  ]

  encrypt-sealed :
      (nonce : ℕ) (token : Option Text)
      → is_encrypted token ≡ false
      → IsSealedBy c (encrypt c nonce token)
  unfolding encrypt
  encrypt-sealed nonce none plain = no_token
  encrypt-sealed nonce (some t) plain = rw plain (sealed_token nonce t)

module _ (c : TokenCrypto) where
  append_link-Holds :
      (l : ExternalAccountLink) → IsSealed c l → Keeps (Holds (AllSealed c)) (append_link l)
  unfolding append_link
  append_link-Holds l new = Keeps-modify _ (λ w h. record {
    here = record { sealed = All-append (IsSealed c) w.links (l ∷ []) h.here.sealed (new, tt) };
    elsewhere = h.elsewhere;
  })

  replaced :
      (l : ExternalAccountLink) (ls : List ExternalAccountLink)
      → IsSealed c l
      → All (IsSealed c) ls
      → All (IsSealed c) (replace_link l ls)
  unfolding replace_link
  replaced l [] new old = tt
  replaced l (k ∷ ls) new (h, hs) = (
    elim (k.id == l.id) as (λ b. IsSealed c (if b then l else k)) [ true ↦ new | false ↦ h ],
    replaced l ls new hs,
  )

  pub write_link-Holds :
      (l : ExternalAccountLink) → IsSealed c l → Keeps (Holds (AllSealed c)) (write_link l)
  unfolding write_link
  write_link-Holds l new = Keeps-modify _ (λ w h. record {
    here = record { sealed = replaced l w.links new h.here.sealed };
    elsewhere = h.elsewhere;
  })

module _ (env : Environment) (d : Discogs) where
  -- The world, with a token that is sealed.
  abbrev With : Option Text → World → Type 0
  With token w = Holds (AllSealed d.crypto) w × IsSealedBy d.crypto token

  encrypted :
      (token : Option Text)
      → is_encrypted token ≡ false
      → Ensures
          (Holds (AllSealed d.crypto))
          (encrypt_access_token env d token)
          With
          (Holds (AllSealed d.crypto))
  unfolding encrypt_access_token
  encrypted token plain =
      Ensures-bind _ _ (Ensures_of_keeps Holds-fresh_id)
        (λ nonce. Ensures-pure _ (λ w h. (h, encrypt-sealed d.crypto nonce token plain)))

  -- A link is returned as it is stored.
  abbrev pub Stored : ExternalAccountLink → World → Type 0
  Stored l w = Holds (AllSealed d.crypto) w × IsSealed d.crypto l

  lifecycle_or-Holds : (c : Connection) → Keeps (Holds (AllSealed d.crypto)) (lifecycle_or env d c)
  unfolding lifecycle_or
  lifecycle_or-Holds c =
      Keeps-bind _ _
        (Keeps-option c.access_token_expires_at _ _ (Keeps-lift _) (λ at. Keeps-pure (some at)))
        (λ expiry. Keeps-pure _)

  pub connect-sealed :
      (user_id : ℕ) (c : Connection)
      → is_encrypted c.access_token ≡ false
      → Ensures
          (Holds (AllSealed d.crypto))
          (connect_account env d user_id c)
          Stored
          (Holds (AllSealed d.crypto))
  unfolding connect_account IsSealed
  connect-sealed user_id c plain =
      Ensures-bind _ _
        (Ensures_of_keeps
          (ensure_user_exists-Holds (λ t us h. record { sealed = h.sealed }) env user_id))
        (λ user. Ensures-bind _ _ (Ensures_of_keeps Holds-now_utc) (λ now.
          Ensures-bind _ _ (Ensures_of_keeps (lifecycle_or-Holds c)) (λ f.
            Ensures-bind _ _ (Ensures_of_keeps (Keeps-gets _)) (λ found.
              Ensures-bind _ _ (encrypted c.access_token plain) (λ token. Ensures-fact (λ is.
                Ensures-option found _ _
                  (Ensures-bind _ _ (Ensures_of_keeps Holds-fresh_id) (λ id.
                    Ensures-bind _ _ (Ensures_of_keeps (append_link-Holds d.crypto _ is))
                      (λ _. Ensures-pure _ (λ w h. (h, is)))))
                  (λ l.
                    Ensures-bind _ _ (Ensures_of_keeps (write_link-Holds d.crypto _ is))
                      (λ _. Ensures-pure _ (λ w h. (h, is))))))))))

  store-sealed :
      (token : Option Text) (l : ExternalAccountLink)
      → is_encrypted token ≡ false
      → Ensures
          (Holds (AllSealed d.crypto))
          (store_token env d token l)
          Stored
          (Holds (AllSealed d.crypto))
  unfolding store_token IsSealed
  store-sealed token l plain = Ensures-bind _ _ (encrypted token plain) (λ t. Ensures-fact (λ is.
      Ensures-bind _ _ (Ensures_of_keeps Holds-now_utc) (λ now.
        Ensures-bind _ _ (Ensures_of_keeps (write_link-Holds d.crypto _ is))
          (λ _. Ensures-pure _ (λ w h. (h, is))))))

  fields-sealed :
      (l : ExternalAccountLink)
      → IsSealed d.crypto l
      → Ensures
          (Holds (AllSealed d.crypto))
          (ensure_normalized_lifecycle_fields env d l)
          Stored
          (Holds (AllSealed d.crypto))
  unfolding ensure_normalized_lifecycle_fields lifecycle_of IsSealed normalized
  fields-sealed l is =
      Ensures-bind {R = λ _. Holds (AllSealed d.crypto)} _ _
        (Ensures_of_keeps (Keeps-bind _ _ (Keeps-lift _) (λ e. Keeps-pure _)))
        (λ f.
          Ensures-if (fills_any f l) _ _
            (λ _. Ensures-bind _ _ (Ensures_of_keeps Holds-now_utc) (λ now.
              Ensures-bind _ _ (Ensures_of_keeps (write_link-Holds d.crypto _ is))
                (λ _. Ensures-pure _ (λ w h. (h, is)))))
            (λ _. Ensures-pure l (λ w h. (h, is))))

  pub status-sealed : (user_id : ℕ) → Keeps (Holds (AllSealed d.crypto)) (get_status env d user_id)
  unfolding get_status ensure_token_encrypted
  status-sealed user_id =
      Keeps_of_ensures (λ _ w h. h)
        (Ensures-bind
          {R = λ found w. Holds (AllSealed d.crypto) w × (link_of user_id w.links ≡ found)} _ _
          (Ensures-gets _ (λ w h. (h, refl))) found_sealed)
    where
      kept :
          (l : ExternalAccountLink)
          → Ensures
              (Holds (AllSealed d.crypto))
              (if not (is_some (truthy_text l.access_token)) || is_encrypted l.access_token
                then pure l
                else store_token env d l.access_token l)
              (λ _. Holds (AllSealed d.crypto))
              (Holds (AllSealed d.crypto))
      kept l =
          Ensures-if (not (is_some (truthy_text l.access_token)) || is_encrypted l.access_token) _ _
            (λ _. Ensures-pure l (λ w h. h))
            (λ off.
              Ensures_weaken (λ l w h. h.0) (λ w h. h)
                (store-sealed l.access_token l (ground (arith, off))))

      normal :
          (l : ExternalAccountLink)
          → IsSealed d.crypto l
          → Ensures
              (Holds (AllSealed d.crypto))
              (do
                n ← ensure_normalized_lifecycle_fields env d l
                e ← ensure_token_encrypted env d n
                pure (some e))
              (λ _. Holds (AllSealed d.crypto))
              (Holds (AllSealed d.crypto))
      normal l is =
          Ensures-bind _ _ (Ensures_weaken (λ l w h. h.0) (λ w h. h) (fields-sealed l is))
            (λ n. Ensures-bind _ _ (kept n) (λ e. Ensures-pure _ (λ w h. h)))

      found_sealed :
          (found : Option ExternalAccountLink)
          → Ensures
              (λ w. Holds (AllSealed d.crypto) w × (link_of user_id w.links ≡ found))
              (option_case found (pure none) (λ l. do
                n ← ensure_normalized_lifecycle_fields env d l
                e ← ensure_token_encrypted env d n
                pure (some e)))
              (λ _. Holds (AllSealed d.crypto))
              (Holds (AllSealed d.crypto))
      found_sealed none = Ensures-pure none (λ w h. h.0)
      found_sealed (some l) = record {
        at = λ w h.
            (normal l (
                All-first (IsSealed d.crypto) (is_link_of user_id) w.links h.0.here.sealed
                  (h.1))).at
              w h.0;
      }

  pub decrypted-sealed :
      (l : ExternalAccountLink)
      → Keeps (Holds (AllSealed d.crypto)) (get_decrypted_access_token env d l)
  unfolding get_decrypted_access_token
  decrypted-sealed l =
      Keeps-if (is_some (truthy_text l.access_token)) _ _
        (Keeps_of_ensures (λ _ w h. h)
          (Ensures-bind {R = λ r w. Holds (AllSealed d.crypto) w × IsMigrated r} _ _
            (Ensures-lift _
              (λ r e w h.
                (h, subst (MigratesPlain d.crypto) e (decrypt-Plain d.crypto l.access_token)))
              (λ w h. h))
            (λ r. Ensures-fact (λ migrates.
              Ensures-if r.requires_migration _ _
                (λ on.
                  Ensures-bind _ _ (store-sealed r.plaintext l (migrates on))
                    (λ _. Ensures-pure _ (λ w h. h.0)))
                (λ _. Ensures-pure _ (λ w h. h))))))
        (Keeps-pure none)
    where
      IsMigrated : DecryptResult → Type 0
      IsMigrated r = r.requires_migration ≡ true → is_encrypted r.plaintext ≡ false

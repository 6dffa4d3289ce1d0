-- ===== src/DiscogsImport/OAuth/Sealed.antt =====
-- app/services/discogs_import.py: the access tokens under every operation on an account.
use wax_watch_api.Prelude.{
  ℕ, ◌==◌, Option, none, some, Bool, true, false, not, ◌&&◌, List, All-keep, is_some, refl, ◌≡◌,
  ◌∷◌, [],
}
use wax_watch_api.Prelude.Text.{Text, codes, nonempty, truthy_text}
use wax_watch_api.Prelude.Dict.{Dict}
use wax_watch_api.Json.{Json}
use wax_watch_api.Environment.{Environment}
use wax_watch_api.Session.{World, http_exception, option_case, raise}
use wax_watch_api.Tokens.Crypto.{TokenCrypto, is_encrypted}
use wax_watch_api.Session.Keeps.{
  Keeps, Keeps-modify, Keeps-bind, Keeps-pure, Keeps-lift, Keeps-if, Keeps-option, Keeps-gets,
  Keeps-raise, Holds, Holds-now_utc, Holds-fresh_id,
}
use wax_watch_api.Session.Ensures.{
  Ensures, Ensures-raise, Ensures-if, Ensures-bind, Ensures-pure, Ensures-fact, Ensures_of_keeps,
  Keeps_of_ensures,
}
use wax_watch_api.WatchRules.Owner.Kept.{ensure_user_exists-Holds}
use wax_watch_api.DiscogsImport.{Discogs, Reply, no_reply, reply, TokenPayload, request}
use wax_watch_api.DiscogsImport.Metadata.{value_of}
use wax_watch_api.DiscogsImport.Accounts.{
  Connection, connect_account, get_status, delete_link, disconnect_account,
}
use wax_watch_api.DiscogsImport.Accounts.Sealed.{
  IsSealed, AllSealed, write_link-Holds, Stored, connect-sealed, status-sealed, decrypted-sealed,
}
use wax_watch_api.DiscogsImport.OAuth.{
  body_or_502, start_oauth, expired, username_of, finish_oauth, identify, exchange, complete_oauth,
}

-- Where there is a token, it does not itself look encrypted.
abbrev IsPlainReply : Reply TokenPayload → Type 0
IsPlainReply no_reply = Unit
IsPlainReply (reply status none) = Unit
IsPlainReply (reply status (some p)) = is_encrypted p.access_token ≡ false

-- Discogs issues no token that looks like an encrypted one.
pub record HasPlainTokens (d : Discogs) : Type 0 where
  pub plain : (n : ℕ) (code : Text) → IsPlainReply (d.token_reply n code)

plain_truthy : (t : Option Text) → is_encrypted t ≡ false → is_encrypted (truthy_text t) ≡ false
unfolding is_encrypted
plain_truthy none h = refl
plain_truthy (some []) h = refl
plain_truthy (some (a ∷ t)) h = h

module _ (c : TokenCrypto) where
  request-Holds : {A : Type 0} (ask : ℕ → Reply A) → Keeps (Holds (AllSealed c)) (request ask)
  unfolding request
  request-Holds ask = record { at = λ w h. record { here = h.here; elsewhere = h.elsewhere } }

  request-Plain :
      (ask : ℕ → Reply TokenPayload)
      → ((n : ℕ) → IsPlainReply (ask n))
      → Ensures
          (Holds (AllSealed c))
          (request ask)
          (λ answer w. Holds (AllSealed c) w × IsPlainReply answer)
          (Holds (AllSealed c))
  unfolding request
  request-Plain ask h = record {
    at = λ w k. (record { here = k.here; elsewhere = k.elsewhere }, h w.requests);
  }

  body-Plain :
      (r : Reply TokenPayload)
      → IsPlainReply r
      → Ensures
          (Holds (AllSealed c))
          (body_or_502 r)
          (λ p w. Holds (AllSealed c) w × (is_encrypted p.access_token ≡ false))
          (Holds (AllSealed c))
  unfolding body_or_502
  body-Plain no_reply h = Ensures-raise _ (λ w k. k)
  body-Plain (reply status none) h =
      Ensures-if (not (status == 200)) _ _ (λ _. Ensures-raise _ (λ w k. k))
        (λ _. Ensures-raise _ (λ w k. k))
  body-Plain (reply status (some p)) h =
      Ensures-if (not (status == 200)) _ _ (λ _. Ensures-raise _ (λ w k. k))
        (λ _. Ensures-pure p (λ w k. (k, h)))

  body-Holds : {A : Type 0} (r : Reply A) → Keeps (Holds (AllSealed c)) (body_or_502 r)
  unfolding body_or_502
  body-Holds no_reply = Keeps-raise _
  body-Holds (reply status body) =
      Keeps-if (not (status == 200)) _ _ (Keeps-raise _)
        (Keeps-option body _ _ (Keeps-raise _) (λ a. Keeps-pure a))

  delete-Holds : (id : ℕ) → Keeps (Holds (AllSealed c)) (delete_link id)
  unfolding delete_link
  delete-Holds id = Keeps-modify _ (λ w h. record {
    here = record { sealed = All-keep (IsSealed c) _ w.links h.here.sealed };
    elsewhere = h.elsewhere;
  })

module _ (env : Environment) (d : Discogs) where
  start_kept :
      (user_id : ℕ) (scopes : Option (List Text))
      → Keeps (Holds (AllSealed d.crypto)) (start_oauth env d user_id scopes)
  unfolding start_oauth IsSealed is_encrypted
  start_kept user_id scopes =
      Keeps-bind _ _ (ensure_user_exists-Holds (λ t us h. record { sealed = h.sealed }) env user_id)
        (λ user. Keeps-bind _ _ Holds-now_utc (λ now. Keeps-bind _ _ Holds-fresh_id (λ drawn.
          Keeps_of_ensures (λ _ w h. h)
            (Ensures-bind {R = Stored env d} _ _ (connect-sealed env d user_id _ refl) (λ link.
              Ensures-fact (λ is.
                Ensures-bind _ _ (Ensures_of_keeps (write_link-Holds d.crypto _ is))
                  (λ _. Ensures-pure _ (λ w h. h))))))))

  finish_kept :
      (user_id : ℕ) (m : Dict Text Json) (p : TokenPayload) (access_token username : Text)
      → is_encrypted (some access_token) ≡ false
      → Keeps (Holds (AllSealed d.crypto)) (finish_oauth env d user_id m p access_token username)
  unfolding finish_oauth
  finish_kept user_id m p access_token username plain =
      Keeps-bind _ _ (Keeps-if _ _ _ Holds-now_utc (Keeps-gets _)) (λ now.
        Keeps-bind _ _ (Keeps-lift _)
          (λ at. Keeps_of_ensures (λ _ w h. h.0) (connect-sealed env d user_id _ plain)))

  identify_kept :
      (user_id : ℕ) (m : Dict Text Json) (p : TokenPayload) (access_token : Text)
      → is_encrypted (some access_token) ≡ false
      → Keeps (Holds (AllSealed d.crypto)) (identify env d user_id m p access_token)
  unfolding identify
  identify_kept user_id m p access_token plain =
      Keeps-bind _ _ (request-Holds d.crypto _) (λ answer.
        Keeps-bind _ _ (body-Holds d.crypto answer) (λ identity.
          Keeps-if (nonempty (username_of env d (value_of (codes "username") identity))) _ _
            (finish_kept user_id m p access_token _ plain) (Keeps-raise _)))

  token_case_kept :
      (user_id : ℕ) (m : Dict Text Json) (p : TokenPayload) (token : Option Text)
      → is_encrypted token ≡ false
      → Keeps
          (Holds (AllSealed d.crypto))
          (option_case token (raise (http_exception 502)) (identify env d user_id m p))
  token_case_kept user_id m p none plain = Keeps-raise _
  token_case_kept user_id m p (some t) plain = identify_kept user_id m p t plain

  exchange_kept :
      (user_id : ℕ) (m : Dict Text Json) (code : Text)
      → HasPlainTokens d
      → Keeps (Holds (AllSealed d.crypto)) (exchange env d user_id m code)
  unfolding exchange
  exchange_kept user_id m code issued =
      Keeps_of_ensures (λ _ w h. h)
        (Ensures-bind _ _ (request-Plain d.crypto _ (λ n. issued.plain n code)) (λ answer.
          Ensures-fact (λ plain_reply.
            Ensures-bind _ _ (body-Plain d.crypto answer plain_reply) (λ p. Ensures-fact (λ plain.
              Ensures_of_keeps (
                token_case_kept user_id m p (truthy_text p.access_token)
                  (plain_truthy p.access_token plain)))))))

  expired_kept : (at : Option ℕ) → Keeps (Holds (AllSealed d.crypto)) (expired env d at)
  expired_kept none = Keeps-pure false
  expired_kept (some at) = Keeps-bind _ _ Holds-now_utc (λ now. Keeps-pure _)

  complete_kept :
      (user_id : ℕ) (state code : Text)
      → HasPlainTokens d
      → Keeps (Holds (AllSealed d.crypto)) (complete_oauth env d user_id state code)
  unfolding complete_oauth
  complete_kept user_id state code issued = Keeps-bind _ _ (status-sealed env d user_id) (λ found.
      Keeps-option found _ _ (Keeps-raise _) (λ link. Keeps-bind _ _ (Keeps-lift _) (λ at.
        Keeps-if _ _ _ (Keeps-raise _) (
          Keeps-bind _ _ (expired_kept at)
            (λ over. Keeps-if over _ _ (Keeps-raise _) (exchange_kept user_id _ code issued))))))

  disconnect_kept :
      (user_id : ℕ) (revoke : Bool)
      → Keeps (Holds (AllSealed d.crypto)) (disconnect_account env d user_id revoke)
  unfolding disconnect_account
  disconnect_kept user_id revoke = Keeps-bind _ _ (status-sealed env d user_id) (λ found.
      Keeps-option found _ _ (Keeps-pure false) (λ l.
        Keeps-bind _ _ (decrypted-sealed env d l) (λ token.
          Keeps-if (revoke && is_some (truthy_text token)) _ _
            (Keeps-bind _ _ (request-Holds d.crypto _)
              (λ _. Keeps-bind _ _ (delete-Holds d.crypto l.id) (λ _. Keeps-pure true)))
            (Keeps-bind _ _ (delete-Holds d.crypto l.id) (λ _. Keeps-pure true)))))

  -- If neither the token that is submitted nor any token that Discogs issues itself looks
  -- encrypted: on every path of connecting, of both steps of a login, of reading the status and of
  -- disconnecting, errors and refused answers of Discogs included, if every stored access token
  -- was something that Fernet sealed, in an envelope of the key, and other transactions keep it
  -- so, every one is after.
  pub tokens_sealed :
      (user_id : ℕ) (c : Connection) (scopes : Option (List Text)) (state code : Text)
      (revoke : Bool) (w : World)
      → is_encrypted c.access_token ≡ false
      → HasPlainTokens d
      → Holds (AllSealed d.crypto) w
      → Holds (AllSealed d.crypto) (connect_account env d user_id c w).1
        × Holds (AllSealed d.crypto) (start_oauth env d user_id scopes w).1
        × Holds (AllSealed d.crypto) (complete_oauth env d user_id state code w).1
        × Holds (AllSealed d.crypto) (get_status env d user_id w).1
        × Holds (AllSealed d.crypto) (disconnect_account env d user_id revoke w).1
  tokens_sealed user_id c scopes state code revoke w submitted issued h = (
    (Keeps_of_ensures (λ _ w h. h.0) (connect-sealed env d user_id c submitted)).at w h,
    (start_kept user_id scopes).at w h,
    (complete_kept user_id state code issued).at w h,
    (status-sealed env d user_id).at w h,
    (disconnect_kept user_id revoke).at w h,
  )

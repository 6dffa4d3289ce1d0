-- ===== src/DiscogsImport/OAuth.antt =====
-- app/services/discogs_import.py: `start_oauth` and `complete_oauth`.
pub mod Sealed
use wax_watch_api.Prelude.{
  ℕ, ◌+◌, ◌*◌, ◌==◌, Option, none, some, Bool, true, false, not, List, [], ◌∷◌, ◌++◌, map, is_some,
  or_else, get_or, if◌then◌else◌,
}
use wax_watch_api.Prelude.Text.{Text, codes, text_eq, text_key, strip, nonempty, truthy_text}
use wax_watch_api.Prelude.Text.Words.{join}
use wax_watch_api.Prelude.Dict.{Dict, put}
use wax_watch_api.Json.{
  Json, null, text, boolean, arr, to_items, truthy, as_text, as_list, as_number,
}
use wax_watch_api.Models.{ExternalAccountLink}
use wax_watch_api.Environment.{Environment}
use wax_watch_api.Session.{
  lift, Action, http_exception, transport_error, value_error, pure, raise, gets, ◌>>=◌, ◌>>◌,
  option_case, now_utc, fresh_id,
}
use wax_watch_api.Tokens.Lifecycle.{is_token_expired}
use wax_watch_api.Ingest.Match.{str_of}
use wax_watch_api.WatchRules.Owner.{ensure_user_exists}
use wax_watch_api.DiscogsImport.{Discogs, Reply, no_reply, reply, TokenPayload, request}
use wax_watch_api.DiscogsImport.Metadata.{
  truthy_list, value_of, split_scope_string, metadata_datetime, expires_at_from_token_payload,
}
use wax_watch_api.DiscogsImport.Accounts.{Connection, connect_account, get_status, write_link}

pub record OAuthStart : Type 0 where
  pub authorize_url : Text
  pub state : Text
  pub scopes : List Text
  pub expires_at : ℕ

abbrev texts : List Text → Json
texts ts = arr (to_items (map text ts))

abbrev started_metadata : Discogs → (state : Text) → (expires_at : ℕ) → List Text → Dict Text Json
started_metadata d state expires_at scopes =
    (codes "oauth_state", text state)
    ∷ (codes "oauth_state_expires_at", text (d.isoformat expires_at))
    ∷ (codes "oauth_scopes", texts scopes)
    ∷ (codes "oauth_connected", boolean false)
    ∷ []

-- `{k: v for k, v in params.items() if v}`
abbrev given : List (Text × Option Text) → Dict Text Text
given [] = []
given ((k, some (c ∷ v)) ∷ ps) = (k, c ∷ v) ∷ given ps
given ((k, _) ∷ ps) = given ps

abbrev authorize_url : Text
authorize_url = codes "https://www.discogs.com/oauth/authorize?"

-- A pending connection, without a token.
abbrev pending_connection : Dict Text Json → Connection
pending_connection metadata = record {
  external_user_id = codes "pending";
  access_token = none;
  token_metadata = some metadata;
  refresh_token = none;
  access_token_expires_at = none;
  token_type = none;
  scopes = none;
}

abbrev option_text : Option Text → Json
option_text none = null
option_text (some s) = text s

-- `{**metadata, ...}`
unfoldable pub completed_metadata : Dict Text Json → Json → TokenPayload → Dict Text Json
unfolding put
completed_metadata m scopes p = put (codes "access_token_expires_at") (get_or p.expires_at null) (
    put (codes "refresh_token") (option_text p.refresh_token) (
      put (codes "token_type") (option_text p.token_type) (
        put (codes "oauth_scopes") scopes (
          put (codes "oauth_connected") (boolean true)
            (put (codes "oauth_state_expires_at") null (put (codes "oauth_state") null m))))))

-- The body of an answer with status 200; every other one is a bad gateway.
unfoldable pub body_or_502 : {A : Type 0} → Reply A → Action A
body_or_502 no_reply = raise transport_error
body_or_502 (reply status body) =
    if not (status == 200)
    then raise (http_exception 502)
    else option_case body (raise value_error) pure

module _ (env : Environment) (d : Discogs) where
  unfoldable pub start_oauth : ℕ → Option (List Text) → Action OAuthStart
  unfolding split_scope_string join
  start_oauth user_id scopes = do
    user ← ensure_user_exists env user_id
    now ← now_utc
    drawn ← fresh_id
    let requested = get_or (truthy_list scopes) (split_scope_string (some d.oauth_scopes))
    let state = d.token_urlsafe drawn
    let expires_at = now + d.oauth_state_ttl_seconds * 1000000
    link ←
        connect_account env d user_id
          (pending_connection (started_metadata d state expires_at requested))
    write_link (record link { connected_at = now; updated_at = now })
    pure (record {
      authorize_url =
          authorize_url
          ++ d.urlencode (
              given (
                (codes "client_id", d.oauth_client_id)
                ∷ (codes "response_type", some (codes "code"))
                ∷ (codes "redirect_uri", d.oauth_redirect_uri)
                ∷ (codes "scope", some (join b' ' requested))
                ∷ (codes "state", some state)
                ∷ []));
      state = state;
      scopes = requested;
      expires_at = expires_at;
    })

  -- The state of a login: there, not empty, and the one that was sent.
  abbrev pub is_state : Option Text → Text → Bool
  is_state none state = false
  is_state (some []) state = false
  is_state (some (c ∷ expected)) state = text_eq (c ∷ expected) state

  abbrev pub expired : Option ℕ → Action Bool
  expired none = pure false
  expired (some at) = do now ← now_utc; pure (is_token_expired (some at) now)

  abbrev pub username_of : Json → Text
  username_of v = strip env.unicode (if truthy v then str_of d.print v else [])

  -- The scopes that the login asked for, which `start_oauth` stored as texts, or else those of
  -- the token.
  abbrev granted : Json → TokenPayload → List Text
  granted asked p =
      if truthy asked
      then map (str_of d.print) (get_or (as_list asked) [])
      else split_scope_string p.scope

  unfoldable pub finish_oauth :
      ℕ → Dict Text Json → TokenPayload → Text → Text → Action ExternalAccountLink
  unfolding value_of expires_at_from_token_payload completed_metadata
  finish_oauth user_id m p access_token username = do
    now ←
        (if is_some (as_number (get_or p.expires_in null))
          then now_utc
          else gets (λ w. w.clock w.readings))
    expires_at ← lift (expires_at_from_token_payload env.unicode d p now)
    let scopes = granted (value_of (codes "oauth_scopes") m) p
    connect_account env d user_id (record {
      external_user_id = username;
      access_token = some access_token;
      token_metadata = some (completed_metadata m (texts scopes) p);
      refresh_token = p.refresh_token;
      access_token_expires_at = expires_at;
      token_type = p.token_type;
      scopes = some scopes;
    })

  unfoldable pub identify : ℕ → Dict Text Json → TokenPayload → Text → Action ExternalAccountLink
  unfolding value_of finish_oauth body_or_502
  identify user_id m p access_token = do
    answer ← request (λ n. d.identity_reply n access_token)
    identity ← body_or_502 answer
    let username = username_of (value_of (codes "username") identity)
    if nonempty username
        then finish_oauth user_id m p access_token username
        else raise (http_exception 502)

  unfoldable pub exchange : ℕ → Dict Text Json → Text → Action ExternalAccountLink
  unfolding identify body_or_502
  exchange user_id m code = do
    answer ← request (λ n. d.token_reply n code)
    p ← body_or_502 answer
    option_case (truthy_text p.access_token) (raise (http_exception 502)) (identify user_id m p)

  unfoldable pub complete_oauth : ℕ → (state code : Text) → Action ExternalAccountLink
  unfolding exchange value_of metadata_datetime
  complete_oauth user_id state code = do
    found ← get_status env d user_id
    option_case found (raise (http_exception 400)) (λ link. do
      let m = get_or link.token_metadata []
      expires_at ←
          lift (metadata_datetime env.unicode d (some m) (codes "oauth_state_expires_at" ∷ []))
      if not (is_state (as_text (value_of (codes "oauth_state") m)) state)
          then raise (http_exception 400)
          else (do
            over ← expired expires_at
            if over then raise (http_exception 400) else exchange user_id m code))

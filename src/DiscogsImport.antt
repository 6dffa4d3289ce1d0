-- ===== src/DiscogsImport.antt =====
-- app/services/discogs_import.py: the settings and the outside services of the import. The time,
-- token and number functions of Python's library that read more than the program's data are
-- parameters, and so are the answers of Discogs.
pub mod Metadata
pub mod Accounts
pub mod OAuth
pub mod Releases
pub mod Pages
pub mod Jobs
pub mod Tasks
pub mod Items
pub mod Frame
mod Examples
use wax_watch_api.Prelude.{ℕ, suc, ◌+◌, Option, none, some}
use wax_watch_api.Prelude.Text.{Text}
use wax_watch_api.Prelude.Int.{ℤ}
use wax_watch_api.Prelude.Dict.{Dict}
use wax_watch_api.Json.{Json}
use wax_watch_api.Tokens.Crypto.{TokenCrypto}
use wax_watch_api.Session.{Action, Error, Outcome, ok, raised, transport_error, value_error}

-- An answer of Discogs: httpx raises, or there is a status and a body, which may be no JSON.
pub data Reply (A : Type 0) : Type 0 where
  no_reply : Reply A
  reply : (status_code : ℕ) → (body : Option A) → Reply A

-- The body of the token endpoint.
pub record TokenPayload : Type 0 where
  pub access_token : Option Text
  pub refresh_token : Option Text
  pub token_type : Option Text
  pub scope : Option Text
  pub expires_in : Option Json
  pub expires_at : Option Json
  pub access_token_expires_at : Option Json

pub record Discogs : Type 0 where
  pub crypto : TokenCrypto
  -- `str(v)` of a value that is no text
  pub print : Json → Text
  -- Settings
  pub oauth_scopes : Text
  pub oauth_client_id : Option Text
  pub oauth_redirect_uri : Option Text
  pub oauth_state_ttl_seconds : ℕ
  pub discogs_token : Option Text
  -- The n-th `token_urlsafe(24)`, and `urlencode`
  pub token_urlsafe : ℕ → Text
  pub urlencode : Dict Text Text → Text
  -- `datetime.isoformat`, and the readers, which are nothing where Python raises
  pub isoformat : ℕ → Text
  pub fromisoformat : Text → Option ℕ
  pub fromtimestamp : ℤ → Option ℕ
  -- `int(s)` of a text, likewise, and `str(n)` of a number
  pub int_of_text : Text → Option ℤ
  pub decimal : ℕ → Text
  -- The text of an exception, redacted as app/core/logging.py does it, which is not modelled.
  pub error_text : Error → Text
  -- `random.randint(0, bound)`, the n-th
  pub randint : (n bound : ℕ) → ℕ
  -- What Discogs answers to the n-th request.
  pub token_reply : (n : ℕ) → (code : Text) → Reply TokenPayload
  pub identity_reply : (n : ℕ) → (access_token : Text) → Reply (Dict Text Json)
  pub page_reply : (n : ℕ) → (endpoint : Text) → (token : Option Text) → (page : ℕ) → Reply Json

-- The request goes out, with its number.
unfoldable pub request : {A : Type 0} → (ℕ → Reply A) → Action (Reply A)
request ask w = (ok (ask w.requests), record w { requests = suc w.requests })

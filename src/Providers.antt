-- ===== src/Providers.antt =====
-- app/providers/discogs.py and app/providers/ebay.py: what the clients meet outside: answers over
-- HTTP, Python, the clock and random numbers.
pub mod Answers
pub mod Attempts
pub mod Discogs
pub mod EbayToken
pub mod Ebay
pub mod Delays
pub mod Retry
pub mod Listings
mod Examples
use wax_watch_api.Prelude.{
  ℕ, zero, suc, ◌+◌, ◌-◌, ◌*◌, ◌/◌, ◌^◌, max, min, ◌==◌, leb, Option, none, some, Bool, ◌||◌, List,
  [], ◌∷◌, ◌++◌, map, map_option, get_or, if◌then◌else◌,
}
use wax_watch_api.Prelude.Text.{Text, codes, text_key, strip, nonempty, Unicode}
use wax_watch_api.Prelude.Text.Words.{join}
use wax_watch_api.Prelude.Int.{ℤ, pos, pos_part}
use wax_watch_api.Prelude.Dict.{Dict, get}
use wax_watch_api.Json.{Json, null, number, text, arr, obj, nil, items, fields, unit, truthy}
use wax_watch_api.Ingest.Match.{str_of}
use wax_watch_api.Ingest.Listings.{Payload}
use wax_watch_api.Runner.{ProviderRequestLog, ProviderError, Searched, found, crashed}

-- An answer over HTTP; `body` is missing where the answer is no JSON.
pub record HttpResponse : Type 0 where
  pub status_code : ℕ
  pub header : Text → Option Text
  pub body : Option Json
  pub content : Text

-- What `httpx` makes of a request: an answer, or a `RequestError` with its text.
pub data Reply : Type 0 where
  unreachable : Text → Reply
  answered : HttpResponse → Reply

-- What a client calls of Python: `float` of a text, `str` of an integer and of JSON, and the texts
-- of its exceptions.
pub record Python : Type 0 where
  pub unicode : Unicode
  pub read_float : Text → Option ℤ
  pub show : ℕ → Text
  pub print : Json → Text
  pub no_attribute : Json → Text
  pub not_iterable : Json → Text
  pub no_json : Text → Text

pub record RetrySettings : Type 0 where
  pub max_attempts : ℕ
  pub retry_base_delay_ms : ℕ
  pub retry_max_delay_ms : ℕ

-- One search as the network, the clock and the random numbers make it: the answer to an attempt,
-- how long it took, the time from the start to its end, and its draw below 10000.
pub record Wire : Type 0 where
  pub reply : (authorization q : Text) → (limit attempt : ℕ) → Reply
  pub took : ℕ → ℕ
  pub elapsed : ℕ → ℕ
  pub random : ℕ → ℕ
  pub token_reply : Reply
  pub token_took : ℕ

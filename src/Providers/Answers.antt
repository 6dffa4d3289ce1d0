-- ===== src/Providers/Answers.antt =====
-- app/providers/discogs.py and app/providers/ebay.py: what is read from an answer, and Python's
-- exceptions on the way.
use wax_watch_api.Prelude.{ℕ, ◌*◌, Option, none, some, List, [], ◌∷◌, map, get_or, if◌then◌else◌}
use wax_watch_api.Prelude.Text.{Text, codes, text_key, strip, nonempty}
use wax_watch_api.Prelude.Text.Words.{join}
use wax_watch_api.Prelude.Int.{pos}
use wax_watch_api.Prelude.Dict.{Dict, get}
use wax_watch_api.Json.{Json, null, number, text, arr, obj, nil, items, fields, unit, truthy}
use wax_watch_api.Ingest.Match.{str_of}
use wax_watch_api.Ingest.Listings.{Payload}
use wax_watch_api.Runner.{Searched, found, crashed}
use wax_watch_api.Providers.{HttpResponse, Python}

-- A value, or an exception with its text and class.
pub data Computed (A : Type 0) : Type 0 where
  value : A → Computed A
  thrown : (message class_name : Text) → Computed A

infixl 5 ◌>>=◌
abbrev pub ◌>>=◌ : {A B : Type 0} → Computed A → (A → Computed B) → Computed B
value a >>= f = f a
thrown message class_name >>= f = thrown message class_name

abbrev chars : Text → List Json
chars [] = []
chars (c ∷ s) = text (c ∷ []) ∷ chars s

abbrev pub kept : Option Payload → List Payload → List Payload
kept none rest = rest
kept (some p) rest = p ∷ rest

module _ (py : Python) where
  -- `v.get(...)` wants a dictionary.
  abbrev pub as_dict : Json → Computed (Dict Text Json)
  as_dict (obj fs) = value (fields fs)
  as_dict v = thrown (py.no_attribute v) (codes "AttributeError")

  -- `v or {}`, of which `get` is called
  abbrev pub or_empty : Json → Computed (Dict Text Json)
  or_empty v = if truthy v then as_dict v else value []

  -- `for x in v`
  abbrev pub iterated : Json → Computed (List Json)
  iterated (arr vs) = value (items vs)
  iterated (text s) = value (chars s)
  iterated (obj fs) = value (map (λ e. text e.0) (fields fs))
  iterated v = thrown (py.not_iterable v) (codes "TypeError")

  -- `str(v or "").strip()`
  abbrev pub trimmed : Json → Text
  trimmed v = if truthy v then strip py.unicode (str_of py.print v) else []

  abbrev stripped_keywords : List Json → List Text
  stripped_keywords [] = []
  stripped_keywords (k ∷ ks) =
      let s = strip py.unicode (str_of py.print k) in
      if nonempty s then s ∷ stripped_keywords ks else stripped_keywords ks

  -- `q`, from the keywords; `query.get("keywords") or []`
  abbrev pub query_text : Json → Computed Text
  query_text keywords = (if truthy keywords then iterated keywords else value []) >>= λ ks.
      value (join 32 (stripped_keywords ks))

  abbrev pub decoded : HttpResponse → Option Json → Computed Json
  decoded r none = thrown (py.no_json r.content) (codes "JSONDecodeError")
  decoded r (some v) = value v

  module _ (listing_of : Json → Computed (Option Payload)) where
    unfoldable pub collected : List Json → Computed (List Payload)
    collected [] = value []
    collected (v ∷ vs) =
        let rest = collected vs in listing_of v >>= λ p. rest >>= λ ps. value (kept p ps)

    -- The listings under a key of the answer, `[]` where the key is missing.
    unfoldable pub listings_in : Text → HttpResponse → Computed (List Payload)
    unfolding collected get
    listings_in key r = decoded r r.body >>= λ v.
        as_dict v >>= λ d. iterated (get_or (get key d) (arr nil)) >>= λ vs. collected vs

abbrev pub searched : Computed (List Payload) → Searched
searched (value ls) = found ls
searched (thrown message class_name) = crashed message class_name

-- A count, and a time in ten-thousandths, as JSON.
abbrev pub count : ℕ → Json
count n = number (pos (n * unit))

abbrev pub optional_number : Option ℕ → Json
optional_number none = null
optional_number (some n) = number (pos n)

abbrev pub optional_text : Option Text → Json
optional_text none = null
optional_text (some s) = text s

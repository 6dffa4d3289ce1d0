-- ===== src/WatchRules/Schema.antt =====
-- app/schemas/watch_rules.py: how a request's query is checked and normalized.
pub mod Accepted
use wax_watch_api.Prelude.{
  ltb, Option, none, some, Bool, true, false, not, ◌&&◌, List, [], ◌∷◌, map, if◌then◌else◌,
}
use wax_watch_api.Prelude.Text.{Text, Unicode, codes, text_eq, text_key, strip, nonempty}
use wax_watch_api.Prelude.Int.{neg_part}
use wax_watch_api.Prelude.Dict.{Dict, get, put}
use wax_watch_api.Json.{Json, null, boolean, number, text, arr, as_list, as_text, is_null, to_items}
use wax_watch_api.Session.{Outcome, ok, raised, value_error}
use wax_watch_api.WatchRules.Validate.{look, some_item}
use wax_watch_api.Runner.Registry.{RegistrySettings, and_then, get_provider_registration}
use wax_watch_api.Search.Schema.{deduped, and_named, if_registered}

abbrev pub Query : Type 0
Query = Dict Text Json

abbrev pub texts : List Text → Json
texts names = arr (to_items (map text names))

-- A known key that is null.
abbrev nullable : Bool → Query → Outcome Query
nullable allow_null query = if allow_null then ok query else raised value_error

abbrev pub price_checked : Bool → Query → Option Json → Outcome Query
price_checked allow_null query none = ok query
price_checked allow_null query (some null) = nullable allow_null query
price_checked allow_null query (some (number n)) =
    if ltb 0 (neg_part n) then raised value_error else ok (put (codes "max_price") (number n) query)
price_checked allow_null query (some _) = raised value_error

module _ (u : Unicode) where
  -- `value.strip().lower()`
  abbrev pub normal_text : Text → Text
  normal_text s = u.lower (strip u s)

  abbrev pub q_checked : Bool → Query → Option Json → Outcome Query
  q_checked allow_null query none = ok query
  q_checked allow_null query (some null) = nullable allow_null query
  q_checked allow_null query (some (text s)) =
      if nonempty (normal_text s)
      then ok (put (codes "q") (text (normal_text s)) query)
      else raised value_error
  q_checked allow_null query (some _) = raised value_error

  -- `_normalize_and_validate_known_keys`
  unfoldable pub validate_known_keys : Bool → Query → Outcome Query
  unfolding get put strip
  validate_known_keys allow_null query =
      and_then (q_checked allow_null query (get (codes "q") query))
        (λ q. price_checked allow_null q (get (codes "max_price") q))

  abbrev keyword_kept : Option Text → Outcome (List Text) → Outcome (List Text)
  keyword_kept none rest = raised value_error
  keyword_kept (some keyword) rest =
      if nonempty (normal_text keyword) then and_named (normal_text keyword) rest else rest

  unfoldable pub clean_keywords : List Json → Outcome (List Text)
  unfolding strip
  clean_keywords [] = ok []
  clean_keywords (v ∷ vs) = keyword_kept (as_text v) (clean_keywords vs)

  abbrev pub put_keywords : Query → List Json → List Text → Outcome Query
  put_keywords query keywords cleaned =
      if some_item keywords && not (some_item cleaned)
      then raised value_error
      else ok (put (codes "keywords") (texts cleaned) query)

  abbrev pub listed_keywords : Query → Option (List Json) → Outcome Query
  listed_keywords query none = raised value_error
  listed_keywords query (some keywords) =
      and_then (clean_keywords keywords) (put_keywords query keywords)

  -- `_normalize_and_validate_keywords`; both callers require a keyword of a list that is not empty.
  unfoldable pub validate_keywords : Query → Outcome Query
  unfolding get put clean_keywords
  validate_keywords query =
      let keywords = look (codes "keywords") query in
      if is_null keywords then ok query else listed_keywords query (as_list keywords)

  module _ (registry : RegistrySettings) where
    abbrev pub source_kept : Option Text → Outcome (List Text) → Outcome (List Text)
    source_kept none rest = raised value_error
    source_kept (some source) rest =
        let key = normal_text source in
        if nonempty key
        then if_registered key (get_provider_registration u registry (some key)) rest
        else rest

    -- An entry is checked before those after it are; every error is a `ValueError`.
    unfoldable pub clean_sources : List Json → Outcome (List Text)
    unfolding strip get_provider_registration
    clean_sources [] = ok []
    clean_sources (v ∷ vs) = source_kept (as_text v) (clean_sources vs)

    abbrev pub put_sources : Query → List Text → Outcome Query
    put_sources query [] = raised value_error
    put_sources query (name ∷ names) =
        ok (put (codes "sources") (texts (deduped (name ∷ names))) query)

    abbrev pub listed_sources : Query → Option (List Json) → Outcome Query
    listed_sources query none = raised value_error
    listed_sources query (some []) = raised value_error
    listed_sources query (some (v ∷ vs)) = and_then (clean_sources (v ∷ vs)) (put_sources query)

    abbrev pub unless_required : Bool → Query → Outcome Query
    unless_required require query = if require then raised value_error else ok query

    -- `_normalize_and_validate_sources`
    unfoldable pub validate_sources : Bool → Query → Outcome Query
    unfolding get put clean_sources deduped
    validate_sources require query =
        let sources = look (codes "sources") query in
        if is_null sources
        then unless_required require query
        else listed_sources query (as_list sources)

    -- `WatchRuleCreate`
    unfoldable pub require_sources_on_create : Query → Outcome Query
    unfolding validate_known_keys validate_sources validate_keywords
    require_sources_on_create v =
        and_then (validate_known_keys false v)
          (λ q. and_then (validate_sources true q) validate_keywords)

    abbrev some_query : Query → Outcome (Option Query)
    some_query q = ok (some q)

    -- `WatchRuleUpdate`
    unfoldable pub validate_sources_if_present : Option Query → Outcome (Option Query)
    unfolding validate_known_keys validate_sources validate_keywords
    validate_sources_if_present none = ok none
    validate_sources_if_present (some v) =
        and_then (validate_known_keys true v) (λ q.
          and_then (validate_sources false q) (λ r. and_then (validate_keywords r) some_query))

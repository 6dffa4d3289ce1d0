-- ===== src/Ingest/Match.antt =====
-- app/services/ingest.py: `_rule_matches_listing` and `_watch_release_matches_listing`.
pub mod Meaning
pub mod Punctuation
use wax_watch_api.Prelude.{
  ℕ, ◌==◌, ltb, Option, none, some, Bool, true, false, not, ◌&&◌, ◌||◌, List, [], ◌∷◌, any, all,
  get_or, or_else, if◌then◌else◌,
}
use wax_watch_api.Prelude.Text.{
  Text, Unicode, codes, text_eq, text_key, strip, nonempty, is_in, truthy_text,
}
use wax_watch_api.Prelude.Int.{ℤ, pos, ltb_ℤ}
use wax_watch_api.Prelude.Dict.{Dict, get}
use wax_watch_api.Json.{Json, text, as_list, as_number, truthy}
use wax_watch_api.Models.{WatchSearchRule, WatchRelease, Listing, provider_value}
use wax_watch_api.WatchRules.Validate.{look, some_item}

-- `str(v)`, with Python's print of a value that is not text
abbrev pub str_of : (Json → Text) → Json → Text
str_of print (text s) = s
str_of print v = print v

abbrev pub item_list : Option (List Json) → List Json
item_list none = []
item_list (some vs) = vs

-- The list under a key; `[]` when there is none, or it is no list.
unfoldable pub list_of : Text → Dict Text Json → List Json
unfolding get
list_of k q = item_list (as_list (look k q))

abbrev truthy_json : Json → Option Json
truthy_json v = if truthy v then some v else none

abbrev pub price_allowed : Unicode → Option ℤ → Text → Listing → Bool
price_allowed u none currency l = true
price_allowed u (some max_price) currency l =
    if not (nonempty currency)
    then false
    else (if not (text_eq (u.upper (strip u l.currency)) currency)
        then false
        else not (ltb_ℤ max_price (pos l.price)))

module _ (u : Unicode) (print : Json → Text) where
  -- `[str(v).strip().lower() for v in vs if str(v).strip()]`
  unfoldable pub words : List Json → List Text
  unfolding strip
  words [] = []
  words (v ∷ vs) =
      let s = strip u (str_of print v) in if nonempty s then u.lower s ∷ words vs else words vs

  abbrev pub source_allowed : List Json → Listing → Bool
  source_allowed sources l =
      not (some_item sources) || any (text_eq (provider_value l.provider)) (words sources)

  -- `q.get("currency") or user_currency or "USD"`, as text
  abbrev pub raw_currency : Option Json → Option Text → Text
  raw_currency (some v) user = str_of print v
  raw_currency none (some c) = c
  raw_currency none none = codes "USD"

  unfoldable pub rule_currency : Dict Text Json → Option Text → Text
  unfolding get truthy strip
  rule_currency q user_currency =
      u.upper (
        strip u
          (raw_currency (truthy_json (look (codes "currency") q)) (truthy_text user_currency)))

  abbrev pub keywords_found : List Json → Text → Bool
  keywords_found keywords title =
      if some_item keywords
      then some_item (words keywords) && all (λ kw. is_in kw title) (words keywords)
      else true

  unfoldable pub rule_matches_listing : WatchSearchRule → Listing → Text → Option Text → Bool
  unfolding list_of words rule_currency is_in get
  rule_matches_listing rule l title user_currency =
      if not (source_allowed (list_of (codes "sources") rule.query) l)
      then false
      else (if not (
            price_allowed u (as_number (look (codes "max_price") rule.query))
              (rule_currency rule.query user_currency) l)
          then false
          else keywords_found (list_of (codes "keywords") rule.query) title)

abbrev same_id : Option ℕ → Option ℕ → Bool
same_id (some a) (some b) = a == b
same_id _ _ = false

unfoldable pub watch_release_matches_listing : WatchRelease → Listing → Bool
watch_release_matches_listing w l =
    if text_eq w.match_mode (codes "master_release")
    then same_id w.discogs_master_id l.discogs_master_id
    else same_id (some w.discogs_release_id) l.discogs_release_id

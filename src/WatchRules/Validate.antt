-- ===== src/WatchRules/Validate.antt =====
-- app/services/watch_rules.py: `_validate_rule_keywords` and `_validate_rule_query_defensive`.
use wax_watch_api.Prelude.{
  ltb, Option, none, some, Bool, true, false, not, ◌&&◌, List, [], ◌∷◌, get_or, if◌then◌else◌,
}
use wax_watch_api.Prelude.Text.{Text, Unicode, codes, text_key, strip, nonempty}
use wax_watch_api.Prelude.Int.{neg_part}
use wax_watch_api.Prelude.Dict.{Dict, get}
use wax_watch_api.Json.{Json, null, as_list, as_text, as_number, is_bool, is_null}
use wax_watch_api.Session.{Action, value_error, pure, raise, ◌>>◌, option_case}

-- `query.get(key)`: a missing key reads as null.
abbrev pub look : Text → Dict Text Json → Json
look k q = get_or (get k q) null

abbrev pub some_item {ℓ} : {A : Type ℓ} → List A → Bool
some_item [] = false
some_item (x ∷ xs) = true

abbrev pub validate_max_price : Json → Action (Unit {0})
validate_max_price max_price =
    if is_null max_price
    then pure tt
    else (if is_bool max_price
        then raise value_error
        else option_case (as_number max_price) (raise value_error)
            (λ n. if ltb 0 (neg_part n) then raise value_error else pure tt))

module _ (u : Unicode) where
  -- The word of an entry, unless it is not text or blank.
  abbrev pub word_of : Option Text → List Text
  word_of none = []
  word_of (some k) = if nonempty (strip u k) then u.lower (strip u k) ∷ [] else []

  abbrev onto {ℓ} : {A : Type ℓ} → List A → List A → List A
  onto [] ys = ys
  onto (x ∷ xs) ys = x ∷ onto xs ys

  unfoldable pub cleaned : List Json → List Text
  cleaned [] = []
  cleaned (k ∷ ks) = onto (word_of (as_text k)) (cleaned ks)

  abbrev pub validate_keyword_list : Option (List Json) → Action (Unit {0})
  validate_keyword_list none = raise value_error
  validate_keyword_list (some keywords) =
      if some_item keywords && not (some_item (cleaned keywords))
      then raise value_error
      else pure tt

  unfoldable pub validate_rule_keywords : Dict Text Json → Action (Unit {0})
  unfolding cleaned get
  validate_rule_keywords query =
      let keywords = look (codes "keywords") query in
      if is_null keywords then pure tt else validate_keyword_list (as_list keywords)

  unfoldable pub validate_rule_query_defensive : Dict Text Json → Action (Unit {0})
  unfolding validate_rule_keywords get
  validate_rule_query_defensive query = do
    validate_rule_keywords query
    validate_max_price (look (codes "max_price") query)

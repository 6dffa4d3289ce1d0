-- ===== src/WatchRules/Merge.antt =====
-- app/services/watch_rules.py: how `update_watch_rule` merges the query of an update into the
-- query of the rule.
use wax_watch_api.Prelude.{
  ◌≡◌, refl, ap, ◌∙◌, inl, inr, Bool-cases, Option, none, some, Bool, true, false, List, [], ◌∷◌,
  if◌then◌else◌,
}
use wax_watch_api.Prelude.Text.{Text, codes, text_key, text_eq, text_eq_iff}
use wax_watch_api.Prelude.Dict.{Dict, get, put, pop, get-put, get-pop}
use wax_watch_api.Json.{Json, is_null, as_list}
use wax_watch_api.WatchRules.Validate.{look, some_item}

abbrev pub set_or_drop : Text → Json → Dict Text Json → Dict Text Json
set_or_drop k v existing = if is_null v then pop k existing else put k v existing

unfoldable pub merge : Dict Text Json → Dict Text Json → Dict Text Json
unfolding put pop
merge existing [] = existing
merge existing ((k, v) ∷ query) = merge (set_or_drop k v existing) query

abbrev pub null_value : Option Json → Bool
null_value none = false
null_value (some v) = is_null v

-- `"sources" in query and query["sources"] is None`
unfoldable pub removes_sources : Dict Text Json → Bool
unfolding get
removes_sources query = null_value (get (codes "sources") query)

abbrev pub some_entry : Option (List Json) → Bool
some_entry none = false
some_entry (some vs) = some_item vs

-- `isinstance(sources, list) and sources`
unfoldable pub has_sources : Dict Text Json → Bool
unfolding get
has_sources query = some_entry (as_list (look (codes "sources") query))

-- Every key stands once, as in a Python dictionary.
unfoldable pub IsDict : Dict Text Json → Type 0
unfolding get
IsDict [] = Unit
IsDict ((k, v) ∷ q) = (get k q ≡ none) × IsDict q

-- What an update says of a key: nothing, that it goes, or its value.
abbrev pub updated_value : Option Json → Option Json → Option Json
updated_value none old = old
updated_value (some v) old = if is_null v then none else some v

get-set_or_drop :
    (j k : Text) (v : Json) (d : Dict Text Json)
    → get j (set_or_drop k v d)
      ≡ (if text_eq k j then (if is_null v then none else some v) else get j d)
get-set_or_drop j k v d =
    elim (is_null v)
      as (λ b.
        get j (if b then pop k d else put k v d)
        ≡ (if text_eq k j then (if b then none else some v) else get j d)) [
          | true ↦ get-pop j k d
          | false ↦ get-put j k v d
        ]

get-none_other :
    (k j : Text) (q : Dict Text Json) → get j q ≡ none → text_eq k j ≡ true → get k q ≡ none
get-none_other k j q h same = rw ((text_eq_iff k j).0 same) h

-- If the update holds every key once, the merged query holds, under every key, what the update
-- says of it (null removes the key), and what the rule had where the update says nothing.
pub get-merge :
    (k : Text) (existing query : Dict Text Json)
    → IsDict query
    → get k (merge existing query) ≡ updated_value (get k query) (get k existing)
unfolding merge get IsDict
get-merge k existing [] is = refl
get-merge k existing ((j, v) ∷ query) (fresh, is) =
    get-merge k (set_or_drop j v existing) query is
    ∙ ap (updated_value (get k query)) (get-set_or_drop k j v existing)
    ∙ elim (Bool-cases (text_eq j k)) [
      | inl same ↦ rw (same, ← (text_eq_iff j k).0 same, fresh) refl
      | inr other ↦ rw other refl
    ]

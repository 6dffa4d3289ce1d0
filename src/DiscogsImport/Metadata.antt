-- ===== src/DiscogsImport/Metadata.antt =====
-- app/services/discogs_import.py: what is read from the metadata of a token.
use wax_watch_api.Prelude.{
  ℕ, ◌+◌, ◌-◌, ◌*◌, ◌==◌, Option, none, some, Bool, List, [], ◌∷◌, map, keep, get_or, if◌then◌else◌,
}
use wax_watch_api.Prelude.Text.{text_key, Text, codes, nonempty, strip, Unicode}
use wax_watch_api.Prelude.Text.Words.{split}
use wax_watch_api.Prelude.Int.{ℤ, pos_part, neg_part}
use wax_watch_api.Prelude.Dict.{Dict, get}
use wax_watch_api.Json.{Json, null, as_text, as_list, as_number, truthy}
use wax_watch_api.Session.{Outcome, ok, raised, value_error}
use wax_watch_api.Ingest.Match.{str_of}
use wax_watch_api.DiscogsImport.{Discogs, TokenPayload}

-- `xs or ...` for a list that may be missing
abbrev pub truthy_list {ℓ} : {A : Type ℓ} → Option (List A) → Option (List A)
truthy_list none = none
truthy_list (some []) = none
truthy_list (some (x ∷ xs)) = some (x ∷ xs)

-- `d.get(k)`, with `None` for a missing key
unfoldable pub value_of : Text → Dict Text Json → Json
unfolding get
value_of k d = get_or (get k d) null

-- `a or b`
abbrev pub json_or : Json → Json → Json
json_or a b = if truthy a then a else b

-- `_split_scope_string`
unfoldable pub split_scope_string : Option Text → List Text
unfolding split
split_scope_string none = []
split_scope_string (some scope) = split (λ c. c == b' ') scope

-- `normalized or None`
abbrev pub text_or_none : Text → Option Text
text_or_none [] = none
text_or_none (c ∷ s) = some (c ∷ s)

abbrev pub expiry_keys : List Text
expiry_keys = codes "access_token_expires_at" ∷ codes "expires_at" ∷ []

-- `now + timedelta(seconds=...)`
abbrev pub seconds_after : ℕ → ℤ → ℕ
seconds_after now n = now + pos_part n * 100 - neg_part n * 100

module _ (u : Unicode) (d : Discogs) where
  abbrev is_scope : Json → Bool
  is_scope v = nonempty (strip u (str_of d.print v))

  abbrev scopes_of_text : Option Text → Option (List Text)
  scopes_of_text none = none
  scopes_of_text (some scope) = some (split_scope_string (some scope))

  abbrev scopes_of : Option (List Json) → Option Text → Option Text → Option (List Text)
  scopes_of (some vs) texts scope = some (map (str_of d.print) (keep is_scope vs))
  scopes_of none (some scopes) scope = some (split_scope_string (some scopes))
  scopes_of none none scope = scopes_of_text scope

  -- `_metadata_scopes`
  unfoldable pub metadata_scopes : Option (Dict Text Json) → Option (List Text)
  unfolding value_of split_scope_string strip truthy
  metadata_scopes none = none
  metadata_scopes (some []) = none
  metadata_scopes (some (e ∷ m)) =
      let scopes =
        json_or (value_of (codes "oauth_scopes") (e ∷ m)) (value_of (codes "scopes") (e ∷ m)) in
      scopes_of (as_list scopes) (as_text scopes) (as_text (value_of (codes "scope") (e ∷ m)))

  abbrev stripped : Json → Option Text
  stripped null = none
  stripped v = text_or_none (strip u (str_of d.print v))

  -- `_metadata_string`
  unfoldable pub metadata_string : Option (Dict Text Json) → Text → Option Text
  unfolding value_of strip
  metadata_string none key = none
  metadata_string (some m) key = stripped (value_of key m)

  abbrev from_number : ℤ → Outcome (Option ℕ)
  from_number n = elim (d.fromtimestamp n) [ none ↦ raised value_error | some at ↦ ok (some at) ]

  -- One value: a time, an error, or nothing, and then the next key is read.
  unfoldable pub datetime_of : Json → Outcome (Option ℕ)
  unfolding strip truthy
  datetime_of v =
      if truthy v
      then elim (as_number v) [
        | some n ↦ from_number n
        | none ↦ elim (as_text v) [
          | some s ↦
              ok (elim (text_or_none (strip u s)) [ none ↦ none | some c ↦ d.fromisoformat c ])
          | none ↦ ok none
        ]
      ]
      else ok none

  abbrev pub or_next : Outcome (Option ℕ) → Outcome (Option ℕ) → Outcome (Option ℕ)
  or_next (raised e) rest = raised e
  or_next (ok (some at)) rest = ok (some at)
  or_next (ok none) rest = rest

  -- `_metadata_datetime`; JSON holds no `datetime`.
  unfoldable pub metadata_datetime : Option (Dict Text Json) → List Text → Outcome (Option ℕ)
  unfolding value_of datetime_of
  metadata_datetime none keys = ok none
  metadata_datetime (some m) [] = ok none
  metadata_datetime (some m) (k ∷ ks) =
      or_next (datetime_of (value_of k m)) (metadata_datetime (some m) ks)

  -- `_expires_at_from_token_payload`, at the time that the clock shows
  unfoldable pub expires_at_from_token_payload : TokenPayload → ℕ → Outcome (Option ℕ)
  unfolding datetime_of
  expires_at_from_token_payload p now = elim (as_number (get_or p.expires_in null)) [
    | some n ↦ ok (some (seconds_after now n))
    | none ↦
        or_next (datetime_of (get_or p.access_token_expires_at null))
          (datetime_of (get_or p.expires_at null))
  ]

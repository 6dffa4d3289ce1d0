-- ===== src/Search/Schema.antt =====
-- app/schemas/search.py: `SearchQuery`, with its validators, and `SearchPagination`.
use wax_watch_api.Prelude.{
  ℕ, ◌+◌, ◌-◌, ◌/◌, ◌==◌, ltb, leb, Option, none, some, Bool, true, not, ◌&&◌, length, List, [],
  ◌∷◌, keep, if◌then◌else◌,
}
use wax_watch_api.Prelude.Text.{Text, text_eq, strip, nonempty, Unicode}
use wax_watch_api.Models.{Provider}
use wax_watch_api.Session.{Outcome, ok, raised, value_error}
use wax_watch_api.Ingest.Listings.{provider_of}
use wax_watch_api.Runner.Registry.{
  ProviderRegistration, RegistrySettings, and_then, get_provider_registration,
}

pub record SearchQuery : Type 0 where
  pub keywords : List Text
  pub providers : Option (List Text)
  pub min_price : Option ℕ
  pub max_price : Option ℕ
  pub min_condition : Option Text
  pub page : ℕ
  pub page_size : ℕ

abbrev sized : Option Text → Bool
sized none = true
sized (some condition) = leb 1 (length condition) && leb (length condition) 30

-- The bounds of the fields; prices are not negative as they are.
unfoldable pub within_bounds : SearchQuery → Bool
within_bounds query =
    leb 1 query.page
    && leb 1 query.page_size
    && leb query.page_size 100
    && sized query.min_condition

-- `list(dict.fromkeys(names))`
unfoldable pub deduped : List Text → List Text
deduped [] = []
deduped (name ∷ names) = name ∷ keep (λ s. not (text_eq s name)) (deduped names)

-- `if not cleaned: raise ...`, and the names once each
abbrev pub some_named : List Text → Outcome (Option (List Text))
some_named [] = raised value_error
some_named (name ∷ names) = ok (some (deduped (name ∷ names)))

abbrev pub and_named : Text → Outcome (List Text) → Outcome (List Text)
and_named key (ok names) = ok (key ∷ names)
and_named key (raised e) = raised e

abbrev pub if_registered :
    Text → Outcome ProviderRegistration → Outcome (List Text) → Outcome (List Text)
if_registered key (ok r) rest = and_named key rest
if_registered key (raised e) rest = raised value_error

abbrev pub if_known :
    Text
    → Option Provider
    → Outcome ProviderRegistration
    → Outcome (List Text)
    → Outcome (List Text)
if_known key none registration rest = raised value_error
if_known key (some p) registration rest = if_registered key registration rest

module _ (u : Unicode) (registry : RegistrySettings) where
  -- A key is checked before those after it are; every error is a `ValueError`.
  unfoldable pub clean_providers : List Text → Outcome (List Text)
  unfolding strip provider_of get_provider_registration
  clean_providers [] = ok []
  clean_providers (name ∷ names) =
      let key = u.lower (strip u name) in
      let rest = clean_providers names in
      if not (nonempty key)
      then rest
      else if_known key (provider_of key) (get_provider_registration u registry (some key)) rest

  unfoldable pub validate_providers : Option (List Text) → Outcome (Option (List Text))
  unfolding clean_providers deduped
  validate_providers none = ok none
  validate_providers (some names) = and_then (clean_providers names) some_named

-- `value` is the `max_price`.
unfoldable pub validate_price_range : (min_price value : Option ℕ) → Outcome (Option ℕ)
validate_price_range (some least) (some value) =
    if ltb value least then raised value_error else ok (some value)
validate_price_range none value = ok value
validate_price_range (some least) none = ok none

pub record SearchPagination : Type 0 where
  pub page : ℕ
  pub page_size : ℕ
  pub total : ℕ
  pub returned : ℕ
  pub total_pages : ℕ
  pub has_next : Bool

-- `math.ceil(total / page_size) if total else 0`; `page_size` is at least 1.
abbrev page_count : (page_size total : ℕ) → ℕ
page_count page_size total = if total == 0 then 0 else (total + (page_size - 1)) / page_size

-- `SearchPagination.build`
unfoldable pub build : (page page_size total returned : ℕ) → SearchPagination
build page page_size total returned = record {
  page = page;
  page_size = page_size;
  total = total;
  returned = returned;
  total_pages = page_count page_size total;
  has_next = ltb page (page_count page_size total);
}

-- ===== src/Search/Contents.antt =====
-- app/services/search.py: what stands on a page of results.
use wax_watch_api.Prelude.{
  ℕ, suc, ◌+◌, ◌-◌, ◌*◌, ◌/◌, ◌≤◌, ◌<◌, min, ◌≡◌, refl, ap, ◌∙◌, ◌↔◌, Option, none, some, true,
  false, List, [], ◌∷◌, map, keep, take, drop, length, All, All-drop, All-take, length-drop,
  length-take, ltb→lt, lt→ltb, ◌==◌, arith, inl, inr, Bool-cases, if◌then◌else◌,
}
use mathlib.Core.List.{Perm}
use native.Mathlib.Nat.{le-div_iff_mul-le}
use wax_watch_api.Prelude.Text.{Text, Unicode}
use wax_watch_api.Prelude.Sort.{sort_by-All}
use wax_watch_api.Prelude.Dict.{Dict}
use wax_watch_api.Ingest.Listings.{Payload}
use wax_watch_api.Search.Schema.{SearchQuery, within_bounds, build}
use wax_watch_api.Search.{SearchListingOut, to_listing_out, SearchResponse, outs}
use wax_watch_api.Search.Filter.{
  SortKey, item_key, condition_meets_minimum, is_below, is_above, passes_filters, items_in_order,
  sort_items, page_items,
}
use wax_watch_api.Search.Ascending.{IsAscending}
use wax_watch_api.Search.Answers.{AreAnswers, AreThose}
use wax_watch_api.Runner.Registry.{RegistrySettings}

-- At least the minimum, and at most the maximum, as far as they are given.
abbrev IsAtLeast : ℕ → Option ℕ → Type 0
IsAtLeast price none = Unit
IsAtLeast price (some least) = least ≤ price

abbrev IsAtMost : ℕ → Option ℕ → Type 0
IsAtMost price none = Unit
IsAtMost price (some most) = price ≤ most

abbrev pub Fits : Unicode → SearchQuery → (price : ℕ) → Option Text → Type 0
Fits u query price condition =
    IsAtLeast price query.min_price
    × IsAtMost price query.max_price
    × (condition_meets_minimum u condition query.min_condition ≡ true)

abbrev pub out_key : SearchListingOut → SortKey
out_key o = (o.price, (o.provider, o.external_id))

-- What a response to a query promises: the listings that the providers brought are `brought`; of
-- them those that fit the query are `fitting`; they are shown by page in the order `ordered`.
pub record IsPage (u : Unicode) (registry : RegistrySettings) (query : SearchQuery)
    (names : List Text) (out : SearchResponse) : Type 0 where
  pub brought : List Payload
  pub answers : AreAnswers u registry query names brought
  pub fitting : List Payload
  pub those : AreThose (λ (i : Payload). Fits u query i.price i.condition) brought fitting
  pub total : out.pagination.total ≡ length fitting
  pub ordered : List Payload
  pub same : Perm ordered fitting
  pub ascending : IsAscending (map item_key ordered)
  pub shown :
      map out_key out.items
      ≡ map item_key (take query.page_size (drop ((query.page - 1) * query.page_size) ordered))
  pub fit : All (λ (o : SearchListingOut). Fits u query o.price o.condition) out.items
  pub tallied : out.pagination.returned ≡ length out.items
  pub filled :
      length out.items
      ≡ min query.page_size (out.pagination.total - (query.page - 1) * query.page_size)
  pub has_next :
      (out.pagination.has_next ≡ true) ↔ (query.page * query.page_size < out.pagination.total)
  pub searched : out.providers_searched ≡ names

pub passed-Fits :
    (u : Unicode) (query : SearchQuery) (i : Payload)
    → passes_filters u query i ≡ true
    → Fits u query i.price i.condition
unfolding passes_filters
passed-Fits u query i h = split query.min_price query.max_price h
  where
    split :
        (low high : Option ℕ)
        → (if is_below i.price low
            then false
            else if is_above i.price high
            then false
            else condition_meets_minimum u i.condition query.min_condition)
          ≡ true
        → IsAtLeast i.price low
          × IsAtMost i.price high
          × (condition_meets_minimum u i.condition query.min_condition ≡ true)
    split none none h = (tt, tt, h)
    split none (some most) h = ground (arith, h)
    split (some least) none h = ground (arith, h)
    split (some least) (some most) h = ground (arith, h)

pub refused-Fits :
    (u : Unicode) (query : SearchQuery) (i : Payload)
    → passes_filters u query i ≡ false
    → ¬ Fits u query i.price i.condition
unfolding passes_filters
refused-Fits u query i h (low, high, graded) = split query.min_price query.max_price h low high
  where
    split :
        (least most : Option ℕ)
        → (if is_below i.price least
            then false
            else if is_above i.price most
            then false
            else condition_meets_minimum u i.condition query.min_condition)
          ≡ false
        → IsAtLeast i.price least
        → IsAtMost i.price most
        → ⊥
    split none none h low high = ground (arith, h, graded)
    split none (some most) h low high = ground (arith, h, graded, high)
    split (some least) none h low high = ground (arith, h, graded, low)
    split (some least) (some most) h low high = ground (arith, h, graded, low, high)

pub kept-Fits :
    (u : Unicode) (query : SearchQuery) (items : List Payload)
    → All (λ (i : Payload). Fits u query i.price i.condition) (keep (passes_filters u query) items)
kept-Fits u query [] = tt
kept-Fits u query (i ∷ items) =
    elim (passes_filters u query i)
        as (λ b.
          passes_filters u query i ≡ b
          → All (λ (j : Payload). Fits u query j.price j.condition)
              (if b
                then i ∷ keep (passes_filters u query) items
                else keep (passes_filters u query) items)) [
                  | true ↦ (λ e. (passed-Fits u query i e, kept-Fits u query items))
                  | false ↦ (λ e. kept-Fits u query items)
                ]
      refl

pub page-All :
    (P : Payload → Type 0) (query : SearchQuery) (items : List Payload)
    → All P items
    → All P (page_items query (sort_items items))
unfolding page_items sort_items
page-All P query items h =
    All-take P query.page_size _
      (All-drop P ((query.page - 1) * query.page_size) _ (sort_by-All items_in_order P items h))

pub length-page :
    (query : SearchQuery) (items : List Payload)
    → length (page_items query items)
      ≡ min query.page_size (length items - (query.page - 1) * query.page_size)
unfolding page_items
length-page query items =
    length-take query.page_size (drop ((query.page - 1) * query.page_size) items)
    ∙ ap (min query.page_size) (length-drop ((query.page - 1) * query.page_size) items)

module _ (ids : Dict (Text × Text) ℕ) where
  pub length-outs : (items : List Payload) → length (outs ids items) ≡ length items
  length-outs [] = refl
  length-outs (i ∷ items) = omega (arith, length-outs items)

  pub keys-outs : (items : List Payload) → map out_key (outs ids items) ≡ map item_key items
  unfolding to_listing_out
  keys-outs [] = refl
  keys-outs (i ∷ items) = ap (λ ks. item_key i ∷ ks) (keys-outs items)

  pub outs-Fits :
      (u : Unicode) (query : SearchQuery) (items : List Payload)
      → All (λ (i : Payload). Fits u query i.price i.condition) items
      → All (λ (o : SearchListingOut). Fits u query o.price o.condition) (outs ids items)
  unfolding to_listing_out
  outs-Fits u query [] h = tt
  outs-Fits u query (i ∷ items) (h, hs) = (h, outs-Fits u query items hs)

-- The pages before the last one are full.
pages_iff :
    (page page_size total : ℕ)
    → 1 ≤ page_size
    → (page < (if total == 0 then 0 else (total + (page_size - 1)) / page_size))
      ↔ (page * page_size < total)
pages_iff page page_size total positive = elim (Bool-cases (total == 0)) [
  | inl none_at_all ↦ rw none_at_all (λ h. omega (arith, h), λ h. ground (arith, h, none_at_all))
  | inr some_at_least ↦
      let whole =
        le-div_iff_mul-le {k = page_size} {x = suc page} {y = total + (page_size - 1)} positive in
      rw some_at_least (
        λ h. let full = whole.0 h in omega (arith, full, positive),
        λ h. whole.1 (omega (arith, h, positive)),
      )
]

pub built-has_next :
    (page page_size total returned : ℕ)
    → 1 ≤ page_size
    → ((build page page_size total returned).has_next ≡ true) ↔ (page * page_size < total)
unfolding build
built-has_next page page_size total returned positive =
    let whole = pages_iff page page_size total positive in
    (λ h. whole.0 (ltb→lt page _ h), λ h. lt→ltb page _ (whole.1 h))

pub bounded-positive : (query : SearchQuery) → within_bounds query ≡ true → 1 ≤ query.page_size
unfolding within_bounds
bounded-positive query h = ground (arith, h)

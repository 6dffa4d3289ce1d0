-- ===== src/Search/Filter.antt =====
-- app/services/search.py: the filters of a search, the order of its results, and their page.
use wax_watch_api.Prelude.{
  ℕ, ◌-◌, ◌*◌, ◌==◌, ltb, leb, Option, none, some, Bool, true, false, ◌&&◌, ◌||◌, List, [], ◌∷◌,
  take, drop, if◌then◌else◌,
}
use wax_watch_api.Prelude.Text.{Text, codes, text_eq, text_key, strip, Unicode}
use wax_watch_api.Prelude.Sort.{sort_by}
use wax_watch_api.Prelude.Dict.{Dict, get}
use wax_watch_api.Ingest.Listings.{Payload}
use wax_watch_api.Mapping.Tokens.{precedes}
use wax_watch_api.Search.Schema.{SearchQuery}

abbrev condition_rank : Dict Text ℕ
condition_rank =
    (codes "poor", 1)
    ∷ (codes "fair", 2)
    ∷ (codes "g", 3)
    ∷ (codes "g+", 4)
    ∷ (codes "vg", 5)
    ∷ (codes "vg+", 6)
    ∷ (codes "nm", 7)
    ∷ (codes "m", 8)
    ∷ []

-- `_CONDITION_RANK.get(condition.strip().lower())`
unfoldable pub rank_of : Unicode → Text → Option ℕ
unfolding get strip
rank_of u condition = get (u.lower (strip u condition)) condition_rank

abbrev reaches : ℕ → Option ℕ → Bool
reaches minimum none = false
reaches minimum (some rank) = leb minimum rank

abbrev graded : Unicode → ℕ → Option Text → Bool
graded u minimum none = false
graded u minimum (some condition) = reaches minimum (rank_of u condition)

-- `_condition_meets_minimum`
unfoldable pub condition_meets_minimum : Unicode → Option Text → Option Text → Bool
unfolding rank_of
condition_meets_minimum u condition none = true
condition_meets_minimum u condition (some minimum) = elim (rank_of u minimum) [
  | none ↦ true
  | some rank ↦ graded u rank condition
]

abbrev pub is_below : ℕ → Option ℕ → Bool
is_below price none = false
is_below price (some least) = ltb price least

abbrev pub is_above : ℕ → Option ℕ → Bool
is_above price none = false
is_above price (some most) = ltb most price

-- `_passes_filters`
unfoldable pub passes_filters : Unicode → SearchQuery → Payload → Bool
unfolding condition_meets_minimum
passes_filters u query item =
    if is_below item.price query.min_price
    then false
    else if is_above item.price query.max_price
    then false
    else condition_meets_minimum u item.condition query.min_condition

-- `(item.price, item.provider, item.external_id)`
abbrev pub SortKey : Type 0
SortKey = ℕ × (Text × Text)

abbrev pub item_key : Payload → SortKey
item_key item = (item.price, (item.provider, item.external_id))

-- The comparison of tuples: `a <= b`.
unfoldable pub in_order : SortKey → SortKey → Bool
unfolding precedes text_eq
in_order (price, (provider, id)) (price', (provider', id')) =
    ltb price price'
    || (price == price'
        && (if text_eq provider provider' then precedes id id' else precedes provider provider'))

abbrev pub items_in_order : Payload → Payload → Bool
items_in_order a b = in_order (item_key a) (item_key b)

-- `filtered.sort(key=...)`
unfoldable pub sort_items : List Payload → List Payload
unfolding sort_by in_order
sort_items = sort_by items_in_order

-- `filtered[start:end]`; `page` is at least 1.
unfoldable pub page_items : SearchQuery → List Payload → List Payload
page_items query items = take query.page_size (drop ((query.page - 1) * query.page_size) items)

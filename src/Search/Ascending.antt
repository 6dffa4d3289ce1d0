-- ===== src/Search/Ascending.antt =====
-- app/services/search.py: the order of the results.
use wax_watch_api.Prelude.{map, ◌≡◌, refl, true, false, List, [], ◌∷◌, arith}
use wax_watch_api.Prelude.Text.{Text, text_eq, text_eq_iff}
use wax_watch_api.Ingest.Listings.{Payload}
use wax_watch_api.Mapping.Tokens.{precedes}
use wax_watch_api.Prelude.Sort.{IsSortedBy, sort_by-IsSortedBy, IsSortedBy-map}
use wax_watch_api.Search.Filter.{SortKey, item_key, in_order, items_in_order, sort_items}

precedes_total : (s t : Text) → precedes s t ≡ false → precedes t s ≡ true
unfolding precedes
precedes_total [] t h = ground arith
precedes_total (a ∷ s) [] h = refl
precedes_total (a ∷ s) (b ∷ t) h = ground (arith, h, precedes_total s t)

precedes_trans : (s t u : Text) → precedes s t ≡ true → precedes t u ≡ true → precedes s u ≡ true
unfolding precedes
precedes_trans [] t u h k = refl
precedes_trans (a ∷ s) [] u h k = ground arith
precedes_trans (a ∷ s) (b ∷ t) [] h k = ground arith
precedes_trans (a ∷ s) (b ∷ t) (c ∷ u) h k = ground (arith, h, k, precedes_trans s t u)

precedes_antisym : (s t : Text) → precedes s t ≡ true → precedes t s ≡ true → text_eq s t ≡ true
unfolding precedes text_eq
precedes_antisym [] [] h k = refl
precedes_antisym [] (b ∷ t) h k = ground arith
precedes_antisym (a ∷ s) [] h k = ground arith
precedes_antisym (a ∷ s) (b ∷ t) h k = ground (arith, h, k, precedes_antisym s t)

in_order_total : (a b : SortKey) → in_order a b ≡ false → in_order b a ≡ true
unfolding in_order
in_order_total (m, (p, x)) (n, (q, y)) h =
    ground (arith, h, precedes_total p q, precedes_total x y, text_eq_iff p q, text_eq_iff q p)

in_order_trans : (a b c : SortKey) → in_order a b ≡ true → in_order b c ≡ true → in_order a c ≡ true
unfolding in_order
in_order_trans (m, (p, x)) (n, (q, y)) (k, (r, z)) h l = ground (
  arith,
  h,
  l,
  precedes_trans p q r,
  precedes_trans x y z,
  precedes_antisym p q,
  text_eq_iff p q,
  text_eq_iff q r,
  text_eq_iff p r,
)

-- Every key is in order with each later one.
abbrev pub IsAscending : List SortKey → Type 0
IsAscending = IsSortedBy in_order

sorted : (items : List Payload) → IsSortedBy items_in_order (sort_items items)
unfolding sort_items
sorted items =
    sort_by-IsSortedBy items_in_order (λ a b. in_order_total (item_key a) (item_key b))
      (λ a b c. in_order_trans (item_key a) (item_key b) (item_key c)) items

pub sort_items-IsAscending : (items : List Payload) → IsAscending (map item_key (sort_items items))
sort_items-IsAscending items = IsSortedBy-map in_order item_key (sort_items items) (sorted items)

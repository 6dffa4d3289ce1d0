-- ===== src/Search/Answers.antt =====
-- app/services/search.py: what the providers answer, and which of it belongs to a result.
use mathlib.Core.List.{Perm}
use mathlib.Core.List.Perm
use wax_watch_api.Prelude.{
  ℕ, ◌*◌, ◌≡◌, sym, subst, inl, inr, some, Bool, true, false, List, [], ◌∷◌, ◌++◌, append-nil, keep,
  length, Bool-cases,
}
use wax_watch_api.Prelude.Sort.{sort_by, insert_by, length-sort_by}
use wax_watch_api.Prelude.Text.{Text, Unicode}
use wax_watch_api.Session.{ok}
use wax_watch_api.Ingest.Listings.{Payload}
use wax_watch_api.Runner.{Searched, found, refused, crashed, ProviderClient}
use wax_watch_api.Runner.Registry.{RegistrySettings, get_provider_class}
use wax_watch_api.Runner.Requests.{listings_of}
use wax_watch_api.Search.Schema.{SearchQuery}
use wax_watch_api.Search.{provider_query}
use wax_watch_api.Search.Filter.{items_in_order, sort_items}

-- The listings that the providers of these names brought, in the order of the names: the client
-- that the registry has under a name answered one search of the query with them, or failed.
pub data AreAnswers (u : Unicode) (registry : RegistrySettings) (query : SearchQuery)
    : List Text → List Payload → Type 0 where
  none_asked : AreAnswers u registry query [] []
  brought :
      {names : List Text} {before ls : List Payload} (name : Text) (c : ProviderClient) (n : ℕ)
      → AreAnswers u registry query names before
      → get_provider_class u registry (some name) ≡ ok c
      → (c.search n (provider_query query) (query.page * query.page_size)).result ≡ found ls
      → AreAnswers u registry query (names ++ name ∷ []) (before ++ ls)
  failed :
      {names : List Text} {before : List Payload} (name : Text) (c : ProviderClient) (n : ℕ)
      → AreAnswers u registry query names before
      → get_provider_class u registry (some name) ≡ ok c
      → ((ls : List Payload)
          → (c.search n (provider_query query) (query.page * query.page_size)).result ≡ found ls
          → ⊥)
      → AreAnswers u registry query (names ++ name ∷ []) before

module _ (u : Unicode) (registry : RegistrySettings) (query : SearchQuery) where
  pub one_answer :
      {names : List Text} {before : List Payload} (name : Text) (c : ProviderClient) (n : ℕ)
      (answer : Searched)
      → AreAnswers u registry query names before
      → get_provider_class u registry (some name) ≡ ok c
      → (c.search n (provider_query query) (query.page * query.page_size)).result ≡ answer
      → AreAnswers u registry query (names ++ name ∷ []) (before ++ listings_of answer)
  one_answer name c n (found ls) so_far class e = brought name c n so_far class e
  one_answer {names} {before} name c n (refused error) so_far class e =
      subst (AreAnswers u registry query (names ++ name ∷ [])) (sym (append-nil before))
        (failed name c n so_far class (λ ls h. cc (e, h)))
  one_answer {names} {before} name c n (crashed message class_name) so_far class e =
      subst (AreAnswers u registry query (names ++ name ∷ [])) (sym (append-nil before))
        (failed name c n so_far class (λ ls h. cc (e, h)))

-- The elements with a property, in their order.
pub data AreThose {A : Type 0} (P : A → Type 0) : List A → List A → Type 0 where
  no_one : AreThose P [] []
  chosen : {a : A} {xs ys : List A} → P a → AreThose P xs ys → AreThose P (a ∷ xs) (a ∷ ys)
  left_out : {a : A} {xs ys : List A} → ¬ P a → AreThose P xs ys → AreThose P (a ∷ xs) ys

pub keep-AreThose :
    {A : Type 0} {P : A → Type 0} (p : A → Bool)
    → ((a : A) → p a ≡ true → P a)
    → ((a : A) → p a ≡ false → ¬ P a)
    → (xs : List A) → AreThose P xs (keep p xs)
keep-AreThose p sound complete [] = no_one
keep-AreThose p sound complete (a ∷ xs) = elim (Bool-cases (p a)) [
  | inl holds ↦ rw holds (chosen (sound a holds) (keep-AreThose p sound complete xs))
  | inr fails ↦ rw fails (left_out (complete a fails) (keep-AreThose p sound complete xs))
]

insert_by-Perm : (a : Payload) (bs : List Payload) → Perm (insert_by items_in_order a bs) (a ∷ bs)
unfolding insert_by
insert_by-Perm a [] = Perm.rfl
insert_by-Perm a (b ∷ bs) = elim (Bool-cases (items_in_order a b)) [
  | inl before ↦ rw before Perm.rfl
  | inr after ↦ rw after (Perm.trans (Perm.cons b (insert_by-Perm a bs)) (Perm.swap a b bs))
]

-- The sorted listings are the same ones.
pub sorted-Perm : (items : List Payload) → Perm (sort_items items) items
unfolding sort_items sort_by
sorted-Perm [] = Perm.rfl
sorted-Perm (b ∷ bs) = Perm.trans (insert_by-Perm b (sort_items bs)) (Perm.cons b (sorted-Perm bs))

pub length-sorted : (items : List Payload) → length (sort_items items) ≡ length items
unfolding sort_items
length-sorted items = length-sort_by items_in_order items

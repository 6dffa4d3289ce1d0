-- ===== src/Paging/Join.antt =====
-- app/api/pagination.py: pages that are read by cursor, one after another.
use wax_watch_api.Prelude.{
  ℕ, zero, suc, ◌+◌, ◌≡◌, refl, ap, ◌∙◌, sym, inl, inr, Option, none, some, or_else, get_or, subst,
  true, List, [], ◌∷◌, ◌++◌, keep, take, drop, All, Option-cases, arith,
}
use wax_watch_api.Models.{WatchSearchRule, WatchRelease}
use wax_watch_api.Paging.{
  Stamp, older, Page, order_by, page_of, rule_stamp, release_stamp, rules_of_user, releases_of_user,
  list_watch_rules, list_watch_releases,
}
use wax_watch_api.Paging.Order.{
  older_asym, older_irrefl, IsDescending, IsDistinct, order_by-IsDescending,
}

abbrev pub last_of : {A : Type 0} → List A → Option A
last_of [] = none
last_of (x ∷ xs) = or_else (last_of xs) (some x)

abbrev pub first_page : ℕ → Page
first_page limit = record { limit = limit; offset = 0; cursor_created_at = none; cursor_id = none }

abbrev pub page_after : ℕ → Stamp → Page
page_after limit cursor = record {
  limit = limit;
  offset = 0;
  cursor_created_at = some cursor.0;
  cursor_id = some cursor.1;
}

take-nil : {A : Type 0} (n : ℕ) → take {A = A} n [] ≡ []
take-nil zero = refl
take-nil (suc n) = refl

take-append-drop :
    {A : Type 0} (m n : ℕ) (xs : List A) → take m xs ++ take n (drop m xs) ≡ take (m + n) xs
take-append-drop zero n xs = ap (λ (k : ℕ). take k xs) (omega arith)
take-append-drop (suc m) n [] = take-nil n ∙ sym (take-nil (suc m + n))
take-append-drop (suc m) n (x ∷ xs) =
    let shift : suc (m + n) ≡ suc m + n = omega arith in
    ap (◌∷◌ x) (take-append-drop m n xs) ∙ ap (λ (k : ℕ). take k (x ∷ xs)) shift

some_injective : {A : Type 0} {a b : A} → some a ≡ some b → a ≡ b
some_injective {A} {a} e = ap (λ o. get_or o a) e

some_last : {A : Type 0} (o : Option A) (x : A) → or_else o (some x) ≡ none → ⊥
some_last none x h = cc
some_last (some y) x h = cc

no_last : {A : Type 0} {r : A} → none ≡ some r → ⊥
no_last h = cc

last_of-none : {A : Type 0} (n : ℕ) (xs : List A) → last_of (take n xs) ≡ none → drop n xs ≡ xs
last_of-none zero xs e = refl
last_of-none (suc n) [] e = refl
last_of-none (suc n) (x ∷ xs) e = absurd (some_last (last_of (take n xs)) x e)

module _ {A : Type 0} (stamp : A → Stamp) where
  keep-All :
      (r : A) (rows : List A)
      → All (λ s. older (stamp s) (stamp r) ≡ true) rows
      → keep (λ s. older (stamp s) (stamp r)) rows ≡ rows
  keep-All r [] h = refl
  keep-All r (s ∷ rows) (p, h) = rw p (ap (◌∷◌ s) (keep-All r rows h))

  last_older :
      (P : A → Type 0) (n : ℕ) (rows : List A) {r : A}
      → All P rows
      → last_of (take n rows) ≡ some r
      → P r
  last_older P zero rows h e = absurd (no_last e)
  last_older P (suc n) [] h e = absurd (no_last e)
  last_older P (suc n) (s ∷ rows) {r} (p, h) e = elim (Option-cases (last_of (take n rows))) [
    | inl nothing ↦ subst P (some_injective (rw nothing at e)) p
    | inr (t, found) ↦ last_older P n rows h (found ∙ (rw found at e))
  ]

  keep_after :
      (n : ℕ) (rows : List A) {r : A}
      → IsDescending stamp rows
      → last_of (take n rows) ≡ some r
      → keep (λ s. older (stamp s) (stamp r)) rows ≡ drop n rows
  keep_after zero rows {r} d e = absurd (no_last e)
  keep_after (suc n) [] d e = refl
  keep_after (suc n) (s ∷ rows) {r} (olds, d) e = elim (Option-cases (last_of (take n rows))) [
    | inl nothing ↦
        let same = some_injective (rw nothing at e) in
        subst (λ x. keep (λ t. older (stamp t) (stamp x)) (s ∷ rows) ≡ drop n rows) same
          (rw older_irrefl (keep-All s rows olds ∙ sym (last_of-none n rows nothing)))
    | inr (t, found) ↦
        let last = found ∙ (rw found at e) in
        let below = last_older (λ x. older (stamp x) (stamp s) ≡ true) n rows olds last in
        rw (older_asym (stamp r) (stamp s) below) (keep_after n rows d last)
  ]

  pages_joined :
      (limit more : ℕ) (rows : List A) {r : A}
      → IsDistinct stamp rows
      → last_of (page_of stamp (first_page limit) rows) ≡ some r
      → page_of stamp (first_page limit) rows ++ page_of stamp (page_after more (stamp r)) rows
        ≡ page_of stamp (first_page (limit + more)) rows
  unfolding page_of
  pages_joined limit more rows d e =
      let sorted = order_by-IsDescending stamp rows d in
      rw (keep_after limit (order_by stamp rows) sorted e)
        (take-append-drop limit more (order_by stamp rows))

-- If the rules of a user have distinct identifiers: a page, and the page that begins at the cursor
-- of its last rule, are together the page of both lengths; no rule is shown twice or left out.
pub list_watch_rules-join :
    (user_id limit more : ℕ) (rows : List WatchSearchRule) (r : WatchSearchRule)
    → IsDistinct rule_stamp (rules_of_user user_id rows)
    → last_of (list_watch_rules user_id (first_page limit) rows) ≡ some r
    → list_watch_rules user_id (first_page limit) rows
        ++ list_watch_rules user_id (page_after more (rule_stamp r)) rows
      ≡ list_watch_rules user_id (first_page (limit + more)) rows
unfolding list_watch_rules
list_watch_rules-join user_id limit more rows r d e =
    pages_joined rule_stamp limit more (rules_of_user user_id rows) d e

-- If the watches of a user have distinct identifiers: a page, and the page that begins at the
-- cursor of its last watch, are together the page of both lengths; none is shown twice or left out.
list_watch_releases-join :
    (user_id limit more : ℕ) (rows : List WatchRelease) (r : WatchRelease)
    → IsDistinct release_stamp (releases_of_user user_id rows)
    → last_of (list_watch_releases user_id (first_page limit) rows) ≡ some r
    → list_watch_releases user_id (first_page limit) rows
        ++ list_watch_releases user_id (page_after more (release_stamp r)) rows
      ≡ list_watch_releases user_id (first_page (limit + more)) rows
unfolding list_watch_releases
list_watch_releases-join user_id limit more rows r d e =
    pages_joined release_stamp limit more (releases_of_user user_id rows) d e

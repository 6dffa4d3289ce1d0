-- ===== src/Paging/Order.antt =====
-- app/api/pagination.py: the order of a listing.
use wax_watch_api.Prelude.{
  ◌==◌, ◌≡◌, inl, inr, true, false, List, [], ◌∷◌, All, Bool-cases, arith, if◌then◌else◌,
}
use wax_watch_api.Paging.{Stamp, older, insert_row, order_by}

older_total : (a b : Stamp) → (a.1 == b.1) ≡ false → older a b ≡ false → older b a ≡ true
older_total a b ne not_older = ground arith

older_trans : (a b c : Stamp) → older a b ≡ true → older b c ≡ true → older a c ≡ true
older_trans a b c p q = ground arith

pub older_irrefl : (a : Stamp) → older a a ≡ false
older_irrefl a = ground arith

pub older_asym : (a b : Stamp) → older a b ≡ true → older b a ≡ false
older_asym a b p = ground arith

module _ {A : Type 0} (stamp : A → Stamp) where
  -- Each row is older than every row before it.
  abbrev pub IsDescending : List A → Type 0
  IsDescending [] = Unit
  IsDescending (r ∷ rows) = All (λ s. older (stamp s) (stamp r) ≡ true) rows × IsDescending rows

  -- The identifiers of the rows are distinct.
  abbrev pub IsDistinct : List A → Type 0
  IsDistinct [] = Unit
  IsDistinct (r ∷ rows) = All (λ s. ((stamp r).1 == (stamp s).1) ≡ false) rows × IsDistinct rows

  insert_row-All :
      (P : A → Type 0) (r : A) (rows : List A) → P r → All P rows → All P (insert_row stamp r rows)
  unfolding insert_row
  insert_row-All P r [] p h = (p, tt)
  insert_row-All P r (s ∷ rows) p (q, h) =
      elim (older (stamp r) (stamp s))
        as (λ b. All P (if b then s ∷ insert_row stamp r rows else r ∷ s ∷ rows)) [
          | true ↦ (q, insert_row-All P r rows p h)
          | false ↦ (p, (q, h))
        ]

  order_by-All : (P : A → Type 0) (rows : List A) → All P rows → All P (order_by stamp rows)
  unfolding order_by
  order_by-All P [] h = tt
  order_by-All P (r ∷ rows) (p, h) =
      insert_row-All P r (order_by stamp rows) p (order_by-All P rows h)

  older-All :
      (r s : A) (rows : List A)
      → older (stamp s) (stamp r) ≡ true
      → All (λ t. older (stamp t) (stamp s) ≡ true) rows
      → All (λ t. older (stamp t) (stamp r) ≡ true) rows
  older-All r s [] p h = tt
  older-All r s (t ∷ rows) p (q, h) =
      (older_trans (stamp t) (stamp s) (stamp r) q p, older-All r s rows p h)

  insert_row-IsDescending :
      (r : A) (rows : List A)
      → All (λ s. ((stamp r).1 == (stamp s).1) ≡ false) rows
      → IsDescending rows
      → IsDescending (insert_row stamp r rows)
  unfolding insert_row
  insert_row-IsDescending r [] ne h = (tt, tt)
  insert_row-IsDescending r (s ∷ rows) (ne, nes) (olds, h) =
      elim (Bool-cases (older (stamp r) (stamp s))) [
        | inl below ↦ rw below (
          insert_row-All (λ t. older (stamp t) (stamp s) ≡ true) r rows below olds,
          insert_row-IsDescending r rows nes h,
        )
        | inr above ↦
            let after = older_total (stamp r) (stamp s) ne above in
            rw above ((after, older-All r s rows after olds), (olds, h))
      ]

  pub order_by-IsDescending : (rows : List A) → IsDistinct rows → IsDescending (order_by stamp rows)
  unfolding order_by
  order_by-IsDescending [] d = tt
  order_by-IsDescending (r ∷ rows) (ne, d) =
      insert_row-IsDescending r (order_by stamp rows)
        (order_by-All (λ s. ((stamp r).1 == (stamp s).1) ≡ false) rows ne)
        (order_by-IsDescending rows d)

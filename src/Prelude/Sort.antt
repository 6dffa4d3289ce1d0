-- ===== src/Prelude/Sort.antt =====
-- Python's `sorted`: a stable sort, by a Boolean order in which equal elements are in order.
use Prim.Native.Nat.{ℕ, zero, suc}
use mathlib.Core.Path.{◌≡◌, refl, ◌∙◌}
use mathlib.Core.Logic.{inl, inr}
use mathlib.Core.Bool.{Bool, true, false}
use mathlib.Core.List.{List, [], ◌∷◌, map}
use native.Mathlib.Omega.{arith}
use wax_watch_api.Prelude.Tests.{Bool-cases, if◌then◌else◌}
use wax_watch_api.Prelude.Lists.{All, All-take, keep, length, take, drop}

module _ {ℓ} {A : Type ℓ} (le : A → A → Bool) where
  unfoldable pub insert_by : A → List A → List A
  insert_by a [] = a ∷ []
  insert_by a (b ∷ bs) = let rest = insert_by a bs in if le a b then a ∷ b ∷ bs else b ∷ rest

  unfoldable pub sort_by : List A → List A
  unfolding insert_by
  sort_by [] = []
  sort_by (a ∷ bs) = insert_by a (sort_by bs)

  -- Every element is in order with each later one.
  abbrev pub IsSortedBy : List A → Type 0
  IsSortedBy [] = Unit
  IsSortedBy (a ∷ bs) = All (λ b. le a b ≡ true) bs × IsSortedBy bs

module _ {ℓ κ} {A : Type ℓ} (le : A → A → Bool) (P : A → Type κ) where
  insert_by-All : (a : A) (bs : List A) → P a → All P bs → All P (insert_by le a bs)
  unfolding insert_by
  insert_by-All a [] h k = (h, tt)
  insert_by-All a (b ∷ bs) h (k, ks) =
      elim (le a b) as (λ t. All P (if t then a ∷ b ∷ bs else b ∷ insert_by le a bs)) [
        | true ↦ (h, (k, ks))
        | false ↦ (k, insert_by-All a bs h ks)
      ]

  pub sort_by-All : (bs : List A) → All P bs → All P (sort_by le bs)
  unfolding sort_by
  sort_by-All [] h = tt
  sort_by-All (b ∷ bs) (h, hs) = insert_by-All b (sort_by le bs) h (sort_by-All bs hs)

module _ {ℓ} {A : Type ℓ} (le : A → A → Bool) (total : (a b : A) → le a b ≡ false → le b a ≡ true)
    (trans : (a b c : A) → le a b ≡ true → le b c ≡ true → le a c ≡ true) where
  All-after :
      (a b : A) (cs : List A)
      → le a b ≡ true
      → All (λ c. le b c ≡ true) cs
      → All (λ c. le a c ≡ true) cs
  All-after a b [] h k = tt
  All-after a b (c ∷ cs) h (k, ks) = (trans a b c h k, All-after a b cs h ks)

  insert_by-IsSortedBy :
      (a : A) (bs : List A) → IsSortedBy le bs → IsSortedBy le (insert_by le a bs)
  unfolding insert_by
  insert_by-IsSortedBy a [] h = (tt, tt)
  insert_by-IsSortedBy a (b ∷ bs) (h, hs) = elim (Bool-cases (le a b)) [
    | inl before ↦ rw before ((before, All-after a b bs before h), (h, hs))
    | inr after ↦ rw after (
      insert_by-All le (λ c. le b c ≡ true) a bs (total a b after) h,
      insert_by-IsSortedBy a bs hs,
    )
  ]

  pub sort_by-IsSortedBy : (bs : List A) → IsSortedBy le (sort_by le bs)
  unfolding sort_by
  sort_by-IsSortedBy [] = tt
  sort_by-IsSortedBy (b ∷ bs) = insert_by-IsSortedBy b (sort_by le bs) (sort_by-IsSortedBy bs)

-- Nothing is lost or doubled: as many elements pass any test.
module _ {ℓ} {A : Type ℓ} (le : A → A → Bool) (p : A → Bool) where
  length-keep-insert_by :
      (a : A) (bs : List A) → length (keep p (insert_by le a bs)) ≡ length (keep p (a ∷ bs))
  unfolding insert_by
  length-keep-insert_by a [] = refl
  length-keep-insert_by a (b ∷ bs) = ground (arith, length-keep-insert_by a bs)

  length-keep-cons :
      (a : A) (bs cs : List A)
      → length (keep p bs) ≡ length (keep p cs)
      → length (keep p (a ∷ bs)) ≡ length (keep p (a ∷ cs))
  length-keep-cons a bs cs h = ground (arith, h)

  pub length-keep-sort_by : (bs : List A) → length (keep p (sort_by le bs)) ≡ length (keep p bs)
  unfolding sort_by
  length-keep-sort_by [] = refl
  length-keep-sort_by (b ∷ bs) =
      length-keep-insert_by b (sort_by le bs)
      ∙ length-keep-cons b (sort_by le bs) bs (length-keep-sort_by bs)

-- Slices, and what a sorted list is mapped to.
module _ {ℓ} {A : Type ℓ} (le : A → A → Bool) where
  pub drop-IsSortedBy : (n : ℕ) (bs : List A) → IsSortedBy le bs → IsSortedBy le (drop n bs)
  drop-IsSortedBy zero bs h = h
  drop-IsSortedBy (suc n) [] h = tt
  drop-IsSortedBy (suc n) (b ∷ bs) (h, hs) = drop-IsSortedBy n bs hs

  pub take-IsSortedBy : (n : ℕ) (bs : List A) → IsSortedBy le bs → IsSortedBy le (take n bs)
  take-IsSortedBy zero bs h = tt
  take-IsSortedBy (suc n) [] h = tt
  take-IsSortedBy (suc n) (b ∷ bs) (h, hs) =
      (All-take (λ c. le b c ≡ true) n bs h, take-IsSortedBy n bs hs)

module _ {ℓ κ} {A : Type ℓ} {B : Type κ} (le : B → B → Bool) (key : A → B) where
  All-map :
      (a : A) (bs : List A)
      → All (λ b. le (key a) (key b) ≡ true) bs
      → All (λ k. le (key a) k ≡ true) (map key bs)
  All-map a [] h = tt
  All-map a (b ∷ bs) (h, hs) = (h, All-map a bs hs)

  pub IsSortedBy-map :
      (bs : List A) → IsSortedBy (λ a b. le (key a) (key b)) bs → IsSortedBy le (map key bs)
  IsSortedBy-map [] h = tt
  IsSortedBy-map (b ∷ bs) (h, hs) = (All-map b bs h, IsSortedBy-map bs hs)

module _ {ℓ} {A : Type ℓ} (le : A → A → Bool) where
  length-insert_by : (a : A) (bs : List A) → length (insert_by le a bs) ≡ suc (length bs)
  unfolding insert_by
  length-insert_by a [] = refl
  length-insert_by a (b ∷ bs) =
      elim (le a b)
        as (λ t. length (if t then a ∷ b ∷ bs else b ∷ insert_by le a bs) ≡ suc (suc (length bs))) [
          | true ↦ refl
          | false ↦ omega (arith, length-insert_by a bs)
        ]

  pub length-sort_by : (bs : List A) → length (sort_by le bs) ≡ length bs
  unfolding sort_by
  length-sort_by [] = refl
  length-sort_by (b ∷ bs) = omega (arith, length-insert_by b (sort_by le bs), length-sort_by bs)

-- ===== src/Prelude/Text/Words.antt =====
-- `s.split()` and `" ".join(words)`.
use Prim.Native.Nat.{ℕ}
use mathlib.Core.Path.{◌≡◌, refl, ap, ◌∙◌, sym}
use mathlib.Core.Logic.{inl, inr}
use mathlib.Core.Bool.{Bool, true, false}
use mathlib.Core.List.{List, [], ◌∷◌, ◌++◌, append_assoc, append-nil}
use wax_watch_api.Prelude.Tests.{Bool-cases, if◌then◌else◌}
use wax_watch_api.Prelude.Lists.{All, All-append}

-- `" ".join(words)`
unfoldable pub join : ℕ → List (List ℕ) → List ℕ
join sep [] = []
join sep (w ∷ []) = w
join sep (w ∷ v ∷ ws) = w ++ sep ∷ join sep (v ∷ ws)

abbrev pub flush : List ℕ → List (List ℕ)
flush [] = []
flush (c ∷ w) = (c ∷ w) ∷ []

module _ (is_space : ℕ → Bool) where
  -- `word` holds the characters read since the last space.
  unfoldable pub split_from : List ℕ → List ℕ → List (List ℕ)
  split_from word [] = flush word
  split_from word (c ∷ s) =
      let closed = flush word ++ split_from [] s in
      let longer = split_from (word ++ c ∷ []) s in if is_space c then closed else longer

  -- `s.split()`
  unfoldable pub split : List ℕ → List (List ℕ)
  unfolding split_from
  split s = split_from [] s

  -- Without a space.
  abbrev pub IsSolid : List ℕ → Type 0
  IsSolid w = All (λ c. is_space c ≡ false) w

  -- Not empty, and without a space.
  abbrev pub IsWord : List ℕ → Type 0
  IsWord [] = ⊥
  IsWord (c ∷ w) = IsSolid (c ∷ w)

  flush-IsWord : (w : List ℕ) → IsSolid w → All IsWord (flush w)
  flush-IsWord [] h = tt
  flush-IsWord (c ∷ w) h = (h, tt)

  split_from-IsWord : (w s : List ℕ) → IsSolid w → All IsWord (split_from w s)
  unfolding split_from
  split_from-IsWord w [] h = flush-IsWord w h
  split_from-IsWord w (c ∷ s) h = elim (Bool-cases (is_space c)) [
    | inl sp ↦ rw sp (
        All-append IsWord (flush w) (split_from [] s) (flush-IsWord w h)
          (split_from-IsWord [] s tt))
    | inr other ↦ rw other (
        split_from-IsWord (w ++ c ∷ []) s
          (All-append (λ c. is_space c ≡ false) w (c ∷ []) h (other, tt)))
  ]

  pub split-IsWord : (s : List ℕ) → All IsWord (split s)
  unfolding split
  split-IsWord s = split_from-IsWord [] s tt

  -- Solid characters are read into the word.
  split_from-append : (w v s : List ℕ) → IsSolid v → split_from w (v ++ s) ≡ split_from (w ++ v) s
  unfolding split_from
  split_from-append w [] s h = rw append-nil
  split_from-append w (c ∷ v) s (hc, h) =
      rw hc (split_from-append (w ++ c ∷ []) v s h ∙ rw append_assoc)

  split_from-space :
      (sep : ℕ) (w s : List ℕ)
      → is_space sep ≡ true
      → IsWord w
      → split_from w (sep ∷ s) ≡ w ∷ split_from [] s
  unfolding split_from
  split_from-space sep [] s sp h = absurd h
  split_from-space sep (c ∷ w) s sp h = rw sp

  split_from_word : (w : List ℕ) → IsWord w → split_from w [] ≡ w ∷ []
  unfolding split_from
  split_from_word [] h = absurd h
  split_from_word (c ∷ w) h = refl

  IsSolid-of_word : (w : List ℕ) → IsWord w → IsSolid w
  IsSolid-of_word [] h = tt
  IsSolid-of_word (c ∷ w) h = h

  flush-All : (P : ℕ → Type 0) (w : List ℕ) → All P w → All (All P) (flush w)
  flush-All P [] h = tt
  flush-All P (c ∷ w) h = (h, tt)

  split_from-All :
      (P : ℕ → Type 0) (w s : List ℕ) → All P w → All P s → All (All P) (split_from w s)
  unfolding split_from
  split_from-All P w [] hw hs = flush-All P w hw
  split_from-All P w (c ∷ s) hw (hc, hs) = elim (Bool-cases (is_space c)) [
    | inl sp ↦ rw sp (
        All-append (All P) (flush w) (split_from [] s) (flush-All P w hw)
          (split_from-All P [] s tt hs))
    | inr other ↦
        rw other (split_from-All P (w ++ c ∷ []) s (All-append P w (c ∷ []) hw (hc, tt)) hs)
  ]

  -- The characters of the words are those of the text.
  pub split-All : (P : ℕ → Type 0) (s : List ℕ) → All P s → All (All P) (split s)
  unfolding split
  split-All P s h = split_from-All P [] s tt h

  -- Words that are joined by a space are split again.
  pub split-join :
      (sep : ℕ) (ws : List (List ℕ))
      → is_space sep ≡ true
      → All IsWord ws
      → split (join sep ws) ≡ ws
  unfolding split join
  split-join sep [] sp h = refl
  split-join sep (w ∷ []) sp (h, _) =
      ap (split_from []) (sym (append-nil w))
      ∙ split_from-append [] w [] (IsSolid-of_word w h)
      ∙ split_from_word w h
  split-join sep (w ∷ v ∷ ws) sp (h, hs) =
      split_from-append [] w (sep ∷ join sep (v ∷ ws)) (IsSolid-of_word w h)
      ∙ split_from-space sep w (join sep (v ∷ ws)) sp h
      ∙ ap (◌∷◌ w) (split-join sep (v ∷ ws) sp hs)

pub join-All :
    (P : ℕ → Type 0) (sep : ℕ) (ws : List (List ℕ)) → P sep → All (All P) ws → All P (join sep ws)
unfolding join
join-All P sep [] p h = tt
join-All P sep (w ∷ []) p (h, _) = h
join-All P sep (w ∷ v ∷ ws) p (h, hs) =
    All-append P w (sep ∷ join sep (v ∷ ws)) h (p, join-All P sep (v ∷ ws) p hs)

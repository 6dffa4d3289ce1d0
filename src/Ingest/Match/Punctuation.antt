-- ===== src/Ingest/Match/Punctuation.antt =====
-- app/services/ingest.py: keywords against normalized titles.
use wax_watch_api.Prelude.{
  ℕ, ◌==◌, ◌≡◌, refl, inl, inr, Option, Bool, true, false, List, [], ◌∷◌, All, All-append, any,
  and-eq-true, Bool-cases, arith, if◌then◌else◌,
}
use wax_watch_api.Prelude.Text.{Text, Unicode, codes, starts_with, is_in}
use wax_watch_api.Prelude.Text.Words.{split, split-All, join-All}
use wax_watch_api.Json.{Json}
use wax_watch_api.Models.{WatchSearchRule, Listing}
use wax_watch_api.Ingest.Title.{space, spaced, normalize_title}
use wax_watch_api.Ingest.Match.{list_of, words, rule_matches_listing}
use wax_watch_api.Ingest.Match.Meaning.{IsOneOf, here, there, IsBound, rule_matches_iff}

-- Not this character.
abbrev IsOther : ℕ → ℕ → Type 0
IsOther p d = (d == p) ≡ false

-- The character is no blank, and no letter or digit has it in its lower case.
pub record IsPunctuation (u : Unicode) (p : ℕ) : Type 0 where
  pub not_blank : (space == p) ≡ false
  pub not_lower : (c : ℕ) → u.is_alnum c ≡ true → All (λ d. (d == p) ≡ false) (u.lower_char c)

module _ (u : Unicode) (p : ℕ) (h : IsPunctuation u p) where
  spaced-All : (s : Text) → All (IsOther p) (spaced u s)
  unfolding spaced
  spaced-All [] = tt
  spaced-All (c ∷ s) =
      All-append (IsOther p) (if u.is_alnum c then u.lower_char c else space ∷ []) (spaced u s)
        (elim (Bool-cases (u.is_alnum c)) [
          | inl alnum ↦ rw alnum (h.not_lower c alnum)
          | inr blank ↦ rw blank (h.not_blank, tt)
        ])
        (spaced-All s)

  normalize_title-All : (s : Text) → All (IsOther p) (normalize_title u s)
  unfolding normalize_title
  normalize_title-All s =
      join-All (IsOther p) space (split u.is_space (spaced u s)) h.not_blank
        (split-All u.is_space (IsOther p) (spaced u s) (spaced-All s))

module _ (p : ℕ) where
  starts_with-All : (kw t : Text) → starts_with kw t ≡ true → All (IsOther p) t → All (IsOther p) kw
  unfolding starts_with
  starts_with-All [] t e h = tt
  starts_with-All (a ∷ kw) [] e h = ground arith
  starts_with-All (a ∷ kw) (b ∷ t) e (hb, h) =
      let (same, rest) = and-eq-true (a == b) (starts_with kw t) e in
      (ground arith, starts_with-All kw t rest h)

  is_in-All : (kw t : Text) → is_in kw t ≡ true → All (IsOther p) t → All (IsOther p) kw
  unfolding is_in
  is_in-All kw [] e h = starts_with-All kw [] e h
  is_in-All kw (c ∷ t) e (hc, h) = elim (Bool-cases (starts_with kw (c ∷ t))) [
    | inl first ↦ starts_with-All kw (c ∷ t) first (hc, h)
    | inr later ↦ is_in-All kw t (rw later at e) h
  ]

  any-All : (kw : Text) → All (IsOther p) kw → any (λ d. d == p) kw ≡ false
  any-All [] h = refl
  any-All (d ∷ kw) (hd, h) = rw hd (any-All kw h)

one_of : (P : Text → Type 0) (s : Text) (ts : List Text) → IsOneOf s ts → All P ts → P s
one_of P s [] o h = elim o [ ]
one_of P s (t ∷ ts) here (p, h) = p
one_of P s (t ∷ ts) (there o) (p, h) = one_of P s ts o h

IsBound-of :
    (u : Unicode) (print : Json → Text) (kw : Text) (vs : List Json)
    → IsOneOf kw (words u print vs)
    → IsBound vs
unfolding words
IsBound-of u print kw [] o = elim o [ ]
IsBound-of u print kw (v ∷ vs) o = refl

-- A rule with a keyword that has a punctuation character in it (no blank, and not in the lower case
-- of any letter or digit) matches no listing, whatever its title, under its normalized title.
pub punctuated_never :
    (u : Unicode) (print : Json → Text) (p : ℕ) (rule : WatchSearchRule) (kw : Text) (l : Listing)
    (title : Text) (user_currency : Option Text)
    → IsPunctuation u p
    → IsOneOf kw (words u print (list_of (codes "keywords") rule.query))
    → any (λ d. d == p) kw ≡ true
    → rule_matches_listing u print rule l (normalize_title u title) user_currency ≡ false
punctuated_never u print p rule kw l title user_currency h o has =
    elim (Bool-cases
      (rule_matches_listing u print rule l (normalize_title u title) user_currency)) [
        | inl matches ↦
            let (_, _, found) =
              (rule_matches_iff u print rule l (normalize_title u title) user_currency).0 matches in
            let (_, all_found) = found (IsBound-of u print kw _ o) in
            let inside = one_of (λ k. is_in k (normalize_title u title) ≡ true) kw _ o all_found in
            absurd (
              true-ne-false has (
                any-All p kw (
                  is_in-All p kw (normalize_title u title) inside
                    (normalize_title-All u p h title))))
        | inr never ↦ never
      ]
  where
    true-ne-false : {b : Bool} → b ≡ true → b ≡ false → ⊥
    true-ne-false e f = cc

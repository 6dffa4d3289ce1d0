-- ===== src/Ingest/Match/Meaning.antt =====
-- app/services/ingest.py: what `_rule_matches_listing` asks of sources, price and keywords.
use wax_watch_api.Prelude.{
  ◌≡◌, ◌↔◌, inl, inr, refl, ap, subst, get_or, Option, none, some, Bool, true, false, not, ◌||◌,
  List, [], ◌∷◌, All, any, all, Bool-cases, and-eq-true, arith, if◌then◌else◌,
}
use wax_watch_api.Prelude.Text.{Text, Unicode, codes, text_eq, text_eq_iff, strip, nonempty, is_in}
use wax_watch_api.Prelude.Int.{ℤ, pos, ltb_ℤ}
use wax_watch_api.Json.{Json, as_number}
use wax_watch_api.Models.{WatchSearchRule, Listing, provider_value}
use wax_watch_api.WatchRules.Validate.{look, some_item}
use wax_watch_api.Ingest.Match.{
  list_of, words, source_allowed, rule_currency, price_allowed, keywords_found,
  rule_matches_listing,
}

-- One of the texts.
pub data IsOneOf (s : Text) : List Text → Type 0 where
  here : {ts : List Text} → IsOneOf s (s ∷ ts)
  there : {t : Text} {ts : List Text} → IsOneOf s ts → IsOneOf s (t ∷ ts)

abbrev pub IsBound : List Json → Type 0
IsBound vs = some_item vs ≡ true

module _ (u : Unicode) (print : Json → Text) (rule : WatchSearchRule) where
  -- A rule that names sources names the provider of the listing.
  abbrev pub SourceAllowed : Listing → Type 0
  SourceAllowed l =
      IsBound (list_of (codes "sources") rule.query)
      → IsOneOf (provider_value l.provider) (words u print (list_of (codes "sources") rule.query))

  -- A price bound is in a currency, which is the currency of the listing, and the price is not
  -- above it.
  abbrev pub PriceAllowed : Listing → Option Text → Type 0
  PriceAllowed l user_currency =
      (max_price : ℤ)
      → as_number (look (codes "max_price") rule.query) ≡ some max_price
      → (nonempty (rule_currency u print rule.query user_currency) ≡ true)
        × (u.upper (strip u l.currency) ≡ rule_currency u print rule.query user_currency)
        × (ltb_ℤ max_price (pos l.price) ≡ false)

  -- A rule with keywords has one that is not blank, and all of these stand in the title.
  abbrev pub KeywordsFound : Text → Type 0
  KeywordsFound title =
      IsBound (list_of (codes "keywords") rule.query)
      → (some_item (words u print (list_of (codes "keywords") rule.query)) ≡ true)
        × All (λ kw. is_in kw title ≡ true) (words u print (list_of (codes "keywords") rule.query))

IsOneOf-of : (s : Text) (ts : List Text) → IsOneOf s ts → any (text_eq s) ts ≡ true
IsOneOf-of s [] o = elim o [ ]
IsOneOf-of s (t ∷ ts) here = rw ((text_eq_iff s s).1 refl) refl
IsOneOf-of s (t ∷ ts) (there o) = elim (text_eq s t) as (λ b. (b || any (text_eq s) ts) ≡ true) [
  | true ↦ refl
  | false ↦ IsOneOf-of s ts o
]

of_any : (s : Text) (ts : List Text) → any (text_eq s) ts ≡ true → IsOneOf s ts
of_any s [] e = ground arith
of_any s (t ∷ ts) e = elim (Bool-cases (text_eq s t)) [
  | inl same ↦ rw ((text_eq_iff s t).0 same) here
  | inr other ↦ there (of_any s ts (rw other at e))
]

All-all : {A : Type 0} (p : A → Bool) (xs : List A) → (all p xs ≡ true) ↔ All (λ x. p x ≡ true) xs
All-all p [] = (λ _. tt, λ _. refl)
All-all p (x ∷ xs) = (
  λ e. let (h, t) = and-eq-true (p x) (all p xs) e in (h, (All-all p xs).0 t),
  λ h. rw (h.0) ((All-all p xs).1 h.1),
)

some_inj : {A : Type 0} {a b : A} → some a ≡ some b → a ≡ b
some_inj {A} {a} e = ap (λ o. get_or o a) e

module _ (u : Unicode) (print : Json → Text) (l : Listing) where
  source_iff :
      (vs : List Json)
      → (source_allowed u print vs l ≡ true)
        ↔ (IsBound vs → IsOneOf (provider_value l.provider) (words u print vs))
  source_iff [] = (λ e bound. ground arith, λ f. refl)
  source_iff (v ∷ vs) = (
    λ e bound. of_any (provider_value l.provider) (words u print (v ∷ vs)) e,
    λ f. IsOneOf-of (provider_value l.provider) (words u print (v ∷ vs)) (f refl),
  )

  keywords_iff :
      (vs : List Json) (title : Text)
      → (keywords_found u print vs title ≡ true) ↔ (
          IsBound vs
          → (some_item (words u print vs) ≡ true)
            × All (λ kw. is_in kw title ≡ true) (words u print vs))
  keywords_iff [] title = (λ e bound. ground arith, λ f. refl)
  keywords_iff (v ∷ vs) title =
      let ws = words u print (v ∷ vs) in
      (
        λ e bound.
            let (some_word, found) = and-eq-true (some_item ws) (all (λ kw. is_in kw title) ws) e in
            (some_word, (All-all (λ kw. is_in kw title) ws).0 found),
        λ f. rw ((f refl).0) ((All-all (λ kw. is_in kw title) ws).1 (f refl).1),
      )

  abbrev IsCovered : Text → ℤ → Type 0
  IsCovered c m =
      (nonempty c ≡ true) × (u.upper (strip u l.currency) ≡ c) × (ltb_ℤ m (pos l.price) ≡ false)

  IsCovered-iff : (c : Text) (m : ℤ) → (price_allowed u (some m) c l ≡ true) ↔ IsCovered c m
  IsCovered-iff c m = ground (arith, text_eq_iff (u.upper (strip u l.currency)) c)

  price_iff :
      (o : Option ℤ) (c : Text)
      → (price_allowed u o c l ≡ true) ↔ ((m : ℤ) → o ≡ some m → IsCovered c m)
  price_iff none c = (λ e m no. ground arith, λ f. refl)
  price_iff (some m) c = (
    λ e n same. subst (IsCovered c) (some_inj same) ((IsCovered-iff c m).0 e),
    λ f. (IsCovered-iff c m).1 (f m refl),
  )

guards :
    (a b c : Bool)
    → ((if not a then false else (if not b then false else c)) ≡ true)
      ↔ ((a ≡ true) × (b ≡ true) × (c ≡ true))
guards a b c = ground arith

-- A rule matches a listing exactly if its sources, its price bound and its keywords, as far as
-- the rule has them, all allow it.
pub rule_matches_iff :
    (u : Unicode) (print : Json → Text) (rule : WatchSearchRule) (l : Listing) (title : Text)
    (user_currency : Option Text)
    → (rule_matches_listing u print rule l title user_currency ≡ true) ↔ (
        SourceAllowed u print rule l
        × PriceAllowed u print rule l user_currency
        × KeywordsFound u print rule title)
unfolding rule_matches_listing
rule_matches_iff u print rule l title user_currency =
    let g = guards _ _ _ in
    let s = source_iff u print l (list_of (codes "sources") rule.query) in
    let p =
      price_iff u print l (as_number (look (codes "max_price") rule.query))
        (rule_currency u print rule.query user_currency) in
    let k = keywords_iff u print l (list_of (codes "keywords") rule.query) title in
    (λ e. let (a, b, c) = g.0 e in (s.0 a, p.0 b, k.0 c), λ (a, b, c). g.1 (s.1 a, p.1 b, k.1 c))

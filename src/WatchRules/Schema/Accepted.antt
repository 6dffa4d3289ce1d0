-- ===== src/WatchRules/Schema/Accepted.antt =====
-- app/schemas/watch_rules.py: what a query is that the schema of a new rule has accepted.
use wax_watch_api.Prelude.{
  ◌≡◌, refl, sym, ◌∙◌, subst, Option, none, some, true, false, not, ◌&&◌, List, [], ◌∷◌, All,
  All-keep, ltb, arith, get_or, if◌then◌else◌, inl, inr, Bool-cases,
}
use wax_watch_api.Prelude.Text.{Text, Unicode, codes, text_eq, text_key, nonempty}
use wax_watch_api.Prelude.Int.{neg_part}
use wax_watch_api.Prelude.Dict.{get, put, get-put}
use wax_watch_api.Json.{Json, null, boolean, number, text, arr, obj, as_list, as_text, is_null}
use wax_watch_api.Session.{World, Outcome, ok, raised, value_error, pure, raise}
use wax_watch_api.WatchRules.Validate.{look, some_item, validate_max_price}
use wax_watch_api.WatchRules.Merge.{has_sources}
use wax_watch_api.Runner.Registry.{
  ProviderRegistration, RegistrySettings, and_then, get_provider_registration,
}
use wax_watch_api.Search.Schema.{deduped, if_registered}
use wax_watch_api.WatchRules.Schema.{
  Query, texts, normal_text, price_checked, validate_known_keys, q_checked, clean_keywords,
  put_keywords, listed_keywords, validate_keywords, source_kept, clean_sources, put_sources,
  listed_sources, validate_sources, require_sources_on_create,
}

abbrev WhenOk : {A : Type 0} → (A → Type 0) → Outcome A → Type 0
WhenOk P (ok a) = P a
WhenOk P (raised e) = Unit

module _ {A B : Type 0} (P : A → Type 0) (Q : B → Type 0) where
  then-WhenOk :
      (out : Outcome A) (f : A → Outcome B)
      → WhenOk P out
      → ((a : A) → P a → WhenOk Q (f a))
      → WhenOk Q (and_then out f)
  then-WhenOk (ok a) f h k = k a h
  then-WhenOk (raised e) f h k = tt

-- There is no price bound, or it is null, or not negative.
abbrev pub IsPriceFine : Option Json → Type 0
IsPriceFine none = Unit
IsPriceFine (some null) = Unit
IsPriceFine (some (number n)) = neg_part n ≡ 0
IsPriceFine (some _) = ⊥

abbrev pub IsPriced : Query → Type 0
IsPriced q = IsPriceFine (get (codes "max_price") q)

priced :
    (q : Query) (price : Option Json)
    → get (codes "max_price") q ≡ price
    → WhenOk IsPriced (price_checked false q price)
unfolding text_eq
priced q none e = subst IsPriceFine (sym e) tt
priced q (some null) e = tt
priced q (some (number n)) e = elim (Bool-cases (ltb 0 (neg_part n))) [
  | inl negative ↦ rw negative tt
  | inr fine ↦
      let same = get-put (codes "max_price") (codes "max_price") (number n) q in
      rw fine (subst IsPriceFine (sym same) (ground (arith, fine)))
]
priced q (some (boolean b)) e = tt
priced q (some (text s)) e = tt
priced q (some (arr vs)) e = tt
priced q (some (obj fs)) e = tt

module _ (u : Unicode) (registry : RegistrySettings) where
  -- The registry has the provider, enabled.
  abbrev pub IsUsable : Text → Type 0
  IsUsable name =
      (r : ProviderRegistration) × (get_provider_registration u registry (some name) ≡ ok r)

  abbrev pub AreUsable : List Text → Type 0
  AreUsable [] = ⊥
  AreUsable (name ∷ names) = All IsUsable (name ∷ names)

  abbrev pub HasGoodSources : Query → Type 0
  HasGoodSources q =
      (names : List Text) × (get (codes "sources") q ≡ some (texts names)) × AreUsable names

  registered :
      (key : Text) (out : Outcome ProviderRegistration) (rest : Outcome (List Text))
      → get_provider_registration u registry (some key) ≡ out
      → WhenOk (All IsUsable) rest
      → WhenOk (All IsUsable) (if_registered key out rest)
  registered key (ok r) (ok names) e h = ((r, e), h)
  registered key (ok r) (raised x) e h = tt
  registered key (raised x) rest e h = tt

  kept :
      (source : Option Text) (rest : Outcome (List Text))
      → WhenOk (All IsUsable) rest
      → WhenOk (All IsUsable) (source_kept u registry source rest)
  kept none rest h = tt
  kept (some source) rest h =
      let key = normal_text u source in
      elim (nonempty key)
        as (λ b. WhenOk (All IsUsable) (
          if b
          then if_registered key (get_provider_registration u registry (some key)) rest
          else rest)) [
            | true ↦ registered key (get_provider_registration u registry (some key)) rest refl h
            | false ↦ h
          ]

  sources_cleaned : (vs : List Json) → WhenOk (All IsUsable) (clean_sources u registry vs)
  unfolding clean_sources
  sources_cleaned [] = tt
  sources_cleaned (v ∷ vs) = kept (as_text v) (clean_sources u registry vs) (sources_cleaned vs)

  deduped-IsUsable : (names : List Text) → All IsUsable names → All IsUsable (deduped names)
  unfolding deduped
  deduped-IsUsable [] h = tt
  deduped-IsUsable (name ∷ names) (h, hs) =
      (h, All-keep IsUsable _ (deduped names) (deduped-IsUsable names hs))

  -- Sources that the registry has, and a fine price bound.
  abbrev IsAccepted : Query → Type 0
  IsAccepted q = HasGoodSources q × IsPriced q

  put-Accepted :
      (q : Query) (names : List Text)
      → IsPriced q
      → All IsUsable names
      → WhenOk IsAccepted (put_sources u registry q names)
  unfolding text_eq deduped
  put-Accepted q [] h hs = tt
  put-Accepted q (name ∷ names) h hs = (
    (
      deduped (name ∷ names),
      get-put (codes "sources") (codes "sources") (texts (deduped (name ∷ names))) q,
      deduped-IsUsable (name ∷ names) hs,
    ),
    subst IsPriceFine
        (sym (get-put (codes "max_price") (codes "sources") (texts (deduped (name ∷ names))) q)) h,
  )

  listed :
      (q : Query) (vs : Option (List Json))
      → IsPriced q
      → WhenOk IsAccepted (listed_sources u registry q vs)
  listed q none h = tt
  listed q (some []) h = tt
  listed q (some (v ∷ vs)) h =
      then-WhenOk (All IsUsable) IsAccepted (clean_sources u registry (v ∷ vs))
        (put_sources u registry q) (sources_cleaned (v ∷ vs)) (λ names. put-Accepted q names h)

  sourced : (q : Query) → IsPriced q → WhenOk IsAccepted (validate_sources u registry true q)
  unfolding validate_sources
  sourced q h =
      let v = look (codes "sources") q in
      elim (is_null v)
        as (λ b.
          WhenOk IsAccepted
            (if b then raised value_error else listed_sources u registry q (as_list v))) [
              | true ↦ tt
              | false ↦ listed q (as_list v) h
            ]

  keywords_put : (q : Query) (v : Json) → IsAccepted q → IsAccepted (put (codes "keywords") v q)
  unfolding text_eq
  keywords_put q v ((names, e, h), p) = (
    (names, get-put (codes "sources") (codes "keywords") v q ∙ e, h),
    subst IsPriceFine (sym (get-put (codes "max_price") (codes "keywords") v q)) p,
  )

  keywords_set :
      (q : Query) (vs : List Json) (words : List Text)
      → IsAccepted q
      → WhenOk IsAccepted (put_keywords u q vs words)
  keywords_set q vs words h =
      elim (some_item vs && not (some_item words))
        as (λ b.
          WhenOk IsAccepted
            (if b then raised value_error else ok (put (codes "keywords") (texts words) q))) [
              | true ↦ tt
              | false ↦ keywords_put q (texts words) h
            ]

  keywords_listed :
      (q : Query) (vs : Option (List Json))
      → IsAccepted q
      → WhenOk IsAccepted (listed_keywords u q vs)
  keywords_listed q none h = tt
  keywords_listed q (some vs) h =
      then-WhenOk (λ _. Unit {0}) IsAccepted (clean_keywords u vs) (put_keywords u q vs)
        (always (clean_keywords u vs)) (λ words _. keywords_set q vs words h)
    where
      always : (out : Outcome (List Text)) → WhenOk (λ _. Unit {0}) out
      always (ok words) = tt
      always (raised e) = tt

  keywords_kept : (q : Query) → IsAccepted q → WhenOk IsAccepted (validate_keywords u q)
  unfolding validate_keywords
  keywords_kept q h =
      let v = look (codes "keywords") q in
      elim (is_null v)
        as (λ b. WhenOk IsAccepted (if b then ok q else listed_keywords u q (as_list v))) [
          | true ↦ h
          | false ↦ keywords_listed q (as_list v) h
        ]

  known : (v : Query) → WhenOk IsPriced (validate_known_keys u false v)
  unfolding validate_known_keys
  known v =
      then-WhenOk (λ _. Unit {0}) IsPriced (q_checked u false v (get (codes "q") v))
        (λ q. price_checked false q (get (codes "max_price") q))
        (always (q_checked u false v (get (codes "q") v)))
        (λ q _. priced q (get (codes "max_price") q) refl)
    where
      always : (out : Outcome Query) → WhenOk (λ _. Unit {0}) out
      always (ok q) = tt
      always (raised e) = tt

  created : (v : Query) → WhenOk IsAccepted (require_sources_on_create u registry v)
  unfolding require_sources_on_create
  created v =
      then-WhenOk IsPriced IsAccepted (validate_known_keys u false v)
        (λ q. and_then (validate_sources u registry true q) (validate_keywords u)) (known v)
        (λ q h.
          then-WhenOk IsAccepted IsAccepted (validate_sources u registry true q)
            (validate_keywords u) (sourced q h) keywords_kept)

price_passes :
    (price : Option Json) (w : World)
    → IsPriceFine price
    → validate_max_price (get_or price null) w ≡ (ok tt, w)
unfolding pure raise
price_passes none w h = refl
price_passes (some null) w h = refl
price_passes (some (number n)) w h = rw h refl
price_passes (some (boolean b)) w h = elim h [ ]
price_passes (some (text s)) w h = elim h [ ]
price_passes (some (arr vs)) w h = elim h [ ]
price_passes (some (obj fs)) w h = elim h [ ]

-- A query that the schema of a new rule accepts: it has sources, not none, and the registry has a
-- provider, enabled, under each of them; they are what the later check for sources looks for; and
-- its price bound passes the later check of prices.
pub require_sources_on_create-Accepted :
    (u : Unicode) (registry : RegistrySettings) (v q : Query) (w : World)
    → require_sources_on_create u registry v ≡ ok q
    → HasGoodSources u registry q
      × (has_sources q ≡ true)
      × (validate_max_price (look (codes "max_price") q) w ≡ (ok tt, w))
unfolding has_sources
require_sources_on_create-Accepted u registry v q w e =
    let (source, price) = subst (WhenOk (IsAccepted u registry)) e (created u registry v) in
    (source, found q source, price_passes (get (codes "max_price") q) w price)
  where
    found : (q : Query) → HasGoodSources u registry q → has_sources q ≡ true
    found q (name ∷ names, same, usable) = rw same refl
    found q ([], same, usable) = elim usable [ ]

-- ===== src/Search/Clients.antt =====
-- app/schemas/search.py and app/providers/registry.py: the client of a provider that the schema
-- has accepted.
use wax_watch_api.Prelude.{
  ℕ, ◌≡◌, refl, subst, Option, none, some, Bool, true, false, not, List, [], ◌∷◌, All, All-keep,
  arith, if◌then◌else◌, inl, inr, Bool-cases,
}
use wax_watch_api.Prelude.Text.{Text, text_eq, text_key, strip, nonempty, Unicode}
use wax_watch_api.Prelude.Dict.{Dict, get}
use wax_watch_api.Json.{Json}
use wax_watch_api.Models.{Provider}
use wax_watch_api.Session.{Outcome, ok, raised, value_error}
use wax_watch_api.Ingest.Listings.{Payload, provider_of}
use wax_watch_api.Runner.{ProviderClient}
use wax_watch_api.Runner.Requests.{listings_of}
use wax_watch_api.Runner.Registry.{
  ProviderRegistration, RegistrySettings, build_registrations, registration_of, normal, if_enabled,
  uses_tests, or_enabled, test_class, and_then, get_provider_registration, get_provider_class,
}
use wax_watch_api.Search.Schema.{
  deduped, some_named, and_named, if_registered, if_known, clean_providers, validate_providers,
}

-- The text names a provider.
abbrev pub IsKnown : Text → Type 0
IsKnown name = (p : Provider) × (provider_of name ≡ some p)

-- Every listing that the client finds names a provider.
abbrev pub IsHonest : ProviderClient → Type 0
IsHonest c =
    (n : ℕ) (query : Dict Text Json) (limit : ℕ)
    → All (λ (i : Payload). IsKnown i.provider) (listings_of (c.search n query limit).result)

pub record HasHonestClients (s : RegistrySettings) : Type 0 where
  pub discogs : IsHonest s.discogs_client
  pub mock_discogs : IsHonest s.mock_discogs_client
  pub ebay : IsHonest s.ebay_client
  pub mock : IsHonest s.mock_provider

-- A name that a search can be made under.
abbrev pub IsSearchable : Unicode → RegistrySettings → Text → Type 0
IsSearchable u s name =
    IsKnown name × (c : ProviderClient) × (get_provider_class u s (some name) ≡ ok c) × IsHonest c

abbrev WhenSome : Option ProviderClient → Type 0
WhenSome none = Unit
WhenSome (some c) = IsHonest c

abbrev HonestRow : ProviderRegistration → Type 0
HonestRow r = IsHonest r.client_class × WhenSome r.test_client_class

abbrev HonestResult : Outcome ProviderRegistration → Type 0
HonestResult (ok r) = HonestRow r
HonestResult (raised e) = Unit

abbrev of_row : Option ProviderRegistration → Outcome ProviderRegistration
of_row none = raised value_error
of_row (some r) = ok r

get-Honest :
    (key : Text) (d : Dict Text ProviderRegistration)
    → All (λ (e : Text × ProviderRegistration). HonestRow e.1) d
    → HonestResult (of_row (get key d))
unfolding get
get-Honest key [] h = tt
get-Honest key ((name, r) ∷ d) (h, hs) =
    elim (text_eq name key) as (λ b. HonestResult (of_row (if b then some r else get key d))) [
      | true ↦ h
      | false ↦ get-Honest key d hs
    ]

usable :
    (enabled : Bool) (client_class : ProviderClient) (tests : Option ProviderClient)
    → IsHonest client_class
    → WhenSome tests
    → enabled ≡ true
    → (c : ProviderClient) × (or_enabled enabled client_class tests ≡ ok c) × IsHonest c
usable enabled client_class (some c) h k e = (c, refl, k)
usable true client_class none h k e = (client_class, refl, h)
usable false client_class none h k e = ground (arith, e)

module _ (u : Unicode) (s : RegistrySettings) where
  -- Names, and at least one of them.
  unfoldable pub AreSearchable : List Text → Type 0
  AreSearchable [] = ⊥
  AreSearchable (name ∷ names) = All (IsSearchable u s) (name ∷ names)

  unfoldable WhenNamed : Outcome (Option (List Text)) → Type 0
  WhenNamed (ok (some names)) = AreSearchable names
  WhenNamed _ = Unit

module _ (u : Unicode) (s : RegistrySettings) (honest : HasHonestClients s) where
  registered-Honest : (key : Text) → HonestResult (registration_of u s key)
  unfolding build_registrations
  registered-Honest key =
      elim (nonempty key)
        as (λ b.
          HonestResult
            (if b then of_row (get key (build_registrations u s)) else raised value_error)) [
              | true ↦ get-Honest key (build_registrations u s) (
                (honest.discogs, honest.mock_discogs),
                ((honest.ebay, tt), ((honest.mock, tt), tt)),
              )
              | false ↦ tt
            ]

  chosen :
      (o : Outcome ProviderRegistration) {r : ProviderRegistration}
      → HonestResult o
      → and_then o if_enabled ≡ ok r
      → (c : ProviderClient) × (and_then o
            (λ q. or_enabled q.enabled q.client_class (test_class u s q))
          ≡ ok c)
        × IsHonest c
  chosen (raised e) h a = ground (arith, a)
  chosen (ok q) (main, test) a = elim (Bool-cases (uses_tests u s)) [
    | inl testing ↦
        usable q.enabled q.client_class (test_class u s q) main (rw testing test)
          (ground (arith, a))
    | inr plain ↦
        usable q.enabled q.client_class (test_class u s q) main (rw plain tt) (ground (arith, a))
  ]

  registered-IsSearchable :
      (key : Text) {p : Provider} {r : ProviderRegistration}
      → provider_of key ≡ some p
      → get_provider_registration u s (some key) ≡ ok r
      → IsSearchable u s key
  unfolding get_provider_registration get_provider_class
  registered-IsSearchable key {p} {r} h k =
      let (c, e, known) =
        chosen (registration_of u s (normal u s (some key))) {r = r}
          (registered-Honest (normal u s (some key))) k in
      ((p, h), c, e, known)

  abbrev AllSearchable : Outcome (List Text) → Type 0
  AllSearchable (ok names) = All (IsSearchable u s) names
  AllSearchable (raised e) = Unit

  and_named-All :
      (key : Text) (rest : Outcome (List Text))
      → IsSearchable u s key
      → AllSearchable rest
      → AllSearchable (and_named key rest)
  and_named-All key (ok more) h k = (h, k)
  and_named-All key (raised x) h k = tt

  registered-All :
      (key : Text) (out : Outcome ProviderRegistration) (rest : Outcome (List Text)) {p : Provider}
      → provider_of key ≡ some p
      → get_provider_registration u s (some key) ≡ out
      → AllSearchable rest
      → AllSearchable (if_registered key out rest)
  registered-All key (ok r) rest {p} h k more =
      and_named-All key rest (registered-IsSearchable key {p = p} {r = r} h k) more
  registered-All key (raised x) rest h k more = tt

  known-All :
      (key : Text) (found : Option Provider) (rest : Outcome (List Text))
      → provider_of key ≡ found
      → AllSearchable rest
      → AllSearchable (if_known key found (get_provider_registration u s (some key)) rest)
  known-All key none rest h more = tt
  known-All key (some p) rest h more = registered-All key _ rest {p = p} h refl more

  cleaned-All : (raw : List Text) → AllSearchable (clean_providers u s raw)
  unfolding clean_providers
  cleaned-All [] = tt
  cleaned-All (name ∷ raw) =
      let key = u.lower (strip u name) in
      let rest = clean_providers u s raw in
      elim (nonempty key)
        as (λ b. AllSearchable (
          if not b
          then rest
          else if_known key (provider_of key) (get_provider_registration u s (some key)) rest)) [
            | false ↦ cleaned-All raw
            | true ↦ known-All key (provider_of key) rest refl (cleaned-All raw)
          ]

  deduped-All :
      (names : List Text) → All (IsSearchable u s) names → All (IsSearchable u s) (deduped names)
  unfolding deduped
  deduped-All [] h = tt
  deduped-All (name ∷ names) (h, hs) =
      (h, All-keep (IsSearchable u s) _ (deduped names) (deduped-All names hs))

  named-All : (names : List Text) → All (IsSearchable u s) names → WhenNamed u s (some_named names)
  unfolding AreSearchable WhenNamed deduped
  named-All [] h = tt
  named-All (name ∷ names) h = deduped-All (name ∷ names) h

  ended-All :
      (out : Outcome (List Text)) → AllSearchable out → WhenNamed u s (and_then out some_named)
  unfolding WhenNamed
  ended-All (ok names) h = named-All names h
  ended-All (raised e) h = tt

  pub validated-AreSearchable :
      (raw : List Text) {names : List Text}
      → validate_providers u s (some raw) ≡ ok (some names)
      → AreSearchable u s names
  unfolding validate_providers WhenNamed
  validated-AreSearchable raw e =
      subst (WhenNamed u s) e (ended-All (clean_providers u s raw) (cleaned-All raw))

-- ===== src/Runner/Registry.antt =====
-- app/providers/registry.py: the providers, and the client that is chosen for one.
use wax_watch_api.Prelude.{
  Option, none, some, Bool, ◌&&◌, ◌||◌, List, [], ◌∷◌, any, get_or, if◌then◌else◌,
}
use wax_watch_api.Prelude.Text.{
  Text, codes, text_eq, text_key, strip, nonempty, truthy_text, Unicode,
}
use wax_watch_api.Prelude.Dict.{Dict, get}
use wax_watch_api.Session.{Outcome, ok, raised, value_error}
use wax_watch_api.Runner.{ProviderClient}

pub record ProviderRegistration : Type 0 where
  pub client_class : ProviderClient
  pub enabled : Bool
  pub test_client_class : Option ProviderClient

-- The settings, the environment variables and the client classes that the registry reads.
pub record RegistrySettings : Type 0 where
  pub provider_enabled : Text → Bool
  pub environment : Option Text
  pub environment_variable : Option Text
  pub provider_force_mock : Option Text
  pub discogs_client : ProviderClient
  pub mock_discogs_client : ProviderClient
  pub ebay_client : ProviderClient
  pub mock_provider : ProviderClient

abbrev is_one_of : Text → List Text → Bool
is_one_of s = any (text_eq s)

abbrev pub and_then : {A B : Type 0} → Outcome A → (A → Outcome B) → Outcome B
and_then (ok a) f = f a
and_then (raised e) f = raised e

abbrev pub if_enabled : ProviderRegistration → Outcome ProviderRegistration
if_enabled r = if r.enabled then ok r else raised value_error

-- The class for tests, or else the client's class if the provider is enabled.
abbrev pub or_enabled : Bool → ProviderClient → Option ProviderClient → Outcome ProviderClient
or_enabled enabled client_class (some test_client_class) = ok test_client_class
or_enabled enabled client_class none = if enabled then ok client_class else raised value_error

module _ (u : Unicode) (s : RegistrySettings) where
  -- `(value or "").strip().lower()`
  abbrev pub normal : Option Text → Text
  normal value = u.lower (strip u (get_or value []))

  -- `_mock_enabled`
  unfoldable pub mock_enabled : Bool
  unfolding text_eq strip
  mock_enabled =
      s.provider_enabled (codes "mock")
      && is_one_of (normal s.environment) (codes "dev" ∷ codes "test" ∷ codes "local" ∷ [])

  -- `_build_registrations`
  unfoldable pub build_registrations : Dict Text ProviderRegistration
  unfolding mock_enabled
  build_registrations =
      (
        codes "discogs",
        record {
          client_class = s.discogs_client;
          enabled = s.provider_enabled (codes "discogs");
          test_client_class = some s.mock_discogs_client;
        },
      )
      ∷ (
        codes "ebay",
        record {
          client_class = s.ebay_client;
          enabled = s.provider_enabled (codes "ebay");
          test_client_class = none;
        },
      )
      ∷ (
        codes "mock",
        record { client_class = s.mock_provider; enabled = mock_enabled; test_client_class = none },
      )
      ∷ []

  abbrev enabled_names : Dict Text ProviderRegistration → List Text
  enabled_names [] = []
  enabled_names ((name, r) ∷ rs) = if r.enabled then name ∷ enabled_names rs else enabled_names rs

  unfoldable pub list_available_providers : List Text
  unfolding build_registrations
  list_available_providers = enabled_names build_registrations

  abbrev pub registration_of : Text → Outcome ProviderRegistration
  registration_of key =
      if nonempty key
      then elim (get key build_registrations) [ none ↦ raised value_error | some r ↦ ok r ]
      else raised value_error

  unfoldable pub get_provider_registration : Option Text → Outcome ProviderRegistration
  unfolding build_registrations get strip
  get_provider_registration name = and_then (registration_of (normal name)) if_enabled

  -- `env == "test" or force_mock`
  unfoldable pub uses_tests : Bool
  unfolding text_eq strip
  uses_tests =
      text_eq (u.lower (get_or (truthy_text s.environment_variable) (codes "dev"))) (codes "test")
      || is_one_of (normal s.provider_force_mock) (codes "1" ∷ codes "true" ∷ codes "yes" ∷ [])

  abbrev pub test_class : ProviderRegistration → Option ProviderClient
  test_class r = if uses_tests then r.test_client_class else none

  unfoldable pub get_provider_class : Option Text → Outcome ProviderClient
  unfolding build_registrations get strip uses_tests
  get_provider_class name =
      and_then (registration_of (normal name))
        (λ r. or_enabled r.enabled r.client_class (test_class r))

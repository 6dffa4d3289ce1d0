-- ===== src/Search.antt =====
-- app/services/search.py: a search over the marketplaces, and the alert that keeps its query as a
-- rule. app/schemas/search.py: the query, with its validators, and the page of a result.
pub mod Filter
pub mod Schema
pub mod Ascending
pub mod Clients
pub mod Answers
pub mod Contents
pub mod Page
mod Examples
use wax_watch_api.Prelude.{
  ℕ, ◌+◌, ◌-◌, ◌*◌, ◌/◌, ◌==◌, ltb, leb, Option, none, some, Bool, true, false, not, ◌&&◌, ◌||◌,
  List, [], ◌∷◌, ◌++◌, length, map, keep, take, drop, any, if◌then◌else◌, ◌↔◌, ◌≡◌, arith,
}
use wax_watch_api.Prelude.Text.{Text, codes, text_eq, text_eq_iff, text_key, strip, Unicode}
use wax_watch_api.Prelude.Sort.{sort_by}
use wax_watch_api.Prelude.Dict.{Dict, Key, get, put}
use wax_watch_api.Json.{Json, null, number, text, arr, to_items}
use wax_watch_api.Prelude.Int.{pos}
use wax_watch_api.Models.{Provider, provider_value, Listing, WatchSearchRule}
use wax_watch_api.Environment.{Environment}
use wax_watch_api.Session.{Action, Outcome, ok, raised, value_error, lift, pure, gets, ◌>>=◌, ◌>>◌}
use wax_watch_api.Ingest.Listings.{Payload, provider_of}
use wax_watch_api.Mapping.Tokens.{precedes}
use wax_watch_api.WatchRules.Store.{create_watch_rule}
use wax_watch_api.Runner.{Searched, found, refused, crashed, ProviderClient}
use wax_watch_api.Runner.Registry.{RegistrySettings, list_available_providers, get_provider_class}
use wax_watch_api.Runner.Requests.{log_requests, logs_of, listings_of, provider_or_raise}
use Schema.{SearchQuery, SearchPagination, build}
use wax_watch_api.Search.Filter.{page_items, passes_filters, sort_items}

pub record SearchListingOut : Type 0 where
  pub id : Text
  pub listing_id : Option ℕ
  pub provider : Text
  pub external_id : Text
  pub title : Text
  pub url : Text
  pub price : ℕ
  pub currency : Option Text
  pub condition : Option Text
  pub seller : Option Text
  pub location : Option Text
  pub discogs_release_id : Option ℕ

-- `_to_listing_out`
unfoldable pub to_listing_out : Option ℕ → Payload → SearchListingOut
to_listing_out listing_id item = record {
  id = item.provider ++ codes ":" ++ item.external_id;
  listing_id = listing_id;
  provider = item.provider;
  external_id = item.external_id;
  title = item.title;
  url = item.url;
  price = item.price;
  currency = item.currency;
  condition = item.condition;
  seller = item.seller;
  location = item.location;
  discogs_release_id = item.discogs_release_id;
}

pub record SearchResponse : Type 0 where
  pub items : List SearchListingOut
  pub pagination : SearchPagination
  pub providers_searched : List Text
  pub provider_errors : Dict Text Text

-- The three collections that the loop over the providers fills.
pub record Gathered : Type 0 where
  pub providers_searched : List Text
  pub provider_errors : Dict Text Text
  pub listings : List Payload

abbrev pub nothing_gathered : Gathered
nothing_gathered = record { providers_searched = []; provider_errors = []; listings = [] }

abbrev noted : Text → Searched → Dict Text Text → Dict Text Text
noted name (found ls) errors = errors
noted name (refused e) errors = put name e.message errors
noted name (crashed message class_name) errors = put name message errors

abbrev pub gather : Text → Searched → Gathered → Gathered
gather name answer g = record {
  providers_searched = g.providers_searched ++ name ∷ [];
  provider_errors = noted name answer g.provider_errors;
  listings = g.listings ++ listings_of answer;
}

-- The provider and the external id of a stored listing.
pub same_pair_iff : (a b : Text × Text) → ((text_eq a.0 b.0 && text_eq a.1 b.1) ≡ true) ↔ (a ≡ b)
same_pair_iff (p, x) (q, y) = ground (arith, text_eq_iff p q, text_eq_iff x y)

instance abbrev pub pair_key : Key (Text × Text)
pair_key = record { beq = λ a b. text_eq a.0 b.0 && text_eq a.1 b.1; beq_iff = same_pair_iff }

unfoldable pub known_providers : List Payload → Outcome (List Provider)
unfolding provider_of
known_providers [] = ok []
known_providers (p ∷ ps) = elim (provider_of p.provider) [
  | none ↦ raised value_error
  | some provider ↦ elim (known_providers ps) [
    | ok more ↦ ok (provider ∷ more)
    | raised e ↦ raised e
  ]
]

abbrev pub is_provider_of : List Provider → Listing → Bool
is_provider_of ps l = any (λ p. text_eq (provider_value p) (provider_value l.provider)) ps

-- The rows of the query: the provider is that of an item, and so is the external id.
abbrev pub rows_for : List Provider → List Payload → List Listing → List Listing
rows_for ps items =
    keep (λ l. is_provider_of ps l && any (λ i. text_eq i.external_id l.external_id) items)

abbrev remembered : List Listing → Dict (Text × Text) ℕ → Dict (Text × Text) ℕ
remembered [] ids = ids
remembered (l ∷ ls) ids = remembered ls (put (provider_value l.provider, l.external_id) l.id ids)

-- `persisted_listing_ids`
unfoldable pub persisted_ids : List Payload → Action (Dict (Text × Text) ℕ)
unfolding known_providers put text_eq
persisted_ids [] = pure []
persisted_ids (i ∷ items) = do
  providers ← lift (known_providers (i ∷ items))
  rows ← gets (λ w. rows_for providers (i ∷ items) w.listings)
  pure (remembered rows [])

abbrev pub outs : Dict (Text × Text) ℕ → List Payload → List SearchListingOut
outs ids = map (λ i. to_listing_out (get (i.provider, i.external_id) ids) i)

abbrev optional : {A : Type 0} → (A → Json) → Option A → Json
optional f none = null
optional f (some a) = f a

abbrev price_json : Option ℕ → Json
price_json = optional (λ n. number (pos n))

abbrev texts : List Text → Json
texts names = arr (to_items (map text names))

abbrev pub provider_query : SearchQuery → Dict Text Json
provider_query query =
    (codes "keywords", texts query.keywords)
    ∷ (codes "min_price", price_json query.min_price)
    ∷ (codes "max_price", price_json query.max_price)
    ∷ (codes "min_condition", optional text query.min_condition)
    ∷ []

-- The rule that an alert stores.
abbrev pub alert_query : List Text → SearchQuery → Dict Text Json
alert_query providers query =
    (codes "keywords", texts query.keywords)
    ∷ (codes "sources", texts providers)
    ∷ (codes "min_price", price_json query.min_price)
    ∷ (codes "max_price", price_json query.max_price)
    ∷ (codes "min_condition", optional text query.min_condition)
    ∷ []

-- `if query.providers:`
abbrev nonempty_list : Option (List Text) → Option (List Text)
nonempty_list none = none
nonempty_list (some []) = none
nonempty_list (some (name ∷ names)) = some (name ∷ names)

abbrev is_supported : Text → Bool
is_supported key = elim (provider_of key) [ none ↦ false | some p ↦ true ]

module _ (env : Environment) (registry : RegistrySettings) where
  unfoldable pub default_providers : List Text
  unfolding list_available_providers provider_of
  default_providers = keep is_supported (list_available_providers env.unicode registry)

  unfoldable pub resolve_providers : SearchQuery → List Text
  unfolding default_providers
  resolve_providers query = elim (nonempty_list query.providers) [
    | some names ↦ names
    | none ↦ default_providers
  ]

  -- One provider. The number of the logged requests tells the searches apart.
  unfoldable pub search_provider :
      ℕ → SearchQuery → Text → Provider → ProviderClient → Gathered → Action Gathered
  unfolding log_requests put
  search_provider user_id query name provider client g = do
    n ← gets (λ w. length w.provider_requests)
    let answer = client.search n (provider_query query) (query.page * query.page_size)
    log_requests user_id provider (logs_of client answer)
    pure (gather name answer.result g)

  unfoldable pub search_providers : ℕ → SearchQuery → List Text → Gathered → Action Gathered
  unfolding search_provider get_provider_class provider_or_raise
  search_providers user_id query [] g = pure g
  search_providers user_id query (name ∷ names) g = do
    provider ← lift (provider_or_raise name)
    client ← lift (get_provider_class env.unicode registry (some name))
    more ← search_provider user_id query name provider client g
    search_providers user_id query names more

  abbrev pub response :
      SearchQuery → Gathered → List Payload → Dict (Text × Text) ℕ → SearchResponse
  response query g filtered ids = record {
    items = outs ids (page_items query filtered);
    pagination =
        build query.page query.page_size (length filtered)
          (length (outs ids (page_items query filtered)));
    providers_searched = g.providers_searched;
    provider_errors = g.provider_errors;
  }

  -- What follows the loop over the providers.
  unfoldable pub assemble : SearchQuery → Gathered → Action SearchResponse
  unfolding persisted_ids passes_filters sort_items page_items build to_listing_out
  assemble query g = do
    let filtered = sort_items (keep (passes_filters env.unicode query) g.listings)
    ids ← persisted_ids (page_items query filtered)
    pure (response query g filtered ids)

  unfoldable pub run_search : ℕ → SearchQuery → Action SearchResponse
  unfolding search_providers resolve_providers assemble
  run_search user_id query = do
    g ← search_providers user_id query (resolve_providers query) nothing_gathered
    assemble query g

  unfoldable pub save_search_alert : ℕ → Text → SearchQuery → ℕ → Action WatchSearchRule
  unfolding resolve_providers create_watch_rule
  save_search_alert user_id name query seconds =
      create_watch_rule env user_id name (alert_query (resolve_providers query) query) seconds

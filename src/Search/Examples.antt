-- ===== src/Search/Examples.antt =====
-- A search of one marketplace, and of one that refuses.
use wax_watch_api.Prelude.{ℕ, Option, List, ◌≡◌, refl, none, some, true, [], ◌∷◌, map}
use wax_watch_api.Prelude.Text.{Text, codes, text_eq, ascii}
use wax_watch_api.Prelude.Dict.{Dict}
use wax_watch_api.Session.{World, ◌>>=◌, now_utc, fresh_id, Outcome, ok, raised}
use wax_watch_api.Session.Ensures.{Post}
use wax_watch_api.Ingest.Listings.{Payload, provider_of}
use wax_watch_api.Models.{discogs}
use wax_watch_api.Runner.{Searched, ProviderClient, found, refused}
use wax_watch_api.Runner.Registry.{RegistrySettings}
use wax_watch_api.Samples.{environment, world}
use wax_watch_api.Search.Schema.{SearchQuery, within_bounds, validate_providers}
use wax_watch_api.Search.{SearchResponse, run_search}
use wax_watch_api.Search.Clients.{HasHonestClients}
use wax_watch_api.Search.Page.{run_search-IsPage}
use wax_watch_api.Search.Contents.{IsPage}

abbrev item : Text → ℕ → Payload
item id price = record {
  provider = codes "discogs";
  external_id = id;
  url = codes "http";
  title = codes "Kind of Blue";
  price = price;
  currency = some (codes "USD");
  condition = some (codes " VG+ ");
  seller = none;
  location = none;
  discogs_release_id = none;
  discogs_master_id = none;
  raw = none;
}

abbrev answering : Searched → ProviderClient
answering answer = record {
  default_endpoint = codes "/";
  search = λ n query limit. record {
    logged = [];
    last_duration_ms = none;
    last_request_meta = none;
    result = answer;
  };
}

abbrev down : Searched
down = refused (record {
  message = codes "down";
  status_code = some 503;
  meta = none;
  endpoint = none;
  method = codes "GET";
  duration_ms = none;
})

abbrev registry : RegistrySettings
registry = record {
  provider_enabled = λ name. true;
  environment = some (codes "prod");
  environment_variable = some (codes "prod");
  provider_force_mock = none;
  discogs_client =
      answering
        (found (item (codes "b") 300000 ∷ item (codes "c") 900000 ∷ item (codes "a") 200000 ∷ []));
  mock_discogs_client = answering (found []);
  ebay_client = answering down;
  mock_provider = answering (found []);
}

abbrev query : SearchQuery
query = record {
  keywords = codes "blue" ∷ [];
  providers = some (codes "discogs" ∷ codes "ebay" ∷ []);
  min_price = none;
  max_price = some 500000;
  min_condition = some (codes "VG");
  page = 1;
  page_size = 24;
}

abbrev prices : Outcome SearchResponse × World → Option (List ℕ × Dict Text Text)
prices (ok out, w) = some (map (λ o. o.price) out.items, out.provider_errors)
prices (raised e, w) = none

searched_both :
    prices (run_search environment registry 1 query world)
    ≡ some (200000 ∷ 300000 ∷ [], (codes "ebay", codes "down") ∷ [])
unfolding run_search ◌>>=◌ now_utc fresh_id
searched_both = refl

registry_honest : HasHonestClients registry
unfolding provider_of text_eq
registry_honest = record {
  discogs = λ n query limit. ((discogs, refl), ((discogs, refl), ((discogs, refl), tt)));
  mock_discogs = λ n query limit. tt;
  ebay = λ n query limit. tt;
  mock = λ n query limit. tt;
}

run_search-IsPage_example :
    Post
      (λ out _. IsPage ascii registry query (codes "discogs" ∷ codes "ebay" ∷ []) out)
      (λ _. ⊥)
      (run_search environment registry 1 query world)
unfolding validate_providers within_bounds
run_search-IsPage_example =
    run_search-IsPage environment registry 1 query
      (codes " Discogs" ∷ codes "eBay" ∷ codes "discogs" ∷ []) (codes "discogs" ∷ codes "ebay" ∷ [])
      world registry_honest refl refl refl

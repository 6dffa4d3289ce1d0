-- ===== src/WatchRules/Examples.antt =====
-- An update of a rule.
use wax_watch_api.Prelude.{◌≡◌, refl, none, some, true, false, [], ◌∷◌}
use wax_watch_api.Prelude.Text.{Text, codes, text_key, text_eq, ascii}
use wax_watch_api.Prelude.Dict.{Dict, get}
use wax_watch_api.Json.{Json, null, number}
use wax_watch_api.Prelude.Int.{pos}
use wax_watch_api.Session.{ok}
use wax_watch_api.Session.Keeps.{Holds}
use wax_watch_api.WatchRules.Merge.{merge, has_sources, IsDict, updated_value, get-merge}
use wax_watch_api.WatchRules.Store.{
  RuleUpdate, update_watch_rule, disable_watch_rule, delete_watch_rule,
}
use wax_watch_api.WatchRules.Store.Sources.{IsSourced, AllSourced, rules_keep_sources}
use wax_watch_api.WatchRules.Validate.{look, validate_max_price}
use wax_watch_api.WatchRules.Schema.{texts, require_sources_on_create}
use wax_watch_api.WatchRules.Schema.Accepted.{HasGoodSources, require_sources_on_create-Accepted}
use wax_watch_api.Samples.{environment, world, rule, registry}

abbrev cheaper : Dict Text Json
cheaper = (codes "max_price", number (pos 100000)) ∷ (codes "keywords", null) ∷ []

cheaper-IsDict : IsDict cheaper
unfolding IsDict get text_eq
cheaper-IsDict = (refl, (refl, tt))

get-merge_example :
    get (codes "keywords") (merge rule.query cheaper)
    ≡ updated_value (get (codes "keywords") cheaper) (get (codes "keywords") rule.query)
get-merge_example = get-merge (codes "keywords") rule.query cheaper cheaper-IsDict

abbrev update : RuleUpdate
update = record {
  name = some (codes "cheap jazz");
  query = some cheaper;
  is_active = some false;
  poll_interval_seconds = none;
}

world-AllSourced : Holds AllSourced world
unfolding IsSourced has_sources get text_eq
world-AllSourced = record { here = record { sourced = (refl, tt) }; elsewhere = (λ t h. h, tt) }

rules_keep_sources_example :
    Holds AllSourced (update_watch_rule environment 1 10 update world).1
    × Holds AllSourced (disable_watch_rule environment 1 10 world).1
    × Holds AllSourced (delete_watch_rule environment 1 10 world).1
rules_keep_sources_example = rules_keep_sources environment 1 10 update world world-AllSourced

-- A request's query, and what the schema makes of it.
abbrev requested : Dict Text Json
requested =
    (codes "max_price", number (pos 400000))
    ∷ (codes "sources", texts (codes "Discogs " ∷ codes "" ∷ codes "discogs" ∷ []))
    ∷ (codes "keywords", texts (codes " Jazz" ∷ []))
    ∷ []

abbrev accepted_query : Dict Text Json
accepted_query =
    (codes "max_price", number (pos 400000))
    ∷ (codes "sources", texts (codes "discogs" ∷ []))
    ∷ (codes "keywords", texts (codes "jazz" ∷ []))
    ∷ []

request_normalized : require_sources_on_create ascii registry requested ≡ ok accepted_query
unfolding require_sources_on_create
request_normalized = refl

require_sources_on_create-Accepted_example :
    HasGoodSources ascii registry accepted_query
    × (has_sources accepted_query ≡ true)
    × (validate_max_price (look (codes "max_price") accepted_query) world ≡ (ok tt, world))
require_sources_on_create-Accepted_example =
    require_sources_on_create-Accepted ascii registry requested accepted_query world
      request_normalized

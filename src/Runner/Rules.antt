-- ===== src/Runner/Rules.antt =====
-- app/services/ingest.py: `ingest_and_match`. app/services/rule_runner.py: `run_rule_once`.
use wax_watch_api.Prelude.{
  ℕ, ◌+◌, Option, none, some, Bool, not, List, [], ◌∷◌, length, if◌then◌else◌,
}
use wax_watch_api.Prelude.Text.{Text, codes, text_key, strip, nonempty}
use wax_watch_api.Prelude.Dict.{get, put}
use wax_watch_api.Json.{Json, text, as_list}
use wax_watch_api.Models.{Provider, WatchSearchRule}
use wax_watch_api.Environment.{Environment}
use wax_watch_api.Session.{
  Action, Outcome, ok, raised, value_error, attribute_error, lift, pure, raise, gets, ◌>>=◌, ◌>>◌,
  option_case,
}
use wax_watch_api.Outbox.{begin_nested}
use wax_watch_api.WatchRules.Owner.{ensure_user_exists}
use wax_watch_api.WatchRules.Store.{rule_of}
use wax_watch_api.Ingest.Match.{str_of}
use wax_watch_api.Ingest.Listings.{Payload, upsert_listing}
use wax_watch_api.Ingest.Matches.{match_listing_to_rules}
use wax_watch_api.Mapping.{default_confidence_threshold, enrich_listing_mapping}
use wax_watch_api.Runner.{ProviderClient}
use wax_watch_api.Runner.Requests.{log_requests, logs_of, listings_of, provider_or_raise}
use wax_watch_api.Runner.Registry.{RegistrySettings, get_provider_class}

-- What `ingest_and_match` returns, less the listing.
pub record Ingested : Type 0 where
  pub created_listing : Bool
  pub created_snapshot : Bool
  pub created_matches : ℕ

pub record RuleRunSummary : Type 0 where
  pub fetched : ℕ
  pub listings_created : ℕ
  pub snapshots_created : ℕ
  pub matches_created : ℕ

abbrev pub nothing_done : RuleRunSummary
nothing_done = record {
  fetched = 0;
  listings_created = 0;
  snapshots_created = 0;
  matches_created = 0;
}

abbrev as_count : Bool → ℕ
as_count b = if b then 1 else 0

abbrev pub add_ingested : Ingested → RuleRunSummary → RuleRunSummary
add_ingested i s = record s {
  listings_created = s.listings_created + as_count i.created_listing;
  snapshots_created = s.snapshots_created + as_count i.created_snapshot;
  matches_created = s.matches_created + i.created_matches;
}

module _ (env : Environment) (print : Json → Text) where
  unfoldable pub ingest_listing : ℕ → Payload → Action Ingested
  unfolding ensure_user_exists upsert_listing enrich_listing_mapping match_listing_to_rules
  ingest_listing user_id p = do
    user ← ensure_user_exists env user_id
    upserted ← upsert_listing env p
    option_case upserted.listing (raise attribute_error) (λ l. do
      (enriched, changed) ← enrich_listing_mapping env default_confidence_threshold user_id l
      made ← match_listing_to_rules env print user_id enriched
      pure (record {
        created_listing = upserted.created_listing;
        created_snapshot = upserted.created_snapshot;
        created_matches = made;
      }))

  -- The session is in a transaction: `_ingest_transaction` opens a savepoint.
  unfoldable pub ingest_and_match : ℕ → Payload → Action Ingested
  unfolding ingest_listing begin_nested
  ingest_and_match user_id p = begin_nested env (ingest_listing user_id p)

  abbrev named : List Json → List Text
  named [] = []
  named (v ∷ vs) =
      let s = strip env.unicode (str_of print v) in
      if nonempty s then env.unicode.lower s ∷ named vs else named vs

  abbrev sources_in : Option (List Json) → Outcome (List Text)
  sources_in none = raised value_error
  sources_in (some []) = raised value_error
  sources_in (some (v ∷ vs)) = ok (named (v ∷ vs))

  abbrev list_in : Option Json → Option (List Json)
  list_in none = none
  list_in (some v) = as_list v

  -- `_providers_for_rule`
  unfoldable pub providers_for_rule : WatchSearchRule → Outcome (List Text)
  unfolding get strip
  providers_for_rule rule = sources_in (list_in (get (codes "sources") rule.query))

  unfoldable pub ingest_listings : ℕ → List Payload → RuleRunSummary → Action RuleRunSummary
  unfolding ingest_and_match
  ingest_listings user_id [] s = pure s
  ingest_listings user_id (p ∷ ps) s = do
    i ← ingest_and_match user_id p
    ingest_listings user_id ps (add_ingested i s)

  -- One source. The number of the logged requests tells the searches apart.
  unfoldable pub run_source :
      ProviderClient
      → Provider
      → WatchSearchRule
      → ℕ
      → (seed : Text) → RuleRunSummary
      → Action RuleRunSummary
  unfolding log_requests ingest_listings put
  run_source client provider rule limit seed s = do
    n ← gets (λ w. length w.provider_requests)
    let answer = client.search n (put (codes "_seed") (text seed) rule.query) limit
    log_requests rule.user_id provider (logs_of client answer)
    let ls = listings_of answer.result
    ingest_listings rule.user_id ls (record s { fetched = s.fetched + length ls })

  module _ (registry : RegistrySettings) (seed_of : ℕ → Text) where
    unfoldable pub run_sources :
        WatchSearchRule → ℕ → List Text → RuleRunSummary → Action RuleRunSummary
    unfolding run_source get_provider_class provider_or_raise
    run_sources rule limit [] s = pure s
    run_sources rule limit (source ∷ sources) s = do
      provider ← lift (provider_or_raise source)
      client ← lift (get_provider_class env.unicode registry (some source))
      more ← run_source client provider rule limit (seed_of rule.id) s
      run_sources rule limit sources more

    unfoldable pub run_rule_once : (user_id rule_id limit : ℕ) → Action RuleRunSummary
    unfolding run_sources providers_for_rule
    run_rule_once user_id rule_id limit = do
      row ← gets (λ w. rule_of user_id rule_id w.rules)
      option_case row (raise value_error) (λ rule.
          if not rule.is_active then pure nothing_done else (do
            sources ← lift (providers_for_rule rule)
            run_sources rule limit sources nothing_done))

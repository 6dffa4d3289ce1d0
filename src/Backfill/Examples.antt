-- ===== src/Backfill/Examples.antt =====
-- A backfill of the rule of the samples.
use wax_watch_api.Prelude.{none, true, []}
use wax_watch_api.Prelude.Text.{Text}
use wax_watch_api.Json.{Json}
use wax_watch_api.Session.Keeps.{Holds}
use wax_watch_api.Ingest.Matches.{match_listing_to_rules}
use wax_watch_api.Ingest.Matches.Pairs.{IsPairwise, UniqueMatches}
use wax_watch_api.Backfill.{Settings, backfill_matches_for_rule}
use wax_watch_api.Backfill.Unique.{matches_unique}
use wax_watch_api.Samples.{environment, world, listing}

abbrev print : Json → Text
print v = []

abbrev settings : Settings
settings = record {
  dev_backfill_on_rule_change = true;
  dev_backfill_days = 7;
  dev_backfill_limit = 50;
}

world-UniqueMatches : Holds UniqueMatches world
unfolding IsPairwise
world-UniqueMatches = record { here = record { pairwise = tt }; elsewhere = (λ t h. h, tt) }

matches_unique_example :
    Holds UniqueMatches (match_listing_to_rules environment print 1 listing world).1
    × Holds UniqueMatches
        (backfill_matches_for_rule environment print settings 1 10 none none world).1
matches_unique_example =
    matches_unique environment print settings 1 10 none none listing world world-UniqueMatches

-- ===== src/Mapping/Examples.antt =====
-- A listing that is mapped to a watched release.
use wax_watch_api.Prelude.{some, [], ◌∷◌}
use wax_watch_api.Prelude.Text.{codes}
use wax_watch_api.Json.{text}
use wax_watch_api.Models.{Listing}
use wax_watch_api.Session.{World}
use wax_watch_api.Mapping.{default_confidence_threshold, enrich_listing_mapping}
use wax_watch_api.Mapping.Choice.{enriched_of}
use wax_watch_api.Samples.{environment, listing, release, alone}

abbrev by_artist : Listing
by_artist = record listing { raw = some ((codes "artist", text (codes "Miles Davis")) ∷ []) }

abbrev shelf : World
shelf = record alone {
  db = record alone.db { releases = record release { artist = some (codes "Miles Davis") } ∷ [] };
}

abbrev after : Listing
after =
    enriched_of by_artist
      (enrich_listing_mapping environment default_confidence_threshold 1 by_artist shelf).0

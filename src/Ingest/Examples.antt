-- ===== src/Ingest/Examples.antt =====
-- A listing that is ingested and matched.
use wax_watch_api.Prelude.{◌≡◌, ◌↔◌, refl, none, some, true, [], arith, ◌∷◌, false}
use wax_watch_api.Prelude.Text.{Text, codes, text_eq, ascii, strip, lstrip, is_in, starts_with}
use wax_watch_api.Prelude.Text.Words.{join, split, split_from}
use wax_watch_api.Prelude.Dict.{get}
use wax_watch_api.Json.{Json, text, arr, to_items, truthy}
use wax_watch_api.Session.Keeps.{Holds}
use wax_watch_api.Session.Ensures.{Post}
use wax_watch_api.Ingest.Title.{spaced, normalize_title}
use wax_watch_api.Ingest.Match.{list_of, words, rule_currency, rule_matches_listing}
use wax_watch_api.Ingest.Match.Meaning.{
  IsOneOf, here, SourceAllowed, PriceAllowed, KeywordsFound, rule_matches_iff,
}
use wax_watch_api.Ingest.Match.Punctuation.{IsPunctuation, punctuated_never}
use wax_watch_api.Models.{WatchSearchRule}
use wax_watch_api.Ingest.Listings.{Payload, upsert_listing}
use wax_watch_api.Ingest.Listings.Unique.{IsUnique, UniqueListings, upsert_unique}
use wax_watch_api.Ingest.Matches.{create_match_if_needed}
use wax_watch_api.Ingest.Matches.Repeat.{Again, NotDeleted, matched_once}
use wax_watch_api.Samples.{environment, world, rule, listing}

abbrev print : Json → Text
print v = []

title_normalized : normalize_title ascii (codes "Kind of Blue!") ≡ codes "kind of blue"
unfolding normalize_title spaced join split split_from
title_normalized = refl

rule_matches :
    rule_matches_listing ascii print rule listing (codes "kind of blue") (some (codes "EUR")) ≡ true
unfolding rule_matches_listing list_of words rule_currency get truthy strip lstrip is_in starts_with
    text_eq
rule_matches = refl

rule_matches_iff_example :
    (rule_matches_listing ascii print rule listing (codes "kind of blue") (some (codes "EUR"))
      ≡ true)
    ↔ (SourceAllowed ascii print rule listing
        × PriceAllowed ascii print rule listing (some (codes "EUR"))
        × KeywordsFound ascii print rule (codes "kind of blue"))
rule_matches_iff_example =
    rule_matches_iff ascii print rule listing (codes "kind of blue") (some (codes "EUR"))

abbrev payload : Payload
payload = record {
  provider = codes "discogs";
  external_id = codes "x2";
  url = codes "http";
  title = codes "Blue Train";
  price = 150000;
  currency = none;
  condition = none;
  seller = none;
  location = none;
  discogs_release_id = none;
  discogs_master_id = none;
  raw = none;
}

world-UniqueListings : Holds UniqueListings world
unfolding IsUnique
world-UniqueListings = record { here = record { unique = (refl, tt) }; elsewhere = (λ t h. h, tt) }

upsert_unique_example : Holds UniqueListings (upsert_listing environment payload world).1
upsert_unique_example = upsert_unique environment payload world world-UniqueListings

world-NotDeleted : NotDeleted rule.id listing.id world
world-NotDeleted = record { elsewhere = (λ t h. h, tt) }

matched_once_example :
    Post
      (λ _. Again environment print 1 rule listing)
      (λ _. Unit {0})
      (create_match_if_needed environment print 1 rule listing world)
matched_once_example = matched_once environment print 1 rule listing world world-NotDeleted

abbrev band : WatchSearchRule
band = record rule { query = (codes "keywords", arr (to_items (text (codes "A-ha") ∷ []))) ∷ [] }

hyphen-IsPunctuation : IsPunctuation ascii b'-'
hyphen-IsPunctuation = record { not_blank = refl; not_lower = λ c h. (ground arith, tt) }

band_keyword : IsOneOf (codes "a-ha") (words ascii print (list_of (codes "keywords") band.query))
unfolding words list_of get strip lstrip text_eq
band_keyword = here

punctuated_never_example :
    rule_matches_listing ascii print band listing
      (normalize_title ascii (codes "A-ha: Take On Me"))
      none
    ≡ false
punctuated_never_example =
    punctuated_never ascii print b'-' band (codes "a-ha") listing (codes "A-ha: Take On Me") none
      hyphen-IsPunctuation band_keyword refl

-- ===== src/Providers/Examples.antt =====
-- Searches that are answered at the second attempt.
use wax_watch_api.Prelude.{
  ℕ, ◌≤◌, ◌==◌, max, suc, ◌≡◌, refl, arith, none, some, List, [], ◌∷◌, All, length, map,
  if◌then◌else◌,
}
use wax_watch_api.Prelude.Text.{Text, codes, ascii, text_eq}
use wax_watch_api.Prelude.Int.{pos}
use wax_watch_api.Prelude.Dict.{Dict}
use wax_watch_api.Json.{Json, text, number, arr, obj, to_items, to_fields}
use wax_watch_api.Ingest.Listings.{Payload}
use wax_watch_api.Runner.Requests.{listings_of}
use wax_watch_api.Providers.{Reply, unreachable, answered, Python, RetrySettings, Wire}
use wax_watch_api.Providers.Attempts.{tries}
use wax_watch_api.Providers.Discogs.{discogs_api, discogs_search}
use wax_watch_api.Providers.Ebay.{ebay_search}
use wax_watch_api.Providers.EbayToken.{EbaySettings}
use wax_watch_api.Providers.Delays.{IsDelay}
use wax_watch_api.Providers.Retry.{IsRun, tries-IsRun, searches_bounded}
use wax_watch_api.Providers.Listings.{IsListed, searches-IsListed}

abbrev py : Python
py = record {
  unicode = ascii;
  read_float = λ s. if text_eq s (codes "12.50") then some (pos 125000) else none;
  show = λ n. n ∷ [];
  print = λ v. codes "7";
  no_attribute = λ v. [];
  not_iterable = λ v. [];
  no_json = λ s. [];
}

abbrev retrying : RetrySettings
retrying = record { max_attempts = 4; retry_base_delay_ms = 250; retry_max_delay_ms = 5000 }

abbrev settings : EbaySettings
settings = record {
  client_id = some (codes "id");
  client_secret = some (codes "secret");
  retrying = retrying;
}

abbrev answer : ℕ → Json → Reply
answer status body =
    answered
      (record { status_code = status; header = λ name. none; body = some body; content = [] })

abbrev entry : Json
entry = obj (
    to_fields (
      (codes "id", number (pos 70000))
      ∷ (codes "itemId", text (codes "v1"))
      ∷ (codes "title", text (codes " Kind of Blue"))
      ∷ (codes "uri", text (codes "/release/7"))
      ∷ (codes "itemWebUrl", text (codes "http"))
      ∷ (codes "price", obj (to_fields ((codes "value", text (codes "12.50")) ∷ [])))
      ∷ []))

-- One entry is no listing, since it has no title.
abbrev page : Json
page =
    let entries = arr (to_items (entry ∷ obj (to_fields []) ∷ [])) in
    obj (to_fields ((codes "results", entries) ∷ (codes "itemSummaries", entries) ∷ []))

abbrev wire : Wire
wire = record {
  reply =
      λ authorization q limit attempt. if attempt == 1 then answer 503 page else answer 200 page;
  took = λ attempt. 40;
  elapsed = λ attempt. 400;
  random = λ attempt. 5000;
  token_reply = answer 200 (obj (to_fields ((codes "access_token", text (codes "t")) ∷ [])));
  token_took = 30;
}

abbrev query : Dict Text Json
query = (codes "keywords", arr (to_items (text (codes "blue ") ∷ []))) ∷ []

abbrev summary : List Payload → List (Text × ℕ)
summary = map (λ (l : Payload). (l.external_id, l.price))

found_at_both :
    (summary (listings_of (discogs_search py retrying (codes "t") wire query 24).result)
      ≡ (codes "7", 0) ∷ [])
    × (summary (listings_of (ebay_search py settings wire query 24).result)
        ≡ (codes "v1", 125000) ∷ [])
unfolding discogs_search ebay_search text_eq
found_at_both = (refl, refl)

delays_doubled :
    (tries py retrying (discogs_api py 4) wire (λ attempt. unreachable []) 3 1).slept
    ≡ 2500 ∷ 5000 ∷ 10000 ∷ []
unfolding tries
delays_doubled = refl

tries-IsRun_example :
    IsRun 4 (tries py retrying (discogs_api py 4) wire (wire.reply [] [] 24) 3 1)
    × All
        (IsDelay py retrying (wire.reply [] [] 24))
        (tries py retrying (discogs_api py 4) wire (wire.reply [] [] 24) 3 1).slept
tries-IsRun_example =
    tries-IsRun py retrying (discogs_api py 4) wire (wire.reply [] [] 24) 3 1 (λ n. omega arith)

searches_bounded_example :
    (length (discogs_search py retrying (codes "t") wire query 24).logged ≤ max 4 1)
    × (length (ebay_search py settings wire query 24).logged ≤ suc (max 4 1))
searches_bounded_example = searches_bounded py retrying (codes "t") settings wire query 24

searches-IsListed_example :
    All
      (IsListed (codes "discogs"))
      (listings_of (discogs_search py retrying (codes "t") wire query 24).result)
    × All (IsListed (codes "ebay")) (listings_of (ebay_search py settings wire query 24).result)
searches-IsListed_example = searches-IsListed py retrying (codes "t") settings wire query 24

-- ===== src/Providers/Discogs.antt =====
-- app/providers/discogs.py: `DiscogsClient`. The identifiers of Discogs are natural numbers.
use wax_watch_api.Prelude.{
  ℕ, ◌-◌, ◌/◌, max, min, Option, none, some, true, ◌&&◌, List, [], ◌∷◌, ◌++◌, if◌then◌else◌,
}
use wax_watch_api.Prelude.Text.{Text, codes, text_key, strip, nonempty}
use wax_watch_api.Prelude.Int.{pos_part}
use wax_watch_api.Prelude.Dict.{Dict, get}
use wax_watch_api.Json.{Json, number, boolean, obj, fields, to_fields, unit, truthy, is_null}
use wax_watch_api.WatchRules.Validate.{look}
use wax_watch_api.Ingest.Match.{str_of}
use wax_watch_api.Ingest.Listings.{Payload}
use wax_watch_api.Runner.{refused, Search, ProviderClient}
use wax_watch_api.Providers.{HttpResponse, Python, RetrySettings, Wire}
use wax_watch_api.Providers.Answers.{
  Computed, value, thrown, trimmed, query_text, listings_in, searched, count, optional_number,
  optional_text,
}
use wax_watch_api.Providers.Attempts.{
  Api, Ended, arrived, failed, Tries, tries, parse_retry_after_seconds,
}

abbrev header_names : List Text
header_names =
    codes "Retry-After"
    ∷ codes "X-Discogs-Ratelimit"
    ∷ codes "X-Discogs-Ratelimit-Remaining"
    ∷ codes "X-Discogs-Ratelimit-Used"
    ∷ []

abbrev headers_of : HttpResponse → List Text → Dict Text Json
headers_of r [] = []
headers_of r (name ∷ names) = (name, optional_text (r.header name)) ∷ headers_of r names

-- `_response_meta`
unfoldable pub discogs_meta : (attempt total : ℕ) → Option ℕ → Dict Text Json → Dict Text Json
unfolding get
discogs_meta attempt total retry_after headers =
    (codes "attempt", count attempt)
    ∷ (codes "attempts_total", count total)
    ∷ (codes "max_attempts", count total)
    ∷ (codes "retry_after_seconds", optional_number retry_after)
    ∷ (codes "headers", obj (to_fields headers))
    ∷ (codes "rate_limit", look (codes "X-Discogs-Ratelimit") headers)
    ∷ (codes "rate_limit_remaining", look (codes "X-Discogs-Ratelimit-Remaining") headers)
    ∷ (codes "rate_limit_used", look (codes "X-Discogs-Ratelimit-Used") headers)
    ∷ []

abbrev discogs_network_meta : (total attempt : ℕ) → Dict Text Json
discogs_network_meta total attempt =
    discogs_meta attempt total none [] ++ (codes "retryable", boolean true) ∷ []

abbrev pub discogs_api : Python → (total : ℕ) → Api
discogs_api py total = record {
  label = codes "Discogs";
  endpoint = codes "/database/search";
  network_meta = discogs_network_meta total;
  raised_meta = discogs_network_meta total;
  response_meta = λ attempt r.
      discogs_meta attempt total (parse_retry_after_seconds py (r.header (codes "Retry-After")))
        (headers_of r header_names);
}

abbrev id_of : Json → Option ℕ
id_of (number n) = some (pos_part n / unit)
id_of _ = none

module _ (py : Python) where
  abbrev id_text : Json → Text
  id_text v = if is_null v then [] else strip py.unicode (str_of py.print v)

  abbrev first_truthy : Json → Json → Json
  first_truthy v w = if truthy v then v else w

  -- An entry of the answer, unless it lacks an identifier, a title or an address.
  unfoldable pub discogs_listing : Json → Computed (Option Payload)
  unfolding get strip truthy
  discogs_listing (obj fs) =
      let r = fields fs in
      let external_id = id_text (look (codes "id") r) in
      let title = trimmed py (look (codes "title") r) in
      let url = trimmed py (first_truthy (look (codes "uri") r) (look (codes "resource_url") r)) in
      value (
        if nonempty external_id && nonempty title && nonempty url
        then some (record {
          provider = codes "discogs";
          external_id = external_id;
          url = url;
          title = title;
          price = 0;
          currency = some (codes "USD");
          condition = none;
          seller = none;
          location = none;
          discogs_release_id = id_of (look (codes "id") r);
          discogs_master_id = id_of (look (codes "master_id") r);
          raw = some r;
        })
        else none)
  discogs_listing v = thrown (py.no_attribute v) (codes "AttributeError")

  abbrev pub discogs_end : Wire → Api → Tries → Ended → Search
  discogs_end w api t (arrived r attempt) = record {
    logged = t.logged;
    last_duration_ms = some (w.elapsed attempt);
    last_request_meta = some (api.response_meta attempt r);
    result = searched (listings_in py (discogs_listing) (codes "results") r);
  }
  discogs_end w api t (failed e) = record {
    logged = t.logged;
    last_duration_ms = e.duration_ms;
    last_request_meta = e.meta;
    result = refused e;
  }

  module _ (s : RetrySettings) (token : Text) where
    abbrev pub total : ℕ
    total = max s.max_attempts 1

    abbrev pub discogs_tries : Wire → (q : Text) → (limit : ℕ) → Tries
    discogs_tries w q limit =
        tries py s (discogs_api py total) w
          (w.reply (codes "Discogs token=" ++ token) q (min limit 50)) (total - 1) 1

    abbrev pub discogs_run : Wire → ℕ → Computed Text → Search
    discogs_run w limit (value q) =
        let t = discogs_tries w q limit in discogs_end w (discogs_api py total) t t.ended
    discogs_run w limit (thrown message class_name) = record {
      logged = [];
      last_duration_ms = none;
      last_request_meta = none;
      result = searched (thrown message class_name);
    }

    -- `DiscogsClient.search`
    unfoldable pub discogs_search : Wire → (query : Dict Text Json) → (limit : ℕ) → Search
    unfolding tries listings_in discogs_listing discogs_meta get strip truthy
    discogs_search w query limit =
        discogs_run w limit (query_text py (look (codes "keywords") query))

    abbrev pub new_discogs_client : (wire : ℕ → Wire) → ProviderClient
    new_discogs_client wire = record {
      default_endpoint = codes "/database/search";
      search = λ n query limit. discogs_search (wire n) query limit;
    }

-- ===== src/Providers/Ebay.antt =====
-- app/providers/ebay.py: `EbayClient`. Prices are not negative.
use wax_watch_api.Prelude.{
  ℕ, ◌-◌, max, min, Option, none, some, Bool, not, ◌&&◌, List, [], ◌++◌, take, map_option,
  if◌then◌else◌,
}
use wax_watch_api.Prelude.Text.{Text, codes, text_key, strip, nonempty, truthy_text}
use wax_watch_api.Prelude.Int.{pos_part}
use wax_watch_api.Prelude.Dict.{Dict, get}
use wax_watch_api.Json.{Json, text, truthy, is_null, as_number, as_text}
use wax_watch_api.WatchRules.Validate.{look}
use wax_watch_api.Ingest.Match.{str_of}
use wax_watch_api.Ingest.Listings.{Payload}
use wax_watch_api.Runner.{ProviderRequestLog, Searched, refused, crashed, Search, ProviderClient}
use wax_watch_api.Providers.{Python, Wire}
use wax_watch_api.Providers.Answers.{
  Computed, value, thrown, ◌>>=◌, as_dict, or_empty, trimmed, query_text, listings_in, searched,
}
use wax_watch_api.Providers.Attempts.{Ended, arrived, failed, Tries, tries}
use wax_watch_api.Providers.EbayToken.{
  Auth, EbaySettings, auth_token, authorized, broken, denied, ebay_api, search_endpoint,
}

module _ (py : Python) where
  -- `float(price_value)`; `none` where it raises a `TypeError` or a `ValueError`
  abbrev pub price_of : Json → Option ℕ
  price_of (text s) = map_option pos_part (py.read_float s)
  price_of v = map_option pos_part (as_number v)

  abbrev currency_of : Json → Text
  currency_of v = take 3 (strip py.unicode (if truthy v then str_of py.print v else codes "USD"))

  -- The item as a listing; the texts after its price are read only for an item that is kept.
  abbrev pub ebay_kept : Dict Text Json → Dict Text Json → Option ℕ → Computed (Option Payload)
  ebay_kept item price none = value none
  ebay_kept item price (some amount) = or_empty py (look (codes "seller") item) >>= λ seller.
      or_empty py (look (codes "itemLocation") item) >>= λ location. value (
        some (record {
          provider = codes "ebay";
          external_id = trimmed py (look (codes "itemId") item);
          url = trimmed py (look (codes "itemWebUrl") item);
          title = trimmed py (look (codes "title") item);
          price = amount;
          currency = some (currency_of (look (codes "currency") price));
          condition = truthy_text (as_text (look (codes "condition") item));
          seller = as_text (look (codes "username") seller);
          location = as_text (look (codes "country") location);
          discogs_release_id = none;
          discogs_master_id = none;
          raw = some item;
        }))

  -- Identifier, title, address and price are there.
  abbrev pub is_complete : Dict Text Json → Dict Text Json → Bool
  is_complete item price =
      nonempty (trimmed py (look (codes "itemId") item))
      && nonempty (trimmed py (look (codes "title") item))
      && nonempty (trimmed py (look (codes "itemWebUrl") item))
      && not (is_null (look (codes "value") price))

  abbrev pub ebay_item : Dict Text Json → Dict Text Json → Computed (Option Payload)
  ebay_item item price =
      if is_complete item price
      then ebay_kept item price (price_of (look (codes "value") price))
      else value none

  unfoldable pub ebay_listing : Json → Computed (Option Payload)
  unfolding get strip truthy
  ebay_listing v = as_dict py v >>= λ item.
      or_empty py (look (codes "price") item) >>= λ price. ebay_item item price

  module _ (s : EbaySettings) where
    abbrev pub ebay_total : ℕ
    ebay_total = max s.retrying.max_attempts 1

    abbrev pub ebay_tries : Wire → (token q : Text) → (limit : ℕ) → Tries
    ebay_tries w token q limit =
        tries py s.retrying (ebay_api py ebay_total) w
          (w.reply (codes "Bearer " ++ token) q (min limit 200)) (ebay_total - 1) 1

    -- An exception leaves `last_duration_ms` and `last_request_meta` as they were.
    abbrev ebay_raised : List ProviderRequestLog → Searched → Search
    ebay_raised logs result = record {
      logged = logs;
      last_duration_ms = none;
      last_request_meta = none;
      result = result;
    }

    abbrev pub ebay_end : Wire → List ProviderRequestLog → Ended → Search
    ebay_end w logs (failed e) = ebay_raised logs (refused e)
    ebay_end w logs (arrived r attempt) = record {
      logged = logs;
      last_duration_ms = some (w.elapsed attempt);
      last_request_meta = some ((ebay_api py ebay_total).response_meta attempt r);
      result = searched (listings_in py (ebay_listing) (codes "itemSummaries") r);
    }

    abbrev pub ebay_authorized : Wire → Text → ℕ → Auth → Search
    ebay_authorized w q limit (logs, authorized token) =
        let t = ebay_tries w token q limit in ebay_end w (logs ++ t.logged) t.ended
    ebay_authorized w q limit (logs, denied e) = ebay_raised logs (refused e)
    ebay_authorized w q limit (logs, broken message class_name) =
        ebay_raised logs (crashed message class_name)

    abbrev pub ebay_run : Wire → ℕ → Computed Text → Search
    ebay_run w limit (value q) = ebay_authorized w q limit (auth_token py w s)
    ebay_run w limit (thrown message class_name) = ebay_raised [] (crashed message class_name)

    -- `EbayClient.search`
    unfoldable pub ebay_search : Wire → (query : Dict Text Json) → (limit : ℕ) → Search
    unfolding auth_token tries listings_in ebay_listing get strip truthy
    ebay_search w query limit = ebay_run w limit (query_text py (look (codes "keywords") query))

    abbrev pub new_ebay_client : (wire : ℕ → Wire) → ProviderClient
    new_ebay_client wire = record {
      default_endpoint = search_endpoint;
      search = λ n query limit. ebay_search (wire n) query limit;
    }

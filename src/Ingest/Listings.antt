-- ===== src/Ingest/Listings.antt =====
-- app/services/ingest.py: `upsert_listing`.
pub mod Unique
use wax_watch_api.Prelude.{
  ℕ, ◌==◌, Option, none, some, Bool, true, false, not, ◌&&◌, ◌||◌, List, [], ◌∷◌, ◌++◌, first,
  get_or, or_else, if◌then◌else◌,
}
use wax_watch_api.Prelude.Text.{Text, codes, text_eq, truthy_text}
use wax_watch_api.Prelude.Dict.{Dict}
use wax_watch_api.Json.{Json}
use wax_watch_api.Models.{
  Provider, discogs, ebay, mock, musicbrainz, spotify, provider_value, provider_eq, ListingStatus,
  active, Listing, PriceSnapshot,
}
use wax_watch_api.Environment.{Environment}
use wax_watch_api.Session.{
  World, Action, value_error, runtime_error, pure, raise, gets, modify, ◌>>=◌, ◌>>◌, option_case,
  now_utc, fresh_id, overtaken,
}
use wax_watch_api.Ingest.Title.{normalize_title}

-- `models.Provider(value)`
unfoldable pub provider_of : Text → Option Provider
provider_of s =
    first (λ p. text_eq (provider_value p) s) (discogs ∷ ebay ∷ mock ∷ musicbrainz ∷ spotify ∷ [])

pub record Payload : Type 0 where
  pub provider : Text
  pub external_id : Text
  pub url : Text
  pub title : Text
  pub price : ℕ
  pub currency : Option Text
  pub condition : Option Text
  pub seller : Option Text
  pub location : Option Text
  pub discogs_release_id : Option ℕ
  pub discogs_master_id : Option ℕ
  pub raw : Option (Dict Text Json)

abbrev pub has_key : Provider → Text → Listing → Bool
has_key provider external_id l =
    provider_eq l.provider provider && text_eq l.external_id external_id

abbrev pub listing_of : Provider → Text → List Listing → Option Listing
listing_of provider external_id = first (has_key provider external_id)

abbrev pub listing_at : ℕ → List Listing → Option Listing
listing_at id = first (λ l. l.id == id)

unfoldable pub append_listing : Listing → Action (Unit {0})
append_listing l = modify (λ w. record w { db = record w.db { listings = w.listings ++ l ∷ [] } })

unfoldable pub append_snapshot : PriceSnapshot → Action (Unit {0})
append_snapshot s =
    modify (λ w. record w { db = record w.db { snapshots = w.snapshots ++ s ∷ [] } })

-- `INSERT ... ON CONFLICT (provider, external_id) DO NOTHING RETURNING id`
unfoldable pub insert_listing : Listing → Action (Option ℕ)
insert_listing l = do
  clash ← gets (λ w. listing_of l.provider l.external_id w.listings)
  option_case clash (do append_listing l; pure (some l.id)) (λ _. pure none)

unfoldable pub revise_rows : ℕ → (Listing → Listing) → List Listing → List Listing
revise_rows id f [] = []
revise_rows id f (l ∷ ls) = (if l.id == id then f l else l) ∷ revise_rows id f ls

abbrev snapshot_of : Listing → ℕ → PriceSnapshot
snapshot_of l now = record {
  listing_id = l.id;
  price = l.price;
  currency = l.currency;
  recorded_at = now;
}

-- The listing, `created_listing` and `created_snapshot`.
pub record Upserted : Type 0 where
  pub listing : Option Listing
  pub created_listing : Bool
  pub created_snapshot : Bool

abbrev pub is_repriced : Listing → Listing → Bool
is_repriced new old = not (new.price == old.price) || not (text_eq new.currency old.currency)

-- After an insert that went through.
unfoldable pub load_created : Provider → Payload → ℕ → ℕ → Action Upserted
load_created provider p now id = do
  found ←
      gets (λ w. or_else (listing_at id w.listings) (listing_of provider p.external_id w.listings))
  option_case found
      (pure (record { listing = none; created_listing = true; created_snapshot = false }))
      (λ l. do
        append_snapshot (snapshot_of l now)
        pure (record { listing = some l; created_listing = true; created_snapshot = true }))

module _ (env : Environment) where
  abbrev new_listing : Provider → Payload → (id now : ℕ) → Listing
  new_listing provider p id now = record {
    id = id;
    provider = provider;
    external_id = p.external_id;
    url = p.url;
    title = p.title;
    normalized_title = some (normalize_title env.unicode p.title);
    price = p.price;
    currency = get_or (truthy_text p.currency) (codes "USD");
    condition = p.condition;
    seller = p.seller;
    location = p.location;
    status = active;
    discogs_release_id = p.discogs_release_id;
    discogs_master_id = p.discogs_master_id;
    first_seen_at = now;
    last_seen_at = now;
    raw = p.raw;
  }

  abbrev pub revise : Payload → ℕ → Listing → Listing
  revise p now l = record l {
    url = p.url;
    title = p.title;
    normalized_title = some (normalize_title env.unicode p.title);
    price = p.price;
    currency = get_or (truthy_text p.currency) l.currency;
    condition = p.condition;
    seller = p.seller;
    location = p.location;
    discogs_release_id = p.discogs_release_id;
    discogs_master_id = p.discogs_master_id;
    last_seen_at = now;
    raw = p.raw;
  }

  unfoldable pub write_listing : Payload → ℕ → ℕ → Action (Unit {0})
  write_listing p now id =
      modify
        (λ w. record w { db = record w.db { listings = revise_rows id (revise p now) w.listings } })

  unfoldable pub update_listing : Payload → ℕ → Listing → Action Upserted
  update_listing p now l = do
    write_listing p now l.id
    if is_repriced (revise p now l) l
        then (do
          append_snapshot (snapshot_of (revise p now l) now)
          pure (record {
            listing = some (revise p now l);
            created_listing = false;
            created_snapshot = true;
          }))
        else pure (record {
          listing = some (revise p now l);
          created_listing = false;
          created_snapshot = false;
        })

  -- After an insert that another transaction overtook.
  unfoldable pub load_raced : Provider → Payload → ℕ → Action Upserted
  load_raced provider p now = do
    found ← gets (λ w. listing_of provider p.external_id w.listings)
    option_case found (raise runtime_error) (update_listing p now)

  unfoldable pub insert_or_race : Provider → Payload → ℕ → Action Upserted
  insert_or_race provider p now = do
    id ← fresh_id
    overtaken
    inserted ← insert_listing (new_listing provider p id now)
    option_case inserted (load_raced provider p now) (load_created provider p now)

  unfoldable pub upsert_known : Payload → Provider → Action Upserted
  upsert_known p provider = do
    now ← now_utc
    found ← gets (λ w. listing_of provider p.external_id w.listings)
    option_case found (insert_or_race provider p now) (update_listing p now)

  unfoldable pub upsert_listing : Payload → Action Upserted
  unfolding provider_of
  upsert_listing p = option_case (provider_of p.provider) (raise value_error) (upsert_known p)

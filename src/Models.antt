-- ===== src/Models.antt =====
-- app/db/models.py: the enums and the rows of the tables. UUIDs are numbers, times are
-- microseconds of UTC, prices are ten-thousandths.
use wax_watch_api.Prelude.{ℕ, Option, Bool, true, false, List}
use wax_watch_api.Prelude.Text.{Text, codes}
use wax_watch_api.Prelude.Dict.{Dict}
use wax_watch_api.Json.{Json}

pub data Provider : Type 0 where
  discogs ebay mock musicbrainz spotify : Provider

abbrev pub provider_value : Provider → Text
provider_value discogs = codes "discogs"
provider_value ebay = codes "ebay"
provider_value mock = codes "mock"
provider_value musicbrainz = codes "musicbrainz"
provider_value spotify = codes "spotify"

abbrev pub provider_eq : Provider → Provider → Bool
provider_eq discogs discogs = true
provider_eq ebay ebay = true
provider_eq mock mock = true
provider_eq musicbrainz musicbrainz = true
provider_eq spotify spotify = true
provider_eq _ _ = false

pub data ListingStatus : Type 0 where
  active ended unknown : ListingStatus

pub data EventType : Type 0 where
  rule_created rule_updated rule_disabled rule_deleted rule_enabled : EventType
  watch_release_created watch_release_updated watch_release_disabled : EventType
  watch_release_enabled : EventType
  listing_first_seen listing_price_drop listing_price_rise listing_ended : EventType
  new_match : EventType
  import_started import_completed import_failed : EventType

abbrev pub event_value : EventType → Text
event_value rule_created = codes "RULE_CREATED"
event_value rule_updated = codes "RULE_UPDATED"
event_value rule_disabled = codes "RULE_DISABLED"
event_value rule_deleted = codes "RULE_DELETED"
event_value rule_enabled = codes "RULE_ENABLED"
event_value watch_release_created = codes "WATCH_RELEASE_CREATED"
event_value watch_release_updated = codes "WATCH_RELEASE_UPDATED"
event_value watch_release_disabled = codes "WATCH_RELEASE_DISABLED"
event_value watch_release_enabled = codes "WATCH_RELEASE_ENABLED"
event_value listing_first_seen = codes "LISTING_FIRST_SEEN"
event_value listing_price_drop = codes "LISTING_PRICE_DROP"
event_value listing_price_rise = codes "LISTING_PRICE_RISE"
event_value listing_ended = codes "LISTING_ENDED"
event_value new_match = codes "NEW_MATCH"
event_value import_started = codes "IMPORT_STARTED"
event_value import_completed = codes "IMPORT_COMPLETED"
event_value import_failed = codes "IMPORT_FAILED"

pub data NotificationChannel : Type 0 where
  email realtime : NotificationChannel

abbrev pub channel_eq : NotificationChannel → NotificationChannel → Bool
channel_eq email email = true
channel_eq realtime realtime = true
channel_eq _ _ = false

pub data NotificationStatus : Type 0 where
  pending sent failed : NotificationStatus

abbrev pub is_sent : NotificationStatus → Bool
is_sent sent = true
is_sent _ = false

abbrev pub is_pending : NotificationStatus → Bool
is_pending pending = true
is_pending _ = false

pub record User : Type 0 where
  pub id : ℕ
  pub display_name : Option Text
  pub timezone : Option Text
  pub currency : Option Text
  pub is_active : Bool
  pub created_at : ℕ
  pub updated_at : ℕ

pub record WatchRelease : Type 0 where
  pub id : ℕ
  pub user_id : ℕ
  pub discogs_release_id : ℕ
  pub discogs_master_id : Option ℕ
  pub match_mode : Text
  pub title : Text
  pub artist : Option Text
  pub year : Option ℕ
  pub target_price : Option ℕ
  pub currency : Text
  pub min_condition : Option Text
  pub is_active : Bool
  pub imported_from_wantlist : Bool
  pub imported_from_collection : Bool
  pub created_at : ℕ
  pub updated_at : ℕ

pub record WatchSearchRule : Type 0 where
  pub id : ℕ
  pub user_id : ℕ
  pub name : Text
  pub query : Dict Text Json
  pub is_active : Bool
  pub poll_interval_seconds : ℕ
  pub last_run_at : Option ℕ
  pub next_run_at : Option ℕ
  pub created_at : ℕ
  pub updated_at : ℕ

pub record Listing : Type 0 where
  pub id : ℕ
  pub provider : Provider
  pub external_id : Text
  pub url : Text
  pub title : Text
  pub normalized_title : Option Text
  pub price : ℕ
  pub currency : Text
  pub condition : Option Text
  pub seller : Option Text
  pub location : Option Text
  pub status : ListingStatus
  pub discogs_release_id : Option ℕ
  pub discogs_master_id : Option ℕ
  pub first_seen_at : ℕ
  pub last_seen_at : ℕ
  pub raw : Option (Dict Text Json)

pub record WatchMatch : Type 0 where
  pub id : ℕ
  pub rule_id : ℕ
  pub listing_id : ℕ
  pub matched_at : ℕ

pub record Event : Type 0 where
  pub id : ℕ
  pub user_id : ℕ
  pub type : EventType
  pub watch_release_id : Option ℕ
  pub rule_id : Option ℕ
  pub listing_id : Option ℕ
  pub created_at : ℕ

pub record Notification : Type 0 where
  pub id : ℕ
  pub user_id : ℕ
  pub event_id : ℕ
  pub event_type : EventType
  pub channel : NotificationChannel
  pub status : NotificationStatus
  pub is_read : Bool
  pub delivered_at : Option ℕ
  pub failed_at : Option ℕ
  pub read_at : Option ℕ
  pub created_at : ℕ
  pub updated_at : ℕ

pub record UserNotificationPreference : Type 0 where
  pub id : ℕ
  pub user_id : ℕ
  pub email_enabled : Bool
  pub realtime_enabled : Bool
  pub quiet_hours_start : Option ℕ
  pub quiet_hours_end : Option ℕ
  pub timezone_override : Option Text
  pub delivery_frequency : Text
  pub event_toggles : Option (Dict Text Json)
  pub created_at : ℕ
  pub updated_at : ℕ

pub record PriceSnapshot : Type 0 where
  pub listing_id : ℕ
  pub price : ℕ
  pub currency : Text
  pub recorded_at : ℕ

pub record ExternalAccountLink : Type 0 where
  pub id : ℕ
  pub user_id : ℕ
  pub provider : Provider
  pub external_user_id : Text
  pub access_token : Option Text
  pub refresh_token : Option Text
  pub access_token_expires_at : Option ℕ
  pub token_type : Option Text
  pub scopes : Option (List Text)
  pub token_metadata : Option (Dict Text Json)
  pub connected_at : ℕ
  pub created_at : ℕ
  pub updated_at : ℕ

-- The texts that the column `status` of an import job holds.
pub data JobStatus : Type 0 where
  job_pending job_running job_completed job_failed : JobStatus

-- `status IN ('pending', 'running')`
abbrev pub is_in_flight : JobStatus → Bool
is_in_flight job_pending = true
is_in_flight job_running = true
is_in_flight _ = false

abbrev pub is_running : JobStatus → Bool
is_running job_running = true
is_running _ = false

pub record ImportJob : Type 0 where
  pub id : ℕ
  pub user_id : ℕ
  pub external_account_link_id : Option ℕ
  pub provider : Provider
  pub import_scope : Text
  pub status : JobStatus
  pub cursor : Option Text
  pub page : ℕ
  pub processed_count : ℕ
  pub imported_count : ℕ
  pub created_count : ℕ
  pub updated_count : ℕ
  pub error_count : ℕ
  pub errors : Option (List Text)
  pub started_at : Option ℕ
  pub completed_at : Option ℕ
  pub created_at : ℕ
  pub updated_at : ℕ

pub record ProviderRequest : Type 0 where
  pub id : ℕ
  pub user_id : ℕ
  pub provider : Provider
  pub endpoint : Text
  pub method : Text
  pub status_code : Option ℕ
  pub duration_ms : Option ℕ
  pub error : Option Text
  pub meta : Option (Dict Text Json)
  pub created_at : ℕ

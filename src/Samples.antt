-- ===== src/Samples.antt =====
-- Small concrete data, on which the modules named Examples run the code.
use wax_watch_api.Prelude.{◌*◌, ◌==◌, none, some, true, false, not, ◌&&◌, [], ◌∷◌}
use wax_watch_api.Prelude.Text.{codes, ascii}
use wax_watch_api.Json.{text, number, arr, to_items}
use wax_watch_api.Prelude.Int.{pos}
use wax_watch_api.Models.{
  User, Notification, pending, email, new_match, UserNotificationPreference, WatchSearchRule,
  Listing, discogs, active, WatchRelease,
}
use wax_watch_api.QuietHours.{Zone}
use wax_watch_api.Environment.{Environment}
use wax_watch_api.Session.{Tables, World}
use wax_watch_api.Runner.{ProviderClient, found}
use wax_watch_api.Runner.Registry.{RegistrySettings}

abbrev pub utc_zone : Zone
utc_zone = record { wall = λ t. t; fold = λ t. false; utc_of = λ wall fold. wall }

-- Celery refuses delivery 8 in the first commit.
abbrev pub environment : Environment
environment = record {
  unicode = ascii;
  zone_info = λ name. some utc_zone;
  utc = utc_zone;
  accepts = λ epoch id. not (epoch == 1 && id == 8);
  mail_result = λ n. record { success = not (n == 0); retryable = true };
  savepoint_hooks = true;
  dev_auto_create_users = true;
}

abbrev pub user : User
user = record {
  id = 1;
  display_name = none;
  timezone = none;
  currency = some (codes "EUR");
  is_active = true;
  created_at = 0;
  updated_at = 0;
}

abbrev pub preference : UserNotificationPreference
preference = record {
  id = 2;
  user_id = 1;
  email_enabled = true;
  realtime_enabled = false;
  quiet_hours_start = none;
  quiet_hours_end = none;
  timezone_override = none;
  delivery_frequency = codes "instant";
  event_toggles = none;
  created_at = 0;
  updated_at = 0;
}

abbrev pub notification : Notification
notification = record {
  id = 5;
  user_id = 1;
  event_id = 4;
  event_type = new_match;
  channel = email;
  status = pending;
  is_read = false;
  delivered_at = none;
  failed_at = none;
  read_at = none;
  created_at = 0;
  updated_at = 0;
}

abbrev pub rule : WatchSearchRule
rule = record {
  id = 10;
  user_id = 1;
  name = codes "jazz";
  query =
      (codes "sources", arr (to_items (text (codes "discogs") ∷ [])))
      ∷ (codes "keywords", arr (to_items (text (codes "Blue ") ∷ [])))
      ∷ (codes "max_price", number (pos 250000))
      ∷ [];
  is_active = true;
  poll_interval_seconds = 600;
  last_run_at = none;
  next_run_at = none;
  created_at = 0;
  updated_at = 0;
}

abbrev pub listing : Listing
listing = record {
  id = 20;
  provider = discogs;
  external_id = codes "x1";
  url = codes "http";
  title = codes "Kind of Blue!";
  normalized_title = some (codes "kind of blue");
  price = 200000;
  currency = codes "eur";
  condition = none;
  seller = none;
  location = none;
  status = active;
  discogs_release_id = none;
  discogs_master_id = none;
  first_seen_at = 0;
  last_seen_at = 0;
  raw = none;
}

abbrev pub release : WatchRelease
release = record {
  id = 30;
  user_id = 1;
  discogs_release_id = 700;
  discogs_master_id = some 70;
  match_mode = codes "master_release";
  title = codes "Kind of Blue";
  artist = none;
  year = none;
  target_price = none;
  currency = codes "EUR";
  min_condition = none;
  is_active = true;
  imported_from_wantlist = false;
  imported_from_collection = false;
  created_at = 0;
  updated_at = 0;
}

abbrev pub tables : Tables
tables = record {
  users = user ∷ [];
  releases = release ∷ [];
  rules = rule ∷ [];
  listings = listing ∷ [];
  matches = [];
  events = [];
  notifications = notification ∷ [];
  preferences = preference ∷ [];
  snapshots = [];
  links = [];
  jobs = [];
  provider_requests = [];
}

-- Another transaction commits once, and changes nothing.
abbrev pub world : World
world = record {
  db = tables;
  committed = tables;
  added = [];
  others = (λ t. t) ∷ [];
  clock = λ n. n * 1000000;
  readings = 0;
  next_id = 100;
  queue = none;
  epoch = 0;
  failed_epoch = none;
  enqueued = [];
  mailed = [];
  published = [];
  requests = 0;
  imports = [];
}

abbrev pub alone : World
alone = record world { others = [] }

-- A provider that finds nothing.
abbrev pub idle : ProviderClient
idle = record {
  default_endpoint = codes "/";
  search = λ n query limit. record {
    logged = [];
    last_duration_ms = none;
    last_request_meta = none;
    result = found [];
  };
}

abbrev pub registry : RegistrySettings
registry = record {
  provider_enabled = λ name. true;
  environment = some (codes "dev");
  environment_variable = none;
  provider_force_mock = none;
  discogs_client = idle;
  mock_discogs_client = idle;
  ebay_client = idle;
  mock_provider = idle;
}

-- ===== src/Lib.antt =====
-- WaxWatch (app/): users watch record releases and search rules; listings from marketplaces are
-- ingested and matched with them; matches become events, events become notifications, and
-- notifications are delivered by Celery tasks, outside quiet hours. A rate limiter guards the API.
--
-- The parts, the files that model them, and the code that they follow:
--   RateLimit, RateLimit.Enforce   core/rate_limit.py and GlobalRateLimitMiddleware of
--     api/middleware.py: `check_events` is the body of `SlidingWindowRateLimiter.check` on the
--     deque of one key, `check` the method on the dictionary, `enforce_rate_limit` and
--     `enforce_global_rate_limit` the functions of these names. Time is a number of microseconds;
--     the lock is the order in which checks happen. The source reads the clock before it takes
--     the lock; theorems with ascending times are of requests that enter in the order of their
--     readings. `Scopes` holds the calls of all seven scopes against the one limiter.
--   QuietHours   services/notifications.py, from `_is_within_quiet_hours` to `next_delivery_time`.
--     A time zone is a record of three functions, the wall clock of an instant, its fold, and the
--     instant of a wall clock, since `ZoneInfo` is not part of the repository.
--   Session   the world of a request or a task: the tables as the session sees them and as they
--     are committed, the clock, `session.info`, and what was handed to Celery, to the mail
--     provider and to the stream. A method is a state-passing action that returns or raises; a
--     raise keeps what was written before it. `overtaken` stands where another transaction may
--     commit: between the look-up and the insert of preferences and of listings.
--   Outbox   the session events of services/notifications.py: deliveries wait in `session.info`
--     for the commit. `begin_nested` runs the same events if `savepoint_hooks` says so.
--     `Divided` holds the commits of a session that queues, commits and rolls back.
--   Notifications   preferences (`Preferences`), `enqueue_from_event` (`Enqueue`), and
--     `send_email`, `publish_realtime` and `deliver_notification_task` of tasks.py (`Deliver`).
--     `run_tasks` runs delivery tasks one after another, each in a session of its own.
--   Events   `_create_event` of services/watch_rules.py and services/watch_releases.py.
--   WatchRules   services/watch_rules.py: `Validate`, `Owner` (`ensure_user_exists`), `Merge` (the
--     merge of a query), `Store` (the operations), and `Schema` (a request's query in
--     schemas/watch_rules.py, which asks `Runner.Registry` for every source).
--   WatchReleases   services/watch_releases.py.
--   Paging   `list_watch_rules` and `list_watch_releases` of the same files, over the pages of
--     api/pagination.py; its cursors are in `Cursor`.
--   Tokens   core/token_crypto.py (`Crypto`) and services/token_lifecycle.py (`Lifecycle`).
--   Ingest   services/ingest.py: `Title` (`normalize_title`), `Match` (the two predicates),
--     `Listings` (`upsert_listing`) and `Matches` (the rows and events of matches).
--   Backfill   services/backfill.py.
--   Mapping   services/matching.py: the Discogs release of a listing (`Tokens`, and the scores).
--   Runner   services/provider_requests.py and the client's interface of providers/base.py;
--     `Registry` is providers/registry.py, `Rules` is `ingest_and_match` of services/ingest.py and
--     services/rule_runner.py, `Scheduler` is services/scheduler.py with two tasks of tasks.py. A flush
--     that the database refuses while a rule runs, after which the scheduler's own flush would
--     raise, is not modelled: every exception of a run leaves the session usable.
--   DiscogsImport   services/discogs_import.py: `Metadata` (what is read from a token's metadata),
--     `Accounts` (links and tokens), `OAuth` (both steps of a login), `Releases` (an entry of a
--     list), `Pages` (`_import_source`), `Jobs` (import jobs), `Items`, and `Tasks` (the two tasks
--     of tasks.py). Rows that `db.add` took wait in `added` until a flush, since the session has
--     autoflush off; a flush that fails raises `flush_failed`, after which the session serves
--     nothing until it is rolled back.
--   Search   services/search.py, with `Schema` for schemas/search.py: the loop over the
--     providers, the alert, and in `Filter` the filters, the order and the page. `Ascending`,
--     `Answers`, `Clients`, `Contents` and `Page` hold proofs. It takes the clients and their log as the
--     rule runner does, and stores an alert as a rule.
--   Providers   the clients `Discogs` and `Ebay` (its `_auth_token` in `EbayToken`) of
--     providers/discogs.py and providers/ebay.py. What both have is written once: the loop over
--     the attempts in `Attempts`, and what is read from an answer in `Answers`. `Retry`,
--     `Delays` and `Listings` hold proofs, also that the clients are such as `Search` asks for.
--   Models, Json   the enums and rows of db/models.py, and JSON values.
--   Environment   settings and outside services: Unicode tables, time zones, Celery's broker, the
--     mail provider. They are parameters.
--   Prelude   lists, options, sorting, text and dictionaries over the native numbers.
--   Samples   concrete data, on which the modules named Examples run the code.
--
-- Every loop of the modelled code but two runs over a list and is structural recursion. The loop
-- over the attempts of a search recurs on the attempts left, which the settings give. The loop
-- over the pages of a Discogs list reads the number of pages from every answer; `import_pages` runs
-- on fuel, and returns nothing where the fuel ends first. A fuel above the largest number of pages
-- that Discogs answers is enough.
-- UUIDs are numbers that are given once, times are microseconds, prices and JSON numbers are
-- counts of ten-thousandths, so NaN and infinities are left out.
--
-- Not modelled: two requests that create one user, or a backfill and an ingest that store one
-- match, at one time; users and authentication; the schemas of watches; the routers,
-- the mock marketplace, metrics and logging, with the redaction of an error's text; the
-- payload of an event, the length limits of columns, and the columns that no modelled code reads.
-- The unique indexes of `watch_releases` are modelled where the Discogs import flushes. Floats of
-- scores are exact fractions, and the numbers of Discogs and the prices
-- of eBay are not negative.
pub mod Json
pub mod Models
pub mod Session
pub mod DiscogsImport
pub mod Environment
pub mod Outbox
pub mod Notifications
pub mod Events
pub mod WatchRules
pub mod Backfill
pub mod Tokens
pub mod Paging
pub mod Ingest
pub mod Mapping
pub mod Runner
pub mod Search
pub mod Providers
pub mod WatchReleases
pub mod Prelude
pub mod Samples
pub mod QuietHours
pub mod RateLimit

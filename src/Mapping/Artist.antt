-- ===== src/Mapping/Artist.antt =====
-- app/services/matching.py: listings that name no artist.
use wax_watch_api.Prelude.Text.{Text}
use wax_watch_api.Environment.{Environment}

-- ===== src/DiscogsImport/Items.antt =====
-- app/services/discogs_import.py: the imported releases of a user.
use wax_watch_api.Prelude.{
  ℕ, ◌==◌, Option, Bool, ◌&&◌, List, ◌++◌, map, keep, take, drop, first, length, if◌then◌else◌,
}
use wax_watch_api.Prelude.Text.{Text, codes, text_eq}
use wax_watch_api.Models.{WatchRelease}
use wax_watch_api.Environment.{Environment}
use wax_watch_api.Session.{Action, http_exception, pure, raise, gets, ◌>>=◌, option_case}
use wax_watch_api.Paging.{order_by}
use wax_watch_api.WatchRules.Owner.{ensure_user_exists}
use wax_watch_api.DiscogsImport.{Discogs}

pub record ImportedItem : Type 0 where
  pub watch_release_id : ℕ
  pub discogs_release_id : ℕ
  pub discogs_master_id : Option ℕ
  pub title : Text
  pub artist : Option Text
  pub year : Option ℕ
  pub source : Text
  pub open_in_discogs_url : Text

pub record ImportedItems : Type 0 where
  pub source : Text
  pub limit : ℕ
  pub offset : ℕ
  pub count : ℕ
  pub items : List ImportedItem

pub record OpenLink : Type 0 where
  pub watch_release_id : ℕ
  pub source : Text
  pub open_in_discogs_url : Text

-- `source_filter`
abbrev is_from : Text → WatchRelease → Bool
is_from source r =
    if text_eq source (codes "wantlist")
    then r.imported_from_wantlist
    else r.imported_from_collection

module _ (env : Environment) (d : Discogs) where
  -- `_discogs_release_url`
  abbrev discogs_release_url : ℕ → Text
  discogs_release_url id = codes "https://www.discogs.com/release/" ++ d.decimal id

  abbrev item_of : Text → WatchRelease → ImportedItem
  item_of source r = record {
    watch_release_id = r.id;
    discogs_release_id = r.discogs_release_id;
    discogs_master_id = r.discogs_master_id;
    title = r.title;
    artist = r.artist;
    year = r.year;
    source = source;
    open_in_discogs_url = discogs_release_url r.discogs_release_id;
  }

  unfoldable pub list_imported_items : ℕ → Text → (limit offset : ℕ) → Action ImportedItems
  unfolding ensure_user_exists order_by text_eq
  list_imported_items user_id source limit offset = do
    user ← ensure_user_exists env user_id
    found ← gets (λ w. take limit (
        drop offset (
          order_by (λ (r : WatchRelease). (r.updated_at, r.id))
            (keep (λ (r : WatchRelease). r.user_id == user_id && r.is_active && is_from source r)
              w.releases))))
    pure (record {
      source = source;
      limit = limit;
      offset = offset;
      count = length found;
      items = map (item_of source) found;
    })

  unfoldable pub get_open_in_discogs_link : (user_id watch_release_id : ℕ) → Text → Action OpenLink
  unfolding text_eq
  get_open_in_discogs_link user_id watch_release_id source = do
    watch ← gets (λ w.
        first
          (λ (r : WatchRelease).
            r.user_id == user_id && r.id == watch_release_id && r.is_active && is_from source r)
          w.releases)
    option_case watch (raise (http_exception 404)) (λ r. pure (record {
      watch_release_id = r.id;
      source = source;
      open_in_discogs_url = discogs_release_url r.discogs_release_id;
    }))

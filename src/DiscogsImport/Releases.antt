-- ===== src/DiscogsImport/Releases.antt =====
-- app/services/discogs_import.py: an entry of a Discogs list, as a watched release. The numbers of
-- Discogs (ids, years, page counts) are not negative: a negative one is read as 0.
use wax_watch_api.Prelude.{
  ℕ, ◌/◌, ◌==◌, Option, none, some, Bool, true, false, ◌&&◌, ◌||◌, List, [], ◌∷◌, ◌++◌, first, any,
  get_or, if◌then◌else◌,
}
use wax_watch_api.Prelude.Text.{Text, codes, text_eq, nonempty, strip, truthy_text}
use wax_watch_api.Prelude.Int.{ℤ, pos_part}
use wax_watch_api.Prelude.Dict.{Dict}
use wax_watch_api.Json.{Json, text, arr, obj, cons, unit, fields, truthy, as_number}
use wax_watch_api.Models.{WatchRelease}
use wax_watch_api.Environment.{Environment}
use wax_watch_api.Session.{
  Action, Outcome, ok, raised, attribute_error, type_error, value_error, flush_failed, pure, raise,
  gets, modify, ◌>>=◌, ◌>>◌, option_case, now_utc, fresh_id,
}
use wax_watch_api.Ingest.Match.{str_of}
use wax_watch_api.WatchReleases.{write_release}
use wax_watch_api.DiscogsImport.{Discogs}
use wax_watch_api.DiscogsImport.Metadata.{value_of, json_or, text_or_none}

-- The dictionary that `_normalize_release` returns.
pub record Normalized : Type 0 where
  pub discogs_release_id : ℕ
  pub discogs_master_id : Option ℕ
  pub match_mode : Text
  pub title : Text
  pub artist : Option Text
  pub year : Option ℕ

-- The fields of a dictionary; anything else has no `get`.
abbrev pub as_dict : Json → Outcome (Dict Text Json)
as_dict (obj fs) = ok (fields fs)
as_dict _ = raised attribute_error

-- `(artists[0] or {}).get("name")`, where a text yields its first character and a number cannot be
-- indexed.
abbrev first_item : Json → Outcome Json
first_item (arr (cons v vs)) = ok v
first_item (text (c ∷ s)) = ok (text (c ∷ []))
first_item _ = raised type_error

abbrev pub and_then : {A B : Type 0} → Outcome A → (A → Outcome B) → Outcome B
and_then (ok a) f = f a
and_then (raised e) f = raised e

-- Python's rounding toward 0, of a count of ten-thousandths
abbrev whole : ℤ → ℕ
whole n = pos_part n / unit

module _ (env : Environment) (d : Discogs) where
  abbrev int_of_text : Option ℤ → Outcome ℕ
  int_of_text none = raised value_error
  int_of_text (some n) = ok (pos_part n)

  abbrev int_of_number : Option ℤ → Outcome ℕ
  int_of_number none = raised type_error
  int_of_number (some n) = ok (whole n)

  -- `int(v)`
  abbrev pub int_of : Json → Outcome ℕ
  int_of (text s) = int_of_text (d.int_of_text s)
  int_of v = int_of_number (as_number v)

  abbrev no_error : Outcome ℕ → Option ℕ
  no_error (ok n) = some n
  no_error (raised e) = none

  -- `int(v) if v else None`, and `None` where it raises
  abbrev int_or_none : Json → Option ℕ
  int_or_none v = if truthy v then no_error (int_of v) else none

  -- `str(v or "").strip()`
  abbrev text_of : Json → Text
  text_of v = strip env.unicode (if truthy v then str_of d.print v else [])

  abbrev name_of : Json → Outcome (Option Text)
  name_of v =
      if truthy v
      then and_then (as_dict v) (λ a. ok (text_or_none (text_of (value_of (codes "name") a))))
      else ok none

  abbrev artist_of : Json → Outcome (Option Text)
  artist_of artists = if truthy artists then and_then (first_item artists) name_of else ok none

  abbrev normalized_of :
      (release_id master_id year : Json) → Text → Option Text → Outcome (Option Normalized)
  normalized_of release_id master_id year title artist = and_then (int_of release_id) (λ id. ok (
      some (record {
        discogs_release_id = id;
        discogs_master_id = int_or_none master_id;
        match_mode = codes "exact_release";
        title = title;
        artist = artist;
        year = int_or_none year;
      })))

  abbrev titled : (basic raw : Dict Text Json) → Json → Option Text → Outcome (Option Normalized)
  titled basic raw release_id artist =
      let title =
        text_of (json_or (value_of (codes "title") basic) (value_of (codes "title") raw)) in
      if nonempty title
      then normalized_of release_id
          (json_or (value_of (codes "master_id") basic) (value_of (codes "master_id") raw))
          (json_or (value_of (codes "year") basic) (value_of (codes "year") raw)) title artist
      else ok none

  abbrev identified : (basic raw : Dict Text Json) → Outcome (Option Normalized)
  identified basic raw =
      let release_id = json_or (value_of (codes "id") basic) (value_of (codes "id") raw) in
      if truthy release_id
      then and_then (artist_of (value_of (codes "artists") basic)) (titled basic raw release_id)
      else ok none

  abbrev basic_of : Dict Text Json → Json → Outcome (Dict Text Json)
  basic_of raw v = if truthy v then as_dict v else ok raw

  -- `_normalize_release`
  unfoldable pub normalize_release : Json → Outcome (Option Normalized)
  unfolding value_of truthy strip
  normalize_release entry = and_then (as_dict entry) (λ raw.
      and_then (basic_of raw (value_of (codes "basic_information") raw))
        (λ basic. identified basic raw))

-- The first row that the database finds for a user and a Discogs release.
abbrev pub watched : ℕ → ℕ → List WatchRelease → Option WatchRelease
watched user_id release_id = first (λ r. r.user_id == user_id && r.discogs_release_id == release_id)

abbrev is_wantlist : Text → Bool
is_wantlist source = text_eq source (codes "wantlist")

abbrev is_collection : Text → Bool
is_collection source = text_eq source (codes "collection")

unfoldable pub refreshed : Normalized → (source : Text) → (now : ℕ) → WatchRelease → WatchRelease
unfolding text_eq
refreshed n source now r = record r {
  discogs_master_id = n.discogs_master_id;
  match_mode = get_or (truthy_text (some n.match_mode)) r.match_mode;
  title = n.title;
  artist = n.artist;
  year = n.year;
  is_active = true;
  imported_from_wantlist = r.imported_from_wantlist || is_wantlist source;
  imported_from_collection = r.imported_from_collection || is_collection source;
  updated_at = now;
}

unfoldable pub imported : (id user_id : ℕ) → Normalized → (source : Text) → (now : ℕ) → WatchRelease
unfolding text_eq
imported id user_id n source now = record {
  id = id;
  user_id = user_id;
  discogs_release_id = n.discogs_release_id;
  discogs_master_id = n.discogs_master_id;
  match_mode = get_or (truthy_text (some n.match_mode)) (codes "exact_release");
  title = n.title;
  artist = n.artist;
  year = n.year;
  target_price = none;
  currency = codes "USD";
  min_condition = none;
  is_active = true;
  imported_from_wantlist = is_wantlist source;
  imported_from_collection = is_collection source;
  created_at = now;
  updated_at = now;
}

-- `db.add(watch)`: the session has autoflush off, so no query sees the row before a flush.
unfoldable pub add_release : WatchRelease → Action (Unit {0})
add_release r = modify (λ w. record w { added = w.added ++ r ∷ [] })

-- `_upsert_watch_release`: whether a row was added
unfoldable pub upsert_watch_release : ℕ → Normalized → Text → Action Bool
unfolding refreshed imported write_release add_release
upsert_watch_release user_id n source = do
  existing ← gets (λ w. watched user_id n.discogs_release_id w.releases)
  now ← now_utc
  option_case existing (do id ← fresh_id; add_release (imported id user_id n source now); pure true)
      (λ r. do write_release (refreshed n source now r); pure false)

-- The unique index over users and releases in the mode `exact_release`.
abbrev pub same_exact : WatchRelease → WatchRelease → Bool
same_exact a b =
    text_eq a.match_mode (codes "exact_release")
    && text_eq b.match_mode (codes "exact_release")
    && a.user_id == b.user_id
    && a.discogs_release_id == b.discogs_release_id

unfoldable pub violates_index : List WatchRelease → Bool
unfolding text_eq
violates_index [] = false
violates_index (r ∷ rs) = any (same_exact r) rs || violates_index rs

unfoldable pub write_added : Action (Unit {0})
write_added =
    modify (λ w. record w { db = record w.db { releases = w.releases ++ w.added }; added = [] })

-- `db.flush()` outside a savepoint
unfoldable pub flush : Action (Unit {0})
unfolding violates_index write_added
flush = do
  clash ← gets (λ w. violates_index (w.releases ++ w.added))
  if clash then raise flush_failed else write_added

-- ===== src/WatchReleases.antt =====
-- app/services/watch_releases.py: the operations on the `watch_releases` table.
pub mod Master
mod Examples
use wax_watch_api.Prelude.{
  ℕ, ◌==◌, Option, none, some, Bool, true, false, not, ◌&&◌, List, [], ◌∷◌, ◌++◌, first, is_some,
  or_else, get_or, if◌then◌else◌,
}
use wax_watch_api.Prelude.Text.{Text, codes, text_eq, truthy_text}
use wax_watch_api.Models.{
  WatchRelease, EventType, watch_release_created, watch_release_updated, watch_release_enabled,
  watch_release_disabled,
}
use wax_watch_api.Environment.{Environment}
use wax_watch_api.Session.{
  World, Action, http_exception, pure, raise, gets, modify, ◌>>=◌, ◌>>◌, option_case, now_utc,
  fresh_id,
}
use wax_watch_api.Events.{Subject, no_subject, create_event}

abbrev pub release_of : ℕ → ℕ → List WatchRelease → Option WatchRelease
release_of user_id id = first (λ r. r.user_id == user_id && r.id == id)

unfoldable pub append_release : WatchRelease → Action (Unit {0})
append_release r = modify (λ w. record w { db = record w.db { releases = w.releases ++ r ∷ [] } })

unfoldable pub replace_release : WatchRelease → List WatchRelease → List WatchRelease
replace_release r [] = []
replace_release r (s ∷ rs) = (if s.id == r.id then r else s) ∷ replace_release r rs

unfoldable pub write_release : WatchRelease → Action (Unit {0})
write_release r =
    modify (λ w. record w { db = record w.db { releases = replace_release r w.releases } })

abbrev about_release : ℕ → Subject
about_release id = record no_subject { watch_release_id = some id }

-- `mode == "master_release" and master_id is None`
abbrev pub lacks_master : Text → Option ℕ → Bool
lacks_master mode master_id = text_eq mode (codes "master_release") && not (is_some master_id)

-- The arguments of `create_watch_release`.
pub record NewRelease : Type 0 where
  pub discogs_release_id : ℕ
  pub discogs_master_id : Option ℕ
  pub match_mode : Text
  pub title : Text
  pub artist : Option Text
  pub year : Option ℕ
  pub target_price : Option ℕ
  pub currency : Text
  pub min_condition : Option Text
  pub is_active : Bool

abbrev new_release : Environment → (user_id : ℕ) → NewRelease → (id now : ℕ) → WatchRelease
new_release env user_id v id now = record {
  id = id;
  user_id = user_id;
  discogs_release_id = v.discogs_release_id;
  discogs_master_id = v.discogs_master_id;
  match_mode = v.match_mode;
  title = v.title;
  artist = v.artist;
  year = v.year;
  target_price = v.target_price;
  currency = env.unicode.upper v.currency;
  min_condition = v.min_condition;
  is_active = v.is_active;
  imported_from_wantlist = false;
  imported_from_collection = false;
  created_at = now;
  updated_at = now;
}

unfoldable pub get_watch_release : ℕ → ℕ → Action WatchRelease
get_watch_release user_id id = do
  found ← gets (λ w. release_of user_id id w.releases)
  option_case found (raise (http_exception 404)) pure

-- The arguments of `update_watch_release`; `none` leaves the attribute alone.
pub record ReleaseUpdate : Type 0 where
  pub discogs_release_id : Option ℕ
  pub discogs_master_id : Option ℕ
  pub match_mode : Option Text
  pub title : Option Text
  pub artist : Option Text
  pub year : Option ℕ
  pub target_price : Option ℕ
  pub currency : Option Text
  pub min_condition : Option Text
  pub is_active : Option Bool

abbrev pub no_update : ReleaseUpdate
no_update = record {
  discogs_release_id = none;
  discogs_master_id = none;
  match_mode = none;
  title = none;
  artist = none;
  year = none;
  target_price = none;
  currency = none;
  min_condition = none;
  is_active = none;
}

-- `new is not None and new != old`
abbrev pub differs {ℓ} : {A : Type ℓ} → (A → A → Bool) → Option A → A → Bool
differs eq none old = false
differs eq (some new) old = not (eq new old)

abbrev pub option_eq {ℓ} : {A : Type ℓ} → (A → A → Bool) → A → Option A → Bool
option_eq eq a none = false
option_eq eq a (some b) = eq a b

abbrev pub differs_from {ℓ} : {A : Type ℓ} → (A → A → Bool) → Option A → Option A → Bool
differs_from eq none old = false
differs_from eq (some new) old = not (option_eq eq new old)

abbrev pub upper_of : Environment → Option Text → Option Text
upper_of env none = none
upper_of env (some c) = some (env.unicode.upper c)

abbrev pub same_bool : Bool → Bool → Bool
same_bool true b = b
same_bool false b = not b

abbrev any_of : List Bool → Bool
any_of [] = false
any_of (b ∷ bs) = if b then true else any_of bs

unfoldable pub apply_update : Environment → ReleaseUpdate → WatchRelease → WatchRelease
apply_update env v r = record r {
  discogs_release_id = get_or v.discogs_release_id r.discogs_release_id;
  discogs_master_id = or_else v.discogs_master_id r.discogs_master_id;
  match_mode = get_or v.match_mode r.match_mode;
  title = get_or v.title r.title;
  artist = or_else v.artist r.artist;
  year = or_else v.year r.year;
  target_price = or_else v.target_price r.target_price;
  currency = get_or (upper_of env v.currency) r.currency;
  min_condition = or_else v.min_condition r.min_condition;
  is_active = get_or v.is_active r.is_active;
}

unfoldable pub is_changed : Environment → ReleaseUpdate → WatchRelease → Bool
is_changed env v r = any_of (
    differs ◌==◌ v.discogs_release_id r.discogs_release_id
    ∷ differs_from ◌==◌ v.discogs_master_id r.discogs_master_id
    ∷ differs text_eq v.match_mode r.match_mode
    ∷ differs text_eq v.title r.title
    ∷ differs_from text_eq v.artist r.artist
    ∷ differs_from ◌==◌ v.year r.year
    ∷ differs_from ◌==◌ v.target_price r.target_price
    ∷ differs text_eq (upper_of env v.currency) r.currency
    ∷ differs_from text_eq v.min_condition r.min_condition
    ∷ differs same_bool v.is_active r.is_active
    ∷ [])

abbrev pub active_changed : ReleaseUpdate → WatchRelease → Option Bool
active_changed v r = if differs same_bool v.is_active r.is_active then v.is_active else none

module _ (env : Environment) where
  unfoldable pub create_watch_release : ℕ → NewRelease → Action WatchRelease
  create_watch_release user_id v =
      if lacks_master v.match_mode v.discogs_master_id then raise (http_exception 422) else (do
        now ← now_utc
        id ← fresh_id
        append_release (new_release env user_id v id now)
        event ← create_event env user_id watch_release_created (about_release id)
        pure (new_release env user_id v id now))

  unfoldable pub report_active : ℕ → Option Bool → ℕ → Action (Unit {0})
  report_active user_id none id = pure tt
  report_active user_id (some true) id = do
    event ← create_event env user_id watch_release_enabled (about_release id)
    pure tt
  report_active user_id (some false) id = do
    event ← create_event env user_id watch_release_disabled (about_release id)
    pure tt

  unfoldable pub report_changes : ℕ → ReleaseUpdate → WatchRelease → Action WatchRelease
  report_changes user_id v r =
      if is_changed env v r
      then (do
        now ← now_utc
        write_release (record (apply_update env v r) { updated_at = now })
        event ← create_event env user_id watch_release_updated (about_release r.id)
        report_active user_id (active_changed v r) r.id
        pure (record (apply_update env v r) { updated_at = now }))
      else pure r

  unfoldable pub update_watch_release : ℕ → ℕ → ReleaseUpdate → Action WatchRelease
  unfolding apply_update is_changed
  update_watch_release user_id id v = do
    r ← get_watch_release user_id id
    if lacks_master (get_or (truthy_text v.match_mode) r.match_mode)
          (or_else v.discogs_master_id r.discogs_master_id)
        then raise (http_exception 422)
        else report_changes user_id v r

  unfoldable pub disable_watch_release : ℕ → ℕ → Action WatchRelease
  disable_watch_release user_id id =
      update_watch_release user_id id (record no_update { is_active = some false })

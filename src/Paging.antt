-- ===== src/Paging.antt =====
-- app/api/pagination.py: pages. app/services/watch_rules.py: `list_watch_rules`.
-- app/services/watch_releases.py: `list_watch_releases`. A query reads the rows of a table; time
-- and identifier stamp a row.
pub mod Order
pub mod Join
pub mod Cursor
mod Examples
use wax_watch_api.Prelude.{
  ℕ, ◌==◌, ltb, Option, none, some, Bool, true, false, ◌&&◌, ◌||◌, List, [], ◌∷◌, keep, take, drop,
  if◌then◌else◌,
}
use wax_watch_api.Models.{WatchSearchRule, WatchRelease}

-- `created_at` and `id`
abbrev pub Stamp : Type 0
Stamp = ℕ × ℕ

-- `created_at < c or (created_at == c and id < i)`
abbrev pub older : Stamp → Stamp → Bool
older a c = ltb a.0 c.0 || (a.0 == c.0 && ltb a.1 c.1)

-- The arguments of a listing.
pub record Page : Type 0 where
  pub limit : ℕ
  pub offset : ℕ
  pub cursor_created_at : Option ℕ
  pub cursor_id : Option ℕ

module _ {A : Type 0} (stamp : A → Stamp) where
  unfoldable pub insert_row : A → List A → List A
  insert_row r [] = r ∷ []
  insert_row r (s ∷ rows) =
      let rest = insert_row r rows in if older (stamp r) (stamp s) then s ∷ rest else r ∷ s ∷ rows

  -- `.order_by(created_at.desc(), id.desc())`
  unfoldable pub order_by : List A → List A
  unfolding insert_row
  order_by [] = []
  order_by (r ∷ rows) = insert_row r (order_by rows)

  abbrev pub seek : Option ℕ → Option ℕ → ℕ → List A → List A
  seek (some at) (some id) offset rows = keep (λ r. older (stamp r) (at, id)) rows
  seek (some at) none offset rows = drop offset rows
  seek none id offset rows = drop offset rows

  unfoldable pub page_of : Page → List A → List A
  unfolding order_by
  page_of p rows = take p.limit (seek p.cursor_created_at p.cursor_id p.offset (order_by rows))

abbrev pub rule_stamp : WatchSearchRule → Stamp
rule_stamp r = (r.created_at, r.id)

abbrev pub release_stamp : WatchRelease → Stamp
release_stamp r = (r.created_at, r.id)

abbrev pub rules_of_user : ℕ → List WatchSearchRule → List WatchSearchRule
rules_of_user user_id = keep (λ r. r.user_id == user_id)

abbrev pub releases_of_user : ℕ → List WatchRelease → List WatchRelease
releases_of_user user_id = keep (λ r. r.user_id == user_id)

unfoldable pub list_watch_rules : ℕ → Page → List WatchSearchRule → List WatchSearchRule
unfolding page_of
list_watch_rules user_id p rows = page_of rule_stamp p (rules_of_user user_id rows)

unfoldable pub list_watch_releases : ℕ → Page → List WatchRelease → List WatchRelease
unfolding page_of
list_watch_releases user_id p rows = page_of release_stamp p (releases_of_user user_id rows)

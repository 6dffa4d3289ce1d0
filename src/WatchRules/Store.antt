-- ===== src/WatchRules/Store.antt =====
-- app/services/watch_rules.py: the operations on the `watch_search_rules` table.
pub mod Fields
pub mod Sources
use wax_watch_api.Prelude.{
  ℕ, ◌==◌, ltb, Option, none, some, Bool, true, false, not, ◌&&◌, ◌||◌, List, [], ◌∷◌, ◌++◌, first,
  keep, take, drop, if◌then◌else◌,
}
use wax_watch_api.Prelude.Text.{Text, text_eq}
use wax_watch_api.Prelude.Dict.{Dict}
use wax_watch_api.Json.{Json, dict_eq}
use wax_watch_api.Models.{
  WatchSearchRule, WatchMatch, Event, EventType, rule_created, rule_updated, rule_enabled,
  rule_disabled, rule_deleted,
}
use wax_watch_api.Environment.{Environment}
use wax_watch_api.Session.{
  World, Action, http_exception, value_error, pure, raise, gets, modify, ◌>>=◌, ◌>>◌, option_case,
  now_utc, fresh_id,
}
use wax_watch_api.Events.{Subject, no_subject, create_event}
use wax_watch_api.WatchRules.Validate.{validate_rule_query_defensive}
use wax_watch_api.WatchRules.Owner.{ensure_user_exists}
use wax_watch_api.WatchRules.Merge.{merge, removes_sources, has_sources}

abbrev pub bool_eq : Bool → Bool → Bool
bool_eq true b = b
bool_eq false b = not b

-- The rule of the user with the identifier.
abbrev pub rule_of : ℕ → ℕ → List WatchSearchRule → Option WatchSearchRule
rule_of user_id rule_id = first (λ r. r.id == rule_id && r.user_id == user_id)

unfoldable pub append_rule : WatchSearchRule → Action (Unit {0})
append_rule r = modify (λ w. record w { db = record w.db { rules = w.rules ++ r ∷ [] } })

unfoldable pub replace_rule : WatchSearchRule → List WatchSearchRule → List WatchSearchRule
replace_rule r [] = []
replace_rule r (s ∷ rs) = (if s.id == r.id then r else s) ∷ replace_rule r rs

-- A write to the attributes of a rule of the session.
unfoldable pub write_rule : WatchSearchRule → Action (Unit {0})
write_rule r = modify (λ w. record w { db = record w.db { rules = replace_rule r w.rules } })

abbrev pub forget_rule : ℕ → Option ℕ → Option ℕ
forget_rule rule_id none = none
forget_rule rule_id (some r) = if r == rule_id then none else some r

unfoldable pub unlink_events : ℕ → List Event → List Event
unlink_events rule_id [] = []
unlink_events rule_id (e ∷ es) =
    record e { rule_id = forget_rule rule_id e.rule_id } ∷ unlink_events rule_id es

-- `db.delete(rule)`: the foreign keys drop its matches, and its events name it no more.
unfoldable pub delete_rule : ℕ → Action (Unit {0})
delete_rule rule_id = modify (λ w. record w {
  db = record w.db {
    rules = keep (λ r. not (r.id == rule_id)) w.rules;
    matches = keep (λ m. not (m.rule_id == rule_id)) w.matches;
    events = unlink_events rule_id w.events;
  };
})

abbrev about_rule : ℕ → Subject
about_rule rule_id = record no_subject { rule_id = some rule_id }

abbrev new_rule :
    (user_id : ℕ) → Text → Dict Text Json → ℕ → (id created updated : ℕ) → WatchSearchRule
new_rule user_id name query seconds id created updated = record {
  id = id;
  user_id = user_id;
  name = name;
  query = query;
  is_active = true;
  poll_interval_seconds = seconds;
  last_run_at = none;
  next_run_at = none;
  created_at = created;
  updated_at = updated;
}

-- The arguments of `update_watch_rule`.
pub record RuleUpdate : Type 0 where
  pub name : Option Text
  pub query : Option (Dict Text Json)
  pub is_active : Option Bool
  pub poll_interval_seconds : Option ℕ

-- The rule while it is updated, and whether anything changed.
pub record Draft : Type 0 where
  pub row : WatchSearchRule
  pub changed : Bool

abbrev set_name : Option Text → Draft → Draft
set_name none d = d
set_name (some name) d =
    if text_eq name d.row.name
    then d
    else record { row = record d.row { name = name }; changed = true }

abbrev set_poll_interval : Option ℕ → Draft → Draft
set_poll_interval none d = d
set_poll_interval (some s) d =
    if s == d.row.poll_interval_seconds
    then d
    else record { row = record d.row { poll_interval_seconds = s }; changed = true }

abbrev set_active : Option Bool → Draft → Draft
set_active none d = d
set_active (some b) d =
    if bool_eq b d.row.is_active
    then d
    else record { row = record d.row { is_active = b }; changed = true }

abbrev pub active_change : Option Bool → WatchSearchRule → Option Bool
active_change none r = none
active_change (some b) r = if bool_eq b r.is_active then none else some b

unfoldable pub set_fields : RuleUpdate → WatchSearchRule → Draft
set_fields u r = set_active u.is_active (
    set_poll_interval u.poll_interval_seconds
      (set_name u.name (record { row = r; changed = false })))

unfoldable pub get_watch_rule : ℕ → ℕ → Action WatchSearchRule
get_watch_rule user_id rule_id = do
  found ← gets (λ w. rule_of user_id rule_id w.rules)
  option_case found (raise (http_exception 404)) pure

unfoldable pub store_query : Dict Text Json → Draft → Action Draft
store_query existing d = if dict_eq existing d.row.query then pure d else (do
  write_rule (record d.row { query = existing })
  pure (record { row = record d.row { query = existing }; changed = true }))

module _ (env : Environment) where
  unfoldable pub create_watch_rule : ℕ → Text → Dict Text Json → ℕ → Action WatchSearchRule
  create_watch_rule user_id name query seconds = do
    owner ← ensure_user_exists env user_id
    validate_rule_query_defensive env.unicode query
    created ← now_utc
    updated ← now_utc
    id ← fresh_id
    append_rule (new_rule user_id name query seconds id created updated)
    event ← create_event env user_id rule_created (about_rule id)
    pure (new_rule user_id name query seconds id created updated)

  unfoldable pub update_query : Option (Dict Text Json) → Draft → Action Draft
  update_query none d = pure d
  update_query (some query) d =
      if removes_sources query
      then raise value_error
      else (if not (has_sources (merge d.row.query query)) then raise value_error else (do
        validate_rule_query_defensive env.unicode (merge d.row.query query)
        store_query (merge d.row.query query) d))

  unfoldable pub report_active : ℕ → Option Bool → WatchSearchRule → Action (Unit {0})
  report_active user_id none r = pure tt
  report_active user_id (some true) r = do
    event ← create_event env user_id rule_enabled (about_rule r.id)
    pure tt
  report_active user_id (some false) r = do
    event ← create_event env user_id rule_disabled (about_rule r.id)
    pure tt

  unfoldable pub report_changes : ℕ → Option Bool → Draft → Action WatchSearchRule
  report_changes user_id active_changed d =
      if d.changed
      then (do
        now ← now_utc
        write_rule (record d.row { updated_at = now })
        event ← create_event env user_id rule_updated (about_rule d.row.id)
        report_active user_id active_changed d.row
        pure (record d.row { updated_at = now }))
      else pure d.row

  unfoldable pub update_watch_rule : ℕ → ℕ → RuleUpdate → Action WatchSearchRule
  unfolding get_watch_rule set_fields
  update_watch_rule user_id rule_id u = do
    rule ← get_watch_rule user_id rule_id
    write_rule (set_fields u rule).row
    d ← update_query u.query (set_fields u rule)
    report_changes user_id (active_change u.is_active rule) d

  unfoldable pub disable_watch_rule : ℕ → ℕ → Action WatchSearchRule
  disable_watch_rule user_id rule_id =
      update_watch_rule user_id rule_id
        (record { name = none; query = none; is_active = some false; poll_interval_seconds = none })

  unfoldable pub delete_watch_rule : ℕ → ℕ → Action (Unit {0})
  delete_watch_rule user_id rule_id = do
    rule ← get_watch_rule user_id rule_id
    event ← create_event env user_id rule_deleted (about_rule rule_id)
    delete_rule rule_id

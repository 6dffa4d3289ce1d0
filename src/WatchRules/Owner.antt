-- ===== src/WatchRules/Owner.antt =====
-- app/services/watch_rules.py: `ensure_user_exists`.
pub mod Kept
use wax_watch_api.Prelude.{
  ℕ, ◌==◌, Option, none, true, not, List, [], ◌∷◌, ◌++◌, first, any, if◌then◌else◌,
}
use wax_watch_api.Models.{User}
use wax_watch_api.Environment.{Environment}
use wax_watch_api.Session.{
  Action, http_exception, integrity_error, pure, raise, gets, modify, ◌>>=◌, ◌>>◌, option_case,
  now_utc, catch_integrity_error,
}
use wax_watch_api.Outbox.{begin_nested}

abbrev pub find_user : ℕ → List User → Option User
find_user id = first (λ u. u.id == id)

unfoldable pub append_user : User → Action (Unit {0})
append_user u = modify (λ w. record w { db = record w.db { users = w.users ++ u ∷ [] } })

-- The primary key of `users`.
unfoldable pub insert_user : User → Action User
unfolding append_user
insert_user u = do
  taken ← gets (λ w. any (λ v. v.id == u.id) w.users)
  if taken then raise integrity_error else (do append_user u; pure u)

abbrev dev_user : (id created updated : ℕ) → User
dev_user id created updated = record {
  id = id;
  display_name = none;
  timezone = none;
  currency = none;
  is_active = true;
  created_at = created;
  updated_at = updated;
}

unfoldable pub reread_user : ℕ → Action User
reread_user id = do
  found ← gets (λ w. find_user id w.users)
  option_case found (raise integrity_error) pure

module _ (env : Environment) where
  -- `begin_nested` flushes the pending row before it opens the savepoint.
  unfoldable pub flushed_nested : User → Action User
  unfolding insert_user
  flushed_nested u = do added ← insert_user u; begin_nested env (pure added)

  unfoldable pub create_dev_user : ℕ → Action User
  create_dev_user id = do
    created ← now_utc
    updated ← now_utc
    catch_integrity_error (flushed_nested (dev_user id created updated)) (reread_user id)

  unfoldable pub ensure_user_exists : ℕ → Action User
  unfolding create_dev_user
  ensure_user_exists id = do
    found ← gets (λ w. find_user id w.users)
    option_case found
        (if not env.dev_auto_create_users then raise (http_exception 401) else create_dev_user id)
        pure

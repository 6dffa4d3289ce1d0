-- ===== src/WatchRules/Owner/Kept.antt =====
-- app/services/watch_rules.py: `ensure_user_exists`, for an invariant that does not speak of users.
use wax_watch_api.Prelude.{ℕ, not, List}
use wax_watch_api.Models.{User}
use wax_watch_api.Environment.{Environment}
use wax_watch_api.Session.{Tables}
use wax_watch_api.Session.Keeps.{
  Keeps, Keeps-modify, Keeps-bind, Keeps-pure, Keeps-if, Keeps-raise, Keeps-gets, Keeps-option,
  Keeps-catch, Holds, Holds-now_utc,
}
use wax_watch_api.Outbox.Keeps.{Holds-IgnoresOutbox, begin_nested-Keeps}
use wax_watch_api.WatchRules.Owner.{
  append_user, insert_user, reread_user, flushed_nested, create_dev_user, ensure_user_exists,
}

module _ {I : Tables → Type 0}
    (users_free : (t : Tables) (us : List User) → I t → I (record t { users = us }))
    (env : Environment) where
  append-Holds : (u : User) → Keeps (Holds I) (append_user u)
  unfolding append_user
  append-Holds u =
      Keeps-modify _ (λ w h. record { here = users_free w.db _ h.here; elsewhere = h.elsewhere })

  insert-Holds : (u : User) → Keeps (Holds I) (insert_user u)
  unfolding insert_user
  insert-Holds u = Keeps-bind _ _ (Keeps-gets _) (λ taken.
      Keeps-if taken _ _ (Keeps-raise _) (Keeps-bind _ _ (append-Holds u) (λ _. Keeps-pure u)))

  nested-Holds : (u : User) → Keeps (Holds I) (flushed_nested env u)
  unfolding flushed_nested
  nested-Holds u =
      Keeps-bind _ _ (insert-Holds u)
        (λ added. begin_nested-Keeps Holds-IgnoresOutbox env _ (Keeps-pure added))

  reread-Holds : (id : ℕ) → Keeps (Holds I) (reread_user id)
  unfolding reread_user
  reread-Holds id =
      Keeps-bind _ _ (Keeps-gets _)
        (λ found. Keeps-option found _ _ (Keeps-raise _) (λ u. Keeps-pure u))

  create-Holds : (id : ℕ) → Keeps (Holds I) (create_dev_user env id)
  unfolding create_dev_user
  create-Holds id = Keeps-bind _ _ Holds-now_utc (λ created.
      Keeps-bind _ _ Holds-now_utc (λ updated. Keeps-catch _ _ (nested-Holds _) (reread-Holds id)))

  pub ensure_user_exists-Holds : (id : ℕ) → Keeps (Holds I) (ensure_user_exists env id)
  unfolding ensure_user_exists
  ensure_user_exists-Holds id = Keeps-bind _ _ (Keeps-gets _) (λ found.
      Keeps-option found _ _
        (Keeps-if (not env.dev_auto_create_users) _ _ (Keeps-raise _) (create-Holds id))
        (λ u. Keeps-pure u))

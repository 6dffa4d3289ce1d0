-- ===== src/Events.antt =====
-- The `events` table, as app/services/watch_rules.py, watch_releases.py and ingest.py write it:
-- `db.add(event)`, `db.flush()`, `enqueue_from_event(db, event=event)`.
use wax_watch_api.Prelude.{ℕ, Option, none, List, [], ◌∷◌, ◌++◌}
use wax_watch_api.Models.{Event, EventType}
use wax_watch_api.Environment.{Environment}
use wax_watch_api.Session.{World, Tables, Action, pure, modify, ◌>>=◌, ◌>>◌, now_utc, fresh_id}
use wax_watch_api.Session.Keeps.{
  Keeps, Keeps-bind, Keeps-pure, Keeps-modify, Holds, Holds-now_utc, Holds-fresh_id,
}
use wax_watch_api.Notifications.Enqueue.{enqueue_from_event}
use wax_watch_api.Notifications.Frame.{
  IgnoresDelivery, enqueue_from_event_kept, KeptByReads, KeptByWrites, enqueue_from_event-Keeps,
}

unfoldable pub append_event : Event → Action (Unit {0})
append_event e = modify (λ w. record w { db = record w.db { events = w.events ++ e ∷ [] } })

-- What the event is about: a watched release, a rule, a listing.
pub record Subject : Type 0 where
  pub watch_release_id : Option ℕ
  pub rule_id : Option ℕ
  pub listing_id : Option ℕ

abbrev pub no_subject : Subject
no_subject = record { watch_release_id = none; rule_id = none; listing_id = none }

abbrev pub event_at : ℕ → EventType → Subject → (id created_at : ℕ) → Event
event_at user_id type s id created_at = record {
  id = id;
  user_id = user_id;
  type = type;
  watch_release_id = s.watch_release_id;
  rule_id = s.rule_id;
  listing_id = s.listing_id;
  created_at = created_at;
}

module _ (env : Environment) where
  unfoldable pub add_event : ℕ → EventType → Subject → ℕ → Action Event
  add_event user_id type s created_at = do
    id ← fresh_id
    append_event (event_at user_id type s id created_at)
    enqueue_from_event env (event_at user_id type s id created_at)
    pure (event_at user_id type s id created_at)

  -- `_create_event` of both services
  unfoldable pub create_event : ℕ → EventType → Subject → Action Event
  create_event user_id type s = do created_at ← now_utc; add_event user_id type s created_at

-- An invariant that does not speak of events either.
module _ {I : Tables → Type 0} (ig : IgnoresDelivery I)
    (events_free : (t : Tables) (es : List Event) → I t → I (record t { events = es })) where
  append_event-Holds : (e : Event) → Keeps (Holds I) (append_event e)
  unfolding append_event
  append_event-Holds e =
      Keeps-modify _ (λ w h. record { here = events_free w.db _ h.here; elsewhere = h.elsewhere })

  pub add_event-Holds :
      (env : Environment) (user_id : ℕ) (type : EventType) (s : Subject) (at : ℕ)
      → Keeps (Holds I) (add_event env user_id type s at)
  unfolding add_event
  add_event-Holds env user_id type s at = Keeps-bind _ _ Holds-fresh_id (λ id.
      Keeps-bind _ _ (append_event-Holds _)
        (λ _. Keeps-bind _ _ (enqueue_from_event_kept ig env _) (λ _. Keeps-pure _)))

  pub create_event-Holds :
      (env : Environment) (user_id : ℕ) (type : EventType) (s : Subject)
      → Keeps (Holds I) (create_event env user_id type s)
  unfolding create_event
  create_event-Holds env user_id type s =
      Keeps-bind _ _ Holds-now_utc (λ at. add_event-Holds env user_id type s at)

-- A predicate of the world that each step of a notification keeps.
module _ {P : World → Type 0} (env : Environment) (k : KeptByReads env P) (v : KeptByWrites P)
    (appended : (e : Event) → Keeps P (append_event e)) where
  pub add_event-Keeps :
      (user_id : ℕ) (type : EventType) (s : Subject) (at : ℕ)
      → Keeps P (add_event env user_id type s at)
  unfolding add_event
  add_event-Keeps user_id type s at = Keeps-bind _ _ k.fresh (λ id.
      Keeps-bind _ _ (appended _)
        (λ _. Keeps-bind _ _ (enqueue_from_event-Keeps env k v _) (λ _. Keeps-pure _)))

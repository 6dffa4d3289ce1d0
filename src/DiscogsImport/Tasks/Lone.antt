-- ===== src/DiscogsImport/Tasks/Lone.antt =====
-- app/tasks.py: `run_discogs_import_task` while no other transaction interferes.
use wax_watch_api.Prelude.{◌≡◌, refl, subst, sym, List, [], Option, none, some, ◌≢◌}
use wax_watch_api.Environment.{Environment}
use wax_watch_api.Models.{Event}
use wax_watch_api.Session.{
  Tables, World, Action, Outcome, ok, raised, now_utc, fresh_id, overtaken, take_over,
}
use wax_watch_api.Session.Keeps.{Keeps, Keeps-modify}
use wax_watch_api.Session.Ensures.{Ensures, Post}
use wax_watch_api.Outbox.Keeps.{IgnoresOutbox, queue-Keeps, begin_nested-Keeps}
use wax_watch_api.Notifications.Preferences.{append_preference}
use wax_watch_api.Notifications.Enqueue.{append_notification}
use wax_watch_api.Notifications.Frame.{KeptByReads, KeptByWrites}
use wax_watch_api.Events.{append_event, add_event-Keeps}
use wax_watch_api.WatchReleases.{write_release}
use wax_watch_api.DiscogsImport.{Discogs, request}
use wax_watch_api.DiscogsImport.Accounts.{write_link}
use wax_watch_api.DiscogsImport.Releases.{add_release, write_added}
use wax_watch_api.DiscogsImport.Pages.{set_job}
use wax_watch_api.DiscogsImport.Frame.{KeptByRows}
use wax_watch_api.DiscogsImport.Jobs.Steps.{KeptByRun}

-- No other transaction interferes, and these tables are committed.
pub record Lone (base : Tables) (w : World) : Type 0 where
  pub alone : w.others ≡ []
  pub base_eq : w.committed ≡ base

module _ {base : Tables} where
  Lone-IgnoresOutbox : IgnoresOutbox (Lone base)
  Lone-IgnoresOutbox = record {
    outbox = λ w q e f d h. record { alone = h.alone; base_eq = h.base_eq };
    restored = λ w w' h h'. record { alone = h'.alone; base_eq = h'.base_eq };
  }

  none_takes_over :
      (w : World) (steps : List (Tables → Tables))
      → steps ≡ []
      → Lone base w
      → Lone base (take_over steps w)
  none_takes_over w steps e h = subst (λ s. Lone base (take_over s w)) (sym e) h

  reads : (env : Environment) → KeptByReads env (Lone base)
  unfolding now_utc fresh_id overtaken append_preference
  reads env = record {
    now = record { at = λ w h. record { alone = h.alone; base_eq = h.base_eq } };
    fresh = record { at = λ w h. record { alone = h.alone; base_eq = h.base_eq } };
    overtaken_kept = record { at = λ w h. none_takes_over w w.others h.alone h };
    nested = λ m km. begin_nested-Keeps Lone-IgnoresOutbox env m km;
    preference = λ p. Keeps-modify _ (λ w h. record { alone = h.alone; base_eq = h.base_eq });
  }

  writes : KeptByWrites (Lone base)
  unfolding append_notification
  writes = record {
    notification = λ n. Keeps-modify _ (λ w h. record { alone = h.alone; base_eq = h.base_eq });
    queue_kept = queue-Keeps Lone-IgnoresOutbox;
  }

  event_kept : (e : Event) → Keeps (Lone base) (append_event e)
  unfolding append_event
  event_kept e = Keeps-modify _ (λ w h. record { alone = h.alone; base_eq = h.base_eq })

  rows : KeptByRows (Lone base)
  unfolding now_utc fresh_id write_release add_release write_added set_job
  rows = record {
    now = record { at = λ w h. record { alone = h.alone; base_eq = h.base_eq } };
    fresh = record { at = λ w h. record { alone = h.alone; base_eq = h.base_eq } };
    write = λ r. Keeps-modify _ (λ w h. record { alone = h.alone; base_eq = h.base_eq });
    add = λ r. Keeps-modify _ (λ w h. record { alone = h.alone; base_eq = h.base_eq });
    written = Keeps-modify _ (λ w h. record { alone = h.alone; base_eq = h.base_eq });
    count = λ id created. Keeps-modify _ (λ w h. record { alone = h.alone; base_eq = h.base_eq });
    progress = λ id page cursor at.
        Keeps-modify _ (λ w h. record { alone = h.alone; base_eq = h.base_eq });
  }

  pub Lone-KeptByRun : (env : Environment) (d : Discogs) → KeptByRun env d (Lone base)
  unfolding request set_job write_link
  Lone-KeptByRun env d = record {
    links = record {
      rows = rows;
      link = λ l. Keeps-modify _ (λ w h. record { alone = h.alone; base_eq = h.base_eq });
    };
    asks = λ ask. record { at = λ w h. record { alone = h.alone; base_eq = h.base_eq } };
    emits = λ user_id type at. add_event-Keeps env (reads env) writes event_kept user_id type _ at;
    completes =
        λ id at now. Keeps-modify _ (λ w h. record { alone = h.alone; base_eq = h.base_eq });
    fails = λ id e at now. Keeps-modify _ (λ w h. record { alone = h.alone; base_eq = h.base_eq });
  }

ended_or :
    (P : World → Type 0) (out : Outcome (Option (Unit {0})) × World)
    → out.0 ≢ ok none
    → P out.1
    → Post (λ r w. P w × (r ≡ some tt)) P out
ended_or P (ok none, w) n h = absurd (n refl)
ended_or P (ok (some _), w) n h = (h, refl)
ended_or P (raised e, w) n h = h

-- What an action keeps, and a result that is not `none`.
pub Ensures_some :
    {P : World → Type 0} {m : Action (Option (Unit {0}))}
    → Keeps P m
    → ((w : World) → (m w).0 ≢ ok none)
    → Ensures P m (λ r w. P w × (r ≡ some tt)) P
Ensures_some {P} {m} k n = record { at = λ w h. ended_or P (m w) (n w) (k.at w h) }

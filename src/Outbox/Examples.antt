-- ===== src/Outbox/Examples.antt =====
-- Commits of a session that two deliveries wait in.
use wax_watch_api.Prelude.{suc, List, ◌≡◌, refl, none, some, true, [], ◌∷◌, ◌++◌, All}
use wax_watch_api.Session.{World}
use wax_watch_api.Outbox.{Dispatches, pending, taken, refused, after_commit, before_commit, commit}
use wax_watch_api.Outbox.Laws.{retry_delivers}
use wax_watch_api.Outbox.Divided.{
  IsDivided, SessionStep, queues, commits, rolls_back, session_after, commit_divides,
}
use wax_watch_api.Samples.{environment, alone}

abbrev waiting : Dispatches
waiting = (7, none) ∷ (8, some 60) ∷ []

abbrev session : World
session = record alone { queue = some waiting }

abbrev steps : List SessionStep
steps = queues 5 none ∷ rolls_back ∷ queues 7 none ∷ queues 8 (some 60) ∷ commits ∷ []

commit_divides_example :
    let v = session_after environment steps alone in
    ((commit environment v).committed ≡ v.db)
    × ((handed : Dispatches) × ((commit environment v).enqueued ≡ v.enqueued ++ handed)
        × IsDivided
            (environment.accepts (suc v.epoch))
            (pending v)
            handed
            (pending (commit environment v)))
commit_divides_example = commit_divides environment steps alone refl

one_left : (commit environment session).enqueued ≡ (7, none) ∷ []
unfolding commit before_commit after_commit
one_left = refl

broker_back :
    All
      (λ d. environment.accepts (suc (commit environment session).epoch) d.0 ≡ true)
      (refused environment 1 waiting)
unfolding commit before_commit after_commit
broker_back = (refl, tt)

retry_delivers_example :
    ((commit environment (commit environment session)).enqueued
      ≡ ([] ++ taken environment 1 waiting) ++ refused environment 1 waiting)
    × (pending (commit environment (commit environment session)) ≡ [])
retry_delivers_example = retry_delivers environment session tt broker_back

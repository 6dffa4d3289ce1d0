-- ===== src/Notifications/Deliver/Endings.antt =====
-- app/tasks.py: the ways in which one attempt to deliver ends.
use wax_watch_api.Prelude.{ℕ, ◌≡◌, ap, ◌∙◌, Bool, false, List, [], ◌∷◌, arith}
use wax_watch_api.Models.{Notification}
use wax_watch_api.Session.{Tables, World, now_utc}
use wax_watch_api.Session.Ensures.{Ensures}
use wax_watch_api.Notifications.Deliver.{update_rows, mark_failed}
use wax_watch_api.Notifications.Deliver.Once.{successes, Steady, Effect, idle, refused}

module _ (j : ℕ) (mails : List (ℕ × Bool)) (base : Tables) (rows : List Notification) where
  -- The attempt has ended, in one of the ways of `Effect`.
  pub record Ended (w : World) : Type 0 where
    pub alone : w.others ≡ []
    pub base_eq : w.committed ≡ base
    pub effect : Effect j mails rows w.mailed w.notifications

  -- And it was broken off before any mail was taken.
  pub record Broken (w : World) : Type 0 where
    pub ended : Ended w
    pub untaken : (id : ℕ) → successes id w.mailed ≡ successes id mails

  -- The provider was called and has answered.
  pub record Answered (success : Bool) (w : World) : Type 0 where
    pub alone : w.others ≡ []
    pub base_eq : w.committed ≡ base
    pub mails_eq : w.mailed ≡ (j, success) ∷ mails
    pub rows_eq : w.notifications ≡ rows

  -- It refused, and the row says so.
  pub record Refused (now : ℕ) (w : World) : Type 0 where
    pub alone : w.others ≡ []
    pub base_eq : w.committed ≡ base
    pub mails_eq : w.mailed ≡ (j, false) ∷ mails
    pub rows_eq : w.notifications ≡ update_rows j (mark_failed now) rows

  pub Effect_at :
      {mails' mails'' : List (ℕ × Bool)} {rows' rows'' : List Notification}
      → mails'' ≡ mails'
      → rows'' ≡ rows'
      → Effect j mails rows mails' rows'
      → Effect j mails rows mails'' rows''
  Effect_at p q e = rw (p, q) e

  pub Steady-Ended : (w : World) → Steady mails base rows w → Ended w
  Steady-Ended w s = record {
    alone = s.alone;
    base_eq = s.base_eq;
    effect = Effect_at s.mails_eq s.rows_eq idle;
  }

  pub Steady-Broken : (w : World) → Steady mails base rows w → Broken w
  Steady-Broken w s = record {
    ended = Steady-Ended w s;
    untaken = λ id. ap (successes id) s.mails_eq;
  }

  pub Refused-Ended : (now : ℕ) (w : World) → Refused now w → Ended w
  Refused-Ended now w s = record {
    alone = s.alone;
    base_eq = s.base_eq;
    effect = Effect_at s.mails_eq s.rows_eq (refused now);
  }

  pub Refused-Broken : (now : ℕ) (w : World) → Refused now w → Broken w
  unfolding successes
  Refused-Broken now w s = record {
    ended = Refused-Ended now w s;
    untaken = λ id. ap (successes id) s.mails_eq ∙ ground arith;
  }

  pub Answered-now : (b : Bool) → Ensures (Answered b) now_utc (λ _. Answered b) Broken
  unfolding now_utc
  Answered-now b = record {
    at = λ w h. record {
      alone = h.alone;
      base_eq = h.base_eq;
      mails_eq = h.mails_eq;
      rows_eq = h.rows_eq;
    };
  }

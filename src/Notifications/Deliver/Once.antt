-- ===== src/Notifications/Deliver/Once.antt =====
-- app/services/notifications.py: the log of mails, and the rows of the notifications in it.
use wax_watch_api.Prelude.{
  ℕ, suc, ◌≤◌, ◌<◌, ◌==◌, ◌≡◌, refl, ap, ◌∙◌, sym, inl, inr, Option, none, some, Bool, true, false,
  ◌&&◌, List, [], ◌∷◌, first_sound, map_option, ==_iff, ltb, ltb→lt, Bool-cases, arith,
  if◌then◌else◌,
}
use wax_watch_api.Models.{Notification, is_sent}
use wax_watch_api.Environment.{Environment}
use wax_watch_api.Session.{Tables, World, modify, now_utc, fresh_id, overtaken}
use wax_watch_api.Session.Keeps.{Keeps}
use wax_watch_api.Outbox.Keeps.{IgnoresOutbox, begin_nested-Keeps}
use wax_watch_api.Notifications.Preferences.{append_preference}
use wax_watch_api.Notifications.Frame.{KeptByReads}
use wax_watch_api.Notifications.Deliver.{update_rows, mark_sent, mark_failed, row_of}

-- Mails of the notification that the provider took.
unfoldable pub successes : ℕ → List (ℕ × Bool) → ℕ
successes id [] = 0
successes id ((j, done) ∷ log) =
    if j == id && done then suc (successes id log) else successes id log

-- No other transaction interferes; the mail log, the committed tables and the rows are these.
pub record Steady (mails : List (ℕ × Bool)) (base : Tables) (rows : List Notification) (w : World)
    : Type 0 where
  pub alone : w.others ≡ []
  pub mails_eq : w.mailed ≡ mails
  pub base_eq : w.committed ≡ base
  pub rows_eq : w.notifications ≡ rows

module _ {mails : List (ℕ × Bool)} {base : Tables} {rows : List Notification} where
  Steady-IgnoresOutbox : IgnoresOutbox (Steady mails base rows)
  Steady-IgnoresOutbox = record {
    outbox = λ w q e f d h. record {
      alone = h.alone;
      mails_eq = h.mails_eq;
      base_eq = h.base_eq;
      rows_eq = h.rows_eq;
    };
    restored = λ w w' h h'. record {
      alone = h'.alone;
      mails_eq = h'.mails_eq;
      base_eq = h'.base_eq;
      rows_eq = h.rows_eq;
    };
  }

  Steady-overtaken : Keeps (Steady mails base rows) overtaken
  unfolding overtaken
  Steady-overtaken = record { at = λ w h. simp h.alone h }

  pub Steady-KeptByReads : (env : Environment) → KeptByReads env (Steady mails base rows)
  unfolding now_utc fresh_id append_preference modify
  Steady-KeptByReads env = record {
    now = record {
      at = λ w h. record {
        alone = h.alone;
        mails_eq = h.mails_eq;
        base_eq = h.base_eq;
        rows_eq = h.rows_eq;
      };
    };
    fresh = record {
      at = λ w h. record {
        alone = h.alone;
        mails_eq = h.mails_eq;
        base_eq = h.base_eq;
        rows_eq = h.rows_eq;
      };
    };
    overtaken_kept = Steady-overtaken;
    nested = λ m km. begin_nested-Keeps Steady-IgnoresOutbox env m km;
    preference = λ p. record {
      at = λ w h. record {
        alone = h.alone;
        mails_eq = h.mails_eq;
        base_eq = h.base_eq;
        rows_eq = h.rows_eq;
      };
    };
  }

row_of-update_rows :
    (id j : ℕ) (f : Notification → Notification) (rows : List Notification)
    → ((n : Notification) → (f n).id ≡ n.id)
    → row_of id (update_rows j f rows)
      ≡ map_option (λ n. if n.id == j then f n else n) (row_of id rows)
unfolding update_rows
row_of-update_rows id j f [] same = refl
row_of-update_rows id j f (n ∷ rows) same =
    ground (arith, row_of-update_rows id j f rows same, same n)

-- The row of the notification says that it was sent.
abbrev pub IsDelivered : ℕ → List Notification → Type 0
IsDelivered id rows = (n : Notification) × (row_of id rows ≡ some n) × (is_sent n.status ≡ true)

sent_stays :
    (id j now : ℕ) (rows : List Notification)
    → IsDelivered id rows
    → IsDelivered id (update_rows j (mark_sent now) rows)
sent_stays id j now rows (n, found, is) = (
  (if n.id == j then mark_sent now n else n),
  row_of-update_rows id j (mark_sent now) rows (λ m. refl) ∙ rw found,
  ground arith,
)

pub sent_now :
    (id now : ℕ) (n : Notification) (rows : List Notification)
    → row_of id rows ≡ some n
    → IsDelivered id (update_rows id (mark_sent now) rows)
sent_now id now n rows found = (
  (if n.id == id then mark_sent now n else n),
  row_of-update_rows id id (mark_sent now) rows (λ m. refl) ∙ rw found,
  ground (arith, first_sound (λ (m : Notification). m.id == id) rows found),
)

one_state :
    (o : Option Notification) {m n : Notification}
    → o ≡ some m
    → o ≡ some n
    → is_sent m.status ≡ true
    → is_sent n.status ≡ false
    → ⊥
one_state o {m} {n} p q yes_sent not_sent =
    true-ne-false
      (sym yes_sent ∙ ap (λ (x : Option Notification). sent_row x) (sym p ∙ q) ∙ not_sent)
  where
    sent_row : Option Notification → Bool
    sent_row none = false
    sent_row (some x) = is_sent x.status

    true-ne-false : true ≡ false → ⊥
    true-ne-false e = cc

failed_elsewhere :
    (id j now : ℕ) (n : Notification) (rows : List Notification)
    → row_of j rows ≡ some n
    → is_sent n.status ≡ false
    → IsDelivered id rows
    → IsDelivered id (update_rows j (mark_failed now) rows)
failed_elsewhere id j now n rows at_j not_sent (m, found, is) = elim (Bool-cases (m.id == j)) [
  | inl same ↦
      let here = (==_iff m.id j).0 same in
      let there = (==_iff m.id id).0 (first_sound (λ (x : Notification). x.id == id) rows found) in
      absurd (
        one_state (row_of j rows) (ap (λ (k : ℕ). row_of k rows) (sym here ∙ there) ∙ found) at_j is
          not_sent)
  | inr other ↦
      (m, row_of-update_rows id j (mark_failed now) rows (λ x. refl) ∙ rw (found, other), is)
]

-- How an attempt to deliver notification `j` can end: with no mail, with a refused one, with one
-- that was taken, or with a payload on the stream.
pub data Effect (j : ℕ) (mails : List (ℕ × Bool)) (rows : List Notification)
    : List (ℕ × Bool) → List Notification → Type 0 where
  idle : Effect j mails rows mails rows
  refused :
      (now : ℕ) → Effect j mails rows ((j, false) ∷ mails) (update_rows j (mark_failed now) rows)
  taken : (now : ℕ) → Effect j mails rows ((j, true) ∷ mails) (update_rows j (mark_sent now) rows)
  streamed : (now : ℕ) → Effect j mails rows mails (update_rows j (mark_sent now) rows)

-- What the log and the rows say of notification `id`.
pub record IsOnce (id : ℕ) (mails : List (ℕ × Bool)) (rows : List Notification) : Type 0 where
  pub atmost : successes id mails ≤ 1
  pub done : 0 < successes id mails → IsDelivered id rows

untouched :
    (id : ℕ) (n : Notification) (mails : List (ℕ × Bool)) (rows : List Notification)
    → row_of id rows ≡ some n
    → is_sent n.status ≡ false
    → IsOnce id mails rows
    → successes id mails ≡ 0
untouched id n mails rows at_id not_sent o = elim (Bool-cases (ltb 0 (successes id mails))) [
  | inl some_taken ↦
      let (m, found, is) = o.done (ltb→lt _ _ some_taken) in
      absurd (one_state (row_of id rows) found at_id is not_sent)
  | inr none_taken ↦ ground arith
]

-- Only a row that is not sent is tried, so no attempt takes a second mail.
pub Effect-IsOnce :
    (id j : ℕ) (n : Notification) (mails mails' : List (ℕ × Bool)) (rows rows' : List Notification)
    → row_of j rows ≡ some n
    → is_sent n.status ≡ false
    → Effect j mails rows mails' rows'
    → IsOnce id mails rows
    → IsOnce id mails' rows'
unfolding successes
Effect-IsOnce id j n mails mails' rows rows' at_j not_sent idle o = o
Effect-IsOnce id j n mails mails' rows rows' at_j not_sent (refused now) o = record {
  atmost = ground (arith, o.atmost);
  done = λ pos. failed_elsewhere id j now n rows at_j not_sent (o.done (ground arith));
}
Effect-IsOnce id j n mails mails' rows rows' at_j not_sent (streamed now) o = record {
  atmost = o.atmost;
  done = λ pos. sent_stays id j now rows (o.done pos);
}
Effect-IsOnce id j n mails mails' rows rows' at_j not_sent (taken now) o =
    elim (Bool-cases (j == id)) [
      | inl same ↦
          let at_id = ap (λ (k : ℕ). row_of k rows) (sym ((==_iff j id).0 same)) ∙ at_j in
          let zero_before = untouched id n mails rows at_id not_sent o in
          record {
            atmost = ground arith;
            done = λ pos. rw ((==_iff j id).0 same) (sent_now id now n rows at_id);
          }
      | inr other ↦ record {
        atmost = ground (arith, o.atmost);
        done = λ pos. sent_stays id j now rows (o.done (ground arith));
      }
    ]

-- ===== src/QuietHours/Delivery.antt =====
-- app/services/notifications.py: the three delays of `next_delivery_time`, one after another.
use wax_watch_api.Prelude.{
  ℕ, ◌+◌, ◌*◌, ◌≤◌, ◌<◌, ◌≡◌, ◌≢◌, inl, inr, Option, none, some, Bool, true, false, leb, ltb,
  Bool-cases, Option-cases, arith,
}
use wax_watch_api.Prelude.Text.{Text}
use wax_watch_api.QuietHours.{
  second, is_within_quiet_hours, delivery_frequency_seconds, frequency_defer_until, postpone, Quiet,
  quiet_end, delivery_candidate, next_delivery_time,
}
use wax_watch_api.QuietHours.Laws.{
  IsRegular, IsHour, IsProper, is_quiet, end_later, end_outside, loud_of_none,
}

-- The pause that the frequency asks for since the last delivery is over.
abbrev pub HasPaused : Text → Option ℕ → ℕ → Type 0
HasPaused frequency none t = Unit
HasPaused frequency (some last) t =
    0 < delivery_frequency_seconds frequency
    → last + delivery_frequency_seconds frequency * second ≤ t

le-postpone : (until : Option ℕ) (c : ℕ) → c ≤ postpone until c
le-postpone none c = omega arith
le-postpone (some u) c = ground arith

postpone_paused :
    (f : Text) (last : Option ℕ) (c t : ℕ)
    → postpone (frequency_defer_until f last) c ≤ t
    → HasPaused f last t
unfolding frequency_defer_until
postpone_paused f none c t h = tt
postpone_paused f (some last) c t h = λ pos. ground arith

-- A preference whose hours are hours of the day, in a zone without transitions.
pub record IsSound (q : Quiet) : Type 0 where
  pub regular : IsRegular q.zone
  pub start_hour : IsHour q.start
  pub stop_hour : IsHour q.stop

module _ (q : Quiet) (s : IsSound q) where
  postpone_loud :
      (c : ℕ) → IsProper q.start q.stop → is_quiet q (postpone (quiet_end q c) c) ≡ false
  postpone_loud c ne = elim (Option-cases (quiet_end q c)) [
    | inl loud ↦ rw loud (loud_of_none q.zone s.regular c q.start q.stop loud)
    | inr (t, e) ↦
        let after = end_later q.zone s.regular c q.start q.stop s.start_hour s.stop_hour e in
        let outside = end_outside q.zone s.regular c q.start q.stop s.start_hour s.stop_hour ne e in
        rw e (elim (Bool-cases (ltb c t)) [
          | inl later ↦ rw later outside
          | inr never ↦ absurd (ground arith)
        ])
  ]

  candidate_loud :
      (last : Option ℕ) (now : ℕ)
      → IsProper q.start q.stop
      → is_quiet q (delivery_candidate q last now) ≡ false
  unfolding delivery_candidate
  candidate_loud last now ne = postpone_loud _ ne

candidate_bounds :
    (q : Quiet) (last : Option ℕ) (now : ℕ)
    → (now ≤ delivery_candidate q last now)
      × HasPaused q.frequency last (delivery_candidate q last now)
unfolding delivery_candidate
candidate_bounds q last now =
    let first = postpone (quiet_end q now) now in
    let second' = postpone (frequency_defer_until q.frequency last) first in
    let a = le-postpone (quiet_end q now) now in
    let b = le-postpone (frequency_defer_until q.frequency last) first in
    let c = le-postpone (quiet_end q second') second' in
    (omega arith, postpone_paused q.frequency last first _ c)

module _ (q : Quiet) (s : IsSound q) (ne : IsProper q.start q.stop) (last : Option ℕ)
    (now : ℕ) where
  -- With ends of the quiet window that are hours of the day and differ, in a zone without
  -- transitions: a delivery that is put off is put off to a later time, outside the quiet hours, at
  -- which the pause of the frequency is over.
  pub deferred_to :
      {t : ℕ}
      → next_delivery_time q last now ≡ some t
      → (now < t) × (is_quiet q t ≡ false) × HasPaused q.frequency last t
  unfolding next_delivery_time
  deferred_to {t} e = elim (Bool-cases (leb (delivery_candidate q last now) now)) [
    | inl due ↦ absurd (none-ne-some (rw due at e))
    | inr later ↦
        let same = some-eq (rw later at e) in
        (
          ground arith,
          rw (← same) (candidate_loud q s last now ne),
          rw (← same) (candidate_bounds q last now).1,
        )
  ]
    where
      some-eq : {a b : ℕ} → some a ≡ some b → a ≡ b
      some-eq h = cc

      none-ne-some : {a : ℕ} → none ≡ some a → ⊥
      none-ne-some h = cc

  -- With ends of the quiet window that are hours of the day and differ, in a zone without
  -- transitions: a delivery goes out at once only outside the quiet hours, and after the pause of
  -- the frequency.
  pub immediate_allowed :
      next_delivery_time q last now ≡ none
      → (is_quiet q now ≡ false) × HasPaused q.frequency last now
  unfolding next_delivery_time
  immediate_allowed e =
      let bounds = candidate_bounds q last now in
      let same : delivery_candidate q last now ≡ now = ground arith in
      (rw same at (candidate_loud q s last now ne), rw same at (bounds.1))

always_quiet : (q : Quiet) (h c : ℕ) → q.start ≡ some h → q.stop ≡ some h → is_quiet q c ≡ true
unfolding is_within_quiet_hours
always_quiet q h c start stop = rw (start, stop) (ground arith)

all_day_later :
    (q : Quiet) (s : IsSound q) (h c : ℕ)
    → q.start ≡ some h
    → q.stop ≡ some h
    → c < postpone (quiet_end q c) c
all_day_later q s h c start stop = elim (Option-cases (quiet_end q c)) [
  | inl loud ↦ absurd (
      true-ne-false (always_quiet q h c start stop)
        (loud_of_none q.zone s.regular c q.start q.stop loud))
  | inr (t, e) ↦
      let after = end_later q.zone s.regular c q.start q.stop s.start_hour s.stop_hour e in
      rw e (ground arith)
]
  where
    true-ne-false : {b : Bool} → b ≡ true → b ≡ false → ⊥
    true-ne-false p q = cc

-- In a zone without transitions, quiet hours that begin and end at one hour of the day put every
-- delivery off, at whatever time it is tried.
pub all_day_never :
    (q : Quiet) (h : ℕ) (last : Option ℕ) (now : ℕ)
    → IsSound q
    → q.start ≡ some h
    → q.stop ≡ some h
    → next_delivery_time q last now ≢ none
unfolding next_delivery_time delivery_candidate
all_day_never q h last now s start stop e =
    let first = postpone (quiet_end q now) now in
    let second' = postpone (frequency_defer_until q.frequency last) first in
    let a = all_day_later q s h now start stop in
    let b = le-postpone (frequency_defer_until q.frequency last) first in
    let c = le-postpone (quiet_end q second') second' in ground arith

-- ===== src/QuietHours/Laws.antt =====
-- app/services/notifications.py: the quiet window, its ends and the hours in it.
use wax_watch_api.Prelude.{
  ℕ, ◌+◌, ◌-◌, ◌%◌, ◌<◌, ◌≡◌, refl, ap, ◌∙◌, sym, ◌≢◌, ◌↔◌, inl, inr, Option, none, some, Bool,
  true, false, Bool-cases, arith,
}
use wax_watch_api.QuietHours.{
  Zone, hour_of, at_hour, is_between, is_within_quiet_hours, window_end, next_quiet_window_end,
  Quiet,
}

-- What is used of a zone: a later wall clock is a later instant, which shows that wall clock.
-- It holds of every fixed offset, and of a zone away from its transitions.
pub record IsRegular (z : Zone) : Type 0 where
  pub later : (now wall : ℕ) (fold : Bool) → z.wall now < wall → now < z.utc_of wall fold
  pub shown : (now wall : ℕ) (fold : Bool) → z.wall now < wall → z.wall (z.utc_of wall fold) ≡ wall

-- The hours from `start` up to `stop`, round the clock.
abbrev pub InWindow : (h start stop : ℕ) → Type 0
InWindow h start stop = (h + 24 - start) % 24 < (stop + 24 - start) % 24

-- For hours of the day with start and stop apart, the test for quiet hours is membership in the
-- cyclic interval from start up to stop.
is_between_iff :
    (h start stop : ℕ)
    → h < 24
    → start < 24
    → stop < 24
    → start ≢ stop
    → (is_within_quiet_hours h (some start) (some stop) ≡ true) ↔ InWindow h start stop
unfolding is_within_quiet_hours
is_between_iff h start stop hh hs ht ne = ground arith

module _ (wall start stop : ℕ) (fold : Bool) (hs : start < 24) (ht : stop < 24) where
  window_end_later :
      is_between (hour_of wall) start stop ≡ true → wall < (window_end wall start stop fold).0
  unfolding window_end hour_of at_hour
  window_end_later h = ground arith

  window_end_hour : hour_of (window_end wall start stop fold).0 ≡ stop
  unfolding window_end hour_of at_hour
  window_end_hour = ground arith

stop_outside :
    (start stop : ℕ) → start ≢ stop → is_within_quiet_hours stop (some start) (some stop) ≡ false
unfolding is_within_quiet_hours
stop_outside start stop ne = ground arith

abbrev pub IsHour : Option ℕ → Type 0
IsHour none = Unit
IsHour (some h) = h < 24

-- The two ends of the window are given and differ.
abbrev pub IsProper : Option ℕ → Option ℕ → Type 0
IsProper (some start) (some stop) = start ≢ stop
IsProper (some start) none = Unit
IsProper none stop = Unit

abbrev pub is_quiet : Quiet → ℕ → Bool
is_quiet q now = is_within_quiet_hours (hour_of (q.zone.wall now)) q.start q.stop

module _ (z : Zone) (r : IsRegular z) where
  pub end_later :
      (now : ℕ) (start stop : Option ℕ) {t : ℕ}
      → IsHour start
      → IsHour stop
      → next_quiet_window_end z now start stop ≡ some t
      → now < t
  unfolding next_quiet_window_end is_within_quiet_hours
  end_later now (some start) (some stop) {t} hs ht e =
      elim (Bool-cases (is_between (hour_of (z.wall now)) start stop)) [
        | inl quiet ↦
            let fits = window_end_later (z.wall now) start stop (z.fold now) hs ht quiet in
            let later = r.later now _ (window_end (z.wall now) start stop (z.fold now)).1 fits in
            ground arith
        | inr loud ↦ ground arith
      ]
  end_later now (some start) none hs ht e = ground arith
  end_later now none stop hs ht e = ground arith

  pub end_outside :
      (now : ℕ) (start stop : Option ℕ) {t : ℕ}
      → IsHour start
      → IsHour stop
      → IsProper start stop
      → next_quiet_window_end z now start stop ≡ some t
      → is_within_quiet_hours (hour_of (z.wall t)) start stop ≡ false
  unfolding next_quiet_window_end
  end_outside now (some start) (some stop) {t} hs ht ne e =
      elim (Bool-cases (is_within_quiet_hours (hour_of (z.wall now)) (some start) (some stop))) [
        | inl quiet ↦
            let end_at = window_end (z.wall now) start stop (z.fold now) in
            let fits =
              window_end_later (z.wall now) start stop (z.fold now) hs ht
                (unfold is_within_quiet_hours in quiet) in
            let shown : hour_of (z.wall t) ≡ stop =
              ap (λ (x : ℕ). hour_of (z.wall x)) (sym (some-eq (rw quiet at e)))
              ∙ ap hour_of (r.shown now end_at.0 end_at.1 fits)
              ∙ window_end_hour (z.wall now) start stop (z.fold now) hs ht in
            rw shown (stop_outside start stop ne)
        | inr loud ↦ absurd (none-ne-some (rw loud at e))
      ]
    where
      some-eq : {a b : ℕ} → some a ≡ some b → a ≡ b
      some-eq h = cc

      none-ne-some : {a : ℕ} → none ≡ some a → ⊥
      none-ne-some h = cc
  end_outside now (some start) none hs ht ne e = unfold is_within_quiet_hours in refl
  end_outside now none stop hs ht ne e = unfold is_within_quiet_hours in refl

  pub loud_of_none :
      (now : ℕ) (start stop : Option ℕ)
      → next_quiet_window_end z now start stop ≡ none
      → is_within_quiet_hours (hour_of (z.wall now)) start stop ≡ false
  unfolding next_quiet_window_end is_within_quiet_hours
  loud_of_none now (some start) (some stop) e = ground arith
  loud_of_none now (some start) none e = refl
  loud_of_none now none stop e = refl

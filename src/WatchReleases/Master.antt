-- ===== src/WatchReleases/Master.antt =====
-- app/services/watch_releases.py: the watches on a master release and their master ids.
use wax_watch_api.Prelude.{
  ℕ, ◌==◌, ◌≡◌, refl, inl, inr, Option, none, some, Bool, true, false, List, [], ◌∷◌, All,
  All-append, or_else, get_or, Bool-cases, if◌then◌else◌,
}
use wax_watch_api.Prelude.Text.{Text, text_eq, truthy_text}
use wax_watch_api.Models.{WatchRelease, EventType}
use wax_watch_api.Environment.{Environment}
use wax_watch_api.Session.{Tables, World}
use wax_watch_api.Session.Keeps.{
  Keeps, Keeps-modify, Keeps-bind, Keeps-pure, Keeps-if, Keeps-raise, Keeps-gets, Keeps-option,
  Holds, Holds-now_utc, Holds-fresh_id,
}
use wax_watch_api.Notifications.Frame.{IgnoresDelivery}
use wax_watch_api.Events.{Subject, create_event, create_event-Holds}
use wax_watch_api.WatchReleases.{
  append_release, replace_release, write_release, lacks_master, NewRelease, ReleaseUpdate,
  get_watch_release, apply_update, is_changed, create_watch_release, report_active, report_changes,
  update_watch_release, disable_watch_release,
}

unfoldable pub HasMaster : WatchRelease → Type 0
HasMaster r = lacks_master r.match_mode r.discogs_master_id ≡ false

-- Every watch in the mode `master_release` has a master id.
pub record AllMastered (t : Tables) : Type 0 where
  pub mastered : All HasMaster t.releases

ignores : IgnoresDelivery AllMastered
ignores = record {
  preferences = λ t ps h. record { mastered = h.mastered };
  notifications = λ t ns h. record { mastered = h.mastered };
}

append_release-Holds :
    (r : WatchRelease) → HasMaster r → Keeps (Holds AllMastered) (append_release r)
unfolding append_release
append_release-Holds r new = Keeps-modify _ (λ w h. record {
  here = record { mastered = All-append HasMaster w.releases (r ∷ []) h.here.mastered (new, tt) };
  elsewhere = h.elsewhere;
})

replaced :
    (r : WatchRelease) (rs : List WatchRelease)
    → HasMaster r
    → All HasMaster rs
    → All HasMaster (replace_release r rs)
unfolding replace_release
replaced r [] new old = tt
replaced r (s ∷ rs) new (h, hs) = (
  elim (s.id == r.id) as (λ b. HasMaster (if b then r else s)) [ true ↦ new | false ↦ h ],
  replaced r rs new hs,
)

write_release-Holds : (r : WatchRelease) → HasMaster r → Keeps (Holds AllMastered) (write_release r)
unfolding write_release
write_release-Holds r new = Keeps-modify _ (λ w h. record {
  here = record { mastered = replaced r w.releases new h.here.mastered };
  elsewhere = h.elsewhere;
})

-- The guard of an update reads the mode before it is stored; an empty mode is stored all the same.
guard_enough :
    (mode : Option Text) (old : Text) (master : Option ℕ)
    → lacks_master (get_or (truthy_text mode) old) master ≡ false
    → lacks_master (get_or mode old) master ≡ false
unfolding text_eq
guard_enough none old master h = h
guard_enough (some []) old master h = refl
guard_enough (some (c ∷ s)) old master h = h

module _ (env : Environment) where
  event-Keeps :
      (user_id : ℕ) (type : EventType) (s : Subject)
      → Keeps (Holds AllMastered) (create_event env user_id type s)
  event-Keeps user_id type s =
      create_event-Holds ignores (λ t es h. record { mastered = h.mastered }) env user_id type s

  report_active-Keeps :
      (user_id : ℕ) (a : Option Bool) (id : ℕ)
      → Keeps (Holds AllMastered) (report_active env user_id a id)
  unfolding report_active
  report_active-Keeps user_id none id = Keeps-pure tt
  report_active-Keeps user_id (some true) id =
      Keeps-bind _ _ (event-Keeps user_id _ _) (λ _. Keeps-pure tt)
  report_active-Keeps user_id (some false) id =
      Keeps-bind _ _ (event-Keeps user_id _ _) (λ _. Keeps-pure tt)

  report_changes-Keeps :
      (user_id : ℕ) (v : ReleaseUpdate) (r : WatchRelease)
      → lacks_master
          (get_or (truthy_text v.match_mode) r.match_mode)
          (or_else v.discogs_master_id r.discogs_master_id)
        ≡ false
      → Keeps (Holds AllMastered) (report_changes env user_id v r)
  unfolding report_changes apply_update HasMaster
  report_changes-Keeps user_id v r guard =
      Keeps-if (is_changed env v r) _ _
        (Keeps-bind _ _ Holds-now_utc (λ now.
          Keeps-bind _ _ (write_release-Holds _ (guard_enough v.match_mode r.match_mode _ guard))
            (λ _.
              Keeps-bind _ _ (event-Keeps user_id _ _)
                (λ e. Keeps-bind _ _ (report_active-Keeps user_id _ r.id) (λ _. Keeps-pure _)))))
        (Keeps-pure r)

  create_mastered :
      (user_id : ℕ) (v : NewRelease)
      → Keeps (Holds AllMastered) (create_watch_release env user_id v)
  unfolding create_watch_release HasMaster
  create_mastered user_id v = elim (Bool-cases (lacks_master v.match_mode v.discogs_master_id)) [
    | inl lacks ↦ rw lacks (Keeps-raise _)
    | inr has ↦ rw has (
        Keeps-bind _ _ Holds-now_utc (λ now. Keeps-bind _ _ Holds-fresh_id (λ id.
          Keeps-bind _ _ (append_release-Holds _ has)
            (λ _. Keeps-bind _ _ (event-Keeps user_id _ _) (λ e. Keeps-pure _)))))
  ]

  found-Keeps : (user_id id : ℕ) → Keeps (Holds AllMastered) (get_watch_release user_id id)
  unfolding get_watch_release
  found-Keeps user_id id =
      Keeps-bind _ _ (Keeps-gets _)
        (λ found. Keeps-option found _ _ (Keeps-raise _) (λ r. Keeps-pure r))

  update_mastered :
      (user_id id : ℕ) (v : ReleaseUpdate)
      → Keeps (Holds AllMastered) (update_watch_release env user_id id v)
  unfolding update_watch_release
  update_mastered user_id id v = Keeps-bind _ _ (found-Keeps user_id id) (λ r.
      let lacks =
        lacks_master (get_or (truthy_text v.match_mode) r.match_mode)
          (or_else v.discogs_master_id r.discogs_master_id) in
      elim (Bool-cases lacks) [
        | inl lacking ↦ rw lacking (Keeps-raise _)
        | inr has ↦ rw has (report_changes-Keeps user_id v r has)
      ])

  -- On every path of a creation, an update or a disabling of a watch, errors and lost races
  -- included: if every stored watch in the mode `master_release` had a master id before, and
  -- other transactions keep it so, every one has after.
  pub masters_kept :
      (user_id id : ℕ) (new : NewRelease) (v : ReleaseUpdate) (w : World)
      → Holds AllMastered w
      → Holds AllMastered (create_watch_release env user_id new w).1
        × Holds AllMastered (update_watch_release env user_id id v w).1
        × Holds AllMastered (disable_watch_release env user_id id w).1
  unfolding disable_watch_release
  masters_kept user_id id new v w h = (
    (create_mastered user_id new).at w h,
    (update_mastered user_id id v).at w h,
    (update_mastered user_id id _).at w h,
  )

-- ===== src/WatchRules/Store/Sources.antt =====
-- app/services/watch_rules.py: the sources of the stored rules.
use wax_watch_api.Prelude.{
  ℕ, ◌==◌, ◌≡◌, refl, ap, ◌∙◌, Option, none, some, Bool, true, false, not, List, [], ◌∷◌, All,
  All-keep, All-first, arith, if◌then◌else◌,
}
use wax_watch_api.Prelude.Text.{Text}
use wax_watch_api.Prelude.Dict.{Dict}
use wax_watch_api.Json.{Json, dict_eq}
use wax_watch_api.Models.{WatchSearchRule, EventType}
use wax_watch_api.Environment.{Environment}
use wax_watch_api.Session.{Tables, World, http_exception, option_case, pure, raise}
use wax_watch_api.Session.Keeps.{
  Keeps, Keeps-modify, Keeps-bind, Keeps-pure, Keeps-if, Holds, holds_rules,
}
use wax_watch_api.Session.Ensures.{
  Ensures, Ensures-bind, Ensures-pure, Ensures-raise, Ensures-gets, Ensures-if, Ensures-fact,
  Ensures_of_keeps, Keeps_of_ensures,
}
use wax_watch_api.Notifications.Frame.{IgnoresDelivery}
use wax_watch_api.Events.{Subject, create_event, create_event-Holds}
use wax_watch_api.WatchRules.Merge.{merge, removes_sources, has_sources}
use wax_watch_api.WatchRules.Store.{
  rule_of, replace_rule, write_rule, delete_rule, RuleUpdate, Draft, set_fields, get_watch_rule,
  store_query, update_query, report_active, report_changes, update_watch_rule, disable_watch_rule,
  delete_watch_rule,
}
use wax_watch_api.WatchRules.Store.Fields.{set_fields_query, validate-Keeps}

unfoldable pub IsSourced : WatchSearchRule → Type 0
IsSourced r = has_sources r.query ≡ true

-- Every stored rule names at least one source.
pub record AllSourced (t : Tables) : Type 0 where
  pub sourced : All IsSourced t.rules

ignores : IgnoresDelivery AllSourced
ignores = record {
  preferences = λ t ps h. record { sourced = h.sourced };
  notifications = λ t ns h. record { sourced = h.sourced };
}

replace_rule-IsSourced :
    (r : WatchSearchRule) (rs : List WatchSearchRule)
    → IsSourced r
    → All IsSourced rs
    → All IsSourced (replace_rule r rs)
unfolding replace_rule
replace_rule-IsSourced r [] new old = tt
replace_rule-IsSourced r (s ∷ rs) new (h, hs) = (
  elim (s.id == r.id) as (λ b. IsSourced (if b then r else s)) [ true ↦ new | false ↦ h ],
  replace_rule-IsSourced r rs new hs,
)

write_rule-Holds : (r : WatchSearchRule) → IsSourced r → Keeps (Holds AllSourced) (write_rule r)
unfolding write_rule
write_rule-Holds r new = Keeps-modify _ (λ w h. record {
  here = record { sourced = replace_rule-IsSourced r w.rules new h.here.sourced };
  elsewhere = h.elsewhere;
})

delete_rule-Holds : (rule_id : ℕ) → Keeps (Holds AllSourced) (delete_rule rule_id)
unfolding delete_rule
delete_rule-Holds rule_id = Keeps-modify _ (λ w h. record {
  here = record { sourced = All-keep IsSourced _ w.rules h.here.sourced };
  elsewhere = h.elsewhere;
})

-- The rule that is being updated has sources.
abbrev Known : Draft → World → Type 0
Known d w = Holds AllSourced w × IsSourced d.row

abbrev SourcedIf : Option WatchSearchRule → Type 0
SourcedIf none = Unit
SourcedIf (some r) = IsSourced r

sourced_if :
    (o : Option WatchSearchRule) → ((r : WatchSearchRule) → o ≡ some r → IsSourced r) → SourcedIf o
sourced_if none h = tt
sourced_if (some r) h = h r refl

found_sourced :
    (user_id rule_id : ℕ) (rs : List WatchSearchRule)
    → All IsSourced rs
    → SourcedIf (rule_of user_id rule_id rs)
found_sourced user_id rule_id rs h = sourced_if _ (λ r found. All-first IsSourced _ rs h found)

module _ (env : Environment) where
  get_watch_rule_lem :
      (user_id rule_id : ℕ)
      → Ensures
          (Holds AllSourced)
          (get_watch_rule user_id rule_id)
          (λ r w. Holds AllSourced w × IsSourced r)
          (Holds AllSourced)
  unfolding get_watch_rule
  get_watch_rule_lem user_id rule_id =
      Ensures-bind {R = λ o w. Holds AllSourced w × SourcedIf o} _ _
        (Ensures-gets _ (λ w h. (h, found_sourced user_id rule_id w.rules h.here.sourced)))
        (λ found. answer found)
    where
      answer :
          (o : Option WatchSearchRule)
          → Ensures
              (λ w. Holds AllSourced w × SourcedIf o)
              (option_case o (raise (http_exception 404)) pure)
              (λ r w. Holds AllSourced w × IsSourced r)
              (Holds AllSourced)
      answer none = Ensures-raise _ (λ w h. h.0)
      answer (some r) = Ensures-pure r (λ w h. h)

  get_rule-Keeps : (user_id rule_id : ℕ) → Keeps (Holds AllSourced) (get_watch_rule user_id rule_id)
  get_rule-Keeps user_id rule_id =
      Keeps_of_ensures (λ _ w h. h.0) (get_watch_rule_lem user_id rule_id)

  event-Keeps :
      (user_id : ℕ) (type : EventType) (s : Subject)
      → Keeps (Holds AllSourced) (create_event env user_id type s)
  event-Keeps user_id type s =
      create_event-Holds ignores (λ t es h. record { sourced = h.sourced }) env user_id type s

  store_query_lem :
      (existing : Dict Text Json) (d : Draft)
      → has_sources existing ≡ true
      → IsSourced d.row
      → Ensures (Holds AllSourced) (store_query existing d) Known (Holds AllSourced)
  unfolding store_query IsSourced
  store_query_lem existing d new old =
      Ensures-if (dict_eq existing d.row.query) _ _ (λ _. Ensures-pure d (λ w h. (h, old)))
        (λ _.
          Ensures-bind _ _ (Ensures_of_keeps (write_rule-Holds _ new))
            (λ _. Ensures-pure _ (λ w h. (h, new))))

  update_query_lem :
      (query : Option (Dict Text Json)) (d : Draft)
      → IsSourced d.row
      → Ensures (Holds AllSourced) (update_query env query d) Known (Holds AllSourced)
  unfolding update_query
  update_query_lem none d old = Ensures-pure d (λ w h. (h, old))
  update_query_lem (some query) d old =
      Ensures-if (removes_sources query) _ _ (λ _. Ensures-raise _ (λ w h. h))
        (λ _.
          Ensures-if (not (has_sources (merge d.row.query query))) _ _
            (λ _. Ensures-raise _ (λ w h. h))
            (λ has.
              Ensures-bind _ _ (Ensures_of_keeps (validate-Keeps env _))
                (λ _. store_query_lem (merge d.row.query query) d (ground arith) old)))

  report_active-Keeps :
      (user_id : ℕ) (a : Option Bool) (r : WatchSearchRule)
      → Keeps (Holds AllSourced) (report_active env user_id a r)
  unfolding report_active
  report_active-Keeps user_id none r = Keeps-pure tt
  report_active-Keeps user_id (some true) r =
      Keeps-bind _ _ (event-Keeps user_id _ _) (λ _. Keeps-pure tt)
  report_active-Keeps user_id (some false) r =
      Keeps-bind _ _ (event-Keeps user_id _ _) (λ _. Keeps-pure tt)

  report_changes-Keeps :
      (user_id : ℕ) (a : Option Bool) (d : Draft)
      → IsSourced d.row
      → Keeps (Holds AllSourced) (report_changes env user_id a d)
  unfolding report_changes IsSourced
  report_changes-Keeps user_id a d new =
      Keeps-if d.changed _ _
        (search (holds_rules, write_rule-Holds, event-Keeps, report_active-Keeps) depth 10)
        (Keeps-pure d.row)

  update_rule_lem :
      (user_id rule_id : ℕ) (u : RuleUpdate)
      → Ensures
          (Holds AllSourced)
          (update_watch_rule env user_id rule_id u)
          (λ _. Holds AllSourced)
          (Holds AllSourced)
  unfolding update_watch_rule IsSourced
  update_rule_lem user_id rule_id u = Ensures-bind _ _ (get_watch_rule_lem user_id rule_id) (λ r.
      Ensures-fact (λ is.
        let new = ap has_sources (set_fields_query u r) ∙ is in
        Ensures-bind _ _ (Ensures_of_keeps (write_rule-Holds _ new)) (λ _.
          Ensures-bind _ _ (update_query_lem u.query (set_fields u r) new) (λ d.
            Ensures-fact (λ known. Ensures_of_keeps (report_changes-Keeps user_id _ d known))))))

  deletes : (user_id rule_id : ℕ) → Keeps (Holds AllSourced) (delete_watch_rule env user_id rule_id)
  unfolding delete_watch_rule
  deletes user_id rule_id =
      search (holds_rules, get_rule-Keeps, event-Keeps, delete_rule-Holds) depth 10

  -- On every path of an update, a disabling or a deletion, errors and lost races included: if
  -- every stored rule had a source before, and other transactions keep it so, every stored rule
  -- has one after.
  pub rules_keep_sources :
      (user_id rule_id : ℕ) (u : RuleUpdate) (w : World)
      → Holds AllSourced w
      → Holds AllSourced (update_watch_rule env user_id rule_id u w).1
        × Holds AllSourced (disable_watch_rule env user_id rule_id w).1
        × Holds AllSourced (delete_watch_rule env user_id rule_id w).1
  unfolding disable_watch_rule
  rules_keep_sources user_id rule_id u w h = (
    (Keeps_of_ensures (λ _ w h. h) (update_rule_lem user_id rule_id u)).at w h,
    (Keeps_of_ensures (λ _ w h. h) (update_rule_lem user_id rule_id _)).at w h,
    (deletes user_id rule_id).at w h,
  )

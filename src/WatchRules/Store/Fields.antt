-- ===== src/WatchRules/Store/Fields.antt =====
-- app/services/watch_rules.py: what the setters and the checks of an update leave alone.
use wax_watch_api.Prelude.{ℕ, ◌≡◌, refl, ◌∙◌, Option, none, some, Bool, List, arith}
use wax_watch_api.Prelude.Text.{Text, codes}
use wax_watch_api.Prelude.Dict.{Dict}
use wax_watch_api.Json.{Json, is_null, as_list, as_number}
use wax_watch_api.Models.{WatchSearchRule}
use wax_watch_api.Environment.{Environment}
use wax_watch_api.Session.{World}
use wax_watch_api.Session.Keeps.{Keeps, Keeps-bind, Keeps-pure, Keeps-if, Keeps-raise, Keeps-option}
use wax_watch_api.WatchRules.Validate.{
  look, validate_keyword_list, validate_max_price, validate_rule_keywords,
  validate_rule_query_defensive,
}
use wax_watch_api.WatchRules.Store.{
  set_name, set_poll_interval, set_active, RuleUpdate, Draft, set_fields,
}

set_name_query : (o : Option Text) (d : Draft) → (set_name o d).row.query ≡ d.row.query
set_name_query none d = refl
set_name_query (some x) d = ground arith

set_poll_query : (o : Option ℕ) (d : Draft) → (set_poll_interval o d).row.query ≡ d.row.query
set_poll_query none d = refl
set_poll_query (some x) d = ground arith

set_active_query : (o : Option Bool) (d : Draft) → (set_active o d).row.query ≡ d.row.query
set_active_query none d = refl
set_active_query (some x) d = ground arith

pub set_fields_query : (u : RuleUpdate) (r : WatchSearchRule) → (set_fields u r).row.query ≡ r.query
unfolding set_fields
set_fields_query u r =
    set_active_query u.is_active _
    ∙ set_poll_query u.poll_interval_seconds _
    ∙ set_name_query u.name _

keyword_list-Keeps :
    {P : World → Type 0} (env : Environment) (o : Option (List Json))
    → Keeps P (validate_keyword_list env.unicode o)
keyword_list-Keeps env none = Keeps-raise _
keyword_list-Keeps env (some ks) = Keeps-if _ _ _ (Keeps-raise _) (Keeps-pure tt)

max_price-Keeps : {P : World → Type 0} (v : Json) → Keeps P (validate_max_price v)
max_price-Keeps v = Keeps-if _ _ _ (Keeps-pure tt) (
    Keeps-if _ _ _ (Keeps-raise _) (
      Keeps-option (as_number v) _ _ (Keeps-raise _)
        (λ n. Keeps-if _ _ _ (Keeps-raise _) (Keeps-pure tt))))

pub validate-Keeps :
    {P : World → Type 0} (env : Environment) (q : Dict Text Json)
    → Keeps P (validate_rule_query_defensive env.unicode q)
unfolding validate_rule_query_defensive validate_rule_keywords
validate-Keeps env q =
    Keeps-bind _ _
      (Keeps-if (is_null (look (codes "keywords") q)) _ _ (Keeps-pure tt)
        (keyword_list-Keeps env (as_list (look (codes "keywords") q))))
      (λ _. max_price-Keeps (look (codes "max_price") q))

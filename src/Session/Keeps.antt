-- ===== src/Session/Keeps.antt =====
-- Invariants of actions, with a rule for each way to build an action. A rule set proves the
-- invariant of a `do` block from the invariants of its steps.
use wax_watch_api.Prelude.{Option, none, some, Bool, true, false, List, [], ◌∷◌, All, if◌then◌else◌}
use wax_watch_api.Session.{
  Tables, World, Error, Outcome, ok, raised, Action, pure, raise, gets, modify, continue,
  option_case, lift, on_integrity_error, catch_integrity_error, integrity_error, http_exception,
  ◌>>=◌, now_utc, fresh_id, overtaken, take_over,
}

-- `m` keeps `P`, whether it returns or raises.
pub record Keeps {A : Type 0} (P : World → Type 0) (m : Action A) : Type 0 where
  pub at : (w : World) → P w → P (m w).1

module _ {A : Type 0} {P : World → Type 0} where
  pub Keeps-pure : (a : A) → Keeps P (pure a)
  unfolding pure
  Keeps-pure a = record { at = λ w h. h }

  pub Keeps-raise : (e : Error) → Keeps P (raise {A = A} e)
  unfolding raise
  Keeps-raise e = record { at = λ w h. h }

  pub Keeps-gets : (f : World → A) → Keeps P (gets f)
  unfolding gets
  Keeps-gets f = record { at = λ w h. h }

  pub Keeps-lift : (out : Outcome A) → Keeps P (lift out)
  Keeps-lift (ok a) = record { at = λ w h. h }
  Keeps-lift (raised e) = record { at = λ w h. h }

  pub Keeps-if : (b : Bool) (m n : Action A) → Keeps P m → Keeps P n → Keeps P (if b then m else n)
  Keeps-if true m n km kn = km
  Keeps-if false m n km kn = kn

pub Keeps-modify :
    {P : World → Type 0} (f : World → World) → ((w : World) → P w → P (f w)) → Keeps P (modify f)
unfolding modify
Keeps-modify f h = record { at = h }

module _ {A B : Type 0} {P : World → Type 0} where
  continue-kept :
      (r : Outcome A) (f : A → Action B) (w : World)
      → ((a : A) → Keeps P (f a))
      → P w
      → P (continue r f w).1
  continue-kept (ok a) f w k h = (k a).at w h
  continue-kept (raised e) f w k h = h

  pub Keeps-bind :
      (m : Action A) (f : A → Action B) → Keeps P m → ((a : A) → Keeps P (f a)) → Keeps P (m >>= f)
  unfolding ◌>>=◌
  Keeps-bind m f km kf = record {
    at = λ w h. let (r, w') = m w in continue-kept r f w' kf (km.at w h);
  }

  pub Keeps-option :
      (o : Option A) (m : Action B) (f : A → Action B)
      → Keeps P m
      → ((a : A) → Keeps P (f a))
      → Keeps P (option_case o m f)
  Keeps-option none m f km kf = km
  Keeps-option (some a) m f km kf = kf a

module _ {A : Type 0} {P : World → Type 0} where
  handled_kept :
      (handler : Action A) (out : Outcome A × World)
      → Keeps P handler
      → P out.1
      → P (on_integrity_error handler out).1
  handled_kept handler (ok a, w) k h = h
  handled_kept handler (raised integrity_error, w) k h = k.at w h
  handled_kept handler (raised (http_exception _), w) k h = h
  handled_kept handler (raised e, w) k h = h

  pub Keeps-catch :
      (m handler : Action A)
      → Keeps P m
      → Keeps P handler
      → Keeps P (catch_integrity_error m handler)
  unfolding catch_integrity_error
  Keeps-catch m handler km kh = record { at = λ w h. handled_kept handler (m w) kh (km.at w h) }

pub ruleset keeps_rules = (
  Keeps-pure, Keeps-raise, Keeps-gets, Keeps-lift, Keeps-if, Keeps-bind, Keeps-option, Keeps-catch,
)

-- An invariant of the tables, which other transactions keep too.
pub record Holds (I : Tables → Type 0) (w : World) : Type 0 where
  pub here : I w.db
  pub elsewhere : All (λ step. (t : Tables) → I t → I (step t)) w.others

module _ {I : Tables → Type 0} where
  pub Holds-now_utc : Keeps (Holds I) now_utc
  unfolding now_utc
  Holds-now_utc = record { at = λ w h. record { here = h.here; elsewhere = h.elsewhere } }

  pub Holds-fresh_id : Keeps (Holds I) fresh_id
  unfolding fresh_id
  Holds-fresh_id = record { at = λ w h. record { here = h.here; elsewhere = h.elsewhere } }

  overtaken_by :
      (w : World) (steps : List (Tables → Tables))
      → Holds I w
      → All (λ step. (t : Tables) → I t → I (step t)) steps
      → Holds I (take_over steps w)
  overtaken_by w [] h k = h
  overtaken_by w (step ∷ rest) h (k, ks) = record { here = k w.db h.here; elsewhere = ks }

  pub Holds-overtaken : Keeps (Holds I) overtaken
  unfolding overtaken
  Holds-overtaken = record { at = λ w h. overtaken_by w w.others h h.elsewhere }

pub ruleset holds_rules = (keeps_rules, Holds-now_utc, Holds-fresh_id, Holds-overtaken)

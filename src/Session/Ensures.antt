-- ===== src/Session/Ensures.antt =====
-- What an action establishes when it returns (`Q`, of its result) and when it raises (`E`).
use wax_watch_api.Prelude.{Option, none, some, Bool, true, false, ◌≡◌, refl, if◌then◌else◌}
use wax_watch_api.Session.{
  World, Error, Outcome, ok, raised, Action, pure, raise, gets, modify, option_case, lift, continue,
  ◌>>=◌,
}
use wax_watch_api.Session.Keeps.{Keeps}

abbrev pub Post :
    {A : Type 0} → (A → World → Type 0) → (World → Type 0) → Outcome A × World → Type 0
Post Q E (ok a, w) = Q a w
Post Q E (raised e, w) = E w

pub record Ensures {A : Type 0} (P : World → Type 0) (m : Action A) (Q : A → World → Type 0)
    (E : World → Type 0) : Type 0 where
  pub at : (w : World) → P w → Post Q E (m w)

module _ {A B : Type 0} {E : World → Type 0} {R : A → World → Type 0} {Q : B → World → Type 0} where
  continue_ensures :
      (out : Outcome A × World) (f : A → Action B)
      → ((a : A) → Ensures (R a) (f a) Q E)
      → Post R E out
      → Post Q E (continue out.0 f out.1)
  continue_ensures (ok a, w) f k h = (k a).at w h
  continue_ensures (raised e, w) f k h = h

module _ {A B : Type 0} {P E : World → Type 0} {R : A → World → Type 0}
    {Q : B → World → Type 0} where
  pub Ensures-bind :
      (m : Action A) (f : A → Action B)
      → Ensures P m R E
      → ((a : A) → Ensures (R a) (f a) Q E)
      → Ensures P (m >>= f) Q E
  unfolding ◌>>=◌
  Ensures-bind m f km kf = record { at = λ w h. continue_ensures (m w) f kf (km.at w h) }

module _ {A : Type 0} {P E : World → Type 0} {Q : A → World → Type 0} where
  pub Ensures-pure : (a : A) → ((w : World) → P w → Q a w) → Ensures P (pure a) Q E
  unfolding pure
  Ensures-pure a h = record { at = h }

  pub Ensures-raise : (e : Error) → ((w : World) → P w → E w) → Ensures P (raise e) Q E
  unfolding raise
  Ensures-raise e h = record { at = h }

  pub Ensures-lift :
      (out : Outcome A)
      → ((a : A) → out ≡ ok a → (w : World) → P w → Q a w)
      → ((w : World) → P w → E w)
      → Ensures P (lift out) Q E
  Ensures-lift (ok a) h k = record { at = h a refl }
  Ensures-lift (raised e) h k = record { at = k }

  pub Ensures-gets : (f : World → A) → ((w : World) → P w → Q (f w) w) → Ensures P (gets f) Q E
  unfolding gets
  Ensures-gets f h = record { at = h }

  pub Ensures-if :
      (b : Bool) (m n : Action A)
      → (b ≡ true → Ensures P m Q E)
      → (b ≡ false → Ensures P n Q E)
      → Ensures P (if b then m else n) Q E
  Ensures-if true m n km kn = km refl
  Ensures-if false m n km kn = kn refl

module _ {A : Type 0} (P : World → Type 0) where
  Post-of_kept : (out : Outcome A × World) → P out.1 → Post (λ _. P) P out
  Post-of_kept (ok a, w) h = h
  Post-of_kept (raised e, w) h = h

module _ {A : Type 0} {P : World → Type 0} where
  pub Ensures_of_keeps : {m : Action A} → Keeps P m → Ensures P m (λ _. P) P
  Ensures_of_keeps {m} k = record { at = λ w h. Post-of_kept P (m w) (k.at w h) }

module _ {A : Type 0} {P E : World → Type 0} {m : Action A} where
  pub Ensures_kept : Keeps P m → ((w : World) → P w → E w) → Ensures P m (λ _. P) E
  Ensures_kept k weaken = record { at = λ w h. weakened (m w) (k.at w h) }
    where
      weakened : (out : Outcome A × World) → P out.1 → Post (λ _. P) E out
      weakened (ok a, v) h = h
      weakened (raised e, v) h = weaken v h

module _ {A B : Type 0} {P E : World → Type 0} {Q : B → World → Type 0} where
  pub Ensures-option :
      (o : Option A) (m : Action B) (f : A → Action B)
      → Ensures P m Q E
      → ((a : A) → Ensures P (f a) Q E)
      → Ensures P (option_case o m f) Q E
  Ensures-option none m f km kf = km
  Ensures-option (some a) m f km kf = kf a

pub Ensures-modify :
    {P E : World → Type 0} {Q : Unit {0} → World → Type 0} (f : World → World)
    → ((w : World) → P w → Q tt (f w))
    → Ensures P (modify f) Q E
unfolding modify
Ensures-modify f h = record { at = h }

-- A fact that the precondition carries.
module _ {A : Type 0} {P E : World → Type 0} {Q : A → World → Type 0} {F : Type 0}
    {m : Action A} where
  pub Ensures-fact : (F → Ensures P m Q E) → Ensures (λ w. P w × F) m Q E
  Ensures-fact k = record { at = λ w h. (k h.1).at w h.0 }

-- What both endings keep.
module _ {A : Type 0} {P : World → Type 0} {Q : A → World → Type 0} {m : Action A} where
  pub Keeps_of_ensures : ((a : A) (w : World) → Q a w → P w) → Ensures P m Q P → Keeps P m
  Keeps_of_ensures weaken k = record { at = λ w h. kept (m w) (k.at w h) }
    where
      kept : (out : Outcome A × World) → Post Q P out → P out.1
      kept (ok a, v) h = weaken a v h
      kept (raised e, v) h = h

module _ {A : Type 0} {P E F : World → Type 0} {Q R : A → World → Type 0} {m : Action A} where
  pub Ensures_weaken :
      ((a : A) (w : World) → Q a w → R a w)
      → ((w : World) → E w → F w)
      → Ensures P m Q E
      → Ensures P m R F
  Ensures_weaken result error k = record { at = λ w h. weakened (m w) (k.at w h) }
    where
      weakened : (out : Outcome A × World) → Post Q E out → Post R F out
      weakened (ok a, v) h = result a v h
      weakened (raised e, v) h = error v h

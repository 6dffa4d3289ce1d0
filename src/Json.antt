-- ===== src/Json.antt =====
-- The JSON values that the JSONB columns hold, and the Python operations on them that the program
-- uses. A number is a whole count of ten-thousandths; `True` and `False` are numbers too, as in
-- Python.
use wax_watch_api.Prelude.{
  ℕ, Option, none, some, Bool, true, false, not, ◌&&◌, List, [], ◌∷◌, length, ◌==◌, if◌then◌else◌,
}
use wax_watch_api.Prelude.Int.{ℤ, pos, pos_part, neg_part}
use wax_watch_api.Prelude.Text.{Text, text_eq, text_key, nonempty}
use wax_watch_api.Prelude.Dict.{Dict}

mutual
  pub data Json : Type 0 where
    null : Json
    boolean : Bool → Json
    number : ℤ → Json
    text : Text → Json
    arr : Items → Json
    obj : Fields → Json

  pub data Items : Type 0 where
    nil : Items
    cons : Json → Items → Items

  pub data Fields : Type 0 where
    end : Fields
    field : Text → Json → Fields → Fields

abbrev pub items : Items → List Json
items nil = []
items (cons v vs) = v ∷ items vs

abbrev pub to_items : List Json → Items
to_items [] = nil
to_items (v ∷ vs) = cons v (to_items vs)

abbrev pub fields : Fields → Dict Text Json
fields end = []
fields (field k v fs) = (k, v) ∷ fields fs

abbrev pub to_fields : Dict Text Json → Fields
to_fields [] = end
to_fields ((k, v) ∷ fs) = field k v (to_fields fs)

-- One, as a number.
abbrev pub unit : ℕ
unit = 10000

-- `isinstance(v, int | float)`, with the number
abbrev pub as_number : Json → Option ℤ
as_number (number n) = some n
as_number (boolean true) = some (pos unit)
as_number (boolean false) = some (pos 0)
as_number _ = none

-- `isinstance(v, list)`
abbrev pub as_list : Json → Option (List Json)
as_list (arr vs) = some (items vs)
as_list _ = none

-- `isinstance(v, str)`
abbrev pub as_text : Json → Option Text
as_text (text s) = some s
as_text _ = none

abbrev pub is_bool : Json → Bool
is_bool (boolean b) = true
is_bool _ = false

abbrev pub is_null : Json → Bool
is_null null = true
is_null _ = false

abbrev is_empty_list {ℓ} : {A : Type ℓ} → List A → Bool
is_empty_list [] = true
is_empty_list (x ∷ xs) = false

-- `bool(v)`
unfoldable pub truthy : Json → Bool
truthy null = false
truthy (boolean b) = b
truthy (number n) = not (pos_part n == 0 && neg_part n == 0)
truthy (text s) = nonempty s
truthy (arr nil) = false
truthy (arr (cons v vs)) = true
truthy (obj end) = false
truthy (obj (field k v fs)) = true

abbrev number_eq : ℤ → ℤ → Bool
number_eq m n = pos_part m == pos_part n && neg_part m == neg_part n

abbrev some_number_eq : Option ℤ → Option ℤ → Bool
some_number_eq (some m) (some n) = number_eq m n
some_number_eq _ _ = false

abbrev field_of : Text → Fields → Option Json
field_of k end = none
field_of k (field j v fs) = if text_eq j k then some v else field_of k fs

abbrev if_some : Option Json → (Json → Bool) → Bool
if_some none p = false
if_some (some v) p = p v

-- `v == w`: numbers by value, lists in order, dictionaries as sets of entries.
unfoldable mutual
  pub json_eq : Json → Json → Bool
  json_eq null w = is_null w
  json_eq (boolean b) w = some_number_eq (as_number (boolean b)) (as_number w)
  json_eq (number n) w = some_number_eq (some n) (as_number w)
  json_eq (text s) (text t) = text_eq s t
  json_eq (text s) _ = false
  json_eq (arr vs) (arr ws) = items_eq vs (items ws)
  json_eq (arr vs) _ = false
  json_eq (obj fs) (obj gs) = length (fields fs) == length (fields gs) && fields_in fs gs
  json_eq (obj fs) _ = false

  pub items_eq : Items → List Json → Bool
  items_eq nil [] = true
  items_eq nil (w ∷ ws) = false
  items_eq (cons v vs) [] = false
  items_eq (cons v vs) (w ∷ ws) = json_eq v w && items_eq vs ws

  pub fields_in : Fields → Fields → Bool
  fields_in end gs = true
  fields_in (field k v fs) gs = if_some (field_of k gs) (json_eq v) && fields_in fs gs

-- `a == b` for two dictionaries
unfoldable pub dict_eq : Dict Text Json → Dict Text Json → Bool
unfolding json_eq
dict_eq a b = json_eq (obj (to_fields a)) (obj (to_fields b))

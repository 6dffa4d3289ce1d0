-- ===== src/Prelude/Text.antt =====
-- Python's `str` as its code points, with the string methods that the program calls.
-- What depends on the Unicode tables (case, `isalnum`, whitespace) is a parameter.
pub mod Words
use Prim.Native.Char.{code}
use Prim.Native.Nat.{ℕ, ◌+◌, ◌-◌}
use Prim.Native.String.{String}
use mathlib.Core.Path.{◌≡◌, refl}
use mathlib.Core.Logic.{◌↔◌}
use mathlib.Core.Bool.{Bool, true, false, not, ◌&&◌, ◌||◌}
use mathlib.Core.Option.{Option, none, some}
use mathlib.Core.List.{List, [], ◌∷◌, ◌++◌, reverse}
use native.Mathlib.Omega.{arith}
use wax_watch_api.Prelude.Tests.{◌==◌, leb, if◌then◌else◌}
use wax_watch_api.Prelude.Dict.{Key}

abbrev pub Text : Type 0
Text = List ℕ

abbrev pub codes : String → Text
codes String.[] = []
codes (String.◌∷◌ c s) = code c ∷ codes s

unfoldable pub text_eq : Text → Text → Bool
text_eq [] [] = true
text_eq (a ∷ s) (b ∷ t) = a == b && text_eq s t
text_eq [] (b ∷ t) = false
text_eq (a ∷ s) [] = false

pub text_eq_iff : (s t : Text) → (text_eq s t ≡ true) ↔ (s ≡ t)
unfolding text_eq
text_eq_iff [] [] = ground arith
text_eq_iff [] (b ∷ t) = ground arith
text_eq_iff (a ∷ s) [] = ground arith
text_eq_iff (a ∷ s) (b ∷ t) = ground (arith, text_eq_iff s t)

instance abbrev pub text_key : Key Text
text_key = record { beq = text_eq; beq_iff = text_eq_iff }

-- The tables of the Unicode database that Python's methods read.
pub record Unicode : Type 0 where
  pub lower_char : ℕ → Text
  pub lower : Text → Text
  pub upper : Text → Text
  pub casefold : Text → Text
  pub is_alnum : ℕ → Bool
  pub is_space : ℕ → Bool

-- `s in t`
unfoldable pub starts_with : Text → Text → Bool
starts_with [] t = true
starts_with (a ∷ s) [] = false
starts_with (a ∷ s) (b ∷ t) = a == b && starts_with s t

unfoldable pub is_in : Text → Text → Bool
unfolding starts_with
is_in s [] = starts_with s []
is_in s (c ∷ t) = starts_with s (c ∷ t) || is_in s t

abbrev pub nonempty : Text → Bool
nonempty [] = false
nonempty (c ∷ s) = true

-- The text where Python's `value or ...` takes it: there, and not empty.
abbrev pub truthy_text : Option Text → Option Text
truthy_text none = none
truthy_text (some []) = none
truthy_text (some (c ∷ s)) = some (c ∷ s)

-- The text before the first separator: `s.split(sep, maxsplit=1)[0]`.
unfoldable pub before : ℕ → Text → Text
before sep [] = []
before sep (c ∷ s) = if c == sep then [] else c ∷ before sep s

module _ (u : Unicode) where
  unfoldable pub lstrip : Text → Text
  lstrip [] = []
  lstrip (c ∷ s) = if u.is_space c then lstrip s else c ∷ s

  -- `s.strip()`
  unfoldable pub strip : Text → Text
  unfolding lstrip
  strip s = reverse (lstrip (reverse (lstrip s)))

-- The tables over ASCII alone, with which the examples compute.
abbrev pub ascii_lower : ℕ → ℕ
ascii_lower c = if leb b'A' c && leb c b'Z' then c + 32 else c

abbrev pub ascii_upper : ℕ → ℕ
ascii_upper c = if leb b'a' c && leb c b'z' then c - 32 else c

abbrev pub each : (ℕ → ℕ) → Text → Text
each f [] = []
each f (c ∷ s) = f c ∷ each f s

abbrev pub ascii : Unicode
ascii = record {
  lower_char = λ c. ascii_lower c ∷ [];
  lower = each ascii_lower;
  upper = each ascii_upper;
  casefold = each ascii_lower;
  is_alnum =
      λ c. (leb b'0' c && leb c b'9') || (leb b'a' (ascii_lower c) && leb (ascii_lower c) b'z');
  is_space = λ c. c == 32 || (leb 9 c && leb c 13);
}

-- ===== src/Prelude/Text.antt =====
-- Text: equality, and the white space that `str::trim` removes.
use Prim.Native.Nat.{ℕ}
use Prim.Native.Char.{code}
use Prim.Native.String.{String}
use mathlib.Core.Logic.{inl, inr}
use mathlib.Core.Option.{Option, none, some}
use mathlib.Core.Bool.{not, false, Bool, true, ◌&&◌, ◌||◌}
use text.Mathlib.Text.{◌==◌ as text_eq}
use text.Mathlib.TextEquality.{eq_iff}
use sinan.Prelude.Tests.{leb, ◌==◌, Bool-cases}

abbrev pub str_eq : String → String → Bool
str_eq s t = text_eq s t

-- `!=` on strings and `==` on optional ones.
abbrev pub str_ne : String → String → Bool
str_ne s t = not (str_eq s t)

abbrev pub opt_str_eq : Option String → Option String → Bool
opt_str_eq none none = true
opt_str_eq (some s) (some t) = str_eq s t
opt_str_eq none (some t) = false
opt_str_eq (some s) none = false

abbrev pub opt_str_ne : Option String → Option String → Bool
opt_str_ne s t = not (opt_str_eq s t)

unfoldable pub String-discrete : Discrete String
String-discrete s t = elim (Bool-cases (text_eq s t)) [
  | inl e ↦ yes ((eq_iff s t).0 e)
  | inr e ↦ no (λ p. cc ((eq_iff s t).1 p))
]

-- The code points with the Unicode property White_Space.
unfoldable pub is_whitespace : ℕ → Bool
is_whitespace c =
    (leb 9 c && leb c 13)
    || c == 32
    || c == 133
    || c == 160
    || c == 5760
    || (leb 8192 c && leb c 8202)
    || c == 8232
    || c == 8233
    || c == 8239
    || c == 8287
    || c == 12288

-- `s.trim().is_empty()`: every character is white space.
unfoldable pub is_blank : String → Bool
unfolding is_whitespace
is_blank String.[] = true
is_blank (String.◌∷◌ c s) = is_whitespace (code c) && is_blank s

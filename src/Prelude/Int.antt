-- ===== src/Prelude/Int.antt =====
-- `i64` and `u64`: signed integers over the native numbers, compared through their two parts,
-- with the checked and the wrapping operations that the sources use.
use Prim.Native.Nat.{ℕ, suc, ◌+◌, ◌-◌, ◌*◌, ◌%◌, ◌≤◌, ◌<◌}
use mathlib.Core.Path.{◌≡◌, refl}
use mathlib.Core.Logic.{◌⊎◌, inl, inr}
use mathlib.Core.Bool.{Bool, true, false, ◌||◌}
use mathlib.Core.Option.{Option, none, some}
use native.Mathlib.Omega.{arith}
use native.Mathlib.Decide.{ℕ_discrete}
use sinan.Prelude.Tests.{ltb, leb, ◌==◌, if◌then◌else◌}

-- `negsuc n` is -(n + 1).
pub data ℤ : Type 0 where
  pos : ℕ → ℤ
  negsuc : ℕ → ℤ

unfoldable pub ℤ-discrete : Discrete ℤ
ℤ-discrete = hlevel ℕ_discrete

-- An integer is the difference of its two parts, one of which is 0.
unfoldable pub pos_part : ℤ → ℕ
pos_part (pos n) = n
pos_part (negsuc n) = 0

unfoldable pub neg_part : ℤ → ℕ
neg_part (pos n) = 0
neg_part (negsuc n) = suc n

-- The parts of a numeral and the sign of the parts, for `omega` and `ground`.
pub pos_part-pos : (n : ℕ) → pos_part (pos n) ≡ n
unfolding pos_part
pos_part-pos n = refl

pub neg_part-pos : (n : ℕ) → neg_part (pos n) ≡ 0
unfolding neg_part
neg_part-pos n = refl

pub one_part : (a : ℤ) → (pos_part a ≡ 0) ⊎ (neg_part a ≡ 0)
unfolding pos_part neg_part
one_part (pos n) = inr refl
one_part (negsuc n) = inl refl

pub eq_of_parts : (a b : ℤ) → pos_part a + neg_part b ≡ pos_part b + neg_part a → a ≡ b
unfolding pos_part neg_part
eq_of_parts a b h = ground arith

abbrev pub ltb_ℤ : ℤ → ℤ → Bool
ltb_ℤ a b = ltb (pos_part a + neg_part b) (pos_part b + neg_part a)

abbrev pub leb_ℤ : ℤ → ℤ → Bool
leb_ℤ a b = leb (pos_part a + neg_part b) (pos_part b + neg_part a)

abbrev pub eqb_ℤ : ℤ → ℤ → Bool
eqb_ℤ a b = pos_part a + neg_part b == pos_part b + neg_part a

infix 50 ◌≤ℤ◌
abbrev pub ◌≤ℤ◌ : ℤ → ℤ → Type 0
a ≤ℤ b = pos_part a + neg_part b ≤ pos_part b + neg_part a

infix 50 ◌<ℤ◌
abbrev pub ◌<ℤ◌ : ℤ → ℤ → Type 0
a <ℤ b = pos_part a + neg_part b < pos_part b + neg_part a

-- `t < 0`.
abbrev pub is_negative : ℤ → Bool
is_negative t = ltb 0 (neg_part t)

abbrev pub max_ℤ : ℤ → ℤ → ℤ
max_ℤ a b = if ltb_ℤ b a then a else b

-- a - b, as an integer.
unfoldable pub sub_ℕ : ℕ → ℕ → ℤ
sub_ℕ a b = if leb b a then pos (a - b) else negsuc (b - a - 1)

unfoldable pub ◌+ℤ◌ : ℤ → ℤ → ℤ
unfolding sub_ℕ pos_part neg_part
◌+ℤ◌ a b = sub_ℕ (pos_part a + pos_part b) (neg_part a + neg_part b)

unfoldable pub ◌-ℤ◌ : ℤ → ℤ → ℤ
unfolding sub_ℕ pos_part neg_part
◌-ℤ◌ a b = sub_ℕ (pos_part a + neg_part b) (neg_part a + pos_part b)

infixl 65 ◌+ℤ◌ ◌-ℤ◌
pub +ℤ_parts :
    (a b : ℤ)
    → pos_part (a +ℤ b) + neg_part a + neg_part b ≡ neg_part (a +ℤ b) + pos_part a + pos_part b
unfolding ◌+ℤ◌
+ℤ_parts a b = ground arith

pub -ℤ_parts :
    (a b : ℤ)
    → pos_part (a -ℤ b) + neg_part a + pos_part b ≡ neg_part (a -ℤ b) + pos_part a + neg_part b
unfolding ◌-ℤ◌
-ℤ_parts a b = ground arith

abbrev pub i64_max : ℕ
i64_max = 9223372036854775807

abbrev pub u64_max : ℕ
u64_max = 18446744073709551615

abbrev pub u32_max : ℕ
u32_max = 4294967295

-- Whether an integer is an `i64`.
abbrev pub in_i64 : ℤ → Bool
in_i64 a = elim (ltb i64_max (pos_part a) || ltb (i64_max + 1) (neg_part a)) [
  | true ↦ false
  | false ↦ true
]

-- `i64::checked_add` and `i64::checked_sub`.
unfoldable pub checked_add : ℤ → ℤ → Option ℤ
unfolding ◌+ℤ◌
checked_add a b = if in_i64 (a +ℤ b) then some (a +ℤ b) else none

unfoldable pub checked_sub : ℤ → ℤ → Option ℤ
unfolding ◌-ℤ◌
checked_sub a b = if in_i64 (a -ℤ b) then some (a -ℤ b) else none

-- The two's complement reading of a 64-bit pattern.
unfoldable pub of_bits : ℕ → ℤ
of_bits n = if leb n i64_max then pos n else negsuc (u64_max - n)

-- `a - b` on `i64`, which wraps around.
unfoldable pub wrapping_sub : ℤ → ℤ → ℤ
unfolding of_bits pos_part neg_part
wrapping_sub a b =
    of_bits
      ((pos_part a + neg_part b + 2 * (u64_max + 1) - (neg_part a + pos_part b)) % (u64_max + 1))

-- `u64::checked_add(1)`.
unfoldable pub checked_suc : ℕ → Option ℕ
checked_suc n = if ltb n u64_max then some (n + 1) else none

-- What a checked addition that does not overflow returns.
pub checked_add_eq : (a b : ℤ) {v : ℤ} → checked_add a b ≡ some v → a +ℤ b ≡ v
unfolding checked_add
checked_add_eq a b h = ground arith

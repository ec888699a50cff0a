-- ===== src/Prelude/Tests.antt =====
-- Boolean tests on the native numbers, the conditional, and tests on options.
use Prim.Native.Nat.{ℕ, compare, Ordering}
use mathlib.Core.Path.{◌≡◌, refl}
use mathlib.Core.Logic.{◌⊎◌, inl, inr}
use mathlib.Core.Bool.{Bool, true, false, decide, decide_iff}
use mathlib.Core.Option.{Option, none, some}

abbrev pub ltb : ℕ → ℕ → Bool
ltb a b = elim (compare a b) [ Ordering.lt ↦ true | _ ↦ false ]

abbrev pub leb : ℕ → ℕ → Bool
leb a b = elim (compare a b) [ Ordering.gt ↦ false | _ ↦ true ]

infix 50 ◌==◌
abbrev pub ◌==◌ : ℕ → ℕ → Bool
a == b = elim (compare a b) [ Ordering.eq ↦ true | _ ↦ false ]

infix 1 if◌then◌else◌
abbrev pub if◌then◌else◌ {ℓ} : {A : Type ℓ} → Bool → A → A → A
if true then x else y = x
if false then x else y = y

abbrev pub is_some {ℓ} : {A : Type ℓ} → Option A → Bool
is_some none = false
is_some (some a) = true

-- `Option::is_some_and` and `Option::is_none_or`.
abbrev pub is_some_and {ℓ} : {A : Type ℓ} → (A → Bool) → Option A → Bool
is_some_and p none = false
is_some_and p (some a) = p a

abbrev pub is_none_or {ℓ} : {A : Type ℓ} → (A → Bool) → Option A → Bool
is_none_or p none = true
is_none_or p (some a) = p a

-- `!=` on Booleans.
abbrev pub bool_ne : Bool → Bool → Bool
bool_ne true true = false
bool_ne false false = false
bool_ne true false = true
bool_ne false true = true

-- To split on a computed value and keep the equation.
pub Bool-cases : (b : Bool) → (b ≡ true) ⊎ (b ≡ false)
Bool-cases true = inl refl
Bool-cases false = inr refl

pub Option-cases {ℓ} : {A : Type ℓ} (o : Option A) → (o ≡ none) ⊎ ((a : A) × (o ≡ some a))
Option-cases none = inl refl
Option-cases (some a) = inr (a, refl)

-- Decided equality.
pub decide_refl {ℓ} : {A : Type ℓ} (d : Discrete A) (a : A) → decide (d a a) ≡ true
decide_refl d a = (decide_iff (d a a)).1 refl

pub decide_ne {ℓ} : {A : Type ℓ} (d : Discrete A) (a b : A) → ¬ (a ≡ b) → decide (d a b) ≡ false
decide_ne d a b h = elim (Bool-cases (decide (d a b))) [
  | inl e ↦ absurd (h ((decide_iff (d a b)).0 e))
  | inr e ↦ e
]

-- The branches of a test whose value is known.
pub chosen {ℓ κ} :
    {A : Type ℓ} (P : A → Type κ) (b : Bool) (x y : A)
    → P (if b then x else y)
    → ((b ≡ true) × P x) ⊎ ((b ≡ false) × P y)
chosen P true x y h = inl (refl, h)
chosen P false x y h = inr (refl, h)

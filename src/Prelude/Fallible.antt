-- ===== src/Prelude/Fallible.antt =====
-- `Result<A, E>` of the sources, with `?` as bind.
use mathlib.Core.Path.{◌≡◌, refl, subst}
use mathlib.Core.Logic.{◌⊎◌, inl, inr}
use mathlib.Core.Bool.{Bool, true, false}
use mathlib.Core.Option.{Option, none, some}

pub data Result {ℓ κ} (E : Type ℓ) (A : Type κ) : Type (ℓ ⊔ κ) where
  ok : A → Result E A
  err : E → Result E A

abbrev pub ◌>>=◌ {ℓ κ μ} :
    {E : Type ℓ} {A : Type κ} {B : Type μ} → Result E A → (A → Result E B) → Result E B
err refusal >>= next = err refusal
ok value >>= next = next value

abbrev pub ◌>>◌ {ℓ κ μ} :
    {E : Type ℓ} {A : Type κ} {B : Type μ} → Result E A → Result E B → Result E B
check >> rest = check >>= λ _. rest

infixl 5 ◌>>=◌ ◌>>◌
-- `if refused { return Err(e) }`.
abbrev pub reject_if {ℓ} : {E : Type ℓ} → Bool → E → Result E (Unit {0})
reject_if true e = err e
reject_if false e = ok tt

-- `Option::ok_or`.
abbrev pub ok_or {ℓ κ} : {E : Type ℓ} {A : Type κ} → Option A → E → Result E A
ok_or none e = err e
ok_or (some a) e = ok a

pub Result-cases {ℓ κ} :
    {E : Type ℓ} {A : Type κ} (r : Result E A) → ((a : A) × (r ≡ ok a)) ⊎ ((e : E) × (r ≡ err e))
Result-cases (ok a) = inl (a, refl)
Result-cases (err e) = inr (e, refl)

-- Inversion of a successful bind.
pub >>=-eq-ok {ℓ κ μ} :
    {E : Type ℓ} {A : Type κ} {B : Type μ} (r : Result E A) (next : A → Result E B) {b : B}
    → (r >>= next) ≡ ok b
    → (a : A) × (r ≡ ok a) × (next a ≡ ok b)
>>=-eq-ok (err refusal) next q = cc
>>=-eq-ok (ok value) next q = (value, refl, q)

-- A check that passed did not refuse.
pub reject_if-eq-ok {ℓ} :
    {E : Type ℓ} (b : Bool) (e : E) {u : Unit {0}} → reject_if b e ≡ ok u → b ≡ false
reject_if-eq-ok true e h = cc
reject_if-eq-ok false e h = refl

pub ok_or-eq-ok {ℓ κ} :
    {E : Type ℓ} {A : Type κ} (o : Option A) (e : E) {a : A} → ok_or o e ≡ ok a → o ≡ some a
ok_or-eq-ok none e h = cc
ok_or-eq-ok (some a) e h = cc

pub ok-injective {ℓ κ} :
    {E : Type ℓ} {A : Type κ} {a b : A} → ◌≡◌ {A = Result E A} (ok a) (ok b) → a ≡ b
ok-injective h = cc

-- Every error that a result may carry satisfies `P`; a bind keeps this.
abbrev pub Fails {ℓ κ μ} : {E : Type ℓ} {A : Type κ} → (E → Type μ) → Result E A → Type μ
Fails P (ok a) = Unit
Fails P (err e) = P e

pub Fails->>= {ℓ κ μ ν} :
    {E : Type ℓ} {A : Type κ} {B : Type μ} (P : E → Type ν) (m : Result E A) (f : A → Result E B)
    → Fails P m
    → ((a : A) → Fails P (f a))
    → Fails P (m >>= f)
Fails->>= P (ok a) f h k = k a
Fails->>= P (err e) f h k = h

pub Fails-reject_if {ℓ μ} :
    {E : Type ℓ} (P : E → Type μ) (b : Bool) (e : E) → P e → Fails P (reject_if b e)
Fails-reject_if P true e h = h
Fails-reject_if P false e h = tt

pub Fails-ok_or {ℓ κ μ} :
    {E : Type ℓ} {A : Type κ} (P : E → Type μ) (o : Option A) (e : E) → P e → Fails P (ok_or o e)
Fails-ok_or P none e h = h
Fails-ok_or P (some a) e h = tt

pub Fails-err {ℓ κ μ} :
    {E : Type ℓ} {A : Type κ} (P : E → Type μ) {r : Result E A} {e : E}
    → Fails P r
    → r ≡ err e
    → P e
Fails-err P h p = subst (Fails P) p h

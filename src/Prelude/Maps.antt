-- ===== src/Prelude/Maps.antt =====
-- Hash maps, as association lists under a Boolean test for equal keys.
use mathlib.Core.Path.{◌≡◌, refl, sym, ◌∙◌, subst}
use mathlib.Core.Logic.{inl, inr}
use mathlib.Core.Bool.{Bool, true, false}
use mathlib.Core.Option.{Option, none, some}
use mathlib.Core.List.{List, [], ◌∷◌}
use sinan.Prelude.Tests.{if◌then◌else◌, Bool-cases}

-- A test for equality.
pub record IsTest {K : Type 0} (eq : K → K → Bool) : Type 0 where
  pub sound : (a b : K) → eq a b ≡ true → a ≡ b
  pub self : (a : K) → eq a a ≡ true

module _ {K V : Type 0} (eq : K → K → Bool) where
  abbrev pub lookup : K → List (K × V) → Option V
  lookup k [] = none
  lookup k ((j, v) ∷ m) = if eq k j then some v else lookup k m

  abbrev pub remove : K → List (K × V) → List (K × V)
  remove k [] = []
  remove k ((j, v) ∷ m) = let rest = remove k m in if eq k j then rest else (j, v) ∷ rest

  abbrev pub insert : K → V → List (K × V) → List (K × V)
  insert k v m = (k, v) ∷ remove k m

-- `HashMap::retain`, by the value.
abbrev pub retain : {K V : Type 0} → (V → Bool) → List (K × V) → List (K × V)
retain p [] = []
retain p ((j, v) ∷ m) = let rest = retain p m in if p v then (j, v) ∷ rest else rest

module _ {K V : Type 0} (eq : K → K → Bool) (t : IsTest eq) where
  pub lookup-remove_self : (k : K) (m : List (K × V)) → lookup eq k (remove eq k m) ≡ none
  lookup-remove_self k [] = refl
  lookup-remove_self k ((j, v) ∷ m) = elim (Bool-cases (eq k j)) [
    | inl e ↦ rw e (lookup-remove_self k m)
    | inr e ↦ rw (e, e) (lookup-remove_self k m)
  ]

  pub lookup-remove_ne :
      (i k : K) (m : List (K × V)) → eq i k ≡ false → lookup eq i (remove eq k m) ≡ lookup eq i m
  lookup-remove_ne i k [] h = refl
  lookup-remove_ne i k ((j, v) ∷ m) h = elim (Bool-cases (eq k j)) [
    | inl e ↦ rw (e, subst (λ l. eq i l ≡ false) (t.sound k j e) h) (lookup-remove_ne i k m h)
    | inr e ↦
        rw e (elim (Bool-cases (eq i j)) [
          | inl f ↦ rw f refl
          | inr f ↦ rw f (lookup-remove_ne i k m h)
        ])
  ]

  -- A key that is found after a removal is another one, and was found before.
  pub lookup-remove :
      (i k : K) (m : List (K × V)) {v : V}
      → lookup eq i (remove eq k m) ≡ some v
      → (eq i k ≡ false) × (lookup eq i m ≡ some v)
  lookup-remove i k m {v} h = elim (Bool-cases (eq i k)) [
    | inl e ↦
        let here = subst (λ l. lookup eq i (remove eq l m) ≡ some v) (sym (t.sound i k e)) h in
        let gone = lookup-remove_self i m in cc
    | inr e ↦ (e, sym (lookup-remove_ne i k m e) ∙ h)
  ]

-- ===== src/Versions/Printed.antt =====
-- crates/protocol/src/version.rs: a printed version is read again.
use sinan.Prelude.{
  ℕ, zero, suc, ◌+◌, ◌-◌, ◌*◌, ◌/◌, ◌%◌, ◌≤◌, ◌<◌, true, false, List, [], ◌∷◌, ◌++◌, some, ok, ltb,
  ◌==◌, any, ◌≡◌, refl, sym, ap, ◌∙◌, ◌⊎◌, inl, inr, arith, All, Bool-cases,
}
use mathlib.Core.List.{append_assoc}
use sinan.Versions.Version.{
  SchemaVersion, dot, u16_max, decimal, print_version, is_digit, parse_digits, parse_u16,
  strip_prefix, split_once, is_empty, parse_version,
}

-- The fuel is enough for the digits of `n`.
unfoldable Fits : ℕ → ℕ → Type 0
Fits zero n = ⊥
Fits (suc fuel) n = (n < 10) ⊎ Fits fuel (n / 10)

u16-Fits : (n : ℕ) → n ≤ u16_max → Fits 5 n
unfolding Fits
u16-Fits n h = elim (Bool-cases (ltb n 10)) [
  | inl a ↦ inl (ground arith)
  | inr a ↦ inr (elim (Bool-cases (ltb (n / 10) 10)) [
    | inl b ↦ inl (ground arith)
    | inr b ↦ inr (elim (Bool-cases (ltb (n / 10 / 10) 10)) [
      | inl c ↦ inl (ground arith)
      | inr c ↦ inr (elim (Bool-cases (ltb (n / 10 / 10 / 10) 10)) [
        | inl d ↦ inl (ground arith)
        | inr d ↦ inr (inl (omega arith))
      ])
    ])
  ])
]

parse_digit :
    (value c : ℕ) (rest : List ℕ)
    → c < 10
    → value * 10 + c ≤ u16_max
    → parse_digits value ((48 + c) ∷ rest) ≡ parse_digits (value * 10 + c) rest
unfolding parse_digits is_digit
parse_digit value c rest h k = let same : 48 + c - 48 ≡ c = omega arith in rw same (ground arith)

parse_digits-decimal :
    (fuel n : ℕ) (rest : List ℕ)
    → Fits fuel n
    → n ≤ u16_max
    → parse_digits 0 (decimal fuel n ++ rest) ≡ parse_digits n rest
unfolding decimal Fits
parse_digits-decimal zero n rest f h = absurd f
parse_digits-decimal (suc fuel) n rest f h = elim (Bool-cases (ltb n 10)) [
  | inl e ↦ rw e (
      parse_digit 0 n rest (ground arith) (omega (arith, h))
      ∙ ap (λ v. parse_digits v rest) (omega arith))
  | inr e ↦
      let fits : Fits fuel (n / 10) = elim f [ inl small ↦ absurd (ground arith) | inr g ↦ g ] in
      rw (e, append_assoc)
        (parse_digits-decimal fuel (n / 10) ((48 + n % 10) ∷ rest) fits (omega (arith, h))
          ∙ parse_digit (n / 10) (n % 10) rest (omega arith) (omega (arith, h))
          ∙ ap (λ v. parse_digits v rest) (omega arith))
]

abbrev Digits : List ℕ → Type 0
Digits cs = All (λ c. is_digit c ≡ true) cs

Digits-append : (xs ys : List ℕ) → Digits xs → Digits ys → Digits (xs ++ ys)
Digits-append [] ys h k = k
Digits-append (x ∷ xs) ys (h, hs) k = (h, Digits-append xs ys hs k)

digit_of : (n : ℕ) → n < 10 → is_digit (48 + n) ≡ true
unfolding is_digit
digit_of n h = ground arith

decimal-Digits : (fuel n : ℕ) → Digits (decimal fuel n)
unfolding decimal
decimal-Digits zero n = tt
decimal-Digits (suc fuel) n = elim (Bool-cases (ltb n 10)) [
  | inl e ↦ rw e (digit_of n (ground arith), tt)
  | inr e ↦ rw e (
      Digits-append (decimal fuel (n / 10)) ((48 + n % 10) ∷ []) (decimal-Digits fuel (n / 10))
        (digit_of (n % 10) (omega arith), tt))
]

is_empty-append : (xs : List ℕ) (y : ℕ) (ys : List ℕ) → is_empty (xs ++ (y ∷ ys)) ≡ false
is_empty-append [] y ys = refl
is_empty-append (x ∷ xs) y ys = refl

decimal-not_empty : (fuel n : ℕ) → is_empty (decimal (suc fuel) n) ≡ false
unfolding decimal
decimal-not_empty fuel n = elim (Bool-cases (ltb n 10)) [
  | inl e ↦ rw e refl
  | inr e ↦ rw e (is_empty-append (decimal fuel (n / 10)) (48 + n % 10) [])
]

split_once-Digits :
    (xs rest : List ℕ) → Digits xs → split_once (xs ++ (dot ∷ rest)) ≡ some (xs, rest)
unfolding split_once is_digit
split_once-Digits [] rest h = refl
split_once-Digits (x ∷ xs) rest (h, hs) =
    let other : (x == dot) ≡ false = ground arith in rw (other, split_once-Digits xs rest hs) refl

no_dot : (xs : List ℕ) → Digits xs → any (λ c. c == dot) xs ≡ false
unfolding is_digit
no_dot [] h = refl
no_dot (x ∷ xs) (h, hs) = let rest = no_dot xs hs in ground arith

parse_u16-Digits :
    (xs : List ℕ) → Digits xs → is_empty xs ≡ false → parse_u16 xs ≡ parse_digits 0 xs
unfolding parse_u16 is_digit
parse_u16-Digits [] h e = cc
parse_u16-Digits (x ∷ []) h e = refl
parse_u16-Digits (x ∷ y ∷ xs) (h, hs) e =
    let unsigned : (x == 43) ≡ false = ground arith in rw unsigned refl

append_nil : (xs : List ℕ) → xs ++ [] ≡ xs
append_nil [] = refl
append_nil (x ∷ xs) = ap (◌∷◌ x) (append_nil xs)

parse_u16-decimal : (n : ℕ) → n ≤ u16_max → parse_u16 (decimal 5 n) ≡ some n
unfolding parse_digits
parse_u16-decimal n h =
    parse_u16-Digits (decimal 5 n) (decimal-Digits 5 n) (decimal-not_empty 4 n)
    ∙ ap (parse_digits 0) (sym (append_nil (decimal 5 n)))
    ∙ parse_digits-decimal 5 n [] (u16-Fits n h) h

-- Every version of two 16-bit numbers is read again from its text.
pub parse_version-print_version :
    (v : SchemaVersion)
    → v.major ≤ u16_max
    → v.minor ≤ u16_max
    → parse_version (print_version v) ≡ ok v
unfolding parse_version print_version strip_prefix
parse_version-print_version v h k =
    let major = decimal 5 v.major in
    let minor = decimal 5 v.minor in
    rw
      (
        split_once-Digits major minor (decimal-Digits 5 v.major),
        decimal-not_empty 4 v.major,
        decimal-not_empty 4 v.minor,
        no_dot minor (decimal-Digits 5 v.minor),
        parse_u16-decimal v.major h,
        parse_u16-decimal v.minor k,
      )
      refl

-- ===== src/Sessions/Steps.antt =====
-- crates/gateway/src/registry.rs: what each atomic operation of a thread does to the word.
use sinan.Prelude.{
  ℕ, ◌+◌, ◌*◌, ◌/◌, ◌≤◌, ◌<◌, true, false, List, [], ◌∷◌, ◌==◌, ◌≡◌, refl, ◌⊎◌, inl, inr, subst,
  arith,
}
use sinan.Sessions.Gate.{
  fenced_bit, writer_mask, writers_of, release_word, Writer, starting, trying, admitted, refused,
  released, admission, WriterAction, load, exchange, exchange_spuriously, drop_permit, write_step,
}

-- The permits that a thread holds.
unfoldable pub permits : Writer → ℕ
permits admitted = 1
permits _ = 0

unfoldable pub all_permits : List Writer → ℕ
all_permits [] = 0
all_permits (w ∷ ws) = permits w + all_permits ws

-- A thread tries to exchange only a word that admits one more writer.
unfoldable pub Sound : Writer → Type 0
Sound (trying current) = current < writer_mask
Sound _ = Unit

pub admission-Sound : (word : ℕ) → word < 2 * fenced_bit → Sound (admission word)
unfolding admission Sound
admission-Sound word h = ground arith

admission-permits : (word : ℕ) → permits (admission word) ≡ 0
unfolding admission permits
admission-permits word = ground arith

pub record Moved (word word' : ℕ) (w w' : Writer) : Type 0 where
  pub bounded : word' < 2 * fenced_bit
  pub fence_kept : word / fenced_bit ≡ word' / fenced_bit
  pub counted : writers_of word' + permits w ≡ writers_of word + permits w'
  pub sound : Sound w'

stays : (word : ℕ) (w : Writer) → word < 2 * fenced_bit → Sound w → Moved word word w w
stays word w b s = record { bounded = b; fence_kept = refl; counted = refl; sound = s }

decides :
    (word : ℕ) (w : Writer)
    → word < 2 * fenced_bit
    → permits w ≡ 0
    → Moved word word w (admission word)
decides word w b p = record {
  bounded = b;
  fence_kept = refl;
  counted = omega (arith, p, admission-permits word);
  sound = admission-Sound word b;
}

admits : (word : ℕ) → word < writer_mask → Moved word (word + 1) (trying word) admitted
unfolding permits Sound
admits word s = record {
  bounded = omega arith;
  fence_kept = omega arith;
  counted = omega arith;
  sound = tt;
}

compare-cases : (a b : ℕ) → (a ≡ b) ⊎ ((a == b) ≡ false)
compare-cases a b = ground arith

eqb_self : (a : ℕ) → (a == a) ≡ true
eqb_self a = ground arith

exchange-Moved :
    (word current : ℕ)
    → word < 2 * fenced_bit
    → Sound (trying current)
    → Moved word
        (write_step exchange word (trying current)).0
        (trying current)
        (write_step exchange word (trying current)).1
unfolding write_step permits Sound
exchange-Moved word current b s = elim (compare-cases word current) [
  | inl e ↦
      subst
        (λ c.
          Moved word (write_step exchange word (trying c)).0 (trying c)
            (write_step exchange word (trying c)).1)
        e (rw (eqb_self word) (admits word (omega (arith, s, e))))
  | inr e ↦ rw e (decides word (trying current) b refl)
]

releases :
    (word : ℕ)
    → word < 2 * fenced_bit
    → 1 ≤ writers_of word
    → Moved word (release_word word) admitted released
unfolding permits Sound release_word
releases word b p = record {
  bounded = omega arith;
  fence_kept = omega arith;
  counted = omega arith;
  sound = tt;
}

pub write_step-Moved :
    (a : WriterAction) (word : ℕ) (w : Writer)
    → word < 2 * fenced_bit
    → permits w ≤ writers_of word
    → Sound w
    → Moved word (write_step a word w).0 w (write_step a word w).1
unfolding write_step permits
write_step-Moved load word starting b p s = decides word starting b refl
write_step-Moved load word (trying c) b p s = stays word (trying c) b s
write_step-Moved load word admitted b p s = stays word admitted b s
write_step-Moved load word refused b p s = stays word refused b s
write_step-Moved load word released b p s = stays word released b s
write_step-Moved exchange word starting b p s = stays word starting b s
write_step-Moved exchange word (trying c) b p s = exchange-Moved word c b s
write_step-Moved exchange word admitted b p s = stays word admitted b s
write_step-Moved exchange word refused b p s = stays word refused b s
write_step-Moved exchange word released b p s = stays word released b s
write_step-Moved exchange_spuriously word starting b p s = stays word starting b s
write_step-Moved exchange_spuriously word (trying c) b p s = decides word (trying c) b refl
write_step-Moved exchange_spuriously word admitted b p s = stays word admitted b s
write_step-Moved exchange_spuriously word refused b p s = stays word refused b s
write_step-Moved exchange_spuriously word released b p s = stays word released b s
write_step-Moved drop_permit word starting b p s = stays word starting b s
write_step-Moved drop_permit word (trying c) b p s = stays word (trying c) b s
write_step-Moved drop_permit word admitted b p s = releases word b p
write_step-Moved drop_permit word refused b p s = stays word refused b s
write_step-Moved drop_permit word released b p s = stays word released b s

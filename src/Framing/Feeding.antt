-- ===== src/Framing/Feeding.antt =====
-- crates/protocol/src/framing.rs: the loop of `feed`, which takes as many bytes at once as it can,
-- against the rounds over single bytes.
use sinan.Prelude.{
  ℕ, zero, suc, ◌+◌, ◌≤◌, ◌<◌, List, [], ◌∷◌, ◌++◌, Bool, true, false, Option, none, some, ◌≡◌,
  refl, ◌∙◌, ap, length, length-append, ltb, ◌==◌, inl, inr, ◌⊎◌, Bool-cases, arith, take,
  if◌then◌else◌,
}
use mathlib.Core.List.{append_assoc}
use sinan.Framing.Decode.{
  NativeTcpFrameDecoder, Round, more, failed, Fed, push, taken, payload_read, prefix_read, round_by,
  round, from_be_bytes, continue_with, feed_loop, feed,
}
use sinan.Framing.Bytewise.{
  after_byte, feed_bytes, in_one, target, IsReading, with_byte, Holds, round-Holds,
}

-- A round that leaves no input, given more input that it does not touch.
abbrev with_rest : List ℕ → Round → Round
with_rest bs (more d frame rest) = more d frame bs
with_rest bs (failed d e) = failed d e

payload_read-rest :
    (d : NativeTcpFrameDecoder) (n : ℕ) (buffer bs : List ℕ)
    → payload_read d n buffer bs ≡ with_rest bs (payload_read d n buffer [])
unfolding payload_read
payload_read-rest d n buffer bs = elim (Bool-cases (length buffer == n)) [
  | inl e ↦ rw e
  | inr e ↦ rw e
]

prefix_read-rest :
    (d : NativeTcpFrameDecoder) (buffer bs : List ℕ)
    → prefix_read d buffer bs ≡ with_rest bs (prefix_read d buffer [])
unfolding prefix_read
prefix_read-rest d buffer bs = elim (Bool-cases (ltb (length buffer) 4)) [
  | inl e ↦ rw e
  | inr e ↦ elim (Bool-cases (from_be_bytes buffer == 0)) [
    | inl z ↦ rw (e, z)
    | inr z ↦ elim (Bool-cases (ltb d.max_frame_bytes (from_be_bytes buffer))) [
      | inl t ↦ rw (e, z, t)
      | inr t ↦ rw (e, z, t)
    ]
  ]
]

pub taken-last :
    (t : ℕ) (d : NativeTcpFrameDecoder) (b : ℕ) (bs : List ℕ)
    → length d.buffer < t
    → (length d.buffer + 1 ≡ t) ⊎ (bs ≡ [])
    → taken t d (b ∷ bs) ≡ 1
taken-last t d b bs h (inl e) = ground arith
taken-last t d b bs h (inr e) = rw e (ground arith)

taken-next :
    (t : ℕ) (d : NativeTcpFrameDecoder) (b : ℕ) (bs : List ℕ)
    → length d.buffer + 1 < t
    → taken t d (b ∷ bs) ≡ suc (taken t (with_byte d b) bs)
taken-next t d b bs h = ground (arith, length-append d.buffer (b ∷ []))

round_by-last :
    (o : Option ℕ) (d : NativeTcpFrameDecoder) (b : ℕ) (bs : List ℕ)
    → length d.buffer < target o
    → (length d.buffer + 1 ≡ target o) ⊎ (bs ≡ [])
    → round_by o d (b ∷ bs) ≡ with_rest bs (round_by o d (b ∷ []))
unfolding round_by target
round_by-last none d b bs h k =
    rw (taken-last 4 d b bs h k, taken-last 4 d b [] h (inr refl))
      (prefix_read-rest d (d.buffer ++ b ∷ []) bs)
round_by-last (some n) d b bs h k =
    rw (taken-last n d b bs h k, taken-last n d b [] h (inr refl))
      (payload_read-rest d n (d.buffer ++ b ∷ []) bs)

round_by-next :
    (o : Option ℕ) (d : NativeTcpFrameDecoder) (b : ℕ) (bs : List ℕ)
    → length d.buffer + 1 < target o
    → round_by o d (b ∷ bs) ≡ round_by o (with_byte d b) bs
unfolding round_by target payload_read prefix_read
round_by-next none d b bs h =
    rw
      (taken-next 4 d b bs h, append_assoc d.buffer (b ∷ []) (take (taken 4 (with_byte d b) bs) bs))
round_by-next (some n) d b bs h =
    rw
      (taken-next n d b bs h, append_assoc d.buffer (b ∷ []) (take (taken n (with_byte d b) bs) bs))

pub round_by-waits :
    (o : Option ℕ) (d : NativeTcpFrameDecoder) (b : ℕ)
    → length d.buffer + 1 < target o
    → round_by o d (b ∷ []) ≡ more (with_byte d b) none []
unfolding round_by target payload_read prefix_read
round_by-waits none d b h =
    rw (taken-last 4 d b [] (omega arith) (inr refl), length-append d.buffer (b ∷ []))
      (rw (waits-none) refl)
  where
    waits-none : ltb (length d.buffer + 1) 4 ≡ true
    waits-none = ground arith
round_by-waits (some n) d b h =
    rw (taken-last n d b [] (omega arith) (inr refl), length-append d.buffer (b ∷ []))
      (rw (waits-some) refl)
  where
    waits-some : (length d.buffer + 1 == n) ≡ false
    waits-some = ground arith

continue_with-rest :
    {max : ℕ} (go : NativeTcpFrameDecoder → List (List ℕ) → List ℕ → Option Fed) (bs : List ℕ)
    (frames : List (List ℕ)) (r : Round)
    → Holds max r
    → ((d : NativeTcpFrameDecoder) (fs : List (List ℕ))
        → IsReading max d
        → go d fs bs ≡ some (in_one (feed_bytes bs d fs)))
    → continue_with go frames (with_rest bs r) ≡ some (in_one (after_byte (feed_bytes bs) frames r))
unfolding continue_with after_byte
continue_with-rest go bs frames (more d frame rest) h k = k d (push frames frame) h
continue_with-rest go bs frames (failed d e) h k = refl

with_byte-IsReading :
    {max : ℕ} (d : NativeTcpFrameDecoder) (b : ℕ)
    → IsReading max d
    → length d.buffer + 1 < target d.expected_payload_len
    → IsReading max (with_byte d b)
with_byte-IsReading d b r h = record {
  live = r.live;
  room = ground (arith, length-append d.buffer (b ∷ []));
  fits = r.fits;
  limit = r.limit;
}

last_or_next : (o : Option ℕ) (n : ℕ) → n < target o → (n + 1 ≡ target o) ⊎ (n + 1 < target o)
last_or_next o n h = elim (Bool-cases (n + 1 == target o)) [
  | inl e ↦ inl (ground arith)
  | inr e ↦ inr (ground arith)
]

-- Enough fuel for the loop is the length of the input, and the loop then gives the frames of the
-- rounds over single bytes, or their error.
pub feed_loop-feed_bytes :
    {max : ℕ} (fuel : ℕ) (input : List ℕ) (d : NativeTcpFrameDecoder) (frames : List (List ℕ))
    → IsReading max d
    → length input ≤ fuel
    → feed_loop fuel d frames input ≡ some (in_one (feed_bytes input d frames))
unfolding feed_loop feed_bytes round continue_with after_byte
feed_loop-feed_bytes zero [] d frames r h = refl
feed_loop-feed_bytes (suc fuel) [] d frames r h = refl
feed_loop-feed_bytes zero (b ∷ bs) d frames r h = absurd (omega arith)
feed_loop-feed_bytes (suc fuel) (b ∷ []) d frames r h =
    ap (continue_with (feed_loop fuel) frames)
      (round_by-last d.expected_payload_len d b [] r.room (inr refl))
    ∙ continue_with-rest (feed_loop fuel) [] frames (round d (b ∷ [])) (round-Holds d (b ∷ []) r)
        λ d' fs r'. feed_loop-feed_bytes fuel [] d' fs r' (omega arith)
feed_loop-feed_bytes (suc fuel) (b ∷ c ∷ cs) d frames r h =
    elim (last_or_next d.expected_payload_len (length d.buffer) r.room) [
      | inl e ↦ rw (round_by-last d.expected_payload_len d b (c ∷ cs) r.room (inl e)) (
          continue_with-rest (feed_loop fuel) (c ∷ cs) frames (round d (b ∷ []))
            (round-Holds d (b ∷ []) r)
            λ d' fs r'. feed_loop-feed_bytes fuel (c ∷ cs) d' fs r' (omega arith))
      | inr e ↦
          rw
            (
              round_by-next d.expected_payload_len d b (c ∷ cs) e,
              round_by-waits d.expected_payload_len d b e,
            )
            (feed_loop-feed_bytes (suc fuel) (c ∷ cs) (with_byte d b) frames
              (with_byte-IsReading d b r e) (omega arith))
    ]

if_not {ℓ} : {A : Type ℓ} (b : Bool) (x y : A) → b ≡ false → (if b then x else y) ≡ y
if_not b x y h = rw h

-- From a decoder that reads, `feed` always returns, and it returns the frames of the rounds over
-- single bytes if none fails, and otherwise the error of the one that fails.
pub feed-feed_bytes :
    {max : ℕ} (d : NativeTcpFrameDecoder) (bytes : List ℕ)
    → IsReading max d
    → feed d bytes ≡ some (in_one (feed_bytes bytes d []))
unfolding feed
feed-feed_bytes d bytes r =
    if_not d.is_poisoned _ _ r.live ∙ feed_loop-feed_bytes (length bytes) bytes d [] r (omega arith)

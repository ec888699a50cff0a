-- ===== src/Framing/Bytewise.antt =====
-- crates/protocol/src/framing.rs: the rounds of the decoder that is given one byte at a time, where
-- the frames of the bytes before an error are kept, and the invariant of the decoder.
use sinan.Prelude.{
  ℕ, zero, suc, ◌≤◌, ◌<◌, List, [], ◌∷◌, ◌++◌, true, false, Option, none, some, ok, err, ◌≡◌, refl,
  length, length-append, ltb, ◌==◌, inl, inr, ◌⊎◌, Bool-cases, arith, take,
}
use sinan.Framing.Decode.{
  NativeTcpFrameDecoder, FrameDecodeError, Round, more, failed, Fed, fed, push, taken, payload_read,
  prefix_read, round_by, round, from_be_bytes,
}

-- What a stream of reads has given so far: the frames it has delivered, and the error it ended with.
pub record Stream : Type 0 where
  pub decoder : NativeTcpFrameDecoder
  pub frames : List (List ℕ)
  pub error : Option FrameDecodeError

abbrev pub streamed : NativeTcpFrameDecoder → List (List ℕ) → Option FrameDecodeError → Stream
streamed d frames e = record { decoder = d; frames = frames; error = e }

unfoldable pub after_byte :
    (NativeTcpFrameDecoder → List (List ℕ) → Stream) → List (List ℕ) → Round → Stream
after_byte go frames (more d frame rest) = go d (push frames frame)
after_byte go frames (failed d e) = streamed d frames (some e)

unfoldable pub feed_bytes : List ℕ → NativeTcpFrameDecoder → List (List ℕ) → Stream
feed_bytes [] d frames = streamed d frames none
feed_bytes (b ∷ bs) d frames = after_byte (feed_bytes bs) frames (round d (b ∷ []))

-- What a single call of `feed` returns for such a stream: its frames, or only its error.
abbrev pub in_one : Stream → Fed
in_one o = elim o.error [ none ↦ fed o.decoder (ok o.frames) | some e ↦ fed o.decoder (err e) ]

-- The length at which the buffer is complete.
unfoldable pub target : Option ℕ → ℕ
target none = 4
target (some expected) = expected

-- The decoder is not poisoned, waits for at least one byte, and for no more than a prefix or a
-- payload of the size `max`, to which it is limited.
pub record IsReading (max : ℕ) (d : NativeTcpFrameDecoder) : Type 0 where
  pub live : d.is_poisoned ≡ false
  pub room : length d.buffer < target d.expected_payload_len
  pub fits : (target d.expected_payload_len ≤ 4) ⊎ (target d.expected_payload_len ≤ max)
  pub limit : d.max_frame_bytes ≡ max

abbrev pub with_byte : NativeTcpFrameDecoder → ℕ → NativeTcpFrameDecoder
with_byte d b = record d { buffer = d.buffer ++ b ∷ [] }

-- A decoder after a round that did not fail reads, and a decoder that failed is poisoned with at
-- most the four bytes of the prefix in its buffer.
abbrev pub Holds : ℕ → Round → Type 0
Holds max (more d frame rest) = IsReading max d
Holds max (failed d e) = (d.is_poisoned ≡ true) × (length d.buffer ≤ 4) × (d.max_frame_bytes ≡ max)

prefix_read-Holds :
    {max : ℕ} (d : NativeTcpFrameDecoder) (buffer rest : List ℕ)
    → IsReading max d
    → d.expected_payload_len ≡ none
    → length buffer ≤ 4
    → Holds max (prefix_read d buffer rest)
unfolding prefix_read target
prefix_read-Holds d buffer rest r h k = elim (Bool-cases (ltb (length buffer) 4)) [
  | inl e ↦
      rw e (record { live = r.live; room = rw h (ground arith); fits = r.fits; limit = r.limit })
  | inr e ↦ elim (Bool-cases (from_be_bytes buffer == 0)) [
    | inl z ↦ rw (e, z) (refl, k, r.limit)
    | inr z ↦ elim (Bool-cases (ltb d.max_frame_bytes (from_be_bytes buffer))) [
      | inl t ↦ rw (e, z, t) (refl, k, r.limit)
      | inr t ↦
          rw (e, z, t)
            (record {
              live = r.live;
              room = ground arith;
              fits = inr (ground (arith, r.limit));
              limit = r.limit;
            })
    ]
  ]
]

payload_read-Holds :
    {max : ℕ} (d : NativeTcpFrameDecoder) (expected : ℕ) (buffer rest : List ℕ)
    → IsReading max d
    → d.expected_payload_len ≡ some expected
    → length buffer ≤ expected
    → Holds max (payload_read d expected buffer rest)
unfolding payload_read target
payload_read-Holds d expected buffer rest r h k = elim (Bool-cases (length buffer == expected)) [
  | inl e ↦
      rw e (record { live = r.live; room = omega arith; fits = inl (omega arith); limit = r.limit })
  | inr e ↦
      rw e (record { live = r.live; room = rw h (ground arith); fits = r.fits; limit = r.limit })
]

length-take {ℓ} : {A : Type ℓ} (n : ℕ) (xs : List A) → length (take n xs) ≤ n
length-take zero xs = omega arith
length-take (suc n) [] = omega arith
length-take (suc n) (x ∷ xs) = omega (arith, length-take n xs)

received :
    (t : ℕ) (d : NativeTcpFrameDecoder) (input : List ℕ)
    → length d.buffer < t
    → length (d.buffer ++ take (taken t d input) input) ≤ t
received t d input h = ground (
  arith,
  length-append d.buffer (take (taken t d input) input),
  length-take (taken t d input) input,
)

round_by-Holds :
    {max : ℕ} (o : Option ℕ) (d : NativeTcpFrameDecoder) (input : List ℕ)
    → IsReading max d
    → d.expected_payload_len ≡ o
    → length d.buffer < target o
    → Holds max (round_by o d input)
unfolding round_by target
round_by-Holds none d input r h k = prefix_read-Holds d _ _ r h (received 4 d input k)
round_by-Holds (some expected) d input r h k =
    payload_read-Holds d expected _ _ r h (received expected d input k)

pub round-Holds :
    {max : ℕ} (d : NativeTcpFrameDecoder) (input : List ℕ)
    → IsReading max d
    → Holds max (round d input)
unfolding round
round-Holds d input r = round_by-Holds d.expected_payload_len d input r refl r.room

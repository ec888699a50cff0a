-- ===== src/Framing/Chunks.antt =====
-- crates/protocol/src/framing.rs: what a read leaves, what is kept between the reads, and the rounds
-- over the bytes of two reads.
use sinan.Prelude.{
  ℕ, ◌≤◌, List, [], ◌∷◌, ◌++◌, true, Option, none, some, ok, err, ◌≡◌, refl, sym, ◌∙◌, ap, length,
  inl, arith,
}
use mathlib.Core.List.{append_assoc, append-nil}
use sinan.Framing.Decode.{
  NativeTcpFrameDecoder, FrameDecodeError, Round, more, failed, Fed, fed, push, round, feed, new,
}
use sinan.Framing.Bytewise.{
  Stream, streamed, after_byte, feed_bytes, in_one, target, IsReading, Holds, round-Holds,
}
use sinan.Framing.Feeding.{feed-feed_bytes}

-- A new decoder reads.
pub new-IsReading : (max : ℕ) → IsReading max (new max)
unfolding new target
new-IsReading max = record {
  live = refl;
  room = omega arith;
  fits = inl (omega arith);
  limit = refl;
}

-- What holds after a read: the decoder reads on, or it is poisoned with at most a prefix kept.
pub data Sound (max : ℕ) : Fed → Type 0 where
  reading :
      (d : NativeTcpFrameDecoder) (frames : List (List ℕ))
      → IsReading max d
      → Sound max (fed d (ok frames))
  dead :
      (d : NativeTcpFrameDecoder) (e : FrameDecodeError)
      → d.is_poisoned ≡ true
      → length d.buffer ≤ 4
      → Sound max (fed d (err e))

-- The end of a stream: the decoder reads on, or it is poisoned with at most a prefix kept.
pub data Ends (max : ℕ) : Stream → Type 0 where
  reads_on :
      (d : NativeTcpFrameDecoder) (frames : List (List ℕ))
      → IsReading max d
      → Ends max (streamed d frames none)
  breaks :
      (d : NativeTcpFrameDecoder) (frames : List (List ℕ)) (e : FrameDecodeError)
      → d.is_poisoned ≡ true
      → length d.buffer ≤ 4
      → Ends max (streamed d frames (some e))

after_byte-Ends :
    {max : ℕ} (go : NativeTcpFrameDecoder → List (List ℕ) → Stream) (frames : List (List ℕ))
    (r : Round)
    → Holds max r
    → ((d : NativeTcpFrameDecoder) (fs : List (List ℕ)) → IsReading max d → Ends max (go d fs))
    → Ends max (after_byte go frames r)
unfolding after_byte
after_byte-Ends go frames (more d frame rest) h k = k d (push frames frame) h
after_byte-Ends go frames (failed d e) h k = breaks d frames e h.0 h.1

pub feed_bytes-Ends :
    {max : ℕ} (bs : List ℕ) (d : NativeTcpFrameDecoder) (frames : List (List ℕ))
    → IsReading max d
    → Ends max (feed_bytes bs d frames)
unfolding feed_bytes
feed_bytes-Ends [] d frames r = reads_on d frames r
feed_bytes-Ends (b ∷ bs) d frames r =
    after_byte-Ends (feed_bytes bs) frames (round d (b ∷ [])) (round-Holds d (b ∷ []) r)
      λ d' fs r'. feed_bytes-Ends bs d' fs r'

in_one-Sound : {max : ℕ} {o : Stream} → Ends max o → Sound max (in_one o)
in_one-Sound (reads_on d frames r) = reading d frames r
in_one-Sound (breaks d frames e p k) = dead d e p k

-- From a decoder that reads, a read always returns; the decoder then reads on, keeping fewer bytes
-- than a prefix or a payload of the size `max`, or it has failed, is poisoned and keeps at most four.
pub feed-Sound :
    {max : ℕ} (d : NativeTcpFrameDecoder) (bytes : List ℕ)
    → IsReading max d
    → (o : Fed) × (feed d bytes ≡ some o) × Sound max o
feed-Sound d bytes r = (
  in_one (feed_bytes bytes d []),
  feed-feed_bytes d bytes r,
  in_one-Sound (feed_bytes-Ends bytes d [] r),
)

-- Frames that were delivered before stand first.
abbrev pub prepend : List (List ℕ) → Stream → Stream
prepend frames o = streamed o.decoder (frames ++ o.frames) o.error

pub push-append :
    (xs ys : List (List ℕ)) (frame : Option (List ℕ)) → push (xs ++ ys) frame ≡ xs ++ push ys frame
push-append xs ys none = refl
push-append xs ys (some frame) = append_assoc xs ys (frame ∷ [])

after_byte-prepend :
    (go : NativeTcpFrameDecoder → List (List ℕ) → Stream) (xs ys : List (List ℕ)) (r : Round)
    → ((d : NativeTcpFrameDecoder) (fs : List (List ℕ)) → go d (xs ++ fs) ≡ prepend xs (go d fs))
    → after_byte go (xs ++ ys) r ≡ prepend xs (after_byte go ys r)
unfolding after_byte
after_byte-prepend go xs ys (more d frame rest) h =
    rw (push-append xs ys frame) (h d (push ys frame))
after_byte-prepend go xs ys (failed d e) h = refl

feed_bytes-append_frames :
    (bs : List ℕ) (d : NativeTcpFrameDecoder) (xs ys : List (List ℕ))
    → feed_bytes bs d (xs ++ ys) ≡ prepend xs (feed_bytes bs d ys)
unfolding feed_bytes
feed_bytes-append_frames [] d xs ys = refl
feed_bytes-append_frames (b ∷ bs) d xs ys =
    after_byte-prepend (feed_bytes bs) xs ys (round d (b ∷ []))
      λ d' fs. feed_bytes-append_frames bs d' xs fs

pub feed_bytes-prepend :
    (bs : List ℕ) (d : NativeTcpFrameDecoder) (frames : List (List ℕ))
    → feed_bytes bs d frames ≡ prepend frames (feed_bytes bs d [])
feed_bytes-prepend bs d frames =
    ap (feed_bytes bs d) (sym (append-nil frames)) ∙ feed_bytes-append_frames bs d frames []

-- A stream goes on, unless it has ended with an error.
abbrev pub resume : List ℕ → Stream → Stream
resume bs o = elim o.error [
  | none ↦ feed_bytes bs o.decoder o.frames
  | some e ↦ streamed o.decoder o.frames (some e)
]

after_byte-resume :
    (go : NativeTcpFrameDecoder → List (List ℕ) → Stream) (ys : List ℕ) (bs : List ℕ)
    (frames : List (List ℕ)) (r : Round)
    → ((d : NativeTcpFrameDecoder) (fs : List (List ℕ)) → go d fs ≡ resume ys (feed_bytes bs d fs))
    → after_byte go frames r ≡ resume ys (after_byte (feed_bytes bs) frames r)
unfolding after_byte
after_byte-resume go ys bs frames (more d frame rest) h = h d (push frames frame)
after_byte-resume go ys bs frames (failed d e) h = refl

pub feed_bytes-append :
    (xs ys : List ℕ) (d : NativeTcpFrameDecoder) (frames : List (List ℕ))
    → feed_bytes (xs ++ ys) d frames ≡ resume ys (feed_bytes xs d frames)
unfolding feed_bytes
feed_bytes-append [] ys d frames = refl
feed_bytes-append (b ∷ bs) ys d frames =
    after_byte-resume (feed_bytes (bs ++ ys)) ys bs frames (round d (b ∷ []))
      λ d' fs. feed_bytes-append bs ys d' fs

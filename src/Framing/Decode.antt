-- ===== src/Framing/Decode.antt =====
-- crates/protocol/src/framing.rs: `NativeTcpFrameDecoder`. A read of the loop of `feed` is `round`;
-- the loop runs on fuel, `none` when it is used up, of which `feed` gives it the length of the input.
use sinan.Prelude.{
  ℕ, zero, suc, ◌+◌, ◌-◌, ◌*◌, List, [], ◌∷◌, ◌++◌, Bool, true, false, Option, none, some, Result,
  ok, err, length, take, drop, is_empty, is_some, not, ◌||◌, ltb, leb, ◌==◌, if◌then◌else◌,
}

pub data FrameDecodeError : Type 0 where
  poisoned wire_protocol_violation : FrameDecodeError
  frame_too_large : (length max : ℕ) → FrameDecodeError

pub record NativeTcpFrameDecoder : Type 0 where
  pub max_frame_bytes : ℕ
  pub buffer : List ℕ
  pub expected_payload_len : Option ℕ
  pub is_poisoned : Bool

unfoldable pub new : ℕ → NativeTcpFrameDecoder
new max = record {
  max_frame_bytes = max;
  buffer = [];
  expected_payload_len = none;
  is_poisoned = false;
}

unfoldable pub clear : NativeTcpFrameDecoder → NativeTcpFrameDecoder
clear d = record d { buffer = []; expected_payload_len = none; is_poisoned = false }

unfoldable pub has_pending_frame : NativeTcpFrameDecoder → Bool
has_pending_frame d = not (is_empty d.buffer) || is_some d.expected_payload_len

-- `u32::from_be_bytes(buffer[..4])`. The callers have tested that four bytes are there.
unfoldable pub from_be_bytes : List ℕ → ℕ
from_be_bytes (a ∷ b ∷ c ∷ d ∷ _) = ((a * 256 + b) * 256 + c) * 256 + d
from_be_bytes _ = 0

-- The end of one round of the loop: it goes on, with the decoder, a frame that was completed and
-- the input left, or it returns an error.
pub data Round : Type 0 where
  more : NativeTcpFrameDecoder → Option (List ℕ) → List ℕ → Round
  failed : NativeTcpFrameDecoder → FrameDecodeError → Round

abbrev pub min : ℕ → ℕ → ℕ
min a b = if leb a b then a else b

-- `needed.min(input.len())`, where `target - buffer.len()` bytes are needed.
abbrev pub taken : ℕ → NativeTcpFrameDecoder → List ℕ → ℕ
taken target d input = min (target - length d.buffer) (length input)

unfoldable pub payload_read : NativeTcpFrameDecoder → ℕ → List ℕ → List ℕ → Round
payload_read d expected buffer rest =
    if length buffer == expected
    then more (record d { buffer = []; expected_payload_len = none }) (some buffer) rest
    else more (record d { buffer = buffer }) none rest

unfoldable pub prefix_read : NativeTcpFrameDecoder → List ℕ → List ℕ → Round
prefix_read d buffer rest =
    if ltb (length buffer) 4
    then more (record d { buffer = buffer }) none rest
    else if from_be_bytes buffer == 0
    then failed (record d { buffer = buffer; is_poisoned = true })
        FrameDecodeError.wire_protocol_violation
    else if ltb d.max_frame_bytes (from_be_bytes buffer)
    then failed (record d { buffer = buffer; is_poisoned = true })
        (FrameDecodeError.frame_too_large (from_be_bytes buffer) d.max_frame_bytes)
    else more (record d { buffer = []; expected_payload_len = some (from_be_bytes buffer) }) none
        rest

unfoldable pub round_by : Option ℕ → NativeTcpFrameDecoder → List ℕ → Round
round_by (some expected) d input =
    let n = taken expected d input in
    payload_read d expected (d.buffer ++ take n input) (drop n input)
round_by none d input =
    let n = taken 4 d input in prefix_read d (d.buffer ++ take n input) (drop n input)

unfoldable pub round : NativeTcpFrameDecoder → List ℕ → Round
round d input = round_by d.expected_payload_len d input

pub record Fed : Type 0 where
  pub decoder : NativeTcpFrameDecoder
  pub result : Result FrameDecodeError (List (List ℕ))

abbrev pub fed : NativeTcpFrameDecoder → Result FrameDecodeError (List (List ℕ)) → Fed
fed d r = record { decoder = d; result = r }

-- `frames.push`.
abbrev pub push : List (List ℕ) → Option (List ℕ) → List (List ℕ)
push frames none = frames
push frames (some frame) = frames ++ frame ∷ []

unfoldable pub continue_with :
    (NativeTcpFrameDecoder → List (List ℕ) → List ℕ → Option Fed)
    → List (List ℕ)
    → Round
    → Option Fed
continue_with go frames (more d frame rest) = go d (push frames frame) rest
continue_with go frames (failed d e) = some (fed d (err e))

-- `while !input.is_empty()`.
unfoldable pub feed_loop : ℕ → NativeTcpFrameDecoder → List (List ℕ) → List ℕ → Option Fed
feed_loop fuel d frames [] = some (fed d (ok frames))
feed_loop zero d frames (b ∷ bs) = none
feed_loop (suc fuel) d frames (b ∷ bs) = continue_with (feed_loop fuel) frames (round d (b ∷ bs))

unfoldable pub feed : NativeTcpFrameDecoder → List ℕ → Option Fed
feed d bytes =
    if d.is_poisoned
    then some (fed d (err FrameDecodeError.poisoned))
    else feed_loop (length bytes) d [] bytes

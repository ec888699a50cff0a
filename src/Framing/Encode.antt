-- ===== src/Framing/Encode.antt =====
-- crates/protocol/src/framing.rs: `encode_native_tcp_frame`. A byte is a number below 256.
use sinan.Prelude.{
  ℕ, ◌/◌, ◌%◌, List, [], ◌∷◌, ◌++◌, Result, ok, length, is_empty, ltb, u32_max, ◌>>◌, reject_if,
}

pub data FrameEncodeError : Type 0 where
  wire_protocol_violation : FrameEncodeError
  frame_too_large : (length max : ℕ) → FrameEncodeError
  length_overflow : FrameEncodeError

-- `u32::to_be_bytes`.
unfoldable pub to_be_bytes : ℕ → List ℕ
to_be_bytes n = (n / 16777216) % 256 ∷ (n / 65536) % 256 ∷ (n / 256) % 256 ∷ n % 256 ∷ []

unfoldable pub encode_native_tcp_frame : List ℕ → ℕ → Result FrameEncodeError (List ℕ)
encode_native_tcp_frame payload max_frame_bytes = do
  reject_if (is_empty payload) FrameEncodeError.wire_protocol_violation
  reject_if (ltb max_frame_bytes (length payload))
      (FrameEncodeError.frame_too_large (length payload) max_frame_bytes)
  reject_if (ltb u32_max (length payload)) FrameEncodeError.length_overflow
  ok (to_be_bytes (length payload) ++ payload)

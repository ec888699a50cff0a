-- ===== src/Framing/Tests.antt =====
-- crates/protocol/src/framing.rs: the cases of its unit tests, and the theorems applied to them.
use sinan.Prelude.{
  ◌↔◌, ◌<◌, ◌≤◌, u32_max, Bool, Result, length, ◌==◌, if◌then◌else◌, ℕ, List, [], ◌∷◌, true, none,
  some, ok, err, ◌≡◌, refl, concat,
}
use sinan.Framing.Encode.{to_be_bytes, encode_native_tcp_frame}
use sinan.Framing.Decode.{
  payload_read, FrameDecodeError, Fed, fed, new, feed, feed_loop, continue_with, round, round_by,
  prefix_read, from_be_bytes,
}
use sinan.Framing.Bytewise.{Stream, streamed, in_one}
use sinan.Framing.Chunks.{feed-Sound, Sound, new-IsReading}
use sinan.Framing.Reads.{feed_all, feed_all-feed, one_by_one, feed_all-one_by_one, IsCutOf}
use sinan.Framing.Json.{
  JsonDecodeError, FedJson, feed_json, Kept, feed_json-Kept, decode_fed, decode_frames, json_result,
}
use sinan.Framing.RoundTrip.{encode_native_tcp_frame-ok, encode_all, feed_all-encode_all}

abbrev one : List ℕ
one = 111 ∷ 110 ∷ 101 ∷ []

abbrev ok_text : List ℕ
ok_text = 111 ∷ 107 ∷ []

abbrev frame_of_one : List ℕ
frame_of_one = 0 ∷ 0 ∷ 0 ∷ 3 ∷ one

encodes_one : encode_native_tcp_frame one 1024 ≡ ok frame_of_one
unfolding encode_native_tcp_frame to_be_bytes
encodes_one = refl

-- The prefix and two bytes of the payload, then the last byte, then a prefix of zero.
abbrev reads_until_error : List (List ℕ)
reads_until_error = (0 ∷ 0 ∷ []) ∷ (0 ∷ 3 ∷ 111 ∷ 110 ∷ []) ∷ (101 ∷ []) ∷ (0 ∷ 0 ∷ 0 ∷ 0 ∷ []) ∷ []

pending_after_prefix :
    feed (new 1024) (0 ∷ 0 ∷ 0 ∷ 3 ∷ [])
    ≡ some (fed (record (new 1024) { expected_payload_len = some 3 }) (ok []))
unfolding feed feed_loop continue_with round round_by prefix_read from_be_bytes new
pending_after_prefix = refl

oversized :
    feed (new 8) (0 ∷ 0 ∷ 0 ∷ 9 ∷ 120 ∷ [])
    ≡ some (
        fed
          (record (new 8) { buffer = 0 ∷ 0 ∷ 0 ∷ 9 ∷ []; is_poisoned = true })
          (err (FrameDecodeError.frame_too_large 9 8)))
unfolding feed feed_loop continue_with round round_by prefix_read from_be_bytes new
oversized = refl

feed_all-feed_example :
    (o : Stream) × (feed_all reads_until_error (new 1024) [] ≡ some o)
    × (feed (new 1024) (concat reads_until_error) ≡ some (in_one o))
feed_all-feed_example = feed_all-feed reads_until_error (new 1024) (new-IsReading 1024)

-- The frame of the first read stays delivered; a single read delivers only the error.
two_reads :
    feed_all (frame_of_one ∷ (0 ∷ 0 ∷ 0 ∷ 0 ∷ []) ∷ []) (new 1024) []
    ≡ some (
        streamed
          (record (new 1024) { buffer = 0 ∷ 0 ∷ 0 ∷ 0 ∷ []; is_poisoned = true })
          (one ∷ [])
          (some FrameDecodeError.wire_protocol_violation))
unfolding feed_all feed feed_loop continue_with round round_by payload_read prefix_read
    from_be_bytes new
two_reads = refl

single_read :
    feed (new 1024) (concat (frame_of_one ∷ (0 ∷ 0 ∷ 0 ∷ 0 ∷ []) ∷ []))
    ≡ some (
        fed
          (record (new 1024) { buffer = 0 ∷ 0 ∷ 0 ∷ 0 ∷ []; is_poisoned = true })
          (err FrameDecodeError.wire_protocol_violation))
unfolding feed feed_loop continue_with round round_by payload_read prefix_read from_be_bytes new
single_read = refl

feed_all-one_by_one_example :
    (o whole : Stream) × (feed_all reads_until_error (new 1024) [] ≡ some o)
    × (feed_all (one_by_one (concat reads_until_error)) (new 1024) [] ≡ some whole)
    × IsCutOf o whole
feed_all-one_by_one_example = feed_all-one_by_one reads_until_error (new 1024) (new-IsReading 1024)

feed-Sound_example : (o : Fed) × (feed (new 1024) frame_of_one ≡ some o) × Sound 1024 o
feed-Sound_example = feed-Sound (new 1024) frame_of_one (new-IsReading 1024)

encodes_both :
    encode_all 1024 (one ∷ ok_text ∷ []) ≡ ok (frame_of_one ∷ (0 ∷ 0 ∷ 0 ∷ 2 ∷ ok_text) ∷ [])
unfolding encode_all encode_native_tcp_frame to_be_bytes
encodes_both = refl

abbrev both_reads : List (List ℕ)
both_reads =
    (0 ∷ 0 ∷ [])
    ∷ []
    ∷ (0 ∷ 3 ∷ 111 ∷ 110 ∷ 101 ∷ 0 ∷ [])
    ∷ (0 ∷ 0 ∷ 2 ∷ 111 ∷ [])
    ∷ (107 ∷ [])
    ∷ []

feed_all-encode_all_example :
    feed_all both_reads (new 1024) [] ≡ some (streamed (new 1024) (one ∷ ok_text ∷ []) none)
feed_all-encode_all_example =
    feed_all-encode_all 1024 (one ∷ ok_text ∷ []) both_reads encodes_both refl

-- A stand-in for `serde_json::from_slice`: it reads texts of two bytes.
abbrev from_slice : List ℕ → Result ℕ Bool
from_slice text = if length text == 2 then ok true else err 0

feed_json-Kept_example :
    (o : FedJson from_slice) × (feed_json from_slice (new 1024) frame_of_one ≡ some o)
    × Kept from_slice 1024 o
feed_json-Kept_example = feed_json-Kept from_slice (new 1024) frame_of_one (new-IsReading 1024)

-- A frame that is no JSON poisons the decoder.
no_json :
    feed_json from_slice (new 1024) frame_of_one
    ≡ some (record {
      decoder = record (new 1024) { is_poisoned = true };
      result = err (JsonDecodeError.decode 0);
    })
unfolding feed feed_loop continue_with round round_by prefix_read payload_read from_be_bytes new
    feed_json decode_fed decode_frames json_result
no_json = refl

encode_native_tcp_frame-ok_example :
    ((frame : List ℕ) × (encode_native_tcp_frame one 1024 ≡ ok frame))
    ↔ ((0 < length one) × (length one ≤ 1024) × (length one ≤ u32_max))
encode_native_tcp_frame-ok_example = encode_native_tcp_frame-ok one 1024

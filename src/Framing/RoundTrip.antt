-- ===== src/Framing/RoundTrip.antt =====
-- crates/protocol/src/framing.rs: the decoder gives back the payloads that were encoded.
use sinan.Prelude.{
  ◌↔◌, ℕ, suc, ◌+◌, ◌≤◌, ◌<◌, List, [], ◌∷◌, ◌++◌, true, false, none, some, Result, ok, ◌≡◌, refl,
  sym, ◌∙◌, ap, length, length-append, concat, inr, arith, ltb, ◌==◌, is_empty, u32_max, reject_if,
  >>=-eq-ok, reject_if-eq-ok, ok-injective, subst, ◌>>=◌,
}
use mathlib.Core.List.{append_assoc, append-nil}
use sinan.Framing.Encode.{FrameEncodeError, to_be_bytes, encode_native_tcp_frame}
use sinan.Framing.Decode.{
  NativeTcpFrameDecoder, more, payload_read, prefix_read, round_by, round, from_be_bytes, new,
}
use sinan.Framing.Bytewise.{streamed, after_byte, feed_bytes, target}
use sinan.Framing.Feeding.{taken-last, round_by-waits}
use sinan.Framing.Chunks.{new-IsReading, feed_bytes-append, resume}
use sinan.Framing.Reads.{feed_all, feed_all-Cuts, IsCutOf, IsCutOf-streamed}

from_be_bytes-to_be_bytes : (n : ℕ) → n ≤ u32_max → from_be_bytes (to_be_bytes n) ≡ n
unfolding from_be_bytes to_be_bytes
from_be_bytes-to_be_bytes n h = omega arith

-- What an encoded frame is.
encoded :
    (p : List ℕ) (max : ℕ) {frame : List ℕ}
    → encode_native_tcp_frame p max ≡ ok frame
    → (is_empty p ≡ false)
      × (ltb max (length p) ≡ false)
      × (length p ≤ u32_max)
      × (to_be_bytes (length p) ++ p ≡ frame)
unfolding encode_native_tcp_frame
encoded p max h =
    let (u, e, k) = >>=-eq-ok (reject_if (is_empty p) _) _ h in
    let (v, f, l) = >>=-eq-ok (reject_if (ltb max (length p)) _) _ k in
    let (w, g, m) = >>=-eq-ok (reject_if (ltb u32_max (length p)) _) _ l in
    let small = reject_if-eq-ok (ltb u32_max (length p)) _ g in
    (
      reject_if-eq-ok (is_empty p) _ e,
      reject_if-eq-ok (ltb max (length p)) _ f,
      ground arith,
      ok-injective m,
    )

not_below : (limit n : ℕ) → n ≤ limit → ltb limit n ≡ false
not_below limit n h = ground arith

is_empty-length : (p : List ℕ) → (is_empty p ≡ false) ↔ (0 < length p)
is_empty-length [] = ((λ h. cc), λ h. absurd (omega arith))
is_empty-length (b ∷ bs) = ((λ h. omega arith), λ h. refl)

-- A payload is encoded exactly if it is not empty, not longer than the limit, and its length is a
-- `u32`.
pub encode_native_tcp_frame-ok :
    (p : List ℕ) (max : ℕ)
    → ((frame : List ℕ) × (encode_native_tcp_frame p max ≡ ok frame))
      ↔ ((0 < length p) × (length p ≤ max) × (length p ≤ u32_max))
unfolding encode_native_tcp_frame
encode_native_tcp_frame-ok p max = (
  (λ h.
      let (nonempty, fits, small, e) = encoded p max h.1 in
      ((is_empty-length p).0 nonempty, ground arith, small)),
  λ h.
      let fits = not_below max (length p) h.1 in
      let small = not_below u32_max (length p) h.2 in
      (to_be_bytes (length p) ++ p, rw ((is_empty-length p).1 h.0, fits, small)),
)

abbrev in_payload : ℕ → ℕ → List ℕ → NativeTcpFrameDecoder
in_payload max n seen = record {
  max_frame_bytes = max;
  buffer = seen;
  expected_payload_len = some n;
  is_poisoned = false;
}

payload_last :
    (max n b : ℕ) (seen : List ℕ)
    → length seen + 1 ≡ n
    → round (in_payload max n seen) (b ∷ []) ≡ more (new max) (some (seen ++ b ∷ [])) []
unfolding round round_by payload_read new
payload_last max n b seen h =
    rw
      (
        taken-last n (in_payload max n seen) b [] (omega arith) (inr refl),
        length-append seen (b ∷ []),
        full,
      )
      refl
  where
    full : (length seen + 1 == n) ≡ true
    full = ground arith

payload_waits :
    (max n b : ℕ) (seen : List ℕ)
    → length seen + 1 < n
    → round (in_payload max n seen) (b ∷ []) ≡ more (in_payload max n (seen ++ b ∷ [])) none []
unfolding round target
payload_waits max n b seen h = round_by-waits (some n) (in_payload max n seen) b h

feed_bytes-payload :
    (max n b : ℕ) (bs seen : List ℕ) (frames : List (List ℕ))
    → length seen + suc (length bs) ≡ n
    → feed_bytes (b ∷ bs) (in_payload max n seen) frames
      ≡ streamed (new max) (frames ++ (seen ++ b ∷ bs) ∷ []) none
unfolding feed_bytes after_byte
feed_bytes-payload max n b [] seen frames h = rw (payload_last max n b seen (omega arith))
feed_bytes-payload max n b (c ∷ cs) seen frames h = rw (payload_waits max n b seen (omega arith)) (
    feed_bytes-payload max n c cs (seen ++ b ∷ []) frames
      (omega (arith, length-append seen (b ∷ [])))
    ∙ ap (λ s. streamed (new max) (frames ++ s ∷ []) none) (append_assoc seen (b ∷ []) (c ∷ cs)))

prefix_lem :
    (max n : ℕ) (bs : List ℕ) (frames : List (List ℕ))
    → 0 < n
    → ltb max n ≡ false
    → n ≤ u32_max
    → feed_bytes (to_be_bytes n ++ bs) (new max) frames ≡ feed_bytes bs (in_payload max n []) frames
unfolding feed_bytes after_byte to_be_bytes new round round_by prefix_read
prefix_lem max n bs frames some_bytes fits small =
    rw (from_be_bytes-to_be_bytes n small, nonzero, fits)
  where
    nonzero : (n == 0) ≡ false
    nonzero = ground arith

frame_lem :
    (p : List ℕ) (max : ℕ) {frame : List ℕ} (frames : List (List ℕ))
    → encode_native_tcp_frame p max ≡ ok frame
    → feed_bytes frame (new max) frames ≡ streamed (new max) (frames ++ p ∷ []) none
frame_lem [] max frames h = absurd (cc (encoded [] max h).0)
frame_lem (b ∷ bs) max frames h =
    let (nonempty, fits, small, e) = encoded (b ∷ bs) max h in
    ap (λ f. feed_bytes f (new max) frames) (sym e)
    ∙ prefix_lem max (length (b ∷ bs)) (b ∷ bs) frames (omega arith) fits small
    ∙ feed_bytes-payload max (length (b ∷ bs)) b bs [] frames (omega arith)

-- Several payloads, encoded one after the other.
unfoldable pub encode_all : ℕ → List (List ℕ) → Result FrameEncodeError (List (List ℕ))
encode_all max [] = ok []
encode_all max (p ∷ ps) = do
  frame ← encode_native_tcp_frame p max
  frames ← encode_all max ps
  ok (frame ∷ frames)

frames_lem :
    (max : ℕ) (ps done : List (List ℕ)) {frames : List (List ℕ)}
    → encode_all max ps ≡ ok frames
    → feed_bytes (concat frames) (new max) done ≡ streamed (new max) (done ++ ps) none
unfolding encode_all feed_bytes
frames_lem max [] done h =
    subst (λ fs. feed_bytes (concat fs) (new max) done ≡ streamed (new max) (done ++ []) none)
      (ok-injective h) (ap (λ x. streamed (new max) x none) (sym (append-nil done)))
frames_lem max (p ∷ ps) done h =
    let (frame, e, k) = >>=-eq-ok (encode_native_tcp_frame p max) _ h in
    let (frames, e', k') = >>=-eq-ok (encode_all max ps) _ k in
    subst (λ fs. feed_bytes (concat fs) (new max) done ≡ streamed (new max) (done ++ p ∷ ps) none)
      (ok-injective k')
      (feed_bytes-append frame (concat frames) (new max) done
        ∙ ap (resume (concat frames)) (frame_lem p max done e)
        ∙ frames_lem max ps (done ++ p ∷ []) e'
        ∙ ap (λ x. streamed (new max) x none) (append_assoc done (p ∷ []) ps))

-- Payloads that are all encoded are decoded again, in their order and with nothing left over, by a
-- new decoder of the same limit, however the bytes of their frames are cut into reads.
pub feed_all-encode_all :
    (max : ℕ) (ps reads : List (List ℕ)) {frames : List (List ℕ)}
    → encode_all max ps ≡ ok frames
    → concat reads ≡ concat frames
    → feed_all reads (new max) [] ≡ some (streamed (new max) ps none)
feed_all-encode_all max ps reads h k =
    let (o, returns, cut) = feed_all-Cuts reads (new max) [] (new-IsReading max) in
    let whole = ap (λ bytes. feed_bytes bytes (new max) []) k ∙ frames_lem max ps [] h in
    returns ∙ ap some (IsCutOf-streamed (new max) ps (subst (IsCutOf o) whole cut))

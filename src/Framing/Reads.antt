-- ===== src/Framing/Reads.antt =====
-- crates/protocol/src/framing.rs, crates/gateway/src/native_tcp.rs: a stream that is cut into reads.
use sinan.Prelude.{
  ℕ, List, [], ◌∷◌, ◌++◌, Option, none, some, ok, err, ◌≡◌, refl, sym, ◌∙◌, ap, subst, concat,
}
use mathlib.Core.List.{append-nil}
use sinan.Framing.Decode.{
  NativeTcpFrameDecoder, FrameDecodeError, Round, more, failed, Fed, push, round, feed,
}
use sinan.Framing.Bytewise.{
  Stream, streamed, after_byte, feed_bytes, in_one, IsReading, Holds, round-Holds,
}
use sinan.Framing.Feeding.{feed-feed_bytes}
use sinan.Framing.Chunks.{
  Ends, reads_on, breaks, feed_bytes-Ends, prepend, push-append, feed_bytes-prepend, resume,
  feed_bytes-append,
}

-- `pending.extend(decoder.feed(read)?)`, for one read after the other: the frames of a read stay
-- delivered when a later read fails, and a read that fails delivers none.
unfoldable next_read :
    (NativeTcpFrameDecoder → List (List ℕ) → Option Stream)
    → List (List ℕ)
    → Option Fed
    → Option Stream
next_read go frames none = none
next_read go frames (some o) = elim o.result [
  | ok fs ↦ go o.decoder (frames ++ fs)
  | err e ↦ some (streamed o.decoder frames (some e))
]

unfoldable pub feed_all : List (List ℕ) → NativeTcpFrameDecoder → List (List ℕ) → Option Stream
unfolding next_read
feed_all [] d frames = some (streamed d frames none)
feed_all (bytes ∷ later) d frames = next_read (feed_all later) frames (feed d bytes)

-- The stream `o` ends as `whole` does, with the first of its frames; with all of them, if it has no
-- error.
pub record IsCutOf (o whole : Stream) : Type 0 where
  pub decoder : o.decoder ≡ whole.decoder
  pub error : o.error ≡ whole.error
  pub missing : List (List ℕ)
  pub frames : whole.frames ≡ o.frames ++ missing
  pub complete : o.error ≡ none → missing ≡ []

IsCutOf-refl : (o : Stream) → IsCutOf o o
IsCutOf-refl o = record {
  decoder = refl;
  error = refl;
  missing = [];
  frames = sym (append-nil o.frames);
  complete = λ h. refl;
}

abbrev pub Cuts : Option Stream → Stream → Type 0
Cuts stream whole = (o : Stream) × (stream ≡ some o) × IsCutOf o whole

next_read-Cuts :
    {max : ℕ} (go : NativeTcpFrameDecoder → List (List ℕ) → Option Stream) (bs : List ℕ)
    (frames : List (List ℕ)) {w : Stream}
    → Ends max w
    → ((d : NativeTcpFrameDecoder) (fs : List (List ℕ))
        → IsReading max d
        → Cuts (go d fs) (feed_bytes bs d fs))
    → Cuts (next_read go frames (some (in_one w))) (resume bs (prepend frames w))
unfolding next_read
next_read-Cuts go bs frames (reads_on d fs r) h = h d (frames ++ fs) r
next_read-Cuts go bs frames (breaks d fs e p k) h = (
  streamed d frames (some e),
  refl,
  record { decoder = refl; error = refl; missing = fs; frames = refl; complete = λ n. cc },
)

pub feed_all-Cuts :
    {max : ℕ} (reads : List (List ℕ)) (d : NativeTcpFrameDecoder) (frames : List (List ℕ))
    → IsReading max d
    → Cuts (feed_all reads d frames) (feed_bytes (concat reads) d frames)
unfolding feed_all feed_bytes
feed_all-Cuts [] d frames r = (streamed d frames none, refl, IsCutOf-refl (streamed d frames none))
feed_all-Cuts (bytes ∷ later) d frames r =
    let whole =
      feed_bytes-append bytes (concat later) d frames
      ∙ ap (resume (concat later)) (feed_bytes-prepend bytes d frames) in
    rw (feed-feed_bytes d bytes r) (
      subst (Cuts (next_read (feed_all later) frames (some (in_one (feed_bytes bytes d [])))))
        (sym whole)
        (next_read-Cuts (feed_all later) (concat later) frames (feed_bytes-Ends bytes d [] r)
          λ d' fs r'. feed_all-Cuts later d' fs r'))

-- The frames that the end of a stream does not miss.
IsCutOf-frames : {o whole : Stream} → IsCutOf o whole → o.error ≡ none → whole.frames ≡ o.frames
IsCutOf-frames {o} {whole} h e =
    h.frames ∙ ap (λ fs. o.frames ++ fs) (h.complete e) ∙ append-nil o.frames

in_one_by :
    (e : Option FrameDecodeError) (d : NativeTcpFrameDecoder) (xs ys : List (List ℕ))
    → (e ≡ none → ys ≡ xs)
    → in_one (streamed d ys e) ≡ in_one (streamed d xs e)
in_one_by none d xs ys h = ap (λ fs. in_one (streamed d fs none)) (h refl)
in_one_by (some e) d xs ys h = refl

in_one-IsCutOf : {o whole : Stream} → IsCutOf o whole → in_one whole ≡ in_one o
in_one-IsCutOf {o} {whole} h =
    ap (λ d. in_one (streamed d whole.frames whole.error)) (sym h.decoder)
    ∙ ap (λ e. in_one (streamed o.decoder whole.frames e)) (sym h.error)
    ∙ in_one_by o.error o.decoder o.frames whole.frames (IsCutOf-frames h)

pub IsCutOf-streamed :
    {o : Stream} (d : NativeTcpFrameDecoder) (frames : List (List ℕ))
    → IsCutOf o (streamed d frames none)
    → o ≡ streamed d frames none
IsCutOf-streamed {o} d frames h =
    ap (λ d. streamed d o.frames o.error) h.decoder
    ∙ ap (λ e. streamed d o.frames e) h.error
    ∙ ap (λ fs. streamed d fs none) (sym (IsCutOf-frames h h.error))

-- From a decoder that reads, with `max` as its limit, however a stream is cut into reads: the reads
-- give together some frames, or some frames and then an error; and a single read of all the bytes
-- gives the same decoder and the same frames, or no frames and the same error.
pub feed_all-feed :
    {max : ℕ} (reads : List (List ℕ)) (d : NativeTcpFrameDecoder)
    → IsReading max d
    → (o : Stream) × (feed_all reads d [] ≡ some o) × (feed d (concat reads) ≡ some (in_one o))
feed_all-feed reads d r =
    let (o, returns, cut) = feed_all-Cuts reads d [] r in
    (o, returns, feed-feed_bytes d (concat reads) r ∙ ap some (in_one-IsCutOf cut))

abbrev pub one_by_one : List ℕ → List (List ℕ)
one_by_one [] = []
one_by_one (b ∷ bs) = (b ∷ []) ∷ one_by_one bs

next_read-byte :
    {max : ℕ} (go : NativeTcpFrameDecoder → List (List ℕ) → Option Stream) (bs : List ℕ)
    (frames : List (List ℕ)) (r : Round)
    → Holds max r
    → ((d : NativeTcpFrameDecoder) (fs : List (List ℕ))
        → IsReading max d
        → go d fs ≡ some (feed_bytes bs d fs))
    → next_read go frames (some (in_one (after_byte (feed_bytes []) [] r)))
      ≡ some (after_byte (feed_bytes bs) frames r)
unfolding next_read after_byte feed_bytes
next_read-byte go bs frames (more d frame rest) h k =
    k d (frames ++ push [] frame) h
    ∙ ap (λ fs. some (feed_bytes bs d fs))
        (sym (push-append frames [] frame) ∙ ap (λ fs. push fs frame) (append-nil frames))
next_read-byte go bs frames (failed d e) h k = refl

one_by_one-feed_bytes :
    {max : ℕ} (bs : List ℕ) (d : NativeTcpFrameDecoder) (frames : List (List ℕ))
    → IsReading max d
    → feed_all (one_by_one bs) d frames ≡ some (feed_bytes bs d frames)
unfolding feed_all feed_bytes
one_by_one-feed_bytes [] d frames r = refl
one_by_one-feed_bytes (b ∷ bs) d frames r =
    ap (next_read (feed_all (one_by_one bs)) frames) (feed-feed_bytes d (b ∷ []) r)
    ∙ next_read-byte (feed_all (one_by_one bs)) bs frames (round d (b ∷ []))
        (round-Holds d (b ∷ []) r) (λ d' fs r'. one_by_one-feed_bytes bs d' fs r')

-- From a decoder that reads, however a stream is cut into reads, its reads end with the same decoder
-- and the same error, or none, as the same bytes that are read one at a time; the frames that they
-- deliver are the first of those that the single bytes deliver, and all of them if there is no error.
pub feed_all-one_by_one :
    {max : ℕ} (reads : List (List ℕ)) (d : NativeTcpFrameDecoder)
    → IsReading max d
    → (o whole : Stream) × (feed_all reads d [] ≡ some o)
      × (feed_all (one_by_one (concat reads)) d [] ≡ some whole)
      × IsCutOf o whole
feed_all-one_by_one reads d r =
    let (o, returns, cut) = feed_all-Cuts reads d [] r in
    (o, feed_bytes (concat reads) d [], returns, one_by_one-feed_bytes (concat reads) d [] r, cut)

-- ===== src/Framing/Json.antt =====
-- crates/protocol/src/framing.rs: `feed_json`, which reads each frame as JSON. `serde_json::from_slice`
-- is the parameter `from_slice`.
use sinan.Prelude.{
  ℕ, List, [], ◌∷◌, Bool, true, Option, none, some, Result, ok, err, ◌>>=◌, ◌≡◌, refl, inl, inr,
  ◌⊎◌, if◌then◌else◌,
}
use sinan.Framing.Decode.{NativeTcpFrameDecoder, FrameDecodeError, Fed, fed, feed, clear, new}
use sinan.Framing.Bytewise.{IsReading}
use sinan.Framing.Chunks.{Sound, reading, dead, feed-Sound, new-IsReading}

-- `FrameDecodeError`, whose variant `Decode` carries an error of `serde_json`.
pub data JsonDecodeError (E : Type 0) : Type 0 where
  framing : FrameDecodeError → JsonDecodeError E
  decode : E → JsonDecodeError E

if_yes {ℓ} : {A : Type ℓ} (b : Bool) (x y : A) → b ≡ true → (if b then x else y) ≡ x
if_yes b x y h = rw h

refused :
    (d : NativeTcpFrameDecoder) (later : List ℕ)
    → d.is_poisoned ≡ true
    → feed d later ≡ some (fed d (err FrameDecodeError.poisoned))
unfolding feed
refused d later h = if_yes d.is_poisoned _ _ h

module _ {E T : Type 0} (from_slice : List ℕ → Result E T) where
  pub record FedJson : Type 0 where
    pub decoder : NativeTcpFrameDecoder
    pub result : Result (JsonDecodeError E) (List T)

  -- The loop over the frames, up to the first that is no JSON of the type.
  unfoldable pub decode_frames : List (List ℕ) → Result E (List T)
  decode_frames [] = ok []
  decode_frames (frame ∷ frames) = do
    value ← from_slice frame
    values ← decode_frames frames
    ok (value ∷ values)

  unfoldable pub json_result : NativeTcpFrameDecoder → Result E (List T) → FedJson
  json_result d (ok values) = record { decoder = d; result = ok values }
  json_result d (err e) = record {
    decoder = record d { is_poisoned = true };
    result = err (JsonDecodeError.decode e);
  }

  unfoldable pub decode_fed :
      NativeTcpFrameDecoder → Result FrameDecodeError (List (List ℕ)) → FedJson
  decode_fed d (ok frames) = json_result d (decode_frames frames)
  decode_fed d (err e) = record { decoder = d; result = err (JsonDecodeError.framing e) }

  unfoldable pub feed_json : NativeTcpFrameDecoder → List ℕ → Option FedJson
  feed_json d bytes = elim (feed d bytes) [
    | none ↦ none
    | some o ↦ some (decode_fed o.decoder o.result)
  ]

  -- What a call of `feed_json` leaves: values and a decoder that reads; or an error, after which
  -- every later call is refused without a change, until `clear` makes the decoder read again.
  pub Kept : ℕ → FedJson → Type 0
  Kept max o =
      ((values : List T) × (o.result ≡ ok values) × IsReading max o.decoder)
      ⊎ ((e : JsonDecodeError E) × (o.result ≡ err e)
          × ((later : List ℕ)
              → feed_json o.decoder later
                ≡ some (record {
                  decoder = o.decoder;
                  result = err (JsonDecodeError.framing FrameDecodeError.poisoned);
                }))
          × IsReading o.decoder.max_frame_bytes (clear o.decoder))

  poisoned_refuses :
      (d : NativeTcpFrameDecoder) (later : List ℕ)
      → d.is_poisoned ≡ true
      → feed_json d later
        ≡ some (record {
          decoder = d;
          result = err (JsonDecodeError.framing FrameDecodeError.poisoned);
        })
  unfolding feed_json decode_fed
  poisoned_refuses d later h = rw (refused d later h, feed_json)

  stopped_lem :
      (max : ℕ) (d : NativeTcpFrameDecoder) (e : JsonDecodeError E)
      → d.is_poisoned ≡ true
      → Kept max (record { decoder = d; result = err e })
  unfolding Kept clear new
  stopped_lem max d e h =
      inr (e, refl, (λ later. poisoned_refuses d later h), new-IsReading d.max_frame_bytes)

  json_result-Kept :
      {max : ℕ} (d : NativeTcpFrameDecoder) (r : Result E (List T))
      → IsReading max d
      → Kept max (json_result d r)
  unfolding Kept json_result
  json_result-Kept d (ok values) h = inl (values, refl, h)
  json_result-Kept d (err e) h =
      stopped_lem _ (record d { is_poisoned = true }) (JsonDecodeError.decode e) refl

  decode_fed-Kept : {max : ℕ} (o : Fed) → Sound max o → Kept max (decode_fed o.decoder o.result)
  unfolding decode_fed
  decode_fed-Kept _ (reading d frames r) = json_result-Kept d (decode_frames frames) r
  decode_fed-Kept _ (dead d e p k) = stopped_lem _ d (JsonDecodeError.framing e) p

  -- From a decoder that reads, `feed_json` always returns, whatever the JSON reader does, and what it
  -- leaves is `Kept`: values and a decoder that reads; or an error, after which every later call is
  -- refused without a change, until `clear` makes the decoder read again.
  pub feed_json-Kept :
      {max : ℕ} (d : NativeTcpFrameDecoder) (bytes : List ℕ)
      → IsReading max d
      → (o : FedJson) × (feed_json d bytes ≡ some o) × Kept max o
  unfolding feed_json
  feed_json-Kept d bytes r =
      let (o, e, s) = feed-Sound d bytes r in
      (decode_fed o.decoder o.result, rw (e, feed_json), decode_fed-Kept o s)

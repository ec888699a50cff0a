-- ===== src/Sessions/Writing.antt =====
-- crates/gateway/src/registry.rs, crates/gateway/src/sink.rs: `LiveSessionHandle::write`, when no other
-- thread moves the word, over a sink that is a parameter.
use sinan.Prelude.{
  ℕ, ◌+◌, ◌*◌, ◌<◌, String, true, false, Option, none, some, List, ◌==◌, ◌≡◌, refl, ◌⊎◌, inl, inr,
  str_eq, str_ne, if◌then◌else◌, arith, Bool-cases,
}
use sinan.Sessions.Gate.{
  fenced_bit, writer_mask, word_is_fenced, writers_of, release_word, starting, trying, admitted,
  refused, released, admission,
}
use sinan.Sessions.Registry.{LiveSessionHandle, is_fenced}

pub record OutboundFrame : Type 0 where
  pub session_id : String
  pub message_id : String
  pub sequence : ℕ
  pub wire_bytes : List ℕ

pub data SinkWriteOutcome : Type 0 where
  written : SinkWriteOutcome
  backpressure : (queue_depth : ℕ) → SinkWriteOutcome
  definitely_not_written : (error : String) → SinkWriteOutcome
  unconfirmed : (error : String) → SinkWriteOutcome

-- The word after `acquire_write`, if it gives a permit.
unfoldable pub acquire_write : ℕ → Option ℕ
acquire_write word = elim (admission word) [
  | starting ↦ none
  | trying current ↦ some (current + 1)
  | admitted ↦ none
  | refused ↦ none
  | released ↦ none
]

-- The frame that the sink was given, if any, the outcome, and the word that the permit leaves.
pub record Written : Type 0 where
  pub passed_on : Option OutboundFrame
  pub outcome : SinkWriteOutcome
  pub word : ℕ

unfoldable pub permitted_write :
    (OutboundFrame → SinkWriteOutcome) → LiveSessionHandle → OutboundFrame → Option ℕ → Written
permitted_write sink h frame none = record {
  passed_on = none;
  outcome = definitely_not_written "session transport was fenced before write admission";
  word = h.word;
}
permitted_write sink h frame (some permit) = record {
  passed_on = some frame;
  outcome = sink frame;
  word = release_word permit;
}

unfoldable pub write :
    (OutboundFrame → SinkWriteOutcome) → LiveSessionHandle → OutboundFrame → Written
write sink h frame =
    if str_ne frame.session_id h.session_id
    then record {
      passed_on = none;
      outcome = definitely_not_written "outbound frame session differs from live transport epoch";
      word = h.word;
    }
    else permitted_write sink h frame (acquire_write h.word)

-- Whether the handle takes the frame.
abbrev pub Takes : LiveSessionHandle → OutboundFrame → Type 0
Takes h frame =
    (str_eq frame.session_id h.session_id ≡ true)
    × (is_fenced h ≡ false)
    × ((writers_of h.word == writer_mask) ≡ false)

acquire-cases :
    (word : ℕ)
    → (word_is_fenced word ≡ false)
        × ((writers_of word == writer_mask) ≡ false)
        × (acquire_write word ≡ some (word + 1))
      ⊎ ((word_is_fenced word ≡ false → (writers_of word == writer_mask) ≡ true)
          × (acquire_write word ≡ none))
unfolding acquire_write admission
acquire-cases word = ground arith

-- `skip`: the sequence number that the sink is told to skip, if any.
unfoldable pub skip : LiveSessionHandle → ℕ → Option ℕ
skip h sequence = if is_fenced h then none else some sequence

-- What a refusal shows: nothing was passed on, and the sender is told so.
abbrev pub IsRefused : Written → Type 0
IsRefused w = (w.passed_on ≡ none) × ((error : String) × (w.outcome ≡ definitely_not_written error))

release-next : (word : ℕ) → word < 2 * fenced_bit → release_word (word + 1) ≡ word
unfolding release_word
release-next word h = omega arith

-- A write that no other thread disturbs leaves the word as it was. If the frame is for the handle's
-- session, the handle is not fenced and the count of its writers is not full, the sink is given the
-- frame and decides the outcome; otherwise the sink is given nothing, and the outcome says that
-- nothing was written.
pub write-Takes :
    (sink : OutboundFrame → SinkWriteOutcome) (h : LiveSessionHandle) (frame : OutboundFrame)
    → h.word < 2 * fenced_bit
    → ((write sink h frame).word ≡ h.word)
      × ((Takes h frame
            × ((write sink h frame).passed_on ≡ some frame)
            × ((write sink h frame).outcome ≡ sink frame))
          ⊎ (¬ Takes h frame × IsRefused (write sink h frame)))
unfolding write permitted_write is_fenced
write-Takes sink h frame b = elim (Bool-cases (str_eq frame.session_id h.session_id)) [
  | inr e ↦ rw e (refl, inr ((λ t. cc), (refl, (_, refl))))
  | inl e ↦ elim (acquire-cases h.word) [
    | inl (live, room, k) ↦ rw (e, k) (release-next h.word b, inl ((refl, live, room), refl, refl))
    | inr (full, k) ↦
        rw (e, k) (refl, inr ((λ t. let f = full t.1 in let r = t.2 in cc), (refl, (_, refl))))
  ]
]

-- ===== src/Sessions/Fencing.antt =====
-- crates/gateway/src/registry.rs: a fence that is set admits no further write.
use sinan.Prelude.{
  ℕ, zero, suc, ◌+◌, ◌<◌, true, false, List, [], ◌∷◌, ◌==◌, ◌≡◌, refl, subst, if◌then◌else◌, arith,
  All,
}
use sinan.Sessions.Gate.{
  writer_mask, word_is_fenced, Writer, starting, trying, admitted, refused, released, admission,
  WriterAction, load, exchange, exchange_spuriously, drop_permit, write_step, GateEvent, fence, act,
  Gate, act_at, gate_step, gate_run,
}
use sinan.Sessions.Steps.{Sound}
use sinan.Sessions.Admission.{
  IsCounted, gate_step-IsCounted, gate_step-is_fenced, is_fence, new_gate, new_gate-IsCounted,
  gate_run-IsCounted,
}

-- The threads that hold a permit later held it before.
unfoldable pub NoneNew : List Writer → List Writer → Type 0
NoneNew [] [] = Unit
NoneNew [] (v ∷ vs) = ⊥
NoneNew (w ∷ ws) [] = ⊥
NoneNew (w ∷ ws) (v ∷ vs) = (v ≡ admitted → w ≡ admitted) × NoneNew ws vs

NoneNew-refl : (ws : List Writer) → NoneNew ws ws
unfolding NoneNew
NoneNew-refl [] = tt
NoneNew-refl (w ∷ ws) = ((λ e. e), NoneNew-refl ws)

NoneNew-trans : (us vs ws : List Writer) → NoneNew us vs → NoneNew vs ws → NoneNew us ws
unfolding NoneNew
NoneNew-trans [] [] ws h k = k
NoneNew-trans [] (v ∷ vs) ws h k = absurd h
NoneNew-trans (u ∷ us) [] ws h k = absurd h
NoneNew-trans (u ∷ us) (v ∷ vs) [] h k = absurd k
NoneNew-trans (u ∷ us) (v ∷ vs) (w ∷ ws) (a, h) (b, k) =
    ((λ e. a (b e)), NoneNew-trans us vs ws h k)

admission-not_admitted : (word : ℕ) → ¬ (admission word ≡ admitted)
unfolding admission
admission-not_admitted word h = ground arith

fenced_ne :
    (word current : ℕ)
    → word_is_fenced word ≡ true
    → current < writer_mask
    → (word == current) ≡ false
fenced_ne word current f s = ground arith

write_step-none_new :
    (a : WriterAction) (word : ℕ) (w : Writer)
    → word_is_fenced word ≡ true
    → Sound w
    → (write_step a word w).1 ≡ admitted
    → w ≡ admitted
unfolding write_step Sound
write_step-none_new load word w f s h = ground (arith, admission-not_admitted word)
write_step-none_new exchange word starting f s h = h
write_step-none_new exchange word (trying c) f s h = absurd (
    admission-not_admitted word (
      subst
        (λ b.
          (if◌then◌else◌ {A = ℕ × Writer} b (c + 1, admitted) (word, admission word)).1 ≡ admitted)
        (fenced_ne word c f s) h))
write_step-none_new exchange word admitted f s h = refl
write_step-none_new exchange word refused f s h = h
write_step-none_new exchange word released f s h = h
write_step-none_new exchange_spuriously word w f s h = ground (arith, admission-not_admitted word)
write_step-none_new drop_permit word w f s h = ground arith

act_at-NoneNew :
    (i : ℕ) (a : WriterAction) (word : ℕ) (ws : List Writer)
    → word_is_fenced word ≡ true
    → All Sound ws
    → NoneNew ws (act_at i a word ws).1
unfolding act_at NoneNew
act_at-NoneNew i a word [] f s = tt
act_at-NoneNew zero a word (w ∷ ws) f (s, ss) = (write_step-none_new a word w f s, NoneNew-refl ws)
act_at-NoneNew (suc i) a word (w ∷ ws) f (s, ss) = ((λ e. e), act_at-NoneNew i a word ws f ss)

gate_step-NoneNew :
    (e : GateEvent) (g : Gate)
    → IsCounted g
    → word_is_fenced g.word ≡ true
    → NoneNew g.writers (gate_step e g).writers
unfolding gate_step
gate_step-NoneNew fence g h f = NoneNew-refl g.writers
gate_step-NoneNew (act i a) g h f = act_at-NoneNew i a g.word g.writers f h.sound

fenced_run :
    (es : List GateEvent) (g : Gate)
    → IsCounted g
    → word_is_fenced g.word ≡ true
    → NoneNew g.writers (gate_run es g).writers × (word_is_fenced (gate_run es g).word ≡ true)
unfolding gate_run
fenced_run [] g h f = (NoneNew-refl g.writers, f)
fenced_run (e ∷ es) g h f =
    let (n, k) =
      fenced_run es (gate_step e g) (gate_step-IsCounted e g h)
        (ground (arith, gate_step-is_fenced e g h)) in
    (NoneNew-trans g.writers _ _ (gate_step-NoneNew e g h f) n, k)

-- A fence after the events `before` of n threads.
abbrev pub fenced_gate : ℕ → List GateEvent → Gate
fenced_gate n before = gate_step fence (gate_run before (new_gate n))

-- From a fence on, whatever the threads did before it and do after it, no thread is admitted that did
-- not hold its permit when the fence was set, and the word stays fenced.
pub fence-NoneNew :
    (n : ℕ) (before after : List GateEvent)
    → NoneNew (fenced_gate n before).writers (gate_run after (fenced_gate n before)).writers
      × (word_is_fenced (gate_run after (fenced_gate n before)).word ≡ true)
unfolding is_fence
fence-NoneNew n before after =
    let (h, _) = gate_run-IsCounted before (new_gate n) (new_gate-IsCounted n) in
    let g = gate_run before (new_gate n) in
    fenced_run after (gate_step fence g) (gate_step-IsCounted fence g h)
      (gate_step-is_fenced fence g h)

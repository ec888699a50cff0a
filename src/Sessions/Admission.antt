-- ===== src/Sessions/Admission.antt =====
-- crates/gateway/src/registry.rs: fencing against the admission of writes, over all interleavings.
use sinan.Prelude.{
  ℕ, zero, suc, ◌+◌, ◌*◌, ◌/◌, ◌%◌, ◌≤◌, ◌<◌, Bool, true, false, ◌||◌, List, [], ◌∷◌, ◌==◌, ◌≡◌,
  refl, sym, ap, ◌∙◌, arith, All, any,
}
use sinan.Sessions.Gate.{
  fenced_bit, word_is_fenced, writers_of, fence_word, Writer, starting, WriterAction, GateEvent,
  fence, act, Gate, act_at, gate_step, gate_run,
}
use sinan.Sessions.Steps.{permits, all_permits, Sound, write_step-Moved}

pub record Acted (word word' : ℕ) (ws ws' : List Writer) : Type 0 where
  pub bounded : word' < 2 * fenced_bit
  pub fence_kept : word / fenced_bit ≡ word' / fenced_bit
  pub counted : writers_of word' + all_permits ws ≡ writers_of word + all_permits ws'
  pub sound : All Sound ws'

pub act_at-Acted :
    (i : ℕ) (a : WriterAction) (word : ℕ) (ws : List Writer)
    → word < 2 * fenced_bit
    → all_permits ws ≤ writers_of word
    → All Sound ws
    → Acted word (act_at i a word ws).0 ws (act_at i a word ws).1
unfolding act_at all_permits
act_at-Acted i a word [] b p s = record {
  bounded = b;
  fence_kept = refl;
  counted = refl;
  sound = tt;
}
act_at-Acted zero a word (w ∷ ws) b p (s, ss) =
    let m = write_step-Moved a word w b (omega (arith, p)) s in
    record {
      bounded = m.bounded;
      fence_kept = m.fence_kept;
      counted = omega (arith, m.counted);
      sound = (m.sound, ss);
    }
act_at-Acted (suc i) a word (w ∷ ws) b p (s, ss) =
    let m = act_at-Acted i a word ws b (omega (arith, p)) ss in
    record {
      bounded = m.bounded;
      fence_kept = m.fence_kept;
      counted = omega (arith, m.counted);
      sound = (s, m.sound);
    }

-- The word counts the permits.
pub record IsCounted (g : Gate) : Type 0 where
  pub bounded : g.word < 2 * fenced_bit
  pub counted : writers_of g.word ≡ all_permits g.writers
  pub sound : All Sound g.writers

fence_word-fences :
    (word : ℕ)
    → word < 2 * fenced_bit
    → (fence_word word < 2 * fenced_bit)
      × (writers_of (fence_word word) ≡ writers_of word)
      × (word_is_fenced (fence_word word) ≡ true)
unfolding fence_word
fence_word-fences word h = ground arith

pub gate_step-IsCounted : (e : GateEvent) (g : Gate) → IsCounted g → IsCounted (gate_step e g)
unfolding gate_step
gate_step-IsCounted fence g h =
    let (b, c, _) = fence_word-fences g.word h.bounded in
    record { bounded = b; counted = c ∙ h.counted; sound = h.sound }
gate_step-IsCounted (act i a) g h =
    let m = act_at-Acted i a g.word g.writers h.bounded (omega (arith, h.counted)) h.sound in
    record { bounded = m.bounded; counted = omega (arith, m.counted, h.counted); sound = m.sound }

unfoldable pub is_fence : GateEvent → Bool
is_fence fence = true
is_fence (act i a) = false

pub gate_step-is_fenced :
    (e : GateEvent) (g : Gate)
    → IsCounted g
    → word_is_fenced (gate_step e g).word ≡ (is_fence e || word_is_fenced g.word)
unfolding gate_step is_fence
gate_step-is_fenced fence g h = let (_, _, f) = fence_word-fences g.word h.bounded in f
gate_step-is_fenced (act i a) g h =
    let m = act_at-Acted i a g.word g.writers h.bounded (omega (arith, h.counted)) h.sound in
    ap (λ (q : ℕ). q % 2 == 1) (sym m.fence_kept)

-- Threads that have not begun to write.
unfoldable pub new_writers : ℕ → List Writer
new_writers zero = []
new_writers (suc n) = starting ∷ new_writers n

abbrev pub new_gate : ℕ → Gate
new_gate n = record { word = 0; writers = new_writers n }

pub new_gate-IsCounted : (n : ℕ) → IsCounted (new_gate n)
unfolding new_writers all_permits permits Sound
new_gate-IsCounted zero = record { bounded = omega arith; counted = refl; sound = tt }
new_gate-IsCounted (suc n) =
    let h = new_gate-IsCounted n in
    record { bounded = h.bounded; counted = omega (arith, h.counted); sound = (tt, h.sound) }

pub gate_run-IsCounted :
    (es : List GateEvent) (g : Gate)
    → IsCounted g
    → IsCounted (gate_run es g)
      × (word_is_fenced (gate_run es g).word ≡ (any is_fence es || word_is_fenced g.word))
unfolding gate_run
gate_run-IsCounted [] g h = (h, refl)
gate_run-IsCounted (e ∷ es) g h =
    let (k, f) = gate_run-IsCounted es (gate_step e g) (gate_step-IsCounted e g h) in
    (k, ground (arith, f, gate_step-is_fenced e g h))

-- Whatever the interleaving of the threads and of the fences, the low bits of the word count exactly the
-- permits that are held, the count does not carry into the fence bit, and that bit is set exactly if a
-- fence has happened.
pub gate_run-counts :
    (n : ℕ) (es : List GateEvent)
    → ((gate_run es (new_gate n)).word < 2 * fenced_bit)
      × (writers_of (gate_run es (new_gate n)).word
          ≡ all_permits (gate_run es (new_gate n)).writers)
      × (word_is_fenced (gate_run es (new_gate n)).word ≡ any is_fence es)
gate_run-counts n es =
    let (h, f) = gate_run-IsCounted es (new_gate n) (new_gate-IsCounted n) in
    (h.bounded, h.counted, ground (arith, f))

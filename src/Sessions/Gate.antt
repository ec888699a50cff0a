-- ===== src/Sessions/Gate.antt =====
-- crates/gateway/src/registry.rs: the atomic word of a `LiveSessionHandle`, on a machine of 64 bits,
-- and the writers that it admits. Each atomic operation of a thread is one event; the threads stand in
-- a list, and an event names the one that moves.
use sinan.Prelude.{ℕ, zero, suc, ◌+◌, ◌-◌, ◌*◌, ◌/◌, ◌%◌, Bool, List, [], ◌∷◌, ◌==◌, if◌then◌else◌}

abbrev pub fenced_bit : ℕ
fenced_bit = 9223372036854775808

abbrev pub writer_mask : ℕ
writer_mask = 9223372036854775807

-- `word & FENCED_BIT != 0`.
abbrev pub word_is_fenced : ℕ → Bool
word_is_fenced word = word / fenced_bit % 2 == 1

-- `word & WRITER_MASK`.
abbrev pub writers_of : ℕ → ℕ
writers_of word = word % fenced_bit

-- `fetch_or(FENCED_BIT)`.
unfoldable pub fence_word : ℕ → ℕ
fence_word word = if word_is_fenced word then word else word + fenced_bit

-- `fetch_sub(1)`, which wraps.
unfoldable pub release_word : ℕ → ℕ
release_word word = (word + (2 * fenced_bit - 1)) % (2 * fenced_bit)

-- Where a thread stands in `acquire_write` and in the life of its permit.
pub data Writer : Type 0 where
  starting : Writer
  trying : (current : ℕ) → Writer
  admitted : Writer
  refused : Writer
  released : Writer

-- The head of the loop, once `current` is loaded or observed.
unfoldable pub admission : ℕ → Writer
admission current =
    if word_is_fenced current
    then refused
    else if writers_of current == writer_mask
    then refused
    else trying current

pub data WriterAction : Type 0 where
  load : WriterAction
  exchange : WriterAction
  exchange_spuriously : WriterAction  -- a weak exchange may fail though the word is `current`
  drop_permit : WriterAction

-- What an action makes of the word and of the thread. A thread takes the actions that stand next in its
-- code, and no others.
unfoldable pub write_step : WriterAction → ℕ → Writer → ℕ × Writer
write_step load word starting = (word, admission word)
write_step exchange word (trying current) =
    if word == current then (current + 1, admitted) else (word, admission word)
write_step exchange_spuriously word (trying current) = (word, admission word)
write_step drop_permit word admitted = (release_word word, released)
write_step _ word writer = (word, writer)

pub data GateEvent : Type 0 where
  fence : GateEvent
  act : ℕ → WriterAction → GateEvent

pub record Gate : Type 0 where
  pub word : ℕ
  pub writers : List Writer

unfoldable pub act_at : ℕ → WriterAction → ℕ → List Writer → ℕ × List Writer
act_at i action word [] = (word, [])
act_at zero action word (w ∷ ws) = let moved = write_step action word w in (moved.0, moved.1 ∷ ws)
act_at (suc i) action word (w ∷ ws) = let moved = act_at i action word ws in (moved.0, w ∷ moved.1)

unfoldable pub gate_step : GateEvent → Gate → Gate
gate_step fence g = record g { word = fence_word g.word }
gate_step (act i action) g =
    let moved = act_at i action g.word g.writers in record { word = moved.0; writers = moved.1 }

unfoldable pub gate_run : List GateEvent → Gate → Gate
gate_run [] g = g
gate_run (e ∷ es) g = gate_run es (gate_step e g)

-- ===== src/Write/Slots.antt =====
-- src/write.rs: `Slot`, one destination, and `Slot::poll`, its state machine.
use carbon_io.Prelude.{
  ℕ, ◌+◌, Bool, true, false, ◌||◌, Option, none, some, ltb, ◌==◌, if◌then◌else◌, Result, ok, err,
  Poll, ready, pending,
}
use carbon_io.Budget.{Waker}
use carbon_io.Traits.{WriteFile}
use carbon_io.Write.Frames.{Frames, new_frames, next, accepted, clear}

-- `FileState<R>`.
pub data FileState (O : Type 0) : Type 0 where
  idle : FileState O
  opening : FileState O
  writing : FileState O
  closing : FileState O
  closed : O → FileState O

pub record Slot (T F O : Type 0) : Type 0 where
  pub file : F
  pub state : FileState O
  pub frames : Frames T
  pub capacity : ℕ
  pub assigned : ℕ
  pub written : ℕ
  pub retries : ℕ

-- The slot after a poll, whether it changed with the capacity that it releases, or the error.
pub record SlotPolled (T F E O : Type 0) : Type 0 where
  pub slot : Slot T F O
  pub result : Result (Bool × ℕ) E

abbrev pub is_closed : {O : Type 0} → FileState O → Bool
is_closed (closed output) = true
is_closed _ = false

module _ {T F E O : Type 0} where
  abbrev pub unchanged : Slot T F O → SlotPolled T F E O
  unchanged slot = record { slot = slot; result = ok (false, 0) }

  abbrev pub changed : Slot T F O → ℕ → SlotPolled T F E O
  changed slot released = record { slot = slot; result = ok (true, released) }

  -- The end of `poll`, which the errors of all three backend operations reach.
  unfoldable pub retry : Slot T F O → E → ℕ → SlotPolled T F E O
  retry slot error max_retries =
      if slot.retries == max_retries
      then record { slot = slot; result = err error }
      else changed (record slot { retries = slot.retries + 1; written = 0; state = opening }) 0

  unfoldable pub after_open : Slot T F O → ℕ → Poll (Result (Unit {0}) E) → SlotPolled T F E O
  unfolding retry
  after_open slot max_retries pending = unchanged slot
  after_open slot max_retries (ready (ok _)) = changed (record slot { state = writing }) 0
  after_open slot max_retries (ready (err error)) = retry slot error max_retries

  unfoldable pub after_write : Slot T F O → ℕ → Poll (Result (Unit {0}) E) → SlotPolled T F E O
  unfolding retry accepted
  after_write slot max_retries pending = unchanged slot
  after_write slot max_retries (ready (ok _)) =
      let (frames, released) = accepted slot.frames in
      changed (record slot { written = slot.written + 1; frames = frames }) released
  after_write slot max_retries (ready (err error)) = retry slot error max_retries

  unfoldable pub after_close : Slot T F O → ℕ → Poll (Result O E) → SlotPolled T F E O
  unfolding retry clear
  after_close slot max_retries pending = unchanged slot
  after_close slot max_retries (ready (ok output)) =
      changed (record slot { state = closed output; frames = clear slot.frames })
        (if ltb 0 max_retries then slot.capacity else 0)
  after_close slot max_retries (ready (err error)) = retry slot error max_retries

module _ {T F E O : Type 0} (file : WriteFile T F E O) where
  -- `Slot::new`.
  unfoldable pub new_slot : F → Bool → Slot T F O
  unfolding new_frames
  new_slot f keep = record {
    file = f;
    state = idle;
    frames = new_frames keep;
    capacity = file.frame_capacity f;
    assigned = 0;
    written = 0;
    retries = 0;
  }

  unfoldable pub poll_writing : Slot T F O → Waker → Bool → ℕ → Option T → SlotPolled T F E O
  unfolding after_write
  poll_writing slot cx stop max_retries (some frame) =
      let (f, answer) = file.poll_write slot.file cx frame in
      after_write (record slot { file = f }) max_retries answer
  poll_writing slot cx stop max_retries none =
      if slot.assigned == slot.capacity || stop
      then changed (record slot { state = closing }) 0
      else unchanged slot

  unfoldable pub poll_state : Slot T F O → FileState O → Waker → Bool → ℕ → SlotPolled T F E O
  unfolding after_open poll_writing next after_close
  poll_state slot opening cx stop max_retries =
      let (f, answer) = file.poll_open slot.file cx in
      after_open (record slot { file = f }) max_retries answer
  poll_state slot writing cx stop max_retries =
      poll_writing slot cx stop max_retries (next slot.frames slot.written)
  poll_state slot closing cx stop max_retries =
      let (f, answer) = file.poll_close slot.file cx in
      after_close (record slot { file = f }) max_retries answer
  poll_state slot _ cx stop max_retries = unchanged slot

  -- `Slot::poll`; `stop` is its argument `closing`.
  unfoldable pub poll_slot : Slot T F O → Waker → Bool → ℕ → SlotPolled T F E O
  unfolding poll_state
  poll_slot slot cx stop max_retries = poll_state slot slot.state cx stop max_retries

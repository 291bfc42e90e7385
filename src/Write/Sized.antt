-- ===== src/Write/Sized.antt =====
-- src/write.rs: what a slot counts, whatever its backend does: its frames, its retries, and the
-- capacity that it takes from the permit of the scheduler.
use carbon_io.Prelude.{
  ℕ, ◌+◌, ◌≤◌, ◌<◌, ◌≡◌, refl, Bool, true, false, ◌||◌, Option, none, some, arith, ltb, ◌==◌,
  if◌then◌else◌, length, length-append, Result, ok, err, Poll, ready, pending,
}
use carbon_io.Budget.{Waker}
use carbon_io.Traits.{WriteFile}
use carbon_io.Write.Frames.{Frames, streaming, replay, new_frames, next, accepted, clear, len, push}
use carbon_io.Write.Slots.{
  FileState, idle, opening, writing, closing, closed, Slot, SlotPolled, is_closed, retry,
  after_open, after_write, after_close, poll_writing, poll_state, poll_slot, new_slot,
}
use carbon_io.Write.State.{add_frame}
use carbon_io.Write.Api.{reused}
use carbon_io.Write.Runs.{is_finishing}

abbrev pub is_idle : {O : Type 0} → FileState O → Bool
is_idle idle = true
is_idle _ = false

-- A slot keeps its frames for a replay exactly if retries are allowed.
abbrev pub Fits : {T : Type 0} → ℕ → Frames T → Type 0
Fits max_retries (streaming frames) = max_retries ≡ 0
Fits max_retries (replay frames) = 0 < max_retries

-- The frames that are left to write: a replay slot may write all of them again.
abbrev pub unwritten : {T : Type 0} → Frames T → ℕ
unwritten (streaming frames) = length frames
unwritten (replay frames) = 0

-- The counters of a slot to which `n` frames were assigned; `stop` tells that input has ended.
pub record Sized {T F O : Type 0} (max_retries : ℕ) (stop : Bool) (n : ℕ) (slot : Slot T F O)
    : Type 0 where
  pub counted : slot.assigned ≡ n
  pub positive : 0 < slot.capacity
  pub within : slot.assigned ≤ slot.capacity
  pub retried : slot.retries ≤ max_retries
  pub unused : slot.assigned ≡ 0 → is_idle slot.state ≡ true
  pub idles : is_idle slot.state ≡ true → slot.assigned ≡ 0
  pub finished : is_finishing slot.state ≡ true → stop ≡ false → slot.assigned ≡ slot.capacity
  pub kind : Fits max_retries slot.frames
  pub kept : len slot.frames ≤ slot.assigned
  pub drained : is_finishing slot.state ≡ true → unwritten slot.frames ≡ 0
  pub cleared : is_closed slot.state ≡ true → len slot.frames ≡ 0

-- What a slot takes from the grant: one for each frame that is not accepted yet, or its whole
-- capacity from the first frame until it has closed.
unfoldable pub cost : {T F O : Type 0} → ℕ → Slot T F O → ℕ
unfolding len
cost max_retries slot =
    if max_retries == 0
    then len slot.frames
    else if is_closed slot.state || slot.assigned == 0
    then 0
    else slot.capacity

module _ {T F E O : Type 0} (file : WriteFile T F E O) (max_retries : ℕ) where
  pub new_slot-Sized :
      (f : F)
      → 0 < file.frame_capacity f
      → Sized {T = T} max_retries false 0 (new_slot file f (ltb 0 max_retries))
  unfolding new_slot new_frames len
  new_slot-Sized f pos = ground arith

  pub add_frame-Sized :
      (n : ℕ) (slot : Slot T F O) (frame : T)
      → slot.assigned < slot.capacity
      → Sized max_retries false n slot
      → Sized max_retries false (n + 1) (add_frame slot frame)
  unfolding add_frame push len
  add_frame-Sized n slot frame room s = grind (arith, length-append)

  pub reused-Sized :
      (stop : Bool) (n : ℕ) (slot : Slot T F O) (f : F)
      → 0 < file.frame_capacity f
      → is_closed slot.state ≡ true
      → Sized max_retries stop n slot
      → Sized max_retries false 0 (reused file slot f)
  unfolding len
  reused-Sized stop n slot f pos done s = ground arith

  -- A poll without an error keeps the counters; what it releases, the slot takes no longer.
  abbrev pub PollSized : Bool → ℕ → Slot T F O → SlotPolled T F E O → Type 0
  PollSized stop n slot p = elim p.result [
    | err e ↦ Unit {0}
    | ok answer ↦
        Sized max_retries stop n p.slot
        × (cost max_retries p.slot + answer.1 ≡ cost max_retries slot)
        × (p.slot.capacity ≡ slot.capacity)
  ]

  module _ (stop : Bool) (n : ℕ) where
    file-Sized :
        (slot : Slot T F O) (f : F)
        → Sized max_retries stop n slot
        → Sized max_retries stop n (record slot { file = f })
    file-Sized slot f s = ground arith

    retry-Sized :
        (slot : Slot T F O) (error : E)
        → is_idle slot.state ≡ false
        → is_closed slot.state ≡ false
        → Sized max_retries stop n slot
        → PollSized stop n slot (retry slot error max_retries)
    unfolding retry cost
    retry-Sized slot error busy live s = ground arith

    after_open-Sized :
        (slot : Slot T F O) (answer : Poll (Result (Unit {0}) E))
        → slot.state ≡ opening
        → Sized max_retries stop n slot
        → PollSized stop n slot (after_open slot max_retries answer)
    unfolding after_open cost
    after_open-Sized slot pending st s = (s, omega arith, refl)
    after_open-Sized slot (ready (ok _)) st s = ground arith
    after_open-Sized slot (ready (err error)) st s =
        retry-Sized slot error (rw st refl) (rw st refl) s

    after_write-Sized :
        (slot : Slot T F O) (answer : Poll (Result (Unit {0}) E))
        → slot.state ≡ writing
        → Sized max_retries stop n slot
        → PollSized stop n slot (after_write slot max_retries answer)
    unfolding after_write accepted cost len
    after_write-Sized slot pending st s = (s, omega arith, refl)
    after_write-Sized slot (ready (ok _)) st s = ground arith
    after_write-Sized slot (ready (err error)) st s =
        retry-Sized slot error (rw st refl) (rw st refl) s

    after_close-Sized :
        (slot : Slot T F O) (answer : Poll (Result O E))
        → slot.state ≡ closing
        → Sized max_retries stop n slot
        → PollSized stop n slot (after_close slot max_retries answer)
    unfolding after_close clear cost len
    after_close-Sized slot pending st s = (s, omega arith, refl)
    after_close-Sized slot (ready (ok _)) st s = ground arith
    after_close-Sized slot (ready (err error)) st s =
        retry-Sized slot error (rw st refl) (rw st refl) s

    poll_writing-Sized :
        (slot : Slot T F O) (cx : Waker) (offered : Option T)
        → slot.state ≡ writing
        → offered ≡ next slot.frames slot.written
        → Sized max_retries stop n slot
        → PollSized stop n slot (poll_writing file slot cx stop max_retries offered)
    unfolding poll_writing next cost
    poll_writing-Sized slot cx (some frame) st e s =
        let p = file.poll_write slot.file cx frame in
        after_write-Sized (record slot { file = p.0 }) p.1 st (file-Sized slot p.0 s)
    poll_writing-Sized slot cx none st e s = ground arith

    poll_state-Sized :
        (slot : Slot T F O) (state : FileState O) (cx : Waker)
        → slot.state ≡ state
        → Sized max_retries stop n slot
        → PollSized stop n slot (poll_state file slot state cx stop max_retries)
    unfolding poll_state cost
    poll_state-Sized slot opening cx st s =
        let p = file.poll_open slot.file cx in
        after_open-Sized (record slot { file = p.0 }) p.1 st (file-Sized slot p.0 s)
    poll_state-Sized slot writing cx st s = poll_writing-Sized slot cx _ st refl s
    poll_state-Sized slot closing cx st s =
        let p = file.poll_close slot.file cx in
        after_close-Sized (record slot { file = p.0 }) p.1 st (file-Sized slot p.0 s)
    poll_state-Sized slot idle cx st s = (s, omega arith, refl)
    poll_state-Sized slot (closed o) cx st s = (s, omega arith, refl)

    -- One poll of a slot, whatever its backend answers.
    pub poll_slot-Sized :
        (slot : Slot T F O) (cx : Waker)
        → Sized max_retries stop n slot
        → PollSized stop n slot (poll_slot file slot cx stop max_retries)
    unfolding poll_slot
    poll_slot-Sized slot cx s = poll_state-Sized slot slot.state cx refl s

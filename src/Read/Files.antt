-- ===== src/Read/Files.antt =====
-- src/read.rs: `poll_file`, one step of one file. It returns the scheduler, the polls that remain
-- for this call, and its own result.
use carbon_io.Prelude.{
  ℕ, Bool, true, false, List, [], ◌∷◌, Option, none, some, ◌==◌, if◌then◌else◌, get_elem?, set,
  Result, ok, err, Poll, ready, pending, wrapping_add, wrapping_sub, saturating_sub,
  saturating_add_u32,
}
use carbon_io.Errors.{SchedulerError, backend, contract, invalid_frame_position, unexpected_eof}
use carbon_io.Budget.{Waker}
use carbon_io.Traits.{ReadFile}
use carbon_io.Read.State.{FileState, opening, reading, Slot, Cell, ReadScheduler, Factory}

pub record Polled (T F E A : Type 0) : Type 0 where
  pub scheduler : ReadScheduler T F E A
  pub remaining : ℕ
  pub result : Result Bool (SchedulerError E)

module _ {T F E A : Type 0} where
  abbrev pub put_slot : ReadScheduler T F E A → ℕ → Slot F → ReadScheduler T F E A
  put_slot r index slot = record r { files = set r.files index slot }

  abbrev pub put_cell : ReadScheduler T F E A → ℕ → Cell T → ReadScheduler T F E A
  put_cell r offset cell = record r { frames = set r.frames offset cell }

  -- The three answers of `poll_open`; `slot` holds the file after the poll.
  unfoldable pub opened :
      ReadScheduler T F E A → ℕ → Slot F → ℕ → Poll (Result (Unit {0}) E) → Polled T F E A
  opened r index slot remaining pending = record {
    scheduler = put_slot r index (record slot { blocked = true });
    remaining = remaining;
    result = ok false;
  }
  opened r index slot remaining (ready (ok _)) = record {
    scheduler = put_slot r index (record slot { state = reading });
    remaining = remaining;
    result = ok true;
  }
  opened r index slot remaining (ready (err error)) =
      if slot.retries == r.config.max_retries
      then record {
        scheduler = put_slot r index slot;
        remaining = remaining;
        result = err (backend error);
      }
      else record {
        scheduler = put_slot r index (record slot { retries = saturating_add_u32 slot.retries 1 });
        remaining = remaining;
        result = ok true;
      }

  -- The four answers of `poll_read`; `slot` holds the file and cell `offset` the frame after it.
  unfoldable pub received :
      ReadScheduler T F E A
      → ℕ
      → Slot F
      → ℕ
      → T
      → ℕ
      → Poll (Result (Option (Unit {0})) E)
      → Polled T F E A
  received r index slot offset frame remaining pending = record {
    scheduler =
        put_cell (put_slot r index (record slot { blocked = true })) offset
          (record { frame = some frame; complete = false });
    remaining = remaining;
    result = ok false;
  }
  received r index slot offset frame remaining (ready (err error)) = record {
    scheduler =
        put_cell (put_slot r index slot) offset (record { frame = some frame; complete = false });
    remaining = remaining;
    result = err (backend error);
  }
  received r index slot offset frame remaining (ready (ok (some _))) =
      let count = saturating_add_u32 slot.received 1 in
      record {
        scheduler =
            put_cell
              (put_slot r index (record slot { received = count; blocked = count == slot.count }))
              offset (record { frame = some frame; complete = true });
        remaining = remaining;
        result = ok true;
      }
  received r index slot offset frame remaining (ready (ok none)) = record {
    scheduler =
        put_cell (put_slot r index slot) offset (record { frame = some frame; complete = false });
    remaining = remaining;
    result = err (contract unexpected_eof);
  }

module _ {T F E A : Type 0} ⦃factory : Factory T A⦄ where
  -- `recycled.pop().unwrap_or_else(&mut make_frame)`.
  unfoldable pub new_buffer : ReadScheduler T F E A → List T → T × ReadScheduler T F E A
  new_buffer r [] =
      let (frame, next) = factory.call r.make_frame in (frame, record r { make_frame = next })
  new_buffer r (frame ∷ rest) = (frame, record r { recycled = rest })

  -- `cell.frame.get_or_insert_with(..)`.
  unfoldable pub cell_buffer : ReadScheduler T F E A → Option T → T × ReadScheduler T F E A
  unfolding new_buffer
  cell_buffer r none = new_buffer r r.recycled
  cell_buffer r (some frame) = (frame, r)

module _ {T F E A : Type 0} ⦃file : ReadFile T F E⦄ ⦃factory : Factory T A⦄ where
  unfoldable pub poll_opening : ReadScheduler T F E A → ℕ → Slot F → Waker → ℕ → Polled T F E A
  unfolding opened
  poll_opening r index slot cx remaining =
      let (f, answer) = file.poll_open slot.file cx in
      opened r index (record slot { file = f }) (saturating_sub remaining 1) answer

  -- The frame that a file reads next, in the cell that stands at `offset`.
  unfoldable pub read_cell :
      ReadScheduler T F E A → ℕ → Slot F → ℕ → Waker → ℕ → Option (Cell T) → Polled T F E A
  unfolding received cell_buffer
  read_cell r index slot offset cx remaining none = record {
    scheduler = r;
    remaining = remaining;
    result = ok false;
  }
  read_cell r index slot offset cx remaining (some cell) =
      if cell.complete
      then record {
        scheduler = r;
        remaining = remaining;
        result = err (contract invalid_frame_position);
      }
      else let (buffer, r') = cell_buffer r cell.frame in
        let (f, frame, answer) = file.poll_read slot.file cx buffer in
        received r' index (record slot { file = f }) offset frame (saturating_sub remaining 1)
          answer

  unfoldable pub poll_reading : ReadScheduler T F E A → ℕ → Slot F → Waker → ℕ → Polled T F E A
  unfolding read_cell
  poll_reading r index slot cx remaining =
      if slot.received == slot.count
      then record {
        scheduler = put_slot r index (record slot { blocked = true });
        remaining = remaining;
        result = ok false;
      }
      else let offset = wrapping_sub (wrapping_add slot.start slot.received) r.emitted in
        read_cell r index slot offset cx remaining (get_elem? r.frames offset)

  unfoldable pub poll_slot :
      ReadScheduler T F E A → ℕ → Slot F → FileState → Waker → ℕ → Polled T F E A
  unfolding poll_opening poll_reading
  poll_slot r index slot opening cx remaining = poll_opening r index slot cx remaining
  poll_slot r index slot reading cx remaining = poll_reading r index slot cx remaining

  unfoldable pub poll_file : ReadScheduler T F E A → ℕ → Waker → ℕ → Polled T F E A
  unfolding poll_slot
  poll_file r index cx remaining = elim (get_elem? r.files index) [
    | none ↦ record {
      scheduler = r;
      remaining = remaining;
      result = err (contract invalid_frame_position);
    }
    | some slot ↦
        if slot.blocked
        then record { scheduler = r; remaining = remaining; result = ok false }
        else poll_slot r index slot slot.state cx remaining
  ]

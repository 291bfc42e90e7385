-- ===== src/Read/Steps.antt =====
-- The branches of `poll_file` and of the loops of `drive` in src/read.rs, as equations.
use carbon_io.Prelude.{
  ℕ, suc, ◌-◌, ◌%◌, ◌≡◌, Bool, true, false, ◌||◌, none, some, arith, ◌==◌, length, get_elem?, ok,
  err, wrapping_add, wrapping_sub,
}
use carbon_io.Errors.{SchedulerError, contract, invalid_frame_position}
use carbon_io.Budget.{Waker}
use carbon_io.Traits.{ReadFile}
use carbon_io.Read.State.{Slot, Cell, ReadScheduler, Factory, no_files, retire, authorize}
use carbon_io.Read.Files.{
  Polled, put_slot, cell_buffer, received, read_cell, poll_slot, poll_reading, poll_file,
}
use carbon_io.Read.Drive.{
  Pass, swept, stopped, failed, done, error, wake_unblocked, finish, sweep, drive_loop,
}

module _ {T F E A : Type 0} ⦃file : ReadFile T F E⦄ ⦃factory : Factory T A⦄ where
  module _ (r : ReadScheduler T F E A) (index : ℕ) (cx : Waker) (remaining : ℕ) where
    pub poll_file-missing :
        get_elem? r.files index ≡ none
        → poll_file r index cx remaining ≡ (record {
          scheduler = r;
          remaining = remaining;
          result = err (contract invalid_frame_position);
        })
    unfolding poll_file
    poll_file-missing e = ground arith

    pub poll_file-blocked :
        (slot : Slot F)
        → get_elem? r.files index ≡ some slot
        → slot.blocked ≡ true
        → poll_file r index cx remaining
          ≡ (record { scheduler = r; remaining = remaining; result = ok false })
    unfolding poll_file
    poll_file-blocked slot e b = ground arith

    pub poll_file-free :
        (slot : Slot F)
        → get_elem? r.files index ≡ some slot
        → slot.blocked ≡ false
        → poll_file r index cx remaining ≡ poll_slot r index slot slot.state cx remaining
    unfolding poll_file
    poll_file-free slot e b = rw (e, poll_file) (simp b)

    pub poll_reading-full :
        (slot : Slot F)
        → (slot.received == slot.count) ≡ true
        → poll_reading r index slot cx remaining ≡ (record {
          scheduler = put_slot r index (record slot { blocked = true });
          remaining = remaining;
          result = ok false;
        })
    unfolding poll_reading
    poll_reading-full slot e = rw e

    pub poll_reading-cell :
        (slot : Slot F)
        → (slot.received == slot.count) ≡ false
        → poll_reading r index slot cx remaining ≡ (
            let offset = wrapping_sub (wrapping_add slot.start slot.received) r.emitted in
            read_cell r index slot offset cx remaining (get_elem? r.frames offset))
    unfolding poll_reading
    poll_reading-cell slot e = rw e

    pub read_cell-free :
        (slot : Slot F) (offset : ℕ) (cell : Cell T)
        → cell.complete ≡ false
        → let b = cell_buffer r cell.frame in
          let a = file.poll_read slot.file cx b.0 in
          read_cell r index slot offset cx remaining (some cell)
          ≡ received b.1 index (record slot { file = a.0 }) offset a.1 (remaining - 1) a.2
    unfolding read_cell
    read_cell-free slot offset cell e = simp e

  module _ (rounds count : ℕ) (r : ReadScheduler T F E A) (cx : Waker) (remaining : ℕ)
      (progressed : Bool) where
    -- The scheduler with its cursor moved on, and the poll of the file that the cursor stood at.
    abbrev pub moved : ReadScheduler T F E A
    moved = record r { cursor = wrapping_add (r.cursor % count) 1 % count }

    abbrev pub polled : Polled T F E A
    polled = poll_file moved (r.cursor % count) cx remaining

    pub sweep-failed :
        (e : SchedulerError E)
        → polled.result ≡ err e
        → sweep (suc rounds) count r cx remaining progressed ≡ failed polled.scheduler e
    unfolding sweep
    sweep-failed e eq = rw (eq, sweep)

    pub sweep-stopped :
        (changed : Bool)
        → polled.result ≡ ok changed
        → (polled.remaining == 0) ≡ true
        → sweep (suc rounds) count r cx remaining progressed
          ≡ stopped (wake_unblocked polled.scheduler cx)
    unfolding sweep
    sweep-stopped changed eq z = rw (eq, sweep, z)

    pub sweep-goes_on :
        (changed : Bool)
        → polled.result ≡ ok changed
        → (polled.remaining == 0) ≡ false
        → sweep (suc rounds) count r cx remaining progressed
          ≡ sweep rounds count polled.scheduler cx polled.remaining (changed || progressed)
    unfolding sweep
    sweep-goes_on changed eq z = rw (eq, sweep, z)

  module _ (fuel : ℕ) (r : ReadScheduler T F E A) (cx : Waker) (remaining : ℕ) where
    pub drive_loop-empty :
        no_files r.files ≡ true
        → drive_loop (suc fuel) r cx remaining ≡ (record { scheduler = finish r; outcome = done })
    unfolding drive_loop
    drive_loop-empty e = rw (e, drive_loop)

    module _ (some_files : no_files r.files ≡ false) where
      abbrev pub pass : Pass T F E A
      pass = sweep (length r.files) (length r.files) r cx remaining false

      pub drive_loop-failed :
          (s : ReadScheduler T F E A) (e : SchedulerError E)
          → pass ≡ failed s e
          → drive_loop (suc fuel) r cx remaining ≡ (record { scheduler = s; outcome = error e })
      unfolding drive_loop
      drive_loop-failed s e eq = rw (some_files, drive_loop, eq)

      pub drive_loop-stopped :
          (s : ReadScheduler T F E A)
          → pass ≡ stopped s
          → drive_loop (suc fuel) r cx remaining ≡ (record { scheduler = s; outcome = done })
      unfolding drive_loop
      drive_loop-stopped s eq = rw (some_files, drive_loop, eq)

      module _ (s : ReadScheduler T F E A) (left : ℕ) (progressed : Bool)
          (eq : pass ≡ swept s left progressed) where
        pub drive_loop-retired :
            no_files (retire s).files ≡ true
            → drive_loop (suc fuel) r cx remaining
              ≡ (record { scheduler = finish (retire s); outcome = done })
        unfolding drive_loop
        drive_loop-retired e = rw (some_files, drive_loop, eq, e)

        pub drive_loop-again :
            no_files (retire s).files ≡ false
            → progressed ≡ true
            → drive_loop (suc fuel) r cx remaining ≡ drive_loop fuel (authorize (retire s)) cx left
        unfolding drive_loop
        drive_loop-again e p = rw (some_files, drive_loop, eq, e, p)

        pub drive_loop-idle :
            no_files (retire s).files ≡ false
            → progressed ≡ false
            → drive_loop (suc fuel) r cx remaining
              ≡ (record { scheduler = authorize (retire s); outcome = done })
        unfolding drive_loop
        drive_loop-idle e p = rw (some_files, drive_loop, eq, e, p)

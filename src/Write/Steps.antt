-- ===== src/Write/Steps.antt =====
-- The branches of the loops of `WriteScheduler::drive` in src/write.rs, as equations.
use carbon_io.Prelude.{
  ℕ, suc, ◌+◌, ◌-◌, ◌%◌, ◌≡◌, Bool, true, false, none, some, ◌==◌, get_elem?, ok, err,
}
use carbon_io.Errors.{missing_write_file}
use carbon_io.Budget.{Waker}
use carbon_io.Traits.{WriteFile}
use carbon_io.Write.Slots.{Slot, SlotPolled, poll_slot}
use carbon_io.Write.State.{backend, contract, WriteScheduler, is_closing, put_slot, fail}
use carbon_io.Write.Drive.{Pass, stopped, failed, release, wake_by_ref, sweep}

module _ {P T F R A : Type 0} (count : ℕ) (w : WriteScheduler P T F R A) where
  -- The slot whose turn it is, and the scheduler with its cursor moved on.
  abbrev pub turn : ℕ
  turn = w.poll_cursor % count

  abbrev pub moved : WriteScheduler P T F R A
  moved = record w { poll_cursor = (turn + 1) % count }

module _ {P T F E R A : Type 0} (file : WriteFile T F E R) (w : WriteScheduler P T F R A)
    (slot : Slot T F R) (cx : Waker) where
  abbrev pub polled : SlotPolled T F E R
  polled = poll_slot file slot cx (is_closing w.phase) w.config.max_retries

  -- The scheduler after the slot was polled, and after its capacity was released.
  abbrev pub stored : ℕ → WriteScheduler P T F R A
  stored count = put_slot (moved count w) (turn count w) polled.slot

  abbrev pub next : ℕ → Bool → ℕ → WriteScheduler P T F R A
  next count changed released = release (stored count) polled.slot changed released

module _ {P T F E R A I : Type 0} (file : WriteFile T F E R) (rounds count : ℕ)
    (w : WriteScheduler P T F R A) (cx : Waker) (remaining : ℕ) (progressed : Bool) where
  abbrev pub round : Pass P T F R A E I
  round = sweep file (suc rounds) count w cx remaining progressed

  pub sweep-missing :
      get_elem? w.files (turn count w) ≡ none
      → round ≡ failed (moved count w) (contract missing_write_file)
  unfolding sweep
  sweep-missing e = rw (e, sweep)

  module _ (slot : Slot T F R) (there : get_elem? w.files (turn count w) ≡ some slot) where
    pub sweep-error :
        (e : E)
        → (polled file w slot cx).result ≡ err e
        → round ≡ failed (fail (stored file w slot cx count)) (backend e)
    unfolding sweep
    sweep-error e eq = rw (there, sweep, eq)

    module _ (released : ℕ) where
      pub sweep-unchanged :
          (polled file w slot cx).result ≡ ok (false, released)
          → round
            ≡ sweep file rounds count
                (next file w slot cx count false released)
                cx
                remaining
                progressed
      unfolding sweep
      sweep-unchanged eq = rw (there, sweep, eq)

      pub sweep-stopped :
          (polled file w slot cx).result ≡ ok (true, released)
          → (remaining - 1 == 0) ≡ true
          → round ≡ stopped (wake_by_ref (next file w slot cx count true released) cx)
      unfolding sweep
      sweep-stopped eq z = rw (there, sweep, eq, z)

      pub sweep-changed :
          (polled file w slot cx).result ≡ ok (true, released)
          → (remaining - 1 == 0) ≡ false
          → round
            ≡ sweep file rounds count
                (next file w slot cx count true released)
                cx
                (remaining - 1)
                true
      unfolding sweep
      sweep-changed eq z = rw (there, sweep, eq, z)

-- ===== src/Write/Account/Fill/Cases.antt =====
-- src/write.rs: the branches of `poll_write`, as equations.
use carbon_io.Prelude.{◌≡◌, ◌⊎◌, true, false, none, some, arith, Result, ok, err, ready, pending}
use carbon_io.Errors.{invalid_partial_frame}
use carbon_io.Traits.{WriteFile}
use carbon_io.Budget.{Waker}
use carbon_io.Write.Frames.{PartialFrame, FrameAllocator}
use carbon_io.Write.State.{
  WriteError, input, contract, WriteScheduler, fail, status, flush_partial, wait, is_writing,
}
use carbon_io.Write.Api.{report, filled, fill_partial, start_partial, poll_write}
use carbon_io.Write.Drive.{drive, done, error, exhausted}

module _ {Q T F E O A I R IE : Type 0} (file : WriteFile T F E O) (frame : PartialFrame Q I R T IE)
    (allocator : FrameAllocator Q A) where
  pub report-cases :
      (w : WriteScheduler Q T F O A) (cx : Waker)
      → (report file frame allocator w cx
          ≡ record { scheduler = w; result = ready (ok (status w none)) })
        ⊎ (report file frame allocator w cx ≡ record { scheduler = wait w cx; result = pending })
  unfolding report
  report-cases w cx = ground arith

  module _ (w : WriteScheduler Q T F O A) (p : Q) (r : R) where
    pub filled_incomplete :
        frame.is_complete p ≡ false
        → filled file frame allocator w p r
          ≡ record { scheduler = w; result = ready (ok (status w (some r))) }
    unfolding filled
    filled_incomplete c = ground arith

    pub filled_empty :
        frame.is_complete p ≡ true
        → frame.is_empty p ≡ true
        → filled file frame allocator w p r
          ≡ record { scheduler = fail w; result = ready (err (contract invalid_partial_frame)) }
    unfolding filled
    filled_empty c e = ground arith

    pub filled_complete :
        frame.is_complete p ≡ true
        → frame.is_empty p ≡ false
        → (flush_partial frame {E = E} w).1 ≡ ok tt
        → filled file frame allocator w p r ≡ (
            let s = (flush_partial frame {E = E} w).0 in
            record { scheduler = s; result = ready (ok (status s (some r))) })
    unfolding filled
    filled_complete c e f = ground arith

  module _ (w : WriteScheduler Q T F O A) (cx : Waker) (i : I) where
    pub fill_partial-none :
        w.partial ≡ none
        → fill_partial file frame allocator w cx i ≡ report file frame allocator w cx
    unfolding fill_partial
    fill_partial-none e = ground arith

    module _ (p : Q) (e : w.partial ≡ some p) where
      abbrev pub refilling : WriteScheduler Q T F O A
      refilling = record w { partial = some (frame.poll_fill p cx i).0 }

      pub fill_partial-pending :
          (frame.poll_fill p cx i).1 ≡ pending
          → fill_partial file frame allocator w cx i ≡ report file frame allocator refilling cx
      unfolding fill_partial
      fill_partial-pending a = ground arith

      pub fill_partial-err :
          (x : IE)
          → (frame.poll_fill p cx i).1 ≡ ready (err x)
          → fill_partial file frame allocator w cx i
            ≡ record { scheduler = fail refilling; result = ready (err (input x)) }
      unfolding fill_partial
      fill_partial-err x a = ground arith

      pub fill_partial-ok :
          (r : R)
          → (frame.poll_fill p cx i).1 ≡ ready (ok r)
          → fill_partial file frame allocator w cx i
            ≡ filled file frame allocator refilling (frame.poll_fill p cx i).0 r
      unfolding fill_partial
      fill_partial-ok r a = ground arith

    pub poll_write-error :
        (x : WriteError IE E)
        → is_writing w.phase ≡ true
        → (drive {I = IE} file (record w { waker = none }) cx).outcome ≡ error x
        → poll_write file frame allocator w cx i ≡ record {
          scheduler = (drive {I = IE} file (record w { waker = none }) cx).scheduler;
          result = ready (err x);
        }
    unfolding poll_write
    poll_write-error x writes d = ground arith

    pub poll_write-exhausted :
        is_writing w.phase ≡ true
        → (drive {I = IE} file (record w { waker = none }) cx).outcome ≡ exhausted
        → poll_write file frame allocator w cx i ≡ record {
          scheduler = (drive {I = IE} file (record w { waker = none }) cx).scheduler;
          result = pending;
        }
    unfolding poll_write
    poll_write-exhausted writes d = ground arith

    module _ (writes : is_writing w.phase ≡ true)
        (d : (drive {I = IE} file (record w { waker = none }) cx).outcome ≡ done) where
      abbrev pub starting : WriteScheduler Q T F O A × Result (Unit {0}) (WriteError IE E)
      starting =
          start_partial file frame allocator
            (drive {I = IE} file (record w { waker = none }) cx).scheduler cx

      pub poll_write-refused :
          (x : WriteError IE E)
          → starting.1 ≡ err x
          → poll_write file frame allocator w cx i
            ≡ record { scheduler = starting.0; result = ready (err x) }
      unfolding poll_write
      poll_write-refused x s = ground arith

      pub poll_write-fills :
          starting.1 ≡ ok tt
          → poll_write file frame allocator w cx i
            ≡ fill_partial file frame allocator starting.0 cx i
      unfolding poll_write
      poll_write-fills s = ground arith

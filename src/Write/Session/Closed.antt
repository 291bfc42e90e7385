-- ===== src/Write/Session/Closed.antt =====
-- src/write.rs: the calls that a scheduler refuses since its input has ended or it has failed.
use carbon_io.Prelude.{◌≡◌, refl, true, false, err, ready, none}
use carbon_io.Errors.{input_closed}
use carbon_io.Budget.{Waker}
use carbon_io.Traits.{WriteFile}
use carbon_io.Write.Frames.{PartialFrame, FrameAllocator}
use carbon_io.Write.State.{contract, WriteScheduler, is_writing, is_closing, is_failed}
use carbon_io.Write.Api.{push_file, pop_swap, pop_file, poll_write, poll_close}

module _ {Q T F E O A : Type 0} (I : Type 0) (file : WriteFile T F E O)
    (w : WriteScheduler Q T F O A) where
  pub push_file-closed :
      (f : F)
      → is_writing w.phase ≡ false
      → push_file {I = I} file w f ≡ (w, err (contract input_closed))
  unfolding push_file
  push_file-closed f n = rw (push_file, n) refl

  pub pop_swap-closed :
      (f : F)
      → is_writing w.phase ≡ false
      → pop_swap {I = I} file w f ≡ (w, err (contract input_closed))
  unfolding pop_swap
  pop_swap-closed f n = rw (pop_swap, n) refl

  pub pop_file-open :
      is_closing w.phase ≡ false → pop_file {I = I} file w ≡ (w, err (contract input_closed))
  unfolding pop_file
  pop_file-open n = rw (pop_file, n) refl

module _ {Q T F E O A I R IE : Type 0} (file : WriteFile T F E O) (frame : PartialFrame Q I R T IE)
    (allocator : FrameAllocator Q A) (w : WriteScheduler Q T F O A) (cx : Waker) where
  pub poll_write-closed :
      (i : I)
      → is_writing w.phase ≡ false
      → poll_write file frame allocator w cx i ≡ record {
        scheduler = record w { waker = none };
        result = ready (err (contract input_closed));
      }
  unfolding poll_write
  poll_write-closed i n = rw (poll_write, n) refl

  pub poll_close-failed :
      is_failed w.phase ≡ true
      → poll_close file frame allocator w cx ≡ record {
        scheduler = record w { waker = none };
        result = ready (err (contract input_closed));
      }
  unfolding poll_close
  poll_close-failed n = rw (poll_close, n) refl

-- ===== src/Write/Account/Close/Cases.antt =====
-- src/write.rs: the branches of `poll_close`, as equations.
use carbon_io.Prelude.{
  ◌≡◌, ◌⊎◌, true, false, Bool-cases, arith, ltb, length, ◌==◌, ◌||◌, Result, ok, err, ready,
  pending, none, inl, inr,
}
use carbon_io.Traits.{WriteFile}
use carbon_io.Budget.{Waker}
use carbon_io.Write.Frames.{PartialFrame, FrameAllocator}
use carbon_io.Write.State.{
  WriteError, WriteScheduler, is_writing, is_failed, closing, flush_partial, shrink_permit,
  completed_files, wait,
}
use carbon_io.Write.Api.{drop_unused, start_closing, poll_close}
use carbon_io.Write.Drive.{Outcome, drive, done, error, exhausted}

module _ {Q T F E O A I R IE : Type 0} (file : WriteFile T F E O) (frame : PartialFrame Q I R T IE)
    (allocator : FrameAllocator Q A) (w : WriteScheduler Q T F O A) where
  abbrev pub flushing : WriteScheduler Q T F O A × Result (Unit {0}) (WriteError IE E)
  flushing = flush_partial frame {E = E} (record w { phase = closing })

  -- The scheduler without the unused slots at its end.
  abbrev pub dropping : WriteScheduler Q T F O A
  dropping = record flushing.0 { files = drop_unused flushing.0.files }

  pub start_closing-writing :
      is_writing w.phase ≡ true
      → flushing.1 ≡ ok tt
      → start_closing file frame allocator w ≡ (shrink_permit dropping dropping.used, ok tt)
  unfolding start_closing
  start_closing-writing writes f = ground arith

  pub start_closing-closing :
      is_writing w.phase ≡ false → start_closing file frame allocator w ≡ (w, ok tt)
  unfolding start_closing
  start_closing-closing n = ground arith

module _ {Q T F E O A I R IE : Type 0} (file : WriteFile T F E O) (frame : PartialFrame Q I R T IE)
    (allocator : FrameAllocator Q A) (w : WriteScheduler Q T F O A) (cx : Waker)
    (going : is_failed w.phase ≡ false)
    (starts : (start_closing file frame allocator (record w { waker = none })).1 ≡ ok tt) where
  -- The scheduler after the start and the drive loop.
  abbrev pub driven : WriteScheduler Q T F O A × Outcome E IE
  driven =
      let d =
        drive {I = IE} file (start_closing file frame allocator (record w { waker = none })).0 cx in
      (d.scheduler, d.outcome)

  pub poll_close-error :
      (x : WriteError IE E)
      → driven.1 ≡ error x
      → poll_close file frame allocator w cx
        ≡ record { scheduler = driven.0; result = ready (err x) }
  unfolding poll_close
  poll_close-error x d = ground arith

  pub poll_close-exhausted :
      driven.1 ≡ exhausted
      → poll_close file frame allocator w cx ≡ record { scheduler = driven.0; result = pending }
  unfolding poll_close
  poll_close-exhausted d = ground arith

  pub poll_close-done :
      driven.1 ≡ done
      → (poll_close file frame allocator w cx
            ≡ record { scheduler = driven.0; result = ready (ok (completed_files driven.0)) })
          × ((ltb 0 (completed_files driven.0) || length driven.0.files == 0) ≡ true)
        ⊎ (poll_close file frame allocator w cx
            ≡ record { scheduler = wait driven.0 cx; result = pending })
  unfolding poll_close
  poll_close-done d =
      elim (Bool-cases (ltb 0 (completed_files driven.0) || length driven.0.files == 0)) [
        | inl e ↦ inl (ground arith, e)
        | inr e ↦ inr (ground arith)
      ]

-- ===== src/Write/Session/Wakeups.antt =====
-- src/write.rs: a caller that waits has left its waker, and the calls that it may wait for wake it.
use carbon_io.Prelude.{
  ◌≡◌, ◌≢◌, inl, inr, refl, ap, ◌∙◌, true, false, Bool-cases, Option-cases, Result-cases, List, [],
  ◌∷◌, ◌++◌, none, some, arith, ok, err, Result, Poll, ready, pending, ◌==◌, ◌||◌,
}
use carbon_io.Errors.{invalid_window}
use carbon_io.Config.{Window, validate}
use carbon_io.Budget.{Waker}
use carbon_io.Traits.{WriteFile}
use carbon_io.Write.Frames.{PartialFrame, FrameAllocator}
use carbon_io.Write.State.{
  WriteError, WriteScheduler, is_writing, is_failed, wait, wake, set_window, shrink_permit,
}
use carbon_io.Write.Api.{
  Written, push_file, pop_swap, pop_file, poll_write, poll_close, report, filled, fill_partial,
  start_closing,
}
use carbon_io.Write.Drive.{Outcome, drive, done, error, exhausted}
use carbon_io.Write.Progress.{write_drive-ends}
use carbon_io.Write.Account.Drive.{wake-some}
use carbon_io.Write.Account.Fill.Cases.{
  report-cases, fill_partial-none, fill_partial-pending, fill_partial-err, fill_partial-ok,
  refilling, poll_write-error, poll_write-refused, poll_write-fills, starting,
}
use carbon_io.Write.Account.Close.Cases.{driven, poll_close-error, poll_close-done}
use carbon_io.Write.Account.Calls.Cases.{push_file-cases, pop_swap-cases, pop_file-cases}
use carbon_io.Write.Session.Closed.{poll_write-closed, poll_close-failed}

module _ {Q T F O A : Type 0} where
  wait-waker : (w : WriteScheduler Q T F O A) (cx : Waker) → (wait w cx).waker ≡ some cx
  unfolding wait
  wait-waker w cx = refl

module _ {Q T F E O A I R IE : Type 0} (file : WriteFile T F E O) (frame : PartialFrame Q I R T IE)
    (allocator : FrameAllocator Q A) where
  -- A call that is pending has left its waker.
  abbrev pub Registers : {X : Type 0} → Waker → Written Q T F O A E IE X → Type 0
  Registers cx d = d.result ≡ pending → d.scheduler.waker ≡ some cx

  report-Registers :
      (w : WriteScheduler Q T F O A) (cx : Waker) → Registers cx (report file frame allocator w cx)
  unfolding wait
  report-Registers w cx = elim (report-cases file frame allocator w cx) [
    | inl e ↦ λ p. cc
    | inr e ↦ λ p. ap (λ d. d.scheduler.waker) e
  ]

  filled-answers :
      (w : WriteScheduler Q T F O A) (p : Q) (r : R)
      → (filled {E = E} file frame allocator w p r).result ≢ pending
  unfolding filled
  filled-answers w p r e = ground arith

  fill_partial-Registers :
      (w : WriteScheduler Q T F O A) (cx : Waker) (i : I)
      → Registers cx (fill_partial file frame allocator w cx i)
  fill_partial-Registers w cx i = elim (Option-cases w.partial) [
    | inl e ↦ rw (fill_partial-none file frame allocator w cx i e) (report-Registers w cx)
    | inr (p, e) ↦ go p e (frame.poll_fill p cx i).1 refl
  ]
    where
      go :
          (p : Q) (e : w.partial ≡ some p) (answer : Poll (Result R IE))
          → (frame.poll_fill p cx i).1 ≡ answer
          → Registers cx (fill_partial file frame allocator w cx i)
      go p e pending a =
          rw (fill_partial-pending file frame allocator w cx i p e a)
            (report-Registers (refilling file frame allocator w cx i p e) cx)
      go p e (ready (err x)) a = rw (fill_partial-err file frame allocator w cx i p e x a) (λ q. cc)
      go p e (ready (ok r)) a = rw (fill_partial-ok file frame allocator w cx i p e r a) (λ q.
          absurd (
            filled-answers (refilling file frame allocator w cx i p e) (frame.poll_fill p cx i).0 r
              q))

  poll_write-Registers :
      (w : WriteScheduler Q T F O A) (cx : Waker) (i : I)
      → Registers cx (poll_write file frame allocator w cx i)
  poll_write-Registers w cx i = elim (Bool-cases (is_writing w.phase)) [
    | inr n ↦ rw (poll_write-closed file frame allocator w cx i n) (λ q. cc)
    | inl writes ↦ went writes (drive {I = IE} file (record w { waker = none }) cx).outcome refl
  ]
    where
      started :
          (writes : is_writing w.phase ≡ true)
          (d : (drive {I = IE} file (record w { waker = none }) cx).outcome ≡ done)
          → Registers cx (poll_write file frame allocator w cx i)
      started writes d = elim (Result-cases (starting file frame allocator w cx i writes d).1) [
        | inr (x, e) ↦ rw (poll_write-refused file frame allocator w cx i writes d x e) (λ q. cc)
        | inl (_, e) ↦
            rw (poll_write-fills file frame allocator w cx i writes d e)
              (fill_partial-Registers (starting file frame allocator w cx i writes d).0 cx i)
      ]

      went :
          (writes : is_writing w.phase ≡ true) (outcome : Outcome E IE)
          → (drive {I = IE} file (record w { waker = none }) cx).outcome ≡ outcome
          → Registers cx (poll_write file frame allocator w cx i)
      went writes (error x) e =
          rw (poll_write-error file frame allocator w cx i x writes e) (λ q. cc)
      went writes exhausted e = absurd (write_drive-ends IE file (record w { waker = none }) cx e)
      went writes done e = started writes e

  poll_close-refused :
      (w : WriteScheduler Q T F O A) (cx : Waker) (x : WriteError IE E)
      → is_failed w.phase ≡ false
      → (start_closing file frame allocator (record w { waker = none })).1 ≡ err x
      → (poll_close file frame allocator w cx).result ≡ ready (err x)
  unfolding poll_close
  poll_close-refused w cx x going e = ground arith

  poll_close-Registers :
      (w : WriteScheduler Q T F O A) (cx : Waker)
      → Registers cx (poll_close file frame allocator w cx)
  poll_close-Registers w cx = elim (Bool-cases (is_failed w.phase)) [
    | inl f ↦ rw (poll_close-failed file frame allocator w cx f) (λ q. cc)
    | inr going ↦
        elim (Result-cases (start_closing file frame allocator (record w { waker = none })).1) [
          | inr (x, e) ↦ λ q. let refused = poll_close-refused w cx x going e in cc
          | inl (_, starts) ↦
              went going starts (driven file frame allocator w cx going starts).1 refl
        ]
  ]
    where
      went :
          (going : is_failed w.phase ≡ false)
          (starts : (start_closing file frame allocator (record w { waker = none })).1 ≡ ok tt)
          (outcome : Outcome E IE)
          → (driven file frame allocator w cx going starts).1 ≡ outcome
          → Registers cx (poll_close file frame allocator w cx)
      went going starts (error x) e =
          rw (poll_close-error file frame allocator w cx going starts x e) (λ q. cc)
      went going starts exhausted e = absurd (
          write_drive-ends IE file
            (start_closing file frame allocator (record w { waker = none })).0 cx e)
      went going starts done e = elim (poll_close-done file frame allocator w cx going starts e) [
        | inl (eq, some_done) ↦ rw eq (λ q. cc)
        | inr eq ↦ λ q.
            ap (λ d. d.scheduler.waker) eq
            ∙ wait-waker (driven file frame allocator w cx going starts).0 cx
      ]

-- A call that is pending, and the writer after it.
pub data Waiting {Q T F E O A I R IE : Type 0} (file : WriteFile T F E O)
    (frame : PartialFrame Q I R T IE) (allocator : FrameAllocator Q A)
    (w : WriteScheduler Q T F O A) (cx : Waker) : WriteScheduler Q T F O A → Type 0 where
  by_write :
      (i : I)
      → (poll_write file frame allocator w cx i).result ≡ pending
      → Waiting file frame allocator w cx (poll_write file frame allocator w cx i).scheduler
  by_close :
      (poll_close file frame allocator w cx).result ≡ pending
      → Waiting file frame allocator w cx (poll_close file frame allocator w cx).scheduler

module _ {Q T F E O A I R IE : Type 0} (file : WriteFile T F E O) (frame : PartialFrame Q I R T IE)
    (allocator : FrameAllocator Q A) where
  -- For every state, backend, allocator and frames: when `poll_write` or `poll_close` is pending, the
  -- writer keeps the waker of the caller.
  pub pending-Registers :
      (w : WriteScheduler Q T F O A) (cx : Waker) (w' : WriteScheduler Q T F O A)
      → Waiting file frame allocator w cx w'
      → w'.waker ≡ some cx
  pending-Registers w cx w' (by_write i e) = poll_write-Registers file frame allocator w cx i e
  pending-Registers w cx w' (by_close e) = poll_close-Registers file frame allocator w cx e

-- The waker of the caller that waited has been woken, after any others, and is no longer kept.
abbrev pub Woken : {Q T F O A : Type 0} → Waker → WriteScheduler Q T F O A → Type 0
Woken cx w = (w.waker ≡ none) × ((before : List Waker) × (w.woken ≡ before ++ cx ∷ []))

module _ {Q T F O A : Type 0} where
  wake-Woken : (w : WriteScheduler Q T F O A) (cx : Waker) → w.waker ≡ some cx → Woken cx (wake w)
  wake-Woken w cx e = rw (wake-some w cx e) (refl, (w.woken, refl))

  set_window-Woken :
      (w : WriteScheduler Q T F O A) (window : Window) (cx : Waker)
      → w.waker ≡ some cx
      → (set_window w window).1 ≡ ok tt
      → Woken cx (set_window w window).0
  unfolding set_window validate shrink_permit
  set_window-Woken w window cx held accepted =
      elim (Bool-cases (window.target_frames == 0 || window.max_active_files == 0)) [
        | inl e ↦
            let refused : (set_window w window).1 ≡ err invalid_window =
              rw (set_window, validate, e) refl in
            cc
        | inr e ↦ rw (set_window, validate, e) (wake-Woken _ cx held)
      ]

-- A call that succeeded, and the writer after it.
pub data Success {Q T F E O A : Type 0} (I : Type 0) (file : WriteFile T F E O)
    (w : WriteScheduler Q T F O A) : WriteScheduler Q T F O A → Type 0 where
  pushed :
      (f : F)
      → (push_file {I = I} file w f).1 ≡ ok tt
      → Success I file w (push_file {I = I} file w f).0
  swapped :
      (f : F) (x : F × O)
      → (pop_swap {I = I} file w f).1 ≡ ok x
      → Success I file w (pop_swap {I = I} file w f).0
  popped :
      (x : F × O)
      → (pop_file {I = I} file w).1 ≡ ok (some x)
      → Success I file w (pop_file {I = I} file w).0
  resized :
      (window : Window) → (set_window w window).1 ≡ ok tt → Success I file w (set_window w window).0

module _ {Q T F E O A : Type 0} (I : Type 0) (file : WriteFile T F E O) where
  -- When a caller waits and `push_file`, `pop_swap`, `pop_file` or `set_window` succeeds, the caller is
  -- woken.
  pub admission-Wakes :
      (w w' : WriteScheduler Q T F O A) (cx : Waker)
      → w.waker ≡ some cx
      → Success I file w w'
      → Woken cx w'
  admission-Wakes w w' cx held (pushed f e) = elim (push_file-cases file w f I) [
    | inl (c, eq) ↦ cc
    | inr (_, _, eq) ↦ rw eq (wake-Woken _ cx held)
  ]
  admission-Wakes w w' cx held (swapped f x e) = elim (pop_swap-cases file w I f) [
    | inl (c, eq) ↦ cc
    | inr (_, _, _, _, _, _, eq) ↦ rw eq (wake-Woken _ cx held)
  ]
  admission-Wakes w w' cx held (popped x e) = elim (pop_file-cases file w I) [
    | inl (c, eq) ↦ cc
    | inr (inl eq) ↦ cc
    | inr (inr (_, _, _, _, _, eq)) ↦ rw eq (wake-Woken _ cx held)
  ]
  admission-Wakes w w' cx held (resized window e) = set_window-Woken w window cx held e

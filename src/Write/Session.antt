-- ===== src/Write/Session.antt =====
-- src/write.rs: every sequence of calls of a `WriteScheduler`, from `new` on, with what its fills
-- consumed and the close results that it returned.
pub mod Closed
pub mod Opening
pub mod Bytes
pub mod Stream
pub mod Told
pub mod Bounds
pub mod Delivery
pub mod Failure
pub mod Wakeups
pub mod Status
use carbon_io.Prelude.{
  ℕ, ◌≡◌, List, [], ◌∷◌, ◌++◌, Option, none, some, Result, ok, err, Poll, ready, pending,
}
use carbon_io.Config.{Window, SchedulerConfig}
use carbon_io.Budget.{Waker, State, FrameBudget}
use carbon_io.Traits.{WriteFile}
use carbon_io.Write.Frames.{PartialFrame, FrameAllocator}
use carbon_io.Write.State.{WriteStatus, WriteScheduler, new_writer, set_window}
use carbon_io.Write.Api.{push_file, pop_swap, pop_file, poll_write, poll_close}
use carbon_io.Write.Account.Calls.{swap_output, pop_output}

-- The fill that an answer of `poll_write` reports, with its input.
abbrev pub fills_of : {R I X : Type 0} → Poll (Result (WriteStatus R) X) → I → List (R × I)
fills_of (ready (ok s)) i = elim s.output [ none ↦ [] | some r ↦ (r, i) ∷ [] ]
fills_of _ i = []

abbrev pub listed : {O : Type 0} → Option O → List O
listed none = []
listed (some o) = o ∷ []

-- The calls come in any order. Between two of them, the other users of the budget may change it as
-- they like.
pub data Run {Q T F E O A I R IE : Type 0} (file : WriteFile T F E O)
    (frame : PartialFrame Q I R T IE) (allocator : FrameAllocator Q A) (config : SchedulerConfig)
    : List (R × I) → List O → WriteScheduler Q T F O A → Type 0 where
  opened :
      {w : WriteScheduler Q T F O A} (a : A) (budget : FrameBudget)
      → new_writer a budget config ≡ ok w
      → Run file frame allocator config [] [] w
  pushed :
      {fills : List (R × I)} {outputs : List O} {w : WriteScheduler Q T F O A} (f : F)
      → Run file frame allocator config fills outputs w
      → Run file frame allocator config fills outputs (push_file {I = IE} file w f).0
  windowed :
      {fills : List (R × I)} {outputs : List O} {w : WriteScheduler Q T F O A} (window : Window)
      → Run file frame allocator config fills outputs w
      → Run file frame allocator config fills outputs (set_window w window).0
  written :
      {fills : List (R × I)} {outputs : List O} {w : WriteScheduler Q T F O A} (cx : Waker) (i : I)
      → Run file frame allocator config fills outputs w
      → Run file frame allocator config
          (fills ++ fills_of (poll_write file frame allocator w cx i).result i)
          outputs
          (poll_write file frame allocator w cx i).scheduler
  swapped :
      {fills : List (R × I)} {outputs : List O} {w : WriteScheduler Q T F O A} (f : F)
      → Run file frame allocator config fills outputs w
      → Run file frame allocator config fills
          (outputs ++ listed (swap_output (pop_swap {I = IE} file w f).1))
          (pop_swap {I = IE} file w f).0
  closed_by :
      {fills : List (R × I)} {outputs : List O} {w : WriteScheduler Q T F O A} (cx : Waker)
      → Run file frame allocator config fills outputs w
      → Run file frame allocator config fills outputs
          (poll_close file frame allocator w cx).scheduler
  popped :
      {fills : List (R × I)} {outputs : List O} {w : WriteScheduler Q T F O A}
      → Run file frame allocator config fills outputs w
      → Run file frame allocator config fills
          (outputs ++ listed (pop_output (pop_file {I = IE} file w).1))
          (pop_file {I = IE} file w).0
  elsewhere :
      {fills : List (R × I)} {outputs : List O} {w : WriteScheduler Q T F O A} (state : State)
      → Run file frame allocator config fills outputs w
      → Run file frame allocator config fills outputs
          (record w { budget = record w.budget { state = state } })

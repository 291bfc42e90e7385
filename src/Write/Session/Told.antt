-- ===== src/Write/Session/Told.antt =====
-- src/write.rs: the calls that take input or return results, and whole runs.
use mathlib.Core.List.{append-nil}
use carbon_io.Prelude.{
  ℕ, ◌≡◌, ◌⊎◌, refl, sym, ap, ◌∙◌, Bool, true, false, List, [], ◌++◌, Option, none, some, inl, inr,
  gather, Result, ok, err, Poll, ready, pending,
}
use carbon_io.Config.{SchedulerConfig}
use carbon_io.Budget.{Waker}
use carbon_io.Traits.{WriteFile}
use carbon_io.Write.Frames.{PartialFrame, FrameAllocator}
use carbon_io.Write.Contract.{FrameContract}
use carbon_io.Write.Slots.{Slot, closed}
use carbon_io.Write.State.{
  WriteError, WriteStatus, WriteScheduler, is_writing, is_closing, is_failed,
}
use carbon_io.Write.Api.{pop_swap, pop_file, poll_write, poll_close}
use carbon_io.Write.Queue.{Kept}
use carbon_io.Write.Account.Drive.{Broken}
use carbon_io.Write.Account.Stream.{Holding}
use carbon_io.Write.Account.Fill.{consumed, WriteKept, poll_write-Kept}
use carbon_io.Write.Account.Close.{CloseKept, poll_close-Kept}
use carbon_io.Write.Account.Calls.{
  swap_output, pop_output, Popped, pop_swap-Popped, pop_file-Popped,
}
use carbon_io.Write.Session.{
  fills_of, listed, Run, opened, pushed, windowed, written, swapped, closed_by, popped, elsewhere,
}
use carbon_io.Write.Session.Stream.{
  Told, Broken-writing, opened-Told, waker-Told, pushed-Told, windowed-Told, elsewhere-Told,
}
use carbon_io.Write.Session.Bytes.{more_told, output_told, none_told}
use carbon_io.Write.Session.Closed.{
  pop_swap-closed, pop_file-open, poll_write-closed, poll_close-failed,
}

module _ {Q T F E O A I R IE B : Type 0} {frame : PartialFrame Q I R T IE} {content : Q → List B}
    {bytes : T → List B} {part : R → I → List B} (law : FrameContract frame content bytes part)
    (file : WriteFile T F E O) (max_retries : ℕ) (P : Bool → List T → Slot T F O → Type 0)
    (wrote : O → List B) where
  module _ (allocator : FrameAllocator Q A) (kept : Kept file max_retries P)
      (closes : (stop : Bool) (all : List T) (slot : Slot T F O) (o : O)
        → slot.state ≡ closed o
        → P stop all slot
        → gather bytes all ≡ wrote o) where
    module _ (fills : List (R × I)) (outputs : List O) (w : WriteScheduler Q T F O A) where
      -- The state after a call of `poll_write` or `poll_close`.
      refused-Told :
          (cx : Waker) (i : I)
          → is_writing w.phase ≡ false
          → Told law file max_retries P wrote fills outputs w
          → let d = poll_write file frame allocator w cx i in
            Told law file max_retries P wrote (fills ++ fills_of d.result i) outputs d.scheduler
      refused-Told cx i n t =
          rw (poll_write-closed file frame allocator w cx i n, append-nil fills)
            (waker-Told law file max_retries P wrote allocator kept closes fills outputs w t)

      written-state :
          (cx : Waker) (i : I) (left : List B)
          (result : Poll (Result (WriteStatus R) (WriteError IE E)))
          → (poll_write file frame allocator w cx i).result ≡ result
          → WriteKept law file max_retries P left i (poll_write file frame allocator w cx i)
          → let d = poll_write file frame allocator w cx i in
            ((stop : Bool) × Holding law file max_retries P stop
                (left ++ consumed part i d.result)
                d.scheduler)
            ⊎ Broken d.scheduler
      written-state cx i left pending e k = inl (false, rw (WriteKept, e) at k)
      written-state cx i left (ready (ok s)) e k = inl (false, rw (WriteKept, e) at k)
      written-state cx i left (ready (err x)) e k = let (ends, b) = rw (WriteKept, e) at k in inr b

      written-Told :
          (cx : Waker) (i : I)
          → Told law file max_retries P wrote fills outputs w
          → let d = poll_write file frame allocator w cx i in
            Told law file max_retries P wrote (fills ++ fills_of d.result i) outputs d.scheduler
      written-Told cx i t = elim t.state [
        | inl (false, h) ↦
            let d = poll_write file frame allocator w cx i in
            record {
              left = t.left ++ consumed part i d.result;
              told = more_told part wrote fills outputs t.left d.result i t.told;
              state =
                  written-state cx i t.left d.result refl
                    (poll_write-Kept law file max_retries P kept allocator i w cx t.left h);
            }
        | inl (true, h) ↦ refused-Told cx i (ap is_writing h.on.phased) t
        | inr b ↦
            refused-Told cx i
              (Broken-writing law file max_retries P wrote allocator kept closes w b) t
      ]

      same-Told :
          Told law file max_retries P wrote fills outputs w
          → Told law file max_retries P wrote fills (outputs ++ []) w
      same-Told t = record {
        left = t.left;
        told = t.told ∙ sym (none_told wrote outputs t.left);
        state = t.state;
      }

      taken-Told :
          (stop : Bool) (left : List B) (output : Option O) (v : WriteScheduler Q T F O A)
          → gather (λ fill. part fill.0 fill.1) fills ≡ gather wrote outputs ++ left
          → Popped law file max_retries P kept wrote closes stop left output v
          → Told law file max_retries P wrote fills (outputs ++ listed output) v
      taken-Told stop left none v e h = record {
        left = left;
        told = e ∙ sym (none_told wrote outputs left);
        state = inl (stop, h);
      }
      taken-Told stop left (some o) v e (s, split, h) = record {
        left = s;
        told = output_told wrote outputs o left s _ e split;
        state = inl (stop, h);
      }

      swapped-Told :
          (f : F)
          → Told law file max_retries P wrote fills outputs w
          → let d = pop_swap {I = IE} file w f in
            Told law file max_retries P wrote fills (outputs ++ listed (swap_output d.1)) d.0
      swapped-Told f t = elim t.state [
        | inl (false, h) ↦
            let d = pop_swap {I = IE} file w f in
            taken-Told false t.left (swap_output d.1) d.0 t.told
              (pop_swap-Popped law file max_retries P kept wrote closes IE t.left w f h)
        | inl (true, h) ↦ rw (pop_swap-closed IE file w f (ap is_writing h.on.phased)) (same-Told t)
        | inr b ↦
            rw
              (pop_swap-closed IE file w f
                (Broken-writing law file max_retries P wrote allocator kept closes w b))
              (same-Told t)
      ]

      popped-Told :
          Told law file max_retries P wrote fills outputs w
          → let d = pop_file {I = IE} file w in
            Told law file max_retries P wrote fills (outputs ++ listed (pop_output d.1)) d.0
      popped-Told t = elim t.state [
        | inl (stop, h) ↦
            let d = pop_file {I = IE} file w in
            taken-Told stop t.left (pop_output d.1) d.0 t.told
              (pop_file-Popped law file max_retries P kept wrote closes IE stop t.left w h)
        | inr b ↦ rw (pop_file-open IE file w (ap is_closing b.phased)) (same-Told t)
      ]

      closed-state :
          (cx : Waker) (left : List B) (result : Poll (Result ℕ (WriteError IE E)))
          → (poll_close file frame allocator w cx).result ≡ result
          → CloseKept law file max_retries P allocator kept left
              (poll_close file frame allocator w cx)
          → let d = poll_close file frame allocator w cx in
            ((stop : Bool) × Holding law file max_retries P stop left d.scheduler)
            ⊎ Broken d.scheduler
      closed-state cx left pending e k = inl (true, rw (CloseKept, e) at k)
      closed-state cx left (ready (ok n)) e k =
          let (h, drained) = rw (CloseKept, e) at k in inl (true, h)
      closed-state cx left (ready (err x)) e k = let (ends, b) = rw (CloseKept, e) at k in inr b

      closed-Told :
          (cx : Waker)
          → Told law file max_retries P wrote fills outputs w
          → Told law file max_retries P wrote fills outputs
              (poll_close file frame allocator w cx).scheduler
      closed-Told cx t = elim t.state [
        | inl (stop, h) ↦
            let d = poll_close file frame allocator w cx in
            record {
              left = t.left;
              told = t.told;
              state =
                  closed-state cx t.left d.result refl
                    (poll_close-Kept law file max_retries P allocator kept w cx stop t.left h);
            }
        | inr b ↦
            rw (poll_close-failed file frame allocator w cx (ap is_failed b.phased))
              (waker-Told law file max_retries P wrote allocator kept closes fills outputs w t)
      ]

  -- The account of any run.
  pub Run-Told :
      (allocator : FrameAllocator Q A) (config : SchedulerConfig) (kept : Kept file max_retries P)
      → ((stop : Bool) (all : List T) (slot : Slot T F O) (o : O)
          → slot.state ≡ closed o
          → P stop all slot
          → gather bytes all ≡ wrote o)
      → config.max_retries ≡ max_retries
      → {fills : List (R × I)} {outputs : List O} {w : WriteScheduler Q T F O A}
      → Run file frame allocator config fills outputs w
      → Told law file max_retries P wrote fills outputs w
  Run-Told allocator config kept closes retries (opened {w} a budget e) =
      opened-Told law file max_retries P wrote allocator kept closes a budget config w retries e
  Run-Told allocator config kept closes retries (pushed {fills} {outputs} {w} f r) =
      pushed-Told law file max_retries P wrote allocator kept closes fills outputs w f
        (Run-Told allocator config kept closes retries r)
  Run-Told allocator config kept closes retries (windowed {fills} {outputs} {w} window r) =
      windowed-Told law file max_retries P wrote allocator kept closes fills outputs w window
        (Run-Told allocator config kept closes retries r)
  Run-Told allocator config kept closes retries (written {fills} {outputs} {w} cx i r) =
      written-Told allocator kept closes fills outputs w cx i
        (Run-Told allocator config kept closes retries r)
  Run-Told allocator config kept closes retries (swapped {fills} {outputs} {w} f r) =
      swapped-Told allocator kept closes fills outputs w f
        (Run-Told allocator config kept closes retries r)
  Run-Told allocator config kept closes retries (closed_by {fills} {outputs} {w} cx r) =
      closed-Told allocator kept closes fills outputs w cx
        (Run-Told allocator config kept closes retries r)
  Run-Told allocator config kept closes retries (popped {fills} {outputs} {w} r) =
      popped-Told allocator kept closes fills outputs w
        (Run-Told allocator config kept closes retries r)
  Run-Told allocator config kept closes retries (elsewhere {fills} {outputs} {w} state r) =
      elsewhere-Told law file max_retries P wrote allocator kept closes fills outputs w state
        (Run-Told allocator config kept closes retries r)

-- ===== src/Write/Session/Failure.antt =====
-- src/write.rs: which errors a `WriteScheduler` returns, and what they leave.
use carbon_io.Prelude.{ℕ, ◌≡◌, ◌⊎◌, inl, inr, ap, Bool, true, false, List, none, err, ready}
use carbon_io.Errors.{ContractError, input_closed}
use carbon_io.Config.{Window, SchedulerConfig}
use carbon_io.Budget.{Waker}
use carbon_io.Traits.{WriteFile}
use carbon_io.Write.Frames.{PartialFrame, FrameAllocator}
use carbon_io.Write.State.{
  WriteError, WriteStatus, contract, WriteScheduler, failed, is_writing, is_failed, set_window,
}
use carbon_io.Write.Api.{Written, push_file, pop_swap, pop_file, poll_write, poll_close}
use carbon_io.Write.Account.{phase_of}
use carbon_io.Write.Account.Drive.{Broken}
use carbon_io.Write.Account.Fill.{Ends, WriteKept, poll_write-Kept}
use carbon_io.Write.Account.Close.{CloseKept, poll_close-Kept}
use carbon_io.Write.Account.Calls.Cases.{push_file-cases, pop_swap-cases, pop_file-cases}
use carbon_io.Write.Account.Calls.Adjust.{set_window-rejected}
use carbon_io.Write.Session.{Run}
use carbon_io.Write.Session.Closed.{poll_write-closed, poll_close-failed}
use carbon_io.Write.Session.Bounds.{Run-any, any_frame, any_backend}

module _ {Q T F E O A I R IE : Type 0} (file : WriteFile T F E O) (frame : PartialFrame Q I R T IE)
    (allocator : FrameAllocator Q A) (m : ℕ) where
  write_error-Ends :
      (s : List ⊥) (i : I) (x : WriteError IE E) (d : Written Q T F O A E IE (WriteStatus R))
      → d.result ≡ ready (err x)
      → WriteKept (any_frame frame) file m (λ stop all slot. Unit {0}) s i d
      → Ends x × Broken d.scheduler
  write_error-Ends s i x d e k = rw (WriteKept, e) at k

  close_error-Ends :
      (s : List ⊥) (x : WriteError IE E) (d : Written Q T F O A E IE ℕ)
      → d.result ≡ ready (err x)
      → CloseKept
          (any_frame frame)
          file
          m
          (λ stop all slot. Unit {0})
          allocator
          (any_backend file m)
          s
          d
      → Ends x × Broken d.scheduler
  close_error-Ends s x d e k = rw (CloseKept, e) at k

module _ {Q T F E O A IE : Type 0} where
  -- The refusal of a call, which only forgets the waker of a caller that waited.
  abbrev pub Refused :
      {X : Type 0} → WriteScheduler Q T F O A → WriteError IE E → Written Q T F O A E IE X → Type 0
  Refused w x d = (x ≡ contract input_closed) × (d.scheduler ≡ (record w { waker = none }))

module _ {Q T F O A : Type 0} where
  going :
      (stop : Bool) (w : WriteScheduler Q T F O A) → w.phase ≡ phase_of stop → w.phase ≡ failed → ⊥
  going false w a b = cc
  going true w a b = cc

module _ {Q T F E O A I R IE : Type 0} {file : WriteFile T F E O} {frame : PartialFrame Q I R T IE}
    {allocator : FrameAllocator Q A} {config : SchedulerConfig} where
  -- After any calls of a writer, over any backends and frames: an error of `poll_write` is InputClosed,
  -- if the writer takes no more input, and then only a waiting caller is forgotten; or it is the error
  -- of a backend or of the input or InvalidPartialFrame, and then the writer has failed and holds no
  -- file, no frame and no capacity.
  pub Run-write_error :
      {fills : List (R × I)} {outputs : List O} {w : WriteScheduler Q T F O A}
      → Run file frame allocator config fills outputs w
      → (cx : Waker) (i : I) (x : WriteError IE E)
      → let d = poll_write file frame allocator w cx i in
        d.result ≡ ready (err x)
        → ((is_writing w.phase ≡ false) × Refused w x d) ⊎ (Ends x × Broken d.scheduler)
  Run-write_error {w} r cx i x e =
      let t = Run-any r in
      elim t.state [
        | inl (false, h) ↦ inr (
            write_error-Ends file frame allocator config.max_retries t.left i x
              (poll_write file frame allocator w cx i) e
              (poll_write-Kept (any_frame frame) file config.max_retries (λ stop all slot. Unit {0})
                (any_backend file config.max_retries) allocator i w cx t.left h))
        | inl (true, h) ↦ inl (refused (ap is_writing h.on.phased))
        | inr b ↦ inl (refused (ap is_writing b.phased))
      ]
    where
      refused :
          is_writing w.phase ≡ false
          → (is_writing w.phase ≡ false) × Refused w x (poll_write file frame allocator w cx i)
      refused n =
          let eq = poll_write-closed file frame allocator w cx i n in
          (n, (cc, ap (λ d. d.scheduler) eq))

  -- After any calls of a writer, over any backends and frames: an error of `poll_close` is InputClosed,
  -- if the writer had failed before, and then only a waiting caller is forgotten; or it is the error of
  -- a backend or of the input or InvalidPartialFrame, and then the writer has failed and holds no file,
  -- no frame and no capacity.
  pub Run-close_error :
      {fills : List (R × I)} {outputs : List O} {w : WriteScheduler Q T F O A}
      → Run file frame allocator config fills outputs w
      → (cx : Waker) (x : WriteError IE E)
      → let d = poll_close file frame allocator w cx in
        d.result ≡ ready (err x)
        → ((w.phase ≡ failed) × Refused w x d) ⊎ (Ends x × Broken d.scheduler)
  Run-close_error {w} r cx x e =
      let t = Run-any r in
      elim t.state [
        | inl (stop, h) ↦ inr (
            close_error-Ends file frame allocator config.max_retries t.left x
              (poll_close file frame allocator w cx) e
              (poll_close-Kept (any_frame frame) file config.max_retries (λ stop all slot. Unit {0})
                allocator (any_backend file config.max_retries) w cx stop t.left h))
        | inr b ↦
            let eq = poll_close-failed file frame allocator w cx (ap is_failed b.phased) in
            inl (b.phased, (cc, ap (λ d. d.scheduler) eq))
      ]

  -- After any calls of a writer, over any backends and frames: if it has failed, it holds no file, no
  -- partial frame and no capacity.
  pub Run-failed :
      {fills : List (R × I)} {outputs : List O} {w : WriteScheduler Q T F O A}
      → Run file frame allocator config fills outputs w
      → w.phase ≡ failed
      → Broken w
  Run-failed {w} r e =
      let t = Run-any r in
      elim t.state [ inl (stop, h) ↦ absurd (going stop w h.on.phased e) | inr b ↦ b ]

-- A call that returned an error, and the writer after it.
pub data Rejection {Q T F E O A : Type 0} (I : Type 0) (file : WriteFile T F E O)
    (w : WriteScheduler Q T F O A) : WriteScheduler Q T F O A → Type 0 where
  by_push :
      (f : F) (x : WriteError I E)
      → (push_file file w f).1 ≡ err x
      → Rejection I file w (push_file {I = I} file w f).0
  by_swap :
      (f : F) (x : WriteError I E)
      → (pop_swap file w f).1 ≡ err x
      → Rejection I file w (pop_swap {I = I} file w f).0
  by_pop :
      (x : WriteError I E)
      → (pop_file file w).1 ≡ err x
      → Rejection I file w (pop_file {I = I} file w).0
  by_window :
      (window : Window) (c : ContractError)
      → (set_window w window).1 ≡ err c
      → Rejection I file w (set_window w window).0

module _ {Q T F E O A : Type 0} (I : Type 0) (file : WriteFile T F E O) where
  -- When `push_file`, `pop_swap`, `pop_file` or `set_window` returns an error, the writer is as before.
  pub rejected_unchanged : (w w' : WriteScheduler Q T F O A) → Rejection I file w w' → w' ≡ w
  rejected_unchanged w w' (by_push f x e) = elim (push_file-cases file w f I) [
    | inl (c, eq) ↦ ap (λ d. d.0) eq
    | inr (_, _, eq) ↦ cc
  ]
  rejected_unchanged w w' (by_swap f x e) = elim (pop_swap-cases file w I f) [
    | inl (c, eq) ↦ ap (λ d. d.0) eq
    | inr (_, _, _, _, _, _, eq) ↦ cc
  ]
  rejected_unchanged w w' (by_pop x e) = elim (pop_file-cases file w I) [
    | inl (c, eq) ↦ ap (λ d. d.0) eq
    | inr (inl eq) ↦ cc
    | inr (inr (_, _, _, _, _, eq)) ↦ cc
  ]
  rejected_unchanged w w' (by_window window c e) = set_window-rejected w window c e

-- ===== src/Write/Session/Delivery.antt =====
-- src/write.rs: over backends and frames that keep their contracts, the close results stand for what
-- the fills consumed, in order and each byte once.
use mathlib.Core.List.{append-nil}
use carbon_io.Prelude.{
  ℕ, ◌≡◌, inl, inr, refl, sym, ap, subst, ◌∙◌, Bool, true, false, List, [], ◌∷◌, ◌++◌, arith,
  gather, length, ok, ready,
}
use carbon_io.Config.{SchedulerConfig}
use carbon_io.Budget.{Waker}
use carbon_io.Traits.{WriteFile}
use carbon_io.Write.Contract.{Contract, FrameContract}
use carbon_io.Write.Frames.{Frames, streaming, replay, PartialFrame, FrameAllocator, len}
use carbon_io.Write.Slots.{Slot, is_closed}
use carbon_io.Write.State.{WriteScheduler, is_failed}
use carbon_io.Write.Replay.{Holds, Keeps}
use carbon_io.Write.Runs.{Inv, fresh-Inv, assigned-Inv, polled-Inv, stopped-Inv}
use carbon_io.Write.Api.{Written, reused, poll_close}
use carbon_io.Write.Sized.{Sized, Fits}
use carbon_io.Write.Queue.{Kept}
use carbon_io.Write.Account.Close.{CloseKept, poll_close-Kept}
use carbon_io.Write.Session.{Run}
use carbon_io.Write.Session.Closed.{poll_close-failed}
use carbon_io.Write.Session.Stream.{Told}
use carbon_io.Write.Session.Told.{Run-Told}

module _ {T F E O : Type 0} (file : WriteFile T F E O) (contents : F → List T) (result : O → List T)
    (max_retries : ℕ) where
  empty-Keeps :
      (frames : Frames T)
      → Fits max_retries frames
      → len frames ≡ 0
      → Keeps contents result [] [] max_retries frames
  unfolding len
  empty-Keeps (streaming []) k e = (refl, k)
  empty-Keeps (streaming (t ∷ frames)) k e = cc
  empty-Keeps (replay []) k e = (refl, k)
  empty-Keeps (replay (t ∷ frames)) k e = cc

  reused-Inv :
      (stop : Bool) (n : ℕ) (slot : Slot T F O) (f : F)
      → is_closed slot.state ≡ true
      → Sized max_retries stop n slot
      → Inv contents result max_retries [] false (reused file slot f)
  reused-Inv stop n slot f e s = record {
    holds = (refl, refl, empty-Keeps slot.frames s.kind (s.cleared e));
    counted = refl;
    within = omega arith;
    retried = omega arith;
    finished = λ a b. cc;
    unused = λ a. refl;
  }

module _ {T F E O : Type 0} {file : WriteFile T F E O} {contents : F → List T} {result : O → List T}
    (law : Contract file contents result) (max_retries : ℕ) where
  slots-Kept :
      Kept file max_retries (λ stop all slot. Inv contents result max_retries all stop slot)
  slots-Kept = record {
    fresh = λ f. fresh-Inv law f max_retries;
    assigns =
        λ all slot frame room s p. assigned-Inv law slot.file max_retries all slot frame room p;
    polls = λ stop all slot cx answer e p.
        polled-Inv law slot.file max_retries all stop slot cx answer e p;
    stops = λ all slot p. stopped-Inv law slot.file max_retries all slot p;
    reuses = λ all slot f e s p.
        reused-Inv file contents result max_retries false (length all) slot f e s;
  }

-- The bytes that the fills consumed, and those that the close results stand for.
abbrev pub input_bytes : {R I B : Type 0} → (R → I → List B) → List (R × I) → List B
input_bytes part fills = gather (λ fill. part fill.0 fill.1) fills

abbrev pub output_bytes : {T O B : Type 0} → (T → List B) → (O → List T) → List O → List B
output_bytes bytes result outputs = gather (λ o. gather bytes (result o)) outputs

module _ {Q T F E O A I R IE B : Type 0} {file : WriteFile T F E O} {contents : F → List T}
    {result : O → List T} (law : Contract file contents result) {frame : PartialFrame Q I R T IE}
    {content : Q → List B} {bytes : T → List B} {part : R → I → List B}
    (frame_law : FrameContract frame content bytes part) (config : SchedulerConfig) where
  abbrev Delivered : List (R × I) → List O → WriteScheduler Q T F O A → Type 0
  Delivered fills outputs w =
      Told frame_law file config.max_retries
        (λ stop all slot. Inv contents result config.max_retries all stop slot)
        (λ o. gather bytes (result o)) fills outputs w

  drained :
      (allocator : FrameAllocator Q A) (left : List B) (d : Written Q T F O A E IE ℕ)
      → d.result ≡ ready (ok 0)
      → CloseKept frame_law file config.max_retries
          (λ stop all slot. Inv contents result config.max_retries all stop slot)
          allocator
          (slots-Kept law config.max_retries)
          left
          d
      → left ≡ []
  drained allocator left d e k = let (h, z) = rw (CloseKept, e) at k in z refl

module _ {Q T F E O A I R IE B : Type 0} {file : WriteFile T F E O} {contents : F → List T}
    {result : O → List T} (law : Contract file contents result) {frame : PartialFrame Q I R T IE}
    {content : Q → List B} {bytes : T → List B} {part : R → I → List B}
    (frame_law : FrameContract frame content bytes part) {allocator : FrameAllocator Q A}
    {config : SchedulerConfig} where
  Run-Delivered :
      {fills : List (R × I)} {outputs : List O} {w : WriteScheduler Q T F O A}
      → Run file frame allocator config fills outputs w
      → Delivered law frame_law config fills outputs w
  Run-Delivered r =
      Run-Told frame_law file config.max_retries
        (λ stop all slot. Inv contents result config.max_retries all stop slot)
        (λ o. gather bytes (result o)) allocator config (slots-Kept law config.max_retries)
        (λ stop all slot o e p.
          ap (gather bytes)
            (sym (subst (Holds contents result all config.max_retries slot) e p.holds)))
        refl r

  -- After any calls of a writer over a backend and partial frames that keep their contracts: the bytes
  -- that its fills consumed begin with those that the returned close results stand for, in order and
  -- each once.
  pub Run-in_order :
      {fills : List (R × I)} {outputs : List O} {w : WriteScheduler Q T F O A}
      → Run file frame allocator config fills outputs w
      → (left : List B) × (input_bytes part fills ≡ output_bytes bytes result outputs ++ left)
  Run-in_order r = let t = Run-Delivered r in (t.left, t.told)

  -- After any calls of a writer over a backend and partial frames that keep their contracts: if
  -- `poll_close` is ready with no completed file, the bytes that the fills consumed are exactly those
  -- that the returned close results stand for, in order and each once.
  pub Run-drained :
      {fills : List (R × I)} {outputs : List O} {w : WriteScheduler Q T F O A}
      → Run file frame allocator config fills outputs w
      → (cx : Waker) → (poll_close file frame allocator w cx).result ≡ ready (ok 0)
      → input_bytes part fills ≡ output_bytes bytes result outputs
  Run-drained {fills} {outputs} {w} r cx e =
      let t = Run-Delivered r in
      elim t.state [
        | inl (stop, h) ↦
            let z =
              drained law frame_law config allocator t.left (poll_close file frame allocator w cx) e
                (poll_close-Kept frame_law file config.max_retries
                  (λ stop all slot. Inv contents result config.max_retries all stop slot) allocator
                  (slots-Kept law config.max_retries) w cx stop t.left h) in
            t.told
            ∙ ap (λ xs. output_bytes bytes result outputs ++ xs) z
            ∙ append-nil (output_bytes bytes result outputs)
        | inr b ↦
            let refused = poll_close-failed file frame allocator w cx (ap is_failed b.phased) in cc
      ]

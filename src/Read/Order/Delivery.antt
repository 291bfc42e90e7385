-- ===== src/Read/Order/Delivery.antt =====
-- src/read.rs: what `poll_read` returns, over a backend that keeps its contract.
use carbon_io.Prelude.{
  ℕ, ◌+◌, ◌≡◌, ◌≢◌, inl, inr, refl, sym, ap, ◌∙◌, true, false, Bool-cases, Option-cases, List, [],
  ◌∷◌, none, some, is_some, arith, length, get_elem?, lt-get_elem?, ok, err, ready, pending,
  wrapping_add,
}
use carbon_io.Errors.{SchedulerError, contract, invalid_frame_position}
use carbon_io.Budget.{Waker}
use carbon_io.Traits.{ReadFile}
use carbon_io.Read.State.{Cell, ReadScheduler, Factory, retire}
use carbon_io.Read.Api.{Delivered, poll_progress, deliver, poll_read}
use carbon_io.Read.Contract.{Call, Contract}
use carbon_io.Read.Order.{InOrder}
use carbon_io.Read.Order.Reads.{adjust_capacity-InOrder, taken-InOrder, poll_progress-Progressed}

-- What the caller of `poll_read` may rely on, with `e` frames of the stream delivered: a frame is
-- the next one of the stream; the end comes after the last frame of a closed reader; a pending
-- poll changes no frame of the caller; and no error says `InvalidFramePosition`.
pub data Delivery {T F E A : Type 0} (rest : F → List T) (fits : F → Call T → Type 0)
    (stream : List T) (e : ℕ) (output : T) (d : Delivered T F E A) : Type 0 where
  frame :
      d.result ≡ ready (ok (some tt))
      → get_elem? stream e ≡ some d.output
      → InOrder rest fits stream (e + 1) d.scheduler
      → Delivery rest fits stream e output d
  waits :
      d.result ≡ pending
      → d.output ≡ output
      → InOrder rest fits stream e d.scheduler
      → Delivery rest fits stream e output d
  ends :
      d.result ≡ ready (ok none)
      → d.output ≡ output
      → e ≡ length stream
      → d.scheduler.closed ≡ true
      → InOrder rest fits stream e d.scheduler
      → Delivery rest fits stream e output d
  fails :
      (x : SchedulerError E)
      → d.result ≡ ready (err x)
      → x ≢ contract invalid_frame_position
      → d.output ≡ output
      → d.scheduler.terminated ≡ true
      → Delivery rest fits stream e output d

module _ {T F E A : Type 0} ⦃file : ReadFile T F E⦄ ⦃factory : Factory T A⦄ (rest : F → List T)
    (fits : F → Call T → Type 0) (stream : List T) (e : ℕ) where
  deliver-Delivery :
      (r : ReadScheduler T F E A) (output : T) (frames : List (Cell T))
      → InOrder rest fits stream e r
      → r.terminated ≡ false
      → r.frames ≡ frames
      → Delivery rest fits stream e output (deliver r output frames)
  unfolding deliver
  deliver-Delivery r output [] inv alive top = waits refl refl inv
  deliver-Delivery r output (cell ∷ frames) inv alive top = elim (Bool-cases cell.complete) [
    | inr wait ↦ rw (wait, deliver) (waits refl refl inv)
    | inl full ↦
        let (same, k) = inv.cells 0 cell (rw top refl) full in
        let (x, there) = lt-get_elem? stream e (omega (arith, inv.window, ap length top)) in
        let zero_right : e + 0 ≡ e = omega arith in
        let here : cell.frame ≡ some x = same ∙ ap (get_elem? stream) zero_right ∙ there in
        let taken : ReadScheduler T F E A = record r {
          frames = frames;
          emitted = wrapping_add r.emitted 1;
          recycled = output ∷ r.recycled;
        } in
        rw (full, deliver, here)
          (frame refl there (
            adjust_capacity-InOrder rest fits stream (e + 1) (retire taken) (
              taken-InOrder rest fits stream e r cell frames (output ∷ r.recycled) inv alive top
                full)))
  ]

-- `poll_read` on a reader that is in order, over files that keep their contract, returns the next
-- frame of the stream and stays in order; or is pending or at the end of a closed reader's stream,
-- with the caller's frame unchanged; or fails with an error other than `InvalidFramePosition`, and
-- has terminated.
pub poll_read-Delivery :
    {T F E A : Type 0} ⦃file : ReadFile T F E⦄ ⦃factory : Factory T A⦄ (rest : F → List T)
    (fits : F → Call T → Type 0) (stream : List T) (e : ℕ) (r : ReadScheduler T F E A) (cx : Waker)
    (output : T)
    → Contract file rest fits
    → InOrder rest fits stream e r
    → Delivery rest fits stream e output (poll_read r cx output)
unfolding poll_read
poll_read-Delivery rest fits stream e r cx output keeps inv =
    let s = poll_progress r cx in
    elim (poll_progress-Progressed rest fits keeps stream e r cx inv) [
      | inr (x, stored, sound, t) ↦ simp (stored, poll_read) (fails x refl sound refl t)
      | inl inv' ↦ elim (Option-cases s.error) [
        | inr (x, stored) ↦ let q = ap is_some (sym stored) ∙ inv'.quiet in cc
        | inl calm ↦ elim (Bool-cases s.terminated) [
          | inl t ↦
              let (closed, all) = inv'.finished t in
              simp (calm, poll_read, t) (ends refl refl all closed inv')
          | inr alive ↦
              simp (calm, poll_read, alive)
                (deliver-Delivery rest fits stream e s output s.frames inv' alive refl)
        ]
      ]
    ]

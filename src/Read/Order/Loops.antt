-- ===== src/Read/Order/Loops.antt =====
-- src/read.rs: `drive` keeps the order, over a backend that keeps its contract.
use carbon_io.Prelude.{
  ℕ, zero, suc, ◌%◌, ◌<◌, ◌≡◌, ◌≢◌, inl, inr, refl, ◌∙◌, Bool, false, ◌||◌, Bool-cases,
  Result-cases, List, arith, ◌==◌, length,
}
use carbon_io.Errors.{contract, invalid_frame_position}
use carbon_io.Budget.{Waker}
use carbon_io.Traits.{ReadFile}
use carbon_io.Read.State.{ReadScheduler, Factory, no_files, retire, authorize}
use carbon_io.Read.Drive.{
  Pass, swept, stopped, failed, Outcome, Driven, done, error, exhausted, unblock_all, grow_permit,
  sweep, drive_loop, poll_limit, drive,
}
use carbon_io.Read.Steps.{
  moved, polled, sweep-failed, sweep-stopped, sweep-goes_on, pass, drive_loop-empty,
  drive_loop-failed, drive_loop-stopped, drive_loop-retired, drive_loop-again, drive_loop-idle,
}
use carbon_io.Read.Contract.{Call, Contract}
use carbon_io.Read.Order.{InOrder, Kept}
use carbon_io.Read.Order.Polls.{poll_file-Kept}
use carbon_io.Read.Order.Retire.{retire-InOrder, authorize-InOrder}
use carbon_io.Read.Order.Parts.{
  some_files-length, unblock_all-InOrder, finish-InOrder, wake_unblocked-InOrder,
  grow_permit-InOrder, grow_permit-error,
}

module _ {T F E A : Type 0} (rest : F → List T) (fits : F → Call T → Type 0) (stream : List T)
    (e : ℕ) where
  -- `drive` ends in order, or with an error that is not `InvalidFramePosition`.
  abbrev pub OutcomeKept : ReadScheduler T F E A → Outcome E → Type 0
  OutcomeKept s (error x) = x ≢ contract invalid_frame_position
  OutcomeKept s done = InOrder rest fits stream e s
  OutcomeKept s exhausted = InOrder rest fits stream e s

  abbrev pub DriveKept : Driven T F E A → Type 0
  DriveKept d = OutcomeKept d.scheduler d.outcome

module _ {T F E A : Type 0} ⦃file : ReadFile T F E⦄ ⦃factory : Factory T A⦄ (rest : F → List T)
    (fits : F → Call T → Type 0) (keeps : Contract file rest fits) (stream : List T) (e : ℕ) where
  -- What a sweep over `count` files keeps.
  abbrev PassKept : ℕ → Pass T F E A → Type 0
  PassKept count (swept s left now) = InOrder rest fits stream e s × (length s.files ≡ count)
  PassKept count (stopped s) = InOrder rest fits stream e s
  PassKept count (failed s x) = x ≢ contract invalid_frame_position

  sweep-PassKept :
      (rounds count : ℕ) (r : ReadScheduler T F E A) (cx : Waker) (remaining : ℕ)
      (progressed : Bool)
      → 0 < count
      → length r.files ≡ count
      → InOrder rest fits stream e r
      → PassKept count (sweep rounds count r cx remaining progressed)
  unfolding sweep
  sweep-PassKept zero count r cx remaining progressed pos same inv = (inv, same)
  sweep-PassKept (suc rounds) count r cx remaining progressed pos same inv =
      let start = moved rounds count r cx remaining progressed in
      let p = polled rounds count r cx remaining progressed in
      let kept : Kept rest fits stream e (length r.files) p =
        poll_file-Kept rest fits keeps stream e start (r.cursor % count) cx remaining inv
          (omega arith) in
      elim (Result-cases p.result) [
        | inl (changed, eq) ↦
            let (inv', same') = rw (Kept, eq) at kept in
            elim (Bool-cases (p.remaining == 0)) [
              | inl z ↦
                  rw (sweep-stopped rounds count r cx remaining progressed changed eq z)
                    (wake_unblocked-InOrder rest fits stream e p.scheduler cx inv')
              | inr z ↦ rw (sweep-goes_on rounds count r cx remaining progressed changed eq z) (
                  sweep-PassKept rounds count p.scheduler cx p.remaining (changed || progressed) pos
                    (same' ∙ same) inv')
            ]
        | inr (x, eq) ↦
            rw (sweep-failed rounds count r cx remaining progressed x eq) (rw (Kept, eq) at kept)
      ]

  drive_loop-Kept :
      (fuel : ℕ) (r : ReadScheduler T F E A) (cx : Waker) (remaining : ℕ)
      → InOrder rest fits stream e r
      → DriveKept rest fits stream e (drive_loop fuel r cx remaining)
  unfolding drive_loop
  drive_loop-Kept zero r cx remaining inv = inv
  drive_loop-Kept (suc fuel) r cx remaining inv = elim (Bool-cases (no_files r.files)) [
    | inl n ↦
        rw (drive_loop-empty fuel r cx remaining n) (finish-InOrder rest fits stream e r n inv)
    | inr n ↦
        after n (pass fuel r cx remaining n) refl
          (sweep-PassKept (length r.files) (length r.files) r cx remaining false
            (some_files-length r.files n) refl inv)
          (λ s left inv'. drive_loop-Kept fuel s cx left inv')
  ]
    where
      after :
          (n : no_files r.files ≡ false) (found : Pass T F E A)
          → pass fuel r cx remaining n ≡ found
          → PassKept (length r.files) (pass fuel r cx remaining n)
          → ((s : ReadScheduler T F E A) (left : ℕ)
              → InOrder rest fits stream e s
              → DriveKept rest fits stream e (drive_loop fuel s cx left))
          → DriveKept rest fits stream e (drive_loop (suc fuel) r cx remaining)
      after n (failed s x) eq k ih =
          rw (drive_loop-failed fuel r cx remaining n s x eq) (rw eq at k)
      after n (stopped s) eq k ih = rw (drive_loop-stopped fuel r cx remaining n s eq) (rw eq at k)
      after n (swept s left progressed) eq k ih =
          let (inv', same) = rw eq at k in
          let retired = retire-InOrder rest fits stream e s inv' in
          let next = authorize-InOrder rest fits stream e (retire s) retired in
          elim (Bool-cases (no_files (retire s).files)) [
            | inl empty ↦
                rw (drive_loop-retired fuel r cx remaining n s left progressed eq empty)
                  (finish-InOrder rest fits stream e (retire s) empty retired)
            | inr more ↦ elim (Bool-cases progressed) [
              | inl p ↦
                  rw (drive_loop-again fuel r cx remaining n s left progressed eq more p)
                    (ih (authorize (retire s)) left next)
              | inr p ↦ rw (drive_loop-idle fuel r cx remaining n s left progressed eq more p) next
            ]
          ]

  -- A whole call of `drive` keeps the order.
  pub drive-Kept :
      (r : ReadScheduler T F E A) (cx : Waker)
      → InOrder rest fits stream e r
      → DriveKept rest fits stream e (drive r cx)
  unfolding drive
  drive-Kept r cx inv =
      let g = (grow_permit r cx).0 in
      let grown =
        authorize-InOrder rest fits stream e g (grow_permit-InOrder rest fits stream e r cx inv) in
      let s = unblock_all (authorize g) in
      elim (Result-cases (grow_permit r cx).1) [
        | inl (u, eq) ↦
            rw (eq, drive)
              (drive_loop-Kept (suc (poll_limit s)) s cx (poll_limit s)
                (unblock_all-InOrder rest fits stream e (authorize g) grown))
        | inr (x, eq) ↦ rw (eq, drive) (grow_permit-error rest fits stream e r cx x eq)
      ]

-- ===== src/Write/Progress.antt =====
-- `WriteScheduler::drive` of src/write.rs ends: every round of its loop that goes on has used up one
-- of the operations that a call may make.
use carbon_io.Prelude.{
  ℕ, zero, suc, ◌-◌, ◌≤◌, ◌<◌, ◌≡◌, ◌≢◌, ◌⊎◌, inl, inr, refl, Bool, true, false, arith, ◌==◌,
  length, get_elem?, Bool-cases, Option-cases, Result-cases,
}
use carbon_io.Budget.{Waker}
use carbon_io.Traits.{WriteFile}
use carbon_io.Write.State.{WriteScheduler}
use carbon_io.Write.Drive.{
  Pass, swept, stopped, failed, exhausted, max_poll_ops, sweep, drive_loop, drive,
}
use carbon_io.Write.Steps.{
  turn, polled, next, sweep-missing, sweep-error, sweep-unchanged, sweep-stopped, sweep-changed,
}

-- What a sweep leaves: operations remain, and fewer than before if it made progress.
abbrev Swept : {P T F R A E I : Type 0} → ℕ → Bool → Pass P T F R A E I → Type 0
Swept remaining progressed (swept w left now) =
    (0 < left) × (left ≤ remaining) × (now ≡ true → (progressed ≡ true) ⊎ (left < remaining))
Swept remaining progressed _ = Unit {0}

module _ {P T F E R A : Type 0} (I : Type 0) (file : WriteFile T F E R) where
  Swept-spent :
      (before : ℕ) (progressed : Bool) (pass : Pass P T F R A E I)
      → 0 < before
      → Swept (before - 1) true pass
      → Swept before progressed pass
  Swept-spent before progressed (swept w left now) pos (more, le, gain) =
      (more, omega arith, λ e. inr (omega arith))
  Swept-spent before progressed (stopped w) pos h = tt
  Swept-spent before progressed (failed w e) pos h = tt

  sweep-Swept :
      (rounds count : ℕ) (w : WriteScheduler P T F R A) (cx : Waker) (remaining : ℕ)
      (progressed : Bool)
      → 0 < remaining
      → Swept remaining progressed (sweep {I = I} file rounds count w cx remaining progressed)
  unfolding sweep
  sweep-Swept zero count w cx remaining progressed h = (h, omega arith, λ e. inl e)
  sweep-Swept (suc rounds) count w cx remaining progressed h =
      elim (Option-cases (get_elem? w.files (turn count w))) [
        | inl e ↦ rw (sweep-missing file rounds count w cx remaining progressed e) tt
        | inr (slot, e) ↦ elim (Result-cases (polled file w slot cx).result) [
          | inr (x, eq) ↦
              rw (sweep-error file rounds count w cx remaining progressed slot e x eq) tt
          | inl ((false, released), eq) ↦
              rw (sweep-unchanged file rounds count w cx remaining progressed slot e released eq) (
                sweep-Swept rounds count (next file w slot cx count false released) cx remaining
                  progressed h)
          | inl ((true, released), eq) ↦ elim (Bool-cases (remaining - 1 == 0)) [
            | inl z ↦
                rw (sweep-stopped file rounds count w cx remaining progressed slot e released eq z)
                  tt
            | inr z ↦
                rw (sweep-changed file rounds count w cx remaining progressed slot e released eq z)
                  (Swept-spent remaining progressed _ h (
                    sweep-Swept rounds count (next file w slot cx count true released) cx
                      (remaining - 1) true (ground arith)))
          ]
        ]
      ]

  drive_loop-ends :
      (fuel : ℕ) (w : WriteScheduler P T F R A) (cx : Waker) (remaining : ℕ)
      → 0 < remaining
      → remaining < fuel
      → (drive_loop {I = I} file fuel w cx remaining).outcome ≢ exhausted
  unfolding drive_loop
  drive_loop-ends zero w cx remaining pos enough = absurd (omega arith)
  drive_loop-ends (suc fuel) w cx remaining pos enough =
      after (sweep {I = I} file (length w.files) (length w.files) w cx remaining false) refl
        (sweep-Swept (length w.files) (length w.files) w cx remaining false pos)
        (λ s left lt more. drive_loop-ends fuel s cx left more (omega arith))
    where
      after :
          (found : Pass P T F R A E I)
          → sweep file (length w.files) (length w.files) w cx remaining false ≡ found
          → Swept remaining false found
          → ((s : WriteScheduler P T F R A) (left : ℕ)
              → left < remaining
              → 0 < left
              → (drive_loop {I = I} file fuel s cx left).outcome ≢ exhausted)
          → (drive_loop {I = I} file (suc fuel) w cx remaining).outcome ≢ exhausted
      after (failed s x) eq h ih = rw (eq, drive_loop) (λ t. cc)
      after (stopped s) eq h ih = rw (eq, drive_loop) (λ t. cc)
      after (swept s left false) eq h ih = rw (eq, drive_loop) (λ t. cc)
      after (swept s left true) eq (more, le, gain) ih =
          rw (eq, drive_loop) (ih s left (elim (gain refl) [ inl f ↦ cc | inr lt ↦ lt ]) more)

  -- `drive` always returns: its loop never needs more rounds than the fuel it is given.
  pub write_drive-ends :
      (w : WriteScheduler P T F R A) (cx : Waker) → (drive {I = I} file w cx).outcome ≢ exhausted
  unfolding drive
  write_drive-ends w cx = elim (Bool-cases (length w.files == 0)) [
    | inl e ↦ rw e (λ t. cc)
    | inr e ↦
        rw e (drive_loop-ends (suc max_poll_ops) w cx max_poll_ops (omega arith) (omega arith))
  ]

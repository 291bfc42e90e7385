-- ===== src/Read/Progress.antt =====
-- `drive` of src/read.rs ends: every round of its loop that goes on has used up a poll.
use carbon_io.Prelude.{
  ℕ, zero, suc, ◌+◌, ◌-◌, ◌%◌, ◌≤◌, ◌<◌, ◌≡◌, ◌≢◌, ◌⊎◌, inl, inr, refl, ap, ◌∙◌, Result-cases, Bool,
  true, false, ◌||◌, Option, none, some, arith, ◌==◌, get_elem?, Bool-cases, Option-cases, Result,
  ok, err, Poll, ready, pending,
}
use carbon_io.Errors.{SchedulerError}
use carbon_io.Budget.{Waker}
use carbon_io.Traits.{ReadFile}
use carbon_io.Read.State.{
  FileState, opening, reading, Slot, Cell, ReadScheduler, Factory, no_files, retire, authorize,
}
use carbon_io.Read.Files.{
  Polled, opened, received, cell_buffer, read_cell, poll_reading, poll_slot, poll_file,
}
use carbon_io.Read.Steps.{
  poll_file-missing, poll_file-blocked, poll_file-free, moved, polled, sweep-failed, sweep-stopped,
  sweep-goes_on, pass, drive_loop-empty, drive_loop-failed, drive_loop-stopped, drive_loop-retired,
  drive_loop-again, drive_loop-idle,
}
use carbon_io.Read.Drive.{
  Pass, swept, stopped, failed, exhausted, grow_permit, unblock_all, sweep, drive_loop, poll_limit,
  drive,
}

-- A poll of a file takes at most one from the polls that remain, and one if it made progress.
pub record Spends {T F E A : Type 0} (remaining : ℕ) (p : Polled T F E A) : Type 0 where
  pub at_most : p.remaining ≤ remaining
  pub at_least : remaining ≤ p.remaining + 1
  pub progress : p.result ≡ ok true → p.remaining + 1 ≤ remaining

module _ {T F E A : Type 0} where
  opened-Spends :
      (r : ReadScheduler T F E A) (index : ℕ) (slot : Slot F) (remaining : ℕ)
      (answer : Poll (Result (Unit {0}) E))
      → 0 < remaining
      → Spends remaining (opened r index slot (remaining - 1) answer)
  unfolding opened
  opened-Spends r index slot remaining pending h = ground arith
  opened-Spends r index slot remaining (ready (ok _)) h = ground arith
  opened-Spends r index slot remaining (ready (err e)) h = ground arith

  received-Spends :
      (r : ReadScheduler T F E A) (index : ℕ) (slot : Slot F) (offset : ℕ) (frame : T)
      (remaining : ℕ) (answer : Poll (Result (Option (Unit {0})) E))
      → 0 < remaining
      → Spends remaining (received r index slot offset frame (remaining - 1) answer)
  unfolding received
  received-Spends r index slot offset frame remaining pending h = ground arith
  received-Spends r index slot offset frame remaining (ready (err e)) h = ground arith
  received-Spends r index slot offset frame remaining (ready (ok (some _))) h = ground arith
  received-Spends r index slot offset frame remaining (ready (ok none)) h = ground arith

poll_limit_pos : {T F E A : Type 0} (r : ReadScheduler T F E A) → 0 < poll_limit r
unfolding poll_limit
poll_limit_pos r = omega arith

module _ {T F E A : Type 0} ⦃file : ReadFile T F E⦄ ⦃factory : Factory T A⦄ where
  still-Spends :
      (s : ReadScheduler T F E A) (remaining : ℕ) (e : Result Bool (SchedulerError E))
      → e ≢ ok true
      → Spends remaining (record { scheduler = s; remaining = remaining; result = e })
  still-Spends s remaining e h = record {
    at_most = omega arith;
    at_least = omega arith;
    progress = λ t. absurd (h t);
  }

  read_cell-Spends :
      (r : ReadScheduler T F E A) (index : ℕ) (slot : Slot F) (offset : ℕ) (cx : Waker)
      (remaining : ℕ) (cell : Option (Cell T))
      → 0 < remaining
      → Spends remaining (read_cell r index slot offset cx remaining cell)
  unfolding read_cell
  read_cell-Spends r index slot offset cx remaining none h = still-Spends r remaining _ (λ e. cc)
  read_cell-Spends r index slot offset cx remaining (some cell) h =
      elim (Bool-cases cell.complete) [
        | inl c ↦ rw c (still-Spends r remaining _ (λ e. cc))
        | inr c ↦
            let b = cell_buffer r cell.frame in
            let a = file.poll_read slot.file cx b.0 in
            rw c (received-Spends b.1 index (record slot { file = a.0 }) offset a.1 remaining a.2 h)
      ]

  poll_slot-Spends :
      (r : ReadScheduler T F E A) (index : ℕ) (slot : Slot F) (state : FileState) (cx : Waker)
      (remaining : ℕ)
      → 0 < remaining
      → Spends remaining (poll_slot r index slot state cx remaining)
  unfolding poll_slot
  poll_slot-Spends r index slot opening cx remaining h =
      let a = file.poll_open slot.file cx in
      opened-Spends r index (record slot { file = a.0 }) remaining a.1 h
  poll_slot-Spends r index slot reading cx remaining h =
      elim (Bool-cases (slot.received == slot.count)) [
        | inl e ↦ rw (e, poll_reading) (still-Spends _ remaining _ (λ t. cc))
        | inr e ↦ rw (e, poll_reading) (read_cell-Spends r index slot _ cx remaining _ h)
      ]

  pub poll_file-Spends :
      (r : ReadScheduler T F E A) (index : ℕ) (cx : Waker) (remaining : ℕ)
      → 0 < remaining
      → Spends remaining (poll_file r index cx remaining)
  unfolding poll_file
  poll_file-Spends r index cx remaining h = elim (Option-cases (get_elem? r.files index)) [
    | inl e ↦ rw (poll_file-missing r index cx remaining e) (still-Spends r remaining _ (λ t. cc))
    | inr (slot, e) ↦ elim (Bool-cases slot.blocked) [
      | inl b ↦
          rw (poll_file-blocked r index cx remaining slot e b)
            (still-Spends r remaining _ (λ t. cc))
      | inr b ↦
          rw (poll_file-free r index cx remaining slot e b)
            (poll_slot-Spends r index slot slot.state cx remaining h)
    ]
  ]

  -- What a sweep leaves: polls remain, and fewer than before if it made progress.
  abbrev Swept : ℕ → Bool → Pass T F E A → Type 0
  Swept remaining progressed (swept s left now) =
      (0 < left) × (left ≤ remaining) × (now ≡ true → (progressed ≡ true) ⊎ (left < remaining))
  Swept remaining progressed _ = Unit {0}

  Swept-step :
      (before left : ℕ) (progressed changed : Bool) (pass : Pass T F E A)
      → left ≤ before
      → (changed ≡ true → left < before)
      → Swept left (changed || progressed) pass
      → Swept before progressed pass
  Swept-step before left progressed true (swept s rest now) le lt (pos, rest_le, gain) =
      (pos, omega arith, λ e. inr (omega (arith, lt refl)))
  Swept-step before left progressed false (swept s rest now) le lt (pos, rest_le, gain) =
      (pos, omega arith, λ e. elim (gain e) [ inl p ↦ inl p | inr l ↦ inr (omega arith) ])
  Swept-step before left progressed changed (stopped s) le lt w = tt
  Swept-step before left progressed changed (failed s e) le lt w = tt

  sweep-Swept :
      (rounds count : ℕ) (r : ReadScheduler T F E A) (cx : Waker) (remaining : ℕ)
      (progressed : Bool)
      → 0 < remaining
      → Swept remaining progressed (sweep rounds count r cx remaining progressed)
  unfolding sweep
  sweep-Swept zero count r cx remaining progressed h = (h, omega arith, λ e. inl e)
  sweep-Swept (suc rounds) count r cx remaining progressed h =
      let p = polled rounds count r cx remaining progressed in
      let spends =
        poll_file-Spends (moved rounds count r cx remaining progressed) (r.cursor % count) cx
          remaining h in
      elim (Result-cases p.result) [
        | inl (changed, eq) ↦ elim (Bool-cases (p.remaining == 0)) [
          | inl z ↦ rw (sweep-stopped rounds count r cx remaining progressed changed eq z) tt
          | inr z ↦ rw (sweep-goes_on rounds count r cx remaining progressed changed eq z) (
              Swept-step remaining p.remaining progressed changed _ spends.at_most
                (λ c. omega (arith, spends.progress (eq ∙ ap ok c)))
                (sweep-Swept rounds count p.scheduler cx p.remaining (changed || progressed)
                  (ground arith)))
        ]
        | inr (e, eq) ↦ rw (sweep-failed rounds count r cx remaining progressed e eq) tt
      ]

  drive_loop-ends :
      (fuel : ℕ) (r : ReadScheduler T F E A) (cx : Waker) (remaining : ℕ)
      → 0 < remaining
      → remaining < fuel
      → (drive_loop fuel r cx remaining).outcome ≢ exhausted
  drive_loop-ends zero r cx remaining pos enough = absurd (omega arith)
  drive_loop-ends (suc fuel) r cx remaining pos enough = elim (Bool-cases (no_files r.files)) [
    | inl e ↦ rw (drive_loop-empty fuel r cx remaining e) (λ x. cc)
    | inr e ↦
        after e (pass fuel r cx remaining e) refl (sweep-Swept _ _ r cx remaining false pos)
          (λ s left lt pos'. drive_loop-ends fuel s cx left pos' (omega arith))
  ]
    where
      after :
          (e : no_files r.files ≡ false) (found : Pass T F E A)
          → pass fuel r cx remaining e ≡ found
          → Swept remaining false (pass fuel r cx remaining e)
          → ((s : ReadScheduler T F E A) (left : ℕ)
              → left < remaining
              → 0 < left
              → (drive_loop fuel s cx left).outcome ≢ exhausted)
          → (drive_loop (suc fuel) r cx remaining).outcome ≢ exhausted
      after e (failed s x) eq w ih = rw (drive_loop-failed fuel r cx remaining e s x eq) (λ t. cc)
      after e (stopped s) eq w ih = rw (drive_loop-stopped fuel r cx remaining e s eq) (λ t. cc)
      after e (swept s left progressed) eq w ih = elim (Bool-cases (no_files (retire s).files)) [
        | inl n ↦ rw (drive_loop-retired fuel r cx remaining e s left progressed eq n) (λ t. cc)
        | inr n ↦ elim (Bool-cases progressed) [
          | inl p ↦ rw (drive_loop-again fuel r cx remaining e s left progressed eq n p) (
              let (more, le, gain) = rw eq at w in
              ih (authorize (retire s)) left (elim (gain p) [ inl f ↦ cc | inr lt ↦ lt ]) more)
          | inr p ↦ rw (drive_loop-idle fuel r cx remaining e s left progressed eq n p) (λ t. cc)
        ]
      ]

  -- `drive` always returns: its loop never needs more rounds than the fuel it is given.
  pub drive-ends : (r : ReadScheduler T F E A) (cx : Waker) → (drive r cx).outcome ≢ exhausted
  unfolding drive
  drive-ends r cx = elim (Result-cases (grow_permit r cx).1) [
    | inl (u, e) ↦
        let s = unblock_all (authorize (grow_permit r cx).0) in
        rw (e, drive)
          (drive_loop-ends (suc (poll_limit s)) s cx (poll_limit s) (poll_limit_pos s)
            (omega arith))
    | inr (x, e) ↦ rw (e, drive) (λ t. cc)
  ]

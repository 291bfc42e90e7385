-- ===== src/Write/Drive.antt =====
-- src/write.rs: `WriteScheduler::drive`, the round-robin loop over the destinations.
use carbon_io.Prelude.{
  ℕ, zero, suc, ◌+◌, ◌-◌, ◌%◌, min, max, Bool, true, false, ◌&&◌, [], ◌∷◌, ◌++◌, none, some, ltb,
  ◌==◌, if◌then◌else◌, length, get_elem?, ok, err, saturating_sub,
}
use carbon_io.Errors.{missing_write_file}
use carbon_io.Budget.{Waker}
use carbon_io.Traits.{WriteFile}
use carbon_io.Write.Slots.{Slot, is_closed, poll_slot}
use carbon_io.Write.State.{
  WriteError, backend, contract, WriteScheduler, is_closing, shrink_permit, fail, put_slot,
}

-- src/lib.rs: `MAX_POLL_OPS`.
abbrev pub max_poll_ops : ℕ
max_poll_ops = 256

-- The inner `for` over the files ended, or made `drive` return.
pub data Pass (P T F R A E I : Type 0) : Type 0 where
  swept : WriteScheduler P T F R A → (remaining : ℕ) → (progressed : Bool) → Pass P T F R A E I
  stopped : WriteScheduler P T F R A → Pass P T F R A E I
  failed : WriteScheduler P T F R A → WriteError I E → Pass P T F R A E I

-- How `drive` ends; `exhausted` is the model's own, for fuel that runs out.
pub data Outcome (E I : Type 0) : Type 0 where
  done : Outcome E I
  error : WriteError I E → Outcome E I
  exhausted : Outcome E I

pub record Driven (P T F R A E I : Type 0) : Type 0 where
  pub scheduler : WriteScheduler P T F R A
  pub outcome : Outcome E I

module _ {P T F R A : Type 0} where
  -- The capacity that a poll has released, back to the budget.
  unfoldable pub release :
      WriteScheduler P T F R A → Slot T F R → Bool → ℕ → WriteScheduler P T F R A
  unfolding shrink_permit
  release w slot changed released =
      let u : WriteScheduler P T F R A = record w { used = saturating_sub w.used released } in
      if changed && is_closed slot.state
      then shrink_permit u u.used
      else if ltb 0 released
      then (let desired =
            if is_closing w.phase then u.used else max w.config.window.target_frames u.used in
          shrink_permit u (min u.permit.capacity desired))
      else u

  abbrev pub wake_by_ref : WriteScheduler P T F R A → Waker → WriteScheduler P T F R A
  wake_by_ref w cx = record w { woken = w.woken ++ cx ∷ [] }

module _ {P T F E R A I : Type 0} (file : WriteFile T F E R) where
  -- The inner `for`, with the rounds that are left.
  unfoldable pub sweep : ℕ → ℕ → WriteScheduler P T F R A → Waker → ℕ → Bool → Pass P T F R A E I
  unfolding poll_slot release fail
  sweep zero count w cx remaining progressed = swept w remaining progressed
  sweep (suc rounds) count w cx remaining progressed =
      let index = w.poll_cursor % count in
      let moved : WriteScheduler P T F R A = record w { poll_cursor = (index + 1) % count } in
      elim (get_elem? w.files index) [
        | none ↦ failed moved (contract missing_write_file)
        | some slot ↦
            let p = poll_slot file slot cx (is_closing w.phase) w.config.max_retries in
            let polled = put_slot moved index p.slot in
            elim p.result [
              | err e ↦ failed (fail polled) (backend e)
              | ok (changed, released) ↦
                  let next = release polled p.slot changed released in
                  elim changed [
                    | false ↦ sweep rounds count next cx remaining progressed
                    | true ↦ elim (remaining - 1 == 0) [
                      | true ↦ stopped (wake_by_ref next cx)
                      | false ↦ sweep rounds count next cx (remaining - 1) true
                    ]
                  ]
            ]
      ]

  -- The `loop`.
  unfoldable pub drive_loop : ℕ → WriteScheduler P T F R A → Waker → ℕ → Driven P T F R A E I
  unfolding sweep
  drive_loop zero w cx remaining = record { scheduler = w; outcome = exhausted }
  drive_loop (suc fuel) w cx remaining =
      elim (sweep (length w.files) (length w.files) w cx remaining false) [
        | failed s e ↦ record { scheduler = s; outcome = error e }
        | stopped s ↦ record { scheduler = s; outcome = done }
        | swept s left progressed ↦ elim progressed [
          | true ↦ drive_loop fuel s cx left
          | false ↦ record { scheduler = s; outcome = done }
        ]
      ]

  unfoldable pub drive : WriteScheduler P T F R A → Waker → Driven P T F R A E I
  unfolding drive_loop
  drive w cx =
      if length w.files == 0
      then record { scheduler = w; outcome = done }
      else drive_loop (suc max_poll_ops) w cx max_poll_ops

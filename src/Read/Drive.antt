-- ===== src/Read/Drive.antt =====
-- src/read.rs: `drive`, the round-robin loop over the files.
use carbon_io.Prelude.{
  ℕ, zero, suc, ◌%◌, min, max, Bool, true, false, not, ◌||◌, [], ◌∷◌, ◌++◌, map, ltb, ◌==◌,
  if◌then◌else◌, length, any, Result, ok, err, Poll, ready, pending, wrapping_add, saturating_add,
}
use carbon_io.Errors.{ContractError, SchedulerError, contract}
use carbon_io.Budget.{Waker, poll_grow}
use carbon_io.Traits.{ReadFile}
use carbon_io.Read.State.{Slot, ReadScheduler, Factory, no_files, shrink_permit, authorize, retire}
use carbon_io.Read.Files.{poll_file}

-- src/lib.rs: `MAX_POLL_OPS`.
abbrev pub max_poll_ops : ℕ
max_poll_ops = 256

-- The inner `for` over the files ended, or made `drive` return.
pub data Pass (T F E A : Type 0) : Type 0 where
  swept : ReadScheduler T F E A → (remaining : ℕ) → (progressed : Bool) → Pass T F E A
  stopped : ReadScheduler T F E A → Pass T F E A
  failed : ReadScheduler T F E A → SchedulerError E → Pass T F E A

-- How `drive` ends; `exhausted` is the model's own, for fuel that runs out.
pub data Outcome (E : Type 0) : Type 0 where
  done : Outcome E
  error : SchedulerError E → Outcome E
  exhausted : Outcome E

pub record Driven (T F E A : Type 0) : Type 0 where
  pub scheduler : ReadScheduler T F E A
  pub outcome : Outcome E

abbrev pub unblock : {F : Type 0} → Slot F → Slot F
unblock slot = record slot { blocked = false }

-- `?` on the answer of `poll_grow`.
abbrev pub grown_result :
    {E : Type 0} → Poll (Result (Unit {0}) ContractError) → Result (Unit {0}) (SchedulerError E)
grown_result (ready (err e)) = err (contract e)
grown_result (ready (ok _)) = ok tt
grown_result pending = ok tt

module _ {T F E A : Type 0} where
  -- `if files.iter().any(|slot| !slot.blocked) { cx.waker().wake_by_ref() }`.
  unfoldable pub wake_unblocked : ReadScheduler T F E A → Waker → ReadScheduler T F E A
  wake_unblocked r cx =
      if any (λ slot. not slot.blocked) r.files then record r { woken = r.woken ++ cx ∷ [] } else r

  -- The early return for an empty queue of files.
  unfoldable pub finish : ReadScheduler T F E A → ReadScheduler T F E A
  unfolding shrink_permit
  finish r = let s = shrink_permit r 0 in record s { terminated = s.closed }

  unfoldable pub unblock_all : ReadScheduler T F E A → ReadScheduler T F E A
  unblock_all r = record r { files = map unblock r.files }

  -- The polls that one call of `drive` may make.
  unfoldable pub poll_limit : ReadScheduler T F E A → ℕ
  poll_limit r = max max_poll_ops (length r.files)

  -- `poll_grow` towards the target, in batches of at most 32 frames.
  unfoldable pub grow_permit :
      ReadScheduler T F E A → Waker → ReadScheduler T F E A × Result (Unit {0}) (SchedulerError E)
  unfolding poll_grow
  grow_permit r cx =
      let target = min r.config.window.target_frames r.budget.total in
      if ltb r.permit.capacity target
      then (let minimum = min (saturating_add r.permit.capacity (min target 32)) target in
          let g = poll_grow r.budget r.permit cx minimum target in
          (record r { budget = g.budget; permit = g.permit }, grown_result g.result))
      else (r, ok tt)

module _ {T F E A : Type 0} ⦃file : ReadFile T F E⦄ ⦃factory : Factory T A⦄ where
  -- The inner `for`, with the rounds that are left.
  unfoldable pub sweep : ℕ → ℕ → ReadScheduler T F E A → Waker → ℕ → Bool → Pass T F E A
  unfolding poll_file wake_unblocked
  sweep zero count r cx remaining progressed = swept r remaining progressed
  sweep (suc rounds) count r cx remaining progressed =
      let index = r.cursor % count in
      let moved : ReadScheduler T F E A = record r { cursor = wrapping_add index 1 % count } in
      let p = poll_file moved index cx remaining in
      elim p.result [
        | err e ↦ failed p.scheduler e
        | ok changed ↦ elim (p.remaining == 0) [
          | true ↦ stopped (wake_unblocked p.scheduler cx)
          | false ↦ sweep rounds count p.scheduler cx p.remaining (changed || progressed)
        ]
      ]

  -- The outer `loop`.
  unfoldable pub drive_loop : ℕ → ReadScheduler T F E A → Waker → ℕ → Driven T F E A
  unfolding sweep finish retire authorize
  drive_loop zero r cx remaining = record { scheduler = r; outcome = exhausted }
  drive_loop (suc fuel) r cx remaining = elim (no_files r.files) [
    | true ↦ record { scheduler = finish r; outcome = done }
    | false ↦ elim (sweep (length r.files) (length r.files) r cx remaining false) [
      | failed s e ↦ record { scheduler = s; outcome = error e }
      | stopped s ↦ record { scheduler = s; outcome = done }
      | swept s left progressed ↦ elim (no_files (retire s).files) [
        | true ↦ record { scheduler = finish (retire s); outcome = done }
        | false ↦ elim progressed [
          | true ↦ drive_loop fuel (authorize (retire s)) cx left
          | false ↦ record { scheduler = authorize (retire s); outcome = done }
        ]
      ]
    ]
  ]

  unfoldable pub drive : ReadScheduler T F E A → Waker → Driven T F E A
  unfolding grow_permit authorize unblock_all drive_loop poll_limit
  drive r cx =
      let (g, grew) = grow_permit r cx in
      elim grew [
        | err e ↦ record { scheduler = g; outcome = error e }
        | ok _ ↦
            let s = unblock_all (authorize g) in drive_loop (suc (poll_limit s)) s cx (poll_limit s)
      ]

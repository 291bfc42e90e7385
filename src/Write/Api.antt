-- ===== src/Write/Api.antt =====
-- src/write.rs: `AsyncFilesWrite for WriteScheduler`, the public operations.
use carbon_io.Prelude.{
  ℕ, ◌+◌, min, Bool, true, false, not, ◌||◌, List, [], ◌∷◌, ◌++◌, Option, none, some, ltb, leb,
  ◌==◌, if◌then◌else◌, length, get_elem?, Result, ok, err, Poll, ready, pending, saturating_sub,
}
use carbon_io.Errors.{input_closed, admission_not_ready, invalid_partial_frame}
use carbon_io.Budget.{Waker}
use carbon_io.Traits.{WriteFile}
use carbon_io.Write.Frames.{PartialFrame, FrameAllocator}
use carbon_io.Write.Slots.{Slot, idle, new_slot, is_closed}
use carbon_io.Write.State.{
  WriteError, input, contract, WriteStatus, WriteScheduler, closing, is_writing, is_closing,
  is_failed, shrink_permit, wake, wait, completed_files, status, fail, accept_file, take_head,
  ensure_capacity, validate_file, flush_partial,
}
use carbon_io.Write.Drive.{done, error, exhausted, drive}

abbrev pub head_done : {T F R : Type 0} → List (Slot T F R) → Bool
head_done [] = false
head_done (slot ∷ rest) = is_closed slot.state

-- The slot of the head, given a new file.
abbrev pub reused : {T F E R : Type 0} → WriteFile T F E R → Slot T F R → F → Slot T F R
reused file slot f = record slot {
  file = f;
  capacity = file.frame_capacity f;
  assigned = 0;
  written = 0;
  retries = 0;
  state = idle;
}

module _ {P T F E R A I : Type 0} (file : WriteFile T F E R) where
  unfoldable pub push_file :
      WriteScheduler P T F R A → F → WriteScheduler P T F R A × Result (Unit {0}) (WriteError I E)
  unfolding accept_file validate_file new_slot wake
  push_file w f =
      if not (is_writing w.phase)
      then (w, err (contract input_closed))
      else if not (accept_file w)
      then (w, err (contract admission_not_ready))
      else elim (validate_file {I = I} file w f) [
        | err e ↦ (w, err e)
        | ok _ ↦
            let slot = new_slot file f (ltb 0 w.config.max_retries) in
            (wake (record w { files = w.files ++ slot ∷ [] }), ok tt)
      ]

  unfoldable pub pop_swap :
      WriteScheduler P T F R A → F → WriteScheduler P T F R A × Result (F × R) (WriteError I E)
  unfolding validate_file take_head wake
  pop_swap w f =
      if not (is_writing w.phase)
      then (w, err (contract input_closed))
      else elim (validate_file {I = I} file w f) [
        | err e ↦ (w, err e)
        | ok _ ↦
            if not (head_done w.files)
            then (w, err (contract admission_not_ready))
            else let (taken, head) = take_head w in
              elim head [
                | none ↦ (taken, err (contract admission_not_ready))
                | some (slot, output) ↦ (
                  wake (record taken { files = taken.files ++ reused file slot f ∷ [] }),
                  ok (slot.file, output),
                )
              ]
      ]

  unfoldable pub pop_file :
      WriteScheduler P T F R A → WriteScheduler P T F R A × Result (Option (F × R)) (WriteError I E)
  unfolding take_head wake
  pop_file w =
      if not (is_closing w.phase)
      then (w, err (contract input_closed))
      else let (taken, head) = take_head w in
        elim head [
          | none ↦ (taken, ok none)
          | some (slot, output) ↦ (wake taken, ok (some (slot.file, output)))
        ]

-- `while self.files.back().is_some_and(|slot| slot.assigned == 0) { self.files.pop_back(); }`.
unfoldable pub drop_unused : {T F R : Type 0} → List (Slot T F R) → List (Slot T F R)
drop_unused [] = []
drop_unused (slot ∷ files) = elim (drop_unused files) [
  | [] ↦ if slot.assigned == 0 then [] else slot ∷ []
  | next ∷ rest ↦ slot ∷ next ∷ rest
]

-- What `poll_write` and `poll_close` leave and return.
pub record Written (P T F R A E I X : Type 0) : Type 0 where
  pub scheduler : WriteScheduler P T F R A
  pub result : Poll (Result X (WriteError I E))

module _ {P T F E R A I O IE : Type 0} (file : WriteFile T F E R) (frame : PartialFrame P I O T IE)
    (allocator : FrameAllocator P A) where
  -- What the next partial frame reserves, and the most that may be reserved.
  unfoldable pub needed : WriteScheduler P T F R A → Slot T F R → ℕ
  needed w slot =
      if w.config.max_retries == 0 then 1 else if slot.assigned == 0 then slot.capacity else 0

  unfoldable pub limit : WriteScheduler P T F R A → ℕ
  limit w =
      if w.config.max_retries == 0
      then min w.budget.total w.config.window.target_frames
      else w.budget.total

  -- Allocate the partial frame, once its capacity is there.
  unfoldable pub allocate_partial :
      WriteScheduler P T F R A → ℕ → WriteScheduler P T F R A × Result (Unit {0}) (WriteError IE E)
  unfolding fail
  allocate_partial w need =
      let (partial, next) = allocator.allocate w.allocator in
      let reserved : WriteScheduler P T F R A = record w {
        used = w.used + need;
        allocator = next;
      } in
      if not (frame.is_empty partial) || frame.is_complete partial
      then (fail reserved, err (contract invalid_partial_frame))
      else (record reserved { partial = some partial }, ok tt)

  -- The block of `poll_write` under `if this.partial.is_none()`.
  unfoldable pub start_partial :
      WriteScheduler P T F R A
      → Waker
      → WriteScheduler P T F R A × Result (Unit {0}) (WriteError IE E)
  unfolding needed limit ensure_capacity allocate_partial
  start_partial w cx = elim w.partial [
    | some _ ↦ (w, ok tt)
    | none ↦ elim (get_elem? w.files w.fill_index) [
      | none ↦ (w, ok tt)
      | some slot ↦
          let need = needed w slot in
          if leb need (saturating_sub (limit w) w.used)
          then (let (grown, covered) = ensure_capacity {I = IE} {E = E} w cx (w.used + need) in
              elim covered [
                | err e ↦ (grown, err e)
                | ok false ↦ (grown, ok tt)
                | ok true ↦ allocate_partial grown need
              ])
          else (w, ok tt)
    ]
  ]

  -- The end of `poll_write`, when no input was consumed.
  unfoldable pub report : WriteScheduler P T F R A → Waker → Written P T F R A E IE (WriteStatus O)
  unfolding status wait
  report w cx =
      let nothing : Option O = none in
      let s = status w nothing in
      if ltb 0 s.completed_files || ltb 0 s.missing_files
      then record { scheduler = w; result = ready (ok s) }
      else record { scheduler = wait w cx; result = pending }

  -- A successful fill of the partial frame.
  unfoldable pub filled : WriteScheduler P T F R A → P → O → Written P T F R A E IE (WriteStatus O)
  unfolding fail flush_partial status
  filled w partial output =
      if frame.is_complete partial
      then (if frame.is_empty partial
          then record { scheduler = fail w; result = ready (err (contract invalid_partial_frame)) }
          else let (s, flushed) = flush_partial frame {E = E} w in
            elim flushed [
              | err e ↦ record { scheduler = s; result = ready (err e) }
              | ok _ ↦ record { scheduler = s; result = ready (ok (status s (some output))) }
            ])
      else record { scheduler = w; result = ready (ok (status w (some output))) }

  unfoldable pub fill_partial :
      WriteScheduler P T F R A → Waker → I → Written P T F R A E IE (WriteStatus O)
  unfolding fail filled report
  fill_partial w cx source = elim w.partial [
    | none ↦ report w cx
    | some partial ↦
        let (after, answer) = frame.poll_fill partial cx source in
        let s : WriteScheduler P T F R A = record w { partial = some after } in
        elim answer [
          | pending ↦ report s cx
          | ready (err e) ↦ record { scheduler = fail s; result = ready (err (input e)) }
          | ready (ok output) ↦ filled s after output
        ]
  ]

  unfoldable pub poll_write :
      WriteScheduler P T F R A → Waker → I → Written P T F R A E IE (WriteStatus O)
  unfolding drive start_partial fill_partial
  poll_write w cx source =
      let entered : WriteScheduler P T F R A = record w { waker = none } in
      if not (is_writing w.phase)
      then record { scheduler = entered; result = ready (err (contract input_closed)) }
      else let d = drive {I = IE} file entered cx in
        elim d.outcome [
          | error e ↦ record { scheduler = d.scheduler; result = ready (err e) }
          | exhausted ↦ record { scheduler = d.scheduler; result = pending }
          | done ↦
              let (s, started) = start_partial d.scheduler cx in
              elim started [
                | err e ↦ record { scheduler = s; result = ready (err e) }
                | ok _ ↦ fill_partial s cx source
              ]
        ]

  -- The block of `poll_close` under `if this.phase == Phase::Writing`.
  unfoldable pub start_closing :
      WriteScheduler P T F R A → WriteScheduler P T F R A × Result (Unit {0}) (WriteError IE E)
  unfolding flush_partial drop_unused shrink_permit
  start_closing w =
      if is_writing w.phase
      then (let (s, flushed) = flush_partial frame {E = E} (record w { phase = closing }) in
          elim flushed [
            | err e ↦ (s, err e)
            | ok _ ↦
                let kept : WriteScheduler P T F R A = record s { files = drop_unused s.files } in
                (shrink_permit kept kept.used, ok tt)
          ])
      else (w, ok tt)

  unfoldable pub poll_close : WriteScheduler P T F R A → Waker → Written P T F R A E IE ℕ
  unfolding start_closing drive completed_files wait
  poll_close w cx =
      let entered : WriteScheduler P T F R A = record w { waker = none } in
      if is_failed w.phase
      then record { scheduler = entered; result = ready (err (contract input_closed)) }
      else let (s, started) = start_closing entered in
        elim started [
          | err e ↦ record { scheduler = s; result = ready (err e) }
          | ok _ ↦
              let d = drive {I = IE} file s cx in
              elim d.outcome [
                | error e ↦ record { scheduler = d.scheduler; result = ready (err e) }
                | exhausted ↦ record { scheduler = d.scheduler; result = pending }
                | done ↦
                    let completed = completed_files d.scheduler in
                    if ltb 0 completed || length d.scheduler.files == 0
                    then record { scheduler = d.scheduler; result = ready (ok completed) }
                    else record { scheduler = wait d.scheduler cx; result = pending }
              ]
        ]

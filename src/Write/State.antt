-- ===== src/Write/State.antt =====
-- src/write.rs: the state of `WriteScheduler`, and its helpers that poll no destination. As in the
-- reader, the borrowed budget and the wakers that were woken stand in the state.
use carbon_io.Prelude.{
  ℕ, ◌+◌, min, max, Bool, true, false, ◌&&◌, List, [], ◌∷◌, ◌++◌, Option, none, some, ltb, leb,
  ◌==◌, if◌then◌else◌, length, get_elem?, set, sum_of, count_while, is_some, Result, ok, err, Poll,
  ready, pending, saturating_sub,
}
use carbon_io.Errors.{
  ContractError, zero_budget, zero_frame_capacity, frame_capacity_exceeds_budget,
  missing_write_file,
}
use carbon_io.Config.{Window, SchedulerConfig, validate}
use carbon_io.Budget.{Waker, FrameBudget, FramePermit, permit, shrink_to, poll_grow}
use carbon_io.Traits.{WriteFile}
use carbon_io.Write.Frames.{PartialFrame, len, push}
use carbon_io.Write.Slots.{idle, opening, closed, Slot, is_closed}

-- `WriteError<I, F>`; `From<ContractError>` is the constructor `contract`.
pub data WriteError (I E : Type 0) : Type 0 where
  input : I → WriteError I E
  backend : E → WriteError I E
  contract : ContractError → WriteError I E

pub record WriteStatus (O : Type 0) : Type 0 where
  pub output : Option O
  pub completed_files : ℕ
  pub missing_files : ℕ

pub data Phase : Type 0 where
  writing closing failed : Phase

-- `P` are the partial frames, `T` the frames, `F` the files, `R` their close results, and `A` the
-- state of the allocator.
pub record WriteScheduler (P T F R A : Type 0) : Type 0 where
  pub allocator : A
  pub config : SchedulerConfig
  pub budget : FrameBudget
  pub permit : FramePermit
  pub woken : List Waker
  pub files : List (Slot T F R)
  pub partial : Option P
  pub used : ℕ
  pub fill_index : ℕ
  pub poll_cursor : ℕ
  pub phase : Phase
  pub waker : Option Waker

abbrev pub is_writing : Phase → Bool
is_writing writing = true
is_writing _ = false

abbrev pub is_closing : Phase → Bool
is_closing closing = true
is_closing _ = false

abbrev pub is_failed : Phase → Bool
is_failed failed = true
is_failed _ = false

-- What `flush_partial` does to the slot that the frame joins.
unfoldable pub add_frame : {T F R : Type 0} → Slot T F R → T → Slot T F R
unfolding push
add_frame slot frame =
    let assigned = slot.assigned + 1 in
    record slot {
      frames = push slot.frames frame;
      assigned = assigned;
      state = if assigned == 1 then opening else slot.state;
    }

-- The `match` on the answer of `poll_grow`.
abbrev pub grow_answer :
    {I E : Type 0} → Poll (Result (Unit {0}) ContractError) → Result Bool (WriteError I E)
grow_answer (ready (ok _)) = ok true
grow_answer (ready (err e)) = err (contract e)
grow_answer pending = ok false

module _ {P T F R A : Type 0} where
  -- `WriteScheduler::new`.
  unfoldable pub new_writer :
      A → FrameBudget → SchedulerConfig → Result (WriteScheduler P T F R A) ContractError
  unfolding validate permit
  new_writer allocator budget config = elim (validate config.window) [
    | err e ↦ err e
    | ok _ ↦
        if budget.total == 0
        then err zero_budget
        else let (shared, p) = permit budget in
          ok (record {
            allocator = allocator;
            config = config;
            budget = shared;
            permit = p;
            woken = [];
            files = [];
            partial = none;
            used = 0;
            fill_index = 0;
            poll_cursor = 0;
            phase = writing;
            waker = none;
          })
  ]

  -- `self.permit.shrink_to(size)`.
  unfoldable pub shrink_permit : WriteScheduler P T F R A → ℕ → WriteScheduler P T F R A
  unfolding shrink_to
  shrink_permit w size =
      let s = shrink_to w.budget w.permit size in
      record w { budget = s.budget; permit = s.permit; woken = w.woken ++ s.wakes }

  unfoldable pub wake : WriteScheduler P T F R A → WriteScheduler P T F R A
  wake w = elim w.waker [
    | none ↦ w
    | some cx ↦ record w { woken = w.woken ++ cx ∷ []; waker = none }
  ]

  unfoldable pub wait : WriteScheduler P T F R A → Waker → WriteScheduler P T F R A
  wait w cx = record w { waker = some cx }

  unfoldable pub set_window :
      WriteScheduler P T F R A → Window → WriteScheduler P T F R A × Result (Unit {0}) ContractError
  unfolding validate shrink_permit wake
  set_window w window = elim (validate window) [
    | err e ↦ (w, err e)
    | ok _ ↦
        let changed : WriteScheduler P T F R A = record w {
          config = record w.config { window = window };
        } in
        (
          wake (shrink_permit changed (min w.permit.capacity (max window.target_frames w.used))),
          ok tt,
        )
  ]

  -- `window`, `retained_frames`, `reserved_frames` and `granted_frames`.
  unfoldable pub window : WriteScheduler P T F R A → Window
  window w = w.config.window

  unfoldable pub retained_frames : WriteScheduler P T F R A → ℕ
  unfolding len
  retained_frames w =
      sum_of (λ slot. len slot.frames) w.files + (if is_some w.partial then 1 else 0)

  unfoldable pub reserved_frames : WriteScheduler P T F R A → ℕ
  reserved_frames w = w.used

  unfoldable pub granted_frames : WriteScheduler P T F R A → ℕ
  granted_frames w = w.permit.capacity

  -- `self.files.iter().take_while(|slot| slot.done()).count()`.
  unfoldable pub completed_files : WriteScheduler P T F R A → ℕ
  completed_files w = count_while (λ slot. is_closed slot.state) w.files

  unfoldable pub status : {O : Type 0} → WriteScheduler P T F R A → Option O → WriteStatus O
  unfolding completed_files
  status w output = record {
    output = output;
    completed_files = completed_files w;
    missing_files = saturating_sub w.config.window.max_active_files (length w.files);
  }

  unfoldable pub fail : WriteScheduler P T F R A → WriteScheduler P T F R A
  unfolding shrink_permit wake
  fail w =
      wake (shrink_permit (record w { phase = failed; files = []; partial = none; used = 0 }) 0)

  unfoldable pub accept_file : WriteScheduler P T F R A → Bool
  accept_file w = is_writing w.phase && ltb (length w.files) w.config.window.max_active_files

  -- What `take_head` makes of the queue of files.
  unfoldable pub take_head :
      WriteScheduler P T F R A → WriteScheduler P T F R A × Option (Slot T F R × R)
  take_head w = elim w.files [
    | [] ↦ (w, none)
    | slot ∷ rest ↦ elim slot.state [
      | closed output ↦ (
        record w {
          files = rest;
          fill_index = saturating_sub w.fill_index 1;
          poll_cursor = saturating_sub w.poll_cursor 1;
        },
        some (record slot { state = idle }, output),
      )
      | _ ↦ (w, none)
    ]
  ]

  -- The end of `ensure_capacity`: the permit asks the budget.
  unfoldable pub request_capacity :
      {I E : Type 0}
      → WriteScheduler P T F R A
      → Waker
      → ℕ
      → WriteScheduler P T F R A × Result Bool (WriteError I E)
  unfolding poll_grow
  request_capacity w cx minimum =
      let desired = min (max w.config.window.target_frames minimum) w.budget.total in
      let g = poll_grow w.budget w.permit cx minimum desired in
      (record w { budget = g.budget; permit = g.permit }, grow_answer g.result)

  -- `ensure_capacity`: whether the permit now covers `minimum`.
  unfoldable pub ensure_capacity :
      {I E : Type 0}
      → WriteScheduler P T F R A
      → Waker
      → ℕ
      → WriteScheduler P T F R A × Result Bool (WriteError I E)
  unfolding shrink_permit request_capacity
  ensure_capacity w cx minimum =
      if leb minimum w.permit.capacity
      then (w, ok true)
      else request_capacity (if ltb w.used w.permit.capacity then shrink_permit w w.used else w) cx
          minimum

  abbrev pub put_slot : WriteScheduler P T F R A → ℕ → Slot T F R → WriteScheduler P T F R A
  put_slot w index slot = record w { files = set w.files index slot }

  -- What a discarded empty partial frame gives back.
  unfoldable pub discarded : WriteScheduler P T F R A → Slot T F R → ℕ
  discarded w slot =
      if w.config.max_retries == 0 then 1 else if slot.assigned == 0 then slot.capacity else 0

  -- Frame `frame` joins `slot`, which stands at `fill_index`.
  unfoldable pub assign : WriteScheduler P T F R A → Slot T F R → T → WriteScheduler P T F R A
  unfolding add_frame
  assign w slot frame =
      let filled : Slot T F R = add_frame slot frame in
      record (put_slot w w.fill_index filled) {
        fill_index = if filled.assigned == filled.capacity then w.fill_index + 1 else w.fill_index;
      }

module _ {P T F E R A I : Type 0} (file : WriteFile T F E R) where
  unfoldable pub validate_file : WriteScheduler P T F R A → F → Result (Unit {0}) (WriteError I E)
  validate_file w f =
      let capacity = file.frame_capacity f in
      if capacity == 0
      then err (contract zero_frame_capacity)
      else if ltb 0 w.config.max_retries && ltb w.budget.total capacity
      then err (contract frame_capacity_exceeds_budget)
      else ok tt

module _ {P I O T IE : Type 0} (frame : PartialFrame P I O T IE) {F R A : Type 0} where
  unfoldable pub flush_partial :
      {E : Type 0}
      → WriteScheduler P T F R A
      → WriteScheduler P T F R A × Result (Unit {0}) (WriteError IE E)
  unfolding discarded assign
  flush_partial w = elim w.partial [
    | none ↦ (w, ok tt)
    | some partial ↦
        let taken : WriteScheduler P T F R A = record w { partial = none } in
        elim (get_elem? w.files w.fill_index) [
          | none ↦ (taken, err (contract missing_write_file))
          | some slot ↦
              if frame.is_empty partial
              then (record taken { used = saturating_sub w.used (discarded w slot) }, ok tt)
              else (assign taken slot (frame.finish partial), ok tt)
        ]
  ]

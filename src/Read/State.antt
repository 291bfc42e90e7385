-- ===== src/Read/State.antt =====
-- src/read.rs: the state of `ReadScheduler`, and its operations that poll no backend. A `Vec` used
-- as a stack has its top at the head of the list. The borrowed budget and the wakers that were
-- woken stand in the state, since every method reaches them through its own fields.
use carbon_io.Prelude.{
  ℕ, min, max, Bool, true, false, ◌&&◌, ◌||◌, List, [], ◌∷◌, ◌++◌, Option, none, some, ltb, leb,
  ◌==◌, if◌then◌else◌, length, replicate, Result, ok, err, wrapping_add, wrapping_sub,
  saturating_sub,
}
use carbon_io.Errors.{ContractError, zero_budget, SchedulerError}
use carbon_io.Config.{SchedulerConfig, validate}
use carbon_io.Budget.{Waker, FrameBudget, FramePermit, permit, shrink_to}

pub data PushError : Type 0 where
  full : PushError
  closed : PushError
  contract : ContractError → PushError

pub data FileState : Type 0 where
  opening : FileState
  reading : FileState

pub record Slot (F : Type 0) : Type 0 where
  pub file : F
  pub start : ℕ
  pub count : ℕ
  pub received : ℕ
  pub retries : ℕ
  pub state : FileState
  pub blocked : Bool

pub record Cell (T : Type 0) : Type 0 where
  pub frame : Option T
  pub complete : Bool

abbrev pub empty_cell : {T : Type 0} → Cell T
empty_cell = record { frame = none; complete = false }

-- `T` are the frames, `F` the files, `E` their errors and `A` the state of the buffer factory.
pub record ReadScheduler (T F E A : Type 0) : Type 0 where
  pub make_frame : A
  pub config : SchedulerConfig
  pub budget : FrameBudget
  pub permit : FramePermit
  pub woken : List Waker
  pub files : List (Slot F)
  pub frames : List (Cell T)
  pub recycled : List T
  pub emitted : ℕ
  pub discovered : ℕ
  pub cursor : ℕ
  pub closed : Bool
  pub terminated : Bool
  pub error : Option (SchedulerError E)

-- The buffer factory, `FnMut() -> T`.
pub record Factory (T A : Type 0) : Type 0 where
  pub call : A → T × A

abbrev pub no_files : {F : Type 0} → List (Slot F) → Bool
no_files [] = true
no_files (x ∷ xs) = false

-- `while front().is_some_and(|slot| emitted == slot.start.wrapping_add(slot.count))`, over the
-- files and the cursor.
unfoldable pub retire_from : {F : Type 0} → ℕ → List (Slot F) → ℕ → List (Slot F) × ℕ
retire_from emitted [] cursor = ([], cursor)
retire_from emitted (slot ∷ files) cursor = elim (emitted == wrapping_add slot.start slot.count) [
  | true ↦ retire_from emitted files (saturating_sub cursor 1)
  | false ↦ (slot ∷ files, cursor)
]

module _ {T F E A : Type 0} where
  -- `ReadScheduler::new`. The permit that it takes from the budget changes the budget too.
  unfoldable pub new_reader :
      A → FrameBudget → SchedulerConfig → Result (ReadScheduler T F E A) ContractError
  unfolding validate permit
  new_reader make_frame budget config = elim (validate config.window) [
    | err e ↦ err e
    | ok _ ↦
        if budget.total == 0
        then err zero_budget
        else let (shared, p) = permit budget in
          ok (record {
            make_frame = make_frame;
            config = config;
            budget = shared;
            permit = p;
            woken = [];
            files = [];
            frames = [];
            recycled = [];
            emitted = 0;
            discovered = 0;
            cursor = 0;
            closed = false;
            terminated = false;
            error = none;
          })
  ]

  -- `self.permit.shrink_to(size)`.
  unfoldable pub shrink_permit : ReadScheduler T F E A → ℕ → ReadScheduler T F E A
  unfolding shrink_to
  shrink_permit r size =
      let s = shrink_to r.budget r.permit size in
      record r { budget = s.budget; permit = s.permit; woken = r.woken ++ s.wakes }

  unfoldable pub used : ReadScheduler T F E A → ℕ
  used r = length r.frames

  unfoldable pub adjust_capacity : ReadScheduler T F E A → ReadScheduler T F E A
  unfolding used
  adjust_capacity r =
      let target = r.config.window.target_frames in
      let keep = max target (used r) in
      let excess = saturating_sub r.permit.capacity keep in
      if leb 32 excess || (ltb 0 excess && keep == target) then shrink_permit r keep else r

  -- How many cells `authorize` adds.
  unfoldable pub extra_cells : ReadScheduler T F E A → ℕ
  unfolding used
  extra_cells r =
      let limit = min r.permit.capacity r.config.window.target_frames in
      let available = saturating_sub limit (used r) in
      let remaining = wrapping_sub r.discovered r.emitted in
      min available (saturating_sub remaining (length r.frames))

  unfoldable pub authorize : ReadScheduler T F E A → ReadScheduler T F E A
  unfolding extra_cells
  authorize r = record r { frames = r.frames ++ replicate (extra_cells r) empty_cell }

  unfoldable pub retire : ReadScheduler T F E A → ReadScheduler T F E A
  unfolding retire_from
  retire r =
      let (files, cursor) = retire_from r.emitted r.files r.cursor in
      record r { files = files; cursor = cursor }

  unfoldable pub fail : ReadScheduler T F E A → SchedulerError E → ReadScheduler T F E A
  unfolding shrink_permit
  fail r error =
      let cleared = shrink_permit (record r { files = []; frames = []; recycled = [] }) 0 in
      record cleared { terminated = true; error = some error }

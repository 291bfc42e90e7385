-- ===== src/Read/Api.antt =====
-- src/read.rs: the public operations of `ReadScheduler`.
use carbon_io.Prelude.{
  ℕ, min, max, Bool, true, false, not, ◌&&◌, ◌||◌, List, [], ◌∷◌, ◌++◌, Option, none, some, ltb,
  leb, ◌==◌, if◌then◌else◌, length, is_some, Result, ok, err, Poll, ready, pending, wrapping_add,
  wrapping_sub, checked_add, try_from,
}
use carbon_io.Errors.{ContractError, zero_frame_count, invalid_frame_position, SchedulerError}
use carbon_io.Config.{Window, validate, horizon}
use carbon_io.Budget.{Waker}
use carbon_io.Traits.{ReadFile}
use carbon_io.Read.State.{
  PushError, full, Slot, opening, Cell, ReadScheduler, Factory, no_files, used, shrink_permit,
  adjust_capacity, retire, fail,
}
use carbon_io.Read.Drive.{done, error, exhausted, drive}

-- `push_file` takes the file or gives it back with the reason.
pub record Pushed (T F E A : Type 0) : Type 0 where
  pub scheduler : ReadScheduler T F E A
  pub result : Result (Unit {0}) (PushError × F)

-- The scheduler and the caller's buffer after `poll_read`, and what it returns.
pub record Delivered (T F E A : Type 0) : Type 0 where
  pub scheduler : ReadScheduler T F E A
  pub output : T
  pub result : Poll (Result (Option (Unit {0})) (SchedulerError E))

module _ {T F E A : Type 0} where
  unfoldable pub close_files : ReadScheduler T F E A → ReadScheduler T F E A
  close_files r = record r { closed = true }

  unfoldable pub set_window :
      ReadScheduler T F E A → Window → ReadScheduler T F E A × Result (Unit {0}) ContractError
  unfolding validate used shrink_permit
  set_window r window = elim (validate window) [
    | err e ↦ (r, err e)
    | ok _ ↦
        let keep = min r.permit.capacity (max window.target_frames (used r)) in
        (shrink_permit (record r { config = record r.config { window = window } }) keep, ok tt)
  ]

  unfoldable pub is_terminated : ReadScheduler T F E A → Bool
  is_terminated r = r.terminated && not (is_some r.error)

  -- `window` and `granted_frames`.
  unfoldable pub window : ReadScheduler T F E A → Window
  window r = r.config.window

  unfoldable pub granted_frames : ReadScheduler T F E A → ℕ
  granted_frames r = r.permit.capacity

module _ {T F E A : Type 0} where
  abbrev pub refused : ReadScheduler T F E A → F → PushError → Pushed T F E A
  refused r f e = record { scheduler = r; result = err (e, f) }

  -- The slot of an admitted file.
  abbrev pub new_slot : ReadScheduler T F E A → F → ℕ → Slot F
  new_slot r f count = record {
    file = f;
    start = r.discovered;
    count = count;
    received = 0;
    retries = 0;
    state = opening;
    blocked = false;
  }

  unfoldable pub admit : ReadScheduler T F E A → F → ℕ → Pushed T F E A
  admit r f count = elim (try_from count) [
    | none ↦ refused r f (PushError.contract invalid_frame_position)
    | some frames ↦ elim (checked_add (wrapping_sub r.discovered r.emitted) frames) [
      | none ↦ refused r f (PushError.contract invalid_frame_position)
      | some _ ↦ record {
        scheduler = record r {
          files = r.files ++ new_slot r f count ∷ [];
          discovered = wrapping_add r.discovered frames;
        };
        result = ok tt;
      }
    ]
  ]

module _ {T F E A : Type 0} ⦃file : ReadFile T F E⦄ where
  unfoldable pub push_file : ReadScheduler T F E A → F → Pushed T F E A
  unfolding horizon admit
  push_file r f =
      if r.closed || r.terminated
      then refused r f PushError.closed
      else if leb r.config.window.max_active_files (length r.files)
          || leb (horizon r.config.window) (wrapping_sub r.discovered r.emitted)
      then refused r f full
      else if file.frame_count f == 0
      then refused r f (PushError.contract zero_frame_count)
      else admit r f (file.frame_count f)

module _ {T F E A : Type 0} ⦃file : ReadFile T F E⦄ ⦃factory : Factory T A⦄ where
  unfoldable pub poll_progress : ReadScheduler T F E A → Waker → ReadScheduler T F E A
  unfolding drive fail shrink_permit
  poll_progress r cx =
      if r.terminated
      then r
      else if no_files r.files
      then (let idle = if ltb 0 r.permit.capacity then shrink_permit r 0 else r in
          record idle { terminated = idle.closed })
      else let d = drive r cx in
        elim d.outcome [
          | error e ↦ fail d.scheduler e
          | done ↦ d.scheduler
          | exhausted ↦ d.scheduler
        ]

  -- `poll_read` after its `poll_progress`, with no error and not terminated: the front cell.
  unfoldable pub deliver : ReadScheduler T F E A → T → List (Cell T) → Delivered T F E A
  unfolding fail retire adjust_capacity
  deliver r output [] = record { scheduler = r; output = output; result = pending }
  deliver r output (cell ∷ rest) =
      if cell.complete
      then elim cell.frame [
        | some frame ↦ record {
          scheduler = adjust_capacity (
              retire (record r {
                frames = rest;
                emitted = wrapping_add r.emitted 1;
                recycled = output ∷ r.recycled;
              }));
          output = frame;
          result = ready (ok (some tt));
        }
        | none ↦ record {
          scheduler =
              record (fail (record r { frames = rest })
                (SchedulerError.contract invalid_frame_position)) { error = none };
          output = output;
          result = ready (err (SchedulerError.contract invalid_frame_position));
        }
      ]
      else record { scheduler = r; output = output; result = pending }

  unfoldable pub poll_read : ReadScheduler T F E A → Waker → T → Delivered T F E A
  unfolding poll_progress deliver
  poll_read r cx output =
      let s = poll_progress r cx in
      elim s.error [
        | some e ↦ record {
          scheduler = record s { error = none };
          output = output;
          result = ready (err e);
        }
        | none ↦
            if s.terminated
            then record { scheduler = s; output = output; result = ready (ok none) }
            else deliver s output s.frames
      ]

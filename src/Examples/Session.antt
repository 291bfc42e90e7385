-- ===== src/Examples/Session.antt =====
-- src/write.rs at work: bytes in frames of two, over a destination that fails to close, as often as
-- the retries allow or once more.
use carbon_io.Prelude.{
  ℕ, ◌+◌, ◌≤◌, ◌≡◌, ◌⊎◌, refl, true, false, List, [], ◌∷◌, ◌++◌, Option, none, some, ok, arith,
  take, length,
}
use carbon_io.Errors.{input_closed}
use carbon_io.Config.{SchedulerConfig, default_window}
use carbon_io.Budget.{idle_request}
use carbon_io.Write.Frames.{
  BytesFrameAllocator, BytesPartialFrame, allocate_bytes, fill_bytes, fill_count, finish_bytes,
  is_complete_bytes, is_empty_bytes, bytes_partial, bytes_allocator,
}
use carbon_io.Write.State.{
  backend, contract, WriteScheduler, writing, failed, is_writing, new_writer, retained_frames,
  reserved_frames, granted_frames, status, completed_files, validate_file,
}
use carbon_io.Write.Api.{push_file, pop_swap, pop_file, poll_write, poll_close}
use carbon_io.Write.Bytes.{
  split_bytes, join, Pieces, bytes_partial-FrameContract, fill_bytes-Bounds, finish_bytes-roundtrip,
}
use carbon_io.Write.Account.Drive.{Broken}
use carbon_io.Write.Account.Fill.{Ends}
use carbon_io.Write.Session.{Run, opened, pushed, written, closed_by, popped}
use carbon_io.Write.Session.Status.{status-push, status-swap, status-pop}
use carbon_io.Write.Session.Bounds.{Run-bounded, Run-accounted, reservations}
use carbon_io.Write.Session.Delivery.{Run-in_order, Run-drained, input_bytes, output_bytes}
use carbon_io.Write.Session.Failure.{
  Refused, Run-write_error, Run-close_error, Run-failed, by_push, rejected_unchanged,
}
use carbon_io.Examples.Files.{Destination, destinations, destinations-Contract, result_frames}

abbrev Writer : Type 0
Writer =
    WriteScheduler BytesPartialFrame (List ℕ) (Destination (List ℕ)) (List (List ℕ))
      BytesFrameAllocator

abbrev nothing : Option ℕ
nothing = none

abbrev one_retry : SchedulerConfig
one_retry = record { window = default_window; max_retries = 1 }

abbrev fresh : Writer
fresh = record {
  allocator = record { frame_size = 2 };
  config = one_retry;
  budget = record {
    total = 4;
    state = record { available = 4; waiters = []; requests = some idle_request ∷ [] };
  };
  permit = record { capacity = 0; request = 0 };
  woken = [];
  files = [];
  partial = none;
  used = 0;
  fill_index = 0;
  poll_cursor = 0;
  phase = writing;
  waker = none;
}

abbrev failing : ℕ → Destination (List ℕ)
failing n = record { capacity = 2; frames = []; failures = n }

-- One file, its frames, and the end of the input.
abbrev taken : ℕ → Writer
taken n = (push_file {I = ⊥} destinations fresh (failing n)).0

abbrev first : ℕ → Writer
first n =
    (poll_write destinations bytes_partial bytes_allocator (taken n) 3 (1 ∷ 2 ∷ 3 ∷ [])).scheduler

abbrev second : ℕ → Writer
second n = (poll_write destinations bytes_partial bytes_allocator (first n) 3 (3 ∷ [])).scheduler

abbrev ended : ℕ → Writer
ended n = (poll_close destinations bytes_partial bytes_allocator (second n) 3).scheduler

abbrev emptied : ℕ → Writer
emptied n = (pop_file {I = ⊥} destinations (ended n)).0

abbrev RunTo : List (ℕ × List ℕ) → List (List (List ℕ)) → Writer → Type 0
RunTo fills outputs w = Run destinations bytes_partial bytes_allocator one_retry fills outputs w

abbrev all_fills : List (ℕ × List ℕ)
all_fills = (2, 1 ∷ 2 ∷ 3 ∷ []) ∷ (1, 3 ∷ []) ∷ []

run_second : (n : ℕ) → RunTo all_fills [] (second n)
unfolding new_writer push_file poll_write is_empty_bytes allocate_bytes is_complete_bytes fill_bytes
    finish_bytes
run_second n = written 3 (3 ∷ []) (
    written 3 (1 ∷ 2 ∷ 3 ∷ []) (
      pushed (failing n) (
        opened (record { frame_size = 2 })
          (record { total = 4; state = record { available = 4; waiters = []; requests = [] } })
          refl)))

run_emptied : RunTo all_fills (((1 ∷ 2 ∷ []) ∷ (3 ∷ []) ∷ []) ∷ []) (emptied 1)
unfolding poll_close pop_file poll_write push_file is_empty_bytes allocate_bytes is_complete_bytes
    fill_bytes finish_bytes
run_emptied = popped (closed_by 3 (run_second 1))

Run-bounded_example :
    (retained_frames (second 1) ≤ reserved_frames (second 1))
    × (reserved_frames (second 1) ≤ granted_frames (second 1))
Run-bounded_example = Run-bounded (run_second 1)

Run-accounted_example : reserved_frames (second 1) ≡ reservations 1 (second 1)
Run-accounted_example = Run-accounted (run_second 1)

-- A full frame and half a frame are kept, and the file has reserved its two frames.
second_retains : (retained_frames (second 1) ≡ 2) × (reserved_frames (second 1) ≡ 2)
unfolding retained_frames reserved_frames push_file poll_write is_empty_bytes allocate_bytes
    is_complete_bytes fill_bytes finish_bytes
second_retains = (refl, refl)

Run-in_order_example :
    (left : List ℕ) × (input_bytes (λ n input. take n input) all_fills
      ≡ output_bytes (λ frame. frame) result_frames (((1 ∷ 2 ∷ []) ∷ (3 ∷ []) ∷ []) ∷ []) ++ left)
Run-in_order_example = Run-in_order destinations-Contract bytes_partial-FrameContract run_emptied

Run-drained_example :
    input_bytes (λ n input. take n input) all_fills
    ≡ output_bytes (λ frame. frame) result_frames (((1 ∷ 2 ∷ []) ∷ (3 ∷ []) ∷ []) ∷ [])
unfolding poll_close pop_file poll_write push_file is_empty_bytes allocate_bytes is_complete_bytes
    fill_bytes finish_bytes
Run-drained_example =
    Run-drained destinations-Contract bytes_partial-FrameContract run_emptied 3 refl

-- A destination that fails once more than it may be retried.
Run-close_error_example :
    ((second 2).phase ≡ failed)
      × Refused
          (second 2)
          (backend 1)
          (poll_close destinations bytes_partial bytes_allocator (second 2) 3)
    ⊎ Ends {I = ⊥} {E = ℕ} (backend 1)
      × Broken (poll_close destinations bytes_partial bytes_allocator (second 2) 3).scheduler
unfolding poll_close poll_write push_file is_empty_bytes allocate_bytes is_complete_bytes fill_bytes
    finish_bytes
Run-close_error_example = Run-close_error (run_second 2) 3 (backend 1) refl

Run-write_error_example :
    (is_writing (ended 1).phase ≡ false)
      × Refused
          (ended 1)
          (contract input_closed)
          (poll_write destinations bytes_partial bytes_allocator (ended 1) 3 (3 ∷ []))
    ⊎ Ends {I = ⊥} {E = ℕ} (contract input_closed)
      × Broken
          (poll_write destinations bytes_partial bytes_allocator (ended 1) 3 (3 ∷ [])).scheduler
unfolding poll_close poll_write push_file is_empty_bytes allocate_bytes is_complete_bytes fill_bytes
    finish_bytes
Run-write_error_example =
    Run-write_error (closed_by 3 (run_second 1)) 3 (3 ∷ []) (contract input_closed) refl

Run-failed_example : Broken (ended 2)
unfolding poll_close poll_write push_file is_empty_bytes allocate_bytes is_complete_bytes fill_bytes
    finish_bytes
Run-failed_example = Run-failed (closed_by 3 (run_second 2)) refl

rejected_unchanged_example : (push_file {I = ⊥} destinations (ended 1) (failing 0)).0 ≡ ended 1
unfolding poll_close poll_write push_file is_empty_bytes allocate_bytes is_complete_bytes fill_bytes
    finish_bytes
rejected_unchanged_example =
    rejected_unchanged ⊥ destinations (ended 1)
      (push_file {I = ⊥} destinations (ended 1) (failing 0)).0
      (by_push (failing 0) (contract input_closed) refl)

status-push_example :
    let d = push_file {I = ⊥} destinations fresh (failing 0) in
    (d.1 ≡ ok tt)
    × ((status d.0 nothing).missing_files + 1 ≡ (status fresh nothing).missing_files)
    × ((status d.0 nothing).completed_files ≡ (status fresh nothing).completed_files)
unfolding validate_file status
status-push_example = status-push ⊥ ℕ destinations fresh (failing 0) refl refl (omega arith)

status-pop_example :
    (x : Destination (List ℕ) × List (List ℕ)) × ((pop_file {I = ⊥} destinations (ended 1)).1
      ≡ ok (some x))
    × (completed_files (pop_file {I = ⊥} destinations (ended 1)).0 + 1 ≡ completed_files (ended 1))
unfolding poll_close poll_write push_file completed_files is_empty_bytes allocate_bytes
    is_complete_bytes fill_bytes finish_bytes
status-pop_example = status-pop ⊥ ℕ destinations (ended 1) refl (omega arith)

-- Two frames fill the file, which closes during the next poll.
abbrev filled : Writer
filled =
    (poll_write destinations bytes_partial bytes_allocator
      (poll_write destinations bytes_partial bytes_allocator (first 1) 3 (3 ∷ 4 ∷ [])).scheduler 3
      (5 ∷ [])).scheduler

status-swap_example :
    (x : Destination (List ℕ) × List (List ℕ)) × ((pop_swap {I = ⊥} destinations filled
        (failing 0)).1
      ≡ ok x)
    × ((status (pop_swap {I = ⊥} destinations filled (failing 0)).0 nothing).completed_files + 1
        ≡ (status filled nothing).completed_files)
unfolding status validate_file poll_write push_file is_empty_bytes allocate_bytes is_complete_bytes
    fill_bytes finish_bytes
status-swap_example = status-swap ⊥ ℕ destinations filled (failing 0) refl refl (omega arith)

fill_bytes-Bounds_example :
    let q = (fill_bytes (record { bytes = 1 ∷ []; frame_size = 2 }) 3 (2 ∷ 3 ∷ [])).0 in
    (length q.bytes ≤ q.frame_size)
    × (length q.bytes ≡ 1 + fill_count (record { bytes = 1 ∷ []; frame_size = 2 }) (2 ∷ 3 ∷ []))
    × (fill_count (record { bytes = 1 ∷ []; frame_size = 2 }) (2 ∷ 3 ∷ []) ≤ 2)
    × ((is_complete_bytes q ≡ true)
        ⊎ (fill_count (record { bytes = 1 ∷ []; frame_size = 2 }) (2 ∷ 3 ∷ []) ≡ 2))
fill_bytes-Bounds_example =
    fill_bytes-Bounds (record { bytes = 1 ∷ []; frame_size = 2 }) 3 (2 ∷ 3 ∷ []) (omega arith)

-- Three bytes in frames of two.
finish_bytes-roundtrip_example :
    (join (split_bytes 3 (record { frame_size = 2 }) 3 (1 ∷ 2 ∷ 3 ∷ [])) ≡ 1 ∷ 2 ∷ 3 ∷ [])
    × Pieces 2 (1 ∷ 2 ∷ 3 ∷ []) (split_bytes 3 (record { frame_size = 2 }) 3 (1 ∷ 2 ∷ 3 ∷ []))
finish_bytes-roundtrip_example =
    finish_bytes-roundtrip 3 (record { frame_size = 2 }) 3 (1 ∷ 2 ∷ 3 ∷ []) (omega arith)
      (omega arith)

three_bytes :
    split_bytes 3 (record { frame_size = 2 }) 3 (1 ∷ 2 ∷ 3 ∷ []) ≡ (1 ∷ 2 ∷ []) ∷ (3 ∷ []) ∷ []
unfolding allocate_bytes fill_bytes fill_count finish_bytes
three_bytes = refl

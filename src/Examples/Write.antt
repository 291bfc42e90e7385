-- ===== src/Examples/Write.antt =====
-- src/write.rs at work: one destination of one frame that fails to close once and is replayed.
use carbon_io.Prelude.{ℕ, ◌≡◌, ◌⊎◌, refl, true, List, [], ◌∷◌, arith, err, some, none, ◌≢◌}
use carbon_io.Write.Frames.{replay}
use carbon_io.Write.Slots.{FileState, closed, Slot, new_slot, poll_slot}
use carbon_io.Write.State.{add_frame, WriteScheduler, Phase}
use carbon_io.Write.Drive.{drive, exhausted}
use carbon_io.Write.Progress.{write_drive-ends}
use carbon_io.Config.{default_window}
use carbon_io.Budget.{idle_request}
use carbon_io.Write.Replay.{Holds, poll_slot-Keeping}
use carbon_io.Write.Runs.{Life, fresh, assigned, stopped, polled, closed_complete}
use carbon_io.Examples.Files.{
  Destination, destinations, destinations-Contract, stored_frames, result_frames,
}

abbrev flaky : Destination ℕ
flaky = record { capacity = 2; frames = []; failures = 1 }

abbrev one_frame : Slot ℕ (Destination ℕ) (List ℕ)
one_frame = record {
  file = flaky;
  state = FileState.opening;
  frames = replay (7 ∷ []);
  capacity = 2;
  assigned = 1;
  written = 0;
  retries = 0;
}

begun : Life destinations flaky 1 (7 ∷ []) true one_frame
unfolding new_slot add_frame
begun = stopped (assigned 7 fresh (omega arith))

-- Open, write, start to close, fail, and again to the end.
abbrev ended : Slot ℕ (Destination ℕ) (List ℕ)
ended = record {
  file = record { capacity = 2; frames = 7 ∷ []; failures = 0 };
  state = closed (7 ∷ []);
  frames = replay [];
  capacity = 2;
  assigned = 1;
  written = 1;
  retries = 1;
}

lived : Life destinations flaky 1 (7 ∷ []) true ended
unfolding poll_slot
lived =
    polled 3 (true, 2)
      (polled 3 (true, 0)
        (polled 3 (true, 0)
          (polled 3 (true, 0)
            (polled 3 (true, 0)
              (polled 3 (true, 0) (polled 3 (true, 0) (polled 3 (true, 0) begun refl) refl) refl)
              refl)
            refl)
          refl)
        refl)
      refl

closed_complete_example : result_frames {T = ℕ} (7 ∷ []) ≡ 7 ∷ []
closed_complete_example = (closed_complete destinations-Contract flaky 1 {o = 7 ∷ []} lived refl).0

poll_slot-Keeping_example :
    let p = poll_slot destinations one_frame 3 true 1 in
    ((e : ℕ) × (p.result ≡ err e))
    ⊎ Holds stored_frames result_frames (7 ∷ []) 1 p.slot p.slot.state
poll_slot-Keeping_example =
    poll_slot-Keeping destinations-Contract (7 ∷ []) one_frame 3 true 1 (omega arith)
      (refl, (refl, omega arith))

abbrev writer : WriteScheduler (List ℕ) ℕ (Destination ℕ) (List ℕ) ℕ
writer = record {
  allocator = 0;
  config = record { window = default_window; max_retries = 1 };
  budget = record {
    total = 4;
    state = record { available = 2; waiters = []; requests = some idle_request ∷ [] };
  };
  permit = record { capacity = 2; request = 0 };
  woken = [];
  files = one_frame ∷ [];
  partial = none;
  used = 2;
  fill_index = 0;
  poll_cursor = 0;
  phase = Phase.closing;
  waker = none;
}

write_drive-ends_example : (drive {I = ℕ} destinations writer 3).outcome ≢ exhausted
write_drive-ends_example = write_drive-ends ℕ destinations writer 3

-- The whole attempt, its failure and the replay fit one call, and the capacity comes back.
drive_closes : (drive {I = ℕ} destinations writer 3).scheduler.files ≡ ended ∷ []
unfolding drive
drive_closes = refl

drive_releases : (drive {I = ℕ} destinations writer 3).scheduler.budget.state.available ≡ 4
unfolding drive
drive_releases = refl

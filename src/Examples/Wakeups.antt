-- ===== src/Examples/Wakeups.antt =====
-- src/write.rs at work: a caller that waits for a file, and the file that wakes it.
use carbon_io.Prelude.{ℕ, ◌≡◌, refl, List, [], ◌∷◌, none, some}
use carbon_io.Config.{default_window}
use carbon_io.Budget.{idle_request}
use carbon_io.Write.Frames.{
  BytesFrameAllocator, BytesPartialFrame, replay, bytes_partial, bytes_allocator,
}
use carbon_io.Write.Slots.{FileState}
use carbon_io.Write.State.{WriteScheduler, writing}
use carbon_io.Write.Api.{push_file, poll_write}
use carbon_io.Write.Session.Wakeups.{by_write, pending-Registers, Woken, pushed, admission-Wakes}
use carbon_io.Examples.Files.{Destination, destinations}

-- A writer without a file, for which task 5 waits.
abbrev idle_writer :
    WriteScheduler BytesPartialFrame
      (List ℕ)
      (Destination (List ℕ))
      (List (List ℕ))
      BytesFrameAllocator
idle_writer = record {
  allocator = record { frame_size = 2 };
  config = record { window = record default_window { max_active_files = 2 }; max_retries = 1 };
  budget = record {
    total = 4;
    state = record { available = 4; waiters = []; requests = some idle_request ∷ [] };
  };
  permit = record { capacity = 0; request = 0 };
  woken = [];
  files = [];
  partial = none;
  used = 0;
  fill_index = 0;
  poll_cursor = 0;
  phase = writing;
  waker = some 5;
}

abbrev small : Destination (List ℕ)
small = record { capacity = 2; frames = []; failures = 0 }

-- One file is all that is allowed, and the budget has no capacity for its frames.
abbrev full_writer :
    WriteScheduler BytesPartialFrame
      (List ℕ)
      (Destination (List ℕ))
      (List (List ℕ))
      BytesFrameAllocator
full_writer = record idle_writer {
  config = record { window = record default_window { max_active_files = 1 }; max_retries = 1 };
  budget = record {
    total = 4;
    state = record { available = 0; waiters = []; requests = some idle_request ∷ [] };
  };
  files =
      record {
        file = small;
        state = FileState.idle;
        frames = replay [];
        capacity = 2;
        assigned = 0;
        written = 0;
        retries = 0;
      }
      ∷ [];
  waker = none;
}

pending-Registers_example :
    (poll_write destinations bytes_partial bytes_allocator full_writer 3 (1 ∷ [])).scheduler.waker
    ≡ some 3
unfolding poll_write
pending-Registers_example =
    pending-Registers destinations bytes_partial bytes_allocator full_writer 3
      (poll_write destinations bytes_partial bytes_allocator full_writer 3 (1 ∷ [])).scheduler
      (by_write (1 ∷ []) refl)

admission-Wakes_example : Woken 5 (push_file {I = ⊥} destinations idle_writer small).0
unfolding push_file
admission-Wakes_example =
    admission-Wakes ⊥ destinations idle_writer (push_file {I = ⊥} destinations idle_writer small).0
      5 refl (pushed small refl)

-- The file is accepted, and the caller woken.
push_wakes : (push_file {I = ⊥} destinations idle_writer small).0.woken ≡ 5 ∷ []
unfolding push_file
push_wakes = refl

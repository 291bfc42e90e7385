-- ===== src/Examples/Read.antt =====
-- src/read.rs at work: two sources of two frames each, read in order through one scheduler.
use carbon_io.Prelude.{ℕ, ◌≡◌, ◌≢◌, refl, false, [], ◌∷◌, none, some, ok, ready}
use carbon_io.Config.{default_window}
use carbon_io.Budget.{idle_request}
use carbon_io.Read.State.{ReadScheduler}
use carbon_io.Read.Drive.{drive, exhausted}
use carbon_io.Read.Api.{push_file, poll_read, close_files}
use carbon_io.Read.Progress.{drive-ends}
use carbon_io.Examples.Sources.{Source, sources, source_of, zero_buffers}

abbrev pub empty_reader : ReadScheduler ℕ Source ℕ ℕ
empty_reader = record {
  make_frame = 0;
  config = record { window = default_window; max_retries = 1 };
  budget = record {
    total = 4;
    state = record { available = 4; waiters = []; requests = some idle_request ∷ [] };
  };
  permit = record { capacity = 0; request = 0 };
  woken = [];
  files = [];
  frames = [];
  recycled = [];
  emitted = 0;
  discovered = 0;
  cursor = 0;
  closed = false;
  terminated = false;
  error = none;
}

abbrev pub reader : ReadScheduler ℕ Source ℕ ℕ
reader =
    (push_file (push_file empty_reader (source_of (5 ∷ 6 ∷ []))).scheduler
      (source_of (7 ∷ 8 ∷ []))).scheduler

drive-ends_example : (drive reader 3).outcome ≢ exhausted
drive-ends_example = drive-ends reader 3

first_frame : (poll_read reader 3 0).output ≡ 5
unfolding push_file poll_read
first_frame = refl

-- Three polls later the second file has begun.
third_frame :
    (let a = poll_read reader 3 0 in
      let b = poll_read a.scheduler 3 0 in (poll_read b.scheduler 3 0).output)
    ≡ 7
unfolding push_file poll_read
third_frame = refl

end_of_input :
    (let a = poll_read reader 3 0 in
      let b = poll_read a.scheduler 3 0 in
      let c = poll_read b.scheduler 3 0 in
      let d = poll_read c.scheduler 3 0 in (poll_read (close_files d.scheduler) 3 0).result)
    ≡ ready (ok none)
unfolding push_file poll_read close_files
end_of_input = refl

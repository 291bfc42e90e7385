-- ===== src/Memory/Main.antt =====
-- examples/memory/src/main.rs: `main`, which reads two sources and writes what it read into files. An
-- await is a loop that polls again, on fuel; `consume` hands its value on.
use carbon_io.Prelude.{
  ℕ, zero, suc, List, [], ◌∷◌, ◌++◌, none, some, if◌then◌else◌, ◌==◌, Result, ok, err, ready,
  pending,
}
use carbon_io.Config.{SchedulerConfig, default_window}
use carbon_io.Budget.{Waker, FrameBudget, new_budget}
use carbon_io.Read.State.{ReadScheduler, Factory, new_reader}
use carbon_io.Read.Api.{poll_read, poll_progress, close_files}
use carbon_io.Read.Api as Read
use carbon_io.Write.State.{WriteScheduler, new_writer}
use carbon_io.Write.Api.{push_file, poll_write, pop_swap, poll_close, pop_file}
use carbon_io.Memory.{
  Range, Source, new_source, sources, Allocator, allocator, allocators, Partial, partials,
  Destination, new_destination, destinations,
}

-- Why `main` ends early: it returns an error, or it has not ended yet.
pub data Failure : Type 0 where
  returned unfinished : Failure

-- `|| 0`.
instance abbrev pub zeros : Factory ℕ (Unit {0})
zeros = record { call = λ a. (0, a) }

-- `SchedulerConfig::default()`, and the configuration of the writer.
abbrev pub default_config : SchedulerConfig
default_config = record { window = default_window; max_retries = 0 }

abbrev pub writer_config : SchedulerConfig
writer_config = record { window = record default_window { max_active_files = 2 }; max_retries = 2 }

abbrev pub Reader : Type 0
Reader = ReadScheduler ℕ Source ⊥ (Unit {0})

abbrev pub Writer : Type 0
Writer = WriteScheduler Partial ℕ Destination ℕ Allocator

-- The `while` over `poll_read`. Each value is consumed by a future that is pending once, so progress
-- is polled twice.
unfoldable pub read_frames : ℕ → Reader → Waker → ℕ → List ℕ → Result (Reader × List ℕ) Failure
unfolding poll_read poll_progress
read_frames zero reader cx frame frames = err unfinished
read_frames (suc fuel) reader cx frame frames =
    let d = poll_read reader cx frame in
    elim d.result [
      | pending ↦ read_frames fuel d.scheduler cx d.output frames
      | ready (err e) ↦ err returned
      | ready (ok none) ↦ ok (d.scheduler, frames)
      | ready (ok (some _)) ↦
          read_frames fuel (poll_progress (poll_progress d.scheduler cx) cx) cx d.output
            (frames ++ d.output ∷ [])
    ]

-- The `for` over `status.completed_files`.
unfoldable pub swap_completed : ℕ → Writer → List ℕ → Result (Writer × List ℕ) Failure
unfolding pop_swap new_destination
swap_completed zero writer sums = ok (writer, sums)
swap_completed (suc n) writer sums =
    let d = pop_swap {I = ⊥} destinations writer (new_destination 4) in
    elim d.1 [ err e ↦ err returned | ok (_, sum) ↦ swap_completed n d.0 (sums ++ sum ∷ []) ]

-- The `loop` that writes one frame.
unfoldable pub write_frame : ℕ → Writer → Waker → ℕ → List ℕ → Result (Writer × List ℕ) Failure
unfolding poll_write swap_completed
write_frame zero writer cx frame sums = err unfinished
write_frame (suc fuel) writer cx frame sums =
    let d = poll_write destinations partials allocators writer cx frame in
    elim d.result [
      | pending ↦ write_frame fuel d.scheduler cx frame sums
      | ready (err e) ↦ err returned
      | ready (ok status) ↦ elim (swap_completed status.completed_files d.scheduler sums) [
        | err e ↦ err e
        | ok (writer', sums') ↦ elim status.output [
          | some _ ↦ ok (writer', sums')
          | none ↦ write_frame fuel writer' cx frame sums'
        ]
      ]
    ]

unfoldable pub write_frames :
    ℕ → Writer → Waker → List ℕ → List ℕ → Result (Writer × List ℕ) Failure
unfolding write_frame
write_frames fuel writer cx [] sums = ok (writer, sums)
write_frames fuel writer cx (frame ∷ frames) sums = elim (write_frame fuel writer cx frame sums) [
  | err e ↦ err e
  | ok (writer', sums') ↦ write_frames fuel writer' cx frames sums'
]

-- The `for` over the completed files of a close.
unfoldable pub pop_completed : ℕ → Writer → List ℕ → Result (Writer × List ℕ) Failure
unfolding pop_file
pop_completed zero writer sums = ok (writer, sums)
pop_completed (suc n) writer sums =
    let d = pop_file {I = ⊥} destinations writer in
    elim d.1 [
      | err e ↦ err returned
      | ok none ↦ err returned
      | ok (some (_, sum)) ↦ pop_completed n d.0 (sums ++ sum ∷ [])
    ]

-- The last `loop`.
unfoldable pub close_writer : ℕ → Writer → Waker → List ℕ → Result (List ℕ) Failure
unfolding poll_close pop_completed
close_writer zero writer cx sums = err unfinished
close_writer (suc fuel) writer cx sums =
    let d = poll_close destinations partials allocators writer cx in
    elim d.result [
      | pending ↦ close_writer fuel d.scheduler cx sums
      | ready (err e) ↦ err returned
      | ready (ok completed) ↦
          if completed == 0 then ok sums else elim (pop_completed completed d.scheduler sums) [
            | err e ↦ err e
            | ok (writer', sums') ↦ close_writer fuel writer' cx sums'
          ]
    ]

unfoldable pub push_sources : Reader → List Range → Result Reader Failure
unfolding Read.push_file new_source close_files
push_sources reader [] = ok (close_files reader)
push_sources reader (values ∷ ranges) =
    let p = Read.push_file reader (new_source values) in
    elim p.result [ err e ↦ err returned | ok _ ↦ push_sources p.scheduler ranges ]

-- The reader of `main` with the sources that it is given, closed.
unfoldable pub open_reader : FrameBudget → List Range → Result Reader Failure
unfolding new_reader
open_reader budget ranges = elim (new_reader tt budget default_config) [
  | err e ↦ err returned
  | ok reader ↦ push_sources reader ranges
]

unfoldable pub push_destinations : Writer → List ℕ → Result Writer Failure
unfolding push_file new_destination
push_destinations writer [] = ok writer
push_destinations writer (capacity ∷ capacities) =
    let p = push_file {I = ⊥} destinations writer (new_destination capacity) in
    elim p.1 [ err e ↦ err returned | ok _ ↦ push_destinations p.0 capacities ]

-- The part of `main` that writes `frames`: it returns the sums of the files.
unfoldable pub write_files : ℕ → FrameBudget → Waker → List ℕ → Result (List ℕ) Failure
unfolding new_writer push_destinations write_frames close_writer
write_files fuel budget cx frames = elim (new_writer allocator budget writer_config) [
  | err e ↦ err returned
  | ok writer ↦ elim (push_destinations writer (2 ∷ 4 ∷ [])) [
    | err e ↦ err e
    | ok pushed ↦ elim (write_frames fuel pushed cx frames []) [
      | err e ↦ err e
      | ok (written, sums) ↦ close_writer fuel written cx sums
    ]
  ]
]

-- `main`: what was read, and the sums of the files that were written.
unfoldable pub main : ℕ → Waker → Result (List ℕ × List ℕ) Failure
unfolding new_budget open_reader read_frames write_files
main fuel cx =
    let ranges = record { start = 0; end = 3 } ∷ record { start = 3; end = 6 } ∷ [] in
    elim (open_reader (new_budget 512) ranges) [
      | err e ↦ err e
      | ok reader ↦ elim (read_frames fuel reader cx 0 []) [
        | err e ↦ err e
        | ok (reader', frames) ↦ elim (write_files fuel reader'.budget cx frames) [
          | err e ↦ err e
          | ok sums ↦ ok (frames, sums)
        ]
      ]
    ]

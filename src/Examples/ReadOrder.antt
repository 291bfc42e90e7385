-- ===== src/Examples/ReadOrder.antt =====
-- src/read.rs at work: a run over two sources, and the order of the frames that it delivers.
use mathlib.Core.Option.{some-injective}
use carbon_io.Read.Layout.{Own, Fed}
use carbon_io.Prelude.{ℕ, zero, suc, subst, ◌≡◌, refl, true, List, [], ◌∷◌, ◌++◌, arith}
use carbon_io.Config.{default_window}
use carbon_io.Read.State.{ReadScheduler, new_reader}
use carbon_io.Read.Api.{new_slot, push_file, poll_read, close_files}
use carbon_io.Read.Order.{InOrder}
use carbon_io.Read.Order.Calls.{Standing}
use carbon_io.Read.Order.Delivery.{Delivery, poll_read-Delivery}
use carbon_io.Read.Order.Admission.{Admission, push_file-Admission}
use carbon_io.Read.Order.Runs.{Run, start, push, read, close, elsewhere, Run-ordered, Run-complete}
use carbon_io.Examples.Sources.{
  Source, Allowed, sources, source_of, zero_buffers, source_frames, sources-Contract,
}
use carbon_io.Examples.Read.{empty_reader, reader}

created : Run source_frames Allowed [] [] empty_reader
unfolding new_reader
created =
    start 0 (record { total = 4; state = record { available = 4; waiters = []; requests = [] } })
      (record { window = default_window; max_retries = 1 }) empty_reader refl

one_file :
    Run source_frames Allowed
      (5 ∷ 6 ∷ [])
      []
      (push_file empty_reader (source_of (5 ∷ 6 ∷ []))).scheduler
unfolding push_file
one_file = push [] [] empty_reader (source_of (5 ∷ 6 ∷ [])) refl (omega arith) refl refl created

two_files : Run source_frames Allowed (5 ∷ 6 ∷ 7 ∷ 8 ∷ []) [] reader
unfolding push_file
two_files =
    push (5 ∷ 6 ∷ []) [] (push_file empty_reader (source_of (5 ∷ 6 ∷ []))).scheduler
      (source_of (7 ∷ 8 ∷ [])) refl (omega arith) refl refl one_file

first_read :
    Run source_frames Allowed
      (5 ∷ 6 ∷ 7 ∷ 8 ∷ [])
      ((poll_read reader 3 0).output ∷ [])
      (poll_read reader 3 0).scheduler
unfolding push_file poll_read
first_read = read (5 ∷ 6 ∷ 7 ∷ 8 ∷ []) [] reader 3 0 refl two_files

-- Another user of the budget takes all that is free.
abbrev disturbed : ReadScheduler ℕ Source ℕ ℕ
disturbed =
    let r = (poll_read reader 3 0).scheduler in
    record r { budget = record r.budget { state = record r.budget.state { available = 0 } } }

abbrev two_frames : List ℕ
two_frames = (poll_read reader 3 0).output ∷ (poll_read disturbed 3 0).output ∷ []

second_read :
    Run source_frames Allowed (5 ∷ 6 ∷ 7 ∷ 8 ∷ []) two_frames (poll_read disturbed 3 0).scheduler
unfolding push_file poll_read
second_read = read (5 ∷ 6 ∷ 7 ∷ 8 ∷ []) ((poll_read reader 3 0).output ∷ []) disturbed 3 0 refl (
    elsewhere (5 ∷ 6 ∷ 7 ∷ 8 ∷ []) ((poll_read reader 3 0).output ∷ [])
      (poll_read reader 3 0).scheduler
      (record (poll_read reader 3 0).scheduler.budget.state { available = 0 }) first_read)

Run-ordered_example :
    ((later : List ℕ) × (two_frames ++ later ≡ 5 ∷ 6 ∷ 7 ∷ 8 ∷ []))
    × Standing source_frames Allowed
        (5 ∷ 6 ∷ 7 ∷ 8 ∷ [])
        two_frames
        (poll_read disturbed 3 0).scheduler
Run-ordered_example =
    Run-ordered source_frames Allowed sources-Contract (5 ∷ 6 ∷ 7 ∷ 8 ∷ []) two_frames
      (poll_read disturbed 3 0).scheduler second_read

reader-Fed : Fed Allowed 0 0 reader.files reader.frames
unfolding push_file
reader-Fed zero slot h =
    let same = some-injective (new_slot empty_reader (source_of (5 ∷ 6 ∷ [])) 2) slot h in
    subst (λ x. Own Allowed 0 0 x reader.frames) same ((λ st. refl), λ st. cc)
reader-Fed (suc zero) slot h =
    let one = (push_file empty_reader (source_of (5 ∷ 6 ∷ []))).scheduler in
    let same = some-injective (new_slot one (source_of (7 ∷ 8 ∷ [])) 2) slot h in
    subst (λ x. Own Allowed 0 2 x reader.frames) same ((λ st. refl), λ st. cc)
reader-Fed (suc (suc i)) slot h = cc

-- The reader with its two files is in order, with nothing delivered.
reader-InOrder : InOrder source_frames Allowed (5 ∷ 6 ∷ 7 ∷ 8 ∷ []) 0 reader
unfolding push_file
reader-InOrder = record {
  first = 0;
  at = refl;
  end = refl;
  placed = (
    record {
      before = [];
      after = 7 ∷ 8 ∷ [];
      split = refl;
      placed = refl;
      left = refl;
      start = refl;
      positive = omega arith;
      small = omega arith;
    },
    (
      record {
        before = 5 ∷ 6 ∷ [];
        after = [];
        split = refl;
        placed = refl;
        left = refl;
        start = refl;
        positive = omega arith;
        small = omega arith;
      },
      refl,
    ),
  );
  behind = omega arith;
  front = (omega arith, omega arith);
  window = omega arith;
  live = omega arith;
  fed = reader-Fed;
  quiet = refl;
  finished = λ t. cc;
  cells = λ o cell eq full. cc;
}

poll_read-Delivery_example :
    Delivery source_frames Allowed (5 ∷ 6 ∷ 7 ∷ 8 ∷ []) 0 9 (poll_read reader 3 9)
poll_read-Delivery_example =
    poll_read-Delivery source_frames Allowed (5 ∷ 6 ∷ 7 ∷ 8 ∷ []) 0 reader 3 9 sources-Contract
      reader-InOrder

push_file-Admission_example :
    Admission source_frames Allowed
      (5 ∷ 6 ∷ 7 ∷ 8 ∷ [])
      0
      reader
      (source_of (9 ∷ []))
      (push_file reader (source_of (9 ∷ [])))
push_file-Admission_example =
    push_file-Admission source_frames Allowed (5 ∷ 6 ∷ 7 ∷ 8 ∷ []) 0 reader (source_of (9 ∷ []))
      refl (omega arith) refl reader-InOrder

-- One file of one frame, read, and the end.
abbrev only : List ℕ
only = 5 ∷ []

abbrev delivered : List ℕ
delivered = (poll_read (push_file empty_reader (source_of only)).scheduler 3 0).output ∷ []

abbrev one_read : ReadScheduler ℕ Source ℕ ℕ
one_read = (poll_read (push_file empty_reader (source_of (5 ∷ []))).scheduler 3 0).scheduler

read_all : Run source_frames Allowed only delivered (close_files one_read)
unfolding push_file poll_read
read_all = close only delivered one_read (
    read only [] (push_file empty_reader (source_of (5 ∷ []))).scheduler 3 0 refl
      (push [] [] empty_reader (source_of (5 ∷ [])) refl (omega arith) refl refl created))

Run-complete_example :
    (delivered ≡ only) × ((poll_read (close_files one_read) 3 0).scheduler.closed ≡ true)
unfolding push_file poll_read close_files
Run-complete_example =
    Run-complete source_frames Allowed sources-Contract only delivered (close_files one_read) 3 0
      read_all refl refl

-- ===== src/Memory.antt =====
-- examples/memory/src/main.rs: a source of numbers, a destination that sums them, and frames of one
-- number. The wakers that a poll wakes are appended to the field `woken`, as in the schedulers.
pub mod Contracts
pub mod Delivery
pub mod Main
use Prim.Native.String.{String}
use carbon_io.Prelude.{
  ℕ, ◌+◌, Bool, true, false, not, List, [], ◌∷◌, ◌++◌, Option, none, some, ltb, if◌then◌else◌,
  Result, ok, err, Poll, ready, pending, saturating_sub, u32_mod,
}
use carbon_io.Budget.{Waker}
use carbon_io.Traits.{ReadFile, WriteFile}
use carbon_io.Write.Frames.{PartialFrame, FrameAllocator}

-- `std::ops::Range<u32>`.
pub record Range : Type 0 where
  pub start : ℕ
  pub end : ℕ

-- `Iterator::next` of a range.
abbrev pub next : Range → Range × Option ℕ
next r = if ltb r.start r.end then (record r { start = r.start + 1 }, some r.start) else (r, none)

-- `std::io::Error`, as far as the destination makes one.
pub data IoError : Type 0 where
  other : String → IoError

pub record Source : Type 0 where
  pub values : Range
  pub count : ℕ
  pub waiting : Bool
  pub woken : List Waker

-- `Source::new`.
unfoldable pub new_source : Range → Source
new_source values = record {
  values = values;
  count = saturating_sub values.end values.start;
  waiting = true;
  woken = [];
}

unfoldable pub read_value : Source → Waker → ℕ → Source × ℕ × Poll (Result (Option (Unit {0})) ⊥)
read_value f cx frame =
    if f.waiting
    then (record f { waiting = false; woken = f.woken ++ cx ∷ [] }, frame, pending)
    else let (values, value) = next f.values in
      let f' : Source = record f { waiting = true; values = values } in
      elim value [ some v ↦ (f', v, ready (ok (some tt))) | none ↦ (f', frame, ready (ok none)) ]

instance abbrev pub sources : ReadFile ℕ Source ⊥
sources = record {
  frame_count = λ f. f.count;
  poll_open = λ f cx. (f, ready (ok tt));
  poll_read = read_value;
}

-- `Allocator` has no state.
pub data Allocator : Type 0 where
  allocator : Allocator

pub record Partial : Type 0 where
  pub value : ℕ
  pub complete : Bool

unfoldable pub allocate : Allocator → Partial × Allocator
allocate a = (record { value = 0; complete = false }, a)

unfoldable pub fill_value : Partial → Waker → ℕ → Partial × Poll (Result (Unit {0}) ⊥)
fill_value p cx input = (record p { value = input; complete = true }, ready (ok tt))

instance abbrev pub allocators : FrameAllocator Partial Allocator
allocators = record { allocate = allocate }

instance abbrev pub partials : PartialFrame Partial ℕ (Unit {0}) ℕ ⊥
partials = record {
  poll_fill = fill_value;
  is_complete = λ p. p.complete;
  is_empty = λ p. not p.complete;
  finish = λ p. p.value;
}

pub record Destination : Type 0 where
  pub capacity : ℕ
  pub sum : ℕ
  pub waiting : Bool
  pub woken : List Waker

-- `Destination::new`.
unfoldable pub new_destination : ℕ → Destination
new_destination capacity = record { capacity = capacity; sum = 0; waiting = true; woken = [] }

unfoldable pub open_sum : Destination → Waker → Destination × Poll (Result (Unit {0}) IoError)
open_sum f cx = (record f { sum = 0 }, ready (ok tt))

-- `u32::checked_add` gives no sum from 2^32 on.
unfoldable pub write_value :
    Destination → Waker → ℕ → Destination × Poll (Result (Unit {0}) IoError)
write_value f cx frame =
    if f.waiting
    then (record f { waiting = false; woken = f.woken ++ cx ∷ [] }, pending)
    else if ltb (f.sum + frame) u32_mod
    then (record f { waiting = true; sum = f.sum + frame }, ready (ok tt))
    else (record f { waiting = true }, ready (err (other "sum overflow")))

instance abbrev pub destinations : WriteFile ℕ Destination IoError ℕ
destinations = record {
  frame_capacity = λ f. f.capacity;
  poll_open = open_sum;
  poll_write = write_value;
  poll_close = λ f cx. (f, ready (ok f.sum));
}

-- ===== src/Memory/Delivery.antt =====
-- examples/memory/src/main.rs: its source delivers every number of its range, one for every two polls.
use carbon_io.Prelude.{
  ℕ, zero, suc, ◌+◌, ◌-◌, ◌≡◌, refl, sym, ap, true, false, List, [], ◌∷◌, ◌++◌, Option, none, some,
  arith, length, ltb, Result, ok, err, Poll, ready, pending,
}
use carbon_io.Budget.{Waker}
use carbon_io.Read.Contract.{Contract}
use carbon_io.Memory.{Range, Source, new_source, read_value, sources}
use carbon_io.Memory.Contracts.{counted_from, numbers, AnyCall, read_value-next, sources-Contract}

-- What a poll tells: that it waits, a number, or the end.
abbrev pub told : ℕ → Poll (Result (Option (Unit {0})) ⊥) → Poll (Option ℕ)
told frame pending = pending
told frame (ready (ok (some _))) = ready (some frame)
told frame (ready (ok none)) = ready none
told frame (ready (err e)) = elim e [ ]

-- What the next `n` polls tell.
abbrev pub polls : ℕ → Source → Waker → ℕ → List (Poll (Option ℕ))
polls zero f cx frame = []
polls (suc n) f cx frame =
    let (f', frame', answer) = read_value f cx frame in told frame' answer ∷ polls n f' cx frame'

-- A wait before each number, and before the end.
abbrev pub alternating : List ℕ → List (Poll (Option ℕ))
alternating [] = pending ∷ ready none ∷ []
alternating (value ∷ values) = pending ∷ ready (some value) ∷ alternating values

read_value-wait :
    (f : Source) (cx : Waker) (frame : ℕ)
    → f.waiting ≡ true
    → read_value f cx frame
      ≡ (record f { waiting = false; woken = f.woken ++ cx ∷ [] }, frame, pending)
unfolding read_value
read_value-wait f cx frame w = ground arith

read_value-end :
    (f : Source) (cx : Waker) (frame : ℕ)
    → f.waiting ≡ false
    → ltb f.values.start f.values.end ≡ false
    → read_value f cx frame ≡ (record f { waiting = true }, frame, ready (ok none))
unfolding read_value
read_value-end f cx frame g ge = ground arith

polls-alternating :
    (n : ℕ) (f : Source) (cx : Waker) (frame : ℕ)
    → f.waiting ≡ true
    → f.values.end - f.values.start ≡ n
    → polls (length (alternating (counted_from f.values.start n))) f cx frame
      ≡ alternating (counted_from f.values.start n)
polls-alternating zero f cx frame w e =
    let idle : Source = record f { waiting = false; woken = f.woken ++ cx ∷ [] } in
    let past : ltb f.values.start f.values.end ≡ false = ground arith in
    rw (read_value-wait f cx frame w, read_value-end idle cx frame refl past) refl
polls-alternating (suc n) f cx frame w e =
    let idle : Source = record f { waiting = false; woken = f.woken ++ cx ∷ [] } in
    let more : ltb f.values.start f.values.end ≡ true = ground arith in
    let next : Source = record idle {
      waiting = true;
      values = record f.values { start = f.values.start + 1 };
    } in
    rw (read_value-wait f cx frame w, read_value-next idle cx frame refl more)
      (ap (λ told. pending ∷ ready (some f.values.start) ∷ told)
        (polls-alternating n next cx f.values.start refl (omega arith)))

-- The Source of the memory example keeps what the read scheduler asks of a `ReadFile`, opened at any
-- time. A new one opens at once and declares as many frames as its range has numbers; polled on, it
-- waits once before each number of the range, which it delivers in order, and once before the end.
pub polls-new_source :
    (values : Range) (cx : Waker) (frame : ℕ)
    → let all = counted_from values.start (values.end - values.start) in
      let opened = sources.poll_open (new_source values) cx in
      Contract sources numbers AnyCall
      × (opened.1 ≡ ready (ok tt))
      × (sources.frame_count (new_source values) ≡ length all)
      × (polls (length (alternating all)) opened.0 cx frame ≡ alternating all)
unfolding new_source
polls-new_source values cx frame = (
  sources-Contract,
  refl,
  sym (length-counted_from values.start (values.end - values.start)),
  polls-alternating (values.end - values.start) (new_source values) cx frame refl refl,
)
  where
    length-counted_from : (start n : ℕ) → length (counted_from start n) ≡ n
    length-counted_from start zero = refl
    length-counted_from start (suc n) = ap suc (length-counted_from (start + 1) n)

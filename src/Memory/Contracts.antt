-- ===== src/Memory/Contracts.antt =====
-- examples/memory/src/main.rs: its source and its frames keep the contracts of the schedulers, and its
-- destination sums what it accepts.
use carbon_io.Prelude.{
  ℕ, zero, suc, ◌+◌, ◌-◌, ◌≤◌, ◌<◌, ◌≡◌, ◌⊎◌, inl, inr, refl, ap, true, false, Bool-cases, List, [],
  ◌∷◌, none, some, arith, ltb, Result, ok, err, Poll, ready, pending, sum_of, u32_mod,
  if◌then◌else◌,
}
use carbon_io.Budget.{Waker}
use carbon_io.Read.Contract.{Call, Contract}
use carbon_io.Write.Contract.{FrameContract}
use carbon_io.Memory.{
  Source, read_value, sources, Partial, fill_value, partials, Destination, IoError, other,
  write_value,
}

-- The numbers of a range.
abbrev pub counted_from : ℕ → ℕ → List ℕ
counted_from start zero = []
counted_from start (suc n) = start ∷ counted_from (start + 1) n

abbrev pub numbers : Source → List ℕ
numbers f = counted_from f.values.start (f.values.end - f.values.start)

-- The source keeps no buffer between its polls, and opening it changes nothing.
abbrev pub AnyCall : Source → Call ℕ → Type 0
AnyCall f call = Unit {0}

pub counted_from-next :
    (start end : ℕ)
    → start < end
    → counted_from start (end - start) ≡ start ∷ counted_from (start + 1) (end - (start + 1))
counted_from-next start end lt =
    let more : end - start ≡ suc (end - (start + 1)) = omega (arith, lt) in
    ap (counted_from start) more

read_value-waits :
    (f : Source) (cx : Waker) (frame : ℕ)
    → (read_value f cx frame).2 ≡ pending
    → numbers (read_value f cx frame).0 ≡ numbers f
unfolding read_value
read_value-waits f cx frame e = elim (Bool-cases f.waiting) [
  | inl w ↦ rw (read_value, w) refl
  | inr g ↦ elim (Bool-cases (ltb f.values.start f.values.end)) [
    | inl lt ↦
        let bad : (read_value f cx frame).2 ≡ ready (ok (some tt)) = rw (read_value, g, lt) refl in
        cc
    | inr ge ↦
        let bad : (read_value f cx frame).2 ≡ ready (ok none) = rw (read_value, g, ge) refl in cc
  ]
]

pub read_value-next :
    (f : Source) (cx : Waker) (frame : ℕ)
    → f.waiting ≡ false
    → ltb f.values.start f.values.end ≡ true
    → read_value f cx frame ≡ (
      record f { waiting = true; values = record f.values { start = f.values.start + 1 } },
      f.values.start,
      ready (ok (some tt)),
    )
unfolding read_value
read_value-next f cx frame g lt = ground arith

read_value-reads :
    (f : Source) (cx : Waker) (frame : ℕ)
    → (read_value f cx frame).2 ≡ ready (ok (some tt))
    → numbers f ≡ (read_value f cx frame).1 ∷ numbers (read_value f cx frame).0
unfolding read_value
read_value-reads f cx frame e = elim (Bool-cases f.waiting) [
  | inl w ↦ let bad : (read_value f cx frame).2 ≡ pending = rw (read_value, w) refl in cc
  | inr g ↦ elim (Bool-cases (ltb f.values.start f.values.end)) [
    | inl lt ↦
        rw (read_value-next f cx frame g lt)
          (counted_from-next f.values.start f.values.end (ground arith))
    | inr ge ↦
        let bad : (read_value f cx frame).2 ≡ ready (ok none) = rw (read_value, g, ge) refl in cc
  ]
]

pub sources-Contract : Contract sources numbers AnyCall
sources-Contract = record {
  opens = λ f cx any. refl;
  reopens = λ f cx any failed. tt;
  begins = λ f cx any opened frame. tt;
  waits = λ f cx frame any e. (read_value-waits f cx frame e, tt);
  reads = λ f cx frame any e. (read_value-reads f cx frame e, λ more. tt);
}

abbrev pub partial_content : Partial → List ℕ
partial_content p = if p.complete then p.value ∷ [] else []

-- Frames of one number, also the number of a frame that was never filled.
abbrev pub frame_content : ℕ → List ℕ
frame_content value = value ∷ []

-- What the destination does with the frames of a file, each polled until it is accepted.
abbrev pub feed : Destination → Waker → List ℕ → Destination × Poll (Result (Unit {0}) IoError)
feed f cx [] = (f, ready (ok tt))
feed f cx (frame ∷ frames) = elim (write_value (write_value f cx frame).0 cx frame).1 [
  | ready (ok _) ↦ feed (write_value (write_value f cx frame).0 cx frame).0 cx frames
  | answer ↦ ((write_value (write_value f cx frame).0 cx frame).0, answer)
]

write_value-twice :
    (f : Destination) (cx : Waker) (frame : ℕ)
    → f.waiting ≡ true
    → let g = (write_value f cx frame).0 in
      ((write_value f cx frame).1 ≡ pending)
      × ((write_value g cx frame).0.waiting ≡ true)
      × (((write_value g cx frame).1 ≡ ready (ok tt))
            × ((write_value g cx frame).0.sum ≡ f.sum + frame)
            × (f.sum + frame < u32_mod)
          ⊎ ((write_value g cx frame).1 ≡ ready (err (other "sum overflow")))
            × ((write_value g cx frame).0.sum ≡ f.sum)
            × (u32_mod ≤ f.sum + frame))
unfolding write_value
write_value-twice f cx frame w = ground arith

-- A destination that begins to wait sums the frames of a file, if the sum is below 2^32, and else
-- fails with an overflow.
pub feed-sum :
    (f : Destination) (cx : Waker) (frames : List ℕ)
    → f.waiting ≡ true
    → f.sum < u32_mod
    → ((feed f cx frames).1 ≡ ready (ok tt))
        × ((feed f cx frames).0.sum ≡ f.sum + sum_of (λ n. n) frames)
        × (f.sum + sum_of (λ n. n) frames < u32_mod)
      ⊎ ((feed f cx frames).1 ≡ ready (err (other "sum overflow")))
        × (u32_mod ≤ f.sum + sum_of (λ n. n) frames)
feed-sum f cx [] w small = inl (refl, omega arith, omega (arith, small))
feed-sum f cx (frame ∷ frames) w small =
    let g = (write_value (write_value f cx frame).0 cx frame).0 in
    let (first, again, cases) = write_value-twice f cx frame w in
    elim cases [
      | inr (answer, kept, over) ↦ inr (rw (feed, answer) (refl, omega (arith, over)))
      | inl (answer, grown, below) ↦
          rw (feed, answer)
            (elim (feed-sum g cx frames again (omega (arith, grown, below))) [
              | inl (all, total, fits_in) ↦
                  inl (all, omega (arith, total, grown), omega (arith, fits_in, grown))
              | inr (bad, over) ↦ inr (bad, omega (arith, over, grown))
            ])
    ]

-- The frames of one number keep what the write scheduler asks of a `PartialFrame`: a fill takes its
-- input, which the finished frame is.
pub partials-FrameContract :
    FrameContract partials partial_content frame_content (λ r input. input ∷ [])
unfolding fill_value
partials-FrameContract = record {
  fillable = λ p. p.complete ≡ false;
  starts = λ p empty incomplete. incomplete;
  empty = λ p e. ground arith;
  fills = λ p cx input r begun e. (rw begun refl, λ c. cc);
  waits = λ p cx input begun e. cc;
  finishes = λ p e. ground arith;
}

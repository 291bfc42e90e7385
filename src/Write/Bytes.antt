-- ===== src/Write/Bytes.antt =====
-- src/write.rs: `BytesPartialFrame`, the partial frame of bytes.
use carbon_io.Prelude.{
  ℕ, zero, suc, ◌+◌, ◌-◌, ◌≤◌, ◌<◌, ◌≡◌, ◌⊎◌, refl, sym, ap, subst, ◌∙◌, ok, ready, true, List, [],
  ◌∷◌, ◌++◌, arith, min, length, length-append, take, drop, ◌==◌,
}
use carbon_io.Budget.{Waker}
use carbon_io.Write.Frames.{
  BytesFrameAllocator, BytesPartialFrame, bytes_partial, allocate_bytes, fill_count, fill_bytes,
  is_complete_bytes, is_empty_bytes, finish_bytes,
}
use carbon_io.Write.Contract.{FrameContract}

length-take : {A : Type 0} (n : ℕ) (xs : List A) → length (take n xs) ≡ min n (length xs)
length-take zero xs = omega arith
length-take (suc n) [] = omega arith
length-take (suc n) (x ∷ xs) = omega (arith, length-take n xs)

take-drop : {A : Type 0} (n : ℕ) (xs : List A) → take n xs ++ drop n xs ≡ xs
take-drop zero xs = refl
take-drop (suc n) [] = refl
take-drop (suc n) (x ∷ xs) = ap (λ ys. x ∷ ys) (take-drop n xs)

no_bytes : (xs : List ℕ) → (length xs == 0) ≡ true → xs ≡ []
no_bytes [] e = refl
no_bytes (x ∷ xs) e = absurd (ground arith)

-- The byte frames do what the scheduler asks of a partial frame: a fill with output `n` appends the
-- first `n` bytes of the input, and finishing gives all bytes.
pub bytes_partial-FrameContract :
    FrameContract bytes_partial (λ p. p.bytes) (λ frame. frame) (λ n input. take n input)
unfolding fill_bytes is_empty_bytes finish_bytes
bytes_partial-FrameContract = record {
  empty = λ p e. no_bytes p.bytes e;
  fillable = λ p. Unit {0};
  starts = λ p e c. tt;
  fills = λ p cx input n f e. (ap (λ k. p.bytes ++ take k input) (ground arith), λ c. tt);
  waits = λ p cx input f e. cc;
  finishes = λ p e. refl;
}

-- A frame that holds at most `frame_size` bytes holds at most so many after a fill; the fill consumes
-- no more than the input has, and leaves the frame complete or the input consumed.
pub fill_bytes-Bounds :
    (p : BytesPartialFrame) (cx : Waker) (input : List ℕ)
    → length p.bytes ≤ p.frame_size
    → let q = (fill_bytes p cx input).0 in
      (length q.bytes ≤ q.frame_size)
      × (length q.bytes ≡ length p.bytes + fill_count p input)
      × (fill_count p input ≤ length input)
      × ((is_complete_bytes q ≡ true) ⊎ (fill_count p input ≡ length input))
unfolding fill_bytes fill_count is_complete_bytes
fill_bytes-Bounds p cx input le = ground (
  arith,
  length-append p.bytes (take (fill_count p input) input),
  length-take (fill_count p input) input,
)

-- An input in frames: each is filled from what is left of the input, of which the bytes that the fill
-- reports are gone then, and finished.
abbrev pub split_bytes : ℕ → BytesFrameAllocator → Waker → List ℕ → List (List ℕ)
split_bytes zero a cx input = []
split_bytes (suc n) a cx [] = []
split_bytes (suc n) a cx (x ∷ input) =
    let p = (allocate_bytes a).0 in
    elim (fill_bytes p cx (x ∷ input)).1 [
      | ready (ok count) ↦
          finish_bytes (fill_bytes p cx (x ∷ input)).0
          ∷ split_bytes n (allocate_bytes a).1 cx (drop count (x ∷ input))
      | answer ↦ []
    ]

abbrev pub join : List (List ℕ) → List ℕ
join [] = []
join (bytes ∷ frames) = bytes ++ join frames

-- The frames are the input in pieces of `size` bytes, the last one of what is left.
abbrev pub Pieces : ℕ → List ℕ → List (List ℕ) → Type 0
Pieces size input [] = input ≡ []
Pieces size input (bytes ∷ frames) =
    (0 < length bytes)
    × (length bytes ≤ size)
    × (bytes ≡ take size input)
    × Pieces size (drop size input) frames

Pieces-join :
    (size : ℕ) (input : List ℕ) (frames : List (List ℕ))
    → Pieces size input frames
    → join frames ≡ input
Pieces-join size input [] e = sym e
Pieces-join size input (bytes ∷ frames) (some_bytes, few, here, more) =
    ap (λ xs. xs ++ join frames) here
    ∙ ap (λ xs. take size input ++ xs) (Pieces-join size (drop size input) frames more)
    ∙ take-drop size input

min_zero : (n : ℕ) → min 0 n ≡ 0
min_zero n = omega arith

zero_min : (n : ℕ) → min (suc n) 0 ≡ 0
zero_min n = omega arith

take-min : (n : ℕ) (xs : List ℕ) → take (min n (length xs)) xs ≡ take n xs
take-min zero xs = ap (λ k. take k xs) (min_zero (length xs))
take-min (suc n) [] = ap (λ k. take k []) (zero_min n)
take-min (suc n) (x ∷ xs) =
    let one : min (suc n) (suc (length xs)) ≡ suc (min n (length xs)) = omega arith in
    ap (λ k. take k (x ∷ xs)) one ∙ ap (λ ys. x ∷ ys) (take-min n xs)

drop-min : (n : ℕ) (xs : List ℕ) → drop (min n (length xs)) xs ≡ drop n xs
drop-min zero xs = ap (λ k. drop k xs) (min_zero (length xs))
drop-min (suc n) [] = ap (λ k. drop k []) (zero_min n)
drop-min (suc n) (x ∷ xs) =
    let one : min (suc n) (suc (length xs)) ≡ suc (min n (length xs)) = omega arith in
    ap (λ k. drop k (x ∷ xs)) one ∙ drop-min n xs

length-drop : (n : ℕ) (xs : List ℕ) → length (drop n xs) ≡ length xs - n
length-drop zero xs = omega arith
length-drop (suc n) [] = omega arith
length-drop (suc n) (x ∷ xs) = omega (arith, length-drop n xs)

-- The first fill of a frame reports what the frame takes.
first_count :
    (a : BytesFrameAllocator) (input : List ℕ)
    → fill_count (allocate_bytes a).0 input ≡ min a.frame_size (length input)
unfolding allocate_bytes fill_count
first_count a input = omega arith

split_bytes-Pieces :
    (n : ℕ) (a : BytesFrameAllocator) (cx : Waker) (input : List ℕ)
    → 0 < a.frame_size
    → length input ≤ n
    → Pieces a.frame_size input (split_bytes n a cx input)
unfolding allocate_bytes fill_bytes finish_bytes
split_bytes-Pieces zero a cx [] pos enough = refl
split_bytes-Pieces zero a cx (x ∷ input) pos enough = absurd (omega arith)
split_bytes-Pieces (suc n) a cx [] pos enough = refl
split_bytes-Pieces (suc n) a cx (x ∷ input) pos enough =
    let xs = x ∷ input in
    let size = a.frame_size in
    let count = fill_count (allocate_bytes a).0 xs in
    let here : take count xs ≡ take size xs =
      ap (λ k. take k xs) (first_count a xs) ∙ take-min size xs in
    let left : drop count xs ≡ drop size xs =
      ap (λ k. drop k xs) (first_count a xs) ∙ drop-min size xs in
    let long = length-take count xs in
    let more = split_bytes-Pieces n a cx (drop size xs) pos (omega (arith, length-drop size xs)) in
    (
      omega (arith, long, first_count a xs),
      omega (arith, long, first_count a xs),
      here,
      subst (λ ys. Pieces size (drop size xs) (split_bytes n a cx ys)) (sym left) more,
    )

-- Byte frames of a size above zero, filled from an input one after the other, each from what is left
-- behind the bytes that the fills before reported, and finished: joined they are the input, each
-- holds at least one byte and at most the size, and each but the last is full. As many rounds
-- are enough as the input has bytes.
pub finish_bytes-roundtrip :
    (n : ℕ) (a : BytesFrameAllocator) (cx : Waker) (input : List ℕ)
    → 0 < a.frame_size
    → length input ≤ n
    → (join (split_bytes n a cx input) ≡ input)
      × Pieces a.frame_size input (split_bytes n a cx input)
finish_bytes-roundtrip n a cx input pos enough =
    let pieces = split_bytes-Pieces n a cx input pos enough in
    (Pieces-join a.frame_size input (split_bytes n a cx input) pieces, pieces)

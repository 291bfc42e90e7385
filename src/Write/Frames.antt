-- ===== src/Write/Frames.antt =====
-- src/write.rs: partial frames and their allocators as interfaces, the byte frames that implement
-- them, and the frame queue of a slot. A byte is a number; `Infallible` is the empty type.
use carbon_io.Prelude.{
  ℕ, min, Bool, List, [], ◌∷◌, ◌++◌, Option, none, some, ◌==◌, if◌then◌else◌, length, get_elem?,
  take, Result, ok, err, Poll, ready, saturating_sub,
}
use carbon_io.Errors.{ContractError, invalid_partial_frame}
use carbon_io.Budget.{Waker}

-- `trait PartialFrame`, for partial frames `P` with `Input = I`, `Output = O`, `Frame = T`, `Error = E`.
pub record PartialFrame (P I O T E : Type 0) : Type 0 where
  pub poll_fill : P → Waker → I → P × Poll (Result O E)
  pub is_complete : P → Bool
  pub is_empty : P → Bool
  pub finish : P → T

-- `trait FrameAllocator` with `Partial = P`, for allocators in state `A`.
pub record FrameAllocator (P A : Type 0) : Type 0 where
  pub allocate : A → P × A

pub record BytesFrameAllocator : Type 0 where
  pub frame_size : ℕ

pub record BytesPartialFrame : Type 0 where
  pub bytes : List ℕ
  pub frame_size : ℕ

-- `BytesFrameAllocator::new`.
unfoldable pub new_allocator : ℕ → Result BytesFrameAllocator ContractError
new_allocator frame_size =
    if frame_size == 0 then err invalid_partial_frame else ok (record { frame_size = frame_size })

unfoldable pub allocate_bytes : BytesFrameAllocator → BytesPartialFrame × BytesFrameAllocator
allocate_bytes a = (record { bytes = []; frame_size = a.frame_size }, a)

-- How many bytes of the input the next fill consumes.
unfoldable pub fill_count : BytesPartialFrame → List ℕ → ℕ
fill_count p input = min (saturating_sub p.frame_size (length p.bytes)) (length input)

unfoldable pub fill_bytes :
    BytesPartialFrame → Waker → List ℕ → BytesPartialFrame × Poll (Result ℕ ⊥)
unfolding fill_count
fill_bytes p cx input =
    let count = fill_count p input in
    (record p { bytes = p.bytes ++ take count input }, ready (ok count))

unfoldable pub is_complete_bytes : BytesPartialFrame → Bool
is_complete_bytes p = length p.bytes == p.frame_size

unfoldable pub is_empty_bytes : BytesPartialFrame → Bool
is_empty_bytes p = length p.bytes == 0

unfoldable pub finish_bytes : BytesPartialFrame → List ℕ
finish_bytes p = p.bytes

instance abbrev pub bytes_partial : PartialFrame BytesPartialFrame (List ℕ) ℕ (List ℕ) ⊥
bytes_partial = record {
  poll_fill = fill_bytes;
  is_complete = is_complete_bytes;
  is_empty = is_empty_bytes;
  finish = finish_bytes;
}

instance abbrev pub bytes_allocator : FrameAllocator BytesPartialFrame BytesFrameAllocator
bytes_allocator = record { allocate = allocate_bytes }

-- `Frames<T>`: a streaming slot drops a frame once it is written, a replay slot keeps all.
pub data Frames (T : Type 0) : Type 0 where
  streaming : List T → Frames T
  replay : List T → Frames T

module _ {T : Type 0} where
  unfoldable pub new_frames : Bool → Frames T
  new_frames keep = if keep then replay [] else streaming []

  unfoldable pub push : Frames T → T → Frames T
  push (streaming frames) frame = streaming (frames ++ frame ∷ [])
  push (replay frames) frame = replay (frames ++ frame ∷ [])

  -- The frame to write when `written` frames of the attempt have been accepted.
  unfoldable pub next : Frames T → ℕ → Option T
  next (streaming []) written = none
  next (streaming (frame ∷ frames)) written = some frame
  next (replay frames) written = get_elem? frames written

  -- The frames that stay, and how many were released.
  unfoldable pub accepted : Frames T → Frames T × ℕ
  accepted (streaming []) = (streaming [], 0)
  accepted (streaming (frame ∷ frames)) = (streaming frames, 1)
  accepted (replay frames) = (replay frames, 0)

  unfoldable pub len : Frames T → ℕ
  len (streaming frames) = length frames
  len (replay frames) = length frames

  unfoldable pub clear : Frames T → Frames T
  clear (streaming frames) = streaming []
  clear (replay frames) = replay []

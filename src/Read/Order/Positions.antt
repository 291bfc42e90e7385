-- ===== src/Read/Order/Positions.antt =====
-- src/read.rs: the position of a file's next frame, which `drive` computes with wrap-around.
use mathlib.Core.List.{append_assoc}
use carbon_io.Prelude.{
  ℕ, zero, suc, ◌+◌, ◌%◌, ◌≤◌, ◌<◌, ◌≡◌, sym, ap, ◌∙◌, Bool, List, [], ◌∷◌, ◌++◌, some, arith,
  length, length-append, get_elem?, get_elem?-append_right, usize_mod, u32_mod, wrapping_add,
  wrapping_sub, saturating_add_u32,
}
use carbon_io.Read.State.{Slot}
use carbon_io.Read.Layout.{FileAt, start_of, start_of-le, Front}

-- The offset of a position in the buffer, which starts at position `e`.
pub offset_lem :
    (start received e : ℕ)
    → e ≤ start + received
    → start + received < e + usize_mod
    → e + wrapping_sub (wrapping_add (start % usize_mod) received) (e % usize_mod)
      ≡ start + received
offset_lem start received e ge lt = omega arith

pub saturating_add_u32-lt : (a b : ℕ) → a < b → b < u32_mod → saturating_add_u32 a 1 ≡ a + 1
saturating_add_u32-lt a b lt small = ground arith

module _ {F : Type 0} where
  -- The next frame of every file is one that is not delivered.
  pub Front-le :
      (e s : ℕ) (files : List (Slot F)) (i : ℕ) (slot : Slot F)
      → Front e s files
      → get_elem? files i ≡ some slot
      → e ≤ start_of s files i + slot.received
  Front-le e s [] i slot f h = cc
  Front-le e s (x ∷ files) zero slot f h = ground arith
  Front-le e s (x ∷ files) (suc i) slot f h = omega (arith, start_of-le (s + x.count) files i, f.1)

module _ {T F : Type 0} (rest : F → List T) (stream : List T) where
  -- A file that has not delivered all of its frames is still inside the stream.
  pub FileAt-inside :
      (s : ℕ) (slot : Slot F)
      → FileAt rest stream s slot
      → slot.received < slot.count
      → s + slot.received < length stream
  FileAt-inside s slot at lt =
      let whole = ap length at.split in
      let outer = length-append at.before (rest slot.file ++ at.after) in
      let inner = length-append (rest slot.file) at.after in
      omega (arith, whole, outer, inner, at.placed, at.left)

  -- The file's next frame is the stream's frame of its position.
  pub FileAt-frame :
      (s : ℕ) (slot : Slot F) (frame : T) (more : List T)
      → (at : FileAt rest stream s slot) → rest slot.file ≡ frame ∷ more
      → some frame ≡ get_elem? stream (s + slot.received)
  FileAt-frame s slot frame more at eq = sym (
      ap (λ xs. get_elem? xs (s + slot.received)) (sym at.split)
      ∙ ap (λ k. get_elem? (at.before ++ (rest slot.file ++ at.after)) k) (omega (arith, at.placed))
      ∙ get_elem?-append_right at.before (rest slot.file ++ at.after) 0
      ∙ ap (λ xs. get_elem? (xs ++ at.after) 0) eq)

  -- The file after it delivered that frame.
  pub FileAt-next :
      (s : ℕ) (slot : Slot F) (f : F) (frame : T) (blocked : Bool)
      → FileAt rest stream s slot
      → slot.received < slot.count
      → rest slot.file ≡ frame ∷ rest f
      → FileAt rest stream s (record slot {
        file = f;
        received = saturating_add_u32 slot.received 1;
        blocked = blocked;
      })
  FileAt-next s slot f frame blocked at lt eq =
      let one = saturating_add_u32-lt slot.received slot.count lt at.small in
      let regroup : (at.before ++ frame ∷ []) ++ (rest f ++ at.after)
          ≡ at.before ++ (frame ∷ rest f ++ at.after) =
        append_assoc at.before (frame ∷ []) (rest f ++ at.after) in
      record {
        before = at.before ++ frame ∷ [];
        after = at.after;
        split = regroup ∙ ap (λ xs. at.before ++ (xs ++ at.after)) (sym eq) ∙ at.split;
        placed = rw one (omega (arith, length-append at.before (frame ∷ []), at.placed));
        left = rw one (omega (arith, ap length eq, at.left));
        start = at.start;
        positive = at.positive;
        small = at.small;
      }

  -- The file after an operation that used up no frame.
  pub FileAt-same :
      (s : ℕ) (slot slot' : Slot F)
      → FileAt rest stream s slot
      → rest slot'.file ≡ rest slot.file
      → slot'.start ≡ slot.start
      → slot'.count ≡ slot.count
      → slot'.received ≡ slot.received
      → FileAt rest stream s slot'
  FileAt-same s slot slot' at same st c re = record {
    before = at.before;
    after = at.after;
    split = ap (λ xs. at.before ++ (xs ++ at.after)) same ∙ at.split;
    placed = omega (arith, at.placed);
    left = omega (arith, at.left, ap length same);
    start = st ∙ at.start;
    positive = omega (arith, at.positive);
    small = omega (arith, at.small);
  }

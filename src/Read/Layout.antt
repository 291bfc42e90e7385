-- ===== src/Read/Layout.antt =====
-- Where the files of src/read.rs lie in the stream of all frames. Positions here do not wrap.
use mathlib.Core.Option.{some-injective}
use carbon_io.Prelude.{
  ℕ, zero, suc, ◌+◌, ◌%◌, ◌≤◌, ◌<◌, ◌≡◌, ◌⊎◌, inl, inr, ap, subst, List, [], ◌∷◌, ◌++◌, Option,
  none, some, arith, length, get_elem?, set, usize_mod, u32_mod,
}
use carbon_io.Read.State.{opening, reading, Slot, Cell}
use carbon_io.Read.Contract.{Call, to_open, to_read}

module _ {T F : Type 0} (rest : F → List T) (stream : List T) where
  -- A file whose first frame stands at position `s` of the stream: what it has not delivered yet
  -- stands there right behind what it has.
  pub record FileAt (s : ℕ) (slot : Slot F) : Type 0 where
    pub before : List T
    pub after : List T
    pub split : before ++ (rest slot.file ++ after) ≡ stream
    pub placed : length before ≡ s + slot.received
    pub left : slot.received + length (rest slot.file) ≡ slot.count
    pub start : slot.start ≡ s % usize_mod
    pub positive : 0 < slot.count
    pub small : slot.count < u32_mod

  -- The files stand one behind the other from position `s` to the end of the stream.
  abbrev pub Placed : ℕ → List (Slot F) → Type 0
  Placed s [] = s ≡ length stream
  Placed s (slot ∷ files) = FileAt s slot × Placed (s + slot.count) files

  pub Placed-le : (s : ℕ) (files : List (Slot F)) → Placed s files → s ≤ length stream
  Placed-le s [] e = omega arith
  Placed-le s (slot ∷ files) (at, more) = omega (arith, Placed-le (s + slot.count) files more)

module _ {F : Type 0} where
  -- The position of the first frame of file `i`.
  abbrev pub start_of : ℕ → List (Slot F) → ℕ → ℕ
  start_of s [] i = s
  start_of s (slot ∷ files) zero = s
  start_of s (slot ∷ files) (suc i) = start_of (s + slot.count) files i

  -- Position `p` belongs to a file that has delivered it.
  abbrev pub Covered : ℕ → List (Slot F) → ℕ → Type 0
  Covered s [] p = ⊥
  Covered s (slot ∷ files) p =
      (p < s + slot.received) ⊎ ((s + slot.count ≤ p) × Covered (s + slot.count) files p)

  -- The first file has delivered everything up to position `e`, and not all of it is consumed.
  abbrev pub Front : ℕ → ℕ → List (Slot F) → Type 0
  Front e s [] = e ≡ s
  Front e s (slot ∷ files) = (e ≤ s + slot.received) × (e < s + slot.count)

  pub Front-set :
      (e s : ℕ) (files : List (Slot F)) (i : ℕ) (slot slot' : Slot F)
      → get_elem? files i ≡ some slot
      → slot'.count ≡ slot.count
      → slot.received ≤ slot'.received
      → Front e s files
      → Front e s (set files i slot')
  Front-set e s [] i slot slot' h c le f = f
  Front-set e s (x ∷ files) zero slot slot' h c le f = ground arith
  Front-set e s (x ∷ files) (suc i) slot slot' h c le f = f

  pub Covered-set :
      (s : ℕ) (files : List (Slot F)) (i : ℕ) (slot slot' : Slot F) (p : ℕ)
      → get_elem? files i ≡ some slot
      → slot'.count ≡ slot.count
      → slot.received ≤ slot'.received
      → Covered s files p
      → Covered s (set files i slot') p
  Covered-set s [] i slot slot' p h c le k = k
  Covered-set s (x ∷ files) zero slot slot' p h c le (inl lt) = inl (ground arith)
  Covered-set s (x ∷ files) zero slot slot' p h c le (inr (ge, k)) =
      let same : slot'.count ≡ x.count = ground arith in inr (rw same (ge, k))
  Covered-set s (x ∷ files) (suc i) slot slot' p h c le (inl lt) = inl lt
  Covered-set s (x ∷ files) (suc i) slot slot' p h c le (inr (ge, k)) =
      inr (ge, Covered-set (s + x.count) files i slot slot' p h c le k)

  pub start_of-le : (s : ℕ) (files : List (Slot F)) (i : ℕ) → s ≤ start_of s files i
  start_of-le s [] i = omega arith
  start_of-le s (x ∷ files) zero = omega arith
  start_of-le s (x ∷ files) (suc i) = omega (arith, start_of-le (s + x.count) files i)

  -- A frame that file `i` has delivered is covered.
  pub Covered-self :
      (s : ℕ) (files : List (Slot F)) (i : ℕ) (slot slot' : Slot F) (p : ℕ)
      → get_elem? files i ≡ some slot
      → start_of s files i ≤ p
      → p < start_of s files i + slot'.received
      → Covered s (set files i slot') p
  Covered-self s [] i slot slot' p h ge lt = cc
  Covered-self s (x ∷ files) zero slot slot' p h ge lt = inl lt
  Covered-self s (x ∷ files) (suc i) slot slot' p h ge lt = inr (
    omega (arith, start_of-le (s + x.count) files i),
    Covered-self (s + x.count) files i slot slot' p h ge lt,
  )

module _ {T F : Type 0} (rest : F → List T) (stream : List T) where
  pub received-le : (s : ℕ) (slot : Slot F) → FileAt rest stream s slot → slot.received ≤ slot.count
  received-le s slot at = omega (arith, at.left)

  pub Placed-at :
      (s : ℕ) (files : List (Slot F)) (i : ℕ) (slot : Slot F)
      → Placed rest stream s files
      → get_elem? files i ≡ some slot
      → FileAt rest stream (start_of s files i) slot
  Placed-at s [] i slot p h = cc
  Placed-at s (x ∷ files) zero slot (at, more) h =
      subst (FileAt rest stream s) (some-injective x slot h) at
  Placed-at s (x ∷ files) (suc i) slot (at, more) h = Placed-at (s + x.count) files i slot more h

  pub Placed-set :
      (s : ℕ) (files : List (Slot F)) (i : ℕ) (slot slot' : Slot F)
      → Placed rest stream s files
      → get_elem? files i ≡ some slot
      → slot'.count ≡ slot.count
      → FileAt rest stream (start_of s files i) slot'
      → Placed rest stream s (set files i slot')
  Placed-set s [] i slot slot' p h c at' = p
  Placed-set s (x ∷ files) zero slot slot' (at, more) h c at' =
      let same : slot'.count ≡ x.count = ground arith in (at', rw same more)
  Placed-set s (x ∷ files) (suc i) slot slot' (at, more) h c at' =
      (at, Placed-set (s + x.count) files i slot slot' more h c at')

  -- The next frame of a file is not covered by any file.
  pub Covered-next :
      (s : ℕ) (files : List (Slot F)) (i : ℕ) (slot : Slot F)
      → Placed rest stream s files
      → get_elem? files i ≡ some slot
      → slot.received < slot.count
      → Covered s files (start_of s files i + slot.received)
      → ⊥
  Covered-next s [] i slot p h lt k = k
  Covered-next s (x ∷ files) zero slot (at, more) h lt (inl k) =
      let same : x ≡ slot = some-injective x slot h in
      absurd (omega (arith, ap (λ y. y.received) same))
  Covered-next s (x ∷ files) zero slot (at, more) h lt (inr (ge, k)) =
      let same : x ≡ slot = some-injective x slot h in
      absurd (omega (arith, ap (λ y. y.received) same, ap (λ y. y.count) same))
  Covered-next s (x ∷ files) (suc i) slot (at, more) h lt (inl k) =
      absurd (omega (arith, start_of-le (s + x.count) files i, received-le s x at))
  Covered-next s (x ∷ files) (suc i) slot (at, more) h lt (inr (ge, k)) =
      Covered-next (s + x.count) files i slot more h lt k

module _ {T : Type 0} where
  -- The buffer that cell `o` holds.
  abbrev pub held : List (Cell T) → ℕ → Option T
  held [] o = none
  held (cell ∷ frames) zero = cell.frame
  held (cell ∷ frames) (suc o) = held frames o

  -- `buffer` may be handed to the file whose next frame belongs into cell `o`.
  abbrev pub Handed : Option T → T → Type 0
  Handed none buffer = Unit {0}
  Handed (some x) buffer = x ≡ buffer

module _ {T F : Type 0} where
  -- What the next call of a file at position `s` needs: one that is not open yet may be opened, and
  -- one that is being read fits the buffer that stands in the cell of its next frame, at an offset
  -- from position `e`; without a buffer there, it fits all.
  abbrev pub Own : (F → Call T → Type 0) → ℕ → ℕ → Slot F → List (Cell T) → Type 0
  Own fits e s slot frames =
      (slot.state ≡ opening → fits slot.file to_open)
      × (slot.state ≡ reading
          → slot.received < slot.count
          → (o : ℕ) → e + o ≡ s + slot.received
          → (buffer : T) → Handed (held frames o) buffer
          → fits slot.file (to_read buffer))

  -- Every file is so.
  abbrev pub Fed : (F → Call T → Type 0) → ℕ → ℕ → List (Slot F) → List (Cell T) → Type 0
  Fed fits e s files frames =
      (i : ℕ) (slot : Slot F)
      → get_elem? files i ≡ some slot
      → Own fits e (start_of s files i) slot frames

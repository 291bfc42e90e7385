-- ===== src/Read/Order.antt =====
-- What makes src/read.rs deliver frames in order: where the scheduler's files and cells stand in
-- the stream of all frames that it was given, and that the answers of a file keep it so.
pub mod Positions
pub mod Polls
pub mod Retire
pub mod Parts
pub mod Loops
pub mod Reads
pub mod Delivery
pub mod Admission
pub mod Calls
pub mod Runs
use carbon_io.Prelude.{
  ℕ, zero, suc, ◌+◌, ◌%◌, ◌≤◌, ◌<◌, ◌≡◌, ◌≢◌, ◌⊎◌, inl, inr, refl, sym, ap, subst, ◌∙◌, Bool, true,
  false, List, [], ◌∷◌, ◌++◌, Option, none, some, arith, length, get_elem?, is_some, set,
  length-set, Result, ok, err, Poll, ready, pending, usize_mod,
}
use carbon_io.Errors.{SchedulerError, contract, invalid_frame_position}
use carbon_io.Read.Contract.{Call}
use carbon_io.Read.State.{Slot, Cell, ReadScheduler}
use carbon_io.Read.Files.{Polled, put_slot, put_cell}
use carbon_io.Read.Feed.{Fed-put, held-set_ne}
use carbon_io.Read.Layout.{
  Own, Fed, FileAt, Placed, start_of, Covered, Front, Front-set, Covered-set, Placed-set,
}

module _ {T F : Type 0} (rest : F → List T) (fits : F → Call T → Type 0) (stream : List T)
    (e : ℕ) where
  -- `e` frames of the stream are delivered. The files stand behind one another in the rest of it,
  -- and a complete cell holds the stream's frame of its position. The reader has not failed, and it
  -- has only terminated behind the last frame.
  pub record Ordered (emitted discovered : ℕ) (closed terminated failed : Bool)
      (files : List (Slot F)) (frames : List (Cell T)) : Type 0 where
    pub first : ℕ
    pub at : emitted ≡ e % usize_mod
    pub end : discovered ≡ length stream % usize_mod
    pub placed : Placed rest stream first files
    pub behind : first ≤ e
    pub front : Front e first files
    pub window : length frames + e ≤ length stream
    pub live : length stream < e + usize_mod
    pub fed : Fed fits e first files frames
    pub quiet : failed ≡ false
    pub finished : terminated ≡ true → (closed ≡ true) × (e ≡ length stream)
    pub cells :
        (o : ℕ) (cell : Cell T)
        → get_elem? frames o ≡ some cell
        → cell.complete ≡ true
        → (cell.frame ≡ get_elem? stream (e + o)) × Covered first files (e + o)

  module _ {E A : Type 0} where
    abbrev pub InOrder : ReadScheduler T F E A → Type 0
    InOrder r =
        Ordered r.emitted r.discovered r.closed r.terminated (is_some r.error) r.files r.frames

    -- A poll that goes on keeps the order and the files' number, and one that fails does not fail
    -- with `InvalidFramePosition`.
    abbrev pub Kept : ℕ → Polled T F E A → Type 0
    Kept count p = elim p.result [
      | ok _ ↦ InOrder p.scheduler × (length p.scheduler.files ≡ count)
      | err error ↦ error ≢ contract invalid_frame_position
    ]

  -- A file's slot changes in place, and no cell does.
  pub Ordered-put_slot :
      (emitted discovered : ℕ) (closed terminated failed : Bool) (files : List (Slot F))
      (frames : List (Cell T)) (i : ℕ) (slot slot' : Slot F)
      → (inv : Ordered emitted discovered closed terminated failed files frames)
      → get_elem? files i ≡ some slot
      → slot'.count ≡ slot.count
      → slot.received ≤ slot'.received
      → FileAt rest stream (start_of inv.first files i) slot'
      → Own fits e (start_of inv.first files i) slot' frames
      → Ordered emitted discovered closed terminated failed (set files i slot') frames
  Ordered-put_slot emitted discovered closed terminated failed files frames i slot slot' inv h c le
        at' own =
      record {
        first = inv.first;
        at = inv.at;
        end = inv.end;
        placed = Placed-set rest stream inv.first files i slot slot' inv.placed h c at';
        behind = inv.behind;
        front = Front-set e inv.first files i slot slot' h c le inv.front;
        window = inv.window;
        live = inv.live;
        fed =
            Fed-put fits e inv.first files frames frames i slot slot' h c inv.fed (λ o clear. refl)
              own;
        quiet = inv.quiet;
        finished = inv.finished;
        cells = λ o cell eq full.
            let (same, k) = inv.cells o cell eq full in
            (same, Covered-set inv.first files i slot slot' (e + o) h c le k);
      }

module _ {ℓ} {A : Type ℓ} where
  -- An element of a list with one element replaced.
  pub get_elem?-set_cases :
      (xs : List A) (i : ℕ) (v : A) (o : ℕ) (a : A)
      → get_elem? (set xs i v) o ≡ some a
      → ((o ≡ i) × (v ≡ a)) ⊎ (get_elem? xs o ≡ some a)
  get_elem?-set_cases [] i v o a h = inr h
  get_elem?-set_cases (x ∷ xs) zero v zero a h = inl (refl, cc)
  get_elem?-set_cases (x ∷ xs) zero v (suc o) a h = inr h
  get_elem?-set_cases (x ∷ xs) (suc i) v zero a h = inr h
  get_elem?-set_cases (x ∷ xs) (suc i) v (suc o) a h = elim (get_elem?-set_cases xs i v o a h) [
    | inl (eq, same) ↦ inl (ap suc eq, same)
    | inr k ↦ inr k
  ]

module _ {T F : Type 0} (rest : F → List T) (fits : F → Call T → Type 0) (stream : List T)
    (e : ℕ) where
  -- A slot changes together with one cell, which is right if it is complete.
  pub Ordered-put_both :
      (emitted discovered : ℕ) (closed terminated failed : Bool) (files : List (Slot F))
      (frames : List (Cell T)) (i : ℕ) (slot slot' : Slot F) (offset : ℕ) (cell : Cell T)
      → (inv : Ordered rest fits stream e emitted discovered closed terminated failed files frames)
      → get_elem? files i ≡ some slot
      → slot'.count ≡ slot.count
      → slot.received ≤ slot'.received
      → FileAt rest stream (start_of inv.first files i) slot'
      → (cell.complete ≡ true
          → (cell.frame ≡ get_elem? stream (e + offset))
            × Covered inv.first (set files i slot') (e + offset))
      → start_of inv.first files i ≤ e + offset
      → e + offset < start_of inv.first files i + slot.count
      → Own fits e (start_of inv.first files i) slot' (set frames offset cell)
      → Ordered rest fits stream e emitted discovered closed terminated failed
          (set files i slot')
          (set frames offset cell)
  Ordered-put_both emitted discovered closed terminated failed files frames i slot slot' offset cell
        inv h c le at' good ge lt own =
      record {
        first = inv.first;
        at = inv.at;
        end = inv.end;
        placed = Placed-set rest stream inv.first files i slot slot' inv.placed h c at';
        behind = inv.behind;
        front = Front-set e inv.first files i slot slot' h c le inv.front;
        window = omega (arith, inv.window, length-set frames offset cell);
        live = inv.live;
        fed =
            Fed-put fits e inv.first files frames (set frames offset cell) i slot slot' h c inv.fed
              (λ o clear. held-set_ne frames offset o cell (λ eq. outside o eq clear)) own;
        quiet = inv.quiet;
        finished = inv.finished;
        cells = λ o other eq full. elim (get_elem?-set_cases frames offset cell o other eq) [
          | inl (pos, same) ↦ rw (pos, sym same) (good (ap (λ c. c.complete) same ∙ full))
          | inr old ↦
              let (same, k) = inv.cells o other old full in
              (same, Covered-set inv.first files i slot slot' (e + o) h c le k)
        ];
      }
    where
      outside :
          (o : ℕ)
          → offset ≡ o
          → (e + o < start_of inv.first files i) ⊎ (start_of inv.first files i + slot.count ≤ e + o)
          → ⊥
      outside o eq (inl before) = absurd (omega arith)
      outside o eq (inr after) = absurd (omega arith)

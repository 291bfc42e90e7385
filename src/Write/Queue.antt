-- ===== src/Write/Queue.antt =====
-- src/write.rs: the queue of slots as a whole. Each slot stands for the frames assigned to it, and
-- only the slot at `fill_index` takes more.
pub mod Each
pub mod Unused
use mathlib.Core.List.{append_assoc, append-nil}
use mathlib.Core.Option.{some-injective}
use carbon_io.Prelude.{
  ℕ, zero, suc, ◌+◌, ◌-◌, ◌≤◌, ◌<◌, ◌≡◌, ◌≢◌, ◌⊎◌, inl, inr, refl, sym, ap, subst, ◌∙◌, Bool, true,
  false, Bool-cases, List, [], ◌∷◌, ◌++◌, Option, none, some, arith, ltb, ok, ◌==◌, if◌then◌else◌,
  length, length-append, length-set, get_elem?, get_elem?-lt, get_elem?-set_self, get_elem?-set_ne,
  set, sum_of,
}
use carbon_io.Traits.{WriteFile}
use carbon_io.Budget.{Waker}
use carbon_io.Write.Slots.{FileState, closed, Slot, SlotPolled, is_closed, poll_slot, new_slot}
use carbon_io.Write.State.{add_frame}
use carbon_io.Write.Api.{reused, drop_unused}
use carbon_io.Write.Sized.{Sized, cost}

-- A property of a slot and the frames assigned to it, which all that happens to a slot keeps; the
-- first argument tells that input has ended.
pub record Kept {T F E O : Type 0} (file : WriteFile T F E O) (max_retries : ℕ)
    (P : Bool → List T → Slot T F O → Type 0) : Type 0 where
  pub fresh : (f : F) → P false [] (new_slot file f (ltb 0 max_retries))
  pub assigns :
      (all : List T) (slot : Slot T F O) (frame : T)
      → slot.assigned < slot.capacity
      → Sized max_retries false (length all) slot
      → P false all slot
      → P false (all ++ frame ∷ []) (add_frame slot frame)
  pub polls :
      (stop : Bool) (all : List T) (slot : Slot T F O) (cx : Waker) (answer : Bool × ℕ)
      → (poll_slot file slot cx stop max_retries).result ≡ ok answer
      → P stop all slot
      → P stop all (poll_slot file slot cx stop max_retries).slot
  pub stops : (all : List T) (slot : Slot T F O) → P false all slot → P true all slot
  pub reuses :
      (all : List T) (slot : Slot T F O) (f : F)
      → is_closed slot.state ≡ true
      → Sized max_retries false (length all) slot
      → P false all slot
      → P false [] (reused file slot f)

abbrev pub concat : {T : Type 0} → List (List T) → List T
concat [] = []
concat (l ∷ ls) = l ++ concat ls

pub concat-append :
    {T : Type 0} (ls : List (List T)) (l : List T) → concat (ls ++ l ∷ []) ≡ concat ls ++ l
concat-append [] l = append-nil l
concat-append (k ∷ ls) l =
    ap (λ xs. k ++ xs) (concat-append ls l) ∙ sym (append_assoc k (concat ls) l)

behind_head : {a c : ℕ} (fill : ℕ) → (0 ≡ fill → a < c) → a ≡ c → 0 < fill
behind_head zero room full = absurd (omega (arith, room refl, full))
behind_head (suc fill) room full = omega arith

module _ {T F O : Type 0} where
  -- The slots before `fill` are full, the one at `fill` has room, and those behind it are unused.
  abbrev pub Filled : ℕ → List (Slot T F O) → Type 0
  Filled fill files =
      (i : ℕ) (slot : Slot T F O)
      → get_elem? files i ≡ some slot
      → (i < fill → slot.assigned ≡ slot.capacity)
        × (i ≡ fill → slot.assigned < slot.capacity)
        × (fill < i → slot.assigned ≡ 0)

  pub Filled-set :
      (fill : ℕ) (files : List (Slot T F O)) (i : ℕ) (slot slot' : Slot T F O)
      → get_elem? files i ≡ some slot
      → slot'.assigned ≡ slot.assigned
      → slot'.capacity ≡ slot.capacity
      → Filled fill files
      → Filled fill (set files i slot')
  Filled-set fill files i slot slot' h a c filled j x hx = elim (Bool-cases (i == j)) [
    | inl eq ↦
        let here : i ≡ j = ground arith in
        let mine : slot' ≡ x = some-injective slot' x (
          sym (get_elem?-set_self files i slot' (get_elem?-lt files i slot h))
          ∙ ap (get_elem? (set files i slot')) here
          ∙ hx) in
        let old = filled i slot h in
        let same_assigned : x.assigned ≡ slot.assigned = sym (ap (λ y. y.assigned) mine) ∙ a in
        let same_capacity : x.capacity ≡ slot.capacity = sym (ap (λ y. y.capacity) mine) ∙ c in
        (
          λ lt. omega (arith, same_assigned, same_capacity, old.0 (omega (arith, lt, here))),
          λ at. omega (arith, same_assigned, same_capacity, old.1 (omega (arith, at, here))),
          λ gt. omega (arith, same_assigned, old.2 (omega (arith, gt, here))),
        )
    | inr ne ↦
        let differ : i ≢ j = λ eq. (ground arith) in
        filled j x (sym (get_elem?-set_ne files i j slot' differ) ∙ hx)
  ]

  get_elem?-snoc :
      (files : List (Slot T F O)) (slot : Slot T F O) (j : ℕ) (x : Slot T F O)
      → get_elem? (files ++ slot ∷ []) j ≡ some x
      → (get_elem? files j ≡ some x) ⊎ ((slot ≡ x) × (j ≡ length files))
  get_elem?-snoc [] slot zero x h = inr (some-injective slot x h, refl)
  get_elem?-snoc [] slot (suc j) x h = cc
  get_elem?-snoc (y ∷ files) slot zero x h = inl h
  get_elem?-snoc (y ∷ files) slot (suc j) x h = elim (get_elem?-snoc files slot j x h) [
    | inl k ↦ inl k
    | inr (same, at) ↦ inr (same, ap suc at)
  ]

  -- An unused slot joins the end.
  pub Filled-append :
      (fill : ℕ) (files : List (Slot T F O)) (slot : Slot T F O)
      → slot.assigned ≡ 0
      → 0 < slot.capacity
      → fill ≤ length files
      → Filled fill files
      → Filled fill (files ++ slot ∷ [])
  Filled-append fill files slot zero_assigned pos le filled j x hx =
      elim (get_elem?-snoc files slot j x hx) [
        | inl k ↦ filled j x k
        | inr (same, at) ↦
            let none_yet : x.assigned ≡ 0 = sym (ap (λ y. y.assigned) same) ∙ zero_assigned in
            (
              λ lt. absurd (omega (arith, at, le)),
              λ eq. omega (arith, none_yet, ap (λ y. y.capacity) same, pos),
              λ gt. none_yet,
            )
      ]

  -- A full head leaves.
  pub Filled-pop :
      (fill : ℕ) (slot : Slot T F O) (files : List (Slot T F O))
      → slot.assigned ≡ slot.capacity
      → Filled fill (slot ∷ files)
      → (0 < fill) × Filled (fill - 1) files
  Filled-pop fill slot files full filled =
      let head = filled 0 slot refl in
      let pos : 0 < fill = behind_head fill head.1 full in
      (
        pos,
        λ j x hx.
            let (before, at, behind) = filled (suc j) x hx in
            (λ lt. before (omega arith), λ eq. at (omega (arith, pos)), λ gt. behind (omega arith)),
      )

  -- The slot at `fill` takes a frame.
  pub Filled-fill :
      (fill : ℕ) (files : List (Slot T F O)) (slot slot' : Slot T F O)
      → get_elem? files fill ≡ some slot
      → slot'.assigned ≡ slot.assigned + 1
      → slot'.capacity ≡ slot.capacity
      → ((i : ℕ) (x : Slot T F O) → get_elem? files i ≡ some x → 0 < x.capacity)
      → Filled fill files
      → Filled (if slot'.assigned == slot'.capacity then fill + 1 else fill) (set files fill slot')
  Filled-fill fill files slot slot' h a c positive filled j x hx =
      let next : ℕ = if slot'.assigned == slot'.capacity then fill + 1 else fill in
      let room = (filled fill slot h).1 refl in
      elim (Bool-cases (fill == j)) [
        | inl eq ↦
            let here : fill ≡ j = ground arith in
            let mine : slot' ≡ x = some-injective slot' x (
              sym (get_elem?-set_self files fill slot' (get_elem?-lt files fill slot h))
              ∙ ap (get_elem? (set files fill slot')) here
              ∙ hx) in
            subst
              (λ y.
                (j < next → y.assigned ≡ y.capacity)
                × (j ≡ next → y.assigned < y.capacity)
                × (next < j → y.assigned ≡ 0))
              mine (λ lt. ground arith, λ at. ground arith, λ gt. ground arith)
        | inr ne ↦
            let differ : fill ≢ j = λ eq. (ground arith) in
            let hx' : get_elem? files j ≡ some x =
              sym (get_elem?-set_ne files fill j slot' differ) ∙ hx in
            let (before, at, behind) = filled j x hx' in
            let pos = positive j x hx' in
            (
              λ lt. before (ground arith),
              λ eq. omega (arith, pos, behind (ground arith)),
              λ gt. behind (ground arith),
            )
      ]

-- ===== src/Read/Order/Polls.antt =====
-- src/read.rs: one poll of a file keeps the order, over a backend that keeps its contract.
use carbon_io.Prelude.{
  ℕ, ◌+◌, ◌-◌, ◌<◌, ◌≡◌, ◌≢◌, sym, ap, ◌∙◌, inl, inr, refl, subst, true, false, Bool-cases, List,
  [], ◌∷◌, Option, none, some, arith, ◌==◌, length, get_elem?, get_elem?-lt, lt-get_elem?, is_some,
  set, saturating_add_u32, length-set, Result, ok, err, Poll, ready, pending, wrapping_add,
  wrapping_sub,
}
use carbon_io.Budget.{Waker}
use carbon_io.Traits.{ReadFile}
use carbon_io.Read.State.{FileState, opening, reading, Slot, Cell, ReadScheduler, Factory}
use carbon_io.Read.Files.{
  opened, received, new_buffer, cell_buffer, read_cell, poll_opening, poll_slot, poll_file,
}
use carbon_io.Read.Steps.{poll_file-blocked, poll_file-free, poll_reading-full, poll_reading-cell}
use carbon_io.Read.Contract.{Call, to_open, to_read, Contract}
use carbon_io.Read.Feed.{held-set_self, held-get_elem?}
use carbon_io.Read.Layout.{
  held, Handed, Own, FileAt, start_of, Covered, Covered-self, Covered-next, Placed-at, received-le,
}
use carbon_io.Read.Order.{Ordered, InOrder, Kept, Ordered-put_slot, Ordered-put_both}
use carbon_io.Read.Order.Positions.{
  offset_lem, saturating_add_u32-lt, Front-le, FileAt-inside, FileAt-frame, FileAt-next,
  FileAt-same,
}

clash : opening ≡ reading → ⊥
clash eq = cc

module _ {T F E A : Type 0} (rest : F → List T) (fits : F → Call T → Type 0) (stream : List T)
    (e : ℕ) where
  -- A change of a slot that leaves the file where it stands.
  put_same :
      (r : ReadScheduler T F E A) (i : ℕ) (slot slot' : Slot F)
      → (inv : InOrder rest fits stream e r) → get_elem? r.files i ≡ some slot
      → rest slot'.file ≡ rest slot.file
      → slot'.start ≡ slot.start
      → slot'.count ≡ slot.count
      → slot'.received ≡ slot.received
      → Own fits e (start_of inv.first r.files i) slot' r.frames
      → Ordered rest fits stream e r.emitted r.discovered r.closed r.terminated
          (is_some r.error)
          (set r.files i slot')
          r.frames
  put_same r i slot slot' inv h same st c re own =
      Ordered-put_slot rest fits stream e r.emitted r.discovered r.closed r.terminated
        (is_some r.error) r.files r.frames i slot slot' inv h c (omega (arith, re))
        (FileAt-same rest stream (start_of inv.first r.files i) slot slot'
          (Placed-at rest stream inv.first r.files i slot inv.placed h) same st c re)
        own

  opened-Kept :
      (r : ReadScheduler T F E A) (i : ℕ) (slot : Slot F) (f : F) (remaining : ℕ)
      (answer : Poll (Result (Unit {0}) E))
      → InOrder rest fits stream e r
      → get_elem? r.files i ≡ some slot
      → slot.state ≡ opening
      → rest f ≡ rest slot.file
      → (answer ≢ ready (ok tt) → fits f to_open)
      → (answer ≡ ready (ok tt) → (buffer : T) → fits f (to_read buffer))
      → Kept rest fits stream e
          (length r.files)
          (opened r i (record slot { file = f }) remaining answer)
  unfolding opened
  opened-Kept r i slot f remaining pending inv h closed same reopens begins = (
    put_same r i slot (record slot { file = f; blocked = true }) inv h same refl refl refl
        ((λ st. reopens (λ eq. cc)), λ st. absurd (clash (sym closed ∙ st))),
    length-set r.files i (record slot { file = f; blocked = true }),
  )
  opened-Kept r i slot f remaining (ready (ok _)) inv h closed same reopens begins = (
    put_same r i slot (record slot { file = f; state = reading }) inv h same refl refl refl
        ((λ st. absurd (clash (sym st))), λ st lt o pos buffer given. begins refl buffer),
    length-set r.files i (record slot { file = f; state = reading }),
  )
  opened-Kept r i slot f remaining (ready (err error)) inv h closed same reopens begins =
      elim (Bool-cases (slot.retries == r.config.max_retries)) [
        | inl last ↦ rw last (λ eq. cc)
        | inr more ↦ rw more (
          put_same r i slot _ inv h same refl refl refl
              ((λ st. reopens (λ eq. cc)), λ st. absurd (clash (sym closed ∙ st))),
          length-set r.files i _,
        )
      ]

  -- The answers of `poll_read` on the file at `i`, whose next frame belongs into cell `offset`.
  module _ (r : ReadScheduler T F E A) (i : ℕ) (slot : Slot F) (f : F) (offset : ℕ) (frame : T)
      (remaining : ℕ) (inv : InOrder rest fits stream e r) (h : get_elem? r.files i ≡ some slot)
      (st : slot.state ≡ reading) (lt : slot.received < slot.count)
      (here : e + offset ≡ start_of inv.first r.files i + slot.received)
      (inside : offset < length r.frames) where
    abbrev start : ℕ
    start = start_of inv.first r.files i

    at : FileAt rest stream start slot
    at = Placed-at rest stream inv.first r.files i slot inv.placed h

    received_pending :
        rest f ≡ rest slot.file
        → fits f (to_read frame)
        → Kept rest fits stream e
            (length r.files)
            (received r i (record slot { file = f }) offset frame remaining pending)
    unfolding received
    received_pending same fit =
        let slot' : Slot F = record slot { file = f; blocked = true } in
        let waiting : Cell T = record { frame = some frame; complete = false } in
        (
          Ordered-put_both rest fits stream e r.emitted r.discovered r.closed r.terminated
              (is_some r.error) r.files r.frames i slot slot' offset waiting inv h refl
              (omega arith) (FileAt-same rest stream start slot slot' at same refl refl refl)
              (λ t. cc) (omega (arith, here)) (omega (arith, here, lt))
              (
                (λ shut. absurd (clash (sym shut ∙ st))),
                λ st' lt' o pos buffer given.
                    let same_cell : offset ≡ o = omega (arith, here, pos) in
                    let holds : held (set r.frames offset waiting) o ≡ some frame =
                      ap (held (set r.frames offset waiting)) (sym same_cell)
                      ∙ held-set_self r.frames offset waiting inside in
                    let mine : frame ≡ buffer = subst (λ b. Handed b buffer) holds given in
                    subst (λ b. fits f (to_read b)) mine fit,
              ),
          length-set r.files i slot',
        )

    received_frame :
        rest slot.file ≡ frame ∷ rest f
        → ((next : T) → fits f (to_read next))
        → Kept rest fits stream e
            (length r.files)
            (received r i (record slot { file = f }) offset frame remaining (ready (ok (some tt))))
    unfolding received
    received_frame eq fresh =
        let count = saturating_add_u32 slot.received 1 in
        let slot' : Slot F = record slot {
          file = f;
          received = count;
          blocked = count == slot.count;
        } in
        let cell : Cell T = record { frame = some frame; complete = true } in
        let one = saturating_add_u32-lt slot.received slot.count lt at.small in
        (
          Ordered-put_both rest fits stream e r.emitted r.discovered r.closed r.terminated
              (is_some r.error) r.files r.frames i slot slot' offset cell inv h refl
              (omega (arith, one))
              (FileAt-next rest stream start slot f frame (count == slot.count) at lt eq)
              (λ t. (
                rw here (FileAt-frame rest stream start slot frame (rest f) at eq),
                Covered-self inv.first r.files i slot slot' (e + offset) h (omega (arith, here))
                    (omega (arith, here, one)),
              ))
              (omega (arith, here)) (omega (arith, here, lt))
              (
                (λ shut. absurd (clash (sym shut ∙ st))),
                λ st' lt' o pos buffer given. fresh buffer,
              ),
          length-set r.files i slot',
        )

    received-Kept :
        (answer : Poll (Result (Option (Unit {0})) E))
        → (answer ≡ pending → (rest f ≡ rest slot.file) × fits f (to_read frame))
        → (answer ≡ ready (ok (some tt))
            → (rest slot.file ≡ frame ∷ rest f) × ((next : T) → fits f (to_read next)))
        → Kept rest fits stream e
            (length r.files)
            (received r i (record slot { file = f }) offset frame remaining answer)
    unfolding received
    received-Kept pending waits reads = received_pending (waits refl).0 (waits refl).1
    received-Kept (ready (ok (some _))) waits reads = received_frame (reads refl).0 (reads refl).1
    received-Kept (ready (ok none)) waits reads = λ eq. cc
    received-Kept (ready (err error)) waits reads = λ eq. cc

  -- Where the next frame of the file at `i` belongs.
  offset-here :
      (r : ReadScheduler T F E A) (i : ℕ) (slot : Slot F) (inv : InOrder rest fits stream e r)
      → get_elem? r.files i ≡ some slot
      → slot.received < slot.count
      → e + wrapping_sub (wrapping_add slot.start slot.received) r.emitted
        ≡ start_of inv.first r.files i + slot.received
  offset-here r i slot inv h lt =
      let start = start_of inv.first r.files i in
      let at = Placed-at rest stream inv.first r.files i slot inv.placed h in
      let inside = FileAt-inside rest stream start slot at lt in
      rw (at.start, inv.at)
        (offset_lem start slot.received e (Front-le e inv.first r.files i slot inv.front h)
          (omega (arith, inside, inv.live)))

module _ {T F E A : Type 0} ⦃factory : Factory T A⦄ where
  -- A new buffer leaves all but the factory and the recycled buffers alone.
  unfoldable Drawn : ReadScheduler T F E A → Option T → T × ReadScheduler T F E A → Type 0
  Drawn r frame drawn =
      (buffer : T) × Handed frame buffer
      × (make_frame : A) × (recycled : List T) × (drawn
          ≡ (buffer, record r { make_frame = make_frame; recycled = recycled }))

  new_buffer-Drawn :
      (r : ReadScheduler T F E A) (buffers : List T) → Drawn r none (new_buffer r buffers)
  unfolding Drawn new_buffer
  new_buffer-Drawn r [] =
      let (frame, next) = factory.call r.make_frame in (frame, tt, next, r.recycled, refl)
  new_buffer-Drawn r (frame ∷ more) = (frame, tt, r.make_frame, more, refl)

  cell_buffer-Drawn :
      (r : ReadScheduler T F E A) (frame : Option T) → Drawn r frame (cell_buffer r frame)
  unfolding Drawn cell_buffer
  cell_buffer-Drawn r none = new_buffer-Drawn r r.recycled
  cell_buffer-Drawn r (some frame) = (frame, refl, r.make_frame, r.recycled, refl)

module _ {T F E A : Type 0} ⦃file : ReadFile T F E⦄ ⦃factory : Factory T A⦄ (rest : F → List T)
    (fits : F → Call T → Type 0) (keeps : Contract file rest fits) (stream : List T) (e : ℕ) where
  read_cell-Kept :
      (r : ReadScheduler T F E A) (i : ℕ) (slot : Slot F) (offset : ℕ) (cx : Waker) (remaining : ℕ)
      (cell : Option (Cell T)) (inv : InOrder rest fits stream e r)
      → get_elem? r.files i ≡ some slot
      → slot.state ≡ reading
      → slot.received < slot.count
      → e + offset ≡ start_of inv.first r.files i + slot.received
      → get_elem? r.frames offset ≡ cell
      → Kept rest fits stream e (length r.files) (read_cell r i slot offset cx remaining cell)
  unfolding read_cell Drawn
  read_cell-Kept r i slot offset cx remaining none inv h st lt here eq = (inv, refl)
  read_cell-Kept r i slot offset cx remaining (some cell) inv h st lt here eq =
      elim (Bool-cases cell.complete) [
        | inl full ↦ absurd (
            Covered-next rest stream inv.first r.files i slot inv.placed h lt
              (subst (Covered inv.first r.files) here (inv.cells offset cell eq full).1))
        | inr free ↦
            let (buffer, given, make_frame, recycled, got) = cell_buffer-Drawn r cell.frame in
            let a = file.poll_read slot.file cx buffer in
            let stored = sym (held-get_elem? r.frames offset cell eq) in
            let fit : fits slot.file (to_read buffer) =
              (inv.fed i slot h).1 st lt offset here buffer
                (subst (λ b. Handed b buffer) stored given) in
            rw (free, got)
              (received-Kept rest fits stream e
                (record r { make_frame = make_frame; recycled = recycled }) i slot a.0 offset a.1
                (remaining - 1) inv h st lt here (get_elem?-lt r.frames offset cell eq) a.2
                (keeps.waits slot.file cx buffer fit) (keeps.reads slot.file cx buffer fit))
      ]

  poll_slot-Kept :
      (r : ReadScheduler T F E A) (i : ℕ) (slot : Slot F) (state : FileState) (cx : Waker)
      (remaining : ℕ)
      → InOrder rest fits stream e r
      → get_elem? r.files i ≡ some slot
      → slot.state ≡ state
      → Kept rest fits stream e (length r.files) (poll_slot r i slot state cx remaining)
  unfolding poll_slot poll_opening
  poll_slot-Kept r i slot opening cx remaining inv h st =
      let a = file.poll_open slot.file cx in
      let unopened : fits slot.file to_open = (inv.fed i slot h).0 st in
      opened-Kept rest fits stream e r i slot a.0 (remaining - 1) a.1 inv h st
        (keeps.opens slot.file cx unopened) (keeps.reopens slot.file cx unopened)
        (keeps.begins slot.file cx unopened)
  poll_slot-Kept r i slot reading cx remaining inv h st =
      elim (Bool-cases (slot.received == slot.count)) [
        | inl all ↦ rw (poll_reading-full r i cx remaining slot all) (
          put_same rest fits stream e r i slot (record slot { blocked = true }) inv h refl refl refl
              refl (inv.fed i slot h),
          length-set r.files i (record slot { blocked = true }),
        )
        | inr more ↦
            let at = Placed-at rest stream inv.first r.files i slot inv.placed h in
            let le = received-le rest stream (start_of inv.first r.files i) slot at in
            let lt : slot.received < slot.count = ground arith in
            let offset = wrapping_sub (wrapping_add slot.start slot.received) r.emitted in
            rw (poll_reading-cell r i cx remaining slot more) (
              read_cell-Kept r i slot offset cx remaining (get_elem? r.frames offset) inv h st lt
                (offset-here rest fits stream e r i slot inv h lt) refl)
      ]

  -- A poll of a file of the queue keeps the order.
  pub poll_file-Kept :
      (r : ReadScheduler T F E A) (i : ℕ) (cx : Waker) (remaining : ℕ)
      → InOrder rest fits stream e r
      → i < length r.files
      → Kept rest fits stream e (length r.files) (poll_file r i cx remaining)
  poll_file-Kept r i cx remaining inv lt =
      let (slot, h) = lt-get_elem? r.files i lt in
      elim (Bool-cases slot.blocked) [
        | inl b ↦ rw (poll_file-blocked r i cx remaining slot h b) (inv, refl)
        | inr b ↦
            rw (poll_file-free r i cx remaining slot h b)
              (poll_slot-Kept r i slot slot.state cx remaining inv h refl)
      ]

-- ===== src/Write/Replay.antt =====
-- `Slot::poll` of src/write.rs writes the frames of its file once each and in order, whatever the
-- backend answers and however often the attempt is restarted.
use mathlib.Core.List.{append_assoc, append-nil, append_cancel_left}
use mathlib.Core.Option.{some-injective}
use carbon_io.Prelude.{
  ℕ, ◌≤◌, ◌<◌, ◌≡◌, refl, sym, ◌∙◌, ◌⊎◌, inl, inr, Bool, false, ◌||◌, List, [], ◌∷◌, ◌++◌, Option,
  none, some, arith, length-append, ◌==◌, length, get_elem?, Bool-cases, Result, ok, err, Poll,
  ready, pending,
}
use carbon_io.Budget.{Waker}
use carbon_io.Traits.{WriteFile}
use carbon_io.Write.Contract.{Contract}
use carbon_io.Write.Frames.{Frames, streaming, replay, next, accepted}
use carbon_io.Write.Slots.{
  FileState, idle, opening, writing, closing, closed, Slot, SlotPolled, retry, after_open,
  after_write, after_close, poll_writing, poll_state, poll_slot,
}

module _ {T F O : Type 0} (contents : F → List T) (result : O → List T) where
  -- The frames that the slot keeps, when `all` were assigned and `done` of them were accepted: a
  -- replay slot keeps all of them, and a streaming slot, which has no retry, the rest.
  abbrev pub Keeps : List T → List T → ℕ → Frames T → Type 0
  Keeps all done max_retries (streaming rest) = (done ++ rest ≡ all) × (max_retries ≡ 0)
  Keeps all done max_retries (replay frames) = (frames ≡ all) × (0 < max_retries)

  -- What the state of a slot says of the frames `all` assigned to it so far.
  abbrev pub Holds : List T → ℕ → Slot T F O → FileState O → Type 0
  Holds all max_retries slot idle =
      (all ≡ []) × (slot.written ≡ 0) × Keeps all [] max_retries slot.frames
  Holds all max_retries slot opening = (slot.written ≡ 0) × Keeps all [] max_retries slot.frames
  Holds all max_retries slot writing =
      (rest : List T) × (contents slot.file ++ rest ≡ all)
      × (slot.written ≡ length (contents slot.file))
      × Keeps all (contents slot.file) max_retries slot.frames
  Holds all max_retries slot closing =
      (contents slot.file ≡ all) × Keeps all (contents slot.file) max_retries slot.frames
  Holds all max_retries slot (closed o) = result o ≡ all

module _ {T F E O : Type 0} {file : WriteFile T F E O} {contents : F → List T} {result : O → List T}
    (law : Contract file contents result) where
  get_elem?-split : (xs ys : List T) → get_elem? (xs ++ ys) (length xs) ≡ get_elem? ys 0
  get_elem?-split [] ys = refl
  get_elem?-split (x ∷ xs) ys = get_elem?-split xs ys

  -- A retry is a replay of everything: a streaming slot has none left.
  retry-Holds :
      (all : List T) (done : List T) (slot : Slot T F O) (error : E) (max_retries : ℕ)
      → slot.retries ≤ max_retries
      → Keeps contents result all done max_retries slot.frames
      → let p = retry slot error max_retries in
        (p.result ≡ err error) ⊎ Holds contents result all max_retries p.slot p.slot.state
  unfolding retry
  retry-Holds all done slot error max_retries le k =
      elim (Bool-cases (slot.retries == max_retries)) [
        | inl h ↦ inl (rw h)
        | inr h ↦ inr (rw h (refl, kept slot.frames k h))
      ]
    where
      kept :
          (frames : Frames T)
          → Keeps contents result all done max_retries frames
          → (slot.retries == max_retries) ≡ false
          → Keeps contents result all [] max_retries frames
      kept (streaming rest) (e, none_left) h = absurd (ground arith)
      kept (replay frames) k h = k

  next-streaming : (left : List T) (written : ℕ) → next (streaming left) written ≡ get_elem? left 0
  unfolding next
  next-streaming [] written = refl
  next-streaming (x ∷ left) written = refl

  -- The frame that `next` offers is the first one that was not accepted yet, if any is left.
  next-Keeps :
      (done rest all : List T) (max_retries written : ℕ) (frames : Frames T)
      → done ++ rest ≡ all
      → written ≡ length done
      → Keeps contents result all done max_retries frames
      → next frames written ≡ get_elem? rest 0
  unfolding next
  next-Keeps done rest all max_retries written (streaming left) split w (e, z) =
      rw (← append_cancel_left done left rest (e ∙ sym split)) (next-streaming left written)
  next-Keeps done rest all max_retries written (replay frames) split w (e, pos) =
      rw (e, w, ← split) (get_elem?-split done rest)

  -- After one poll the slot still holds all frames, unless the poll ended in an error.
  abbrev Keeping : List T → ℕ → SlotPolled T F E O → Type 0
  Keeping all max_retries p =
      ((e : E) × (p.result ≡ err e)) ⊎ Holds contents result all max_retries p.slot p.slot.state

  retry-Keeping :
      (all done : List T) (slot : Slot T F O) (error : E) (max_retries : ℕ)
      → slot.retries ≤ max_retries
      → Keeps contents result all done max_retries slot.frames
      → Keeping all max_retries (retry slot error max_retries)
  retry-Keeping all done slot error max_retries le k =
      elim (retry-Holds all done slot error max_retries le k) [
        | inl e ↦ inl (error, e)
        | inr h ↦ inr h
      ]

  after_open-Keeping :
      (all : List T) (slot : Slot T F O) (max_retries : ℕ) (answer : Poll (Result (Unit {0}) E))
      → slot.state ≡ opening
      → slot.retries ≤ max_retries
      → slot.written ≡ 0
      → Keeps contents result all [] max_retries slot.frames
      → (answer ≡ ready (ok tt) → contents slot.file ≡ [])
      → Keeping all max_retries (after_open slot max_retries answer)
  unfolding after_open
  after_open-Keeping all slot max_retries pending st le w k fresh = inr (rw st (w, k))
  after_open-Keeping all slot max_retries (ready (ok _)) st le w k fresh =
      inr (all, rw (fresh refl), rw (fresh refl) w, rw (fresh refl) k)
  after_open-Keeping all slot max_retries (ready (err e)) st le w k fresh =
      retry-Keeping all [] slot e max_retries le k

  accepted-Keeps :
      (all done : List T) (frame : T) (rest : List T) (max_retries : ℕ) (frames : Frames T)
      → done ++ frame ∷ rest ≡ all
      → Keeps contents result all done max_retries frames
      → Keeps contents result all (done ++ frame ∷ []) max_retries (accepted frames).0
  unfolding accepted
  accepted-Keeps all done frame rest max_retries (streaming []) split (e, z) =
      absurd (ground (arith, append_cancel_left done [] (frame ∷ rest) (e ∙ sym split)))
  accepted-Keeps all done frame rest max_retries (streaming (x ∷ xs)) split (e, z) =
      let same = append_cancel_left done (x ∷ xs) (frame ∷ rest) (e ∙ sym split) in
      let tails : xs ≡ rest = cc in (append_assoc done (frame ∷ []) xs ∙ rw tails split, z)
  accepted-Keeps all done frame rest max_retries (replay frames) split k = k

  after_write-Keeping :
      (all done : List T) (frame : T) (rest : List T) (slot : Slot T F O) (max_retries : ℕ)
      (answer : Poll (Result (Unit {0}) E))
      → slot.state ≡ writing
      → slot.retries ≤ max_retries
      → done ++ frame ∷ rest ≡ all
      → slot.written ≡ length done
      → Keeps contents result all done max_retries slot.frames
      → (answer ≡ ready (ok tt) → contents slot.file ≡ done ++ frame ∷ [])
      → (answer ≡ pending → contents slot.file ≡ done)
      → Keeping all max_retries (after_write slot max_retries answer)
  unfolding after_write
  after_write-Keeping all done frame rest slot max_retries pending st le split w k wrote waited =
      inr (rw (st, waited refl) (frame ∷ rest, split, w, k))
  after_write-Keeping all done frame rest slot max_retries (ready (ok _)) st le split w k wrote
        waited =
      inr (
        rw (st, wrote refl)
          (
            rest,
            append_assoc done (frame ∷ []) rest ∙ split,
            omega (arith, length-append done (frame ∷ [])),
            accepted-Keeps all done frame rest max_retries slot.frames split k,
          ))
  after_write-Keeping all done frame rest slot max_retries (ready (err e)) st le split w k wrote
        waited =
      retry-Keeping all done slot e max_retries le k

  after_close-Keeping :
      (all : List T) (slot : Slot T F O) (max_retries : ℕ) (answer : Poll (Result O E))
      (done : List T)
      → slot.state ≡ closing
      → slot.retries ≤ max_retries
      → done ≡ all
      → Keeps contents result all done max_retries slot.frames
      → (answer ≡ pending → contents slot.file ≡ done)
      → ((o : O) → answer ≡ ready (ok o) → result o ≡ done)
      → Keeping all max_retries (after_close slot max_retries answer)
  unfolding after_close
  after_close-Keeping all slot max_retries pending done st le e k waited closed_as =
      inr (rw (st, waited refl) (e, k))
  after_close-Keeping all slot max_retries (ready (ok o)) done st le e k waited closed_as =
      inr (closed_as o refl ∙ e)
  after_close-Keeping all slot max_retries (ready (err x)) done st le e k waited closed_as =
      retry-Keeping all done slot x max_retries le k

  open law use {opens, writes, waits_to_write, waits_to_close, closes}

  poll_writing-Keeping :
      (all rest : List T) (slot : Slot T F O) (cx : Waker) (stop : Bool) (max_retries : ℕ)
      (offered : Option T)
      → slot.state ≡ writing
      → slot.retries ≤ max_retries
      → contents slot.file ++ rest ≡ all
      → slot.written ≡ length (contents slot.file)
      → Keeps contents result all (contents slot.file) max_retries slot.frames
      → offered ≡ get_elem? rest 0
      → Keeping all max_retries (poll_writing file slot cx stop max_retries offered)
  unfolding poll_writing
  poll_writing-Keeping all [] slot cx stop max_retries (some frame) st le split w k e = cc
  poll_writing-Keeping all (x ∷ rest) slot cx stop max_retries (some frame) st le split w k e =
      after_write-Keeping all (contents slot.file) frame rest _ max_retries _ st le
        (rw (some-injective frame x e) split) w k (writes slot.file cx frame)
        (waits_to_write slot.file cx frame)
  poll_writing-Keeping all [] slot cx stop max_retries none st le split w k e =
      elim (Bool-cases (slot.assigned == slot.capacity || stop)) [
        | inl h ↦ inr (rw h (sym (append-nil (contents slot.file)) ∙ split, k))
        | inr h ↦ inr (rw (h, st) ([], split, w, k))
      ]
  poll_writing-Keeping all (x ∷ rest) slot cx stop max_retries none st le split w k e = cc

  poll_state-Keeping :
      (all : List T) (slot : Slot T F O) (state : FileState O) (cx : Waker) (stop : Bool)
      (max_retries : ℕ)
      → slot.state ≡ state
      → slot.retries ≤ max_retries
      → Holds contents result all max_retries slot state
      → Keeping all max_retries (poll_state file slot state cx stop max_retries)
  unfolding poll_state
  poll_state-Keeping all slot opening cx stop max_retries st le (w, k) =
      after_open-Keeping all _ max_retries _ st le w k (opens slot.file cx)
  poll_state-Keeping all slot writing cx stop max_retries st le (rest, split, w, k) =
      poll_writing-Keeping all rest slot cx stop max_retries _ st le split w k
        (next-Keeps (contents slot.file) rest all max_retries slot.written slot.frames split w k)
  poll_state-Keeping all slot closing cx stop max_retries st le (e, k) =
      after_close-Keeping all _ max_retries _ (contents slot.file) st le e k
        (waits_to_close slot.file cx) (closes slot.file cx)
  poll_state-Keeping all slot idle cx stop max_retries st le h = inr (rw st h)
  poll_state-Keeping all slot (closed o) cx stop max_retries st le h = inr (rw st h)

  -- One poll of a slot that holds the frames `all` leaves a slot that holds them, or returns the
  -- error of the backend. A slot that is closed holds them if its close result stands for exactly
  -- these frames, in order and each once.
  pub poll_slot-Keeping :
      (all : List T) (slot : Slot T F O) (cx : Waker) (stop : Bool) (max_retries : ℕ)
      → slot.retries ≤ max_retries
      → Holds contents result all max_retries slot slot.state
      → let p = poll_slot file slot cx stop max_retries in
        ((e : E) × (p.result ≡ err e)) ⊎ Holds contents result all max_retries p.slot p.slot.state
  unfolding poll_slot
  poll_slot-Keeping all slot cx stop max_retries le h =
      poll_state-Keeping all slot slot.state cx stop max_retries refl le h

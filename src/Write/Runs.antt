-- ===== src/Write/Runs.antt =====
-- The life of one destination of src/write.rs, from `Slot::new` through assigned frames and polls.
use mathlib.Core.List.{append_assoc}
use carbon_io.Prelude.{
  ℕ, ◌+◌, ◌≤◌, ◌<◌, ◌≡◌, refl, sym, ap, subst, ◌∙◌, ◌⊎◌, inl, inr, Bool, true, false, ◌||◌, List,
  [], ◌∷◌, ◌++◌, Option, none, some, arith, length-append, ltb, ◌==◌, length, Bool-cases, Result,
  ok, err, Poll, ready, pending,
}
use carbon_io.Budget.{Waker}
use carbon_io.Traits.{WriteFile}
use carbon_io.Write.Contract.{Contract}
use carbon_io.Write.Frames.{Frames, streaming, replay, new_frames, push}
use carbon_io.Write.Slots.{
  FileState, idle, opening, writing, closing, closed, Slot, SlotPolled, unchanged, retry,
  after_open, after_write, after_close, poll_writing, poll_state, poll_slot, new_slot,
}
use carbon_io.Write.State.{add_frame}
use carbon_io.Write.Replay.{Holds, Keeps, poll_slot-Keeping}

-- A slot that writes no further frame.
abbrev pub is_finishing : {O : Type 0} → FileState O → Bool
is_finishing closing = true
is_finishing (closed o) = true
is_finishing _ = false

-- What one poll keeps of a slot with these counters, `finishing` or not before it.
record Counted {T F E O : Type 0} (assigned capacity : ℕ) (finishing stop : Bool) (max_retries : ℕ)
    (p : SlotPolled T F E O) : Type 0 where
  pub same_assigned : p.slot.assigned ≡ assigned
  pub same_capacity : p.slot.capacity ≡ capacity
  pub retries : ((e : E) × (p.result ≡ err e)) ⊎ (p.slot.retries ≤ max_retries)
  pub finished :
      is_finishing p.slot.state ≡ true → stop ≡ false → (finishing ≡ true) ⊎ (assigned ≡ capacity)

module _ {T F E O : Type 0} (stop : Bool) (max_retries : ℕ) where
  abbrev Counts : Slot T F O → SlotPolled T F E O → Type 0
  Counts slot p = Counted slot.assigned slot.capacity (is_finishing slot.state) stop max_retries p

  unchanged-Counts : (slot : Slot T F O) → slot.retries ≤ max_retries → Counts slot (unchanged slot)
  unchanged-Counts slot le = record {
    same_assigned = refl;
    same_capacity = refl;
    retries = inr le;
    finished = λ f e. inl f;
  }

  retry-Counts :
      (slot : Slot T F O) (error : E)
      → slot.retries ≤ max_retries
      → Counts slot (retry slot error max_retries)
  unfolding retry
  retry-Counts slot error le = elim (Bool-cases (slot.retries == max_retries)) [
    | inl h ↦ rw h (record {
      same_assigned = refl;
      same_capacity = refl;
      retries = inl (error, refl);
      finished = λ f e. inl f;
    })
    | inr h ↦ rw h (record {
      same_assigned = refl;
      same_capacity = refl;
      retries = inr (ground arith);
      finished = λ f e. cc;
    })
  ]

  after_open-Counts :
      (slot : Slot T F O) (answer : Poll (Result (Unit {0}) E))
      → slot.retries ≤ max_retries
      → Counts slot (after_open slot max_retries answer)
  unfolding after_open
  after_open-Counts slot pending le = unchanged-Counts slot le
  after_open-Counts slot (ready (ok _)) le = record {
    same_assigned = refl;
    same_capacity = refl;
    retries = inr le;
    finished = λ f e. cc;
  }
  after_open-Counts slot (ready (err error)) le = retry-Counts slot error le

  after_write-Counts :
      (slot : Slot T F O) (answer : Poll (Result (Unit {0}) E))
      → slot.retries ≤ max_retries
      → Counts slot (after_write slot max_retries answer)
  unfolding after_write
  after_write-Counts slot pending le = unchanged-Counts slot le
  after_write-Counts slot (ready (ok _)) le = record {
    same_assigned = refl;
    same_capacity = refl;
    retries = inr le;
    finished = λ f e. inl f;
  }
  after_write-Counts slot (ready (err error)) le = retry-Counts slot error le

  after_close-Counts :
      (slot : Slot T F O) (answer : Poll (Result O E))
      → slot.state ≡ closing
      → slot.retries ≤ max_retries
      → Counts slot (after_close slot max_retries answer)
  unfolding after_close
  after_close-Counts slot pending st le = unchanged-Counts slot le
  after_close-Counts slot (ready (ok _)) st le = record {
    same_assigned = refl;
    same_capacity = refl;
    retries = inr le;
    finished = λ f e. inl (rw st);
  }
  after_close-Counts slot (ready (err error)) st le = retry-Counts slot error le

  module _ (file : WriteFile T F E O) where
    poll_writing-Counts :
        (slot : Slot T F O) (cx : Waker) (offered : Option T)
        → slot.retries ≤ max_retries
        → Counts slot (poll_writing file slot cx stop max_retries offered)
    unfolding poll_writing
    poll_writing-Counts slot cx (some frame) le =
        let p = file.poll_write slot.file cx frame in
        after_write-Counts (record slot { file = p.0 }) p.1 le
    poll_writing-Counts slot cx none le =
        elim (Bool-cases (slot.assigned == slot.capacity || stop)) [
          | inl h ↦ rw h (record {
            same_assigned = refl;
            same_capacity = refl;
            retries = inr le;
            finished = λ f e. inr (ground arith);
          })
          | inr h ↦ rw h (unchanged-Counts slot le)
        ]

    poll_state-Counts :
        (slot : Slot T F O) (state : FileState O) (cx : Waker)
        → slot.state ≡ state
        → slot.retries ≤ max_retries
        → Counts slot (poll_state file slot state cx stop max_retries)
    unfolding poll_state
    poll_state-Counts slot opening cx st le =
        let p = file.poll_open slot.file cx in after_open-Counts (record slot { file = p.0 }) p.1 le
    poll_state-Counts slot writing cx st le = poll_writing-Counts slot cx _ le
    poll_state-Counts slot closing cx st le =
        let p = file.poll_close slot.file cx in
        after_close-Counts (record slot { file = p.0 }) p.1 st le
    poll_state-Counts slot idle cx st le = unchanged-Counts slot le
    poll_state-Counts slot (closed o) cx st le = unchanged-Counts slot le

    poll_slot-Counts :
        (slot : Slot T F O) (cx : Waker)
        → slot.retries ≤ max_retries
        → Counts slot (poll_slot file slot cx stop max_retries)
    unfolding poll_slot
    poll_slot-Counts slot cx le = poll_state-Counts slot slot.state cx refl le

-- The life of a slot for file `f`: the frames assigned so far, and whether input has ended. The
-- backend answers as it likes, and a poll that returns an error ends the life.
pub data Life {T F E O : Type 0} (file : WriteFile T F E O) (f : F) (max_retries : ℕ)
    : List T → Bool → Slot T F O → Type 0 where
  fresh : Life file f max_retries [] false (new_slot file f (ltb 0 max_retries))
  assigned :
      {all : List T} {slot : Slot T F O} (frame : T)
      → Life file f max_retries all false slot
      → slot.assigned < slot.capacity
      → Life file f max_retries (all ++ frame ∷ []) false (add_frame slot frame)
  stopped :
      {all : List T} {slot : Slot T F O}
      → Life file f max_retries all false slot
      → Life file f max_retries all true slot
  polled :
      {all : List T} {stop : Bool} {slot : Slot T F O} (cx : Waker) (answer : Bool × ℕ)
      → Life file f max_retries all stop slot
      → (poll_slot file slot cx stop max_retries).result ≡ ok answer
      → Life file f max_retries all stop (poll_slot file slot cx stop max_retries).slot

pub record Inv {T F O : Type 0} (contents : F → List T) (result : O → List T) (max_retries : ℕ)
    (all : List T) (stop : Bool) (slot : Slot T F O) : Type 0 where
  pub holds : Holds contents result all max_retries slot slot.state
  pub counted : slot.assigned ≡ length all
  pub within : slot.assigned ≤ slot.capacity
  pub retried : slot.retries ≤ max_retries
  pub finished : is_finishing slot.state ≡ true → stop ≡ false → slot.assigned ≡ slot.capacity
  pub unused : slot.assigned ≡ 0 → slot.state ≡ idle

module _ {T F E O : Type 0} {file : WriteFile T F E O} {contents : F → List T} {result : O → List T}
    (law : Contract file contents result) (f : F) (max_retries : ℕ) where
  new_frames-Keeps :
      (keep : Bool)
      → keep ≡ ltb 0 max_retries
      → Keeps contents result [] [] max_retries (new_frames keep)
  unfolding new_frames
  new_frames-Keeps true e = (refl, ground arith)
  new_frames-Keeps false e = (refl, ground arith)

  pub fresh-Inv :
      Inv contents result max_retries [] false (new_slot {T = T} file f (ltb 0 max_retries))
  unfolding new_slot
  fresh-Inv = record {
    holds = (refl, refl, new_frames-Keeps (ltb 0 max_retries) refl);
    counted = refl;
    within = omega arith;
    retried = omega arith;
    finished = λ e s. cc;
    unused = λ e. refl;
  }

  push-Keeps :
      (all done : List T) (frame : T) (frames : Frames T)
      → Keeps contents result all done max_retries frames
      → Keeps contents result (all ++ frame ∷ []) done max_retries (push frames frame)
  unfolding push
  push-Keeps all done frame (streaming rest) (e, z) =
      (sym (append_assoc done rest (frame ∷ [])) ∙ ap (λ (l : List T). l ++ frame ∷ []) e, z)
  push-Keeps all done frame (replay frames) (e, pos) = (ap (λ (l : List T). l ++ frame ∷ []) e, pos)

  -- A frame joins a slot that is not finishing: it is the last of those that the slot holds.
  add_frame-Holds :
      (all : List T) (slot : Slot T F O) (frame : T) (state : FileState O)
      → slot.state ≡ state
      → is_finishing state ≡ false
      → (slot.assigned ≡ length all)
      → (slot.assigned ≡ 0 → slot.state ≡ idle)
      → Holds contents result all max_retries slot state
      → let next = add_frame slot frame in
        Holds contents result (all ++ frame ∷ []) max_retries next next.state
  unfolding add_frame
  add_frame-Holds all slot frame idle st nf n unused (e, w, k) =
      let first : (slot.assigned + 1 == 1) ≡ true = ground (arith, ap length e) in
      rw first (w, push-Keeps all [] frame slot.frames k)
  add_frame-Holds all slot frame opening st nf n unused (w, k) =
      let later : (slot.assigned + 1 == 1) ≡ false = ground arith in
      rw (later, st) (w, push-Keeps all [] frame slot.frames k)
  add_frame-Holds all slot frame writing st nf n unused (rest, split, w, k) =
      let later : (slot.assigned + 1 == 1) ≡ false = ground arith in
      rw (later, st)
        (
          rest ++ frame ∷ [],
          sym (append_assoc (contents slot.file) rest (frame ∷ []))
              ∙ ap (λ (l : List T). l ++ frame ∷ []) split,
          w,
          push-Keeps all (contents slot.file) frame slot.frames k,
        )
  add_frame-Holds all slot frame closing st nf n unused h = cc
  add_frame-Holds all slot frame (closed o) st nf n unused h = cc

  pub assigned-Inv :
      (all : List T) (slot : Slot T F O) (frame : T)
      → slot.assigned < slot.capacity
      → Inv contents result max_retries all false slot
      → Inv contents result max_retries (all ++ frame ∷ []) false (add_frame slot frame)
  unfolding add_frame
  assigned-Inv all slot frame room inv = record {
    holds =
        add_frame-Holds all slot frame slot.state refl (going slot.state refl) inv.counted
          inv.unused inv.holds;
    counted = omega (arith, inv.counted, length-append all (frame ∷ []));
    within = omega arith;
    retried = inv.retried;
    finished = λ e s. absurd (ground (arith, still (going slot.state refl), e));
    unused = λ e. absurd (omega arith);
  }
    where
      going : (state : FileState O) → slot.state ≡ state → is_finishing state ≡ false
      going state e = ground (arith, inv.finished)

      still : is_finishing slot.state ≡ false → is_finishing (add_frame slot frame).state ≡ false
      still g = ground arith

  poll_slot-idle :
      (slot : Slot T F O) (cx : Waker) (stop : Bool)
      → slot.state ≡ idle
      → (poll_slot file slot cx stop max_retries).slot ≡ slot
  unfolding poll_slot
  poll_slot-idle slot cx stop e = ground arith

  pub polled-Inv :
      (all : List T) (stop : Bool) (slot : Slot T F O) (cx : Waker) (answer : Bool × ℕ)
      → (poll_slot file slot cx stop max_retries).result ≡ ok answer
      → Inv contents result max_retries all stop slot
      → Inv contents result max_retries all stop (poll_slot file slot cx stop max_retries).slot
  polled-Inv all stop slot cx answer good inv = record {
    holds = elim (poll_slot-Keeping law all slot cx stop max_retries inv.retried inv.holds) [
      | inl (e, bad) ↦ cc
      | inr h ↦ h
    ];
    counted = counts.same_assigned ∙ inv.counted;
    within = omega (arith, counts.same_assigned, counts.same_capacity, inv.within);
    retried = elim counts.retries [ inl (e, bad) ↦ cc | inr le ↦ le ];
    finished = λ f e. elim (counts.finished f e) [
      | inl g ↦ omega (arith, counts.same_assigned, counts.same_capacity, inv.finished g e)
      | inr eq ↦ omega (arith, counts.same_assigned, counts.same_capacity, eq)
    ];
    unused = λ e.
        rw (poll_slot-idle slot cx stop (inv.unused (omega (arith, counts.same_assigned, e))))
          (inv.unused (omega (arith, counts.same_assigned, e)));
  }
    where
      counts :
          Counted slot.assigned slot.capacity
            (is_finishing slot.state)
            stop
            max_retries
            (poll_slot file slot cx stop max_retries)
      counts = poll_slot-Counts stop max_retries file slot cx inv.retried

  pub stopped-Inv :
      (all : List T) (slot : Slot T F O)
      → Inv contents result max_retries all false slot
      → Inv contents result max_retries all true slot
  stopped-Inv all slot inv = record {
    holds = inv.holds;
    counted = inv.counted;
    within = inv.within;
    retried = inv.retried;
    finished = λ f e. cc;
    unused = inv.unused;
  }

  -- A slot that lives keeps its frames, its retries within the limit, and its file within its
  -- capacity; while input goes on it finishes only when the file is full.
  pub Life-Inv :
      {all : List T} {stop : Bool} {slot : Slot T F O}
      → Life file f max_retries all stop slot
      → Inv contents result max_retries all stop slot
  Life-Inv fresh = fresh-Inv
  Life-Inv (assigned {all = before} {slot = s} frame l room) =
      assigned-Inv before s frame room (Life-Inv l)
  Life-Inv {all} (stopped {slot = s} l) = stopped-Inv all s (Life-Inv l)
  Life-Inv {all} {stop} (polled {slot = s} cx answer l good) =
      polled-Inv all stop s cx answer good (Life-Inv l)

  -- When a destination has closed, its close result stands for exactly the frames that were assigned
  -- to it, in order and each once, whatever attempts were retried on the way; their number is within
  -- the capacity, and is the capacity unless input has ended.
  pub closed_complete :
      {all : List T} {stop : Bool} {slot : Slot T F O} {o : O}
      → Life file f max_retries all stop slot
      → slot.state ≡ closed o
      → (result o ≡ all)
        × (length all ≤ slot.capacity)
        × (stop ≡ false → length all ≡ slot.capacity)
        × (slot.retries ≤ max_retries)
  closed_complete {all} {slot} l e =
      let inv = Life-Inv l in
      (
        subst (Holds contents result all max_retries slot) e inv.holds,
        omega (arith, inv.counted, inv.within),
        λ s. omega (arith, inv.counted, inv.finished (rw e) s),
        inv.retried,
      )

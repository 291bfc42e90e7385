-- ===== src/Write/Session/Bounds.antt =====
-- src/write.rs: whatever the backends, the frames and the other users of the budget do, a scheduler
-- keeps no more frames than it has reserved, and reserves no more than it was granted.
use mathlib.Core.Option.{some-injective}
use carbon_io.Prelude.{
  subst, ℕ, suc, zero, ◌+◌, ◌≤◌, ◌<◌, ◌≡◌, inl, inr, refl, sym, ap, Bool, false, Bool-cases, List,
  [], ◌∷◌, Option, some, is_some, arith, gather, length, get_elem?, lt-get_elem?, sum_of,
  if◌then◌else◌,
}
use carbon_io.Config.{SchedulerConfig}
use carbon_io.Traits.{WriteFile}
use carbon_io.Write.Frames.{PartialFrame, FrameAllocator, len}
use carbon_io.Write.Contract.{FrameContract}
use carbon_io.Write.Slots.{Slot}
use carbon_io.Write.State.{WriteScheduler, retained_frames, reserved_frames, granted_frames}
use carbon_io.Write.Sized.{Sized, cost}
use carbon_io.Write.Queue.{Kept}
use carbon_io.Write.Queue.Each.{Each}
use carbon_io.Write.Account.{On, share, reserve}
use carbon_io.Write.Account.Drive.{Broken}
use carbon_io.Write.Session.{Run}
use carbon_io.Write.Session.Stream.{Told}
use carbon_io.Write.Session.Told.{Run-Told}

module _ {Q T I R IE : Type 0} (frame : PartialFrame Q I R T IE) where
  -- Nothing is asked of frames whose bytes do not count.
  pub any_frame : FrameContract {B = ⊥} frame (λ q. []) (λ t. []) (λ r i. [])
  any_frame = record {
    empty = λ p e. refl;
    fillable = λ p. Unit {0};
    starts = λ p e c. tt;
    fills = λ p cx i r f e. (refl, λ c. tt);
    waits = λ p cx i f e. (refl, tt);
    finishes = λ p e. refl;
  }

module _ {T F E O : Type 0} (file : WriteFile T F E O) (max_retries : ℕ) where
  -- Nor of backends.
  pub any_backend : Kept file max_retries (λ stop all slot. Unit {0})
  any_backend = record {
    fresh = λ f. tt;
    assigns = λ all slot frame room s p. tt;
    polls = λ stop all slot cx answer e p. tt;
    stops = λ all slot p. tt;
    reuses = λ all slot f e s p. tt;
  }

pub no_bytes : {T : Type 0} (all : List T) → gather {B = ⊥} (λ t. []) all ≡ []
no_bytes [] = refl
no_bytes (t ∷ all) = no_bytes all

module _ {Q T F E O A I R IE : Type 0} {file : WriteFile T F E O} {frame : PartialFrame Q I R T IE}
    {allocator : FrameAllocator Q A} {config : SchedulerConfig} where
  -- The account of any run at all.
  pub Run-any :
      {fills : List (R × I)} {outputs : List O} {w : WriteScheduler Q T F O A}
      → Run file frame allocator config fills outputs w
      → Told
          (any_frame frame)
          file
          config.max_retries
          (λ stop all slot. Unit {0})
          (λ o. [])
          fills
          outputs
          w
  Run-any r =
      Run-Told (any_frame frame) file config.max_retries (λ stop all slot. Unit {0}) (λ o. [])
        allocator config (any_backend file config.max_retries) (λ stop all slot o e p. no_bytes all)
        refl r

module _ {T F O : Type 0} (max_retries : ℕ) where
  len-cost :
      (stop : Bool) (n : ℕ) (slot : Slot T F O)
      → Sized max_retries stop n slot
      → len slot.frames ≤ cost max_retries slot
  unfolding cost
  len-cost stop n slot s = ground arith

  -- A slot that takes the next frame has room for it, or the partial frame has reserved it.
  len-share :
      (stop : Bool) (n : ℕ) (slot : Slot T F O)
      → Sized max_retries stop n slot
      → slot.assigned < slot.capacity
      → stop ≡ false
      → len slot.frames + 1 ≤ cost max_retries slot + share max_retries (some slot)
  unfolding cost
  len-share stop n slot s room going = ground arith

module _ {T F E O : Type 0} (file : WriteFile T F E O) (max_retries : ℕ)
    (P : Bool → List T → Slot T F O → Type 0) (stop : Bool) where
  sum-len :
      (ls : List (List T)) (files : List (Slot T F O))
      → Each file max_retries P stop ls files
      → sum_of (λ slot. len slot.frames) files ≤ sum_of (cost max_retries) files
  sum-len [] [] each = omega arith
  sum-len [] (x ∷ files) each = elim each [ ]
  sum-len (l ∷ ls) [] each = elim each [ ]
  sum-len (l ∷ ls) (x ∷ files) ((s, p), each) =
      omega (arith, len-cost max_retries stop (length l) x s, sum-len ls files each)

  sum-len-room :
      (ls : List (List T)) (files : List (Slot T F O)) (fill : ℕ) (slot : Slot T F O)
      → stop ≡ false
      → Each file max_retries P stop ls files
      → get_elem? files fill ≡ some slot
      → slot.assigned < slot.capacity
      → sum_of (λ slot. len slot.frames) files + 1
        ≤ sum_of (cost max_retries) files + share max_retries (some slot)
  sum-len-room ls [] fill slot going each h room = cc
  sum-len-room [] (x ∷ files) fill slot going each h room = elim each [ ]
  sum-len-room (l ∷ ls) (x ∷ files) zero slot going ((s, p), each) h room =
      let same : x ≡ slot = some-injective x slot h in
      let mine =
        len-share max_retries stop (length l) x s
          (subst (λ y. y.assigned < y.capacity) (sym same) room) going in
      subst
        (λ y.
          sum_of (λ slot. len slot.frames) (x ∷ files) + 1
          ≤ sum_of (cost max_retries) (x ∷ files) + share max_retries (some y))
        same (omega (arith, mine, sum-len ls files each))
  sum-len-room (l ∷ ls) (x ∷ files) (suc fill) slot going ((s, p), each) h room = omega (
    arith,
    len-cost max_retries stop (length l) x s,
    sum-len-room ls files fill slot going each h room,
  )

module _ {Q T F O A : Type 0} (max_retries : ℕ) (w : WriteScheduler Q T F O A) where
  -- What the slots and the partial frame have reserved.
  abbrev pub reservations : ℕ
  reservations =
      sum_of (cost max_retries) w.files
      + reserve max_retries w.files (is_some w.partial) w.fill_index

-- The partial frame counts as one.
abbrev begun : {Q : Type 0} → Option Q → ℕ
begun partial = if is_some partial then 1 else 0

module _ {Q T F E O A : Type 0} (file : WriteFile T F E O) (max_retries : ℕ)
    (P : Bool → List T → Slot T F O → Type 0) (w : WriteScheduler Q T F O A) where
  On-bounded :
      (stop : Bool) (ls : List (List T)) (now : Option Q)
      → On file max_retries P stop ls now w
      → (retained_frames w ≤ reserved_frames w) × (reserved_frames w ≤ granted_frames w)
  unfolding retained_frames reserved_frames granted_frames
  On-bounded stop ls now s = elim (Bool-cases (is_some w.partial)) [
    | inr e ↦
        let alone : begun w.partial ≡ 0 = rw e refl in
        (
          omega (arith, s.account, sum-len file max_retries P stop ls w.files s.each, alone),
          s.granted,
        )
    | inl e ↦
        let (going, lt) = s.started e in
        let (slot, h) = lt-get_elem? w.files w.fill_index lt in
        let one_more : begun w.partial ≡ 1 = rw e refl in
        let mine : reserve max_retries w.files (is_some w.partial) w.fill_index
            ≡ share max_retries (some slot) =
          rw (e, h) refl in
        (
          omega (
            arith,
            s.account,
            one_more,
            mine,
            sum-len-room file max_retries P stop ls w.files w.fill_index slot going s.each h
                ((s.filled going w.fill_index slot h).1 refl),
          ),
          s.granted,
        )
  ]

module _ {Q T F O A : Type 0} (max_retries : ℕ) (w : WriteScheduler Q T F O A) (b : Broken w) where
  Broken-reserved : reserve max_retries w.files (is_some w.partial) w.fill_index ≡ 0
  Broken-reserved = ap (λ p. reserve max_retries w.files (is_some p) w.fill_index) b.partial

  Broken-bounded : (retained_frames w ≤ reserved_frames w) × (reserved_frames w ≤ granted_frames w)
  unfolding retained_frames reserved_frames granted_frames
  Broken-bounded =
      let none_kept : sum_of (λ slot. len slot.frames) w.files ≡ 0 =
        ap (sum_of (λ slot. len slot.frames)) b.files in
      let none_begun : begun w.partial ≡ 0 = ap begun b.partial in
      (omega (arith, none_kept, none_begun, b.used), omega (arith, b.used))

module _ {Q T F E O A I R IE : Type 0} {file : WriteFile T F E O} {frame : PartialFrame Q I R T IE}
    {allocator : FrameAllocator Q A} {config : SchedulerConfig} where
  -- After any calls of a writer, over any backends and frames and whatever else happens to the budget:
  -- the frames that it keeps are at most those that it has reserved, and these at most those that it
  -- was granted.
  pub Run-bounded :
      {fills : List (R × I)} {outputs : List O} {w : WriteScheduler Q T F O A}
      → Run file frame allocator config fills outputs w
      → (retained_frames w ≤ reserved_frames w) × (reserved_frames w ≤ granted_frames w)
  Run-bounded {w} r =
      let t = Run-any r in
      elim t.state [
        | inl (stop, h) ↦
            On-bounded file config.max_retries (λ stop all slot. Unit {0}) w stop h.ls w.partial
              h.on
        | inr b ↦ Broken-bounded config.max_retries w b
      ]

  -- After any calls of a writer, over any backends and frames, what it has reserved is exactly what
  -- its slots and its partial frame take: without retries one for each frame that is not accepted yet,
  -- and with retries the whole capacity of each file from its first frame until it has closed.
  pub Run-accounted :
      {fills : List (R × I)} {outputs : List O} {w : WriteScheduler Q T F O A}
      → Run file frame allocator config fills outputs w
      → reserved_frames w ≡ reservations config.max_retries w
  unfolding reserved_frames
  Run-accounted {w} r =
      let t = Run-any r in
      elim t.state [
        | inl (stop, h) ↦ h.on.account
        | inr b ↦ omega (
          arith,
          b.used,
          ap (sum_of (cost config.max_retries)) b.files,
          Broken-reserved config.max_retries w b,
        )
      ]

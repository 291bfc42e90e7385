-- ===== src/Write/Account.antt =====
-- src/write.rs: the whole `WriteScheduler`. `used` is what its slots and its partial frame take, the
-- permit covers it, and the slots stand for the frames that were handed over.
pub mod Drive
pub mod Grow
pub mod Flush
pub mod Stream
pub mod Fill
pub mod Calls
pub mod Close
use carbon_io.Prelude.{
  ℕ, ◌+◌, ◌-◌, ◌≤◌, ◌<◌, ◌≡◌, ◌≢◌, ◌⊎◌, inl, inr, refl, sym, ap, subst, ◌∙◌, Bool, true, false,
  ◌&&◌, Bool-cases, List, [], ◌∷◌, Option, none, some, is_some, arith, ◌==◌, if◌then◌else◌, ltb,
  min, max, length, length-set, get_elem?, get_elem?-lt, get_elem?-set_self, get_elem?-set_ne, set,
  sum_of, sum_of-set, le-sum_of, ok, err, saturating_sub,
}
use carbon_io.Traits.{WriteFile}
use carbon_io.Budget.{Waker, shrink_to}
use carbon_io.Write.Slots.{Slot, is_closed, poll_slot}
use carbon_io.Write.State.{Phase, WriteScheduler, writing, closing, is_closing, shrink_permit}
use carbon_io.Write.Drive.{release}
use carbon_io.Write.Steps.{turn, moved, polled, stored, next}
use carbon_io.Write.Sized.{Sized, cost, PollSized, poll_slot-Sized}
use carbon_io.Write.Queue.{Kept, Filled, Filled-set}
use carbon_io.Write.Queue.Each.{Each, Stands, Each-get, Each-keep}

-- The phase in which input goes on, or has ended.
abbrev pub phase_of : Bool → Phase
phase_of false = writing
phase_of true = closing

-- What the next partial frame takes of the grant, for the slot that it belongs to.
abbrev pub share : {T F O : Type 0} → ℕ → Option (Slot T F O) → ℕ
share max_retries none = 0
share max_retries (some slot) =
    if max_retries == 0 then 1 else if slot.assigned == 0 then slot.capacity else 0

-- What the partial frame takes, if there is one.
abbrev pub reserve : {T F O : Type 0} → ℕ → List (Slot T F O) → Bool → ℕ → ℕ
reserve max_retries files false fill = 0
reserve max_retries files true fill = share max_retries (get_elem? files fill)

module _ {Q T F E O : Type 0} (file : WriteFile T F E O) (max_retries : ℕ)
    (P : Bool → List T → Slot T F O → Type 0) where
  -- `ls` are the frames of each slot and `now` is the partial frame; `stop` tells that input has ended.
  pub record Sound (stop : Bool) (ls : List (List T)) (now : Option Q) (limit : ℕ) (phase : Phase)
      (files : List (Slot T F O)) (partial : Option Q) (used fill capacity : ℕ) : Type 0 where
    pub retries : limit ≡ max_retries
    pub phased : phase ≡ phase_of stop
    pub each : Each file max_retries P stop ls files
    pub filled : stop ≡ false → Filled fill files
    pub bounded : stop ≡ false → fill ≤ length files
    pub current : partial ≡ now
    pub started : is_some partial ≡ true → (stop ≡ false) × (fill < length files)
    pub account :
        used ≡ sum_of (cost max_retries) files + reserve max_retries files (is_some partial) fill
    pub granted : used ≤ capacity

  abbrev pub On : {A : Type 0} → Bool → List (List T) → Option Q → WriteScheduler Q T F O A → Type 0
  On stop ls now w =
      Sound stop ls now w.config.max_retries w.phase w.files w.partial w.used w.fill_index
        w.permit.capacity

module _ {T F O : Type 0} (max_retries : ℕ) where
  share-same :
      (slot slot' : Slot T F O)
      → slot'.assigned ≡ slot.assigned
      → slot'.capacity ≡ slot.capacity
      → share max_retries (some slot') ≡ share max_retries (some slot)
  share-same slot slot' a c = rw (a, c) refl

  -- A slot that keeps its counters changes nothing for the partial frame.
  pub reserve-set :
      (files : List (Slot T F O)) (i : ℕ) (slot slot' : Slot T F O) (partial : Bool) (fill : ℕ)
      → get_elem? files i ≡ some slot
      → slot'.assigned ≡ slot.assigned
      → slot'.capacity ≡ slot.capacity
      → reserve max_retries (set files i slot') partial fill
        ≡ reserve max_retries files partial fill
  reserve-set files i slot slot' false fill h a c = refl
  reserve-set files i slot slot' true fill h a c = elim (Bool-cases (i == fill)) [
    | inl eq ↦
        let here : i ≡ fill = ground arith in
        let new : get_elem? (set files i slot') fill ≡ some slot' =
          ap (get_elem? (set files i slot')) (sym here)
          ∙ get_elem?-set_self files i slot' (get_elem?-lt files i slot h) in
        let old : get_elem? files fill ≡ some slot = ap (get_elem? files) (sym here) ∙ h in
        ap (share max_retries) new ∙ share-same slot slot' a c ∙ sym (ap (share max_retries) old)
    | inr ne ↦ ap (share max_retries) (get_elem?-set_ne files i fill slot' (λ eq. (ground arith)))
  ]

module _ {Q T F E O A : Type 0} (file : WriteFile T F E O) (max_retries : ℕ)
    (P : Bool → List T → Slot T F O → Type 0) (stop : Bool) (ls : List (List T))
    (now : Option Q) where
  -- The permit may shrink down to what is used.
  pub shrink_permit-On :
      (w : WriteScheduler Q T F O A) (size : ℕ)
      → w.used ≤ size
      → On file max_retries P stop ls now w
      → On file max_retries P stop ls now (shrink_permit w size)
  unfolding shrink_permit shrink_to
  shrink_permit-On w size le s = record {
    retries = s.retries;
    phased = s.phased;
    each = s.each;
    filled = s.filled;
    bounded = s.bounded;
    current = s.current;
    started = s.started;
    account = s.account;
    granted = omega (arith, s.granted);
  }

  pub release-On :
      (w : WriteScheduler Q T F O A) (slot : Slot T F O) (changed : Bool) (released : ℕ)
      → On file max_retries P stop ls now (record w { used = w.used - released })
      → On file max_retries P stop ls now (release w slot changed released)
  unfolding release
  release-On w slot changed released s =
      let u : WriteScheduler Q T F O A = record w { used = saturating_sub w.used released } in
      elim (Bool-cases (changed && is_closed slot.state)) [
        | inl h ↦ rw (h, release) (shrink_permit-On u u.used (omega arith) s)
        | inr h ↦ elim (Bool-cases (ltb 0 released)) [
          | inr k ↦ rw (h, release, k) s
          | inl k ↦ elim (Bool-cases (is_closing w.phase)) [
            | inl c ↦
                rw (h, release, k, c)
                  (shrink_permit-On u (min u.permit.capacity u.used) (omega (arith, s.granted)) s)
            | inr c ↦
                rw (h, release, k, c)
                  (shrink_permit-On u
                    (min u.permit.capacity (max w.config.window.target_frames u.used))
                    (omega (arith, s.granted)) s)
          ]
        ]
      ]

  -- The slot at `i` after a poll that keeps its counters and releases what it no longer takes.
  pub polled-On :
      Kept file max_retries P
      → (w : WriteScheduler Q T F O A) (i cursor : ℕ) (slot : Slot T F O) (cx : Waker)
        (changed : Bool) (released : ℕ)
      → get_elem? w.files i ≡ some slot
      → (poll_slot file slot cx stop max_retries).result ≡ ok (changed, released)
      → On file max_retries P stop ls now w
      → On file max_retries P stop ls now (record w {
        files = set w.files i (poll_slot file slot cx stop max_retries).slot;
        poll_cursor = cursor;
        used = w.used - released;
      })
  polled-On kept w i cursor slot cx changed released h eq s =
      let p = poll_slot file slot cx stop max_retries in
      let (all, at, (sized, holds)) = Each-get file max_retries P stop ls w.files i slot s.each h in
      let found = poll_slot-Sized file max_retries stop (length all) slot cx sized in
      let (sized', balance, same_capacity) = rw (PollSized, eq) at found in
      let same_assigned : p.slot.assigned ≡ slot.assigned =
        omega (arith, sized.counted, sized'.counted) in
      let holds' = kept.polls stop all slot cx (changed, released) eq holds in
      let sum = sum_of-set (cost max_retries) w.files i slot p.slot h in
      let part = le-sum_of (cost max_retries) w.files i slot h in
      let same =
        reserve-set max_retries w.files i slot p.slot (is_some w.partial) w.fill_index h
          same_assigned same_capacity in
      record {
        retries = s.retries;
        phased = s.phased;
        each = Each-keep file max_retries P stop ls w.files i all p.slot s.each at (sized', holds');
        filled = λ e.
            Filled-set w.fill_index w.files i slot p.slot h same_assigned same_capacity
              (s.filled e);
        bounded = λ e. omega (arith, s.bounded e, length-set w.files i p.slot);
        current = s.current;
        started =
            λ e. ((s.started e).0, omega (arith, (s.started e).1, length-set w.files i p.slot));
        account = omega (arith, s.account, sum, part, same, balance);
        granted = omega (arith, s.granted);
      }

-- ===== src/Write/Account/Fill/Start.antt =====
-- src/write.rs: `poll_write` reserves the capacity of a partial frame and allocates it.
use mathlib.Core.Option.{some-injective}
use carbon_io.Prelude.{
  ℕ, ◌+◌, ◌≤◌, ◌<◌, ◌≡◌, ◌⊎◌, refl, sym, ap, subst, ◌∙◌, Bool, true, false, Bool-cases,
  Option-cases, List, [], ◌++◌, none, some, inl, inr, arith, leb, get_elem?, get_elem?-lt, is_some,
  gather, Result-cases, Result, ok, err, saturating_sub,
}
use carbon_io.Errors.{invalid_partial_frame}
use carbon_io.Traits.{WriteFile}
use carbon_io.Budget.{Waker}
use carbon_io.Write.Frames.{PartialFrame, FrameAllocator}
use carbon_io.Write.Contract.{FrameContract}
use carbon_io.Write.Slots.{Slot}
use carbon_io.Write.State.{WriteError, contract, WriteScheduler, fail, ensure_capacity}
use carbon_io.Write.Api.{needed, limit, allocate_partial, start_partial}
use carbon_io.Write.Queue.{concat}
use carbon_io.Write.Account.{share, reserve}
use carbon_io.Write.Account.Drive.{Broken, fail-Broken}
use carbon_io.Write.Account.Grow.{Ensured, ensure_capacity-Ensured}
use carbon_io.Write.Account.Stream.{held, Holding}

module _ {Q T F E O A I R IE : Type 0} (file : WriteFile T F E O) (frame : PartialFrame Q I R T IE)
    (allocator : FrameAllocator Q A) (w : WriteScheduler Q T F O A) where
  abbrev allocated : ℕ → WriteScheduler Q T F O A
  allocated need = record w { used = w.used + need; allocator = (allocator.allocate w.allocator).1 }

  -- The allocator's frame is refused, or it is empty and becomes the partial frame.
  allocate_partial-cases :
      (need : ℕ)
      → let p = (allocator.allocate w.allocator).0 in
        (allocate_partial file frame allocator w need
          ≡ (fail (allocated need), err (contract invalid_partial_frame)))
        ⊎ ((frame.is_empty p ≡ true)
            × (frame.is_complete p ≡ false)
            × (allocate_partial file frame allocator w need
                ≡ (record (allocated need) { partial = some p }, ok tt)))
  unfolding allocate_partial
  allocate_partial-cases need = ground arith

  module _ (cx : Waker) where
    start_partial-held :
        (p : Q) → w.partial ≡ some p → start_partial file frame allocator w cx ≡ (w, ok tt)
    unfolding start_partial
    start_partial-held p e = ground arith

    start_partial-nowhere :
        get_elem? w.files w.fill_index ≡ none → start_partial file frame allocator w cx ≡ (w, ok tt)
    unfolding start_partial
    start_partial-nowhere h = ground arith

    module _ (slot : Slot T F O) (e : w.partial ≡ none)
        (h : get_elem? w.files w.fill_index ≡ some slot) where
      start_partial-full :
          leb
              (needed file frame allocator w slot)
              (saturating_sub (limit file frame allocator w) w.used)
            ≡ false
          → start_partial file frame allocator w cx ≡ (w, ok tt)
      unfolding start_partial
      start_partial-full full = ground arith

      module _
          (room : leb
              (needed file frame allocator w slot)
              (saturating_sub (limit file frame allocator w) w.used)
            ≡ true) where
        abbrev grown : WriteScheduler Q T F O A × Result Bool (WriteError IE E)
        grown = ensure_capacity w cx (w.used + needed file frame allocator w slot)

        start_partial-waits :
            grown.1 ≡ ok false → start_partial file frame allocator w cx ≡ (grown.0, ok tt)
        unfolding start_partial
        start_partial-waits g = ground arith

        start_partial-covered :
            grown.1 ≡ ok true
            → start_partial file frame allocator w cx
              ≡ allocate_partial file frame allocator grown.0 (needed file frame allocator w slot)
        unfolding start_partial
        start_partial-covered g = ground arith

module _ {Q T F E O A I R IE B : Type 0} {frame : PartialFrame Q I R T IE} {content : Q → List B}
    {bytes : T → List B} {part : R → I → List B} (law : FrameContract frame content bytes part)
    (file : WriteFile T F E O) (max_retries : ℕ) (P : Bool → List T → Slot T F O → Type 0)
    (allocator : FrameAllocator Q A) (s : List B) where
  -- Starting a partial frame holds nothing more, or the allocator's frame is refused.
  abbrev pub Started : WriteScheduler Q T F O A × Result (Unit {0}) (WriteError IE E) → Type 0
  Started d = elim d.1 [
    | err x ↦ (x ≡ contract invalid_partial_frame) × Broken d.0
    | ok _ ↦ Holding law file max_retries P false s d.0
  ]

  allocate_partial-Started :
      (w : WriteScheduler Q T F O A) (slot : Slot T F O) (need : ℕ)
      → w.partial ≡ none
      → get_elem? w.files w.fill_index ≡ some slot
      → need ≡ share max_retries (some slot)
      → w.used + need ≤ w.permit.capacity
      → Holding law file max_retries P false s w
      → Started (allocate_partial file frame allocator w need)
  allocate_partial-Started w slot need e h own le kept =
      let p = (allocator.allocate w.allocator).0 in
      let on = kept.on in
      elim (allocate_partial-cases file frame allocator w need) [
        | inl eq ↦ rw eq (refl, fail-Broken (allocated file frame allocator w need))
        | inr (empty, incomplete, eq) ↦ rw eq (record {
          ls = kept.ls;
          on = record {
            retries = on.retries;
            phased = on.phased;
            each = on.each;
            filled = on.filled;
            bounded = on.bounded;
            current = refl;
            started = λ _. (refl, get_elem?-lt w.files w.fill_index slot h);
            account =
                let free : reserve max_retries w.files (is_some w.partial) w.fill_index ≡ 0 =
                  rw e refl in
                let mine : reserve max_retries w.files true w.fill_index
                    ≡ share max_retries (some slot) =
                  rw h refl in
                omega (arith, on.account, free, mine, own);
            granted = le;
          };
          same =
              let idle : held content w.partial ≡ [] = rw e refl in
              ap (λ xs. gather bytes (concat kept.ls) ++ xs) (law.empty p empty ∙ sym idle)
              ∙ kept.same;
          fillable =
              λ q e. subst law.fillable (some-injective p q e) (law.starts p empty incomplete);
        })
      ]

  grown-Holding :
      (w : WriteScheduler Q T F O A) (minimum : ℕ)
      (d : WriteScheduler Q T F O A × Result Bool (WriteError IE E))
      → Ensured w minimum d
      → Holding law file max_retries P false s w
      → Holding law file max_retries P false s d.0
  grown-Holding w minimum d ensured kept =
      let on = kept.on in
      subst (Holding law file max_retries P false s) (sym ensured.same) (record {
        ls = kept.ls;
        on = record {
          retries = on.retries;
          phased = on.phased;
          each = on.each;
          filled = on.filled;
          bounded = on.bounded;
          current = on.current;
          started = on.started;
          account = on.account;
          granted = ensured.granted;
        };
        same = kept.same;
        fillable = kept.fillable;
      })

  needed-share :
      (w : WriteScheduler Q T F O A) (slot : Slot T F O)
      → w.config.max_retries ≡ max_retries
      → needed file frame allocator w slot ≡ share max_retries (some slot)
  unfolding needed
  needed-share w slot e = rw e refl

  limit-within : (w : WriteScheduler Q T F O A) → limit file frame allocator w ≤ w.budget.total
  unfolding limit
  limit-within w = ground arith

  pub start_partial-Started :
      (w : WriteScheduler Q T F O A) (cx : Waker)
      → Holding law file max_retries P false s w
      → Started (start_partial file frame allocator w cx)
  start_partial-Started w cx kept = elim (Option-cases w.partial) [
    | inr (p, e) ↦ rw (start_partial-held file frame allocator w cx p e) kept
    | inl e ↦ elim (Option-cases (get_elem? w.files w.fill_index)) [
      | inl h ↦ rw (start_partial-nowhere file frame allocator w cx h) kept
      | inr (slot, h) ↦
          elim (Bool-cases (
            leb (needed file frame allocator w slot)
              (saturating_sub (limit file frame allocator w) w.used))) [
                | inr full ↦ rw (start_partial-full file frame allocator w cx slot e h full) kept
                | inl room ↦ roomy slot e h room
              ]
    ]
  ]
    where
      within :
          (slot : Slot T F O)
          → leb
              (needed file frame allocator w slot)
              (saturating_sub (limit file frame allocator w) w.used)
            ≡ true
          → w.permit.capacity < w.used + needed file frame allocator w slot
          → w.used + needed file frame allocator w slot ≤ w.budget.total
      within slot room more = ground (arith, limit-within w, kept.on.granted)

      roomy :
          (slot : Slot T F O) (e : w.partial ≡ none)
          (h : get_elem? w.files w.fill_index ≡ some slot)
          (room : leb
              (needed file frame allocator w slot)
              (saturating_sub (limit file frame allocator w) w.used)
            ≡ true)
          → Started (start_partial file frame allocator w cx)
      roomy slot e h room =
          let need = needed file frame allocator w slot in
          let g = grown file frame allocator w cx slot e h room in
          let ensured : Ensured w (w.used + need) g =
            ensure_capacity-Ensured w cx (w.used + need) kept.on.granted
              (λ more. within slot room more) in
          elim (Result-cases g.1) [
            | inr (x, bad) ↦ absurd (ensured.accepted x bad)
            | inl (false, g1) ↦
                rw (start_partial-waits file frame allocator w cx slot e h room g1)
                  (grown-Holding w (w.used + need) g ensured kept)
            | inl (true, g1) ↦
                rw (start_partial-covered file frame allocator w cx slot e h room g1) (
                  allocate_partial-Started g.0 slot need (ap (λ v. v.partial) ensured.same ∙ e)
                    (ap (λ v. get_elem? v.files v.fill_index) ensured.same ∙ h)
                    (needed-share w slot kept.on.retries)
                    (omega (
                      arith,
                      ap (λ v. v.used) ensured.same,
                      ap (λ v. v.permit.capacity) ensured.same,
                      ensured.covered g1,
                    ))
                    (grown-Holding w (w.used + need) g ensured kept))
          ]

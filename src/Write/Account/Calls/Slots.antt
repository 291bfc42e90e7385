-- ===== src/Write/Account/Calls/Slots.antt =====
-- src/write.rs: a slot joins the end of the queue, or the head that has closed leaves it.
use carbon_io.Prelude.{
  ℕ, zero, suc, ◌-◌, ◌<◌, ◌≡◌, refl, sym, ap, subst, Bool, true, false, List, [], ◌∷◌, ◌++◌, Option,
  none, some, arith, ltb, is_some, length, length-append, get_elem?, get_elem?-append_left,
  sum_of-append,
}
use carbon_io.Traits.{WriteFile}
use carbon_io.Write.Frames.{len, new_frames}
use carbon_io.Write.Slots.{Slot, closed, is_closed, new_slot}
use carbon_io.Write.State.{WriteScheduler, Phase}
use carbon_io.Write.Api.{reused}
use carbon_io.Write.Sized.{Sized, cost, new_slot-Sized, reused-Sized}
use carbon_io.Write.Runs.{is_finishing}
use carbon_io.Write.Queue.{Kept, Filled-append, Filled-pop}
use carbon_io.Write.Queue.Each.{Stands, Each-append}
use carbon_io.Write.Account.{Sound, On, share, reserve}
use carbon_io.Write.Account.Calls.Cases.{pushed}

module _ {T F E O : Type 0} (file : WriteFile T F E O) (max_retries : ℕ) where
  new_slot-cost : (f : F) (keep : Bool) → cost {T = T} max_retries (new_slot file f keep) ≡ 0
  unfolding cost len new_slot new_frames
  new_slot-cost f keep = ground arith

module _ {T F O : Type 0} (max_retries : ℕ) where
  cost-closed :
      (stop : Bool) (n : ℕ) (slot : Slot T F O)
      → is_closed slot.state ≡ true
      → Sized max_retries stop n slot
      → cost max_retries slot ≡ 0
  unfolding cost len
  cost-closed stop n slot e s = ground (arith, s.cleared)

  reserve-append :
      (files : List (Slot T F O)) (slot : Slot T F O) (partial : Bool) (fill : ℕ)
      → (partial ≡ true → fill < length files)
      → reserve max_retries (files ++ slot ∷ []) partial fill
        ≡ reserve max_retries files partial fill
  reserve-append files slot false fill lt = refl
  reserve-append files slot true fill lt =
      ap (share max_retries) (get_elem?-append_left files (slot ∷ []) fill (lt refl))

  reserve-behind :
      (slot : Slot T F O) (rest : List (Slot T F O)) (partial : Bool) (fill : ℕ)
      → 0 < fill
      → reserve max_retries rest partial (fill - 1) ≡ reserve max_retries (slot ∷ rest) partial fill
  reserve-behind slot rest false fill pos = refl
  reserve-behind slot rest true zero pos = absurd (omega (arith, pos))
  reserve-behind slot rest true (suc fill) pos =
      let back : suc fill - 1 ≡ fill = omega arith in
      ap (λ i. share max_retries (get_elem? rest i)) back

module _ {T F E O : Type 0} (file : WriteFile T F E O) (max_retries : ℕ) where
  reused-cost :
      (stop : Bool) (n : ℕ) (slot : Slot T F O) (f : F)
      → is_closed slot.state ≡ true
      → Sized max_retries stop n slot
      → cost max_retries (reused file slot f) ≡ 0
  unfolding cost len
  reused-cost stop n slot f e s = ground (arith, s.cleared)

module _ {Q T F E O : Type 0} (file : WriteFile T F E O) (max_retries : ℕ)
    (P : Bool → List T → Slot T F O → Type 0) where
  -- A slot that has no frames yet joins the end.
  joined-Sound :
      (ls : List (List T)) (now : Option Q) (limit : ℕ) (phase : Phase) (files : List (Slot T F O))
      (slot : Slot T F O) (partial : Option Q) (used fill capacity : ℕ)
      → Stands file max_retries P false [] slot
      → cost max_retries slot ≡ 0
      → Sound file max_retries P false ls now limit phase files partial used fill capacity
      → Sound file max_retries P false
          (ls ++ [] ∷ [])
          now
          limit
          phase
          (files ++ slot ∷ [])
          partial
          used
          fill
          capacity
  joined-Sound ls now limit phase files slot partial used fill capacity (sized, holds) free s =
      let long = length-append files (slot ∷ []) in
      record {
        retries = s.retries;
        phased = s.phased;
        each = Each-append file max_retries P false ls files [] slot s.each (sized, holds);
        filled = λ e.
            Filled-append fill files slot sized.counted sized.positive (s.bounded e) (s.filled e);
        bounded = λ e. omega (arith, s.bounded e, long);
        current = s.current;
        started = λ e. ((s.started e).0, omega (arith, (s.started e).1, long));
        account = omega (
          arith,
          s.account,
          sum_of-append (cost max_retries) files (slot ∷ []),
          free,
          reserve-append max_retries files slot (is_some partial) fill (λ e. (s.started e).1),
        );
        granted = s.granted;
      }

  -- The head has closed and leaves.
  pub behind-Sound :
      (stop : Bool) (ls : List (List T)) (now : Option Q) (limit : ℕ) (phase : Phase)
      (slot : Slot T F O) (rest : List (Slot T F O)) (output : O) (partial : Option Q)
      (used fill capacity : ℕ)
      → slot.state ≡ closed output
      → Sound file max_retries P stop ls now limit phase (slot ∷ rest) partial used fill capacity
      → (all : List T) × (ls' : List (List T)) × (ls ≡ all ∷ ls')
        × (P stop all slot × Sized max_retries stop (length all) slot)
        × Sound file max_retries P stop ls' now limit phase rest partial used (fill - 1) capacity
  behind-Sound stop [] now limit phase slot rest output partial used fill capacity e s =
      elim s.each [ ]
  behind-Sound false (all ∷ ls) now limit phase slot rest output partial used fill capacity e s =
      let ((sized, holds), each) = s.each in
      let full : slot.assigned ≡ slot.capacity = sized.finished (ap is_finishing e) refl in
      let (pos, filled) = Filled-pop fill slot rest full (s.filled refl) in
      (
        all,
        ls,
        refl,
        (holds, sized),
        record {
          retries = s.retries;
          phased = s.phased;
          each = each;
          filled = λ _. filled;
          bounded = λ _. omega (arith, s.bounded refl);
          current = s.current;
          started = λ h. (refl, omega (arith, (s.started h).1, pos));
          account = omega (
            arith,
            s.account,
            cost-closed max_retries false (length all) slot (ap is_closed e) sized,
            reserve-behind max_retries slot rest (is_some partial) fill pos,
          );
          granted = s.granted;
        },
      )
  behind-Sound true (all ∷ ls) now limit phase slot rest output (some p) used fill capacity e s =
      let open_input = (s.started refl).0 in cc
  behind-Sound true (all ∷ ls) now limit phase slot rest output none used fill capacity e s =
      let ((sized, holds), each) = s.each in
      (
        all,
        ls,
        refl,
        (holds, sized),
        record {
          retries = s.retries;
          phased = s.phased;
          each = each;
          filled = λ h. cc;
          bounded = λ h. cc;
          current = s.current;
          started = λ h. cc;
          account = omega (
            arith,
            s.account,
            cost-closed max_retries true (length all) slot (ap is_closed e) sized,
          );
          granted = s.granted;
        },
      )

module _ {Q T F E O : Type 0} (file : WriteFile T F E O) (max_retries : ℕ)
    (P : Bool → List T → Slot T F O → Type 0) (kept : Kept file max_retries P) where
  pub swapped-Sound :
      (ls : List (List T)) (now : Option Q) (limit : ℕ) (phase : Phase) (slot : Slot T F O)
      (rest : List (Slot T F O)) (output : O) (f : F) (partial : Option Q) (used fill capacity : ℕ)
      → 0 < file.frame_capacity f
      → slot.state ≡ closed output
      → Sound file max_retries P false ls now limit phase (slot ∷ rest) partial used fill capacity
      → (all : List T) × (ls' : List (List T)) × (ls ≡ all ∷ ls')
        × P false all slot
        × Sound file max_retries P false
            (ls' ++ [] ∷ [])
            now
            limit
            phase
            (rest ++ reused file slot f ∷ [])
            partial
            used
            (fill - 1)
            capacity
  swapped-Sound ls now limit phase slot rest output f partial used fill capacity pos e s =
      let done : is_closed slot.state ≡ true = ap is_closed e in
      let (all, ls', same, (holds, sized), behind) =
        behind-Sound file max_retries P false ls now limit phase slot rest output partial used fill
          capacity e s in
      (
        all,
        ls',
        same,
        holds,
        joined-Sound file max_retries P ls' now limit phase rest (reused file slot f) partial used
            (fill - 1) capacity
            (
              reused-Sized file max_retries false (length all) slot f pos done sized,
              kept.reuses all slot f done sized holds,
            )
            (reused-cost file max_retries false (length all) slot f done sized) behind,
      )

module _ {Q T F E O A : Type 0} (file : WriteFile T F E O) (max_retries : ℕ)
    (P : Bool → List T → Slot T F O → Type 0) (kept : Kept file max_retries P) where
  pub pushed-On :
      (ls : List (List T)) (now : Option Q) (w : WriteScheduler Q T F O A) (f : F)
      → 0 < file.frame_capacity f
      → On file max_retries P false ls now w
      → On file max_retries P false (ls ++ [] ∷ []) now (pushed file w f)
  pushed-On ls now w f pos s =
      subst
        (λ m.
          On file max_retries P false (ls ++ [] ∷ []) now
            (record w { files = w.files ++ new_slot file f (ltb 0 m) ∷ [] }))
        (sym s.retries)
        (joined-Sound file max_retries P ls now w.config.max_retries w.phase w.files
          (new_slot file f (ltb 0 max_retries)) w.partial w.used w.fill_index w.permit.capacity
          (new_slot-Sized file max_retries f pos, kept.fresh f)
          (new_slot-cost {T = T} file max_retries f (ltb 0 max_retries)) s)

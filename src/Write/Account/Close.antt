-- ===== src/Write/Account/Close.antt =====
-- src/write.rs: `poll_close` ends the input, and drives what is left.
pub mod Cases
use mathlib.Core.List.{append-nil}
use carbon_io.Prelude.{
  ℕ, ◌≤◌, ◌≡◌, ◌⊎◌, refl, sym, ap, subst, ◌∙◌, Bool, true, false, Bool-cases, List, [], ◌∷◌, ◌++◌,
  gather, sum_of, length, is_some, Option, none, some, inl, inr, arith, Result, ok, err, Poll,
  ready, pending,
}
use carbon_io.Traits.{WriteFile}
use carbon_io.Budget.{Waker}
use carbon_io.Write.Frames.{PartialFrame, FrameAllocator}
use carbon_io.Write.Contract.{FrameContract}
use carbon_io.Write.Slots.{Slot}
use carbon_io.Write.State.{
  WriteError, backend, WriteScheduler, Phase, writing, closing, is_writing, is_failed,
  flush_partial, wait, completed_files, shrink_permit,
}
use carbon_io.Write.Api.{Written, drop_unused, start_closing, poll_close}
use carbon_io.Write.Drive.{Outcome, drive, done, error, exhausted}
use carbon_io.Write.Queue.{Kept, concat}
use carbon_io.Write.Queue.Each.{Each, Each-stop}
use carbon_io.Write.Queue.Unused.{drop_unused-Dropped}
use carbon_io.Write.Account.{Sound, On, phase_of, reserve}
use carbon_io.Write.Account.Drive.{Broken, OutcomeKept, drive-Kept}
use carbon_io.Write.Account.Flush.{Filling, flush_partial-Flushed}
use carbon_io.Write.Account.Fill.{Ends, of_backend}
use carbon_io.Write.Account.Stream.{
  held, Holding, kept-Holding, flush_partial-bytes, shrink_permit-Holding,
}
use carbon_io.Write.Account.Close.Cases.{
  flushing, dropping, start_closing-writing, start_closing-closing, driven, poll_close-error,
  poll_close-exhausted, poll_close-done,
}

module _ {Q T F E O A I R IE B : Type 0} {frame : PartialFrame Q I R T IE} {content : Q → List B}
    {bytes : T → List B} {part : R → I → List B} (law : FrameContract frame content bytes part)
    (file : WriteFile T F E O) (max_retries : ℕ) (P : Bool → List T → Slot T F O → Type 0)
    (allocator : FrameAllocator Q A) (kept : Kept file max_retries P) where
  -- Input ends: the partial frame is flushed, and the slots that are unused leave.
  ended-Holding :
      (w : WriteScheduler Q T F O A) (s : List B)
      → Holding law file max_retries P false s w
      → ((flushing file frame allocator w).1 ≡ ok tt)
        × Holding law file max_retries P true s (dropping file frame allocator w)
  ended-Holding w s h =
      let ending : WriteScheduler Q T F O A = record w { phase = closing } in
      let start =
        subst
          (λ ph.
            Sound file max_retries P false h.ls w.partial w.config.max_retries ph w.files w.partial
              w.used w.fill_index w.permit.capacity)
          h.on.phased h.on in
      let (fine, phase, ls', f, longer) =
        flush_partial-Flushed frame file max_retries P kept h.ls w.partial ending start in
      let v = (flushing file frame allocator w).0 in
      let (ls'', each, same, sum) =
        drop_unused-Dropped file max_retries P true ls' v.files
          (Each-stop file max_retries P kept ls' v.files f.each) in
      let nothing_reserved : reserve max_retries v.files (is_some v.partial) v.fill_index ≡ 0 =
        ap (λ p. reserve max_retries v.files (is_some p) v.fill_index) f.current in
      let nothing_left : reserve max_retries (drop_unused v.files) (is_some v.partial) v.fill_index
          ≡ 0 =
        ap (λ p. reserve max_retries (drop_unused v.files) (is_some p) v.fill_index) f.current in
      (
        fine,
        record {
          ls = ls'';
          on = record {
            retries = f.retries;
            phased = phase;
            each = each;
            filled = λ e. cc;
            bounded = λ e. cc;
            current = refl;
            started = λ e. cc;
            account = omega (arith, f.account, sum, nothing_reserved, nothing_left);
            granted = f.granted;
          };
          same =
              ap (λ l. gather bytes l ++ held content v.partial) same
              ∙ ap (λ p. gather bytes (concat ls') ++ held content p) f.current
              ∙ flush_partial-bytes law h.ls ls' w.partial s longer h.same;
          fillable = λ q e. let none_left = sym f.current ∙ e in cc;
        },
      )

  start_closing-Holding :
      (w : WriteScheduler Q T F O A) (stop : Bool) (s : List B)
      → Holding law file max_retries P stop s w
      → let d = start_closing file frame allocator w in
        (d.1 ≡ ok tt) × Holding law file max_retries P true s d.0
  start_closing-Holding w false s h =
      let (fine, h') = ended-Holding w s h in
      rw (start_closing-writing file frame allocator w (ap is_writing h.on.phased) fine) (
        refl,
        shrink_permit-Holding law file max_retries P true s (dropping file frame allocator w)
            (dropping file frame allocator w).used (omega arith) h',
      )
  start_closing-Holding w true s h =
      rw (start_closing-closing file frame allocator w (ap is_writing h.on.phased)) (refl, h)

  -- A call goes on, all results are taken when it reports none and there is none to come, or the
  -- scheduler ends.
  abbrev pub CloseKept : List B → Written Q T F O A E IE ℕ → Type 0
  CloseKept s d = elim d.result [
    | pending ↦ Holding law file max_retries P true s d.scheduler
    | ready (ok n) ↦ Holding law file max_retries P true s d.scheduler × (n ≡ 0 → s ≡ [])
    | ready (err x) ↦ Ends x × Broken d.scheduler
  ]

  no_frames :
      (ls : List (List T)) (files : List (Slot T F O))
      → length files ≡ 0
      → Each file max_retries P true ls files
      → concat ls ≡ []
  no_frames [] [] e each = refl
  no_frames (l ∷ ls) [] e each = elim each [ ]
  no_frames ls (slot ∷ files) e each = cc

  no_partial :
      (partial : Option Q) → (is_some partial ≡ true → true ≡ false) → held content partial ≡ []
  no_partial none e = refl
  no_partial (some p) e = let bad = e refl in cc

  -- A closed scheduler without files holds nothing.
  nothing_held :
      (w : WriteScheduler Q T F O A) (s : List B)
      → length w.files ≡ 0
      → Holding law file max_retries P true s w
      → s ≡ []
  nothing_held w s e h =
      sym h.same
      ∙ ap (λ l. gather bytes l ++ held content w.partial) (no_frames h.ls w.files e h.on.each)
      ∙ no_partial w.partial (λ some_left. (h.on.started some_left).0)

  waiting-Holding :
      (w : WriteScheduler Q T F O A) (cx : Waker) (s : List B)
      → Holding law file max_retries P true s w
      → Holding law file max_retries P true s (wait w cx)
  unfolding wait
  waiting-Holding w cx s h = record { ls = h.ls; on = h.on; same = h.same; fillable = h.fillable }

  phase-going : (stop : Bool) → is_failed (phase_of stop) ≡ false
  phase-going false = refl
  phase-going true = refl

  pub poll_close-Kept :
      (w : WriteScheduler Q T F O A) (cx : Waker) (stop : Bool) (s : List B)
      → Holding law file max_retries P stop s w
      → CloseKept s (poll_close file frame allocator w cx)
  poll_close-Kept w cx stop s h =
      let entered : WriteScheduler Q T F O A = record w { waker = none } in
      let (starts, h') =
        start_closing-Holding entered stop s
          (record { ls = h.ls; on = h.on; same = h.same; fillable = h.fillable }) in
      let going : is_failed w.phase ≡ false = ap is_failed h.on.phased ∙ phase-going stop in
      after going starts h' (driven file frame allocator w cx going starts).1 refl (
        drive-Kept IE file max_retries P kept true h'.ls
          (start_closing file frame allocator entered).0.partial
          (start_closing file frame allocator entered).0 cx h'.on)
    where
      going_on :
          (going : is_failed w.phase ≡ false)
          (starts : (start_closing file frame allocator (record w { waker = none })).1 ≡ ok tt)
          (h' : Holding law file max_retries P true s
            (start_closing file frame allocator (record w { waker = none })).0)
          → On file max_retries P true h'.ls
              (start_closing file frame allocator (record w { waker = none })).0.partial
              (driven file frame allocator w cx going starts).0
          → Holding law file max_retries P true s (driven file frame allocator w cx going starts).0
      going_on going starts h' on =
          kept-Holding law file max_retries P true s h'.ls
            (start_closing file frame allocator (record w { waker = none })).0.partial
            (driven file frame allocator w cx going starts).0 h'.same h'.fillable on

      after :
          (going : is_failed w.phase ≡ false)
          (starts : (start_closing file frame allocator (record w { waker = none })).1 ≡ ok tt)
          (h' : Holding law file max_retries P true s
            (start_closing file frame allocator (record w { waker = none })).0)
          (outcome : Outcome E IE)
          → (driven file frame allocator w cx going starts).1 ≡ outcome
          → OutcomeKept file max_retries P true h'.ls
              (start_closing file frame allocator (record w { waker = none })).0.partial
              (driven file frame allocator w cx going starts).0
              (driven file frame allocator w cx going starts).1
          → CloseKept s (poll_close file frame allocator w cx)
      after going starts h' (error x) e k =
          rw (poll_close-error file frame allocator w cx going starts x e)
            (let ((b, same), broken) = rw e at k in (subst Ends (sym same) (of_backend b), broken))
      after going starts h' exhausted e k =
          rw (poll_close-exhausted file frame allocator w cx going starts e)
            (going_on going starts h' (rw e at k))
      after going starts h' done e k =
          let h'' = going_on going starts h' (rw e at k) in
          let v = (driven file frame allocator w cx going starts).0 in
          elim (poll_close-done file frame allocator w cx going starts e) [
            | inl (eq, some_done) ↦ rw eq (h'', λ z. nothing_held v s (ground arith) h'')
            | inr eq ↦ rw eq (waiting-Holding v cx s h'')
          ]

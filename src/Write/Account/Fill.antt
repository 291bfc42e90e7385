-- ===== src/Write/Account/Fill.antt =====
-- src/write.rs: `poll_write` starts and fills the partial frame.
pub mod Start
pub mod Cases
use mathlib.Core.List.{append-nil}
use mathlib.Core.Option.{some-injective}
use carbon_io.Prelude.{
  gather, is_some, ℕ, ◌+◌, ◌≤◌, ◌<◌, ◌≡◌, ◌⊎◌, refl, sym, ap, subst, ◌∙◌, Bool, true, false,
  Bool-cases, Option-cases, List, [], ◌∷◌, ◌++◌, Option, none, some, inl, inr, arith, Result-cases,
  Result, ok, err, Poll, ready, pending,
}
use carbon_io.Errors.{invalid_partial_frame}
use carbon_io.Traits.{WriteFile}
use carbon_io.Budget.{Waker}
use carbon_io.Write.Frames.{PartialFrame, FrameAllocator}
use carbon_io.Write.Contract.{FrameContract}
use carbon_io.Write.Slots.{Slot}
use carbon_io.Write.State.{
  WriteError, input, backend, contract, WriteStatus, WriteScheduler, fail, status, flush_partial,
  wait, is_writing,
}
use carbon_io.Write.Api.{Written, report, filled, fill_partial, start_partial, poll_write}
use carbon_io.Write.Drive.{Outcome, drive, done, error, exhausted}
use carbon_io.Write.Queue.{Kept, concat}
use carbon_io.Write.Account.{Sound, On, reserve}
use carbon_io.Write.Account.Drive.{Broken, fail-Broken, OutcomeKept, drive-Kept}
use carbon_io.Write.Account.Fill.Start.{Started, start_partial-Started}
use carbon_io.Write.Account.Fill.Cases.{
  report-cases, filled_incomplete, filled_empty, filled_complete, fill_partial-none,
  fill_partial-pending, fill_partial-err, fill_partial-ok, refilling, poll_write-error,
  poll_write-exhausted, poll_write-refused, poll_write-fills, starting,
}
use carbon_io.Write.Account.Stream.{
  Carrying, held, Holding, kept-Holding, filled_bytes, flush_partial-Holding,
}

-- The errors that end a scheduler: those of the backend and of the input, and the contract of the
-- partial frames.
pub data Ends {I E : Type 0} : WriteError I E → Type 0 where
  of_backend : (e : E) → Ends (backend e)
  of_input : (e : I) → Ends (input e)
  of_frame : Ends (contract invalid_partial_frame)

-- What an answer says was consumed of the input `i`.
abbrev pub consumed :
    {R I B E : Type 0} → (R → I → List B) → I → Poll (Result (WriteStatus R) E) → List B
consumed part i (ready (ok s)) = elim s.output [ none ↦ [] | some r ↦ part r i ]
consumed part i _ = []

module _ {Q T F E O A I R IE B : Type 0} {frame : PartialFrame Q I R T IE} {content : Q → List B}
    {bytes : T → List B} {part : R → I → List B} (law : FrameContract frame content bytes part)
    (file : WriteFile T F E O) (max_retries : ℕ) (P : Bool → List T → Slot T F O → Type 0) where
  -- A call goes on with what it consumed, or ends the scheduler.
  abbrev pub WriteKept : List B → I → Written Q T F O A E IE (WriteStatus R) → Type 0
  WriteKept s i d = elim d.result [
    | ready (err x) ↦ Ends x × Broken d.scheduler
    | _ ↦ Holding law file max_retries P false (s ++ consumed part i d.result) d.scheduler
  ]

  -- Partial frames only differ in what they hold.
  refilled :
      (w : WriteScheduler Q T F O A) (p q : Q) (s more : List B)
      → w.partial ≡ some p
      → content q ≡ content p ++ more
      → Holding law file max_retries P false s w
      → Carrying law file max_retries P (s ++ more) (record w { partial = some q })
  refilled w p q s more e grows kept =
      let on = kept.on in
      record {
        ls = kept.ls;
        on = record {
          retries = on.retries;
          phased = on.phased;
          each = on.each;
          filled = on.filled;
          bounded = on.bounded;
          current = refl;
          started = λ _. on.started (ap is_some e);
          account =
              let same : reserve max_retries w.files (is_some w.partial) w.fill_index
                  ≡ reserve max_retries w.files true w.fill_index =
                rw e refl in
              omega (arith, on.account, same);
          granted = on.granted;
        };
        same =
            filled_bytes content bytes kept.ls p q s more grows
              (ap (λ o. gather bytes (concat kept.ls) ++ held content o) (sym e) ∙ kept.same);
      }

  -- A frame that can be filled again.
  unfinished :
      (w : WriteScheduler Q T F O A) (p : Q) (s : List B)
      → w.partial ≡ some p
      → law.fillable p
      → Carrying law file max_retries P s w
      → Holding law file max_retries P false s w
  unfinished w p s e more h = record {
    ls = h.ls;
    on = h.on;
    same = h.same;
    fillable = λ q e'. subst law.fillable (some-injective p q (sym e ∙ e')) more;
  }

  waiting :
      (w : WriteScheduler Q T F O A) (cx : Waker) (s : List B)
      → Holding law file max_retries P false s w
      → Holding law file max_retries P false s (wait w cx)
  unfolding wait
  waiting w cx s kept = record {
    ls = kept.ls;
    on = kept.on;
    same = kept.same;
    fillable = kept.fillable;
  }

  nothing_more :
      (w : WriteScheduler Q T F O A) (s : List B)
      → Holding law file max_retries P false s w
      → Holding law file max_retries P false (s ++ []) w
  nothing_more w s kept =
      subst (λ l. Holding law file max_retries P false l w) (sym (append-nil s)) kept

  status-nothing :
      (w : WriteScheduler Q T F O A) (i : I)
      → consumed {E = WriteError IE E} part i (ready (ok (status w none))) ≡ []
  unfolding status
  status-nothing w i = refl

  status-some :
      (w : WriteScheduler Q T F O A) (i : I) (r : R)
      → consumed {E = WriteError IE E} part i (ready (ok (status w (some r)))) ≡ part r i
  unfolding status
  status-some w i r = refl

  module _ (kept : Kept file max_retries P) (allocator : FrameAllocator Q A) (i : I) where
    report-Kept :
        (w : WriteScheduler Q T F O A) (cx : Waker) (s : List B)
        → Holding law file max_retries P false s w
        → WriteKept s i (report file frame allocator w cx)
    report-Kept w cx s h = elim (report-cases file frame allocator w cx) [
      | inl e ↦ rw (e, status-nothing w i) (nothing_more w s h)
      | inr e ↦ rw e (nothing_more (wait w cx) s (waiting w cx s h))
    ]

    filled-Kept :
        (w : WriteScheduler Q T F O A) (p : Q) (r : R) (s : List B)
        → w.partial ≡ some p
        → (frame.is_complete p ≡ false → law.fillable p)
        → Carrying law file max_retries P (s ++ part r i) w
        → WriteKept s i (filled file frame allocator w p r)
    filled-Kept w p r s e more h = elim (Bool-cases (frame.is_complete p)) [
      | inr c ↦
          rw (filled_incomplete file frame allocator w p r c, status-some w i r)
            (unfinished w p (s ++ part r i) e (more c) h)
      | inl c ↦ elim (Bool-cases (frame.is_empty p)) [
        | inl y ↦ rw (filled_empty file frame allocator w p r c y) (of_frame, fail-Broken w)
        | inr n ↦
            let (fine, h') =
              flush_partial-Holding law file max_retries P kept (s ++ part r i) w h in
            rw
              (
                filled_complete file frame allocator w p r c n fine,
                status-some (flush_partial frame {E = E} w).0 i r,
              )
              h'
      ]
    ]

    fill_partial-Kept :
        (w : WriteScheduler Q T F O A) (cx : Waker) (s : List B)
        → Holding law file max_retries P false s w
        → WriteKept s i (fill_partial file frame allocator w cx i)
    fill_partial-Kept w cx s h = elim (Option-cases w.partial) [
      | inl e ↦ rw (fill_partial-none file frame allocator w cx i e) (report-Kept w cx s h)
      | inr (p, e) ↦ go p e (frame.poll_fill p cx i).1 refl
    ]
      where
        go :
            (p : Q) (e : w.partial ≡ some p) (answer : Poll (Result R IE))
            → (frame.poll_fill p cx i).1 ≡ answer
            → WriteKept s i (fill_partial file frame allocator w cx i)
        go p e pending a = rw (fill_partial-pending file frame allocator w cx i p e a) (
            report-Kept (refilling file frame allocator w cx i p e) cx s (
              subst
                (λ l.
                  Holding law file max_retries P false l
                    (refilling file frame allocator w cx i p e))
                (append-nil s)
                (let (same, more) = law.waits p cx i (h.fillable p e) a in
                  unfinished (refilling file frame allocator w cx i p e) (frame.poll_fill p cx i).0
                    (s ++ []) refl more
                    (refilled w p (frame.poll_fill p cx i).0 s [] e
                      (same ∙ sym (append-nil (content p))) h))))
        go p e (ready (err x)) a =
            rw (fill_partial-err file frame allocator w cx i p e x a)
              (of_input x, fail-Broken (refilling file frame allocator w cx i p e))
        go p e (ready (ok r)) a = rw (fill_partial-ok file frame allocator w cx i p e r a) (
            filled-Kept (refilling file frame allocator w cx i p e) (frame.poll_fill p cx i).0 r s
              refl (law.fills p cx i r (h.fillable p e) a).1
              (refilled w p (frame.poll_fill p cx i).0 s (part r i) e
                (law.fills p cx i r (h.fillable p e) a).0 h))

    -- `poll_write` of a scheduler that takes input.
    pub poll_write-Kept :
        (w : WriteScheduler Q T F O A) (cx : Waker) (s : List B)
        → Holding law file max_retries P false s w
        → WriteKept s i (poll_write file frame allocator w cx i)
    poll_write-Kept w cx s h =
        let entered : WriteScheduler Q T F O A = record w { waker = none } in
        driven (drive {I = IE} file entered cx).outcome refl
          (drive-Kept IE file max_retries P kept false h.ls w.partial entered cx h.on)
      where
        writes : is_writing w.phase ≡ true
        writes = ap is_writing h.on.phased

        fills :
            (d : (drive {I = IE} file (record w { waker = none }) cx).outcome ≡ done)
            (result : Result (Unit {0}) (WriteError IE E))
            → (starting file frame allocator w cx i writes d).1 ≡ result
            → Started law file max_retries P allocator s
                (starting file frame allocator w cx i writes d)
            → WriteKept s i (poll_write file frame allocator w cx i)
        fills d (err x) e started =
            rw (poll_write-refused file frame allocator w cx i writes d x e)
              (let (same, broken) = rw e at started in (subst Ends (sym same) of_frame, broken))
        fills d (ok _) e started = rw (poll_write-fills file frame allocator w cx i writes d e) (
            fill_partial-Kept (starting file frame allocator w cx i writes d).0 cx s
              (rw (Started, e) at started))

        driven :
            (outcome : Outcome E IE)
            → (drive {I = IE} file (record w { waker = none }) cx).outcome ≡ outcome
            → OutcomeKept file max_retries P false h.ls w.partial
                (drive {I = IE} file (record w { waker = none }) cx).scheduler
                (drive {I = IE} file (record w { waker = none }) cx).outcome
            → WriteKept s i (poll_write file frame allocator w cx i)
        driven (error x) e k =
            rw (poll_write-error file frame allocator w cx i x writes e) (
              let ((b, same), broken) = rw e at k in (subst Ends (sym same) (of_backend b), broken))
        driven exhausted e k =
            let d = drive {I = IE} file (record w { waker = none }) cx in
            rw (poll_write-exhausted file frame allocator w cx i writes e) (
              nothing_more d.scheduler s (
                kept-Holding law file max_retries P false s h.ls w.partial d.scheduler h.same
                  h.fillable (rw e at k)))
        driven done e k =
            let d = drive {I = IE} file (record w { waker = none }) cx in
            fills e (starting file frame allocator w cx i writes e).1 refl (
              start_partial-Started law file max_retries P allocator s d.scheduler cx (
                kept-Holding law file max_retries P false s h.ls w.partial d.scheduler h.same
                  h.fillable (rw e at k)))

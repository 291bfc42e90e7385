-- ===== src/Write/Account/Drive.antt =====
-- src/write.rs: `drive` keeps the accounts, and an error is one of a backend and leaves nothing.
use carbon_io.Prelude.{
  ℕ, zero, suc, ◌+◌, ◌-◌, ◌%◌, ◌<◌, ◌≡◌, inl, inr, refl, sym, ap, subst, ◌++◌, ◌∙◌, Bool, true,
  false, Bool-cases, Option-cases, Result-cases, List, [], ◌∷◌, Option, none, some, arith, ◌==◌,
  length, length-set, get_elem?, lt-get_elem?, ok,
}
use carbon_io.Traits.{WriteFile}
use carbon_io.Budget.{Waker, shrink_to}
use carbon_io.Write.Slots.{Slot, poll_slot}
use carbon_io.Write.State.{
  WriteError, backend, WriteScheduler, failed, is_closing, shrink_permit, wake, put_slot, fail,
}
use carbon_io.Write.Drive.{
  Pass, swept, stopped, Outcome, done, error, exhausted, release, sweep, drive_loop, max_poll_ops,
  drive,
}
use carbon_io.Write.Steps.{
  turn, moved, polled, stored, next, sweep-error, sweep-unchanged, sweep-stopped, sweep-changed,
}
use carbon_io.Write.Queue.{Kept}
use carbon_io.Write.Account.{phase_of, On, release-On, polled-On}

-- A scheduler that failed holds no slot, no frame and no capacity.
pub record Broken {Q T F O A : Type 0} (w : WriteScheduler Q T F O A) : Type 0 where
  pub phased : w.phase ≡ failed
  pub files : w.files ≡ []
  pub partial : w.partial ≡ none
  pub used : w.used ≡ 0
  pub granted : w.permit.capacity ≡ 0

module _ {Q T F O A : Type 0} (w : WriteScheduler Q T F O A) where
  pub wake-none : w.waker ≡ none → wake w ≡ w
  unfolding wake
  wake-none e = simp (e, wake) refl

  pub wake-some :
      (cx : Waker)
      → w.waker ≡ some cx
      → wake w ≡ (record w { woken = w.woken ++ cx ∷ []; waker = none })
  unfolding wake
  wake-some cx e = simp (e, wake) refl

module _ {Q T F O A : Type 0} (w : WriteScheduler Q T F O A) where
  abbrev cleared : WriteScheduler Q T F O A
  cleared = shrink_permit (record w { phase = failed; files = []; partial = none; used = 0 }) 0

  pub fail-Broken : Broken (fail w)
  unfolding fail shrink_permit wake shrink_to
  fail-Broken = elim (Option-cases w.waker) [
    | inl e ↦
        rw (wake-none cleared e) (record {
          phased = refl;
          files = refl;
          partial = refl;
          used = refl;
          granted = omega arith;
        })
    | inr (cx, e) ↦
        rw (wake-some cleared cx e) (record {
          phased = refl;
          files = refl;
          partial = refl;
          used = refl;
          granted = omega arith;
        })
  ]

module _ {Q T F O A : Type 0} where
  release-files :
      (w : WriteScheduler Q T F O A) (slot : Slot T F O) (changed : Bool) (released : ℕ)
      → (release w slot changed released).files ≡ w.files
  unfolding release shrink_permit
  release-files w slot changed released = ground arith

module _ {T F E O : Type 0} (file : WriteFile T F E O) (max_retries : ℕ) where
  closing_stop :
      (stop : Bool) (slot : Slot T F O) (cx : Waker)
      → poll_slot file slot cx (is_closing (phase_of stop)) max_retries
        ≡ poll_slot file slot cx stop max_retries
  closing_stop true slot cx = refl
  closing_stop false slot cx = refl

module _ {Q T F E O A : Type 0} (file : WriteFile T F E O) (max_retries : ℕ)
    (P : Bool → List T → Slot T F O → Type 0) (stop : Bool) (ls : List (List T))
    (now : Option Q) where
  -- One round of the loop, for a slot that is there.
  next-On :
      Kept file max_retries P
      → (w : WriteScheduler Q T F O A) (slot : Slot T F O) (cx : Waker) (count : ℕ) (changed : Bool)
        (released : ℕ)
      → get_elem? w.files (turn count w) ≡ some slot
      → (polled file w slot cx).result ≡ ok (changed, released)
      → On file max_retries P stop ls now w
      → On file max_retries P stop ls now (next file w slot cx count changed released)
        × (length (next file w slot cx count changed released).files ≡ length w.files)
  next-On kept w slot cx count changed released h eq s =
      let p = poll_slot file slot cx stop max_retries in
      let same : polled file w slot cx ≡ p =
        rw (s.phased, s.retries) (closing_stop file max_retries stop slot cx) in
      let w' : WriteScheduler Q T F O A = put_slot (moved count w) (turn count w) p.slot in
      let ready =
        polled-On file max_retries P stop ls now kept w (turn count w) ((turn count w + 1) % count)
          slot cx changed released h (ap (λ q. q.result) (sym same) ∙ eq) s in
      subst
        (λ q.
          On file max_retries P stop ls now
            (release (put_slot (moved count w) (turn count w) q.slot) q.slot changed released)
          × (length
                (release (put_slot (moved count w) (turn count w) q.slot) q.slot changed
                  released).files
              ≡ length w.files))
        (sym same)
        (
          release-On file max_retries P stop ls now w' p.slot changed released ready,
          ap length (release-files w' p.slot changed released)
              ∙ length-set w.files (turn count w) p.slot,
        )

module _ {Q T F E O A I : Type 0} (file : WriteFile T F E O) (max_retries : ℕ)
    (P : Bool → List T → Slot T F O → Type 0) (stop : Bool) (ls : List (List T))
    (now : Option Q) where
  abbrev pub ErrorKept : WriteScheduler Q T F O A → WriteError I E → Type 0
  ErrorKept w x = ((e : E) × (x ≡ backend e)) × Broken w

  abbrev PassKept : ℕ → Pass Q T F O A E I → Type 0
  PassKept count (swept w left progressed) =
      On file max_retries P stop ls now w × (length w.files ≡ count)
  PassKept count (stopped w) = On file max_retries P stop ls now w
  PassKept count (Pass.failed w x) = ErrorKept w x

  abbrev pub OutcomeKept : WriteScheduler Q T F O A → Outcome E I → Type 0
  OutcomeKept w done = On file max_retries P stop ls now w
  OutcomeKept w exhausted = On file max_retries P stop ls now w
  OutcomeKept w (error x) = ErrorKept w x

module _ {Q T F E O A : Type 0} (I : Type 0) (file : WriteFile T F E O) (max_retries : ℕ)
    (P : Bool → List T → Slot T F O → Type 0) (kept : Kept file max_retries P) (stop : Bool)
    (ls : List (List T)) (now : Option Q) where
  sweep-PassKept :
      (rounds count : ℕ) (w : WriteScheduler Q T F O A) (cx : Waker) (remaining : ℕ)
      (progressed : Bool)
      → 0 < count
      → length w.files ≡ count
      → On file max_retries P stop ls now w
      → PassKept {I = I} file max_retries P stop ls now count
          (sweep file rounds count w cx remaining progressed)
  unfolding sweep
  sweep-PassKept zero count w cx remaining progressed pos same s = (s, same)
  sweep-PassKept (suc rounds) count w cx remaining progressed pos same s =
      let (slot, h) = lt-get_elem? w.files (turn count w) (omega arith) in
      elim (Result-cases (polled file w slot cx).result) [
        | inr (x, eq) ↦
            rw (sweep-error {I = I} file rounds count w cx remaining progressed slot h x eq)
              ((x, refl), fail-Broken (stored file w slot cx count))
        | inl ((false, released), eq) ↦
            let (s', same') =
              next-On file max_retries P stop ls now kept w slot cx count false released h eq s in
            rw
              (sweep-unchanged {I = I} file rounds count w cx remaining progressed slot h released
                eq)
              (sweep-PassKept rounds count (next file w slot cx count false released) cx remaining
                progressed pos (same' ∙ same) s')
        | inl ((true, released), eq) ↦
            let (s', same') =
              next-On file max_retries P stop ls now kept w slot cx count true released h eq s in
            elim (Bool-cases (remaining - 1 == 0)) [
              | inl z ↦
                  rw
                    (sweep-stopped {I = I} file rounds count w cx remaining progressed slot h
                      released eq z)
                    s'
              | inr z ↦
                  rw
                    (sweep-changed {I = I} file rounds count w cx remaining progressed slot h
                      released eq z)
                    (sweep-PassKept rounds count (next file w slot cx count true released) cx
                      (remaining - 1) true pos (same' ∙ same) s')
            ]
      ]

  drive_loop-Kept :
      (fuel : ℕ) (w : WriteScheduler Q T F O A) (cx : Waker) (remaining : ℕ)
      → 0 < length w.files
      → On file max_retries P stop ls now w
      → let d = drive_loop {I = I} file fuel w cx remaining in
        OutcomeKept file max_retries P stop ls now d.scheduler d.outcome
  unfolding drive_loop
  drive_loop-Kept zero w cx remaining pos s = s
  drive_loop-Kept (suc fuel) w cx remaining pos s =
      after (sweep {I = I} file (length w.files) (length w.files) w cx remaining false) refl
        (sweep-PassKept (length w.files) (length w.files) w cx remaining false pos refl s)
        (λ w' left pos' s'. drive_loop-Kept fuel w' cx left pos' s')
    where
      after :
          (found : Pass Q T F O A E I)
          → sweep file (length w.files) (length w.files) w cx remaining false ≡ found
          → PassKept file max_retries P stop ls now (length w.files) found
          → ((w' : WriteScheduler Q T F O A) (left : ℕ)
              → 0 < length w'.files
              → On file max_retries P stop ls now w'
              → let d = drive_loop {I = I} file fuel w' cx left in
                OutcomeKept file max_retries P stop ls now d.scheduler d.outcome)
          → let d = drive_loop {I = I} file (suc fuel) w cx remaining in
            OutcomeKept file max_retries P stop ls now d.scheduler d.outcome
      after (Pass.failed w' x) eq k ih = rw (eq, drive_loop) k
      after (stopped w') eq k ih = rw (eq, drive_loop) k
      after (swept w' left false) eq (s', same) ih = rw (eq, drive_loop) s'
      after (swept w' left true) eq (s', same) ih =
          rw (eq, drive_loop) (ih w' left (omega (arith, same, pos)) s')

  -- A whole call of `drive`.
  pub drive-Kept :
      (w : WriteScheduler Q T F O A) (cx : Waker)
      → On file max_retries P stop ls now w
      → let d = drive {I = I} file w cx in
        OutcomeKept file max_retries P stop ls now d.scheduler d.outcome
  unfolding drive
  drive-Kept w cx s = elim (Bool-cases (length w.files == 0)) [
    | inl e ↦ rw e s
    | inr e ↦ rw e (drive_loop-Kept (suc max_poll_ops) w cx max_poll_ops (ground arith) s)
  ]

-- ===== src/Write/Account/Calls.antt =====
-- src/write.rs: the calls that admit and return files, and the window.
pub mod Cases
pub mod Slots
pub mod Adjust
use mathlib.Core.List.{append_assoc, append-nil}
use carbon_io.Prelude.{
  Bool-cases, ◌==◌, ◌||◌, ℕ, ◌+◌, ◌-◌, ◌≤◌, ◌<◌, ◌≡◌, ◌⊎◌, refl, sym, ap, subst, ◌∙◌, Bool, true,
  false, Option-cases, List, [], ◌∷◌, ◌++◌, Option, none, some, inl, inr, arith, min, max, gather,
  gather-append, Result, ok, err,
}
use carbon_io.Config.{Window, validate}
use carbon_io.Traits.{WriteFile}
use carbon_io.Write.Frames.{PartialFrame}
use carbon_io.Write.Contract.{FrameContract}
use carbon_io.Write.Slots.{Slot, closed, new_slot}
use carbon_io.Write.State.{WriteError, contract, WriteScheduler, shrink_permit, wake, set_window}
use carbon_io.Write.Api.{push_file, pop_swap, pop_file}
use carbon_io.Write.Queue.{Kept, concat, concat-append}
use carbon_io.Write.Account.{Sound, On, shrink_permit-On, phase_of}
use carbon_io.Write.Account.Drive.{wake-none, wake-some}
use carbon_io.Write.Account.Stream.{held, Holding, shrink_permit-Holding}
use carbon_io.Write.Account.Calls.Cases.{
  pushed, push_file-cases, behind, Head, swapped, pop_swap-cases, pop_file-cases,
}
use carbon_io.Write.Account.Calls.Adjust.{set_window-cases}
use carbon_io.Write.Account.Calls.Slots.{pushed-On, swapped-Sound, behind-Sound}

-- The close results that the calls return.
abbrev pub swap_output : {F O X : Type 0} → Result (F × O) X → Option O
swap_output (ok (f, o)) = some o
swap_output (err e) = none

abbrev pub pop_output : {F O X : Type 0} → Result (Option (F × O)) X → Option O
pop_output (ok (some (f, o))) = some o
pop_output _ = none

module _ {Q T F O B : Type 0} (content : Q → List B) (bytes : T → List B)
    (P : Bool → List T → Slot T F O → Type 0) (wrote : O → List B)
    (closes : (stop : Bool) (all : List T) (slot : Slot T F O) (o : O)
      → slot.state ≡ closed o
      → P stop all slot
      → gather bytes all ≡ wrote o) where
  -- The result stands for the frames of the head, the first of those that are held.
  head-bytes :
      (stop : Bool) (all : List T) (ls ls' : List (List T)) (slot : Slot T F O) (o : O)
      (p : Option Q) (s : List B)
      → ls ≡ all ∷ ls'
      → slot.state ≡ closed o
      → P stop all slot
      → gather bytes (concat ls) ++ held content p ≡ s
      → s ≡ wrote o ++ (gather bytes (concat ls') ++ held content p)
  head-bytes stop all ls ls' slot o p s split e holds same =
      sym same
      ∙ ap (λ l. gather bytes (concat l) ++ held content p) split
      ∙ ap (λ xs. xs ++ held content p) (gather-append bytes all (concat ls'))
      ∙ append_assoc (gather bytes all) (gather bytes (concat ls')) (held content p)
      ∙ ap (λ xs. xs ++ (gather bytes (concat ls') ++ held content p))
          (closes stop all slot o e holds)

module _ {Q T F E O A I R IE B : Type 0} {frame : PartialFrame Q I R T IE} {content : Q → List B}
    {bytes : T → List B} {part : R → I → List B} (law : FrameContract frame content bytes part)
    (file : WriteFile T F E O) (max_retries : ℕ) (P : Bool → List T → Slot T F O → Type 0) where
  pub wake-Holding :
      (stop : Bool) (s : List B) (w : WriteScheduler Q T F O A)
      → Holding law file max_retries P stop s w
      → Holding law file max_retries P stop s (wake w)
  wake-Holding stop s w h = elim (Option-cases w.waker) [
    | inl e ↦ rw (wake-none w e) h
    | inr (cx, e) ↦
        rw (wake-some w cx e)
          (record { ls = h.ls; on = h.on; same = h.same; fillable = h.fillable })
  ]

  pub set_window-Holding :
      (stop : Bool) (s : List B) (w : WriteScheduler Q T F O A) (window : Window)
      → Holding law file max_retries P stop s w
      → Holding law file max_retries P stop s (set_window w window).0
  set_window-Holding stop s w window h = elim (set_window-cases w window) [
    | inl e ↦ rw e h
    | inr (size, le, e) ↦
        let v : WriteScheduler Q T F O A = record w {
          config = record w.config { window = window };
        } in
        rw e (
          wake-Holding stop s (shrink_permit v (min w.permit.capacity size)) (
            shrink_permit-Holding law file max_retries P stop s v (min w.permit.capacity size)
              (omega (arith, h.on.granted))
              (record { ls = h.ls; on = h.on; same = h.same; fillable = h.fillable })))
  ]

  module _ (kept : Kept file max_retries P) where
    pub push_file-Holding :
        (X : Type 0) (s : List B) (w : WriteScheduler Q T F O A) (f : F)
        → Holding law file max_retries P false s w
        → Holding law file max_retries P false s (push_file {I = X} file w f).0
    push_file-Holding X s w f h = elim (push_file-cases file w f X) [
      | inl (c, e) ↦ rw e h
      | inr (writes, pos, e) ↦ rw e (
          wake-Holding false s (pushed file w f) (record {
            ls = h.ls ++ [] ∷ [];
            on = pushed-On file max_retries P kept h.ls w.partial w f pos h.on;
            same =
                ap (λ l. gather bytes l ++ held content w.partial)
                  (concat-append h.ls [] ∙ append-nil (concat h.ls))
                ∙ h.same;
            fillable = h.fillable;
          }))
    ]

  module _ (kept : Kept file max_retries P) (wrote : O → List B)
      (closes : (stop : Bool) (all : List T) (slot : Slot T F O) (o : O)
        → slot.state ≡ closed o
        → P stop all slot
        → gather bytes all ≡ wrote o) where
    -- A call that returns a result takes it from the front; any other changes nothing.
    abbrev pub Popped : Bool → List B → Option O → WriteScheduler Q T F O A → Type 0
    Popped stop s none w = Holding law file max_retries P stop s w
    Popped stop s (some o) w =
        (s' : List B) × (s ≡ wrote o ++ s') × Holding law file max_retries P stop s' w

    pub pop_swap-Popped :
        (X : Type 0) (s : List B) (w : WriteScheduler Q T F O A) (f : F)
        → Holding law file max_retries P false s w
        → let d = pop_swap {I = X} file w f in Popped false s (swap_output d.1) d.0
    pop_swap-Popped X s w f h = elim (pop_swap-cases file w X f) [
      | inl (c, e) ↦ rw e h
      | inr (slot, rest, output, head, writes, pos, e) ↦
          let (all, ls', split, holds, on) =
            swapped-Sound file max_retries P kept h.ls w.partial w.config.max_retries w.phase slot
              rest output f w.partial w.used w.fill_index w.permit.capacity pos head.state
              (subst
                (λ fs.
                  Sound file max_retries P false h.ls w.partial w.config.max_retries w.phase fs
                    w.partial w.used w.fill_index w.permit.capacity)
                head.files h.on) in
          rw e (
            gather bytes (concat ls') ++ held content w.partial,
            head-bytes content bytes P wrote closes false all h.ls ls' slot output w.partial s split
                head.state holds h.same,
            wake-Holding false (gather bytes (concat ls') ++ held content w.partial)
                (swapped file w slot rest f)
                (record {
                  ls = ls' ++ [] ∷ [];
                  on = on;
                  same =
                      ap (λ l. gather bytes l ++ held content w.partial)
                        (concat-append ls' [] ∙ append-nil (concat ls'));
                  fillable = h.fillable;
                }),
          )
    ]

    pub pop_file-Popped :
        (X : Type 0) (stop : Bool) (s : List B) (w : WriteScheduler Q T F O A)
        → Holding law file max_retries P stop s w
        → let d = pop_file {I = X} file w in Popped stop s (pop_output d.1) d.0
    pop_file-Popped X stop s w h = elim (pop_file-cases file w X) [
      | inl (c, e) ↦ rw e h
      | inr (inl e) ↦ rw e h
      | inr (inr (slot, rest, output, head, closes_now, e)) ↦
          let (all, ls', split, (holds, sized), on) =
            behind-Sound file max_retries P stop h.ls w.partial w.config.max_retries w.phase slot
              rest output w.partial w.used w.fill_index w.permit.capacity head.state
              (subst
                (λ fs.
                  Sound file max_retries P stop h.ls w.partial w.config.max_retries w.phase fs
                    w.partial w.used w.fill_index w.permit.capacity)
                head.files h.on) in
          rw e (
            gather bytes (concat ls') ++ held content w.partial,
            head-bytes content bytes P wrote closes stop all h.ls ls' slot output w.partial s split
                head.state holds h.same,
            wake-Holding stop (gather bytes (concat ls') ++ held content w.partial) (behind w rest)
                (record { ls = ls'; on = on; same = refl; fillable = h.fillable }),
          )
    ]

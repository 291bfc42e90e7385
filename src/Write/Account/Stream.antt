-- ===== src/Write/Account/Stream.antt =====
-- src/write.rs: what a scheduler holds of its input, from the frames of its slots to the partial frame.
use mathlib.Core.List.{append_assoc, append-nil}
use carbon_io.Prelude.{
  ℕ, ◌≤◌, ◌≡◌, refl, sym, ap, subst, ◌∙◌, Bool, false, Bool-cases, List, [], ◌++◌, Option, none,
  some, inl, inr, gather, gather-append, ok,
}
use carbon_io.Traits.{WriteFile}
use carbon_io.Write.Frames.{PartialFrame}
use carbon_io.Write.Contract.{FrameContract}
use carbon_io.Write.Slots.{Slot}
use carbon_io.Write.State.{WriteScheduler, flush_partial, shrink_permit}
use carbon_io.Write.Queue.{Kept, concat}
use carbon_io.Write.Account.{Sound, On, shrink_permit-On}
use carbon_io.Write.Account.Flush.{handed, flush_partial-Flushed}

-- What the partial frame holds.
abbrev pub held : {Q B : Type 0} → (Q → List B) → Option Q → List B
held content none = []
held content (some p) = content p

-- A fill appends what it consumed.
pub filled_bytes :
    {Q T B : Type 0} (content : Q → List B) (bytes : T → List B) (ls : List (List T)) (p q : Q)
    (s more : List B)
    → content q ≡ content p ++ more
    → gather bytes (concat ls) ++ content p ≡ s
    → gather bytes (concat ls) ++ content q ≡ s ++ more
filled_bytes content bytes ls p q s more e same =
    ap (λ xs. gather bytes (concat ls) ++ xs) e
    ∙ sym (append_assoc (gather bytes (concat ls)) (content p) more)
    ∙ ap (λ xs. xs ++ more) same

module _ {Q T I R IE B : Type 0} {frame : PartialFrame Q I R T IE} {content : Q → List B}
    {bytes : T → List B} {part : R → I → List B}
    (law : FrameContract frame content bytes part) where
  bytes-handed : (p : Option Q) → gather bytes (handed frame p) ≡ held content p
  bytes-handed none = refl
  bytes-handed (some p) = elim (Bool-cases (frame.is_empty p)) [
    | inl e ↦ rw e (sym (law.empty p e))
    | inr e ↦ rw e (append-nil (bytes (frame.finish p)) ∙ law.finishes p e)
  ]

  -- A flush moves what the partial frame holds to the frames of the slots.
  pub flush_partial-bytes :
      (ls ls' : List (List T)) (p : Option Q) (s : List B)
      → concat ls' ≡ concat ls ++ handed frame p
      → gather bytes (concat ls) ++ held content p ≡ s
      → gather bytes (concat ls') ++ held content none ≡ s
  flush_partial-bytes ls ls' p s longer same =
      append-nil (gather bytes (concat ls'))
      ∙ ap (gather bytes) longer
      ∙ gather-append bytes (concat ls) (handed frame p)
      ∙ ap (λ xs. gather bytes (concat ls) ++ xs) (bytes-handed p)
      ∙ same

module _ {Q T F E O A I R IE B : Type 0} {frame : PartialFrame Q I R T IE} {content : Q → List B}
    {bytes : T → List B} {part : R → I → List B} (law : FrameContract frame content bytes part)
    (file : WriteFile T F E O) (max_retries : ℕ) (P : Bool → List T → Slot T F O → Type 0) where
  -- The scheduler is sound, and holds `s` of its input.
  pub record Holding (stop : Bool) (s : List B) (w : WriteScheduler Q T F O A) : Type 0 where
    pub ls : List (List T)
    pub on : On file max_retries P stop ls w.partial w
    pub same : gather bytes (concat ls) ++ held content w.partial ≡ s
    pub fillable : (p : Q) → w.partial ≡ some p → law.fillable p

  -- The same of a scheduler whose partial frame may be complete.
  pub record Carrying (s : List B) (w : WriteScheduler Q T F O A) : Type 0 where
    pub ls : List (List T)
    pub on : On file max_retries P false ls w.partial w
    pub same : gather bytes (concat ls) ++ held content w.partial ≡ s

  -- The partial frame may be written for what is known of it.
  pub kept-Holding :
      (stop : Bool) (s : List B) (ls : List (List T)) (p : Option Q) (w : WriteScheduler Q T F O A)
      → gather bytes (concat ls) ++ held content p ≡ s
      → ((q : Q) → p ≡ some q → law.fillable q)
      → On file max_retries P stop ls p w
      → Holding stop s w
  kept-Holding stop s ls p w same fits_more on = record {
    ls = ls;
    on = subst (λ q. On file max_retries P stop ls q w) (sym on.current) on;
    same = ap (λ q. gather bytes (concat ls) ++ held content q) on.current ∙ same;
    fillable = λ q e. fits_more q (sym on.current ∙ e);
  }

  -- `flush_partial` while input goes on.
  pub flush_partial-Holding :
      Kept file max_retries P
      → (s : List B) (w : WriteScheduler Q T F O A) → Carrying s w
      → let d = flush_partial frame {E = E} w in (d.1 ≡ ok tt) × Holding false s d.0
  flush_partial-Holding kept s w h =
      let d = flush_partial frame {E = E} w in
      let start =
        subst
          (λ ph.
            Sound file max_retries P false h.ls w.partial w.config.max_retries ph w.files w.partial
              w.used w.fill_index w.permit.capacity)
          h.on.phased h.on in
      let (fine, phase, ls', s', longer) =
        flush_partial-Flushed frame file max_retries P kept h.ls w.partial w start in
      let on' : On file max_retries P false ls' none d.0 =
        subst
          (λ ph.
            Sound file max_retries P false ls' none d.0.config.max_retries ph d.0.files d.0.partial
              d.0.used d.0.fill_index d.0.permit.capacity)
          (sym (phase ∙ h.on.phased)) s' in
      (
        fine,
        record {
          ls = ls';
          on = subst (λ p. On file max_retries P false ls' p d.0) (sym s'.current) on';
          same =
              ap (λ p. gather bytes (concat ls') ++ held content p) s'.current
              ∙ flush_partial-bytes law h.ls ls' w.partial s longer h.same;
          fillable = λ q e. let none_left = sym s'.current ∙ e in cc;
        },
      )

  pub shrink_permit-Holding :
      (stop : Bool) (s : List B) (w : WriteScheduler Q T F O A) (size : ℕ)
      → w.used ≤ size
      → Holding stop s w
      → Holding stop s (shrink_permit w size)
  unfolding shrink_permit
  shrink_permit-Holding stop s w size le h = record {
    ls = h.ls;
    on = shrink_permit-On file max_retries P stop h.ls w.partial w size le h.on;
    same = h.same;
    fillable = h.fillable;
  }

-- ===== src/Write/Account/Flush.antt =====
-- src/write.rs: `flush_partial` hands the partial frame to the slot that is being filled.
use mathlib.Core.List.{append-nil}
use carbon_io.Prelude.{
  ℕ, ◌+◌, ◌<◌, ◌≡◌, inl, inr, refl, sym, ap, subst, ◌∙◌, Bool, true, false, Bool-cases,
  Option-cases, List, [], ◌∷◌, ◌++◌, Option, none, some, is_some, arith, if◌then◌else◌, length,
  length-append, length-set, get_elem?, lt-get_elem?, get_elem?-lt, set, sum_of-set, Result, ok,
  saturating_sub,
}
use carbon_io.Traits.{WriteFile}
use carbon_io.Write.Frames.{PartialFrame, len, push}
use carbon_io.Write.Slots.{Slot}
use carbon_io.Write.State.{
  WriteError, writing, WriteScheduler, add_frame, discarded, assign, flush_partial,
}
use carbon_io.Write.Sized.{Sized, cost, add_frame-Sized}
use carbon_io.Write.Queue.{Kept, concat, Filled-fill}
use carbon_io.Write.Queue.Each.{Each-get, Each-set, Each-positive, concat-fill}
use carbon_io.Write.Account.{share, reserve, Sound}

module _ {T F E O : Type 0} (file : WriteFile T F E O) (max_retries : ℕ) where
  -- A frame costs what its partial frame had reserved.
  add_frame-cost :
      (n : ℕ) (slot : Slot T F O) (frame : T)
      → slot.assigned < slot.capacity
      → Sized max_retries false n slot
      → cost max_retries (add_frame slot frame)
        ≡ cost max_retries slot + share max_retries (some slot)
  unfolding add_frame push cost len
  add_frame-cost n slot frame room s = grind (arith, length-append)

module _ {Q T F E O A : Type 0} (file : WriteFile T F E O) (max_retries : ℕ)
    (P : Bool → List T → Slot T F O → Type 0) where
  -- The scheduler's accounts while input goes on, or while its end is being handled.
  abbrev pub Filling : List (List T) → Option Q → WriteScheduler Q T F O A → Type 0
  Filling ls now w =
      Sound file max_retries P false ls now w.config.max_retries writing w.files w.partial w.used
        w.fill_index w.permit.capacity

  assign-Filling :
      Kept file max_retries P
      → (ls : List (List T)) (now : Option Q) (w : WriteScheduler Q T F O A) (slot : Slot T F O)
        (partial : Q) (frame : T)
      → w.partial ≡ some partial
      → get_elem? w.files w.fill_index ≡ some slot
      → Filling ls now w
      → (ls' : List (List T)) × Filling ls' none (assign (record w { partial = none }) slot frame)
        × (concat ls' ≡ concat ls ++ frame ∷ [])
  unfolding assign add_frame
  assign-Filling kept ls now w slot partial frame held h s =
      let fill = w.fill_index in
      let slot' : Slot T F O = add_frame slot frame in
      let (all, at, (sized, holds)) =
        Each-get file max_retries P false ls w.files fill slot s.each h in
      let filled = s.filled refl in
      let room = (filled fill slot h).1 refl in
      let added = add_frame-Sized file max_retries (length all) slot frame room sized in
      let long : length (all ++ frame ∷ []) ≡ length all + 1 = length-append all (frame ∷ []) in
      let sum = sum_of-set (cost max_retries) w.files fill slot slot' h in
      let own = add_frame-cost file max_retries (length all) slot frame room sized in
      let reserved : reserve max_retries w.files (is_some w.partial) fill
          ≡ share max_retries (some slot) =
        rw (held, h) refl in
      (
        set ls fill (all ++ frame ∷ []),
        record {
          retries = s.retries;
          phased = refl;
          each =
              Each-set file max_retries P false ls w.files fill (all ++ frame ∷ []) slot' s.each (
                subst (λ n. Sized max_retries false n slot') (sym long) added,
                kept.assigns all slot frame room sized holds,
              );
          filled = λ e.
              Filled-fill fill w.files slot slot' h refl refl
                (λ i x hx. Each-positive file max_retries P false ls w.files i x s.each hx) filled;
          bounded =
              λ e. ground (arith, length-set w.files fill slot', get_elem?-lt w.files fill slot h);
          current = refl;
          started = λ e. cc;
          account = omega (arith, s.account, sum, own, reserved);
          granted = s.granted;
        },
        concat-fill file max_retries P fill ls w.files all frame s.each filled at,
      )

  -- The partial frame may be written for `now`.
  pub settle-Filling :
      (ls : List (List T)) (now : Option Q) (w : WriteScheduler Q T F O A) (partial : Option Q)
      → w.partial ≡ partial
      → Filling ls now w
      → Sound file max_retries P false ls partial w.config.max_retries writing w.files partial
          w.used w.fill_index w.permit.capacity
  settle-Filling ls now w partial e s =
      subst
        (λ p.
          Sound file max_retries P false ls p w.config.max_retries writing w.files p w.used
            w.fill_index w.permit.capacity)
        e (subst (λ n. Filling ls n w) (sym s.current) s)

  -- An empty partial frame is dropped, and what it had reserved is free again.
  discard-Filling :
      (ls : List (List T)) (now : Option Q) (w : WriteScheduler Q T F O A) (slot : Slot T F O)
      (partial : Q)
      → w.partial ≡ some partial
      → get_elem? w.files w.fill_index ≡ some slot
      → Filling ls now w
      → Filling ls none
          (record w { partial = none; used = saturating_sub w.used (discarded w slot) })
  unfolding discarded
  discard-Filling ls now w slot partial held h s =
      let reserved : reserve max_retries w.files (is_some w.partial) w.fill_index
          ≡ share max_retries (some slot) =
        rw (held, h) refl in
      let same : discarded w slot ≡ share max_retries (some slot) = rw s.retries refl in
      record {
        retries = s.retries;
        phased = refl;
        each = s.each;
        filled = s.filled;
        bounded = s.bounded;
        current = refl;
        started = λ e. cc;
        account = omega (arith, s.account, reserved, same);
        granted = omega (arith, s.granted);
      }

module _ {Q T I R IE : Type 0} (frame : PartialFrame Q I R T IE) where
  -- The frame that `flush_partial` hands over, if there is one that is not empty.
  abbrev pub handed : Option Q → List T
  handed none = []
  handed (some partial) = if frame.is_empty partial then [] else frame.finish partial ∷ []

  handed_empty :
      (held : Option Q) (partial : Q)
      → held ≡ some partial
      → frame.is_empty partial ≡ true
      → handed held ≡ []
  handed_empty held partial e empty = ground arith

  pub handed_full :
      (held : Option Q) (partial : Q)
      → held ≡ some partial
      → frame.is_empty partial ≡ false
      → handed held ≡ frame.finish partial ∷ []
  handed_full held partial e full = ground arith

module _ {Q T F E O A I R IE : Type 0} (frame : PartialFrame Q I R T IE) (file : WriteFile T F E O)
    (max_retries : ℕ) (P : Bool → List T → Slot T F O → Type 0) where
  abbrev pub Flushed :
      List (List T)
      → WriteScheduler Q T F O A
      → WriteScheduler Q T F O A × Result (Unit {0}) (WriteError IE E)
      → Type 0
  Flushed ls w d =
      (d.1 ≡ ok tt)
      × (d.0.phase ≡ w.phase)
      × (ls' : List (List T)) × Filling file max_retries P ls' none d.0
      × (concat ls' ≡ concat ls ++ handed frame w.partial)

  module _ (w : WriteScheduler Q T F O A) (partial : Q) (slot : Slot T F O)
      (held : w.partial ≡ some partial) (there : get_elem? w.files w.fill_index ≡ some slot) where
    flush_partial-empty :
        frame.is_empty partial ≡ true
        → flush_partial frame {E = E} w
          ≡ (record w { partial = none; used = saturating_sub w.used (discarded w slot) }, ok tt)
    unfolding flush_partial
    flush_partial-empty empty = ground arith

    flush_partial-full :
        frame.is_empty partial ≡ false
        → flush_partial frame {E = E} w
          ≡ (assign (record w { partial = none }) slot (frame.finish partial), ok tt)
    unfolding flush_partial
    flush_partial-full full = ground arith

  flush_partial-none :
      (w : WriteScheduler Q T F O A) → w.partial ≡ none → flush_partial frame {E = E} w ≡ (w, ok tt)
  unfolding flush_partial
  flush_partial-none w e = ground arith

  assign-phase :
      (w : WriteScheduler Q T F O A) (slot : Slot T F O) (x : T) → (assign w slot x).phase ≡ w.phase
  unfolding assign
  assign-phase w slot x = refl

  -- `flush_partial` always finds the slot: the frame joins the end of the stream.
  pub flush_partial-Flushed :
      Kept file max_retries P
      → (ls : List (List T)) (now : Option Q) (w : WriteScheduler Q T F O A)
      → Filling file max_retries P ls now w
      → Flushed ls w (flush_partial frame {E = E} w)
  flush_partial-Flushed kept ls now w s = elim (Option-cases w.partial) [
    | inl e ↦ rw (flush_partial-none w e) (
      refl,
      refl,
      ls,
      subst (λ n. Filling file max_retries P ls n w) (sym s.current ∙ e) s,
      sym (append-nil (concat ls)) ∙ ap (λ p. concat ls ++ handed frame p) (sym e),
    )
    | inr (partial, e) ↦
        let (slot, h) = lt-get_elem? w.files w.fill_index (s.started (ap is_some e)).1 in
        elim (Bool-cases (frame.is_empty partial)) [
          | inl empty ↦ rw (flush_partial-empty w partial slot e h empty) (
            refl,
            refl,
            ls,
            discard-Filling file max_retries P ls now w slot partial e h s,
            sym (append-nil (concat ls))
                ∙ ap (λ xs. concat ls ++ xs) (sym (handed_empty frame w.partial partial e empty)),
          )
          | inr full ↦
              let (ls', s', longer) =
                assign-Filling file max_retries P kept ls now w slot partial (frame.finish partial)
                  e h s in
              rw (flush_partial-full w partial slot e h full) (
                refl,
                assign-phase (record w { partial = none }) slot (frame.finish partial),
                ls',
                s',
                longer
                    ∙ ap (λ xs. concat ls ++ xs) (sym (handed_full frame w.partial partial e full)),
              )
        ]
  ]

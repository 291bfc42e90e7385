-- ===== src/Write/Queue/Each.antt =====
-- src/write.rs: every slot of the queue stands for the frames that were assigned to it.
use mathlib.Core.List.{append_assoc, append-nil}
use mathlib.Core.Option.{some-injective}
use carbon_io.Prelude.{
  ℕ, zero, suc, ◌<◌, ◌≡◌, refl, sym, ap, subst, ◌∙◌, Bool, true, false, List, [], ◌∷◌, ◌++◌, some,
  arith, length, get_elem?, set,
}
use carbon_io.Traits.{WriteFile}
use carbon_io.Write.Slots.{Slot}
use carbon_io.Write.Sized.{Sized}
use carbon_io.Write.Queue.{Kept, concat, Filled}

module _ {T F E O : Type 0} (file : WriteFile T F E O) (max_retries : ℕ)
    (P : Bool → List T → Slot T F O → Type 0) where
  -- What is known of a slot that stands for the frames `all`.
  abbrev pub Stands : Bool → List T → Slot T F O → Type 0
  Stands stop all slot = Sized max_retries stop (length all) slot × P stop all slot

  abbrev pub Each : Bool → List (List T) → List (Slot T F O) → Type 0
  Each stop [] [] = Unit {0}
  Each stop (all ∷ ls) (slot ∷ files) = Stands stop all slot × Each stop ls files
  Each stop [] (slot ∷ files) = ⊥
  Each stop (all ∷ ls) [] = ⊥

  pub Each-get :
      (stop : Bool) (ls : List (List T)) (files : List (Slot T F O)) (i : ℕ) (slot : Slot T F O)
      → Each stop ls files
      → get_elem? files i ≡ some slot
      → (all : List T) × (get_elem? ls i ≡ some all) × Stands stop all slot
  Each-get stop [] [] i slot each h = cc
  Each-get stop [] (x ∷ files) i slot each h = elim each [ ]
  Each-get stop (all ∷ ls) [] i slot each h = elim each [ ]
  Each-get stop (all ∷ ls) (x ∷ files) zero slot (s, each) h =
      (all, refl, subst (Stands stop all) (some-injective x slot h) s)
  Each-get stop (all ∷ ls) (x ∷ files) (suc i) slot (s, each) h =
      Each-get stop ls files i slot each h

  pub Each-set :
      (stop : Bool) (ls : List (List T)) (files : List (Slot T F O)) (i : ℕ) (all : List T)
      (slot : Slot T F O)
      → Each stop ls files
      → Stands stop all slot
      → Each stop (set ls i all) (set files i slot)
  Each-set stop [] [] i all slot each s = tt
  Each-set stop [] (x ∷ files) i all slot each s = elim each [ ]
  Each-set stop (l ∷ ls) [] i all slot each s = elim each [ ]
  Each-set stop (l ∷ ls) (x ∷ files) zero all slot (_, each) s = (s, each)
  Each-set stop (l ∷ ls) (x ∷ files) (suc i) all slot (k, each) s =
      (k, Each-set stop ls files i all slot each s)

  pub Each-keep :
      (stop : Bool) (ls : List (List T)) (files : List (Slot T F O)) (i : ℕ) (all : List T)
      (slot : Slot T F O)
      → Each stop ls files
      → get_elem? ls i ≡ some all
      → Stands stop all slot
      → Each stop ls (set files i slot)
  Each-keep stop [] [] i all slot each h s = tt
  Each-keep stop [] (x ∷ files) i all slot each h s = elim each [ ]
  Each-keep stop (l ∷ ls) [] i all slot each h s = elim each [ ]
  Each-keep stop (l ∷ ls) (x ∷ files) zero all slot (_, each) h s =
      (subst (λ k. Stands stop k slot) (sym (some-injective l all h)) s, each)
  Each-keep stop (l ∷ ls) (x ∷ files) (suc i) all slot (k, each) h s =
      (k, Each-keep stop ls files i all slot each h s)

  pub Each-append :
      (stop : Bool) (ls : List (List T)) (files : List (Slot T F O)) (all : List T)
      (slot : Slot T F O)
      → Each stop ls files
      → Stands stop all slot
      → Each stop (ls ++ all ∷ []) (files ++ slot ∷ [])
  Each-append stop [] [] all slot each s = (s, tt)
  Each-append stop [] (x ∷ files) all slot each s = elim each [ ]
  Each-append stop (l ∷ ls) [] all slot each s = elim each [ ]
  Each-append stop (l ∷ ls) (x ∷ files) all slot (k, each) s =
      (k, Each-append stop ls files all slot each s)

  pub Each-positive :
      (stop : Bool) (ls : List (List T)) (files : List (Slot T F O)) (i : ℕ) (slot : Slot T F O)
      → Each stop ls files
      → get_elem? files i ≡ some slot
      → 0 < slot.capacity
  Each-positive stop ls files i slot each h =
      let (all, at, stands) = Each-get stop ls files i slot each h in stands.0.positive

  -- When input ends.
  pub Each-stop :
      Kept file max_retries P
      → (ls : List (List T)) (files : List (Slot T F O)) → Each false ls files
      → Each true ls files
  Each-stop kept [] [] each = tt
  Each-stop kept [] (x ∷ files) each = elim each [ ]
  Each-stop kept (l ∷ ls) [] each = elim each [ ]
  Each-stop kept (l ∷ ls) (x ∷ files) ((s, p), each) = (
    (
      record {
        counted = s.counted;
        positive = s.positive;
        within = s.within;
        retried = s.retried;
        unused = s.unused;
        idles = s.idles;
        finished = λ f t. cc;
        kind = s.kind;
        kept = s.kept;
        drained = s.drained;
        cleared = s.cleared;
      },
      kept.stops l x p,
    ),
    Each-stop kept ls files each,
  )

  -- Slots that are not used stand for no frames.
  concat-unused :
      (stop : Bool) (ls : List (List T)) (files : List (Slot T F O))
      → Each stop ls files
      → ((i : ℕ) (slot : Slot T F O) → get_elem? files i ≡ some slot → slot.assigned ≡ 0)
      → concat ls ≡ []
  concat-unused stop [] [] each none_used = refl
  concat-unused stop [] (x ∷ files) each none_used = elim each [ ]
  concat-unused stop (l ∷ ls) [] each none_used = elim each [ ]
  concat-unused stop ([] ∷ ls) (x ∷ files) (s, each) none_used =
      concat-unused stop ls files each (λ i slot h. none_used (suc i) slot h)
  concat-unused stop ((y ∷ l) ∷ ls) (x ∷ files) ((s, p), each) none_used =
      absurd (omega (arith, s.counted, none_used 0 x refl))

  -- The slot at `fill` takes a frame: it is the last of all.
  pub concat-fill :
      (fill : ℕ) (ls : List (List T)) (files : List (Slot T F O)) (all : List T) (frame : T)
      → Each false ls files
      → Filled fill files
      → get_elem? ls fill ≡ some all
      → concat (set ls fill (all ++ frame ∷ [])) ≡ concat ls ++ frame ∷ []
  concat-fill fill [] files all frame each filled h = cc
  concat-fill fill (l ∷ ls) [] all frame each filled h = elim each [ ]
  concat-fill zero (l ∷ ls) (x ∷ files) all frame (s, each) filled h =
      let same : l ≡ all = some-injective l all h in
      let later : concat ls ≡ [] =
        concat-unused false ls files each (λ i slot hi. (filled (suc i) slot hi).2 (omega arith)) in
      rw (later, same)
        (append-nil (all ++ frame ∷ []) ∙ ap (λ xs. xs ++ frame ∷ []) (sym (append-nil all)))
  concat-fill (suc fill) (l ∷ ls) (x ∷ files) all frame (s, each) filled h =
      ap (λ xs. l ++ xs)
        (concat-fill fill ls files all frame each
          (λ i slot hi.
            let (before, at, behind) = filled (suc i) slot hi in
            (λ lt. before (omega arith), λ eq. at (omega arith), λ gt. behind (omega arith)))
          h)
      ∙ sym (append_assoc l (concat ls) (frame ∷ []))

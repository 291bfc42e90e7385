-- ===== src/Read/Order/Admission.antt =====
-- src/read.rs: `push_file` appends the frames of an admitted file to the stream.
use mathlib.Core.List.{append_assoc, append-nil}
use carbon_io.Prelude.{
  ℕ, ◌+◌, ◌<◌, ◌≡◌, inl, inr, refl, sym, ap, subst, ◌∙◌, true, false, Bool-cases, ltb, leb, ◌==◌,
  ◌||◌, List, [], ◌∷◌, ◌++◌, arith, length, length-append, get_elem?-lt, get_elem?-append_left, ok,
  err, usize_mod, u32_mod, wrapping_add, wrapping_sub,
}
use carbon_io.Config.{horizon}
use carbon_io.Errors.{invalid_frame_position}
use carbon_io.Traits.{ReadFile}
use carbon_io.Read.Contract.{Call, to_open}
use carbon_io.Read.State.{Slot, ReadScheduler, PushError}
use carbon_io.Read.Api.{Pushed, new_slot, admit, push_file}
use carbon_io.Read.Feed.{Fed-admit}
use carbon_io.Read.Layout.{FileAt, Placed, Covered, Front}
use carbon_io.Read.Order.{InOrder}
use carbon_io.Read.Order.Retire.{distance}

module _ {F : Type 0} where
  Front-append :
      (e s : ℕ) (files : List (Slot F)) (slot : Slot F)
      → 0 < slot.count
      → Front e s files
      → Front e s (files ++ slot ∷ [])
  Front-append e s [] slot pos f = (omega arith, omega arith)
  Front-append e s (x ∷ files) slot pos f = f

  Covered-append :
      (s : ℕ) (files : List (Slot F)) (slot : Slot F) (p : ℕ)
      → Covered s files p
      → Covered s (files ++ slot ∷ []) p
  Covered-append s [] slot p k = elim k [ ]
  Covered-append s (x ∷ files) slot p (inl k) = inl k
  Covered-append s (x ∷ files) slot p (inr (ge, k)) =
      inr (ge, Covered-append (s + x.count) files slot p k)

module _ {T F : Type 0} (rest : F → List T) (stream more : List T) where
  FileAt-append :
      (s : ℕ) (slot : Slot F) → FileAt rest stream s slot → FileAt rest (stream ++ more) s slot
  FileAt-append s slot at = record {
    before = at.before;
    after = at.after ++ more;
    split =
        ap (λ xs. at.before ++ xs) (sym (append_assoc (rest slot.file) at.after more))
        ∙ sym (append_assoc at.before (rest slot.file ++ at.after) more)
        ∙ ap (λ xs. xs ++ more) at.split;
    placed = at.placed;
    left = at.left;
    start = at.start;
    positive = at.positive;
    small = at.small;
  }

  Placed-append :
      (s : ℕ) (files : List (Slot F)) (slot : Slot F)
      → FileAt rest (stream ++ more) (length stream) slot
      → length stream + slot.count ≡ length (stream ++ more)
      → Placed rest stream s files
      → Placed rest (stream ++ more) s (files ++ slot ∷ [])
  Placed-append s [] slot at all p =
      (subst (λ k. FileAt rest (stream ++ more) k slot) (sym p) at, omega (arith, p, all))
  Placed-append s (x ∷ files) slot at all (at', p) =
      (FileAt-append s x at', Placed-append (s + x.count) files slot at all p)

module _ {T F E A : Type 0} (rest : F → List T) (fits : F → Call T → Type 0) (stream : List T)
    (e : ℕ) where
  -- The scheduler that `admit` makes of a file that fits.
  admitted-InOrder :
      (r : ReadScheduler T F E A) (f : F) (count : ℕ)
      → InOrder rest fits stream e r
      → fits f to_open
      → r.terminated ≡ false
      → length (rest f) ≡ count
      → 0 < count
      → count < u32_mod
      → wrapping_sub r.discovered r.emitted + count < usize_mod
      → InOrder rest fits (stream ++ rest f) e (record r {
        files = r.files ++ new_slot r f count ∷ [];
        discovered = wrapping_add r.discovered count;
      })
  admitted-InOrder r f count inv unopened alive all pos small room =
      let total = length-append stream (rest f) in
      record {
        first = inv.first;
        at = inv.at;
        end = omega (arith, inv.end, total, all);
        placed =
            Placed-append rest stream (rest f) inv.first r.files (new_slot r f count)
              (record {
                before = stream;
                after = [];
                split = ap (λ xs. stream ++ xs) (append-nil (rest f));
                placed = omega arith;
                left = omega (arith, all);
                start = inv.end;
                positive = pos;
                small = small;
              })
              (omega (arith, total, all)) inv.placed;
        behind = inv.behind;
        front = Front-append e inv.first r.files (new_slot r f count) pos inv.front;
        window = omega (arith, inv.window, total);
        live = omega (arith, total, all, room, distance rest fits stream e r inv);
        fed =
            Fed-admit fits e inv.first r.files r.frames (new_slot r f count) refl unopened inv.fed;
        quiet = inv.quiet;
        finished = λ t. cc;
        cells = λ o cell eq full.
            let (same, k) = inv.cells o cell eq full in
            let inside : e + o < length stream =
              omega (arith, inv.window, get_elem?-lt r.frames o cell eq) in
            (
              same ∙ sym (get_elem?-append_left stream (rest f) (e + o) inside),
              Covered-append inv.first r.files (new_slot r f count) (e + o) k,
            );
      }

module _ {T F E A : Type 0} (r : ReadScheduler T F E A) (f : F) (count : ℕ)
    (word : ltb count usize_mod ≡ true) where
  admit-fits :
      ltb (wrapping_sub r.discovered r.emitted + count) usize_mod ≡ true
      → admit r f count ≡ (record {
        scheduler = record r {
          files = r.files ++ new_slot r f count ∷ [];
          discovered = wrapping_add r.discovered count;
        };
        result = ok tt;
      })
  unfolding admit
  admit-fits room = rw (admit, word) (simp room refl)

  admit-over :
      ltb (wrapping_sub r.discovered r.emitted + count) usize_mod ≡ false
      → admit r f count
        ≡ (record { scheduler = r; result = err (PushError.contract invalid_frame_position, f) })
  unfolding admit
  admit-over over = rw (admit, word) (simp over refl)

-- What the caller of `push_file` may rely on: a file that is taken puts its frames behind the
-- stream, and was within the limits on active files and on frames ahead; one that is refused comes
-- back with a reason, and the scheduler is as before.
pub data Admission {T F E A : Type 0} (rest : F → List T) (fits : F → Call T → Type 0)
    (stream : List T) (e : ℕ) (r : ReadScheduler T F E A) (f : F) (p : Pushed T F E A)
    : Type 0 where
  taken :
      p.result ≡ ok tt
      → r.closed ≡ false
      → length r.files < r.config.window.max_active_files
      → length stream < e + horizon r.config.window
      → InOrder rest fits (stream ++ rest f) e p.scheduler
      → Admission rest fits stream e r f p
  refused :
      (why : PushError)
      → p.result ≡ err (why, f)
      → p.scheduler ≡ r
      → Admission rest fits stream e r f p

module _ {T F E A : Type 0} ⦃file : ReadFile T F E⦄ (rest : F → List T) (fits : F → Call T → Type 0)
    (stream : List T) (e : ℕ) where
  -- `push_file` on a reader that is in order, with a file that may be opened and declares as many
  -- frames as it has, fewer than 2^32, takes the file only if the reader is open and within its limits, and then is in
  -- order for the stream with the file's frames at its end; or refuses it and changes nothing.
  pub push_file-Admission :
      (r : ReadScheduler T F E A) (f : F)
      → length (rest f) ≡ file.frame_count f
      → file.frame_count f < u32_mod
      → fits f to_open
      → InOrder rest fits stream e r
      → Admission rest fits stream e r f (push_file r f)
  unfolding push_file
  push_file-Admission r f all small unopened inv =
      let count = file.frame_count f in
      let ahead = wrapping_sub r.discovered r.emitted in
      elim (Bool-cases (r.closed || r.terminated)) [
        | inl c ↦ simp (c, push_file) (refused _ refl refl)
        | inr c ↦
            let many =
              leb r.config.window.max_active_files (length r.files)
              || leb (horizon r.config.window) ahead in
            elim (Bool-cases many) [
              | inl h ↦ simp (c, push_file, h) (refused _ refl refl)
              | inr h ↦
                  let below : ahead < horizon r.config.window = ground arith in
                  elim (Bool-cases (count == 0)) [
                    | inl z ↦ simp (c, push_file, h, z) (refused _ refl refl)
                    | inr z ↦
                        let word : ltb count usize_mod ≡ true = ground arith in
                        elim (Bool-cases (ltb (ahead + count) usize_mod)) [
                          | inl room ↦
                              simp (c, push_file, h, z, admit-fits r f count word room)
                                (taken refl (ground arith) (ground arith)
                                  (omega (arith, below, distance rest fits stream e r inv))
                                  (admitted-InOrder rest fits stream e r f count inv unopened
                                    (ground arith) all (ground arith) small (ground arith)))
                          | inr over ↦
                              simp (c, push_file, h, z, admit-over r f count word over)
                                (refused _ refl refl)
                        ]
                  ]
            ]
      ]

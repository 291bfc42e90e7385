-- ===== src/Read/Order/Retire.antt =====
-- src/read.rs: `retire` and `authorize` keep the order. While the front file has frames to deliver,
-- `retire` changes nothing.
use carbon_io.Prelude.{
  ℕ, zero, suc, ◌+◌, ◌%◌, ◌≤◌, ◌<◌, ◌≡◌, ◌⊎◌, inl, inr, refl, sym, subst, true, false, List, [],
  ◌∷◌, ◌++◌, some, arith, ◌==◌, length, length-append, length-replicate, replicate, get_elem?,
  usize_mod, u32_mod, wrapping_add, wrapping_sub,
}
use carbon_io.Read.Contract.{Call}
use carbon_io.Read.State.{
  Slot, empty_cell, ReadScheduler, used, retire_from, extra_cells, authorize, retire,
}
use carbon_io.Read.Feed.{Fed-append}
use carbon_io.Read.Layout.{FileAt, Placed, Front}
use carbon_io.Read.Order.{InOrder}

-- The test of `retire` compares positions that wrap.
pub past_lem :
    (e s count : ℕ)
    → s ≤ e
    → e < s + count
    → count < u32_mod
    → (e % usize_mod == wrapping_add (s % usize_mod) count) ≡ false
past_lem e s count ge lt small = ground arith

distance_lem :
    (n e : ℕ) → e ≤ n → n < e + usize_mod → e + wrapping_sub (n % usize_mod) (e % usize_mod) ≡ n
distance_lem n e le lt = omega arith

pub last_lem :
    (e s count : ℕ) → e ≡ s + count → (e % usize_mod == wrapping_add (s % usize_mod) count) ≡ true
last_lem e s count eq = ground arith

module _ {A : Type 0} where
  -- An element behind `n` copies of `a` was there before, or it is `a`.
  get_elem?-append_replicate :
      (xs : List A) (n : ℕ) (a : A) (o : ℕ) (x : A)
      → get_elem? (xs ++ replicate n a) o ≡ some x
      → (get_elem? xs o ≡ some x) ⊎ (x ≡ a)
  get_elem?-append_replicate [] zero a o x h = inl h
  get_elem?-append_replicate [] (suc n) a zero x h = inr cc
  get_elem?-append_replicate [] (suc n) a (suc o) x h =
      elim (get_elem?-append_replicate [] n a o x h) [ inl k ↦ cc | inr k ↦ inr k ]
  get_elem?-append_replicate (y ∷ xs) n a zero x h = inl h
  get_elem?-append_replicate (y ∷ xs) n a (suc o) x h = get_elem?-append_replicate xs n a o x h

module _ {T F : Type 0} (rest : F → List T) (stream : List T) where
  pub FileAt-past :
      (e s : ℕ) (slot : Slot F)
      → FileAt rest stream s slot
      → s ≤ e
      → e < s + slot.count
      → (e % usize_mod == wrapping_add slot.start slot.count) ≡ false
  FileAt-past e s slot at ge lt =
      subst (λ start. (e % usize_mod == wrapping_add start slot.count) ≡ false) (sym at.start)
        (past_lem e s slot.count ge lt at.small)

  -- With a file in front that is not consumed, nothing is retired.
  pub retire_from-stays :
      (e s : ℕ) (files : List (Slot F)) (cursor : ℕ)
      → Placed rest stream s files
      → Front e s files
      → s ≤ e
      → retire_from (e % usize_mod) files cursor ≡ (files, cursor)
  unfolding retire_from
  retire_from-stays e s [] cursor p f ge = refl
  retire_from-stays e s (slot ∷ files) cursor (at, more) (le, lt) ge =
      rw (retire_from, FileAt-past e s slot at ge lt) refl

module _ {T F E A : Type 0} (rest : F → List T) (fits : F → Call T → Type 0) (stream : List T)
    (e : ℕ) where
  retire-stays : (r : ReadScheduler T F E A) → InOrder rest fits stream e r → retire r ≡ r
  unfolding retire
  retire-stays r inv =
      rw
        (
          inv.at,
          retire_from-stays rest stream e inv.first r.files r.cursor inv.placed inv.front
              inv.behind,
        )
        refl

  pub retire-InOrder :
      (r : ReadScheduler T F E A)
      → InOrder rest fits stream e r
      → InOrder rest fits stream e (retire r)
  retire-InOrder r inv = subst (InOrder rest fits stream e) (sym (retire-stays r inv)) inv

  -- `discovered - emitted` are the frames of the stream that are not delivered.
  pub distance :
      (r : ReadScheduler T F E A)
      → InOrder rest fits stream e r
      → e + wrapping_sub r.discovered r.emitted ≡ length stream
  distance r inv =
      rw (inv.end, inv.at) (distance_lem (length stream) e (omega (arith, inv.window)) inv.live)

  extra_cells-le :
      (r : ReadScheduler T F E A)
      → InOrder rest fits stream e r
      → extra_cells r + length r.frames + e ≤ length stream
  unfolding extra_cells used
  extra_cells-le r inv = omega (arith, distance r inv, inv.window)

  -- Empty cells come in up to the end of the stream.
  pub authorize-InOrder :
      (r : ReadScheduler T F E A)
      → InOrder rest fits stream e r
      → InOrder rest fits stream e (authorize r)
  unfolding authorize extra_cells used
  authorize-InOrder r inv = record {
    first = inv.first;
    at = inv.at;
    end = inv.end;
    placed = inv.placed;
    behind = inv.behind;
    front = inv.front;
    window = omega (
      arith,
      length-append r.frames (replicate (extra_cells r) empty_cell),
      length-replicate (extra_cells r) empty_cell,
      extra_cells-le r inv,
    );
    live = inv.live;
    fed = Fed-append fits e inv.first r.files r.frames (extra_cells r) inv.fed;
    quiet = inv.quiet;
    finished = inv.finished;
    cells = λ o cell eq full.
        elim (get_elem?-append_replicate r.frames (extra_cells r) empty_cell o cell eq) [
          | inl old ↦ inv.cells o cell old full
          | inr new ↦ cc
        ];
  }

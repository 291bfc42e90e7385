-- ===== src/Read/Feed.antt =====
-- src/read.rs: which call a file is polled by, and how changes of files and cells keep that each
-- file allows its next one.
use carbon_io.Prelude.{
  ℕ, zero, suc, ◌+◌, ◌≤◌, ◌<◌, ◌≡◌, ◌≢◌, ◌⊎◌, inl, inr, refl, sym, ap, subst, ◌∙◌, List, [], ◌∷◌,
  ◌++◌, map, none, some, arith, length, get_elem?, set, get_elem?-set_ne, get_elem?-set_self,
  get_elem?-lt, replicate, ◌==◌, ltb, Bool-cases,
}
use mathlib.Core.Option.{some-injective}
use carbon_io.Read.State.{opening, reading, Slot, Cell, empty_cell}
use carbon_io.Read.Drive.{unblock}
use carbon_io.Read.Layout.{start_of, start_of-le, held, Handed, Own, Fed}
use carbon_io.Read.Contract.{Call, to_open, to_read}

module _ {F : Type 0} where
  start_of-set :
      (s : ℕ) (files : List (Slot F)) (i : ℕ) (slot slot' : Slot F) (j : ℕ)
      → get_elem? files i ≡ some slot
      → slot'.count ≡ slot.count
      → start_of s (set files i slot') j ≡ start_of s files j
  start_of-set s [] i slot slot' j h c = refl
  start_of-set s (x ∷ files) zero slot slot' zero h c = refl
  start_of-set s (x ∷ files) zero slot slot' (suc j) h c =
      let same : slot'.count ≡ x.count = ground arith in ap (λ n. start_of (s + n) files j) same
  start_of-set s (x ∷ files) (suc i) slot slot' zero h c = refl
  start_of-set s (x ∷ files) (suc i) slot slot' (suc j) h c =
      start_of-set (s + x.count) files i slot slot' j h c

  start_of-apart :
      (s : ℕ) (files : List (Slot F)) (i j : ℕ) (slot : Slot F)
      → get_elem? files i ≡ some slot
      → i < j
      → start_of s files i + slot.count ≤ start_of s files j
  start_of-apart s [] i j slot h lt = cc
  start_of-apart s (x ∷ files) zero zero slot h lt = absurd (omega arith)
  start_of-apart s (x ∷ files) zero (suc j) slot h lt =
      let same : x ≡ slot = some-injective x slot h in
      omega (arith, start_of-le (s + x.count) files j, ap (λ y. y.count) same)
  start_of-apart s (x ∷ files) (suc i) zero slot h lt = absurd (omega arith)
  start_of-apart s (x ∷ files) (suc i) (suc j) slot h lt =
      start_of-apart (s + x.count) files i j slot h (omega arith)

  pub start_of-append :
      (s : ℕ) (files more : List (Slot F)) (i : ℕ)
      → i < length files
      → start_of s (files ++ more) i ≡ start_of s files i
  start_of-append s [] more i lt = absurd (omega arith)
  start_of-append s (x ∷ files) more zero lt = refl
  start_of-append s (x ∷ files) more (suc i) lt =
      start_of-append (s + x.count) files more i (omega arith)

  get_elem?-snoc :
      (files : List (Slot F)) (slot : Slot F) (j : ℕ) (x : Slot F)
      → get_elem? (files ++ slot ∷ []) j ≡ some x
      → (get_elem? files j ≡ some x) ⊎ (slot ≡ x)
  get_elem?-snoc [] slot zero x h = inr (some-injective slot x h)
  get_elem?-snoc [] slot (suc j) x h = cc
  get_elem?-snoc (y ∷ files) slot zero x h = inl h
  get_elem?-snoc (y ∷ files) slot (suc j) x h = get_elem?-snoc files slot j x h

  start_of-unblock :
      (s : ℕ) (files : List (Slot F)) (i : ℕ)
      → start_of s (map unblock files) i ≡ start_of s files i
  start_of-unblock s [] i = refl
  start_of-unblock s (x ∷ files) zero = refl
  start_of-unblock s (x ∷ files) (suc i) = start_of-unblock (s + x.count) files i

  get_elem?-unblock :
      (files : List (Slot F)) (i : ℕ) (slot : Slot F)
      → get_elem? (map unblock files) i ≡ some slot
      → (old : Slot F) × (get_elem? files i ≡ some old) × (unblock old ≡ slot)
  get_elem?-unblock [] i slot h = cc
  get_elem?-unblock (x ∷ files) zero slot h = (x, refl, some-injective (unblock x) slot h)
  get_elem?-unblock (x ∷ files) (suc i) slot h = get_elem?-unblock files i slot h

module _ {T : Type 0} where
  pub held-set_self :
      (frames : List (Cell T)) (o : ℕ) (cell : Cell T)
      → o < length frames
      → held (set frames o cell) o ≡ cell.frame
  held-set_self [] o cell lt = absurd (omega arith)
  held-set_self (x ∷ frames) zero cell lt = refl
  held-set_self (x ∷ frames) (suc o) cell lt = held-set_self frames o cell (omega arith)

  pub held-set_ne :
      (frames : List (Cell T)) (o p : ℕ) (cell : Cell T)
      → o ≢ p
      → held (set frames o cell) p ≡ held frames p
  held-set_ne [] o p cell ne = refl
  held-set_ne (x ∷ frames) zero zero cell ne = absurd (ne refl)
  held-set_ne (x ∷ frames) zero (suc p) cell ne = refl
  held-set_ne (x ∷ frames) (suc o) zero cell ne = refl
  held-set_ne (x ∷ frames) (suc o) (suc p) cell ne =
      held-set_ne frames o p cell (λ eq. ne (ap suc eq))

  held-replicate : (n o : ℕ) → held (replicate n (empty_cell {T = T})) o ≡ none
  held-replicate zero o = refl
  held-replicate (suc n) zero = refl
  held-replicate (suc n) (suc o) = held-replicate n o

  pub held-append :
      (frames : List (Cell T)) (n o : ℕ) → held (frames ++ replicate n empty_cell) o ≡ held frames o
  held-append [] n o = held-replicate n o
  held-append (x ∷ frames) n zero = refl
  held-append (x ∷ frames) n (suc o) = held-append frames n o

  pub held-get_elem? :
      (frames : List (Cell T)) (o : ℕ) (cell : Cell T)
      → get_elem? frames o ≡ some cell
      → held frames o ≡ cell.frame
  held-get_elem? [] o cell h = cc
  held-get_elem? (x ∷ frames) zero cell h = ap (λ c. c.frame) (some-injective x cell h)
  held-get_elem? (x ∷ frames) (suc o) cell h = held-get_elem? frames o cell h

module _ {T F : Type 0} (fits : F → Call T → Type 0) (e s : ℕ) where
  put-Unopened :
      (files : List (Slot F)) (i : ℕ) (slot' : Slot F)
      → ((j : ℕ) (x : Slot F)
          → get_elem? files j ≡ some x
          → x.state ≡ opening
          → fits x.file to_open)
      → (slot'.state ≡ opening → fits slot'.file to_open)
      → (j : ℕ) (x : Slot F) → get_elem? (set files i slot') j ≡ some x
      → x.state ≡ opening
      → fits x.file to_open
  put-Unopened [] i slot' old new j x hx st = old j x hx st
  put-Unopened (y ∷ files) zero slot' old new zero x hx st =
      let mine : slot' ≡ x = some-injective slot' x hx in
      subst (λ z. fits z.file to_open) mine (new (ap (λ z. z.state) mine ∙ st))
  put-Unopened (y ∷ files) zero slot' old new (suc j) x hx st = old (suc j) x hx st
  put-Unopened (y ∷ files) (suc i) slot' old new zero x hx st = old zero x hx st
  put-Unopened (y ∷ files) (suc i) slot' old new (suc j) x hx st =
      put-Unopened files i slot' (λ k. old (suc k)) new j x hx st

  -- A file and cells in its range change.
  pub Fed-put :
      (files : List (Slot F)) (frames frames' : List (Cell T)) (i : ℕ) (slot slot' : Slot F)
      → get_elem? files i ≡ some slot
      → slot'.count ≡ slot.count
      → Fed fits e s files frames
      → ((o : ℕ)
          → (e + o < start_of s files i) ⊎ (start_of s files i + slot.count ≤ e + o)
          → held frames' o ≡ held frames o)
      → Own fits e (start_of s files i) slot' frames'
      → Fed fits e s (set files i slot') frames'
  Fed-put files frames frames' i slot slot' h c fed apart own j x hx = (
    put-Unopened files i slot' (λ k y hy. (fed k y hy).0) own.0 j x hx,
    λ st lt o pos buffer given.
        let same = start_of-set s files i slot slot' j h c in
        let at : e + o ≡ start_of s files j + x.received = omega (arith, pos, same) in
        elim (Bool-cases (i == j)) [
          | inl eq ↦
              let here : i ≡ j = ground arith in
              let mine : x ≡ slot' = some-injective x slot' (
                sym hx
                ∙ ap (get_elem? (set files i slot')) (sym here)
                ∙ get_elem?-set_self files i slot' (get_elem?-lt files i slot h)) in
              let fit : fits slot'.file (to_read buffer) =
                own.1 (ap (λ y. y.state) (sym mine) ∙ st)
                  (omega (arith, lt, ap (λ y. y.received) mine, ap (λ y. y.count) mine)) o
                  (at
                    ∙ ap (λ k. start_of s files k + x.received) (sym here)
                    ∙ ap (λ y. start_of s files i + y.received) mine)
                  buffer given in
              subst (λ y. fits y.file (to_read buffer)) (sym mine) fit
          | inr ne ↦
              let differ : i ≢ j = λ eq. (ground arith) in
              let hx' : get_elem? files j ≡ some x =
                sym (get_elem?-set_ne files i j slot' differ) ∙ hx in
              let clear : (e + o < start_of s files i) ⊎ (start_of s files i + slot.count ≤ e + o) =
                elim (Bool-cases (ltb i j)) [
                  | inl less ↦
                      let far = start_of-apart s files i j slot h (ground arith) in
                      inr (omega (arith, far, at))
                  | inr more ↦
                      let near = start_of-apart s files j i x hx' (ground arith) in
                      inl (omega (arith, near, at, lt))
                ] in
              (fed j x hx').1 st lt o at buffer (subst (λ b. Handed b buffer) (apart o clear) given)
        ],
  )

  pub Fed-append :
      (files : List (Slot F)) (frames : List (Cell T)) (n : ℕ)
      → Fed fits e s files frames
      → Fed fits e s files (frames ++ replicate n empty_cell)
  Fed-append files frames n fed j x hx = (
    (fed j x hx).0,
    λ st lt o pos buffer given.
        (fed j x hx).1 st lt o pos buffer
          (subst (λ b. Handed b buffer) (held-append frames n o) given),
  )

  pub Fed-unblock :
      (files : List (Slot F)) (frames : List (Cell T))
      → Fed fits e s files frames
      → Fed fits e s (map unblock files) frames
  Fed-unblock files frames fed j x hx =
      let (old, ho, eq) = get_elem?-unblock files j x hx in
      (
        (λ st. subst (λ y. fits y.file to_open) eq ((fed j old ho).0 (ap (λ y. y.state) eq ∙ st))),
        λ st lt o pos buffer given.
            let fit =
              (fed j old ho).1 (ap (λ y. y.state) eq ∙ st)
                (omega (arith, lt, ap (λ y. y.received) eq, ap (λ y. y.count) eq)) o
                (omega (arith, pos, start_of-unblock s files j, ap (λ y. y.received) eq)) buffer
                given in
            subst (λ y. fits y.file (to_read buffer)) eq fit,
      )

  pub Fed-admit :
      (files : List (Slot F)) (frames : List (Cell T)) (slot : Slot F)
      → slot.state ≡ opening
      → fits slot.file to_open
      → Fed fits e s files frames
      → Fed fits e s (files ++ slot ∷ []) frames
  Fed-admit files frames slot new unopened fed j x hx = elim (get_elem?-snoc files slot j x hx) [
    | inr same ↦ (
      (λ st. subst (λ y. fits y.file to_open) same unopened),
      λ st. absurd (clash (sym new ∙ ap (λ y. y.state) same ∙ st)),
    )
    | inl hx' ↦ (
      (fed j x hx').0,
      λ st lt o pos.
          (fed j x hx').1 st lt o (
            omega (arith, pos, start_of-append s files (slot ∷ []) j (get_elem?-lt files j x hx'))),
    )
  ]
    where
      clash : opening ≡ reading → ⊥
      clash eq = cc

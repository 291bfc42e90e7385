-- ===== src/Read/Order/Reads.antt =====
-- src/read.rs: `poll_read` delivers the next frame of the stream. After a delivery `retire` removes
-- the front file if that was its last frame.
use carbon_io.Prelude.{
  ℕ, suc, ◌+◌, ◌%◌, ◌≤◌, ◌<◌, ◌≡◌, ◌≢◌, ◌⊎◌, inl, inr, refl, sym, ap, subst, ◌∙◌, true, false,
  Bool-cases, ltb, leb, max, ◌&&◌, ◌||◌, List, [], ◌∷◌, some, arith, ◌==◌, length, get_elem?,
  usize_mod, wrapping_add, saturating_sub,
}
use carbon_io.Errors.{SchedulerError, contract, invalid_frame_position}
use carbon_io.Budget.{Waker}
use carbon_io.Traits.{ReadFile}
use carbon_io.Read.State.{
  Slot, Cell, ReadScheduler, Factory, no_files, used, retire_from, adjust_capacity, shrink_permit,
  retire, fail,
}
use carbon_io.Read.Drive.{Driven, done, error, exhausted, drive}
use carbon_io.Read.Api.{poll_progress}
use carbon_io.Read.Contract.{Call, Contract}
use carbon_io.Read.Layout.{held, Handed, start_of, Placed, Covered, Front, received-le}
use carbon_io.Read.Order.{InOrder}
use carbon_io.Read.Order.Retire.{last_lem, FileAt-past, retire_from-stays}
use carbon_io.Read.Order.Parts.{empty-end}
use carbon_io.Read.Order.Loops.{OutcomeKept, DriveKept, drive-Kept}

module _ {T F : Type 0} (rest : F → List T) (stream : List T) where
  -- The files and the cursor after `retire`, once the frame at `e` is delivered.
  record Retired (e s : ℕ) (files : List (Slot F)) (left : List (Slot F) × ℕ) : Type 0 where
    first : ℕ
    placed : Placed rest stream first left.0
    behind : first ≤ e + 1
    front : Front (e + 1) first left.0
    kept :
        (i : ℕ) (slot : Slot F)
        → get_elem? left.0 i ≡ some slot
        → (j : ℕ) × (get_elem? files j ≡ some slot) × (start_of first left.0 i ≡ start_of s files j)
    covered : (p : ℕ) → e + 1 ≤ p → Covered s files p → Covered first left.0 p

  Front-start : (s : ℕ) (files : List (Slot F)) → Placed rest stream s files → Front s s files
  Front-start s [] p = refl
  Front-start s (x ∷ files) (at, more) = (omega arith, omega (arith, at.positive))

  retire_from-Retired :
      (e s : ℕ) (files : List (Slot F)) (cursor : ℕ)
      → Placed rest stream s files
      → Front e s files
      → s ≤ e
      → Covered s files e
      → Retired e s files (retire_from ((e + 1) % usize_mod) files cursor)
  unfolding retire_from
  retire_from-Retired e s [] cursor p f ge k = elim k [ ]
  retire_from-Retired e s (slot ∷ files) cursor (at, more) (le, lt) ge (inr (past, k)) =
      absurd (omega arith)
  retire_from-Retired e s (slot ∷ files) cursor (at, more) (le, lt) ge (inl got) =
      let bound = received-le rest stream s slot at in
      elim (Bool-cases (e + 1 == s + slot.count)) [
        | inl last ↦
            let here : e + 1 ≡ s + slot.count = ground arith in
            let test : ((e + 1) % usize_mod == wrapping_add slot.start slot.count) ≡ true =
              subst (λ start. ((e + 1) % usize_mod == wrapping_add start slot.count) ≡ true)
                (sym at.start) (last_lem (e + 1) s slot.count here) in
            let front : Front (e + 1) (s + slot.count) files =
              rw here (Front-start (s + slot.count) files more) in
            let stays =
              retire_from-stays rest stream (e + 1) (s + slot.count) files (saturating_sub cursor 1)
                more front (omega (arith, here)) in
            rw (retire_from, test, stays)
              (record {
                first = s + slot.count;
                placed = more;
                behind = omega (arith, here);
                front = front;
                kept = λ i x h. (suc i, h, refl);
                covered = λ p ge' k. elim k [
                  | inl early ↦ absurd (omega (arith, here))
                  | inr (past, later) ↦ later
                ];
              })
        | inr more_left ↦
            let lt' : e + 1 < s + slot.count = ground arith in
            rw (retire_from, FileAt-past rest stream (e + 1) s slot at (omega arith) lt')
              (record {
                first = s;
                placed = (at, more);
                behind = omega arith;
                front = (omega arith, lt');
                kept = λ i x h. (i, h, refl);
                covered = λ p ge' k. k;
              })
      ]

module _ {T F E A : Type 0} (rest : F → List T) (fits : F → Call T → Type 0) (stream : List T)
    (e : ℕ) where
  pub adjust_capacity-InOrder :
      (r : ReadScheduler T F E A)
      → InOrder rest fits stream e r
      → InOrder rest fits stream e (adjust_capacity r)
  unfolding adjust_capacity used shrink_permit
  adjust_capacity-InOrder r inv =
      let keep = max r.config.window.target_frames (length r.frames) in
      let excess = saturating_sub r.permit.capacity keep in
      elim (Bool-cases (leb 32 excess || (ltb 0 excess && keep == r.config.window.target_frames))) [
        | inl h ↦ rw (h, adjust_capacity) inv
        | inr h ↦ rw (h, adjust_capacity) inv
      ]

  -- The scheduler right after the front cell is taken out, with `recycled` the new stack.
  pub taken-InOrder :
      (r : ReadScheduler T F E A) (cell : Cell T) (frames : List (Cell T)) (recycled : List T)
      → InOrder rest fits stream e r
      → r.terminated ≡ false
      → r.frames ≡ cell ∷ frames
      → cell.complete ≡ true
      → InOrder rest fits stream (e + 1) (
          retire
            (record r { frames = frames; emitted = wrapping_add r.emitted 1; recycled = recycled }))
  unfolding retire
  taken-InOrder r cell frames recycled inv alive top full =
      let emitted : wrapping_add r.emitted 1 ≡ (e + 1) % usize_mod = omega (arith, inv.at) in
      let (head, here) = inv.cells 0 cell (rw top refl) full in
      let zero_right : e + 0 ≡ e = omega arith in
      let k : Covered inv.first r.files e = subst (Covered inv.first r.files) zero_right here in
      let got : Retired rest stream e inv.first r.files
          (retire_from (wrapping_add r.emitted 1) r.files r.cursor) =
        subst (λ m. Retired rest stream e inv.first r.files (retire_from m r.files r.cursor))
          (sym emitted)
          (retire_from-Retired rest stream e inv.first r.files r.cursor inv.placed inv.front
            inv.behind k) in
      record {
        first = got.first;
        at = emitted;
        end = inv.end;
        placed = got.placed;
        behind = got.behind;
        front = got.front;
        window = omega (arith, inv.window, ap length top);
        live = omega (arith, inv.live);
        fed = λ i slot h.
            let (j, hj, same) = got.kept i slot h in
            (
              (inv.fed j slot hj).0,
              λ st lt o pos buffer given.
                  (inv.fed j slot hj).1 st lt (suc o) (omega (arith, pos, same)) buffer
                    (subst (λ frames'. Handed (held frames' (suc o)) buffer) (sym top) given),
            );
        quiet = inv.quiet;
        finished = λ t. cc;
        cells = λ o other eq done.
            let (same, covered) = inv.cells (suc o) other (rw top eq) done in
            let next : e + suc o ≡ e + 1 + o = omega arith in
            (
              same ∙ ap (get_elem? stream) next,
              got.covered (e + 1 + o) (omega arith)
                  (subst (Covered inv.first r.files) next covered),
            );
      }

  -- `poll_progress` keeps the order, or stores an error that is not `InvalidFramePosition`.
  abbrev pub Progressed : ReadScheduler T F E A → Type 0
  Progressed s =
      InOrder rest fits stream e s
      ⊎ ((x : SchedulerError E) × (s.error ≡ some x)
          × (x ≢ contract invalid_frame_position)
          × (s.terminated ≡ true))

  idle-InOrder :
      (r : ReadScheduler T F E A)
      → no_files r.files ≡ true
      → InOrder rest fits stream e r
      → InOrder rest fits stream e (record r { terminated = r.closed })
  idle-InOrder r n inv = record {
    first = inv.first;
    at = inv.at;
    end = inv.end;
    placed = inv.placed;
    behind = inv.behind;
    front = inv.front;
    window = inv.window;
    live = inv.live;
    fed = inv.fed;
    quiet = inv.quiet;
    finished = λ t. (t, empty-end rest stream e inv.first r.files n inv.placed inv.front);
    cells = inv.cells;
  }

  settled :
      (d : Driven T F E A)
      → DriveKept rest fits stream e d
      → Progressed (elim d.outcome [
        | error x ↦ fail d.scheduler x
        | done ↦ d.scheduler
        | exhausted ↦ d.scheduler
      ])
  unfolding fail
  settled d =
      elim d.outcome
        as (λ o.
          OutcomeKept rest fits stream e d.scheduler o
          → Progressed (elim o [
            | error x ↦ fail d.scheduler x
            | done ↦ d.scheduler
            | exhausted ↦ d.scheduler
          ])) [ error x ↦ λ k. inr (x, refl, k, refl) | done ↦ λ k. inl k | exhausted ↦ λ k. inl k ]

module _ {T F E A : Type 0} ⦃file : ReadFile T F E⦄ ⦃factory : Factory T A⦄ where
  pub poll_progress-terminated :
      (r : ReadScheduler T F E A) (cx : Waker) → r.terminated ≡ true → poll_progress r cx ≡ r
  unfolding poll_progress
  poll_progress-terminated r cx t = ground arith

module _ {T F E A : Type 0} ⦃file : ReadFile T F E⦄ ⦃factory : Factory T A⦄ (rest : F → List T)
    (fits : F → Call T → Type 0) (keeps : Contract file rest fits) (stream : List T) (e : ℕ) where
  pub poll_progress-Progressed :
      (r : ReadScheduler T F E A) (cx : Waker)
      → InOrder rest fits stream e r
      → Progressed rest fits stream e (poll_progress r cx)
  unfolding poll_progress shrink_permit
  poll_progress-Progressed r cx inv = elim (Bool-cases r.terminated) [
    | inl t ↦
        subst (Progressed rest fits stream e) (sym (poll_progress-terminated r cx t)) (inl inv)
    | inr t ↦ elim (Bool-cases (no_files r.files)) [
      | inl n ↦ elim (Bool-cases (ltb 0 r.permit.capacity)) [
        | inl c ↦ simp (t, poll_progress, n, c) (inl (idle-InOrder rest fits stream e r n inv))
        | inr c ↦ simp (t, poll_progress, n, c) (inl (idle-InOrder rest fits stream e r n inv))
      ]
      | inr n ↦
          simp (t, poll_progress, n)
            (settled rest fits stream e (drive r cx) (drive-Kept rest fits keeps stream e r cx inv))
    ]
  ]

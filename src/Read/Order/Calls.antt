-- ===== src/Read/Order/Calls.antt =====
-- src/read.rs: each public operation of `ReadScheduler` keeps the order, or leaves a reader that has
-- terminated.
use mathlib.Core.List.{append_assoc}
use mathlib.Core.Option.{some-injective}
use carbon_io.Prelude.{
  ℕ, ◌+◌, ◌<◌, ◌≡◌, ◌≢◌, ◌⊎◌, inl, inr, refl, sym, ap, subst, ◌∙◌, true, false, Bool-cases,
  Option-cases, Result-cases, List, [], ◌∷◌, ◌++◌, some, arith, length, length-append, get_elem?,
  get_elem?-append_right, ◌==◌, Result, ok, err, ready, u32_mod,
}
use carbon_io.Config.{SchedulerConfig, Window, validate}
use carbon_io.Errors.{ContractError}
use carbon_io.Budget.{Waker, FrameBudget}
use carbon_io.Traits.{ReadFile}
use carbon_io.Read.State.{PushError, ReadScheduler, Factory, new_reader, shrink_permit}
use carbon_io.Read.Api.{push_file, poll_progress, poll_read, close_files, set_window}
use carbon_io.Read.Contract.{Call, to_open, Contract}
use carbon_io.Read.Order.{Ordered, InOrder}
use carbon_io.Read.Order.Reads.{poll_progress-terminated, poll_progress-Progressed}
use carbon_io.Read.Order.Delivery.{frame, waits, ends, fails, poll_read-Delivery}
use carbon_io.Read.Order.Admission.{taken, refused, push_file-Admission}

module _ {T : Type 0} where
  -- The frame at the end of what is delivered is delivered next.
  pub read-next :
      (stream out : List T) (x : T) (later : List T)
      → out ++ later ≡ stream
      → get_elem? stream (length out) ≡ some x
      → (more : List T) × ((out ++ x ∷ []) ++ more ≡ stream)
  read-next stream out x later eq there = go later eq (
      sym (get_elem?-append_right out later 0)
      ∙ ap (get_elem? (out ++ later)) (omega arith)
      ∙ ap (λ xs. get_elem? xs (length out)) eq
      ∙ there)
    where
      go :
          (later : List T)
          → out ++ later ≡ stream
          → get_elem? later 0 ≡ some x
          → (more : List T) × ((out ++ x ∷ []) ++ more ≡ stream)
      go [] eq here = cc
      go (y ∷ later) eq here =
          let same : y ≡ x = some-injective y x here in
          (later, append_assoc out (x ∷ []) later ∙ ap (λ z. out ++ z ∷ later) (sym same) ∙ eq)

module _ {T F : Type 0} (rest : F → List T) (fits : F → Call T → Type 0) where
  empty-Ordered : Ordered rest fits [] 0 0 0 false false false [] []
  empty-Ordered = record {
    first = 0;
    at = refl;
    end = refl;
    placed = refl;
    behind = omega arith;
    front = refl;
    window = omega arith;
    live = omega arith;
    fed = λ i slot h. cc;
    quiet = refl;
    finished = λ t. cc;
    cells = λ o cell eq full. cc;
  }

module _ {T F E A : Type 0} (rest : F → List T) (fits : F → Call T → Type 0) where
  -- A reader is in order with what it delivered, or it failed and delivers nothing any more.
  abbrev pub Standing : List T → List T → ReadScheduler T F E A → Type 0
  Standing stream out r = InOrder rest fits stream (length out) r ⊎ (r.terminated ≡ true)

module _ {T F E A : Type 0} ⦃file : ReadFile T F E⦄ ⦃factory : Factory T A⦄ (rest : F → List T)
    (fits : F → Call T → Type 0) (keeps : Contract file rest fits) where
  push-terminated :
      (r : ReadScheduler T F E A) (f : F)
      → r.terminated ≡ true
      → push_file r f ≡ (record { scheduler = r; result = err (PushError.closed, f) })
  unfolding push_file
  push-terminated r f t = ground arith

  -- A terminated reader delivers no frame and stays terminated.
  read-terminated :
      (r : ReadScheduler T F E A) (cx : Waker) (output : T)
      → r.terminated ≡ true
      → ((poll_read r cx output).result ≢ ready (ok (some tt)))
        × ((poll_read r cx output).scheduler.terminated ≡ true)
  unfolding poll_read
  read-terminated r cx output t = elim (Option-cases r.error) [
    | inl calm ↦ simp (poll_read, calm, t) ((λ eq. cc), refl)
    | inr (x, stored) ↦ simp (poll_read, stored, t) ((λ eq. cc), refl)
  ]

  abbrev ResultState : Result (ReadScheduler T F E A) ContractError → Type 0
  ResultState (ok r) = InOrder rest fits [] 0 r
  ResultState (err x) = Unit {0}

  pub new-InOrder :
      (make_frame : A) (budget : FrameBudget) (config : SchedulerConfig) (r : ReadScheduler T F E A)
      → new_reader make_frame budget config ≡ ok r
      → InOrder rest fits [] 0 r
  unfolding new_reader
  new-InOrder make_frame budget config r eq = elim (Result-cases (validate config.window)) [
    | inr (x, h) ↦ let impossible = rw (h, new_reader) at eq in cc
    | inl (u, h) ↦ elim (Bool-cases (budget.total == 0)) [
      | inl z ↦ let impossible = rw (h, new_reader, z) at eq in cc
      | inr z ↦ subst ResultState (rw (h, new_reader, z) at eq) (empty-Ordered rest fits)
    ]
  ]

  close-InOrder :
      (stream : List T) (e : ℕ) (r : ReadScheduler T F E A)
      → InOrder rest fits stream e r
      → InOrder rest fits stream e (close_files r)
  unfolding close_files
  close-InOrder stream e r inv = record {
    first = inv.first;
    at = inv.at;
    end = inv.end;
    placed = inv.placed;
    behind = inv.behind;
    front = inv.front;
    window = inv.window;
    live = inv.live;
    fed = inv.fed;
    quiet = inv.quiet;
    finished = λ t. (refl, (inv.finished t).1);
    cells = inv.cells;
  }

  resize-InOrder :
      (stream : List T) (e : ℕ) (r : ReadScheduler T F E A) (window : Window)
      → InOrder rest fits stream e r
      → InOrder rest fits stream e (set_window r window).0
  unfolding set_window shrink_permit
  resize-InOrder stream e r window inv = elim (Result-cases (validate window)) [
    | inl (u, h) ↦ rw (h, set_window) inv
    | inr (x, h) ↦ rw (h, set_window) inv
  ]

  pub close-Standing :
      (stream out : List T) (r : ReadScheduler T F E A)
      → Standing rest fits stream out r
      → Standing rest fits stream out (close_files r)
  unfolding close_files
  close-Standing stream out r (inl inv) = inl (close-InOrder stream (length out) r inv)
  close-Standing stream out r (inr t) = inr t

  pub resize-Standing :
      (stream out : List T) (r : ReadScheduler T F E A) (window : Window)
      → Standing rest fits stream out r
      → Standing rest fits stream out (set_window r window).0
  unfolding set_window shrink_permit
  resize-Standing stream out r window (inl inv) =
      inl (resize-InOrder stream (length out) r window inv)
  resize-Standing stream out r window (inr t) = elim (Result-cases (validate window)) [
    | inl (u, h) ↦ rw (h, set_window) (inr t)
    | inr (x, h) ↦ rw (h, set_window) (inr t)
  ]

  pub push-Standing :
      (stream out : List T) (r : ReadScheduler T F E A) (f : F)
      → length (rest f) ≡ file.frame_count f
      → file.frame_count f < u32_mod
      → fits f to_open
      → (push_file r f).result ≡ ok tt
      → Standing rest fits stream out r
      → Standing rest fits (stream ++ rest f) out (push_file r f).scheduler
  push-Standing stream out r f all small unopened eq (inr t) =
      let refusal = ap (λ p. p.result) (push-terminated r f t) in cc
  push-Standing stream out r f all small unopened eq (inl inv) =
      elim (push_file-Admission rest fits stream (length out) r f all small unopened inv) [
        | taken _ _ _ _ inv' ↦ inl inv'
        | refused why unmet same ↦ cc
      ]

  pub refuse-Standing :
      (stream out : List T) (r : ReadScheduler T F E A) (f : F) (why : PushError × F)
      → length (rest f) ≡ file.frame_count f
      → file.frame_count f < u32_mod
      → fits f to_open
      → (push_file r f).result ≡ err why
      → Standing rest fits stream out r
      → Standing rest fits stream out (push_file r f).scheduler
  refuse-Standing stream out r f why all small unopened eq (inr t) =
      let refusal = ap (λ p. p.scheduler) (push-terminated r f t) in
      inr (ap (λ s. s.terminated) refusal ∙ t)
  refuse-Standing stream out r f why all small unopened eq (inl inv) =
      elim (push_file-Admission rest fits stream (length out) r f all small unopened inv) [
        | taken met _ _ _ inv' ↦ cc
        | refused why' unmet same ↦ subst (Standing rest fits stream out) (sym same) (inl inv)
      ]

  pub other-Standing :
      (stream out : List T) (r : ReadScheduler T F E A) (cx : Waker) (output : T)
      → ((poll_read r cx output).result ≢ ready (ok (some tt)))
      → Standing rest fits stream out r
      → Standing rest fits stream out (poll_read r cx output).scheduler
  other-Standing stream out r cx output unmet (inr t) = inr (read-terminated r cx output t).1
  other-Standing stream out r cx output unmet (inl inv) =
      elim (poll_read-Delivery rest fits stream (length out) r cx output keeps inv) [
        | frame met _ _ ↦ absurd (unmet met)
        | waits _ _ inv' ↦ inl inv'
        | ends _ _ _ _ inv' ↦ inl inv'
        | fails x _ _ _ t ↦ inr t
      ]

  pub read-Standing :
      (stream out : List T) (r : ReadScheduler T F E A) (cx : Waker) (output : T)
      → (poll_read r cx output).result ≡ ready (ok (some tt))
      → Standing rest fits stream out r
      → (get_elem? stream (length out) ≡ some (poll_read r cx output).output)
        × Standing rest fits stream
            (out ++ (poll_read r cx output).output ∷ [])
            (poll_read r cx output).scheduler
  read-Standing stream out r cx output met (inr t) = absurd ((read-terminated r cx output t).0 met)
  read-Standing stream out r cx output met (inl inv) =
      let x = (poll_read r cx output).output in
      let longer : length out + 1 ≡ length (out ++ x ∷ []) =
        omega (arith, length-append out (x ∷ [])) in
      elim (poll_read-Delivery rest fits stream (length out) r cx output keeps inv) [
        | frame _ there inv' ↦ (
          there,
          inl (
              subst (λ n. InOrder rest fits stream n (poll_read r cx output).scheduler) longer
                inv'),
        )
        | waits unmet _ _ ↦ cc
        | ends unmet _ _ _ _ ↦ cc
        | fails x unmet _ _ _ ↦ cc
      ]

  pub progress-Standing :
      (stream out : List T) (r : ReadScheduler T F E A) (cx : Waker)
      → Standing rest fits stream out r
      → Standing rest fits stream out (poll_progress r cx)
  progress-Standing stream out r cx (inr t) =
      inr (ap (λ s. s.terminated) (poll_progress-terminated r cx t) ∙ t)
  progress-Standing stream out r cx (inl inv) =
      elim (poll_progress-Progressed rest fits keeps stream (length out) r cx inv) [
        | inl inv' ↦ inl inv'
        | inr (x, _, _, t) ↦ inr t
      ]

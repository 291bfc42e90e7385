-- ===== src/Read/Order/Parts.antt =====
-- src/read.rs: the parts of `drive` around its loop keep the order.
use carbon_io.Prelude.{
  ℕ, ◌+◌, ◌<◌, ◌≡◌, ◌≢◌, inl, inr, refl, ◌∙◌, true, false, not, ltb, min, saturating_add,
  Bool-cases, List, [], ◌∷◌, map, any, arith, length, Result, ok, err, Poll, ready, pending,
}
use carbon_io.Errors.{
  ContractError, SchedulerError, contract, invalid_budget_request, invalid_frame_position,
}
use carbon_io.Budget.{Waker, FrameBudget, FramePermit, request_growth, collect_grant, poll_grow}
use carbon_io.Read.Contract.{Call}
use carbon_io.Read.State.{Slot, ReadScheduler, no_files}
use carbon_io.Read.Drive.{unblock, wake_unblocked, finish, unblock_all, grown_result, grow_permit}
use carbon_io.Read.Feed.{Fed-unblock}
use carbon_io.Read.Layout.{Placed, Covered, Front}
use carbon_io.Read.Order.{InOrder}
use carbon_io.Read.Order.Positions.{FileAt-same}

module _ {F : Type 0} where
  pub some_files-length : (files : List (Slot F)) → no_files files ≡ false → 0 < length files
  some_files-length [] n = cc
  some_files-length (x ∷ files) n = omega arith

  Front-unblock :
      (e s : ℕ) (files : List (Slot F)) → Front e s files → Front e s (map unblock files)
  Front-unblock e s [] f = f
  Front-unblock e s (x ∷ files) f = f

  Covered-unblock :
      (s : ℕ) (files : List (Slot F)) (p : ℕ) → Covered s files p → Covered s (map unblock files) p
  Covered-unblock s [] p k = k
  Covered-unblock s (x ∷ files) p (inl k) = inl k
  Covered-unblock s (x ∷ files) p (inr (ge, k)) = inr (ge, Covered-unblock (s + x.count) files p k)

-- `poll_grow` refuses nothing but the sizes of a request.
poll_grow-error :
    (b : FrameBudget) (p : FramePermit) (cx minimum desired : ℕ) (x : ContractError)
    → (poll_grow b p cx minimum desired).result ≡ ready (err x)
    → x ≡ invalid_budget_request
unfolding poll_grow collect_grant request_growth
poll_grow-error b p cx minimum desired x h = ground arith

module _ {E : Type 0} where
  growth_error :
      (answer : Poll (Result (Unit {0}) ContractError)) (x : SchedulerError E)
      → ((c : ContractError) → answer ≡ ready (err c) → c ≡ invalid_budget_request)
      → grown_result answer ≡ err x
      → x ≢ contract invalid_frame_position
  growth_error (ready (err c)) x sizes eq = λ bad. let size = sizes c refl in cc
  growth_error (ready (ok _)) x sizes eq = cc
  growth_error pending x sizes eq = cc

module _ {T F : Type 0} (rest : F → List T) (stream : List T) where
  -- Without files, everything is delivered.
  pub empty-end :
      (e s : ℕ) (files : List (Slot F))
      → no_files files ≡ true
      → Placed rest stream s files
      → Front e s files
      → e ≡ length stream
  empty-end e s [] n p f = f ∙ p
  empty-end e s (x ∷ files) n p f = cc

  Placed-unblock :
      (s : ℕ) (files : List (Slot F))
      → Placed rest stream s files
      → Placed rest stream s (map unblock files)
  Placed-unblock s [] p = p
  Placed-unblock s (x ∷ files) (at, more) = (
    FileAt-same rest stream s x (unblock x) at refl refl refl refl,
    Placed-unblock (s + x.count) files more,
  )

module _ {T F E A : Type 0} (rest : F → List T) (fits : F → Call T → Type 0) (stream : List T)
    (e : ℕ) where
  pub unblock_all-InOrder :
      (r : ReadScheduler T F E A)
      → InOrder rest fits stream e r
      → InOrder rest fits stream e (unblock_all r)
  unfolding unblock_all
  unblock_all-InOrder r inv = record {
    first = inv.first;
    at = inv.at;
    end = inv.end;
    placed = Placed-unblock rest stream inv.first r.files inv.placed;
    behind = inv.behind;
    front = Front-unblock e inv.first r.files inv.front;
    window = inv.window;
    live = inv.live;
    fed = Fed-unblock fits e inv.first r.files r.frames inv.fed;
    quiet = inv.quiet;
    finished = inv.finished;
    cells = λ o cell eq full.
        let (same, k) = inv.cells o cell eq full in
        (same, Covered-unblock inv.first r.files (e + o) k);
  }

  pub finish-InOrder :
      (r : ReadScheduler T F E A)
      → no_files r.files ≡ true
      → InOrder rest fits stream e r
      → InOrder rest fits stream e (finish r)
  unfolding finish
  finish-InOrder r n inv = record {
    first = inv.first;
    at = inv.at;
    end = inv.end;
    placed = inv.placed;
    behind = inv.behind;
    front = inv.front;
    window = inv.window;
    live = inv.live;
    fed = inv.fed;
    quiet = inv.quiet;
    finished = λ t. (t, empty-end rest stream e inv.first r.files n inv.placed inv.front);
    cells = inv.cells;
  }

  pub wake_unblocked-InOrder :
      (r : ReadScheduler T F E A) (cx : Waker)
      → InOrder rest fits stream e r
      → InOrder rest fits stream e (wake_unblocked r cx)
  unfolding wake_unblocked
  wake_unblocked-InOrder r cx inv = elim (Bool-cases (any (λ slot. not slot.blocked) r.files)) [
    | inl h ↦ rw (h, wake_unblocked) inv
    | inr h ↦ rw (h, wake_unblocked) inv
  ]

  pub grow_permit-InOrder :
      (r : ReadScheduler T F E A) (cx : Waker)
      → InOrder rest fits stream e r
      → InOrder rest fits stream e (grow_permit r cx).0
  unfolding grow_permit
  grow_permit-InOrder r cx inv =
      elim (Bool-cases (ltb r.permit.capacity (min r.config.window.target_frames r.budget.total))) [
        | inl h ↦ rw (h, grow_permit) inv
        | inr h ↦ rw (h, grow_permit) inv
      ]

  -- Growing the permit fails, if at all, on the sizes of the request.
  pub grow_permit-error :
      (r : ReadScheduler T F E A) (cx : Waker) (x : SchedulerError E)
      → (grow_permit r cx).1 ≡ err x
      → x ≢ contract invalid_frame_position
  unfolding grow_permit
  grow_permit-error r cx x eq =
      elim (Bool-cases (ltb r.permit.capacity (min r.config.window.target_frames r.budget.total))) [
        | inl h ↦
            let target = min r.config.window.target_frames r.budget.total in
            let minimum = min (saturating_add r.permit.capacity (min target 32)) target in
            let g = poll_grow r.budget r.permit cx minimum target in
            growth_error g.result x (λ c. poll_grow-error r.budget r.permit cx minimum target c)
              (rw (h, grow_permit) at eq)
        | inr h ↦ let impossible = rw (h, grow_permit) at eq in cc
      ]

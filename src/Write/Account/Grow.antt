-- ===== src/Write/Account/Grow.antt =====
-- src/write.rs: `ensure_capacity` asks for no more than the budget has, keeps what is used covered,
-- and never fails.
use carbon_io.Prelude.{
  ℕ, ◌≤◌, ◌<◌, ◌≡◌, inl, inr, refl, Bool, true, Bool-cases, List, arith, leb, ltb, min, max, Result,
  ok, err, Poll, ready, pending,
}
use carbon_io.Errors.{ContractError}
use carbon_io.Budget.{
  Waker, FrameBudget, FramePermit, Grown, poll_grow, collect_grant, request_growth, shrink_to,
}
use carbon_io.Write.State.{
  WriteError, WriteScheduler, grow_answer, shrink_permit, request_capacity, ensure_capacity,
}

-- `poll_grow` of any permit: the grant never falls, success covers the minimum, and sizes in order
-- are never refused.
record Grows (p : FramePermit) (minimum : ℕ) (g : Grown) : Type 0 where
  more : p.capacity ≤ g.permit.capacity
  covers : g.result ≡ ready (ok tt) → minimum ≤ g.permit.capacity
  accepted : (e : ContractError) → g.result ≡ ready (err e) → ⊥

poll_grow-Grows :
    (b : FrameBudget) (p : FramePermit) (cx minimum desired : ℕ)
    → minimum ≤ desired
    → desired ≤ b.total
    → Grows p minimum (poll_grow b p cx minimum desired)
unfolding poll_grow collect_grant request_growth
poll_grow-Grows b p cx minimum desired le within = ground arith

module _ {I E : Type 0} where
  answer-ok :
      (answer : Poll (Result (Unit {0}) ContractError))
      → grow_answer {I = I} {E = E} answer ≡ ok true
      → answer ≡ ready (ok tt)
  answer-ok (ready (ok _)) e = refl
  answer-ok (ready (err x)) e = cc
  answer-ok pending e = cc

  answer-err :
      (answer : Poll (Result (Unit {0}) ContractError)) (x : WriteError I E)
      → grow_answer answer ≡ err x
      → (c : ContractError) × (answer ≡ ready (err c))
  answer-err (ready (ok _)) x e = cc
  answer-err (ready (err c)) x e = (c, refl)
  answer-err pending x e = cc

module _ {Q T F O A I E : Type 0} where
  -- Only the permit, the budget and the wakers change.
  pub record Ensured (w : WriteScheduler Q T F O A) (minimum : ℕ)
      (d : WriteScheduler Q T F O A × Result Bool (WriteError I E)) : Type 0 where
    pub budget : FrameBudget
    pub permit : FramePermit
    pub woken : List Waker
    pub same : d.0 ≡ (record w { budget = budget; permit = permit; woken = woken })
    pub granted : w.used ≤ permit.capacity
    pub covered : d.1 ≡ ok true → minimum ≤ permit.capacity
    pub accepted : (x : WriteError I E) → d.1 ≡ err x → ⊥

  request_capacity-Ensured :
      (w : WriteScheduler Q T F O A) (cx : Waker) (minimum : ℕ)
      → w.used ≤ w.permit.capacity
      → minimum ≤ w.budget.total
      → Ensured w minimum (request_capacity w cx minimum)
  unfolding request_capacity
  request_capacity-Ensured w cx minimum le within =
      let desired = min (max w.config.window.target_frames minimum) w.budget.total in
      let g = poll_grow w.budget w.permit cx minimum desired in
      let grows =
        poll_grow-Grows w.budget w.permit cx minimum desired (omega arith) (omega arith) in
      record {
        budget = g.budget;
        permit = g.permit;
        woken = w.woken;
        same = refl;
        granted = omega (arith, grows.more);
        covered = λ e. grows.covers (answer-ok g.result e);
        accepted = λ x e. let (c, refusal) = answer-err g.result x e in grows.accepted c refusal;
      }

  -- The capacity comes without an error, or the caller waits for it.
  pub ensure_capacity-Ensured :
      (w : WriteScheduler Q T F O A) (cx : Waker) (minimum : ℕ)
      → w.used ≤ w.permit.capacity
      → (w.permit.capacity < minimum → minimum ≤ w.budget.total)
      → Ensured w minimum (ensure_capacity w cx minimum)
  unfolding ensure_capacity shrink_permit shrink_to
  ensure_capacity-Ensured w cx minimum le within =
      elim (Bool-cases (leb minimum w.permit.capacity)) [
        | inl h ↦
            rw (h, ensure_capacity)
              (record {
                budget = w.budget;
                permit = w.permit;
                woken = w.woken;
                same = refl;
                granted = le;
                covered = λ e. ground arith;
                accepted = λ x e. cc;
              })
        | inr h ↦ elim (Bool-cases (ltb w.used w.permit.capacity)) [
          | inl k ↦
              rw (h, ensure_capacity, k)
                (widen (
                  request_capacity-Ensured (shrink_permit w w.used) cx minimum (omega arith)
                    (within (ground arith))))
          | inr k ↦
              rw (h, ensure_capacity, k)
                (request_capacity-Ensured w cx minimum le (within (ground arith)))
        ]
      ]
    where
      widen :
          {d : WriteScheduler Q T F O A × Result Bool (WriteError I E)}
          → Ensured (shrink_permit w w.used) minimum d
          → Ensured w minimum d
      widen s = record {
        budget = s.budget;
        permit = s.permit;
        woken = s.woken;
        same = s.same;
        granted = s.granted;
        covered = s.covered;
        accepted = s.accepted;
      }

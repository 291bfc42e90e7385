-- ===== src/Budget/Polls.antt =====
-- What a poll of `poll_grow` in src/budget.rs returns, branch by branch.
use carbon_io.Prelude.{
  ℕ, ◌+◌, ◌-◌, ◌≤◌, ◌<◌, ◌≡◌, ◌⊎◌, inl, inr, refl, sym, ap, subst, ◌∙◌, true, false, some, arith,
  ltb, leb, ◌&&◌, ◌||◌, length, set, Bool-cases, ok, err, ready, pending,
}
use carbon_io.Errors.{invalid_budget_request}
use carbon_io.Budget.{
  Request, State, dispatch, FrameBudget, FramePermit, Grown, upgrade, request_at, is_empty,
  request_growth, collect_grant, poll_grow,
}
use carbon_io.Budget.Store.{IsQueued, request_at-upgrade, request_at-set_self, upgrade-lt}
use carbon_io.Budget.Dispatch.{Outcome, dispatch-Dispatched}
use carbon_io.Budget.Permit.{IsLive, collect-waiting, collect-idle}

-- What the caller of `poll_grow` may rely on: the grant never falls; success means that it covers
-- the minimum; a pending poll is queued with the caller's waker; an error changes nothing and means
-- that the sizes are invalid.
pub data Answer (b : FrameBudget) (p : FramePermit) (cx minimum desired : ℕ) (g : Grown)
    : Type 0 where
  refused :
      (desired < minimum) ⊎ (b.total < desired)
      → g ≡ (record { budget = b; permit = p; result = ready (err invalid_budget_request) })
      → Answer b p cx minimum desired g
  covered :
      minimum ≤ desired
      → desired ≤ b.total
      → g.result ≡ ready (ok tt)
      → minimum ≤ g.permit.capacity
      → p.capacity ≤ g.permit.capacity
      → Answer b p cx minimum desired g
  queued :
      minimum ≤ desired
      → desired ≤ b.total
      → g.result ≡ pending
      → g.permit.capacity < minimum
      → p.capacity ≤ g.permit.capacity
      → (request_at g.budget.state.requests p.request).waiting ≡ true
      → (request_at g.budget.state.requests p.request).waker ≡ some cx
      → Answer b p cx minimum desired g

module _ (b : FrameBudget) (p : FramePermit) (r : Request)
    (live : upgrade b.state.requests p.request ≡ some r) (cx minimum desired : ℕ)
    (ordered : minimum ≤ desired) (within : desired ≤ b.total) where
  lt : p.request < length b.state.requests
  lt = upgrade-lt b.state.requests p.request r live

  self : (r' : Request) → request_at (set b.state.requests p.request (some r')) p.request ≡ r'
  self r' = request_at-set_self b.state.requests p.request r' lt

  growth-Answer :
      (c : ℕ) (t : Request)
      → p.capacity ≤ c
      → c < minimum
      → Answer b p cx minimum desired
          (request_growth b (record p { capacity = c }) t cx minimum desired)
  unfolding request_growth
  growth-Answer c t le short =
      elim (Bool-cases (is_empty b.state.waiters && leb (minimum - c) b.state.available)) [
        | inl h ↦ rw (h, request_growth) (covered ordered within refl (ground arith) (ground arith))
        | inr h ↦
            let w : Request = record t {
              minimum = minimum - c;
              desired = desired - c;
              waiting = true;
              waker = some cx;
            } in
            rw (h, request_growth) (queued ordered within refl short le (rw (self w)) (rw (self w)))
      ]

  collect-Answer :
      p.capacity < minimum → Answer b p cx minimum desired (collect_grant b p r cx minimum desired)
  unfolding collect_grant
  collect-Answer short = elim (Bool-cases (leb minimum (p.capacity + r.granted))) [
    | inl h ↦ rw (h, collect_grant) (covered ordered within refl (ground arith) (omega arith))
    | inr h ↦ elim (Bool-cases r.waiting) [
      | inl w ↦
          let t : Request = record r { granted = 0; waker = some cx } in
          rw (collect-waiting b p r cx minimum desired h w)
            (queued ordered within refl (ground arith) (omega arith) (rw (self t) w) (rw (self t)))
      | inr w ↦ rw (collect-idle b p r cx minimum desired h w) (
          growth-Answer (p.capacity + r.granted) (record r { granted = 0 }) (omega arith)
            (ground arith))
    ]
  ]

-- `poll_grow` on a live permit refuses exactly the invalid sizes, and otherwise answers by whether
-- its grant covers the minimum; a pending poll has registered the caller's waker.
pub poll_grow-Answer :
    (b : FrameBudget) (p : FramePermit) (cx minimum desired : ℕ)
    → IsLive b p
    → Answer b p cx minimum desired (poll_grow b p cx minimum desired)
unfolding poll_grow
poll_grow-Answer b p cx minimum desired (r, live) =
    elim (Bool-cases (ltb desired minimum || ltb b.total desired)) [
      | inl h ↦ rw (h, poll_grow) (refused (ground arith) refl)
      | inr h ↦ elim (Bool-cases (leb minimum p.capacity)) [
        | inl k ↦
            rw (h, poll_grow, k)
              (covered (ground arith) (ground arith) refl (ground arith) (omega arith))
        | inr k ↦
            rw (h, poll_grow, k, request_at-upgrade b.state.requests p.request r live)
              (collect-Answer b p r live cx minimum desired (ground arith) (ground arith)
                (ground arith))
      ]
    ]

-- While anybody waits, a poll takes nothing from the free capacity.
pub poll_grow-no_steal :
    (b : FrameBudget) (p : FramePermit) (cx minimum desired : ℕ)
    → is_empty b.state.waiters ≡ false
    → (poll_grow b p cx minimum desired).budget.state.available ≡ b.state.available
unfolding poll_grow
poll_grow-no_steal b p cx minimum desired h = ground arith

-- What a poll that finds no wait of its own leaves behind when it is pending: the permit has taken its
-- grant, and the request asks for the rest of both sizes.
record Queued (b : FrameBudget) (p : FramePermit) (minimum desired : ℕ) (g : Grown) : Type 0 where
  pub ordered : minimum ≤ desired
  pub within : desired ≤ b.total
  pub same : g.permit.request ≡ p.request
  pub short : g.permit.capacity < minimum
  pub minimum_left :
      (request_at g.budget.state.requests p.request).minimum ≡ minimum - g.permit.capacity
  pub desired_left :
      (request_at g.budget.state.requests p.request).desired ≡ desired - g.permit.capacity
  pub waits : (request_at g.budget.state.requests p.request).waiting ≡ true

module _ (b : FrameBudget) (p : FramePermit) (r : Request)
    (live : upgrade b.state.requests p.request ≡ some r) (cx minimum desired : ℕ)
    (ordered : minimum ≤ desired) (within : desired ≤ b.total) where
  growth-Queued :
      (c : ℕ) (t : Request)
      → c < minimum
      → (request_growth b (record p { capacity = c }) t cx minimum desired).result ≡ pending
      → Queued b p minimum desired
          (request_growth b (record p { capacity = c }) t cx minimum desired)
  unfolding request_growth
  growth-Queued c t short e =
      elim (Bool-cases (is_empty b.state.waiters && leb (minimum - c) b.state.available)) [
        | inl h ↦ absurd (ground (arith, e, h))
        | inr h ↦
            let w : Request = record t {
              minimum = minimum - c;
              desired = desired - c;
              waiting = true;
              waker = some cx;
            } in
            let self : request_at (set b.state.requests p.request (some w)) p.request ≡ w =
              request_at-set_self b.state.requests p.request w
                (upgrade-lt b.state.requests p.request r live) in
            rw (h, request_growth)
              (record {
                ordered = ordered;
                within = within;
                same = refl;
                short = short;
                minimum_left = rw self refl;
                desired_left = rw self refl;
                waits = rw self refl;
              })
      ]

  collect-Queued :
      r.waiting ≡ false
      → (collect_grant b p r cx minimum desired).result ≡ pending
      → Queued b p minimum desired (collect_grant b p r cx minimum desired)
  unfolding collect_grant
  collect-Queued idle e = elim (Bool-cases (leb minimum (p.capacity + r.granted))) [
    | inl h ↦ absurd (ground (arith, e, h))
    | inr h ↦
        let same = collect-idle b p r cx minimum desired h idle in
        subst (Queued b p minimum desired) (sym same) (
          growth-Queued (p.capacity + r.granted) (record r { granted = 0 }) (ground arith)
            (ap (λ g. g.result) (sym same) ∙ e))
  ]

poll_grow-Queued :
    (b : FrameBudget) (p : FramePermit) (cx minimum desired : ℕ)
    → IsLive b p
    → (request_at b.state.requests p.request).waiting ≡ false
    → (poll_grow b p cx minimum desired).result ≡ pending
    → Queued b p minimum desired (poll_grow b p cx minimum desired)
unfolding poll_grow
poll_grow-Queued b p cx minimum desired (r, live) idle e =
    let here = request_at-upgrade b.state.requests p.request r live in
    elim (Bool-cases (ltb desired minimum || ltb b.total desired)) [
      | inl h ↦ absurd (ground (arith, e, h))
      | inr h ↦ elim (Bool-cases (leb minimum p.capacity)) [
        | inl k ↦ absurd (ground (arith, e, h, k))
        | inr k ↦
            let same : poll_grow b p cx minimum desired ≡ collect_grant b p r cx minimum desired =
              rw (poll_grow, h, k, here) refl in
            subst (Queued b p minimum desired) (sym same) (
              collect-Queued b p r live cx minimum desired (ground arith) (ground arith)
                (ap (λ q. q.waiting) (sym here) ∙ idle) (ap (λ g. g.result) (sym same) ∙ e))
      ]
    ]

-- A poll whose request was served finds the grant.
granted-poll_grow :
    (b : FrameBudget) (p : FramePermit) (before : Request) (cx minimum desired : ℕ)
    → Outcome before (request_at b.state.requests p.request)
    → before.waiting ≡ true
    → (request_at b.state.requests p.request).waiting ≡ false
    → before.minimum ≡ minimum - p.capacity
    → before.desired ≡ desired - p.capacity
    → p.capacity < minimum
    → minimum ≤ desired
    → desired ≤ b.total
    → let g = poll_grow b p cx minimum desired in
      (g.result ≡ ready (ok tt))
      × ((g.permit.capacity ≡ minimum) ⊎ (g.permit.capacity ≡ desired))
      × (g.budget.state.available ≡ b.state.available)
      × (g.budget.state.waiters ≡ b.state.waiters)
unfolding poll_grow
granted-poll_grow b p before cx minimum desired o w idle m d short ordered within = ground arith

-- Let a poll of a live permit, whose request does not wait, be pending, and let `dispatch` run on any
-- state `s` whose queue agrees with its requests and that holds the permit's request as the poll left
-- it. If the permit's request waits no more in it, then in any `later` state that holds it so, the
-- next poll with the same sizes is ready: its grant is the minimum or the desired amount, and it takes
-- nothing from the free capacity and leaves the queue alone.
pub served-poll_grow :
    (b : FrameBudget) (p : FramePermit) (cx cx' minimum desired : ℕ) (s later : State)
    → IsLive b p
    → (request_at b.state.requests p.request).waiting ≡ false
    → (poll_grow b p cx minimum desired).result ≡ pending
    → IsQueued s.waiters s.requests
    → request_at s.requests p.request
      ≡ request_at (poll_grow b p cx minimum desired).budget.state.requests p.request
    → request_at later.requests p.request ≡ request_at (dispatch s).0.requests p.request
    → (request_at later.requests p.request).waiting ≡ false
    → let g =
        poll_grow
          (record b { state = later })
          (poll_grow b p cx minimum desired).permit
          cx'
          minimum
          desired in
      (g.result ≡ ready (ok tt))
      × ((g.permit.capacity ≡ minimum) ⊎ (g.permit.capacity ≡ desired))
      × (g.budget.state.available ≡ later.available)
      × (g.budget.state.waiters ≡ later.waiters)
served-poll_grow b p cx cx' minimum desired s later live idle waits agrees kept left served =
    let g = poll_grow b p cx minimum desired in
    let before = request_at g.budget.state.requests p.request in
    let q = poll_grow-Queued b p cx minimum desired live idle waits in
    let done = dispatch-Dispatched s agrees in
    let outcome : Outcome before (request_at later.requests p.request) =
      subst (λ x. Outcome x (request_at later.requests p.request)) kept
        (subst (Outcome (request_at s.requests p.request)) (sym left) (done.outcome p.request)) in
    granted-poll_grow (record b { state = later }) g.permit before cx' minimum desired
      (subst (λ i. Outcome before (request_at later.requests i)) (sym q.same) outcome) q.waits
      (subst (λ i. (request_at later.requests i).waiting ≡ false) (sym q.same) served)
      q.minimum_left q.desired_left q.short q.ordered q.within

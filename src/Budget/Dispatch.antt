-- ===== src/Budget/Dispatch.antt =====
-- `State::dispatch` of src/budget.rs: it serves waiters from the front, and conserves capacity.
use native.Mathlib.Decide.{ℕ_discrete}
use carbon_io.Prelude.{
  ℕ, ◌+◌, ◌-◌, ◌≤◌, ◌<◌, ◌≡◌, ◌≢◌, ◌⊎◌, refl, true, false, List, [], ◌∷◌, ◌++◌, Option, some, arith,
  ltb, ltb→lt, leb, length, length-set, set, inl, inr, Bool-cases, ap, ◌∙◌,
}
use carbon_io.Budget.{
  Waker, Request, State, upgrade, request_at, grant_size, fulfil, push_waker, dispatch_from,
  dispatch,
}
use carbon_io.Budget.Settled.{Settled}
use carbon_io.Budget.Store.{
  count, waits_at, reserved, IsWaiter, IsQueued, request_at-upgrade, request_at-set_self,
  request_at-set_ne, upgrade-lt, reserved-set, waiting-upgrade, count-append, upgrade-set_ne,
}

-- The head of a queue that agrees with the store, and its request.
record Head (i : ℕ) (ws : List ℕ) (rs : List (Option Request)) : Type 0 where
  pub request : Request
  pub live : upgrade rs i ≡ some request
  pub waiting : request.waiting ≡ true
  pub once : count i ws ≡ 0
  pub waiter : IsWaiter request

IsQueued-Head :
    (i : ℕ) (ws : List ℕ) (rs : List (Option Request)) → IsQueued (i ∷ ws) rs → Head i ws rs
IsQueued-Head i ws rs q =
    let (r, e, w) = waiting-upgrade rs i (ground (arith, q.tracked i)) in
    record {
      request = r;
      live = e;
      waiting = w;
      once = ground (arith, q.tracked i);
      waiter =
          rw (request_at-upgrade rs i r e) at
            (q.sized i (ground (arith, request_at-upgrade rs i r e)));
    }

-- Fulfilling the head leaves a queue that agrees with the store.
fulfil-IsQueued :
    (i : ℕ) (ws : List ℕ) (rs : List (Option Request)) (r : Request) (grant : ℕ)
    → IsQueued (i ∷ ws) rs
    → upgrade rs i ≡ some r
    → IsQueued ws (set rs i (some (fulfil r grant)))
fulfil-IsQueued i ws rs r grant q e = record {
  tracked = λ j. elim (ℕ_discrete i j) [
    | yes p ↦
        ground (arith, q.tracked i, request_at-set_self rs i (fulfil r grant) (upgrade-lt rs i r e))
    | no p ↦ ground (arith, q.tracked j, request_at-set_ne rs i j (some (fulfil r grant)) p)
  ];
  sized = λ j w. elim (ℕ_discrete i j) [
    | yes p ↦ ground (arith, request_at-set_self rs i (fulfil r grant) (upgrade-lt rs i r e))
    | no p ↦ ground (arith, q.sized j, request_at-set_ne rs i j (some (fulfil r grant)) p)
  ];
}

-- What `dispatch` makes of request `before` when it ends as `after`: it keeps it as it was, or
-- reserves the desired or the minimum amount for it and stops the wait.
abbrev pub Outcome : Request → Request → Type 0
Outcome before after =
    (after ≡ before)
    ⊎ ((before.waiting ≡ true)
        × ((after ≡ fulfil before before.desired) ⊎ (after ≡ fulfil before before.minimum)))

abbrev pub wakers : List (Option Request) → List ℕ → List Waker
wakers rs [] = []
wakers rs (i ∷ ws) = push_waker (request_at rs i).waker (wakers rs ws)

-- What `dispatch_from` promises of its input and its result.
pub record Dispatched (available : ℕ) (ws : List ℕ) (rs : List (Option Request)) (s : State)
    (wakes : List Waker) : Type 0 where
  pub queued : IsQueued s.waiters s.requests
  pub conserved : s.available + reserved s.requests ≡ available + reserved rs
  pub settled : Settled s.available s.waiters s.requests
  pub served : List ℕ
  pub fifo : ws ≡ served ++ s.waiters
  pub woken : wakes ≡ wakers rs served
  pub outcome : (j : ℕ) → Outcome (request_at rs j) (request_at s.requests j)
  pub untouched : (j : ℕ) → waits_at rs j ≡ 0 → upgrade s.requests j ≡ upgrade rs j
  pub sized : length s.requests ≡ length rs

dispatch_from-blocked :
    (available i : ℕ) (ws : List ℕ) (rs : List (Option Request)) (r : Request)
    → upgrade rs i ≡ some r
    → r.waiting ≡ true
    → ltb available r.minimum ≡ true
    → dispatch_from available (i ∷ ws) rs
      ≡ (record { available = available; waiters = i ∷ ws; requests = rs }, [])
unfolding dispatch_from
dispatch_from-blocked available i ws rs r e w h = ground arith

dispatch_from-granted :
    (available i : ℕ) (ws : List ℕ) (rs : List (Option Request)) (r : Request)
    → upgrade rs i ≡ some r
    → r.waiting ≡ true
    → ltb available r.minimum ≡ false
    → let grant = grant_size available r in
      let rest = dispatch_from (available - grant) ws (set rs i (some (fulfil r grant))) in
      dispatch_from available (i ∷ ws) rs ≡ (rest.0, push_waker r.waker rest.1)
unfolding dispatch_from
dispatch_from-granted available i ws rs r e w h = ground arith

wakers-set :
    (rs : List (Option Request)) (i : ℕ) (o : Option Request) (ws : List ℕ)
    → count i ws ≡ 0
    → wakers (set rs i o) ws ≡ wakers rs ws
wakers-set rs i o [] h = refl
wakers-set rs i o (j ∷ ws) h =
    rw (wakers-set rs i o ws (ground arith), request_at-set_ne rs i j o (λ e. ground arith))

grant_size_bounds :
    (available : ℕ) (r : Request)
    → ltb available r.minimum ≡ false
    → grant_size available r ≤ available
unfolding grant_size
grant_size_bounds available r h = ground arith

grant_size-Outcome :
    (available : ℕ) (r : Request) → r.waiting ≡ true → Outcome r (fulfil r (grant_size available r))
unfolding grant_size
grant_size-Outcome available r w =
    inr (w, elim (Bool-cases (leb r.desired available)) [ inl e ↦ inl (rw e) | inr e ↦ inr (rw e) ])

-- One grant, then a `Dispatched` rest, is `Dispatched`.
module _ (available i : ℕ) (ws : List ℕ) (rs : List (Option Request)) (head : Head i ws rs)
    (fits : ltb available head.request.minimum ≡ false) (s : State) (wakes : List Waker) where
  abbrev grant : ℕ
  grant = grant_size available head.request

  abbrev after_grant : List (Option Request)
  after_grant = set rs i (some (fulfil head.request grant))

  module _ (rest : Dispatched (available - grant) ws after_grant s wakes) where
    self : request_at after_grant i ≡ fulfil head.request grant
    self = request_at-set_self rs i _ (upgrade-lt rs i head.request head.live)

    other : (j : ℕ) → i ≢ j → request_at after_grant j ≡ request_at rs j
    other j h = request_at-set_ne rs i j _ h

    -- The rest leaves the request that was just served alone: it waits no more.
    kept : request_at s.requests i ≡ fulfil head.request grant
    kept = ground (arith, rest.outcome i, self)

    granted-outcome : (j : ℕ) → Outcome (request_at rs j) (request_at s.requests j)
    granted-outcome j = elim (ℕ_discrete i j) [
      | no p ↦ rw (← other j p) (rest.outcome j)
      | yes p ↦
          rw (← p, request_at-upgrade rs i head.request head.live, kept)
            (grant_size-Outcome available head.request head.waiting)
    ]

    distinct : (j : ℕ) → waits_at rs j ≡ 0 → i ≢ j
    distinct j h p =
        let waits : (request_at rs i).waiting ≡ true =
          rw (request_at-upgrade rs i head.request head.live) head.waiting in
        ground (arith, rw p at waits)

    granted-untouched : (j : ℕ) → waits_at rs j ≡ 0 → upgrade s.requests j ≡ upgrade rs j
    granted-untouched j h =
        rest.untouched j (rw (other j (distinct j h)) h)
        ∙ upgrade-set_ne rs i j (some (fulfil head.request grant)) (distinct j h)

    served_once : count i rest.served ≡ 0
    served_once =
        omega (arith, ap (count i) rest.fifo, count-append i rest.served s.waiters, head.once)

    granted-Dispatched : Dispatched available (i ∷ ws) rs s (push_waker head.request.waker wakes)
    granted-Dispatched = record {
      queued = rest.queued;
      conserved = omega (
        arith,
        rest.conserved,
        grant_size_bounds available head.request fits,
        reserved-set rs i head.request (some (fulfil head.request grant)) head.live,
        head.waiter.unspent,
      );
      settled = rest.settled;
      served = i ∷ rest.served;
      fifo = ap (◌∷◌ i) rest.fifo;
      woken = rw (
        request_at-upgrade rs i head.request head.live,
        rest.woken,
        wakers-set rs i (some (fulfil head.request grant)) rest.served served_once,
      );
      outcome = granted-outcome;
      untouched = granted-untouched;
      sized = rest.sized ∙ length-set rs i _;
    }

blocked-Dispatched :
    (available i : ℕ) (ws : List ℕ) (rs : List (Option Request))
    → IsQueued (i ∷ ws) rs
    → available < (request_at rs i).minimum
    → Dispatched available
        (i ∷ ws)
        rs
        (record { available = available; waiters = i ∷ ws; requests = rs })
        []
blocked-Dispatched available i ws rs q h = record {
  queued = q;
  conserved = refl;
  settled = h;
  served = [];
  fifo = refl;
  woken = refl;
  outcome = λ j. inl refl;
  untouched = λ j e. refl;
  sized = refl;
}

pub dispatch_from-Dispatched :
    (available : ℕ) (ws : List ℕ) (rs : List (Option Request))
    → IsQueued ws rs
    → let r = dispatch_from available ws rs in Dispatched available ws rs r.0 r.1
unfolding dispatch_from
dispatch_from-Dispatched available [] rs q = record {
  queued = q;
  conserved = refl;
  settled = tt;
  served = [];
  fifo = refl;
  woken = refl;
  outcome = λ j. inl refl;
  untouched = λ j e. refl;
  sized = refl;
}
dispatch_from-Dispatched available (i ∷ ws) rs q =
    let head = IsQueued-Head i ws rs q in
    let r = head.request in
    elim (Bool-cases (ltb available r.minimum)) [
      | inl h ↦ rw (dispatch_from-blocked available i ws rs r head.live head.waiting h) (
          blocked-Dispatched available i ws rs q
            (rw (request_at-upgrade rs i r head.live) (ltb→lt _ _ h)))
      | inr h ↦
          let rest =
            dispatch_from-Dispatched (available - grant_size available r) ws
              (set rs i (some (fulfil r (grant_size available r))))
              (fulfil-IsQueued i ws rs r _ q head.live) in
          rw (dispatch_from-granted available i ws rs r head.live head.waiting h)
            (granted-Dispatched available i ws rs head h _ _ rest)
    ]

-- `dispatch` on a queue that agrees with the store: capacity is conserved, a prefix of the queue is
-- served, its wakers are returned in order, and then no capacity is left that the first waiter
-- could use.
pub dispatch-Dispatched :
    (s : State)
    → IsQueued s.waiters s.requests
    → Dispatched s.available s.waiters s.requests (dispatch s).0 (dispatch s).1
unfolding dispatch
dispatch-Dispatched s q = dispatch_from-Dispatched s.available s.waiters s.requests q

-- ===== src/Budget.antt =====
-- src/budget.rs: the shared frame budget. `Arc<Mutex<State>>` is a value that every operation
-- takes and returns; the `Arc<Mutex<Request>>` allocations are the store `requests`, a `Weak` is
-- an index of it, and a freed allocation is `none`. A waker is the task that it wakes.
pub mod Store
pub mod Settled
pub mod Dispatch
pub mod Permit
pub mod System
pub mod Polls
use carbon_io.Prelude.{
  ℕ, ◌+◌, ◌-◌, min, Bool, true, false, ◌&&◌, ◌||◌, List, [], ◌∷◌, ◌++◌, Option, none, some, ltb,
  leb, ◌==◌, if◌then◌else◌, length, get_elem?, set, Result, ok, err, Poll, ready, pending,
}
use carbon_io.Errors.{ContractError, invalid_budget_request}

abbrev pub Waker : Type 0
Waker = ℕ

pub record Request : Type 0 where
  pub minimum : ℕ
  pub desired : ℕ
  pub granted : ℕ
  pub waiting : Bool
  pub waker : Option Waker

-- `Request::default()`.
abbrev pub idle_request : Request
idle_request = record { minimum = 0; desired = 0; granted = 0; waiting = false; waker = none }

pub record State : Type 0 where
  pub available : ℕ
  pub waiters : List ℕ
  pub requests : List (Option Request)

-- `Weak::upgrade`.
abbrev pub upgrade : List (Option Request) → ℕ → Option Request
upgrade rs i = elim (get_elem? rs i) [ none ↦ none | some o ↦ o ]

-- The permit's own `Arc` keeps its request alive, so `lock(&self.request)` always finds it.
abbrev pub request_at : List (Option Request) → ℕ → Request
request_at rs i = elim (upgrade rs i) [ none ↦ idle_request | some r ↦ r ]

-- The size of the grant of `dispatch`, and the request after it.
unfoldable pub grant_size : ℕ → Request → ℕ
grant_size available r = if leb r.desired available then r.desired else r.minimum

abbrev pub fulfil : Request → ℕ → Request
fulfil r grant = record r { granted = grant; waiting = false; waker = none }

abbrev pub push_waker : Option Waker → List Waker → List Waker
push_waker none wakes = wakes
push_waker (some w) wakes = w ∷ wakes

-- `State::dispatch`. Each round of the `while let` pops the front or breaks, so it recurs on the
-- queue. The wakers are returned in the order in which they are pushed.
unfoldable pub dispatch_from : ℕ → List ℕ → List (Option Request) → State × List Waker
unfolding grant_size
dispatch_from available [] rs = (record { available = available; waiters = []; requests = rs }, [])
dispatch_from available (i ∷ ws) rs = elim (upgrade rs i) [
  | none ↦ dispatch_from available ws rs
  | some r ↦ elim r.waiting [
    | false ↦ dispatch_from available ws rs
    | true ↦ elim (ltb available r.minimum) [
      | true ↦ (record { available = available; waiters = i ∷ ws; requests = rs }, [])
      | false ↦
          let grant = grant_size available r in
          let (s, wakes) =
            dispatch_from (available - grant) ws (set rs i (some (fulfil r grant))) in
          (s, push_waker r.waker wakes)
    ]
  ]
]

unfoldable pub dispatch : State → State × List Waker
unfolding dispatch_from
dispatch s = dispatch_from s.available s.waiters s.requests

pub record FrameBudget : Type 0 where
  pub total : ℕ
  pub state : State

unfoldable pub new_budget : ℕ → FrameBudget
new_budget total_capacity = record {
  total = total_capacity;
  state = record { available = total_capacity; waiters = []; requests = [] };
}

-- `FramePermit`, whose `budget` reference is the budget that the operations are given.
pub record FramePermit : Type 0 where
  pub capacity : ℕ
  pub request : ℕ

-- `FrameBudget::permit` allocates a new request.
unfoldable pub permit : FrameBudget → FrameBudget × FramePermit
permit b = (
  record b { state = record b.state { requests = b.state.requests ++ some idle_request ∷ [] } },
  record { capacity = 0; request = length b.state.requests },
)

abbrev pub put_request : FrameBudget → ℕ → Request → FrameBudget
put_request b i r = record b {
  state = record b.state { requests = set b.state.requests i (some r) };
}

-- The shared state, the permit, and what the poll returns.
pub record Grown : Type 0 where
  pub budget : FrameBudget
  pub permit : FramePermit
  pub result : Poll (Result (Unit {0}) ContractError)

abbrev pub is_empty : List ℕ → Bool
is_empty [] = true
is_empty (i ∷ ws) = false

-- The part of `poll_grow` below the test of `request.waiting`: `r` is not waiting, and its grant
-- has been taken into `p.capacity`, which is below `minimum`.
unfoldable pub request_growth : FrameBudget → FramePermit → Request → Waker → ℕ → ℕ → Grown
request_growth b p r cx minimum desired =
    let need = minimum - p.capacity in
    let want = desired - p.capacity in
    let grant = if leb want b.state.available then want else need in
    let unqueued : FrameBudget = put_request b p.request r in
    if is_empty b.state.waiters && leb need b.state.available
    then record {
      budget = record unqueued {
        state = record unqueued.state { available = b.state.available - grant };
      };
      permit = record p { capacity = p.capacity + grant };
      result = ready (ok tt);
    }
    else let queued : FrameBudget =
        put_request b p.request
          (record r { minimum = need; desired = want; waiting = true; waker = some cx }) in
      record {
        budget = record queued {
          state = record queued.state { waiters = b.state.waiters ++ p.request ∷ [] };
        };
        permit = p;
        result = pending;
      }

-- The part of `poll_grow` that holds both locks, with the permit's request `r`.
unfoldable pub collect_grant : FrameBudget → FramePermit → Request → Waker → ℕ → ℕ → Grown
unfolding request_growth
collect_grant b p r cx minimum desired =
    let taken : Request = record r { granted = 0 } in
    let grown : FramePermit = record p { capacity = p.capacity + r.granted } in
    if leb minimum grown.capacity
    then record { budget = put_request b p.request taken; permit = grown; result = ready (ok tt) }
    else if r.waiting
    then record {
      budget = put_request b p.request (record taken { waker = some cx });
      permit = grown;
      result = pending;
    }
    else request_growth b grown taken cx minimum desired

unfoldable pub poll_grow : FrameBudget → FramePermit → Waker → ℕ → ℕ → Grown
unfolding collect_grant
poll_grow b p cx minimum desired =
    if ltb desired minimum || ltb b.total desired
    then record { budget = b; permit = p; result = ready (err invalid_budget_request) }
    else if leb minimum p.capacity
    then record { budget = b; permit = p; result = ready (ok tt) }
    else collect_grant b p (request_at b.state.requests p.request) cx minimum desired

-- `waiters.retain(|entry| !entry.ptr_eq(..))`.
unfoldable pub retain_others : ℕ → List ℕ → List ℕ
retain_others i [] = []
retain_others i (j ∷ ws) = let rest = retain_others i ws in if j == i then rest else j ∷ rest

-- The shared state and permit after `shrink_to`, with the wakers that it wakes, in order.
pub record Shrunk : Type 0 where
  pub budget : FrameBudget
  pub permit : FramePermit
  pub wakes : List Waker

-- The state that `shrink_to` hands to `dispatch`: `r` is the permit's request.
unfoldable pub released : State → FramePermit → Request → ℕ → State
unfolding retain_others
released s p r capacity = record {
  available = s.available + r.granted + (p.capacity - min p.capacity capacity);
  waiters = retain_others p.request s.waiters;
  requests =
      set s.requests p.request (some (record r { granted = 0; waiting = false; waker = none }));
}

unfoldable pub shrink_to : FrameBudget → FramePermit → ℕ → Shrunk
unfolding released dispatch
shrink_to b p capacity =
    let before = released b.state p (request_at b.state.requests p.request) capacity in
    let (after, wakes) = dispatch before in
    record {
      budget = record b { state = after };
      permit = record p { capacity = min p.capacity capacity };
      wakes = wakes;
    }

-- `Drop for FramePermit`, and the end of the request's allocation with its only `Arc`.
unfoldable pub drop_permit : FrameBudget → FramePermit → FrameBudget × List Waker
unfolding shrink_to
drop_permit b p =
    let s = shrink_to b p 0 in
    let state = s.budget.state in
    (
      record s.budget { state = record state { requests = set state.requests p.request none } },
      s.wakes,
    )

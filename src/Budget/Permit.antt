-- ===== src/Budget/Permit.antt =====
-- What `poll_grow` and `shrink_to` of src/budget.rs do to a sound budget and to one permit of it.
use carbon_io.Prelude.{
  ℕ, ◌+◌, ◌-◌, ◌≤◌, ◌<◌, ◌≡◌, inl, inr, refl, sym, ap, ◌∙◌, min, true, false, [], ◌∷◌, ◌++◌, none,
  some, arith, ltb, leb, ◌&&◌, ◌||◌, if◌then◌else◌, length, length-set, set, Bool-cases, pending,
}
use carbon_io.Budget.{
  Request, State, FrameBudget, FramePermit, Shrunk, upgrade, request_at, is_empty, put_request,
  request_growth, collect_grant, poll_grow, released, shrink_to, retain_others, dispatch,
}
use carbon_io.Budget.Settled.{
  Settled, Settled-set, Settled-set_absent, Settled-push, is_empty-eq-nil,
}
use carbon_io.Budget.Store.{
  count, reserved, IsWaiter, IsQueued, IsQueued-set, request_at-upgrade, request_at-set_self,
  upgrade-lt, upgrade-set_self, reserved-set, count-append, count-retain_others_self,
  count-retain_others_ne,
}
use carbon_io.Budget.Dispatch.{Dispatched, dispatch-Dispatched}

-- The queue agrees with the requests, and the first waiter cannot be served.
pub record IsSound (s : State) : Type 0 where
  pub queued : IsQueued s.waiters s.requests
  pub settled : Settled s.available s.waiters s.requests

-- Capacity that is free, reserved, or held by the permit.
abbrev pub funds : FrameBudget → FramePermit → ℕ
funds b p = b.state.available + reserved b.state.requests + p.capacity

-- The permit's allocation is alive.
abbrev pub IsLive : FrameBudget → FramePermit → Type 0
IsLive b p = (r : Request) × (upgrade b.state.requests p.request ≡ some r)

-- An operation on one permit moves capacity between the permit and the budget, and nothing else.
pub record Advances (b : FrameBudget) (p : FramePermit) (b' : FrameBudget) (p' : FramePermit)
    : Type 0 where
  pub total : b'.total ≡ b.total
  pub balance : funds b' p' ≡ funds b p
  pub sound : IsSound b'.state
  pub same : p'.request ≡ p.request
  pub sized : length b'.state.requests ≡ length b.state.requests

-- `poll_grow` with a grant that does not suffice.
module _ (b : FrameBudget) (p : FramePermit) (r : Request) where
  pub collect-waiting :
      (cx minimum desired : ℕ)
      → leb minimum (p.capacity + r.granted) ≡ false
      → r.waiting ≡ true
      → collect_grant b p r cx minimum desired ≡ (record {
        budget = put_request b p.request (record r { granted = 0; waker = some cx });
        permit = record p { capacity = p.capacity + r.granted };
        result = pending;
      })
  unfolding collect_grant
  collect-waiting cx minimum desired h w = ground arith

  pub collect-idle :
      (cx minimum desired : ℕ)
      → leb minimum (p.capacity + r.granted) ≡ false
      → r.waiting ≡ false
      → collect_grant b p r cx minimum desired
        ≡ request_growth b
            (record p { capacity = p.capacity + r.granted })
            (record r { granted = 0 })
            cx
            minimum
            desired
  unfolding collect_grant
  collect-idle cx minimum desired h w = ground arith

module _ (b : FrameBudget) (p : FramePermit) (r : Request)
    (live : upgrade b.state.requests p.request ≡ some r) (sound : IsSound b.state) where
  open b.state use {available, waiters, requests}

  abbrev i : ℕ
  i = p.request

  lt : i < length requests
  lt = upgrade-lt requests i r live

  here : request_at requests i ≡ r
  here = request_at-upgrade requests i r live

  queued_here : count i waiters ≡ (if r.waiting then 1 else 0)
  queued_here = rw (← here) (sound.queued.tracked i)

  fit_here : r.waiting ≡ true → IsWaiter r
  fit_here = rw here at (sound.queued.sized i)

  -- Collecting a grant, with or without a new waker.
  put_taken :
      (r' : Request)
      → r'.waiting ≡ r.waiting
      → r'.minimum ≡ r.minimum
      → r'.desired ≡ r.desired
      → r'.granted ≡ 0
      → Advances b p (put_request b i r') (record p { capacity = p.capacity + r.granted })
  put_taken r' w m d g = record {
    total = refl;
    balance = omega (arith, reserved-set requests i r (some r') live, g);
    sound = record {
      queued =
          IsQueued-set waiters waiters requests i r' sound.queued lt (rw w queued_here)
            (λ j h. refl) (λ e. let q = fit_here (ground arith) in ground arith);
      settled = Settled-set available waiters requests i r' lt (ground (arith, here)) sound.settled;
    };
    same = refl;
    sized = length-set requests i (some r');
  }

  abbrev taken : Request
  taken = record r { granted = 0 }

  abbrev grown : FramePermit
  grown = record p { capacity = p.capacity + r.granted }

  module _ (idle : r.waiting ≡ false) (cx minimum desired : ℕ)
      (short : p.capacity + r.granted < minimum) (ordered : minimum ≤ desired) where
    absent : count i waiters ≡ 0
    absent = ground (arith, queued_here)

    -- The request that joins the queue.
    abbrev waiter : Request
    waiter = record r {
      minimum = minimum - grown.capacity;
      desired = desired - grown.capacity;
      granted = 0;
      waiting = true;
      waker = some cx;
    }

    queue_waiter :
        (is_empty waiters ≡ true → available < waiter.minimum)
        → Advances b p
            (record b {
              state = record {
                available = available;
                waiters = waiters ++ i ∷ [];
                requests = set requests i (some waiter);
              };
            })
            grown
    queue_waiter full = record {
      total = refl;
      balance = omega (arith, reserved-set requests i r (some waiter) live);
      sound = record {
        queued =
            IsQueued-set waiters (waiters ++ i ∷ []) requests i waiter sound.queued lt
              (ground (arith, count-append i waiters (i ∷ []), absent))
              (λ j h. ground (arith, count-append j waiters (i ∷ [])))
              (λ e. record { positive = omega arith; ordered = omega arith; unspent = refl });
        settled =
            Settled-push available waiters (set requests i (some waiter)) i
              (rw (request_at-set_self requests i waiter lt) full)
              (Settled-set_absent available waiters requests i (some waiter) absent sound.settled);
      };
      same = refl;
      sized = length-set requests i (some waiter);
    }

    take_free :
        (grant : ℕ)
        → grant ≤ available
        → waiters ≡ []
        → Advances b p
            (record b {
              state = record {
                available = available - grant;
                waiters = waiters;
                requests = set requests i (some taken);
              };
            })
            (record grown { capacity = grown.capacity + grant })
    take_free grant le e = record {
      total = refl;
      balance = omega (arith, reserved-set requests i r (some taken) live);
      sound = record {
        queued =
            IsQueued-set waiters waiters requests i taken sound.queued lt queued_here (λ j h. refl)
              (λ w. ground (arith, idle));
        settled = rw e tt;
      };
      same = refl;
      sized = length-set requests i (some taken);
    }

    growth-Advances :
        let g = request_growth b grown taken cx minimum desired in Advances b p g.budget g.permit
    unfolding request_growth
    growth-Advances = elim (Bool-cases (is_empty waiters && leb waiter.minimum available)) [
      | inl h ↦
          rw (h, request_growth)
            (take_free _ (ground arith) (is_empty-eq-nil waiters (ground arith)))
      | inr h ↦ rw (h, request_growth) (queue_waiter (λ e. ground arith))
    ]

  collect-Advances :
      (cx minimum desired : ℕ)
      → p.capacity < minimum
      → minimum ≤ desired
      → let g = collect_grant b p r cx minimum desired in Advances b p g.budget g.permit
  unfolding collect_grant
  collect-Advances cx minimum desired short ordered =
      elim (Bool-cases (leb minimum (p.capacity + r.granted))) [
        | inl h ↦ rw (h, collect_grant) (put_taken taken refl refl refl refl)
        | inr h ↦ elim (Bool-cases r.waiting) [
          | inl w ↦
              rw (collect-waiting b p r cx minimum desired h w)
                (put_taken (record taken { waker = some cx }) refl refl refl refl)
          | inr w ↦
              rw (collect-idle b p r cx minimum desired h w)
                (growth-Advances w cx minimum desired (ground arith) ordered)
        ]
      ]

pub Advances-trans :
    {b b' b'' : FrameBudget} {p p' p'' : FramePermit}
    → Advances b p b' p'
    → Advances b' p' b'' p''
    → Advances b p b'' p''
Advances-trans f g = record {
  total = g.total ∙ f.total;
  balance = g.balance ∙ f.balance;
  sound = g.sound;
  same = g.same ∙ f.same;
  sized = g.sized ∙ f.sized;
}

unchanged-Advances : (b : FrameBudget) (p : FramePermit) → IsSound b.state → Advances b p b p
unchanged-Advances b p s = record {
  total = refl;
  balance = refl;
  sound = s;
  same = refl;
  sized = refl;
}

pub poll_grow-Advances :
    (b : FrameBudget) (p : FramePermit) (cx minimum desired : ℕ)
    → IsLive b p
    → IsSound b.state
    → let g = poll_grow b p cx minimum desired in Advances b p g.budget g.permit
unfolding poll_grow
poll_grow-Advances b p cx minimum desired (r, live) s =
    elim (Bool-cases (ltb desired minimum || ltb b.total desired)) [
      | inl h ↦ rw (h, poll_grow) (unchanged-Advances b p s)
      | inr h ↦ elim (Bool-cases (leb minimum p.capacity)) [
        | inl k ↦ rw (h, poll_grow, k) (unchanged-Advances b p s)
        | inr k ↦
            rw (h, poll_grow, k, request_at-upgrade b.state.requests p.request r live)
              (collect-Advances b p r live s cx minimum desired (ground arith) (ground arith))
      ]
    ]

module _ (b : FrameBudget) (p : FramePermit) (r : Request)
    (live : upgrade b.state.requests p.request ≡ some r) (sound : IsSound b.state) (size : ℕ) where
  open b.state use {available, waiters, requests}

  abbrev before : State
  before = released b.state p r size

  abbrev after : State
  after = (dispatch before).0

  released-IsQueued : IsQueued before.waiters before.requests
  unfolding released
  released-IsQueued =
      IsQueued-set waiters (retain_others p.request waiters) requests p.request _ sound.queued
        (upgrade-lt requests p.request r live) (count-retain_others_self p.request waiters)
        (λ j h. count-retain_others_ne p.request j waiters h) (λ e. cc)

  pub released-Dispatched :
      Dispatched before.available before.waiters before.requests after (dispatch before).1
  released-Dispatched = dispatch-Dispatched before released-IsQueued

  released-balance : before.available + reserved before.requests + min p.capacity size ≡ funds b p
  unfolding released
  released-balance = omega (
    arith,
    reserved-set requests p.request r
        (some (record r { granted = 0; waiting = false; waker = none })) live,
  )

  released-sized : length before.requests ≡ length requests
  unfolding released
  released-sized = length-set requests p.request _

  released-Advances :
      Advances b p (record b { state = after }) (record p { capacity = min p.capacity size })
  released-Advances = record {
    total = refl;
    balance = omega (arith, released-Dispatched.conserved, released-balance);
    sound = record { queued = released-Dispatched.queued; settled = released-Dispatched.settled };
    same = refl;
    sized = released-Dispatched.sized ∙ released-sized;
  }

  -- The permit's own request ends idle, out of the queue and with no grant.
  pub released_request :
      upgrade after.requests p.request
      ≡ some (record r { granted = 0; waiting = false; waker = none })
  unfolding released
  released_request =
      let idle : Request = record r { granted = 0; waiting = false; waker = none } in
      let lt = upgrade-lt requests p.request r live in
      released-Dispatched.untouched p.request (rw (request_at-set_self requests p.request idle lt))
      ∙ upgrade-set_self requests p.request idle lt

pub shrink_to-Advances :
    (b : FrameBudget) (p : FramePermit) (size : ℕ)
    → IsLive b p
    → IsSound b.state
    → let s = shrink_to b p size in Advances b p s.budget s.permit
unfolding shrink_to
shrink_to-Advances b p size (r, live) sound =
    rw (request_at-upgrade b.state.requests p.request r live)
      (released-Advances b p r live sound size)

pub shrink_to_request :
    (b : FrameBudget) (p : FramePermit) (size : ℕ) (r : Request)
    → upgrade b.state.requests p.request ≡ some r
    → IsSound b.state
    → let s = shrink_to b p size in
      upgrade s.budget.state.requests p.request
      ≡ some (record r { granted = 0; waiting = false; waker = none })
unfolding shrink_to
shrink_to_request b p size r live sound =
    rw (request_at-upgrade b.state.requests p.request r live)
      (released_request b p r live sound size)

-- What `shrink_to` leaves behind for its permit.
pub record Released (b : FrameBudget) (p : FramePermit) (size : ℕ) (s : Shrunk) : Type 0 where
  pub kept : s.permit.capacity ≡ min p.capacity size
  pub balance : funds s.budget s.permit ≡ funds b p
  pub sound : IsSound s.budget.state
  pub request :
      request_at s.budget.state.requests p.request
      ≡ record (request_at b.state.requests p.request) {
        granted = 0;
        waiting = false;
        waker = none;
      }
  pub unqueued : count p.request s.budget.state.waiters ≡ 0

-- `shrink_to` on a live permit of a sound budget keeps the smaller of the grant and the size, gives
-- the rest and any uncollected grant back, cancels the wait, and leaves the budget sound.
pub shrink_to-Released :
    (b : FrameBudget) (p : FramePermit) (size : ℕ)
    → IsLive b p
    → IsSound b.state
    → Released b p size (shrink_to b p size)
unfolding shrink_to
shrink_to-Released b p size (r, live) sound =
    let s = shrink_to b p size in
    let a = shrink_to-Advances b p size (r, live) sound in
    let idle =
      request_at-upgrade s.budget.state.requests p.request _
        (shrink_to_request b p size r live sound) in
    record {
      kept = refl;
      balance = a.balance;
      sound = a.sound;
      request =
          idle
          ∙ ap (λ (q : Request). record q { granted = 0; waiting = false; waker = none })
              (sym (request_at-upgrade b.state.requests p.request r live));
      unqueued = a.sound.queued.tracked p.request ∙ rw idle;
    }

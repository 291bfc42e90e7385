-- ===== src/Budget/System.antt =====
-- src/budget.rs as a system: one `FrameBudget`, the permits that borrow it, and their operations in
-- any order. Permit number `i` is the one whose request was allocated `i`-th; a permit that was
-- dropped stays in the list with no capacity and takes no further step.
use native.Mathlib.Decide.{ℕ_discrete}
use carbon_io.Prelude.{
  ℕ, ◌+◌, ◌≡◌, refl, sym, ◌∙◌, min, subst, false, List, [], ◌∷◌, ◌++◌, Option, none, some, arith,
  length, length-append, length-set, get_elem?, set, sum_of, sum_of-append, sum_of-set,
  get_elem?-set_self, get_elem?-set_ne, get_elem?-lt, zero, suc,
}
use carbon_io.Budget.{
  Waker, Request, FrameBudget, FramePermit, idle_request, upgrade, request_at, new_budget, permit,
  poll_grow, shrink_to, drop_permit,
}
use carbon_io.Budget.Settled.{Settled, Settled-set_absent}
use carbon_io.Budget.Store.{
  count, granted_of, reserved, request_at-set_ne, reserved-set, request_at-upgrade,
}
use carbon_io.Budget.Permit.{
  IsSound, IsLive, Advances, Advances-trans, poll_grow-Advances, shrink_to-Advances,
  shrink_to_request,
}

pub record System : Type 0 where
  pub budget : FrameBudget
  pub permits : List FramePermit

abbrev pub start : ℕ → System
start total_capacity = record { budget = new_budget total_capacity; permits = [] }

abbrev pub allocated : System → System
allocated s = let (b, p) = permit s.budget in record { budget = b; permits = s.permits ++ p ∷ [] }

abbrev pub grown : System → ℕ → FramePermit → Waker → ℕ → ℕ → System
grown s i p cx minimum desired =
    let g = poll_grow s.budget p cx minimum desired in
    record { budget = g.budget; permits = set s.permits i g.permit }

abbrev pub shrunk : System → ℕ → FramePermit → ℕ → System
shrunk s i p size =
    let r = shrink_to s.budget p size in
    record { budget = r.budget; permits = set s.permits i r.permit }

abbrev pub dropped : System → ℕ → FramePermit → System
dropped s i p = record {
  budget = (drop_permit s.budget p).0;
  permits = set s.permits i (record p { capacity = 0 });
}

-- One operation of one task.
pub data Step (s : System) : System → Type 0 where
  allocate : Step s (allocated s)
  grow :
      (i : ℕ) (p : FramePermit) (cx minimum desired : ℕ)
      → get_elem? s.permits i ≡ some p
      → IsLive s.budget p
      → Step s (grown s i p cx minimum desired)
  shrink :
      (i : ℕ) (p : FramePermit) (size : ℕ)
      → get_elem? s.permits i ≡ some p
      → IsLive s.budget p
      → Step s (shrunk s i p size)
  free :
      (i : ℕ) (p : FramePermit)
      → get_elem? s.permits i ≡ some p
      → IsLive s.budget p
      → Step s (dropped s i p)

pub data Reach (total_capacity : ℕ) : System → Type 0 where
  created : Reach total_capacity (start total_capacity)
  next : {s t : System} → Reach total_capacity s → Step s t → Reach total_capacity t

abbrev pub held : List FramePermit → ℕ
held = sum_of λ p. p.capacity

pub record Inv (total_capacity : ℕ) (s : System) : Type 0 where
  pub total : s.budget.total ≡ total_capacity
  pub conserved :
      s.budget.state.available + reserved s.budget.state.requests + held s.permits ≡ total_capacity
  pub sound : IsSound s.budget.state
  pub owned : (i : ℕ) (p : FramePermit) → get_elem? s.permits i ≡ some p → p.request ≡ i
  pub sized : length s.permits ≡ length s.budget.state.requests

start-Inv : (n : ℕ) → Inv n (start n)
unfolding new_budget
start-Inv n = record {
  total = refl;
  conserved = omega arith;
  sound = record { queued = record { tracked = λ i. refl; sized = λ i h. cc }; settled = tt };
  owned = λ i p h. cc;
  sized = refl;
}

-- What one permit's operation does to the system.
set-Inv :
    (n : ℕ) (s : System) (i : ℕ) (p : FramePermit) (b' : FrameBudget) (p' : FramePermit)
    → Inv n s
    → get_elem? s.permits i ≡ some p
    → Advances s.budget p b' p'
    → Inv n (record { budget = b'; permits = set s.permits i p' })
set-Inv n s i p b' p' inv e a = record {
  total = a.total ∙ inv.total;
  conserved = omega (
    arith,
    a.balance,
    inv.conserved,
    sum_of-set (λ (q : FramePermit). q.capacity) s.permits i p p' e,
  );
  sound = a.sound;
  owned = λ j q h. elim (ℕ_discrete i j) [
    | yes eq ↦ ground (
      arith,
      eq,
      get_elem?-set_self s.permits i p' (get_elem?-lt s.permits i p e),
      inv.owned i p e,
      a.same,
    )
    | no ne ↦ inv.owned j q (sym (get_elem?-set_ne s.permits i j p' ne) ∙ h)
  ];
  sized = length-set s.permits i p' ∙ inv.sized ∙ sym a.sized;
}

request_at-append_idle :
    (rs : List (Option Request)) (j : ℕ)
    → request_at (rs ++ some idle_request ∷ []) j ≡ request_at rs j
request_at-append_idle [] zero = refl
request_at-append_idle [] (suc j) = refl
request_at-append_idle (o ∷ rs) zero = refl
request_at-append_idle (o ∷ rs) (suc j) = request_at-append_idle rs j

Settled-append_idle :
    (available : ℕ) (ws : List ℕ) (rs : List (Option Request))
    → Settled available ws rs
    → Settled available ws (rs ++ some idle_request ∷ [])
Settled-append_idle available [] rs h = tt
Settled-append_idle available (j ∷ ws) rs h = rw (request_at-append_idle rs j) h

-- A new permit is the last of the list and of the store.
owned-append :
    (ps : List FramePermit) (p : FramePermit) (k : ℕ)
    → ((i : ℕ) (q : FramePermit) → get_elem? ps i ≡ some q → q.request ≡ k + i)
    → p.request ≡ k + length ps
    → (i : ℕ) (q : FramePermit) → get_elem? (ps ++ p ∷ []) i ≡ some q
    → q.request ≡ k + i
owned-append [] p k owned new zero q h = ground arith
owned-append [] p k owned new (suc i) q h = cc
owned-append (x ∷ ps) p k owned new zero q h = owned zero q h
owned-append (x ∷ ps) p k owned new (suc i) q h = omega (
  arith,
  owned-append ps p (suc k) (λ j t e. omega (arith, owned (suc j) t e)) (omega arith) i q h,
)

allocated-Inv : (n : ℕ) (s : System) → Inv n s → Inv n (allocated s)
unfolding permit
allocated-Inv n s inv = record {
  total = inv.total;
  conserved = omega (
    arith,
    inv.conserved,
    sum_of-append granted_of s.budget.state.requests (some idle_request ∷ []),
    sum_of-append (λ (p : FramePermit). p.capacity) s.permits
        (record { capacity = 0; request = length s.budget.state.requests } ∷ []),
  );
  sound = record {
    queued = record {
      tracked =
          λ i. rw (request_at-append_idle s.budget.state.requests i) (inv.sound.queued.tracked i);
      sized = λ i. rw (request_at-append_idle s.budget.state.requests i) (inv.sound.queued.sized i);
    };
    settled =
        Settled-append_idle _ s.budget.state.waiters s.budget.state.requests inv.sound.settled;
  };
  owned = λ i p h. omega (
    arith,
    owned-append s.permits (record { capacity = 0; request = length s.budget.state.requests }) 0
        (λ j t e. omega (arith, inv.owned j t e)) (omega (arith, inv.sized)) i p h,
  );
  sized = omega (
    arith,
    inv.sized,
    length-append s.permits
        (record { capacity = 0; request = length s.budget.state.requests } ∷ []),
    length-append s.budget.state.requests (some idle_request ∷ []),
  );
}

request_at-set-none :
    (rs : List (Option Request)) (i : ℕ) → request_at (set rs i none) i ≡ idle_request
request_at-set-none [] i = refl
request_at-set-none (o ∷ rs) zero = refl
request_at-set-none (o ∷ rs) (suc i) = request_at-set-none rs i

-- Freeing an idle request changes nothing else.
free-Advances :
    (b : FrameBudget) (p : FramePermit) (r : Request)
    → upgrade b.state.requests p.request ≡ some r
    → r.waiting ≡ false
    → r.granted ≡ 0
    → IsSound b.state
    → Advances b p
        (record b { state = record b.state { requests = set b.state.requests p.request none } })
        p
free-Advances b p r live idle spent sound = record {
  total = refl;
  balance = omega (arith, reserved-set b.state.requests p.request r none live, spent);
  sound = record {
    queued = record {
      tracked = λ j. elim (ℕ_discrete p.request j) [
        | yes e ↦ rw (← e, request_at-set-none b.state.requests p.request) gone
        | no ne ↦
            rw (request_at-set_ne b.state.requests p.request j none ne) (sound.queued.tracked j)
      ];
      sized = λ j. elim (ℕ_discrete p.request j) [
        | yes e ↦ rw (← e, request_at-set-none b.state.requests p.request) (λ w. cc)
        | no ne ↦ rw (request_at-set_ne b.state.requests p.request j none ne) (sound.queued.sized j)
      ];
    };
    settled =
        Settled-set_absent _ b.state.waiters b.state.requests p.request none gone sound.settled;
  };
  same = refl;
  sized = length-set b.state.requests p.request none;
}
  where
    gone : count p.request b.state.waiters ≡ 0
    gone = ground (
      arith,
      sound.queued.tracked p.request,
      request_at-upgrade b.state.requests p.request r live,
    )

drop_permit-Advances :
    (b : FrameBudget) (p : FramePermit)
    → IsLive b p
    → IsSound b.state
    → Advances b p (drop_permit b p).0 (record p { capacity = 0 })
unfolding drop_permit
drop_permit-Advances b p (r, live) sound =
    let s = shrink_to b p 0 in
    let first = shrink_to-Advances b p 0 (r, live) sound in
    let freed =
      free-Advances s.budget s.permit (record r { granted = 0; waiting = false; waker = none })
        (shrink_to_request b p 0 r live sound) refl refl first.sound in
    let none_kept : min p.capacity 0 ≡ 0 = omega arith in
    subst (λ c. Advances b p (drop_permit b p).0 (record p { capacity = c })) none_kept
      (Advances-trans first freed)

-- Every operation on a permit keeps the invariant.
pub Step-Inv : {n : ℕ} {s t : System} → Step s t → Inv n s → Inv n t
Step-Inv {n} {s} allocate inv = allocated-Inv n s inv
Step-Inv {n} {s} (grow i p cx minimum desired e live) inv =
    set-Inv n s i p _ _ inv e (poll_grow-Advances s.budget p cx minimum desired live inv.sound)
Step-Inv {n} {s} (shrink i p size e live) inv =
    set-Inv n s i p _ _ inv e (shrink_to-Advances s.budget p size live inv.sound)
Step-Inv {n} {s} (free i p e live) inv =
    set-Inv n s i p _ _ inv e (drop_permit-Advances s.budget p live inv.sound)

pub Reach-Inv : {n : ℕ} {s : System} → Reach n s → Inv n s
Reach-Inv {n} created = start-Inv n
Reach-Inv (next r st) = Step-Inv st (Reach-Inv r)

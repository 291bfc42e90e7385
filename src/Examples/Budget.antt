-- ===== src/Examples/Budget.antt =====
-- src/budget.rs at work: four frames, a permit that holds three of them, and one that waits for two.
use carbon_io.Prelude.{◌≡◌, ◌⊎◌, refl, true, [], ◌∷◌, some, ok, ready}
use carbon_io.Budget.{
  Request, State, FrameBudget, FramePermit, idle_request, new_budget, permit, poll_grow, shrink_to,
  dispatch,
}
use carbon_io.Budget.Dispatch.{Dispatched, dispatch-Dispatched}
use carbon_io.Budget.Permit.{IsSound, Released, shrink_to-Released}
use carbon_io.Budget.System.{System, allocate, grow, Reach, created, next, Inv, Reach-Inv}
use carbon_io.Budget.Polls.{Answer, poll_grow-Answer, poll_grow-no_steal, served-poll_grow}

abbrev holder : FramePermit
holder = record { capacity = 3; request = 0 }

abbrev waiter : FramePermit
waiter = record { capacity = 0; request = 1 }

abbrev waiting_request : Request
waiting_request = record { minimum = 2; desired = 4; granted = 0; waiting = true; waker = some 9 }

abbrev contended : FrameBudget
contended = record {
  total = 4;
  state = record {
    available = 1;
    waiters = 1 ∷ [];
    requests = some idle_request ∷ some waiting_request ∷ [];
  };
}

abbrev contended_system : System
contended_system = record { budget = contended; permits = holder ∷ waiter ∷ [] }

-- The four operations that lead there.
contended_reached : Reach 4 contended_system
unfolding new_budget permit poll_grow
contended_reached =
    next
      (next (next (next created allocate) allocate)
        (grow 0 (record { capacity = 0; request = 0 }) 8 3 3 refl (idle_request, refl)))
      (grow 1 waiter 9 2 4 refl (idle_request, refl))

Reach-Inv_example : Inv 4 contended_system
Reach-Inv_example = Reach-Inv contended_reached

contended-IsSound : IsSound contended.state
contended-IsSound = (Reach-Inv contended_reached).sound

poll_grow-Answer_example : Answer contended waiter 7 2 4 (poll_grow contended waiter 7 2 4)
poll_grow-Answer_example = poll_grow-Answer contended waiter 7 2 4 (waiting_request, refl)

poll_grow-no_steal_example :
    (poll_grow contended (record { capacity = 0; request = 0 }) 7 1 1).budget.state.available ≡ 1
poll_grow-no_steal_example =
    poll_grow-no_steal contended (record { capacity = 0; request = 0 }) 7 1 1 refl

shrink_to-Released_example : Released contended holder 0 (shrink_to contended holder 0)
shrink_to-Released_example =
    shrink_to-Released contended holder 0 (idle_request, refl) contended-IsSound

-- The waiter is woken with all that it wanted.
shrink_to_wakes : (shrink_to contended holder 0).wakes ≡ 9 ∷ []
unfolding shrink_to
shrink_to_wakes = refl

shrink_to_grants : (shrink_to contended holder 0).budget.state.available ≡ 0
unfolding shrink_to
shrink_to_grants = refl

dispatch-Dispatched_example :
    Dispatched 1
      (1 ∷ [])
      contended.state.requests
      (dispatch contended.state).0
      (dispatch contended.state).1
dispatch-Dispatched_example = dispatch-Dispatched contended.state contended-IsSound.queued

-- The budget before the waiter asks for two to four frames.
abbrev uncontended : FrameBudget
uncontended = record {
  total = 4;
  state = record {
    available = 1;
    waiters = [];
    requests = some idle_request ∷ some idle_request ∷ [];
  };
}

-- The holder gives its three frames back, and the waiter is served.
abbrev given_back : State
given_back = record contended.state { available = 4 }

served-poll_grow_example :
    let g =
      poll_grow
        (record uncontended { state = (dispatch given_back).0 })
        (poll_grow uncontended waiter 9 2 4).permit
        7
        2
        4 in
    (g.result ≡ ready (ok tt))
    × ((g.permit.capacity ≡ 2) ⊎ (g.permit.capacity ≡ 4))
    × (g.budget.state.available ≡ (dispatch given_back).0.available)
    × (g.budget.state.waiters ≡ (dispatch given_back).0.waiters)
unfolding poll_grow dispatch
served-poll_grow_example =
    served-poll_grow uncontended waiter 9 7 2 4 given_back (dispatch given_back).0
      (idle_request, refl) refl refl contended-IsSound.queued refl refl refl

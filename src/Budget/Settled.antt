-- ===== src/Budget/Settled.antt =====
-- No capacity of src/budget.rs lies idle that the first waiter could use, and what keeps it so.
use native.Mathlib.Decide.{ℕ_discrete}
use carbon_io.Prelude.{
  ℕ, ◌≤◌, ◌<◌, ◌≡◌, refl, true, List, [], ◌∷◌, ◌++◌, Option, some, arith, length, set,
}
use carbon_io.Budget.{Request, is_empty, request_at}
use carbon_io.Budget.Store.{count, request_at-set_self, request_at-set_ne}

-- The queue is empty, or its first waiter wants more than is available.
abbrev pub Settled : ℕ → List ℕ → List (Option Request) → Type 0
Settled available [] rs = Unit {0}
Settled available (i ∷ ws) rs = available < (request_at rs i).minimum

-- A write that does not lower a minimum keeps it.
pub Settled-set :
    (available : ℕ) (ws : List ℕ) (rs : List (Option Request)) (i : ℕ) (r' : Request)
    → i < length rs
    → (request_at rs i).minimum ≤ r'.minimum
    → Settled available ws rs
    → Settled available ws (set rs i (some r'))
Settled-set available [] rs i r' lt le h = tt
Settled-set available (j ∷ ws) rs i r' lt le h = elim (ℕ_discrete i j) [
  | yes p ↦ rw (← p, request_at-set_self rs i r' lt) (ground (arith, p))
  | no p ↦ rw (request_at-set_ne rs i j (some r') p) h
]

-- So does a write to a request that is not in the queue.
pub Settled-set_absent :
    (available : ℕ) (ws : List ℕ) (rs : List (Option Request)) (i : ℕ) (o : Option Request)
    → count i ws ≡ 0
    → Settled available ws rs
    → Settled available ws (set rs i o)
Settled-set_absent available [] rs i o c h = tt
Settled-set_absent available (j ∷ ws) rs i o c h =
    rw (request_at-set_ne rs i j o (λ p. ground arith)) h

-- So does a new waiter at the back, if it could not be served on an empty queue.
pub Settled-push :
    (available : ℕ) (ws : List ℕ) (rs : List (Option Request)) (i : ℕ)
    → (is_empty ws ≡ true → available < (request_at rs i).minimum)
    → Settled available ws rs
    → Settled available (ws ++ i ∷ []) rs
Settled-push available [] rs i new h = new refl
Settled-push available (j ∷ ws) rs i new h = h

pub is_empty-eq-nil : (ws : List ℕ) → is_empty ws ≡ true → ws ≡ []
is_empty-eq-nil [] h = refl
is_empty-eq-nil (i ∷ ws) h = cc

-- ===== src/Budget/Store.antt =====
-- The store of requests behind src/budget.rs: what a write changes, and when the queue of waiters
-- and the requests agree.
use native.Mathlib.Decide.{ℕ_discrete}
use carbon_io.Prelude.{
  ℕ, ◌+◌, ◌≤◌, ◌<◌, ◌≡◌, ◌≢◌, refl, true, List, [], ◌∷◌, ◌++◌, Option, none, some, arith, ◌==◌,
  if◌then◌else◌, length, get_elem?, set, sum_of, sum_of-set, get_elem?-set_self, get_elem?-set_ne,
  get_elem?-lt, inl, inr, Option-cases, ◌∙◌,
}
use carbon_io.Budget.{Request, upgrade, request_at, retain_others}

-- How often a request stands in the queue.
abbrev pub count : ℕ → List ℕ → ℕ
count i [] = 0
count i (j ∷ ws) = (if j == i then 1 else 0) + count i ws

abbrev pub waits_at : List (Option Request) → ℕ → ℕ
waits_at rs i = if (request_at rs i).waiting then 1 else 0

abbrev pub granted_of : Option Request → ℕ
granted_of none = 0
granted_of (some r) = r.granted

-- Capacity that is reserved for requests and not yet collected.
abbrev pub reserved : List (Option Request) → ℕ
reserved = sum_of granted_of

-- A waiting request asks for something, prefers no less, and holds no grant.
pub record IsWaiter (r : Request) : Type 0 where
  pub positive : 0 < r.minimum
  pub ordered : r.minimum ≤ r.desired
  pub unspent : r.granted ≡ 0

-- The queue holds each waiting request once, and no other.
pub record IsQueued (ws : List ℕ) (rs : List (Option Request)) : Type 0 where
  pub tracked : (i : ℕ) → count i ws ≡ waits_at rs i
  pub sized : (i : ℕ) → (request_at rs i).waiting ≡ true → IsWaiter (request_at rs i)

pub upgrade-get_elem? :
    (rs : List (Option Request)) (i : ℕ) (r : Request)
    → upgrade rs i ≡ some r
    → get_elem? rs i ≡ some (some r)
upgrade-get_elem? rs i r h = ground arith

pub request_at-upgrade :
    (rs : List (Option Request)) (i : ℕ) (r : Request) → upgrade rs i ≡ some r → request_at rs i ≡ r
request_at-upgrade rs i r h = ground arith

pub request_at-set_self :
    (rs : List (Option Request)) (i : ℕ) (r : Request)
    → i < length rs
    → request_at (set rs i (some r)) i ≡ r
request_at-set_self rs i r h = ground (arith, get_elem?-set_self rs i (some r) h)

pub upgrade-set_self :
    (rs : List (Option Request)) (i : ℕ) (r : Request)
    → i < length rs
    → upgrade (set rs i (some r)) i ≡ some r
upgrade-set_self rs i r h = ground (arith, get_elem?-set_self rs i (some r) h)

pub request_at-set_ne :
    (rs : List (Option Request)) (i j : ℕ) (o : Option Request)
    → i ≢ j
    → request_at (set rs i o) j ≡ request_at rs j
request_at-set_ne rs i j o h = ground (arith, get_elem?-set_ne rs i j o h)

pub upgrade-set_ne :
    (rs : List (Option Request)) (i j : ℕ) (o : Option Request)
    → i ≢ j
    → upgrade (set rs i o) j ≡ upgrade rs j
upgrade-set_ne rs i j o h = ground (arith, get_elem?-set_ne rs i j o h)

pub upgrade-lt :
    (rs : List (Option Request)) (i : ℕ) (r : Request) → upgrade rs i ≡ some r → i < length rs
upgrade-lt rs i r h = get_elem?-lt rs i (some r) (upgrade-get_elem? rs i r h)

-- A write to a live request exchanges its grant for the new one.
pub reserved-set :
    (rs : List (Option Request)) (i : ℕ) (r : Request) (o : Option Request)
    → upgrade rs i ≡ some r
    → reserved (set rs i o) + r.granted ≡ reserved rs + granted_of o
reserved-set rs i r o h = sum_of-set granted_of rs i (some r) o (upgrade-get_elem? rs i r h)

-- A waiting request is live: a dangling index reads as an idle request.
pub waiting-upgrade :
    (rs : List (Option Request)) (i : ℕ)
    → waits_at rs i ≢ 0
    → (r : Request) × (upgrade rs i ≡ some r) × (r.waiting ≡ true)
waiting-upgrade rs i h = elim (Option-cases (upgrade rs i)) [
  | inl e ↦ absurd (ground arith)
  | inr (r, e) ↦ (r, e, ground arith)
]

pub count-append : (i : ℕ) (xs ys : List ℕ) → count i (xs ++ ys) ≡ count i xs + count i ys
count-append i [] ys = omega arith
count-append i (x ∷ xs) ys = omega (arith, count-append i xs ys)

pub count-retain_others_self : (i : ℕ) (ws : List ℕ) → count i (retain_others i ws) ≡ 0
unfolding retain_others
count-retain_others_self i [] = refl
count-retain_others_self i (j ∷ ws) = ground (arith, count-retain_others_self i ws)

pub count-retain_others_ne :
    (i j : ℕ) (ws : List ℕ) → i ≢ j → count j (retain_others i ws) ≡ count j ws
unfolding retain_others
count-retain_others_ne i j [] h = refl
count-retain_others_ne i j (k ∷ ws) h = ground (arith, count-retain_others_ne i j ws h)

-- A write to a live request keeps the agreement if the queue changes only for that request, and to
-- what the new request says.
pub IsQueued-set :
    (ws ws' : List ℕ) (rs : List (Option Request)) (i : ℕ) (r' : Request)
    → IsQueued ws rs
    → i < length rs
    → count i ws' ≡ (if r'.waiting then 1 else 0)
    → ((j : ℕ) → i ≢ j → count j ws' ≡ count j ws)
    → (r'.waiting ≡ true → IsWaiter r')
    → IsQueued ws' (set rs i (some r'))
IsQueued-set ws ws' rs i r' q lt here there fit = record {
  tracked = λ j. elim (ℕ_discrete i j) [
    | yes p ↦ rw (← p, request_at-set_self rs i r' lt) here
    | no p ↦ rw (request_at-set_ne rs i j (some r') p) (there j p ∙ q.tracked j)
  ];
  sized = λ j. elim (ℕ_discrete i j) [
    | yes p ↦ rw (← p, request_at-set_self rs i r' lt) fit
    | no p ↦ rw (request_at-set_ne rs i j (some r') p) (q.sized j)
  ];
}

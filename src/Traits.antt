-- ===== src/Traits.antt =====
-- src/traits.rs: the backends. A backend is not part of the library, so its type, its operations
-- and its errors are parameters: an operation takes the file and the waker of the `Context`, and
-- returns the file after the call with the answer.
use carbon_io.Prelude.{ℕ, Option, Result, Poll}
use carbon_io.Budget.{Waker}

-- `trait ReadFile<T>` with `type Error = E`, for files of type `F`.
pub record ReadFile (T F E : Type 0) : Type 0 where
  pub frame_count : F → ℕ
  pub poll_open : F → Waker → F × Poll (Result (Unit {0}) E)
  pub poll_read : F → Waker → T → F × T × Poll (Result (Option (Unit {0})) E)

-- `trait WriteFile<T>` with `type Error = E` and `type Output = O`, for files of type `F`.
pub record WriteFile (T F E O : Type 0) : Type 0 where
  pub frame_capacity : F → ℕ
  pub poll_open : F → Waker → F × Poll (Result (Unit {0}) E)
  pub poll_write : F → Waker → T → F × Poll (Result (Unit {0}) E)
  pub poll_close : F → Waker → F × Poll (Result O E)

-- `Pin<P>`, a pinned pointer to a file.
pub record Pin (F : Type 0) : Type 0 where
  pub target : F

-- `impl ReadFile<T> for Pin<P>`: every operation goes to the target.
unfoldable pub pinned_read : {T F E : Type 0} → ReadFile T F E → ReadFile T (Pin F) E
pinned_read file = record {
  frame_count = λ p. file.frame_count p.target;
  poll_open =
      λ p cx. let (f, answer) = file.poll_open p.target cx in (record { target = f }, answer);
  poll_read = λ p cx frame.
      let (f, frame', answer) = file.poll_read p.target cx frame in
      (record { target = f }, frame', answer);
}

-- `impl WriteFile<T> for Pin<P>`.
unfoldable pub pinned_write : {T F E O : Type 0} → WriteFile T F E O → WriteFile T (Pin F) E O
pinned_write file = record {
  frame_capacity = λ p. file.frame_capacity p.target;
  poll_open =
      λ p cx. let (f, answer) = file.poll_open p.target cx in (record { target = f }, answer);
  poll_write = λ p cx frame.
      let (f, answer) = file.poll_write p.target cx frame in (record { target = f }, answer);
  poll_close =
      λ p cx. let (f, answer) = file.poll_close p.target cx in (record { target = f }, answer);
}

-- ===== src/Read/Contract.antt =====
-- What src/traits.rs asks of a `ReadFile`, as laws: opening and waiting use up no frame, and a
-- successful read hands over the next one. A file is opened until that succeeds once, again after a
-- pending poll or an error, and never after it. A read that waits is continued on the same buffer; a
-- new one may begin on any buffer.
use carbon_io.Prelude.{◌≡◌, ◌≢◌, List, ◌∷◌, some, ok, ready, pending}
use carbon_io.Budget.{Waker}
use carbon_io.Traits.{ReadFile}

-- The calls of a `ReadFile`.
pub data Call (T : Type 0) : Type 0 where
  to_open : Call T
  to_read : T → Call T

-- `rest f` are the frames that `f` has not delivered yet, and `fits f call` says that `f` may be
-- polled by this call.
pub record Contract {T F E : Type 0} (file : ReadFile T F E) (rest : F → List T)
    (fits : F → Call T → Type 0) : Type 0 where
  pub opens : (f : F) (cx : Waker) → fits f to_open → rest (file.poll_open f cx).0 ≡ rest f
  pub reopens :
      (f : F) (cx : Waker)
      → fits f to_open
      → (file.poll_open f cx).1 ≢ ready (ok tt)
      → fits (file.poll_open f cx).0 to_open
  pub begins :
      (f : F) (cx : Waker)
      → fits f to_open
      → (file.poll_open f cx).1 ≡ ready (ok tt)
      → (buffer : T) → fits (file.poll_open f cx).0 (to_read buffer)
  pub waits :
      (f : F) (cx : Waker) (buffer : T)
      → fits f (to_read buffer)
      → (file.poll_read f cx buffer).2 ≡ pending
      → (rest (file.poll_read f cx buffer).0 ≡ rest f)
        × fits (file.poll_read f cx buffer).0 (to_read (file.poll_read f cx buffer).1)
  pub reads :
      (f : F) (cx : Waker) (buffer : T)
      → fits f (to_read buffer)
      → (file.poll_read f cx buffer).2 ≡ ready (ok (some tt))
      → (rest f ≡ (file.poll_read f cx buffer).1 ∷ rest (file.poll_read f cx buffer).0)
        × ((next : T) → fits (file.poll_read f cx buffer).0 (to_read next))

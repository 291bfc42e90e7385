-- ===== src/Read/Order/Runs.antt =====
-- src/read.rs: whole runs of a `ReadScheduler`, from `new` through any calls of its operations.
use mathlib.Core.List.{append_assoc, append-nil}
use carbon_io.Read.Order.{InOrder}
use carbon_io.Prelude.{
  ℕ, ◌<◌, ◌≡◌, ◌≢◌, inl, refl, sym, ap, ◌∙◌, List, [], ◌∷◌, ◌++◌, some, none, ◌+◌, inr, false, true,
  arith, length-append, length, ok, err, ready, u32_mod,
}
use carbon_io.Config.{SchedulerConfig, Window}
use carbon_io.Budget.{Waker, FrameBudget, State}
use carbon_io.Traits.{ReadFile}
use carbon_io.Read.State.{PushError, ReadScheduler, Factory, new_reader}
use carbon_io.Read.Api.{push_file, poll_progress, poll_read, close_files, set_window}
use carbon_io.Read.Contract.{Call, to_open, Contract}
use carbon_io.Read.Order.Delivery.{frame, waits, ends, fails, poll_read-Delivery}
use carbon_io.Read.Order.Calls.{
  read-next, new-InOrder, Standing, close-Standing, resize-Standing, push-Standing, refuse-Standing,
  other-Standing, read-Standing, progress-Standing,
}

-- A run over files whose frames `rest` tells and whose calls `fits` allows: the stream of all frames of
-- the files that it took, the frames that it delivered, and the scheduler that it reached. A file that
-- is pushed may be opened, and other users of the budget may change its shared state between any two
-- calls.
pub data Run {T F E A : Type 0} ⦃file : ReadFile T F E⦄ ⦃factory : Factory T A⦄ (rest : F → List T)
    (fits : F → Call T → Type 0) : List T → List T → ReadScheduler T F E A → Type 0 where
  start :
      (make_frame : A) (budget : FrameBudget) (config : SchedulerConfig) (r : ReadScheduler T F E A)
      → new_reader make_frame budget config ≡ ok r
      → Run rest fits [] [] r
  push :
      (stream out : List T) (r : ReadScheduler T F E A) (f : F)
      → length (rest f) ≡ file.frame_count f
      → file.frame_count f < u32_mod
      → fits f to_open
      → (push_file r f).result ≡ ok tt
      → Run rest fits stream out r
      → Run rest fits (stream ++ rest f) out (push_file r f).scheduler
  refuse :
      (stream out : List T) (r : ReadScheduler T F E A) (f : F) (why : PushError × F)
      → length (rest f) ≡ file.frame_count f
      → file.frame_count f < u32_mod
      → fits f to_open
      → (push_file r f).result ≡ err why
      → Run rest fits stream out r
      → Run rest fits stream out (push_file r f).scheduler
  read :
      (stream out : List T) (r : ReadScheduler T F E A) (cx : Waker) (output : T)
      → (poll_read r cx output).result ≡ ready (ok (some tt))
      → Run rest fits stream out r
      → Run rest fits stream
          (out ++ (poll_read r cx output).output ∷ [])
          (poll_read r cx output).scheduler
  other :
      (stream out : List T) (r : ReadScheduler T F E A) (cx : Waker) (output : T)
      → (poll_read r cx output).result ≢ ready (ok (some tt))
      → Run rest fits stream out r
      → Run rest fits stream out (poll_read r cx output).scheduler
  progress :
      (stream out : List T) (r : ReadScheduler T F E A) (cx : Waker)
      → Run rest fits stream out r
      → Run rest fits stream out (poll_progress r cx)
  close :
      (stream out : List T) (r : ReadScheduler T F E A)
      → Run rest fits stream out r
      → Run rest fits stream out (close_files r)
  resize :
      (stream out : List T) (r : ReadScheduler T F E A) (window : Window)
      → Run rest fits stream out r
      → Run rest fits stream out (set_window r window).0
  elsewhere :
      (stream out : List T) (r : ReadScheduler T F E A) (state : State)
      → Run rest fits stream out r
      → Run rest fits stream out (record r { budget = record r.budget { state = state } })

all_delivered :
    {T : Type 0} (stream out later : List T)
    → out ++ later ≡ stream
    → length out ≡ length stream
    → out ≡ stream
all_delivered {T} stream out later split long =
    let same : length out + length later ≡ length out =
      sym (length-append out later) ∙ ap length split ∙ sym long in
    sym (append-nil out) ∙ ap (λ l. out ++ l) (sym (none_later later (omega (arith, same)))) ∙ split
  where
    none_later : (l : List T) → length l ≡ 0 → l ≡ []
    none_later [] e = refl
    none_later (x ∷ l) e = cc

module _ {T F E A : Type 0} (rest : F → List T) (fits : F → Call T → Type 0) where
  -- The order does not depend on the budget.
  budget-InOrder :
      (stream : List T) (e : ℕ) (r : ReadScheduler T F E A) (state : State)
      → InOrder rest fits stream e r
      → InOrder rest fits stream e (record r { budget = record r.budget { state = state } })
  budget-InOrder stream e r state inv = inv

module _ {T F E A : Type 0} ⦃file : ReadFile T F E⦄ ⦃factory : Factory T A⦄ (rest : F → List T)
    (fits : F → Call T → Type 0) (keeps : Contract file rest fits) where
  -- In every run, from `new` through any calls of the public operations and any changes of the shared
  -- budget between them, over files that keep their contract, may be opened when they are pushed
  -- and declare as many frames as they have, fewer than 2^32: the frames that `poll_read` delivered
  -- are the first ones of the taken files' frames, in the order in which the files were pushed and
  -- each once. The reader is in order with what it delivered, or it has terminated.
  pub Run-ordered :
      (stream out : List T) (r : ReadScheduler T F E A)
      → Run rest fits stream out r
      → ((later : List T) × (out ++ later ≡ stream)) × Standing rest fits stream out r
  Run-ordered stream out r (start make_frame budget config r' eq) =
      (([], refl), inl (new-InOrder rest fits keeps make_frame budget config r' eq))
  Run-ordered stream out r (push stream' out' r' f all small unopened met run) =
      let ((later, eq), state) = Run-ordered stream' out' r' run in
      (
        (later ++ rest f, sym (append_assoc out' later (rest f)) ∙ ap (λ xs. xs ++ rest f) eq),
        push-Standing rest fits keeps stream' out' r' f all small unopened met state,
      )
  Run-ordered stream out r (refuse stream' out' r' f why all small unopened eq run) =
      let (prefix, state) = Run-ordered stream' out' r' run in
      (prefix, refuse-Standing rest fits keeps stream' out' r' f why all small unopened eq state)
  Run-ordered stream out r (read stream' out' r' cx output eq run) =
      let ((later, same), state) = Run-ordered stream' out' r' run in
      let (there, state') = read-Standing rest fits keeps stream' out' r' cx output eq state in
      (read-next stream' out' (poll_read r' cx output).output later same there, state')
  Run-ordered stream out r (other stream' out' r' cx output eq run) =
      let (prefix, state) = Run-ordered stream' out' r' run in
      (prefix, other-Standing rest fits keeps stream' out' r' cx output eq state)
  Run-ordered stream out r (progress stream' out' r' cx run) =
      let (prefix, state) = Run-ordered stream' out' r' run in
      (prefix, progress-Standing rest fits keeps stream' out' r' cx state)
  Run-ordered stream out r (close stream' out' r' run) =
      let (prefix, state) = Run-ordered stream' out' r' run in
      (prefix, close-Standing rest fits keeps stream' out' r' state)
  Run-ordered stream out r (resize stream' out' r' window run) =
      let (prefix, state) = Run-ordered stream' out' r' run in
      (prefix, resize-Standing rest fits keeps stream' out' r' window state)
  Run-ordered stream out r (elsewhere stream' out' r' state run) =
      let (prefix, standing) = Run-ordered stream' out' r' run in
      (
        prefix,
        elim standing [
          | inl inv ↦ inl (budget-InOrder rest fits stream' (length out') r' state inv)
          | inr t ↦ inr t
        ],
      )

  -- In every run with any changes of the shared budget between its calls, over files that keep their
  -- contract, may be opened when they are pushed and declare as many frames as they have, fewer
  -- than 2^32: when `poll_read` of a reader that has not terminated reports the end, the reader was
  -- closed and every frame of the taken files has been delivered, in order and each once.
  pub Run-complete :
      (stream out : List T) (r : ReadScheduler T F E A) (cx : Waker) (output : T)
      → Run rest fits stream out r
      → r.terminated ≡ false
      → (poll_read r cx output).result ≡ ready (ok none)
      → (out ≡ stream) × ((poll_read r cx output).scheduler.closed ≡ true)
  Run-complete stream out r cx output run alive ends_now =
      let ((later, split), state) = Run-ordered stream out r run in
      elim state [
        | inr t ↦ cc
        | inl inv ↦ elim (poll_read-Delivery rest fits stream (length out) r cx output keeps inv) [
          | frame unmet _ _ ↦ cc
          | waits unmet _ _ ↦ cc
          | ends _ _ all closed _ ↦ (all_delivered stream out later split all, closed)
          | fails x unmet _ _ _ ↦ cc
        ]
      ]

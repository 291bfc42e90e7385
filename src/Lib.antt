-- ===== src/Lib.antt =====
-- A model of carbon-io: a library that reads and writes several files concurrently through bounded
-- buffers, with ordered output.
--
-- The parts, and the files of the repository that they model:
--   Errors    src/error.rs: ContractError, SchedulerError.
--   Config    src/config.rs: Window and its validation, SchedulerConfig.
--   Budget    src/budget.rs: the capacity that all schedulers share. FrameBudget owns the free amount
--             and a FIFO of waiting requests; a FramePermit grows by poll_grow, gives back by
--             shrink_to, and dispatch serves the waiters from the front.
--   Traits    src/traits.rs: ReadFile and WriteFile. Backends are no part of the library, so they are
--             records of operations that the schedulers take as parameters.
--   Read      src/read.rs: ReadScheduler. State is its data, Files the poll of one file, Drive the
--             round-robin loop, Api push_file, poll_read, poll_progress, close_files and set_window.
--             Contract is what src/traits.rs asks of a ReadFile, Layout where the files stand in the
--             stream of all frames, Feed which calls they are polled by, and Order that every
--             operation keeps the cells in the order of the stream.
--   Write     src/write.rs: WriteScheduler. Frames are partial frames and the frame queue of a slot,
--             Slots the state machine of one destination, State the scheduler's data and helpers,
--             Drive its loop, Api push_file, poll_write, pop_swap, poll_close and pop_file. Contract
--             is what the scheduler asks of a WriteFile and of a PartialFrame, Replay and Runs the
--             life of one slot, Sized what a slot counts and takes of the permit, Queue the slots
--             together, Account that every operation keeps the whole scheduler accounted for, and
--             Session any sequence of calls: Bounds, Delivery, Failure, Wakeups and Status are what it
--             keeps to.
--   Display   the messages and the sources of the errors of src/error.rs, src/read.rs and src/write.rs.
--   Memory    examples/memory/src/main.rs: the example's source, frames and destination, and in Main
--             its main, which a test runs; Contracts that they keep what the schedulers ask, and
--             Delivery that the source delivers its range.
--   Prelude   what the parts share: lists and Boolean tests over the native numbers, machine words.
--   Examples  tests by evaluation, and each theorem at an input that meets its hypotheses.
--
-- A method with `&mut self` is a function from the state to the state. A scheduler reaches the
-- shared budget through its own field, so the budget stands in the scheduler's state, and the
-- wakers that a call wakes are appended to the field `woken`. `Arc<Mutex<Request>>` allocations are
-- a list, a `Weak` is an index of it, and a waker is the number of the task that it wakes. `usize`
-- is 64 bits wide: the wrapping, saturating and checked operations of the source are written out, and
-- the plain additions of the source are additions of natural numbers.
-- The loops of drive recur on fuel: one more than the polls that a call may make, which is enough
-- since every round that goes on has used one up. The loops of the example's main recur on fuel
-- too, and its test shows that 64 rounds are enough. The other loops recur on the list they consume.
--
-- Not modelled: the mutex itself (each locked section is one step), Debug of the schedulers, the
-- never-ending futures around poll_progress, the networked examples and benchmarks.
pub mod Prelude
pub mod Errors
pub mod Config
pub mod Budget
pub mod Traits
pub mod Read
pub mod Write
pub mod Display
pub mod Memory
mod Examples

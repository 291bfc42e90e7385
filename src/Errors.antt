-- ===== src/Errors.antt =====
-- src/error.rs: the violations of the scheduler's contract and the terminal error of a reader.
use Prim.Native.String.{String}

pub data ContractError : Type 0 where
  zero_frame_count : ContractError
  zero_frame_capacity : ContractError
  unexpected_eof : ContractError
  missing_write_file : ContractError
  frame_capacity_exceeds_budget : ContractError
  zero_budget : ContractError
  invalid_window : ContractError
  invalid_budget_request : ContractError
  invalid_frame_position : ContractError
  input_closed : ContractError
  admission_not_ready : ContractError
  invalid_partial_frame : ContractError

-- `SchedulerError<E>`; `From<ContractError>` is the constructor `contract`.
pub data SchedulerError (E : Type 0) : Type 0 where
  backend : E → SchedulerError E
  contract : ContractError → SchedulerError E

-- `fmt::Display for ContractError`.
pub to_string : ContractError → String
to_string zero_frame_count = "read frame count must be nonzero"
to_string zero_frame_capacity = "write frame capacity must be nonzero"
to_string unexpected_eof = "reader ended before its declared frame count"
to_string missing_write_file = "no destination for the next input frame"
to_string frame_capacity_exceeds_budget = "replayable file exceeds the global frame budget"
to_string zero_budget = "frame budget must be nonzero"
to_string invalid_window = "target frames and active file limit must be nonzero"
to_string invalid_budget_request = "budget request requires minimum <= desired <= total capacity"
to_string invalid_frame_position = "frame position is outside the available read buffer"
to_string input_closed = "scheduler input is closed"
to_string admission_not_ready = "admission requires a readiness reservation"
to_string invalid_partial_frame =
    "partial frame must start empty and incomplete and complete nonempty"

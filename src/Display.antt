-- ===== src/Display.antt =====
-- src/error.rs, src/read.rs and src/write.rs: `fmt::Display` and `Error::source` of the errors. An
-- error of a backend or of an input displays itself, by a function that is a parameter.
use Prim.Native.String.{String, ◌++◌}
use carbon_io.Prelude.{◌⊎◌, inl, inr, Option, none, some}
use carbon_io.Errors.{ContractError, SchedulerError, backend, contract, to_string}
use carbon_io.Read.State.{PushError}
use carbon_io.Write.State.{WriteError}

abbrev pub scheduler_error_to_string : {E : Type 0} → (E → String) → SchedulerError E → String
scheduler_error_to_string show (backend e) = "backend: " ++ show e
scheduler_error_to_string show (contract e) = to_string e

abbrev pub push_error_to_string : PushError → String
push_error_to_string PushError.full = "read file window is full"
push_error_to_string PushError.closed = "read file admission is closed"
push_error_to_string (PushError.contract e) = to_string e

abbrev pub write_error_to_string :
    {I E : Type 0} → (I → String) → (E → String) → WriteError I E → String
write_error_to_string show_input show (WriteError.input e) = "input: " ++ show_input e
write_error_to_string show_input show (WriteError.backend e) = "backend: " ++ show e
write_error_to_string show_input show (WriteError.contract e) = to_string e

-- The error below, of its own type or of the contract.
abbrev pub scheduler_error_source : {E : Type 0} → SchedulerError E → Option (E ⊎ ContractError)
scheduler_error_source (backend e) = some (inl e)
scheduler_error_source (contract e) = some (inr e)

abbrev pub push_error_source : PushError → Option ContractError
push_error_source (PushError.contract e) = some e
push_error_source _ = none

abbrev pub write_error_source : {I E : Type 0} → WriteError I E → Option ((I ⊎ E) ⊎ ContractError)
write_error_source (WriteError.input e) = some (inl (inl e))
write_error_source (WriteError.backend e) = some (inl (inr e))
write_error_source (WriteError.contract e) = some (inr e)

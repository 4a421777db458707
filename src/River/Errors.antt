-- ===== src/River/Errors.antt =====
-- The errors of the package river, as values.
use skene.Prelude.{String}
use skene.Event.Store.{StoreError}
use skene.Workflow.Errors.{Error}
use skene.River.Registry.{RegistryError}

-- The sentinels of river/runner.go, the errors of what it calls, and fmt.Errorf with a wrapped error.
pub data RunnerError : Type 0 where
  runner_not_started runner_already_started run_not_found : RunnerError
  invalid_run_status signal_not_waiting : RunnerError
  signal_timed_out : (signal_name : String) → RunnerError
  unmarshallable : RunnerError
  from_registry : RegistryError → RunnerError
  from_store : StoreError → RunnerError
  from_workflow : Error → RunnerError
  out_of_fuel : RunnerError
  wrapped : String → RunnerError → RunnerError

-- What an operation returns: a value, or an error.
pub data Outcome (A : Type 0) : Type 0 where
  ok : A → Outcome A
  err : RunnerError → Outcome A

-- ===== src/River/Types.antt =====
-- river/types.go and `buildRunFromEvents` of river/runner.go: a run, as it is told from its events.
use skene.Prelude.{ℕ, String, Bool, true, false, Option, none, some, List, [], ◌∷◌}
use skene.Event.{
  Event, EventType, workflow_started, workflow_completed, workflow_failed, workflow_cancelled,
  signal_waiting, signal_received,
}
use skene.Event.Json.{RawMessage, nil, unmarshal}
use skene.Event.Data.{
  WorkflowStartedData, WorkflowCompletedData, WorkflowFailedData, WorkflowCancelledData,
  started_codec, completed_codec, failed_codec, cancelled_codec,
}
use skene.Workflow.History.{on_read}

pub data RunStatus : Type 0 where
  pending running completed failed cancelled waiting : RunStatus

-- `IsTerminal`
abbrev pub is_terminal : RunStatus → Bool
is_terminal completed = true
is_terminal failed = true
is_terminal cancelled = true
is_terminal _ = false

-- The constants, and `String`
abbrev pub status_text : RunStatus → String
status_text pending = "pending"
status_text running = "running"
status_text completed = "completed"
status_text failed = "failed"
status_text cancelled = "cancelled"
status_text waiting = "waiting"

-- `Run`. A zero time is `none`, as a nil one.
pub record Run : Type 0 where
  pub id : String
  pub workflow_name : String
  pub version : String
  pub status : RunStatus
  pub input : RawMessage
  pub output : RawMessage
  pub error : String
  pub started_at : Option ℕ
  pub completed_at : Option ℕ

-- `StartOptions`. Its metadata is not read.
pub record StartOptions : Type 0 where
  pub run_id : String
  pub priority : ℕ

abbrev pub new_run : String → Run
new_run run_id = record {
  id = run_id;
  workflow_name = "";
  version = "";
  status = pending;
  input = nil;
  output = nil;
  error = "";
  started_at = none;
  completed_at = none;
}

abbrev pub wait_if_running : RunStatus → RunStatus
wait_if_running running = waiting
wait_if_running s = s

abbrev pub run_if_waiting : RunStatus → RunStatus
run_if_waiting waiting = running
run_if_waiting s = s

-- The cases of the switch in `buildRunFromEvents`.
unfoldable pub project_type : EventType → Event → Run → Run
project_type workflow_started e run =
    on_read (unmarshal e.payload)
      (λ (d : WorkflowStartedData). record run {
        workflow_name = d.workflow_name;
        version = d.version;
        input = d.input;
        started_at = some e.timestamp;
        status = running;
      })
      run
project_type workflow_completed e run =
    on_read (unmarshal e.payload)
      (λ (d : WorkflowCompletedData). record run {
        output = d.output;
        completed_at = some e.timestamp;
        status = completed;
      })
      run
project_type workflow_failed e run =
    on_read (unmarshal e.payload)
      (λ (d : WorkflowFailedData). record run {
        error = d.error;
        completed_at = some e.timestamp;
        status = failed;
      })
      run
project_type workflow_cancelled e run =
    on_read (unmarshal e.payload)
      (λ (d : WorkflowCancelledData). record run {
        error = d.reason;
        completed_at = some e.timestamp;
        status = cancelled;
      })
      run
project_type signal_waiting e run = record run { status = wait_if_running run.status }
project_type signal_received e run = record run { status = run_if_waiting run.status }
project_type _ e run = run

unfoldable pub project_events : List Event → Run → Run
unfolding project_type
project_events [] run = run
project_events (e ∷ es) run = project_events es (project_type e.type e run)

-- `buildRunFromEvents`
unfoldable pub build_run : String → List Event → Run
unfolding project_events
build_run run_id events = project_events events (new_run run_id)

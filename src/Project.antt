-- ===== src/Project.antt =====
-- project/project.go: `RunStatus`, the status of a run as a dashboard shows it.
pub mod Children
pub mod Fates
pub mod Timeline
pub mod Invocations
pub mod Counts
pub mod Agreement
use Prim.Native.Nat.{◌/◌}
use skene.Prelude.{
  ℕ, zero, suc, ◌-◌, String, Bool, true, false, not, ◌&&◌, Option, none, some, List, [], ◌∷◌,
  if◌then◌else◌, ◌==◌, ltb, ℤ, pos, negsuc,
}
use skene.Event.{
  Event, EventType, workflow_started, workflow_completed, workflow_failed, workflow_cancelled,
  signal_waiting, signal_received, signal_timeout,
}
use skene.Event.Json.{unmarshal}
use skene.Event.Data.{
  WorkflowStartedData, WorkflowFailedData, WorkflowCancelledData, SignalWaitingData, started_codec,
  failed_codec, cancelled_codec, signal_waiting_codec,
}
use skene.Workflow.History.{on_read}

pub data Status : Type 0 where
  pending running completed failed cancelled waiting : Status

-- The texts of the constants
abbrev pub text_of : Status → String
text_of pending = "pending"
text_of running = "running"
text_of completed = "completed"
text_of failed = "failed"
text_of cancelled = "cancelled"
text_of waiting = "waiting"

-- `RunStatusResult`
pub record RunStatusResult : Type 0 where
  pub workflow_name : String
  pub version : String
  pub status : Status
  pub started_at : Option ℕ
  pub completed_at : Option ℕ
  pub duration_ms : Option ℤ
  pub error : Option String
  pub waiting_for_signal : Option String

-- `Milliseconds` of a negative duration, towards zero
abbrev pub negated : ℕ → ℤ
negated zero = pos 0
negated (suc n) = negsuc n

-- `end.Sub(start).Milliseconds()`
abbrev pub milliseconds : ℕ → ℕ → ℤ
milliseconds start end =
    if ltb end start then negated ((start - end) / 1000000) else pos ((end - start) / 1000000)

-- `calcDuration`
abbrev pub calc_duration : Option ℕ → Option ℕ → Option ℤ
calc_duration none end = none
calc_duration (some start) none = none
calc_duration (some start) (some end) = some (milliseconds start end)

abbrev pub empty_result : Status → RunStatusResult
empty_result status = record {
  workflow_name = "";
  version = "";
  status = status;
  started_at = none;
  completed_at = none;
  duration_ms = none;
  error = none;
  waiting_for_signal = none;
}

-- The lines that the three ends of a run share.
abbrev pub end_run : Status → ℕ → RunStatusResult → RunStatusResult
end_run status ts r = record r {
  status = status;
  completed_at = some ts;
  duration_ms = calc_duration r.started_at (some ts);
}

-- A case of the switch: the result, and `waitingSignal`.
unfoldable pub status_type : EventType → Event → RunStatusResult × String → RunStatusResult × String
status_type workflow_started e (r, signal) =
    let r' =
      on_read (unmarshal e.payload)
        (λ (d : WorkflowStartedData). record r {
          workflow_name = d.workflow_name;
          version = d.version;
        })
        r in
    (record r' { started_at = some e.timestamp }, signal)
status_type workflow_completed e (r, signal) = (end_run completed e.timestamp r, signal)
status_type workflow_failed e (r, signal) =
    let r' = end_run failed e.timestamp r in
    (
      on_read (unmarshal e.payload) (λ (d : WorkflowFailedData). record r' { error = some d.error })
          r',
      signal,
    )
status_type workflow_cancelled e (r, signal) =
    let r' = end_run cancelled e.timestamp r in
    (
      on_read (unmarshal e.payload)
          (λ (d : WorkflowCancelledData). record r' { error = some d.reason }) r',
      signal,
    )
status_type signal_waiting e (r, signal) =
    (r, on_read (unmarshal e.payload) (λ (d : SignalWaitingData). d.signal_name) signal)
status_type signal_received e (r, signal) = (r, "")
status_type signal_timeout e (r, signal) = (r, "")
status_type _ e (r, signal) = (r, signal)

unfoldable pub status_events : List Event → RunStatusResult × String → RunStatusResult × String
unfolding status_type
status_events [] r = r
status_events (e ∷ es) r = status_events es (status_type e.type e r)

abbrev pub is_running : Status → Bool
is_running running = true
is_running _ = false

-- The lines after the loop
abbrev pub conclude : RunStatusResult × String → RunStatusResult
conclude (r, signal) =
    if not (signal == "") && is_running r.status
    then record r { status = waiting; waiting_for_signal = some signal }
    else r

-- `RunStatus`
unfoldable pub run_status : List Event → RunStatusResult
unfolding status_events
run_status [] = empty_result pending
run_status (e ∷ es) = conclude (status_events (e ∷ es) (empty_result running, ""))

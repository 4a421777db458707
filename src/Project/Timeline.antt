-- ===== src/Project/Timeline.antt =====
-- project/project.go: `Timeline`, the events of a run that a dashboard shows.
use Prim.Native.Nat.{◌/◌, ◌%◌}
use Prim.Native.String.{◌++◌ as join}
use skene.Prelude.{
  ◌≡◌, refl, ℕ, zero, suc, String, Bool, true, false, Option, none, some, List, [], ◌∷◌, map, Map,
  arith, if◌then◌else◌, nat_eq, ltb,
}
use mathlib.Core.Option
use skene.Event.{
  Event, EventType, workflow_started, workflow_completed, workflow_failed, workflow_cancelled,
  step_started, step_completed, step_failed, signal_waiting, signal_received, signal_timeout,
  child_spawned, child_completed, child_failed,
}
use skene.Event.Json.{Codec, unmarshal}
use skene.Event.Data.{
  WorkflowStartedData, WorkflowFailedData, WorkflowCancelledData, StepStartedData, StepFailedData,
  SignalWaitingData, SignalReceivedData, SignalTimeoutData, ChildSpawnedData, ChildCompletedData,
  ChildFailedData, started_codec, failed_codec, cancelled_codec, step_started_codec,
  step_failed_codec, signal_waiting_codec, signal_received_codec, signal_timeout_codec,
  child_spawned_codec, child_completed_codec, child_failed_codec,
}

-- `TimelineEventType`; each constant has the text of its name.
pub data TimelineEventType : Type 0 where
  timeline_workflow_started timeline_workflow_completed timeline_workflow_failed : TimelineEventType
  timeline_workflow_cancelled : TimelineEventType
  timeline_step_started timeline_step_completed timeline_step_failed : TimelineEventType
  timeline_signal_waiting timeline_signal_received timeline_signal_timeout : TimelineEventType
  timeline_child_spawned timeline_child_completed timeline_child_failed : TimelineEventType

-- `TimelineEntry`
pub record TimelineEntry : Type 0 where
  pub timestamp : ℕ
  pub type : TimelineEventType
  pub step_name : String
  pub attempt : ℕ
  pub message : String
  pub error : Option String
  pub metadata : Map String String

-- What a literal leaves out.
abbrev pub entry : Event → TimelineEventType → String → TimelineEntry
entry e type message = record {
  timestamp = e.timestamp;
  type = type;
  step_name = "";
  attempt = 0;
  message = message;
  error = none;
  metadata = [];
}

abbrev pub step_entry : Event → TimelineEventType → String → TimelineEntry
step_entry e type message = record (entry e type message) { step_name = e.step_name }

abbrev pub child_entry : Event → TimelineEventType → String → String → TimelineEntry
child_entry e type child_run_id message = record (step_entry e type message) {
  metadata = ("child_run_id", child_run_id) ∷ [];
}

-- `_ = json.Unmarshal(e.Data, &data)` where it fails: the model takes the zero struct.
abbrev pub or_zero_value : {A : Type 0} ⦃c : Codec A⦄ → Option A → A
or_zero_value ⦃c = c⦄ none = c.zero_value
or_zero_value (some a) = a

unfoldable pub read : {A : Type 0} → ⦃c : Codec A⦄ → Event → A
read e = or_zero_value (unmarshal e.payload)

-- `byte('0' + n%10)` for a digit
abbrev pub digit_text : ℕ → String
digit_text zero = "0"
digit_text (suc zero) = "1"
digit_text (suc (suc zero)) = "2"
digit_text (suc (suc (suc zero))) = "3"
digit_text (suc (suc (suc (suc zero)))) = "4"
digit_text (suc (suc (suc (suc (suc zero))))) = "5"
digit_text (suc (suc (suc (suc (suc (suc zero)))))) = "6"
digit_text (suc (suc (suc (suc (suc (suc (suc zero))))))) = "7"
digit_text (suc (suc (suc (suc (suc (suc (suc (suc zero)))))))) = "8"
digit_text _ = "9"

-- The loop of `itoa`: `n` turns are enough, since a turn divides by ten.
unfoldable pub digits : ℕ → ℕ → String → String
digits zero n text = text
digits (suc fuel) n text =
    let rest = digits fuel (n / 10) (join (digit_text (n % 10)) text) in
    if nat_eq n 0 then text else rest

-- `itoa`
unfoldable pub itoa : ℕ → String
unfolding digits
itoa n = if nat_eq n 0 then "0" else digits n n ""

abbrev pub or_one : ℕ → ℕ
or_one n = if nat_eq n 0 then 1 else n

unfoldable pub started_message : String → ℕ → String
unfolding itoa
started_message step_name attempt =
    if ltb 1 attempt
    then join "Step " (join step_name (join " started (attempt " (join (itoa attempt) ")")))
    else join "Step " (join step_name " started")

abbrev pub failed_message : String → Bool → String
failed_message step_name will_retry =
    if will_retry
    then join "Step " (join step_name " failed (will retry)")
    else join "Step " (join step_name " failed")

abbrev pub started_entry : Event → WorkflowStartedData → TimelineEntry
started_entry e d =
    entry e timeline_workflow_started (join "Workflow " (join d.workflow_name " started"))

abbrev pub failed_entry : Event → WorkflowFailedData → TimelineEntry
failed_entry e d = record (entry e timeline_workflow_failed "Workflow failed") {
  error = some d.error;
}

abbrev pub cancelled_entry : Event → WorkflowCancelledData → TimelineEntry
cancelled_entry e d = entry e timeline_workflow_cancelled (join "Workflow cancelled: " d.reason)

abbrev pub step_started_entry : Event → StepStartedData → TimelineEntry
unfolding started_message
step_started_entry e d =
    record (step_entry e timeline_step_started (started_message e.step_name (or_one d.attempt))) {
      attempt = or_one d.attempt;
    }

abbrev pub step_failed_entry : Event → StepFailedData → TimelineEntry
step_failed_entry e d =
    record (step_entry e timeline_step_failed (failed_message e.step_name d.will_retry)) {
      attempt = d.attempt;
      error = some d.error;
    }

abbrev pub waiting_entry : Event → SignalWaitingData → TimelineEntry
waiting_entry e d = step_entry e timeline_signal_waiting (join "Waiting for signal: " d.signal_name)

abbrev pub received_entry : Event → SignalReceivedData → TimelineEntry
received_entry e d = step_entry e timeline_signal_received (join "Signal received: " d.signal_name)

abbrev pub timeout_entry : Event → SignalTimeoutData → TimelineEntry
timeout_entry e d = step_entry e timeline_signal_timeout (join "Signal timeout: " d.signal_name)

abbrev pub spawned_entry : Event → ChildSpawnedData → TimelineEntry
spawned_entry e d =
    child_entry e timeline_child_spawned d.child_run_id
      (join "Child workflow " (join d.workflow_name " spawned"))

abbrev pub child_completed_entry : Event → ChildCompletedData → TimelineEntry
child_completed_entry e d =
    child_entry e timeline_child_completed d.child_run_id "Child workflow completed"

abbrev pub child_failed_entry : Event → ChildFailedData → TimelineEntry
child_failed_entry e d =
    record (child_entry e timeline_child_failed d.child_run_id "Child workflow failed") {
      error = some d.error;
    }

-- The cases of the switch
unfoldable pub entry_of : EventType → Event → Option TimelineEntry
unfolding read step_started_entry
entry_of workflow_started e = some (started_entry e (read e))
entry_of workflow_completed e = some (entry e timeline_workflow_completed "Workflow completed")
entry_of workflow_failed e = some (failed_entry e (read e))
entry_of workflow_cancelled e = some (cancelled_entry e (read e))
entry_of step_started e = some (step_started_entry e (read e))
entry_of step_completed e =
    some (step_entry e timeline_step_completed (join "Step " (join e.step_name " completed")))
entry_of step_failed e = some (step_failed_entry e (read e))
entry_of signal_waiting e = some (waiting_entry e (read e))
entry_of signal_received e = some (received_entry e (read e))
entry_of signal_timeout e = some (timeout_entry e (read e))
entry_of child_spawned e = some (spawned_entry e (read e))
entry_of child_completed e = some (child_completed_entry e (read e))
entry_of child_failed e = some (child_failed_entry e (read e))
entry_of _ e = none

-- `if entry != nil { result = append(result, *entry) }`
abbrev pub append_entry : Option TimelineEntry → List TimelineEntry → List TimelineEntry
append_entry none rest = rest
append_entry (some t) rest = t ∷ rest

-- `Timeline`
unfoldable pub timeline : List Event → List TimelineEntry
unfolding entry_of
timeline [] = []
timeline (e ∷ es) = append_entry (entry_of e.type e) (timeline es)

-- Whether a type of event is shown.
abbrev pub is_shown : EventType → Bool
is_shown workflow_started = true
is_shown workflow_completed = true
is_shown workflow_failed = true
is_shown workflow_cancelled = true
is_shown step_started = true
is_shown step_completed = true
is_shown step_failed = true
is_shown signal_waiting = true
is_shown signal_received = true
is_shown signal_timeout = true
is_shown child_spawned = true
is_shown child_completed = true
is_shown child_failed = true
is_shown _ = false

-- The times of the events that are shown.
abbrev pub shown_times : List Event → List ℕ
shown_times [] = []
shown_times (e ∷ es) = if is_shown e.type then e.timestamp ∷ shown_times es else shown_times es

time_of_entry :
    (t : EventType) (e : Event)
    → Option.map (λ (x : TimelineEntry). x.timestamp) (entry_of t e)
      ≡ (if is_shown t then some e.timestamp else none)
unfolding entry_of
time_of_entry workflow_started e = refl
time_of_entry _ e = ground arith

-- The timeline has one entry for each event of a type that is shown, with its time, in the order of the
-- events.
pub timeline-times :
    (es : List Event) → map (λ (x : TimelineEntry). x.timestamp) (timeline es) ≡ shown_times es
unfolding timeline
timeline-times [] = refl
timeline-times (e ∷ es) = ground (arith, time_of_entry e.type e, timeline-times es)

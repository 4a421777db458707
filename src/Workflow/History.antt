-- ===== src/Workflow/History.antt =====
-- workflow/history.go: the history of a run, and the index over its events.
pub mod LastWrite
pub mod Writes
pub mod Signals
pub mod Flags
use skene.Prelude.{
  ℕ, String, Bool, true, false, Option, none, some, List, [], ◌∷◌, Map, lookup, insert, ltb, not,
  if◌then◌else◌, ◌==◌, ◌&&◌, string_key, nat_key,
}
use skene.Event.{
  Event, EventType, workflow_started, workflow_completed, workflow_cancelled, step_completed,
  step_failed, branch_evaluated, signal_waiting, signal_received, signal_timeout, map_completed,
  map_failed, child_completed, child_failed,
}
use skene.Event.Json.{RawMessage, nil, malformed, doc, unmarshal}
use skene.Event.Data.{
  WorkflowStartedData, StepFailedData, BranchEvaluatedData, SignalWaitingData, SignalReceivedData,
  SignalTimeoutData, MapCompletedData, MapFailedData, ChildCompletedData, ChildFailedData,
  started_codec, step_failed_codec, branch_evaluated_codec, signal_waiting_codec,
  signal_received_codec, signal_timeout_codec, map_completed_codec, map_failed_codec,
  child_completed_codec, child_failed_codec,
}
use skene.Workflow.Errors.{Error, new}

pub record MapError : Type 0 where
  pub failed_index : ℕ
  pub error : String

pub record SignalState : Type 0 where
  pub waiting : Bool
  pub received : Bool
  pub timeout : Bool
  pub payload : RawMessage
  pub timeout_at : ℕ

pub record History : Type 0 where
  pub run_id : String
  pub events : List Event
  pub workflow_input : RawMessage
  pub outputs : Map String RawMessage
  pub fatal_errors : Map String Error
  pub branches : Map String String
  pub signals : Map String SignalState
  pub cancelled : Bool
  pub completed : Bool
  pub last_sequence : ℕ
  pub map_results : Map ℕ RawMessage
  pub map_errors : Map ℕ MapError
  pub child_outputs : Map String RawMessage
  pub child_errors : Map String String

-- `raw != nil`
abbrev pub is_set : RawMessage → Bool
is_set nil = false
is_set malformed = true
is_set (doc _) = true

-- `if err := json.Unmarshal(…); err == nil { … }`
abbrev pub on_read : {A B : Type 0} → Option A → (A → B) → B → B
on_read none f old = old
on_read (some a) f old = f a

abbrev pub or_new_state : Option SignalState → SignalState
or_new_state none = record {
  waiting = false;
  received = false;
  timeout = false;
  payload = nil;
  timeout_at = 0;
}
or_new_state (some state) = state

-- `getOrCreateSignalState` and the assignments to the fields of the state that it points to
abbrev pub update_signal : String → (SignalState → SignalState) → History → History
update_signal name f h = record h {
  signals = insert name (f (or_new_state (lookup name h.signals))) h.signals;
}

-- The cases of the switch in `index`.
unfoldable pub index_type : EventType → Event → History → History
index_type workflow_started e h =
    on_read (unmarshal e.payload)
      (λ (d : WorkflowStartedData). record h { workflow_input = d.input }) h
index_type workflow_completed e h = record h { completed = true }
index_type workflow_cancelled e h = record h { cancelled = true }
index_type step_completed e h =
    if not (e.step_name == "") && is_set e.output
    then record h { outputs = insert e.step_name e.output h.outputs }
    else h
index_type step_failed e h =
    if e.step_name == ""
    then h
    else on_read (unmarshal e.payload)
        (λ (d : StepFailedData).
          if d.will_retry
          then h
          else record h { fatal_errors = insert e.step_name (new d.error) h.fatal_errors })
        h
index_type branch_evaluated e h =
    on_read (unmarshal e.payload)
      (λ (d : BranchEvaluatedData). record h {
        branches = insert d.branch_name d.choice h.branches;
      })
      h
index_type signal_waiting e h =
    on_read (unmarshal e.payload)
      (λ (d : SignalWaitingData).
        update_signal d.signal_name
          (λ state. record state { waiting = true; timeout_at = d.timeout_at }) h)
      h
index_type signal_received e h =
    on_read (unmarshal e.payload)
      (λ (d : SignalReceivedData).
        update_signal d.signal_name (λ state. record state { received = true; payload = d.payload })
          h)
      h
index_type signal_timeout e h =
    on_read (unmarshal e.payload)
      (λ (d : SignalTimeoutData).
        update_signal d.signal_name (λ state. record state { timeout = true }) h)
      h
index_type map_completed e h =
    on_read (unmarshal e.payload)
      (λ (d : MapCompletedData). record h {
        map_results = insert d.map_index d.results h.map_results;
      })
      h
index_type map_failed e h =
    on_read (unmarshal e.payload)
      (λ (d : MapFailedData). record h {
        map_errors =
            insert d.map_index (record { failed_index = d.failed_index; error = d.error })
              h.map_errors;
      })
      h
index_type child_completed e h =
    on_read (unmarshal e.payload)
      (λ (d : ChildCompletedData). record h {
        child_outputs = insert d.child_run_id d.output h.child_outputs;
      })
      h
index_type child_failed e h =
    on_read (unmarshal e.payload)
      (λ (d : ChildFailedData). record h {
        child_errors = insert d.child_run_id d.error h.child_errors;
      })
      h
index_type _ e h = h

-- The body of the loop in `index`.
unfoldable pub index_event : Event → History → History
unfolding index_type
index_event e h =
    index_type e.type e
      (if ltb h.last_sequence e.sequence then record h { last_sequence = e.sequence } else h)

unfoldable pub index : List Event → History → History
unfolding index_event
index [] h = h
index (e ∷ es) h = index es (index_event e h)

abbrev pub empty_history : String → List Event → History
empty_history run_id events = record {
  run_id = run_id;
  events = events;
  workflow_input = nil;
  outputs = [];
  fatal_errors = [];
  branches = [];
  signals = [];
  cancelled = false;
  completed = false;
  last_sequence = 0;
  map_results = [];
  map_errors = [];
  child_outputs = [];
  child_errors = [];
}

unfoldable pub new_history : String → List Event → History
unfolding index
new_history run_id events = index events (empty_history run_id events)

-- The queries. A Go result with an `ok`, and an error or a pointer that may be nil, are options.
abbrev pub get_output : History → String → Option RawMessage
get_output h step_name = lookup step_name h.outputs

abbrev pub is_some : {A : Type 0} → Option A → Bool
is_some none = false
is_some (some _) = true

abbrev pub has_completed : History → String → Bool
has_completed h step_name = is_some (lookup step_name h.outputs)

abbrev pub get_branch_choice : History → String → Option String
get_branch_choice h branch_name = lookup branch_name h.branches

abbrev pub get_fatal_error : History → String → Option Error
get_fatal_error h step_name = lookup step_name h.fatal_errors

abbrev pub get_signal_state : History → String → Option SignalState
get_signal_state h signal_name = lookup signal_name h.signals

abbrev pub get_map_results : History → ℕ → Option RawMessage
get_map_results h map_index = lookup map_index h.map_results

abbrev pub get_map_error : History → ℕ → Option MapError
get_map_error h map_index = lookup map_index h.map_errors

abbrev pub get_child_output : History → String → Option RawMessage
get_child_output h child_run_id = lookup child_run_id h.child_outputs

abbrev pub get_child_error : History → String → Option String
get_child_error h child_run_id = lookup child_run_id h.child_errors

-- `RecordBranchChoice`
unfoldable pub record_branch_choice : String → String → History → History
record_branch_choice branch_name choice h = record h {
  branches = insert branch_name choice h.branches;
}

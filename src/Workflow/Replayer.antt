-- ===== src/Workflow/Replayer.antt =====
-- workflow/replay.go: the state of a replayer, and what reads and writes it under its locks.
pub mod Numbering
use skene.Prelude.{
  ℕ, suc, ◌+◌, String, Bool, Option, none, some, List, [], ◌∷◌, ◌++◌, Map, lookup, insert, ◌||◌,
  if◌then◌else◌, ◌==◌, string_key,
}
use skene.Event.{
  Event, EventType, zero_event, workflow_started, workflow_completed, branch_evaluated,
  signal_waiting,
}
use skene.Event.Json.{RawMessage, nil, marshal, marshal_or_nil}
use skene.Event.Data.{
  WorkflowStartedData, WorkflowCompletedData, BranchEvaluatedData, SignalWaitingData, started_codec,
  completed_codec, branch_evaluated_codec, signal_waiting_codec,
}
use skene.Workflow.Errors.{Error, new, wrap, canceled, Result, ok, err}
use skene.Workflow.History.{
  History, get_output as history_output, get_branch_choice, record_branch_choice,
}
use skene.Workflow.Step.{Value, WorkflowDef, marshal_any, no_value, opaque_value, json_value}
use skene.Workflow.Thread.{Thread, done, act, ◌>>=◌, ◌>>◌, modify}

pub record WaitingSignal : Type 0 where
  pub signal_name : String
  pub timeout_at : ℕ

-- The configuration of a replay, and what the world answers in it: the id that uuid.New gives the
-- event of a sequence; the clock, the parent context's `Err` at each look at it, and the schedule of
-- the goroutines of each wave.
pub record Env : Type 0 where
  pub workflow : WorkflowDef
  pub run_id : String
  pub input : Value
  pub new_id : ℕ → String
  pub now : ℕ → ℕ
  pub context_err : ℕ → Option Error
  pub schedule : ℕ → List ℕ

-- `Replayer`. `looks` counts the looks at the clock and at the context. `group` is the error of the
-- errgroup's context, which its goroutines share.
pub record Replayer : Type 0 where
  pub history : History
  pub next_sequence : ℕ
  pub output_cache : Map String Value
  pub new_events : List Event
  pub waiting_signals : List WaitingSignal
  pub looks : ℕ
  pub group : Option Error
  pub child_counter : ℕ
  pub map_counter : ℕ

-- `NewReplayer`
abbrev pub new_replayer : History → Replayer
new_replayer history = record {
  history = history;
  next_sequence = history.last_sequence + 1;
  output_cache = [];
  new_events = [];
  waiting_signals = [];
  looks = 0;
  group = none;
  child_counter = 0;
  map_counter = 0;
}

module _ (env : Env) where
  -- The event as `emitEvent` completes it.
  abbrev pub populated : Event → Replayer → Event
  populated e r = record e {
    id = env.new_id r.next_sequence;
    run_id = env.run_id;
    sequence = r.next_sequence;
    version = 1;
    timestamp = env.now r.looks;
  }

  -- `emitEvent`
  unfoldable pub emit_event : Event → Replayer → Replayer
  emit_event e r = record r {
    new_events = r.new_events ++ populated e r ∷ [];
    next_sequence = r.next_sequence + 1;
    looks = r.looks + 1;
  }

  abbrev pub started_data : RawMessage → WorkflowStartedData
  started_data input_json = record {
    workflow_name = env.workflow.name;
    version = env.workflow.version;
    input = input_json;
  }

  -- `emitWorkflowStarted`
  unfoldable pub emit_workflow_started : Replayer → Result Replayer
  emit_workflow_started r = elim (marshal_any env.input) [
    | none ↦ err (new "marshal input")
    | some input_json ↦ elim (marshal (started_data input_json)) [
      | none ↦ err (new "marshal event data")
      | some body ↦
          ok (emit_event (record zero_event { type = workflow_started; payload = body }) r)
    ]
  ]

  -- A nil output has no JSON.
  abbrev pub output_json : Value → Option RawMessage
  output_json no_value = some nil
  output_json v = marshal_any v

  abbrev pub completed_data : RawMessage → WorkflowCompletedData
  completed_data raw = record { output = raw }

  -- `emitWorkflowCompleted`
  unfoldable pub emit_workflow_completed : Value → Replayer → Result Replayer
  emit_workflow_completed output r = elim (output_json output) [
    | none ↦ err (new "marshal output")
    | some raw ↦ elim (marshal (completed_data raw)) [
      | none ↦ err (new "marshal event data")
      | some body ↦
          ok (emit_event (record zero_event { type = workflow_completed; payload = body }) r)
    ]
  ]

  -- The first action of `RecordBranchEvaluated`, which takes no lock.
  unfoldable pub note_branch_choice : String → String → Replayer → Replayer
  note_branch_choice branch_name choice r = record r {
    history = record_branch_choice branch_name choice r.history;
  }

  -- `RecordBranchEvaluated`
  unfoldable pub record_branch_evaluated : String → String → Thread Replayer (Unit {0})
  record_branch_evaluated branch_name choice = do
    modify (note_branch_choice branch_name choice)
    let body : BranchEvaluatedData = record { branch_name = branch_name; choice = choice }
    modify
        (emit_event (record zero_event { type = branch_evaluated; payload = marshal_or_nil body }))

  -- `RecordSignalWaiting`, and `recordSignalWaiting` of an execution context
  unfoldable pub record_signal_waiting : String → ℕ → Replayer → Replayer
  record_signal_waiting signal_name timeout_at r =
      let body : SignalWaitingData = record {
        signal_name = signal_name;
        timeout_at = timeout_at;
      } in
      emit_event (record zero_event { type = signal_waiting; payload = marshal_or_nil body }) r

  abbrev pub waits_for : String → List WaitingSignal → Bool
  waits_for signal_name [] = Bool.false
  waits_for signal_name (w ∷ ws) = w.signal_name == signal_name || waits_for signal_name ws

  -- `addWaitingSignal`
  unfoldable pub add_waiting_signal : String → ℕ → Replayer → Replayer
  add_waiting_signal signal_name timeout_at r =
      if waits_for signal_name r.waiting_signals then r else record r {
        waiting_signals =
            r.waiting_signals ++ record { signal_name = signal_name; timeout_at = timeout_at } ∷ [];
      }

  -- `GetOutput` of an execution context: the cache, then the history.
  unfoldable pub context_output : Replayer → String → Option RawMessage
  context_output r step_name = elim (lookup step_name r.output_cache) [
    | none ↦ history_output r.history step_name
    | some output ↦ marshal_any output
  ]

  -- `ctx.Err()` of a goroutine's context: that of its group, then that of the parent.
  unfoldable pub context_error : Replayer → Option Error
  context_error r = elim r.group [ none ↦ env.context_err r.looks | some e ↦ some e ]

  unfoldable pub look : Replayer → Replayer
  look r = record r { looks = r.looks + 1 }

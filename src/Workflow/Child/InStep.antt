-- ===== src/Workflow/Child/InStep.antt =====
-- workflow/map.go: a step that calls `Run`.
use skene.Prelude.{ℕ, String, Option, none, some, []}
use Prim.Native.String.{◌++◌ as join}
use skene.Event.Json.{RawMessage, nil, doc}
use skene.Workflow.Errors.{new, wrap, Result, ok, err}
use skene.Workflow.History.{new_history, get_child_output, get_child_error}
use skene.Workflow.Step.{
  Body, return, next_child, read_history, record_event, child_spawned, child_completed,
  child_failed, Value, no_value, opaque_value, json_value, marshal_any, WorkflowDef,
}
use skene.Workflow.Thread.{run}
use skene.Workflow.Replayer.{Env, Replayer, new_replayer}
use skene.Workflow.Replay.{ReplayResult, ReplayOutput, Replayed, returned, broken, replay, failed}
use skene.Workflow.Signal.{perform}
use skene.Workflow.Child.{or_unknown, child_id, decoded, child_env}

module _ (env : Env) {Out : Type 0} (decode : RawMessage → Result Out) (zero_out : Out) where
  abbrev complete_call : String → Value → Body (Result Out)
  complete_call id no_value = record_event (child_completed id nil) (return (ok zero_out))
  complete_call id opaque_value = return (err (new "workflow.Run: marshal output"))
  complete_call id (json_value j) =
      record_event (child_completed id (doc j))
        (return (decoded env decode zero_out "workflow.Run: unmarshal output" (decode (doc j))))

  abbrev end_call : String → ReplayResult → ReplayOutput → Body (Result Out)
  end_call id failed o =
      record_event (child_failed id o.error)
        (return (err (wrap "workflow.Run: child workflow failed" (or_unknown o.error))))
  end_call id _ o = complete_call id o.final_output

  abbrev after_call : String → Replayed → Body (Result Out)
  after_call id (returned o) = end_call id o.result o
  after_call id (broken e) =
      record_event (child_failed id (some e))
        (return (err (wrap "workflow.Run: child workflow error" e)))
  after_call id Replayed.out_of_fuel = return (err (new "out of fuel"))

  -- What follows from the records of the child
  abbrev look_up :
      String
      → String
      → Replayed
      → RawMessage
      → Option RawMessage
      → Option String
      → Body (Result Out)
  look_up id workflow_name p input_json (some output) e =
      return (decoded env decode zero_out "workflow.Run: unmarshal child output" (decode output))
  look_up id workflow_name p input_json none (some text) =
      return (err (new (join "child workflow failed: " text)))
  look_up id workflow_name p input_json none none =
      record_event (child_spawned id workflow_name input_json) (after_call id p)

  abbrev replay_of : Env → WorkflowDef → Value → ℕ → Replayed
  replay_of answers wf input index =
      (replay (child_env env decode zero_out answers wf input index)
        (new_replayer (new_history (child_id env index) []))).0

  abbrev with_input : String → String → Replayed → Option RawMessage → Body (Result Out)
  with_input id workflow_name p none = return (err (new "workflow.Run: marshal input"))
  with_input id workflow_name p (some input_json) =
      read_history
        (λ h. look_up id workflow_name p input_json (get_child_output h id) (get_child_error h id))

  -- The call of `Run` in a step, as what it asks of its context.
  abbrev pub run_call : Env → WorkflowDef → Value → Body (Result Out)
  run_call answers wf input = next_child (λ index.
      with_input (child_id env index) wf.name (replay_of answers wf input index)
        (marshal_any input))

  performed : {A : Type 0} → Body A → Replayer → A × Replayer
  performed b r = run (perform env b) r

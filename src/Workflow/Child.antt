-- ===== src/Workflow/Child.antt =====
-- workflow/map.go, workflow/replay.go: `Run`, which executes a child workflow, and the events that it
-- records. The replay of the child is that of Workflow/Replay, with answers of its own from the world.
pub mod Repeat
pub mod InStep
use Prim.Native.String.{◌++◌ as join}
use skene.Prelude.{ℕ, String, Option, none, some, List, [], decimal}
use skene.Event.{Event, zero_event, child_spawned, child_completed, child_failed}
use skene.Event.Json.{RawMessage, marshal_or_nil}
use skene.Event.Data.{
  ChildSpawnedData, ChildCompletedData, ChildFailedData, child_spawned_codec, child_completed_codec,
  child_failed_codec,
}
use skene.Workflow.Errors.{Error, new, wrap, error_text, Result, ok, err}
use skene.Workflow.History.{new_history, get_child_output, get_child_error}
use skene.Workflow.Step.{Value, no_value, opaque_value, json_value, marshal_any, WorkflowDef}
use skene.Workflow.Replayer.{Env, Replayer, new_replayer, emit_event, output_json}
unfoldable pub use skene.Workflow.Records.{
  record_child_spawned, record_child_completed, record_child_failed, text_or_empty,
}
use skene.Workflow.Replay.{
  ReplayResult, ReplayOutput, Replayed, returned, broken, replay, completed, failed, waiting,
  suspended,
}
use skene.Workflow.Replay as Replay

abbrev pub or_unknown : Option Error → Error
or_unknown none = new ""
or_unknown (some e) = e

module _ (env : Env) where
  -- `fmt.Sprintf("%s-child-%d", ctx.RunID(), childIndex)`
  abbrev pub child_id : ℕ → String
  child_id index = join env.run_id (join "-child-" (decimal index))

  -- `json.Unmarshal` into the type `Out`, whose zero value is `zero_out`.
  module _ {Out : Type 0} (decode : RawMessage → Result Out) (zero_out : Out) where
    abbrev pub decoded : String → Result Out → Result Out
    decoded text (ok v) = ok v
    decoded text (err e) = err (wrap text e)

    -- The end of `Run`, when the child has not failed: a nil output is not marshalled and not decoded.
    unfoldable pub complete_child : String → Value → Replayer → Result Out × Replayer
    unfolding record_child_completed
    complete_child child_run_id no_value r =
        (ok zero_out, record_child_completed env child_run_id RawMessage.nil r)
    complete_child child_run_id opaque_value r = (err (new "workflow.Run: marshal output"), r)
    complete_child child_run_id (json_value j) r = (
      decoded "workflow.Run: unmarshal output" (decode (RawMessage.doc j)),
      record_child_completed env child_run_id (RawMessage.doc j) r,
    )

    -- `if output.Result == ReplayFailed`
    unfoldable pub end_child :
        String → ReplayResult → ReplayOutput → Replayer → Result Out × Replayer
    unfolding record_child_failed complete_child
    end_child child_run_id failed o r = (
      err (wrap "workflow.Run: child workflow failed" (or_unknown o.error)),
      record_child_failed env child_run_id o.error r,
    )
    end_child child_run_id _ o r = complete_child child_run_id o.final_output r

    -- What comes of the replay of the child.
    unfoldable pub after_replay : String → Replayed → Replayer → Result Out × Replayer
    unfolding end_child
    after_replay child_run_id (returned o) r = end_child child_run_id o.result o r
    after_replay child_run_id (broken e) r = (
      err (wrap "workflow.Run: child workflow error" e),
      record_child_failed env child_run_id (some e) r,
    )
    after_replay child_run_id Replayed.out_of_fuel r = (err (new "out of fuel"), r)

    -- What the world answers to the child.
    abbrev pub child_env : Env → WorkflowDef → Value → ℕ → Env
    child_env answers wf input index = record answers {
      workflow = wf;
      run_id = child_id index;
      input = input;
    }

    -- `Run`, for the child index that `nextChildIndex` gave.
    unfoldable pub run_child : Env → WorkflowDef → Value → ℕ → Replayer → Result Out × Replayer
    unfolding record_child_spawned after_replay
    run_child answers wf input index r = elim (marshal_any input) [
      | none ↦ (err (new "workflow.Run: marshal input"), r)
      | some input_json ↦ elim (get_child_output r.history (child_id index)) [
        | some output ↦ (decoded "workflow.Run: unmarshal child output" (decode output), r)
        | none ↦ elim (get_child_error r.history (child_id index)) [
          | some text ↦ (err (new (join "child workflow failed: " text)), r)
          | none ↦
              after_replay (child_id index)
                (replay (child_env answers wf input index)
                  (new_replayer (new_history (child_id index) []))).0
                (record_child_spawned env (child_id index) wf.name input_json r)
        ]
      ]
    ]

-- ===== src/Workflow/Records.antt =====
-- workflow/replay.go: the events of child workflows and maps, and what a step's calls of `Run` and `Map` do
-- to the replayer.
use skene.Prelude.{ℕ, ◌+◌, String, Option, none, some}
use skene.Event.{
  Event, zero_event, child_spawned, child_completed, child_failed, map_started, map_completed,
  map_failed,
}
use skene.Event.Json.{RawMessage, marshal_or_nil}
use skene.Event.Data.{
  ChildSpawnedData, ChildCompletedData, ChildFailedData, child_spawned_codec, child_completed_codec,
  child_failed_codec, MapStartedData, MapCompletedData, MapFailedData, map_started_codec,
  map_completed_codec, map_failed_codec,
}
use skene.Workflow.Errors.{Error, error_text}
use skene.Workflow.Step.{Record}
use skene.Workflow.Step as Step
use skene.Workflow.Replayer.{Env, Replayer, emit_event}

-- `err.Error()` of an error that is there
abbrev pub text_or_empty : Option Error → String
text_or_empty none = ""
text_or_empty (some e) = error_text e

-- The event of a record
abbrev pub event_of : Record → Event
event_of (Step.child_spawned child_run_id workflow_name input) =
    let body : ChildSpawnedData = record {
      child_run_id = child_run_id;
      workflow_name = workflow_name;
      input = input;
    } in
    record zero_event { type = child_spawned; payload = marshal_or_nil body }
event_of (Step.child_completed child_run_id output) =
    let body : ChildCompletedData = record { child_run_id = child_run_id; output = output } in
    record zero_event { type = child_completed; payload = marshal_or_nil body }
event_of (Step.child_failed child_run_id error) =
    let body : ChildFailedData = record {
      child_run_id = child_run_id;
      error = text_or_empty error;
    } in
    record zero_event { type = child_failed; payload = marshal_or_nil body }
event_of (Step.map_started map_index item_count) =
    let body : MapStartedData = record { map_index = map_index; item_count = item_count } in
    record zero_event { type = map_started; payload = marshal_or_nil body }
event_of (Step.map_completed map_index results) =
    let body : MapCompletedData = record { map_index = map_index; results = results } in
    record zero_event { type = map_completed; payload = marshal_or_nil body }
event_of (Step.map_failed map_index failed_index e) =
    let body : MapFailedData = record {
      map_index = map_index;
      failed_index = failed_index;
      error = error_text e;
    } in
    record zero_event { type = map_failed; payload = marshal_or_nil body }

module _ (env : Env) where
  -- What is recorded by a call in a step
  unfoldable pub record_in_step : Record → Replayer → Replayer
  unfolding emit_event
  record_in_step e r = emit_event env (event_of e) r

  -- `RecordChildSpawned`
  unfoldable pub record_child_spawned : String → String → RawMessage → Replayer → Replayer
  unfolding emit_event
  record_child_spawned child_run_id workflow_name input r =
      emit_event env (event_of (Step.child_spawned child_run_id workflow_name input)) r

  -- `RecordChildCompleted`
  unfoldable pub record_child_completed : String → RawMessage → Replayer → Replayer
  unfolding emit_event
  record_child_completed child_run_id output r =
      emit_event env (event_of (Step.child_completed child_run_id output)) r

  -- `RecordChildFailed`
  unfoldable pub record_child_failed : String → Option Error → Replayer → Replayer
  unfolding emit_event
  record_child_failed child_run_id error r =
      emit_event env (event_of (Step.child_failed child_run_id error)) r

  -- `RecordMapStarted`
  unfoldable pub record_map_started : ℕ → ℕ → Replayer → Replayer
  unfolding emit_event
  record_map_started map_index item_count r =
      emit_event env (event_of (Step.map_started map_index item_count)) r

  -- `RecordMapCompleted`
  unfoldable pub record_map_completed : ℕ → RawMessage → Replayer → Replayer
  unfolding emit_event
  record_map_completed map_index results r =
      emit_event env (event_of (Step.map_completed map_index results)) r

  -- `RecordMapFailed`
  unfoldable pub record_map_failed : ℕ → ℕ → Error → Replayer → Replayer
  unfolding emit_event
  record_map_failed map_index failed_index e r =
      emit_event env (event_of (Step.map_failed map_index failed_index e)) r

-- `nextChildIndex` and `nextMapIndex`, which return the counter before.
abbrev pub count_child : Replayer → Replayer
count_child r = record r { child_counter = r.child_counter + 1 }

abbrev pub count_map : Replayer → Replayer
count_map r = record r { map_counter = r.map_counter + 1 }

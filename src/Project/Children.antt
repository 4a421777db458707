-- ===== src/Project/Children.antt =====
-- project/project.go: `ChildWorkflows`, the children of a run.
use skene.Prelude.{
  ℕ, String, Option, none, some, List, [], ◌∷◌, ◌++◌, Map, lookup, insert, delete, update_at,
  length, string_key, ℤ,
}
use skene.Event.{Event, EventType, child_spawned, child_completed, child_failed}
use skene.Event.Json.{unmarshal}
use skene.Event.Data.{
  ChildSpawnedData, ChildCompletedData, ChildFailedData, child_spawned_codec, child_completed_codec,
  child_failed_codec,
}
use skene.Workflow.History.{on_read}
use skene.Project.{milliseconds}

pub data ChildStatus : Type 0 where
  running completed failed : ChildStatus

-- `ChildWorkflowResult`
pub record ChildWorkflowResult : Type 0 where
  pub child_run_id : String
  pub workflow_name : String
  pub status : ChildStatus
  pub started_at : ℕ
  pub completed_at : Option ℕ
  pub duration_ms : Option ℤ
  pub error : Option String

-- The result, and `pending`: the place in the result of each child that runs.
pub record Children : Type 0 where
  pub result : List ChildWorkflowResult
  pub pending : Map String ℕ

abbrev pub spawn : Event → ChildSpawnedData → Children → Children
spawn e d c = record {
  result =
      c.result
      ++ record {
        child_run_id = d.child_run_id;
        workflow_name = d.workflow_name;
        status = running;
        started_at = e.timestamp;
        completed_at = none;
        duration_ms = none;
        error = none;
      }
        ∷ [];
  pending = insert d.child_run_id (length c.result) c.pending;
}

-- The lines that the two ends of a child share.
abbrev pub finish : ChildStatus → ℕ → ChildWorkflowResult → ChildWorkflowResult
finish status ts child = record child {
  status = status;
  completed_at = some ts;
  duration_ms = some (milliseconds child.started_at ts);
}

abbrev pub fail : String → ℕ → ChildWorkflowResult → ChildWorkflowResult
fail error ts child = record (finish failed ts child) { error = some error }

unfoldable pub finish_pending :
    String → (ChildWorkflowResult → ChildWorkflowResult) → Option ℕ → Children → Children
unfolding delete
finish_pending id f none c = c
finish_pending id f (some i) c = record {
  result = update_at i f c.result;
  pending = delete id c.pending;
}

-- The cases of the switch
unfoldable pub child_type : EventType → Event → Children → Children
unfolding finish_pending
child_type child_spawned e c =
    on_read (unmarshal e.payload) (λ (d : ChildSpawnedData). spawn e d c) c
child_type child_completed e c =
    on_read (unmarshal e.payload)
      (λ (d : ChildCompletedData).
        finish_pending d.child_run_id (finish completed e.timestamp)
          (lookup d.child_run_id c.pending) c)
      c
child_type child_failed e c =
    on_read (unmarshal e.payload)
      (λ (d : ChildFailedData).
        finish_pending d.child_run_id (fail d.error e.timestamp) (lookup d.child_run_id c.pending)
          c)
      c
child_type _ e c = c

unfoldable pub child_events : List Event → Children → Children
unfolding child_type
child_events [] c = c
child_events (e ∷ es) c = child_events es (child_type e.type e c)

-- `ChildWorkflows`
unfoldable pub child_workflows : List Event → List ChildWorkflowResult
unfolding child_events
child_workflows events = (child_events events (record { result = []; pending = [] })).result

-- ===== src/Project/Fates.antt =====
-- project/project.go, `ChildWorkflows`: what the events say of each child.
pub mod Deletions
pub mod Settle
pub mod Places
pub mod Told
use skene.Prelude.{ℕ, String, Option, none, some, List, [], ◌∷◌, ◌==◌, if◌then◌else◌}
use skene.Event.{Event, EventType, child_spawned, child_completed, child_failed}
use skene.Event.Json.{unmarshal}
use skene.Event.Data.{
  ChildSpawnedData, ChildCompletedData, ChildFailedData, child_spawned_codec, child_completed_codec,
  child_failed_codec,
}
use skene.Project.{milliseconds}
use skene.Project.Children.{running, completed, failed, ChildWorkflowResult}

-- What an event says of the child of an id: nothing, that a child is spawned under the id again, or its end.
pub data Fate : Type 0 where
  nothing again : Fate
  well : ℕ → Fate
  badly : String → ℕ → Fate

abbrev spawned_again : String → Option ChildSpawnedData → Fate
spawned_again id none = nothing
spawned_again id (some d) = if d.child_run_id == id then again else nothing

abbrev ended_well : String → ℕ → Option ChildCompletedData → Fate
ended_well id t none = nothing
ended_well id t (some d) = if d.child_run_id == id then well t else nothing

abbrev ended_badly : String → ℕ → Option ChildFailedData → Fate
ended_badly id t none = nothing
ended_badly id t (some d) = if d.child_run_id == id then badly d.error t else nothing

abbrev pub fate : String → EventType → Event → Fate
fate id child_spawned e = spawned_again id (unmarshal e.payload)
fate id child_completed e = ended_well id e.timestamp (unmarshal e.payload)
fate id child_failed e = ended_badly id e.timestamp (unmarshal e.payload)
fate id _ e = nothing

abbrev pub follow : Fate → ChildWorkflowResult → ChildWorkflowResult → ChildWorkflowResult
follow nothing x later = later
follow again x later = x
follow (well t) x later = record x {
  status = completed;
  completed_at = some t;
  duration_ms = some (milliseconds x.started_at t);
}
follow (badly text t) x later = record x {
  status = failed;
  completed_at = some t;
  duration_ms = some (milliseconds x.started_at t);
  error = some text;
}

-- A child with the first of the events that says its end, if none before spawns another one under its id.
abbrev pub told_child : ChildWorkflowResult → List Event → ChildWorkflowResult
told_child x [] = x
told_child x (e ∷ es) = let later = told_child x es in follow (fate x.child_run_id e.type e) x later

abbrev pub begun : ℕ → ChildSpawnedData → ChildWorkflowResult
begun t d = record {
  child_run_id = d.child_run_id;
  workflow_name = d.workflow_name;
  status = running;
  started_at = t;
  completed_at = none;
  duration_ms = none;
  error = none;
}

abbrev pub with_begun :
    ℕ → Option ChildSpawnedData → List Event → List ChildWorkflowResult → List ChildWorkflowResult
with_begun t none es rest = rest
with_begun t (some d) es rest = told_child (begun t d) es ∷ rest

abbrev pub told_by :
    EventType → Event → List Event → List ChildWorkflowResult → List ChildWorkflowResult
told_by child_spawned e es rest = with_begun e.timestamp (unmarshal e.payload) es rest
told_by _ e es rest = rest

-- The children that the events spawn, each with what the events after its start say of it.
abbrev pub told : List Event → List ChildWorkflowResult
told [] = []
told (e ∷ es) = let rest = told es in told_by e.type e es rest

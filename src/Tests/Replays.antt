-- ===== src/Tests/Replays.antt =====
-- workflow/replay.go: replays of a concrete workflow, and the theorems on replays at that workflow.
use skene.Prelude.{
  Has, ◌↔◌, true, ◌+◌, ◌≤◌, ◌≡◌, ◌⊎◌, refl, String, Option, none, some, List, [], ◌∷◌, lookup,
  insert, map, length, string_key,
}
use skene.Event.{
  Event, EventType, workflow_started, step_started, step_failed, step_completed, branch_evaluated,
  workflow_completed,
}
use skene.Event.Json.{marshal, marshal_or_nil}
use skene.Event.Memory.{new as new_store, append_batch, add_events, load}
use skene.Event.Memory.Numbering.{Numbered, IsSound-new}
use skene.Workflow.Errors.{Error}
use skene.Workflow.History.{new_history, index, record_branch_choice}
use skene.Workflow.Step.{ConfiguredStep, chosen}
use skene.Workflow.Thread.{◌>>=◌, run, run_all, run_rest, step_at}
use skene.Workflow.Replayer.{
  new_replayer, emit_event, emit_workflow_started, emit_workflow_completed, note_branch_choice,
  record_branch_evaluated, context_output, context_error, look,
}
use skene.Workflow.Signal.{perform}
use skene.Workflow.Branch.{execute, execute_case, execute_default, decide_branch, labels_of}
use skene.Workflow.Execute.{StepResult, attempts, execute_step_with_events, goroutine}
use skene.Workflow.Execute.Story.{Story}
use skene.Workflow.Execute.Bounds.{starts, execute_step_with_events_tries}
use skene.Workflow.Replay.{
  ReplayResult, completed, ReplayOutput, Replayed, returned, broken, replay, run_waves,
  find_ready_steps, filter_ready, sort_by_name, insert_by_name, completed_steps, first_fatal,
  emit_events, process_results, execute_parallel,
}
use skene.Workflow.Replay.Sequences.{replay-Numbered, replay-append_batch}
use skene.Workflow.Replay.Ready.{InOrder, MayRun, find_ready_steps-MayRun}
use skene.Workflow.Replay.Totality.{Returns, replay-Returns}
use skene.Tests.Demo.{env, fetch, tally-injective}

-- The result and the types of the events of an output.
abbrev outline : Replayed → Option (ReplayResult × List (EventType × String))
outline (returned o) = some (o.result, map (λ (e : Event). (e.type, e.step_name)) o.new_events)
outline _ = none

-- `fetch` fails once and is tried again; then `audit` and `paint` run, and the branch is written under
-- the name of its case's step.
replay_demo :
    outline (replay env (new_replayer (new_history "run" []))).0
    ≡ some (
      completed,
      ((workflow_started, "")
          ∷ (step_started, "fetch")
          ∷ (step_failed, "fetch")
          ∷ (step_started, "fetch")
          ∷ (step_completed, "fetch")
          ∷ (branch_evaluated, "")
          ∷ (step_started, "audit")
          ∷ (step_completed, "audit")
          ∷ (step_started, "paint_red")
          ∷ (step_completed, "paint_red")
          ∷ (workflow_completed, "")
          ∷ []),
    )
unfolding replay run_waves find_ready_steps filter_ready sort_by_name insert_by_name completed_steps
    first_fatal emit_events process_results execute_parallel new_history index lookup insert
    emit_event emit_workflow_started emit_workflow_completed note_branch_choice
    record_branch_evaluated record_branch_choice context_output context_error look perform execute
    execute_case execute_default decide_branch labels_of chosen attempts execute_step_with_events
    goroutine run run_all run_rest step_at ◌>>=◌ marshal marshal_or_nil
replay_demo = refl

replay-append_batch_example :
    ((o : ReplayOutput) × ((replay env (new_replayer (new_history "run" (load new_store "run")))).0
        ≡ returned o)
      × (append_batch o.new_events new_store ≡ (none, add_events o.new_events new_store)))
    ⊎ ((e : Error) × ((replay env (new_replayer (new_history "run" (load new_store "run")))).0
          ≡ broken e))
unfolding lookup
replay-append_batch_example =
    replay-append_batch env new_store IsSound-new tally-injective (λ i. refl)

replay-Numbered_example :
    ((o : ReplayOutput) × ((replay env (new_replayer (new_history "run" []))).0 ≡ returned o)
      × Numbered "run" ((new_history "run" []).last_sequence + 1) o.new_events
      × (o.next_sequence ≡ (new_history "run" []).last_sequence + 1 + length o.new_events))
    ⊎ ((e : Error) × ((replay env (new_replayer (new_history "run" []))).0 ≡ broken e))
replay-Numbered_example = replay-Numbered env (new_history "run" [])

replay-Returns_example : Returns (replay env (new_replayer (new_history "run" []))).0
replay-Returns_example = replay-Returns env (new_replayer (new_history "run" []))

execute_step_with_events_tries_example :
    (result : StepResult) × ((run
        (execute_step_with_events env fetch)
        (new_replayer (new_history "run" []))).0
      ≡ some result)
    × (result.step_name ≡ "fetch")
    × (starts result.events ≤ 2)
execute_step_with_events_tries_example =
    execute_step_with_events_tries env fetch (new_replayer (new_history "run" []))

find_ready_steps-MayRun_example :
    InOrder (find_ready_steps (new_history "run" []) (("fetch", true) ∷ []) env.workflow.steps)
    × ((c : ConfiguredStep)
        → Has c (find_ready_steps (new_history "run" []) (("fetch", true) ∷ []) env.workflow.steps)
          ↔ Has c env.workflow.steps × MayRun (new_history "run" []) (("fetch", true) ∷ []) c)
find_ready_steps-MayRun_example =
    find_ready_steps-MayRun (new_history "run" []) (("fetch", true) ∷ []) env.workflow.steps

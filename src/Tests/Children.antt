-- ===== src/Tests/Children.antt =====
-- workflow/map.go: a child workflow that is run, and the theorem on its later runs.
use skene.Prelude.{◌≡◌, ◌⊎◌, refl, [], lookup, insert, string_key}
use skene.Event.Json.{marshal, marshal_or_nil}
use skene.Workflow.Errors.{Error}
use skene.Workflow.History.{new_history, index, record_branch_choice}
use skene.Workflow.Step.{chosen}
use skene.Workflow.Thread.{◌>>=◌, run, run_all, run_rest, step_at}
use skene.Workflow.Replayer.{
  new_replayer, emit_event, emit_workflow_started, emit_workflow_completed, note_branch_choice,
  record_branch_evaluated, context_output, context_error, look,
}
use skene.Workflow.Signal.{perform}
use skene.Workflow.Branch.{execute, execute_case, execute_default, decide_branch, labels_of}
use skene.Workflow.Execute.{attempts, execute_step_with_events, goroutine}
use skene.Workflow.Replay.{
  replay, run_waves, find_ready_steps, filter_ready, sort_by_name, insert_by_name, completed_steps,
  first_fatal, emit_events, process_results, execute_parallel,
}
use skene.Event.Json.{num, RawMessage, doc}
use skene.Workflow.Errors.{Result, ok, err, wrap, new}
use skene.Prelude.{ℕ, decimal, decimal_digits, ◌++◌}
use skene.Workflow.Step.{json_value}
use skene.Workflow.Replayer.{Replayer}
use skene.Workflow.Child.{
  run_child, record_child_spawned, after_replay, end_child, complete_child, record_child_completed,
}
use skene.Workflow.Child.Repeat.{run_child-repeated}
use skene.Event.{Event, step_started, step_failed}
use skene.Prelude.{List, ◌∷◌}
use skene.Tests.Demo.{env, workflow, event_of}

abbrev no_bytes : Error
no_bytes = new "unexpected end of JSON input"

abbrev number : RawMessage → Result ℕ
number (doc (num n)) = ok n
number _ = err no_bytes

abbrev parent : Replayer
unfolding new_history
parent = new_replayer (new_history "run" [])

child_runs : (run_child env number 0 env workflow (json_value (num 5)) 0 parent).0 ≡ ok 1
unfolding replay run_waves find_ready_steps filter_ready sort_by_name insert_by_name completed_steps
    first_fatal emit_events process_results execute_parallel new_history index lookup insert
    emit_event emit_workflow_started emit_workflow_completed note_branch_choice
    record_branch_evaluated record_branch_choice context_output context_error look perform execute
    execute_case execute_default decide_branch labels_of chosen attempts execute_step_with_events
    goroutine run run_all run_rest step_at ◌>>=◌ marshal marshal_or_nil run_child
    record_child_spawned after_replay end_child complete_child record_child_completed decimal
    decimal_digits
child_runs = refl

-- What the step writes after the call
abbrev step_events : List Event
step_events =
    event_of 4 step_started "fetch" RawMessage.nil RawMessage.nil
    ∷ event_of 5 step_failed "fetch" RawMessage.nil RawMessage.nil
    ∷ []

-- The parent, replayed from the events of its first replay.
abbrev replayed_parent : Replayer
unfolding run_child
replayed_parent = new_replayer (
    new_history "run" (
      ([] ++ (run_child env number 0 env workflow (json_value (num 5)) 0 parent).1.new_events)
      ++ step_events))

run_child-repeated_example :
    (run_child env number 0 env workflow (json_value (num 5)) 0 replayed_parent
      ≡ (ok 1, replayed_parent))
    ⊎ (run_child env number 0 env workflow (json_value (num 5)) 0 replayed_parent
        ≡ (err (wrap "workflow.Run: unmarshal child output" no_bytes), replayed_parent))
      × ◌≡◌ {A = ℕ} 1 0
unfolding new_history lookup run_child replayed_parent
run_child-repeated_example =
    run_child-repeated env number 0 env env workflow (json_value (num 5)) 0 parent replayed_parent 1
      no_bytes "run" [] step_events refl refl child_runs refl refl

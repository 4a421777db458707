-- ===== src/Tests/Fanouts.antt =====
-- workflow/map.go: a map over two items, and the theorem at it.
use skene.Prelude.{◌≡◌, refl, [], lookup, insert, string_key}
use skene.Event.Json.{marshal, marshal_or_nil}
use skene.Workflow.History.{new_history, index, record_branch_choice}
use skene.Workflow.Step.{chosen}
use skene.Workflow.Thread.{◌>>=◌, run, run_all, run_rest, step_at}
use skene.Workflow.Replayer.{
  new_replayer, emit_event, emit_workflow_started, emit_workflow_completed, note_branch_choice,
  record_branch_evaluated, context_output, context_error, look,
}
use skene.Workflow.Signal.{perform}
use skene.Workflow.Branch.{execute, execute_case, execute_default, decide_branch, labels_of}
use skene.Workflow.Execute.{attempts, execute_step_with_events, goroutine}
use skene.Workflow.Replay.{
  replay, run_waves, find_ready_steps, filter_ready, sort_by_name, insert_by_name, completed_steps,
  first_fatal, emit_events, process_results, execute_parallel,
}
use skene.Event.Json.{num, RawMessage, doc}
use skene.Workflow.Errors.{Result, ok, err, new}
use skene.Prelude.{ℕ, decimal, decimal_digits}
use skene.Workflow.Step.{json_value}
use skene.Workflow.Replayer.{Replayer}
use skene.Workflow.Child.{record_child_spawned, record_child_completed, record_child_failed}
use skene.Tests.Demo.{env, workflow}
use skene.Event.Json.{Json}
use skene.Prelude.{Option, some, List, ◌∷◌, length, arith}
use skene.Workflow.Step.{Value}
use skene.Workflow.Map.{
  came_back, run_map, drain, begin_item, item_routine, record_map_started, record_map_completed,
}
use skene.Workflow.Map.Call.{map_with_options, execute_map, after_wait, encode_all}
use skene.Workflow.Map.Results.{Collected, map_with_options-Collected}

abbrev pub number : RawMessage → Result ℕ
number (doc (num n)) = ok n
number _ = err (new "unexpected end of JSON input")

abbrev pub text_of : ℕ → Option Json
text_of n = some (num n)

abbrev pub two_items : List Value
two_items = json_value (num 5) ∷ json_value (num 6) ∷ []

unfoldable pub parent : Replayer
unfolding new_history
parent = new_replayer (new_history "run" [])

-- The second goroutine acts before the first one.
abbrev pub order : List ℕ
order = 0 ∷ 0 ∷ 2 ∷ 2 ∷ 1 ∷ []

mapped :
    (map_with_options env number 0 text_of (λ i. env) workflow 0 0 order two_items parent).0
    ≡ came_back (ok (1 ∷ 1 ∷ []))
unfolding replay run_waves find_ready_steps filter_ready sort_by_name insert_by_name completed_steps
    first_fatal emit_events process_results execute_parallel new_history index lookup insert
    emit_event emit_workflow_started emit_workflow_completed note_branch_choice
    record_branch_evaluated record_branch_choice context_output context_error look perform execute
    execute_case execute_default decide_branch labels_of chosen attempts execute_step_with_events
    goroutine run run_all run_rest step_at ◌>>=◌ marshal marshal_or_nil record_child_spawned
    record_child_completed record_child_failed decimal decimal_digits map_with_options execute_map
    after_wait run_map drain begin_item item_routine record_map_started record_map_completed
    encode_all parent
mapped = refl

one_at_a_time :
    (map_with_options env number 0 text_of (λ i. env) workflow 0 1 order two_items parent).0
    ≡ came_back (ok (1 ∷ 1 ∷ []))
unfolding replay run_waves find_ready_steps filter_ready sort_by_name insert_by_name completed_steps
    first_fatal emit_events process_results execute_parallel new_history index lookup insert
    emit_event emit_workflow_started emit_workflow_completed note_branch_choice
    record_branch_evaluated record_branch_choice context_output context_error look perform execute
    execute_case execute_default decide_branch labels_of chosen attempts execute_step_with_events
    goroutine run run_all run_rest step_at ◌>>=◌ marshal marshal_or_nil record_child_spawned
    record_child_completed record_child_failed decimal decimal_digits map_with_options execute_map
    after_wait run_map drain begin_item item_routine record_map_started record_map_completed
    encode_all parent
one_at_a_time = refl

map_with_options-Collected_example :
    (length {A = ℕ} (1 ∷ 1 ∷ []) ≡ length two_items)
    × Collected env number 0 text_of (λ i. env) workflow 0 0 order two_items parent (1 ∷ 1 ∷ []) 1
unfolding lookup parent
map_with_options-Collected_example =
    map_with_options-Collected env number 0 text_of (λ i. env) workflow 0 0 order two_items parent
      (1 ∷ 1 ∷ []) refl mapped 1 (omega arith)

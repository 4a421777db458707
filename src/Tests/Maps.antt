-- ===== src/Tests/Maps.antt =====
-- workflow/map.go: a map of two children that do not fail, one at a time, and the theorem at it.
use skene.Prelude.{
  ◌≡◌, ◌≢◌, refl, ℕ, zero, suc, ◌<◌, subst, none, some, List, [], length, get_elem?, decimal,
  decimal_digits, lookup, insert, string_key,
}
use skene.Event.Json.{marshal, marshal_or_nil, num}
use skene.Workflow.Errors.{ok}
use skene.Workflow.History.{new_history, index, record_branch_choice}
use skene.Workflow.Step.{chosen, Value, no_value, json_value}
use skene.Workflow.Thread.{◌>>=◌, run, run_all, run_rest, step_at}
use skene.Workflow.Replayer.{
  emit_event, emit_workflow_started, emit_workflow_completed, note_branch_choice,
  record_branch_evaluated, context_output, context_error, look,
}
use skene.Workflow.Signal.{perform}
use skene.Workflow.Branch.{execute, execute_case, execute_default, decide_branch, labels_of}
use skene.Workflow.Execute.{attempts, execute_step_with_events, goroutine}
use skene.Workflow.Replay.{
  replay, run_waves, find_ready_steps, filter_ready, sort_by_name, insert_by_name, completed_steps,
  first_fatal, emit_events, process_results, execute_parallel, ReplayOutput, failed, completed,
  Replayed, returned,
}
use skene.Workflow.Map.{came_back, replay_item, map_child_id}
use skene.Workflow.Map.Call.{map_with_options}
use skene.Workflow.Map.Succeeds.{Sound, replayed}
use skene.Workflow.Map.Results.{Collected}
use skene.Workflow.Map.Returns.{map_with_options_returns}
use skene.Tests.Demo.{env, workflow}
use skene.Tests.Fanouts.{number, text_of, two_items, parent, order}

abbrev child : ℕ → Value → Replayed
child i x = replay_item env number 0 env workflow (map_child_id env 0 i) x

abbrev output_of : Replayed → ReplayOutput
output_of (returned o) = o
output_of _ = record {
  result = failed;
  final_output = no_value;
  error = none;
  waiting_for_signals = [];
  new_events = [];
  next_sequence = 0;
}

abbrev SoundAt : ℕ → Value → Type 0
SoundAt i x = Sound env number 0 (λ i. env) workflow 0 parent.history two_items i x

not_failed : completed ≢ failed
not_failed e = cc

first_sound : SoundAt 0 (json_value (num 5))
unfolding replay run_waves find_ready_steps filter_ready sort_by_name insert_by_name completed_steps
    first_fatal emit_events process_results execute_parallel new_history index lookup insert
    emit_event emit_workflow_started emit_workflow_completed note_branch_choice
    record_branch_evaluated record_branch_choice context_output context_error look perform execute
    execute_case execute_default decide_branch labels_of chosen attempts execute_step_with_events
    goroutine run run_all run_rest step_at ◌>>=◌ marshal marshal_or_nil decimal decimal_digits
    parent
first_sound =
    replayed _ (output_of (child 0 (json_value (num 5)))) 1 refl refl refl refl not_failed refl

second_sound : SoundAt 1 (json_value (num 6))
unfolding replay run_waves find_ready_steps filter_ready sort_by_name insert_by_name completed_steps
    first_fatal emit_events process_results execute_parallel new_history index lookup insert
    emit_event emit_workflow_started emit_workflow_completed note_branch_choice
    record_branch_evaluated record_branch_choice context_output context_error look perform execute
    execute_case execute_default decide_branch labels_of chosen attempts execute_step_with_events
    goroutine run run_all run_rest step_at ◌>>=◌ marshal marshal_or_nil decimal decimal_digits
    parent
second_sound =
    replayed _ (output_of (child 1 (json_value (num 6)))) 1 refl refl refl refl not_failed refl

all_sound : (i : ℕ) (x : Value) → get_elem? two_items i ≡ some x → SoundAt i x
all_sound zero x e = let same : json_value (num 5) ≡ x = cc in subst (SoundAt 0) same first_sound
all_sound (suc zero) x e =
    let same : json_value (num 6) ≡ x = cc in subst (SoundAt 1) same second_sound
all_sound (suc (suc i)) x e = cc

map_with_options_returns_example :
    (vs : List ℕ) × ((map_with_options env number 0 text_of
        (λ i. env)
        workflow
        0
        1
        order
        two_items
        parent).0
      ≡ came_back (ok vs))
    × ((i : ℕ)
        → i < length two_items
        → (length vs ≡ length two_items)
          × Collected env number 0 text_of (λ i. env) workflow 0 1 order two_items parent vs i)
unfolding lookup parent
map_with_options_returns_example =
    map_with_options_returns env number 0 text_of (λ i. env) workflow 0 1 order two_items parent
      (λ n. refl) refl (λ v. (num v, refl)) refl refl all_sound

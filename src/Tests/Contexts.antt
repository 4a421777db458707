-- ===== src/Tests/Contexts.antt =====
-- workflow/context.go: what a step reads of its context at a concrete history.
use skene.Prelude.{◌≡◌, refl, ℕ, some, none, List, [], ◌∷◌, string_key, negsuc, true}
use skene.Event.{Event, branch_evaluated, step_completed}
use skene.Event.Json.{RawMessage, doc, num, nil, marshal_or_nil, marshal, unmarshal}
use skene.Event.Data.{BranchEvaluatedData, branch_evaluated_codec}
use skene.Workflow.Errors.{new, Result, ok, err}
use skene.Workflow.History.{new_history}
use skene.Workflow.Step.{AnyStep, new_step, json_value, case, no_cases, no_default, chosen}
use skene.Workflow.Step as Step
use skene.Workflow.Replayer.{new_replayer}
use skene.Workflow.Context.{
  adapter, child_context, build_execution_context, new_map_child_context, value, child_index,
  branch_output, get_step_output,
}
use skene.Workflow.Context.Reads.{branch_output-eq-step_output}
use skene.Tests.Demo.{env, event_of}

abbrev number : RawMessage → Result ℕ
number (doc (num n)) = ok n
number _ = err (new "unexpected end of JSON input")

abbrev red : AnyStep
red = new_step "paint_red" (λ attempt. Step.return (ok (json_value (num 1))))

abbrev painted : List Event
painted =
    event_of 1 branch_evaluated ""
      (marshal_or_nil {A = BranchEvaluatedData} (record { branch_name = "paint"; choice = "red" }))
      nil
    ∷ event_of 2 step_completed "paint_red" nil (doc (num 1))
    ∷ []

in_map :
    child_index
      (child_context (new_map_child_context "run-map-0-2" "sub" nil none "run" (negsuc 0)))
    ≡ (negsuc 0, true)
in_map = refl

branch_output-eq-step_output_example :
    let c =
      adapter (build_execution_context env "audit" (new_replayer (new_history "run" painted))) in
    (branch_output env number "paint" (case "red" red no_cases) no_default c ≡ some 1)
    × (get_step_output env number "paint_red" c ≡ value 1)
unfolding marshal_or_nil marshal unmarshal chosen
branch_output-eq-step_output_example =
    branch_output-eq-step_output env number painted "audit" "paint" "red" (case "red" red no_cases)
      no_default red (doc (num 1)) 1 refl refl refl refl

-- ===== src/Workflow/Context/Reads.antt =====
-- workflow/step.go, workflow/branch.go: what a step reads of its context, against the history.
use skene.Prelude.{◌≡◌, ap, ◌∙◌, String, some, List, lookup, string_key}
use skene.Event.{Event}
use skene.Event.Json.{RawMessage}
use skene.Workflow.Errors.{Result, ok}
use skene.Workflow.History.{new_history}
use skene.Workflow.History.LastWrite.{last_write, output_of, branch_of}
use skene.Workflow.History.Writes.{get_output-eq-last_write, get_branch_choice-eq-last_write}
use skene.Workflow.Step.{AnyStep, Cases, Default, chosen, name_of}
use skene.Workflow.Replayer.{Env, new_replayer, context_output}
use skene.Workflow.Context.{
  Context, adapter, build_execution_context, value, read_output, read_choice, get_step_output,
  branch_output, decoded, step_outcome, output_of_choice, output_of_case, case_outcome, or_none,
}

module _ (env : Env) {T : Type 0} (decode : RawMessage → Result T) (es : List Event)
    (step_name : String) where
  abbrev in_new_replay : Context
  in_new_replay =
      adapter (build_execution_context env step_name (new_replayer (new_history env.run_id es)))

  read_output-last_write :
      (key : String)
      → read_output env in_new_replay key ≡ some (last_write (λ e. output_of e.type e) es key)
  unfolding read_output context_output lookup
  read_output-last_write key = ap some (get_output-eq-last_write env.run_id es key)

  step_output :
      (key : String) (raw : RawMessage) (v : T)
      → read_output env in_new_replay key ≡ some (some raw)
      → decode raw ≡ ok v
      → get_step_output env decode key in_new_replay ≡ value v
  unfolding get_step_output
  step_output key raw v found d =
      ap (step_outcome env decode key) found ∙ ap (decoded env decode _) d

  branch_case :
      (branch_name choice : String) (cases : Cases) (fallback : Default) (s : AnyStep)
      (raw : RawMessage) (v : T)
      → read_choice env in_new_replay branch_name ≡ some (some choice)
      → chosen choice cases fallback ≡ some s
      → read_output env in_new_replay (name_of s) ≡ some (some raw)
      → decode raw ≡ ok v
      → branch_output env decode branch_name cases fallback in_new_replay ≡ some v
  unfolding branch_output
  branch_case branch_name choice cases fallback s raw v c t found d =
      ap (output_of_choice env decode cases fallback in_new_replay) c
      ∙ ap (output_of_case env decode in_new_replay) t
      ∙ ap (case_outcome env decode) found
      ∙ ap (or_none env decode) d

-- A step of a new replay reads of a branch the output of the case that was taken: if the last choice that an
-- event of the history tells of the branch has a step, and the last output that an event tells of that step
-- decodes to a value, then `BranchOutput` of the branch and `GetOutput` of the step both give that value.
pub branch_output-eq-step_output :
    (env : Env) {T : Type 0} (decode : RawMessage → Result T) (es : List Event) (step_name : String)
    (branch_name choice : String) (cases : Cases) (fallback : Default) (s : AnyStep)
    (raw : RawMessage) (v : T)
    → last_write (λ e. branch_of e.type e) es branch_name ≡ some choice
    → chosen choice cases fallback ≡ some s
    → last_write (λ e. output_of e.type e) es (name_of s) ≡ some raw
    → decode raw ≡ ok v
    → let c =
        adapter
          (build_execution_context env step_name (new_replayer (new_history env.run_id es))) in
      (branch_output env decode branch_name cases fallback c ≡ some v)
      × (get_step_output env decode (name_of s) c ≡ value v)
branch_output-eq-step_output env decode es step_name branch_name choice cases fallback s raw v c t o
      d =
    let found = read_output-last_write env decode es step_name (name_of s) ∙ ap some o in
    (
      branch_case env decode es step_name branch_name choice cases fallback s raw v
          (ap some (get_branch_choice-eq-last_write env.run_id es branch_name ∙ c)) t found d,
      step_output env decode es step_name (name_of s) raw v found d,
    )

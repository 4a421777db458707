-- ===== src/Workflow/Saga.antt =====
-- workflow/saga.go: the compensations of the steps that a run has completed.
pub mod Outcome
use skene.Prelude.{String, Option, none, some, List, [], ◌∷◌, ◌++◌, if◌then◌else◌, ◌==◌, string_key}
use skene.Event.{zero_event, compensation_started, compensation_completed, compensation_failed}
use skene.Event.Json.{marshal}
use skene.Event.Data.{
  CompensationStartedData, CompensationCompletedData, CompensationFailedData,
  compensation_started_codec, compensation_completed_codec, compensation_failed_codec,
}
use skene.Workflow.Errors.{Error, new, wrap, error_text, Result, ok, err}
use skene.Workflow.Step.{Body, ConfiguredStep, config_of, get_step}
use skene.Workflow.Thread.{run}
use skene.Workflow.Replayer.{Env, Replayer, emit_event}
use skene.Workflow.Signal.{perform}
use Prim.Native.String.{◌++◌ as concat}

-- `SagaError`: each of its errors may be nil.
pub record SagaError : Type 0 where
  pub original_error : Option Error
  pub compensation_error : Option Error

-- fmt's `%v` of an error
abbrev pub text_or_nil : Option Error → String
text_or_nil none = "<nil>"
text_or_nil (some e) = error_text e

-- `(*SagaError).Error`
abbrev pub saga_text : SagaError → String
saga_text e = elim e.compensation_error [
  | some c ↦ concat "saga failed: " (
      concat (text_or_nil e.original_error)
        (concat " (compensation also failed: " (concat (error_text c) ")")))
  | none ↦
      concat "saga failed: " (concat (text_or_nil e.original_error) " (compensation succeeded)")
]

-- `(*SagaError).Unwrap`
abbrev pub unwrap : SagaError → Option Error
unwrap e = e.original_error

-- `CompensationResult`. `errors` are those that errors.Join joins; the empty list is a nil error.
pub record CompensationResult : Type 0 where
  pub steps_compensated : List String
  pub failed_step : String
  pub errors : List Error

abbrev pub nothing_done : CompensationResult
nothing_done = record { steps_compensated = []; failed_step = ""; errors = [] }

-- `configurable.Config().Compensation` of the step with a name
abbrev pub compensation_of : List ConfiguredStep → String → Option (Body (Option Error))
compensation_of steps step_name = elim (get_step step_name steps) [
  | none ↦ none
  | some c ↦ (config_of c.step).compensation
]

-- The loop from the last completed step to the first.
unfoldable pub steps_to_undo : List ConfiguredStep → List String → List String
steps_to_undo steps [] = []
steps_to_undo steps (n ∷ ns) =
    let rest = steps_to_undo steps ns in
    elim (compensation_of steps n) [ none ↦ rest | some fn ↦ rest ++ n ∷ [] ]

abbrev pub succeed : String → CompensationResult → CompensationResult
succeed step_name p = record p { steps_compensated = p.steps_compensated ++ step_name ∷ [] }

abbrev pub fail : String → Error → CompensationResult → CompensationResult
fail step_name e p = record p {
  failed_step = if p.failed_step == "" then step_name else p.failed_step;
  errors = p.errors ++ wrap (concat "compensate " step_name) e ∷ [];
}

module _ (env : Env) where
  -- `emitCompensationStarted`
  unfoldable pub emit_compensation_started : String → List String → Replayer → Result Replayer
  emit_compensation_started trigger_step steps r =
      let body : CompensationStartedData = record {
        trigger_step = trigger_step;
        steps_to_undo = steps;
      } in
      elim (marshal body) [
        | none ↦ err (new "marshal event data")
        | some raw ↦
            ok (emit_event env (record zero_event { type = compensation_started; payload = raw }) r)
      ]

  -- `emitCompensationCompleted`
  unfoldable pub emit_compensation_completed : List String → Replayer → Result Replayer
  emit_compensation_completed steps r =
      let body : CompensationCompletedData = record { steps_compensated = steps } in
      elim (marshal body) [
        | none ↦ err (new "marshal event data")
        | some raw ↦
            ok (
              emit_event env (record zero_event { type = compensation_completed; payload = raw }) r)
      ]

  -- `emitCompensationFailed`
  unfoldable pub emit_compensation_failed : String → Error → Replayer → Result Replayer
  emit_compensation_failed failed_step e r =
      let body : CompensationFailedData = record {
        failed_step = failed_step;
        error = error_text e;
      } in
      elim (marshal body) [
        | none ↦ err (new "marshal event data")
        | some raw ↦
            ok (emit_event env (record zero_event { type = compensation_failed; payload = raw }) r)
      ]

  -- The loop over the steps to undo. The compensations run one after another.
  unfoldable pub compensate_each :
      List String → CompensationResult → Replayer → Result (CompensationResult × Replayer)
  unfolding emit_compensation_failed
  compensate_each [] p r = ok (p, r)
  compensate_each (n ∷ ns) p r = elim (compensation_of env.workflow.steps n) [
    | none ↦ compensate_each ns p r
    | some fn ↦
        let ran = run (perform env fn) r in
        elim ran.0 [
          | none ↦ compensate_each ns (succeed n p) ran.1
          | some e ↦ elim (emit_compensation_failed n e ran.1) [
            | err x ↦ err (wrap "emit compensation.failed" x)
            | ok r' ↦ compensate_each ns (fail n e p) r'
          ]
        ]
  ]

  -- After the loop
  abbrev pub conclude : CompensationResult → Replayer → Result (CompensationResult × Replayer)
  conclude p r = elim p.errors [
    | [] ↦ elim (emit_compensation_completed p.steps_compensated r) [
      | err x ↦ err (wrap "emit compensation.completed" x)
      | ok r' ↦ ok (p, r')
    ]
    | e ∷ es ↦ ok (p, r)
  ]

  -- `runCompensation`
  unfoldable pub run_compensation :
      String → List String → Replayer → Result (CompensationResult × Replayer)
  unfolding steps_to_undo compensate_each emit_compensation_started emit_compensation_completed
  run_compensation failed_step completed_steps r =
      elim (steps_to_undo env.workflow.steps completed_steps) [
        | [] ↦ ok (nothing_done, r)
        | s ∷ ss ↦ elim (emit_compensation_started failed_step (s ∷ ss) r) [
          | err x ↦ err (wrap "emit compensation.started" x)
          | ok started ↦ elim (compensate_each (s ∷ ss) nothing_done started) [
            | err x ↦ err x
            | ok o ↦ conclude o.0 o.1
          ]
        ]
      ]

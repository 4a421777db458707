-- ===== src/Workflow/Execute.antt =====
-- workflow/replay.go, `executeStepWithEvents`: the execution of one step, with its retries, in a
-- goroutine of its own.
pub mod Invariant
pub mod Retries
pub mod Bounds
pub mod Story
use skene.Prelude.{
  ℕ, zero, suc, ◌+◌, String, Bool, true, false, Option, none, some, List, [], ◌∷◌, ◌++◌, Map,
  insert, if◌then◌else◌, ◌==◌, string_key, pos, pos_part,
}
use skene.Event.{Event, zero_event, step_started, step_completed, step_failed}
use skene.Event.Json.{RawMessage, nil, marshal_or_nil}
use skene.Event.Data.{
  StepStartedData, StepCompletedData, StepFailedData, step_started_codec, step_completed_codec,
  step_failed_codec,
}
use skene.Retry.{Policy, should_retry}
use skene.Workflow.Errors.{Error, canceled, Result, ok, error_text, is_waiting}
use skene.Workflow.Step.{Value, no_value, marshal_any, AnyStep, name_of, config_of}
use skene.Workflow.Thread.{Thread, done, act, ◌>>=◌, ◌>>◌, modify}
use skene.Workflow.Replayer.{Env, Replayer, context_error, look}
use skene.Workflow.Branch.{Labels, execute, labels_of}

-- `stepResult`
pub record StepResult : Type 0 where
  pub step_name : String
  pub output : Value
  pub err : Option Error
  pub events : List Event

abbrev pub started_event : Labels → ℕ → Event
started_event l attempt =
    let body : StepStartedData = record {
      attempt = attempt;
      branch_name = l.branch_name;
      case_value = l.case_value;
    } in
    record zero_event {
      type = step_started;
      step_name = l.event_step_name;
      payload = marshal_or_nil body;
    }

-- `outputJSON, _ := json.Marshal(output)`
abbrev pub or_nil : Option RawMessage → RawMessage
or_nil none = nil
or_nil (some raw) = raw

abbrev pub completed_event : Labels → Value → Event
completed_event l output =
    let body : StepCompletedData = record {
      duration = 0;
      branch_name = l.branch_name;
      case_value = l.case_value;
    } in
    record zero_event {
      type = step_completed;
      step_name = l.event_step_name;
      output = or_nil (marshal_any output);
      payload = marshal_or_nil body;
    }

abbrev pub failed_event : Labels → ℕ → Error → Bool → Event
failed_event l attempt e will_retry =
    let body : StepFailedData = record {
      error = error_text e;
      attempt = attempt;
      will_retry = will_retry;
      branch_name = l.branch_name;
      case_value = l.case_value;
    } in
    record zero_event {
      type = step_failed;
      step_name = l.event_step_name;
      payload = marshal_or_nil body;
    }

-- `stepConfig.RetryPolicy != nil && stepConfig.RetryPolicy.ShouldRetry(attempt, err)`
abbrev pub will_retry : Option Policy → ℕ → Bool
will_retry none attempt = false
will_retry (some policy) attempt = should_retry policy (pos attempt)

-- The key of the output cache: a branch's output stands under the name of its case's step.
abbrev pub cache_key : AnyStep → Labels → String
cache_key s l = if l.branch_name == "" then name_of s else l.event_step_name

abbrev pub cache : String → Value → Replayer → Replayer
cache key output r = record r { output_cache = insert key output r.output_cache }

abbrev pub finished : AnyStep → Value → Option Error → List Event → StepResult
finished s output e events = record {
  step_name = name_of s;
  output = output;
  err = e;
  events = events;
}

-- The most attempts that a step's policy allows, and at least one.
abbrev pub attempt_limit : Option Policy → ℕ
attempt_limit none = 1
attempt_limit (some policy) = suc (pos_part policy.max_attempts)

-- The first error of a group cancels its context.
abbrev pub cancel : Option StepResult → Replayer → Replayer
cancel none r = r
cancel (some result) r = elim result.err [
  | none ↦ r
  | some e ↦ elim r.group [ none ↦ record r { group = some canceled } | some c ↦ r ]
]

module _ (env : Env) where
  -- `ctx.Err()`, or what `ctx.Done()` tells during the wait before a retry
  abbrev pub check : Thread Replayer (Option Error)
  check = act (look env) (λ r. done (context_error env r))

  -- The retry loop. The fuel bounds the attempts; `none` means that it ran out.
  unfoldable pub attempts :
      AnyStep → Labels → ℕ → ℕ → List Event → Thread Replayer (Option StepResult)
  unfolding execute
  attempts s l zero attempt events = done none
  attempts s l (suc fuel) attempt events = do
    cancelled ← check
    elim cancelled [
      | some e ↦ done (some (finished s no_value (some e) events))
      | none ↦ do
        result ← execute env s attempt
        let started = events ++ started_event l attempt ∷ []
        elim result [
          | ok output ↦ do
            modify (cache (cache_key s l) output)
            done (some (finished s output none (started ++ completed_event l output ∷ [])))
          | Result.err e ↦ elim (is_waiting e) [
            | true ↦ done (some (finished s no_value (some e) started))
            | false ↦
                let again = will_retry (config_of s).retry_policy attempt in
                let failed = started ++ failed_event l attempt e again ∷ [] in
                elim again [
                  | false ↦ done (some (finished s no_value (some e) failed))
                  | true ↦ do
                    interrupted ← check
                    elim interrupted [
                      | some c ↦ done (some (finished s no_value (some c) failed))
                      | none ↦ attempts s l fuel (attempt + 1) failed
                    ]
                ]
          ]
        ]
    ]

  -- `executeStepWithEvents`
  unfoldable pub execute_step_with_events : AnyStep → Thread Replayer (Option StepResult)
  unfolding attempts labels_of
  execute_step_with_events s = do
    cancelled ← check
    elim cancelled [
      | some e ↦ done (some (finished s no_value (some e) []))
      | none ↦ do l ← labels_of env s; attempts s l (attempt_limit (config_of s).retry_policy) 1 []
    ]

  -- The goroutine of a step: an error cancels the group's context for the others.
  unfoldable pub goroutine : AnyStep → Thread Replayer (Option StepResult)
  unfolding execute_step_with_events
  goroutine s = do result ← execute_step_with_events s; modify (cancel result); done result

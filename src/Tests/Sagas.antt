-- ===== src/Tests/Sagas.antt =====
-- workflow/saga.go: the compensation of three steps, of which one has none and one fails.
use skene.Prelude.{◌≡◌, refl, none, some, List, [], ◌∷◌, map, lookup, insert, string_key, String}
use skene.Event.{Event, EventType, compensation_started, compensation_failed}
use skene.Event.Json.{num, marshal}
use skene.Workflow.Errors.{new, wrap, Result, ok, err}
use skene.Workflow.History.{new_history}
use skene.Workflow.Step.{
  json_value, return, AnyStep, new_step, with_compensation, after, ConfiguredStep, get_step,
}
use skene.Workflow.Thread.{run}
use skene.Workflow.Replayer.{Env, Replayer, new_replayer, emit_event}
use skene.Workflow.Signal.{perform}
use skene.Workflow.Saga.{
  CompensationResult, nothing_done, steps_to_undo, compensate_each, run_compensation,
  emit_compensation_started, emit_compensation_completed, emit_compensation_failed,
}
use skene.Workflow.Saga.Outcome.{compensable, backwards, Outcome, run_compensation-Outcome}
use skene.Tests.Demo.{env, workflow}

abbrev plain_step : String → AnyStep
plain_step name = new_step name (λ attempt. return (ok (json_value (num 1))))

abbrev saga_steps : List ConfiguredStep
saga_steps =
    after (with_compensation (return none) (plain_step "reserve")) []
    ∷ after (with_compensation (return (some (new "refused"))) (plain_step "charge")) []
    ∷ after (plain_step "ship") []
    ∷ []

abbrev saga_env : Env
saga_env = record env { workflow = record workflow { steps = saga_steps } }

abbrev started : Replayer
started = new_replayer (new_history "run" [])

abbrev told : Result (CompensationResult × Replayer) → List (EventType) × CompensationResult
told (ok (q, r)) = (map (λ (e : Event). e.type) r.new_events, q)
told (err e) = ([], nothing_done)

charge_fails :
    told (run_compensation saga_env "pack" ("reserve" ∷ "ship" ∷ "charge" ∷ []) started) ≡ (
      compensation_started ∷ compensation_failed ∷ [],
      record {
        steps_compensated = "reserve" ∷ [];
        failed_step = "charge";
        errors = wrap "compensate charge" (new "refused") ∷ [];
      },
    )
unfolding run_compensation steps_to_undo compensate_each emit_compensation_started
    emit_compensation_completed emit_compensation_failed get_step run perform emit_event marshal
    lookup insert
charge_fails = refl

run_compensation-Outcome_example :
    (q : CompensationResult) × (start r' : Replayer) × (run_compensation saga_env "pack"
        ("reserve" ∷ "ship" ∷ "charge" ∷ [])
        started
      ≡ ok (q, r'))
    × Outcome saga_env
        (compensable saga_steps (backwards ("reserve" ∷ "ship" ∷ "charge" ∷ []) []))
        start
        nothing_done
        q
run_compensation-Outcome_example =
    run_compensation-Outcome saga_env "pack" ("reserve" ∷ "ship" ∷ "charge" ∷ []) started

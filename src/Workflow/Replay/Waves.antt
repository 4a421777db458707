-- ===== src/Workflow/Replay/Waves.antt =====
-- workflow/replay.go: what every access to the replayer keeps, a replay keeps, on every path and
-- under every schedule.
use skene.Prelude.{
  length, if_cases, Bool_cases, Option_cases, List_cases, ℕ, zero, suc, String, Bool, false, Option,
  none, List, [], ◌∷◌, map, Map, All, subst,
}
use skene.Event.{Event, zero_event, workflow_started, workflow_completed}
use skene.Event.Json.{marshal}
use skene.Event.Data.{started_codec, completed_codec}
use skene.Workflow.Errors.{Error, Result_cases, Result, ok}
use skene.Workflow.History.{is_set}
use skene.Workflow.Step.{Value, no_value, ConfiguredStep, marshal_any}
use skene.Workflow.Thread.Keeps.{Keeps, Keeps-run, Keeps-run_all}
use skene.Workflow.Replayer.{
  Env, Replayer, WaitingSignal, output_json, started_data, completed_data, emit_workflow_started,
  emit_workflow_completed, look,
}
use skene.Workflow.Execute.{StepResult, goroutine}
use skene.Workflow.Execute.Invariant.{Closed, Keeps-execute_step_with_events, Keeps-goroutine}
use skene.Workflow.Replay.{
  Replayed, ReplayResult, broken, out_of_fuel, output_of, Progress, emit_events, process_results,
  execute_parallel, find_ready_steps, run_waves, complete, start, replay, completed_steps,
  first_fatal,
}

-- What holds where a replay ends: with an output, with an error, or out of fuel.
pub record Ends (env : Env) (P : Replayer → Type 0) (Q : Replayed × Replayer → Type 0)
    : Type 0 where
  pub outputs :
      (result : ReplayResult) (output : Value) (e : Option Error) (signals : List WaitingSignal)
      (r : Replayer)
      → P r
      → Q (output_of env result output e signals r, r)
  pub breaks : (e : Error) (r : Replayer) → P r → Q (broken e, r)
  pub runs_out : (r : Replayer) → P r → Q (out_of_fuel, r)

module _ (env : Env) (P : Replayer → Type 0) (closed : Closed env P) where
  open closed use {emit, looked, grouped}

  emit_events_keeps : (es : List Event) (r : Replayer) → P r → P (emit_events env es r)
  unfolding emit_events
  emit_events_keeps [] r p = p
  emit_events_keeps (e ∷ es) r p = emit_events_keeps es _ (emit e r p)

  process_results_keeps :
      (results : List StepResult) (q : Progress) (r : Replayer)
      → P r
      → P (process_results env results q r).1
  unfolding process_results
  process_results_keeps [] q r p = p
  process_results_keeps (result ∷ results) q r p =
      process_results_keeps results _ _ (emit_events_keeps result.events r p)

  goroutines_keep :
      (cs : List ConfiguredStep)
      → All (Keeps P) (map (λ (c : ConfiguredStep). goroutine env c.step) cs)
  goroutines_keep [] = tt
  goroutines_keep (c ∷ cs) = (Keeps-goroutine env P closed c.step, goroutines_keep cs)

  execute_parallel_keeps :
      (wave : ℕ) (cs : List ConfiguredStep) (r : Replayer)
      → P r
      → P (execute_parallel env wave cs r).1
  unfolding execute_parallel
  execute_parallel_keeps wave [] r p = p
  execute_parallel_keeps wave (c ∷ []) r p =
      Keeps-run P _ r (Keeps-execute_step_with_events env P closed c.step) p
  execute_parallel_keeps wave (c ∷ d ∷ cs) r p =
      grouped none _
        (Keeps-run_all P (env.schedule wave) _ _ (goroutines_keep (c ∷ d ∷ cs)) (grouped none r p))

  OnOk : Result Replayer → Type 0
  OnOk (ok r) = P r
  OnOk (Result.err e) = Unit

  emit_workflow_completed_keeps :
      (output : Value) (r : Replayer) → P r → OnOk (emit_workflow_completed env output r)
  unfolding emit_workflow_completed OnOk
  emit_workflow_completed_keeps output r p =
      Option_cases OnOk (output_json env output) _ _ (λ _. tt)
        (λ raw _.
          Option_cases OnOk (marshal (completed_data env raw)) _ _ (λ _. tt)
            (λ body _. emit (record zero_event { type = workflow_completed; payload = body }) r p))

  emit_workflow_started_keeps : (r : Replayer) → P r → OnOk (emit_workflow_started env r)
  unfolding emit_workflow_started OnOk
  emit_workflow_started_keeps r p =
      Option_cases OnOk (marshal_any env.input) _ _ (λ _. tt)
        (λ input_json _.
          Option_cases OnOk (marshal (started_data env input_json)) _ _ (λ _. tt)
            (λ body _. emit (record zero_event { type = workflow_started; payload = body }) r p))

  module _ (Q : Replayed × Replayer → Type 0) (ends : Ends env P Q) where
    open ends use {outputs, breaks, runs_out}

    complete_ends : (output : Value) (r : Replayer) → P r → Q (complete env output r)
    unfolding OnOk
    complete_ends output r p =
        Result_cases Q (emit_workflow_completed env output r) _ _
          (λ r' h. outputs _ _ _ _ r' (subst OnOk h (emit_workflow_completed_keeps output r p)))
          (λ e _. breaks _ r p)

    run_waves_ends :
        (fuel wave : ℕ) (done : Map String Bool) (output : Value) (r : Replayer)
        → P r
        → Q (run_waves env fuel wave done output r)
    unfolding run_waves
    run_waves_ends zero wave done output r p = runs_out r p
    run_waves_ends (suc fuel) wave done output r p =
        Option_cases Q (env.context_err r.looks) _ _
          (λ _.
            Bool_cases Q (look env r).history.cancelled _ _ (λ _. outputs _ _ _ _ _ now)
              (λ _.
                List_cases Q ready _ _ (λ _. complete_ends output (look env r) now)
                  (λ c cs _.
                    Option_cases Q (execute_parallel env wave ready (look env r)).0 _ _
                      (λ _. runs_out _ ran)
                      (λ results _.
                        Bool_cases Q (wave_end results).0.is_waiting _ _
                          (λ _. outputs _ _ _ _ _ (processed results))
                          (λ _.
                            Option_cases Q (wave_end results).0.failure _ _
                              (λ _. run_waves_ends fuel (suc wave) _ _ _ (processed results))
                              (λ f _. outputs _ _ _ _ _ (processed results)))))))
          (λ e _. outputs _ _ _ _ _ now)
      where
        now : P (look env r)
        now = looked r p

        ready : List ConfiguredStep
        ready = find_ready_steps (look env r).history done env.workflow.steps

        ran : P (execute_parallel env wave ready (look env r)).1
        ran = execute_parallel_keeps wave ready (look env r) now

        wave_end : List StepResult → Progress × Replayer
        wave_end results =
            process_results env results
              (record { done = done; final_output = output; failure = none; is_waiting = false })
              (execute_parallel env wave ready (look env r)).1

        processed : (results : List StepResult) → P (wave_end results).1
        processed results = process_results_keeps results _ _ ran

    start_keeps : (r : Replayer) → P r → OnOk (start env r)
    unfolding OnOk
    start_keeps r p =
        if_cases OnOk (is_set r.history.workflow_input) _ _ p
          (List_cases OnOk r.new_events _ _ (λ _. emit_workflow_started_keeps r p) (λ e es _. p))

    -- A replay ends in what each of its ends has, and keeps what each access keeps.
    pub replay_ends : (r : Replayer) → P r → Q (replay env r)
    unfolding replay OnOk
    replay_ends r p =
        Bool_cases Q r.history.cancelled _ _ (λ _. outputs _ _ _ _ r p)
          (λ _.
            Bool_cases Q r.history.completed _ _ (λ _. outputs _ _ _ _ r p)
              (λ _.
                Result_cases Q (start env r) _ _
                  (λ started h.
                    let q : P started = subst OnOk h (start_keeps r p) in
                    Option_cases Q (first_fatal started.history env.workflow.steps) _ _
                      (λ _.
                        run_waves_ends (suc (length env.workflow.steps)) 0
                          (completed_steps started.history env.workflow.steps) no_value started q)
                      (λ f _. outputs _ _ _ _ started q))
                  (λ e _. breaks _ r p)))

-- ===== src/Workflow/Replay/Totality.antt =====
-- workflow/replay.go, the loop of `Replay`: each wave that goes on completes a step, so there are at
-- most as many waves as steps and one.
use skene.Prelude.{
  length, ℕ, zero, suc, ◌<◌, String, Bool, true, false, ◌≡◌, sym, subst, refl, Option, none, some,
  List, [], ◌∷◌, map, Map, string_key, ◌⊎◌, inl, inr, arith, Bool_cases, Option_cases, List_cases,
  All, Has,
}
use skene.Workflow.Errors.{Error, Result_cases}
use skene.Workflow.Step.{Value, no_value, ConfiguredStep, name}
use skene.Workflow.Thread.{run}
use skene.Workflow.Thread.Yields.{Yields-run, Each, EachYields, Each-run_all}
use skene.Workflow.Replayer.{Env, Replayer, emit_workflow_completed, look}
use skene.Workflow.Execute.{StepResult, goroutine, execute_step_with_events}
use skene.Workflow.Execute.Retries.{Logged, goroutine-Logged, execute_step_with_events-Logged}
use skene.Workflow.Replay.{
  Replayed, ReplayOutput, returned, broken, complete, start, first_fatal, Progress, process_results,
  is_done, find_ready_steps, all_some, execute_parallel, run_waves, replay, completed_steps,
}
use skene.Workflow.Replay.Undone.{
  Extends, IsClear, process_results-done, undone, undone-lt, undone-length, IsOpen,
  find_ready_steps-IsOpen,
}

module _ (env : Env) where
  -- Each goroutine of a wave brings a result under its step's name.
  abbrev Named : ConfiguredStep → StepResult → Type 0
  Named c result = result.step_name ≡ name c

  goroutines-Logged :
      (cs : List ConfiguredStep)
      → EachYields
          (λ (c : ConfiguredStep). Logged c.step)
          cs
          (map (λ (c : ConfiguredStep). goroutine env c.step) cs)
  goroutines-Logged [] = tt
  goroutines-Logged (c ∷ cs) = (goroutine-Logged env c.step, goroutines-Logged cs)

  all_some-Named :
      (cs : List ConfiguredStep) (os : List (Option StepResult))
      → Each (λ (c : ConfiguredStep). Logged c.step) cs os
      → (results : List StepResult) × (all_some os ≡ some results) × Each Named cs results
  all_some-Named [] [] h = ([], refl, tt)
  all_some-Named [] (o ∷ os) h = absurd h
  all_some-Named (c ∷ cs) [] h = absurd h
  all_some-Named (c ∷ cs) (o ∷ os) h =
      let (results, e, named) = all_some-Named cs os h.1 in
      let g = h.0.1 in (g.result ∷ results, rw g.is_there (rw e refl), (g.named, named))

  pub execute_parallel-Named :
      (wave : ℕ) (cs : List ConfiguredStep) (r : Replayer)
      → (results : List StepResult) × ((execute_parallel env wave cs r).0 ≡ some results)
        × Each Named cs results
  unfolding execute_parallel
  execute_parallel-Named wave [] r = ([], refl, tt)
  execute_parallel-Named wave (c ∷ []) r =
      all_some-Named (c ∷ []) ((run (execute_step_with_events env c.step) r).0 ∷ [])
        (Yields-run (Logged c.step) _ r (execute_step_with_events-Logged env c.step), tt)
  execute_parallel-Named wave (c ∷ d ∷ cs) r = all_some-Named (c ∷ d ∷ cs) _ (
      Each-run_all (λ (x : ConfiguredStep). Logged x.step) (env.schedule wave) (c ∷ d ∷ cs) _ _
        (goroutines-Logged (c ∷ d ∷ cs)))

results-Named :
    (env : Env) (wave : ℕ) (cs : List ConfiguredStep) (r : Replayer) (results : List StepResult)
    → (execute_parallel env wave cs r).0 ≡ some results
    → Each (Named env) cs results
results-Named env wave cs r results e =
    let (ran, some_ran, named) = execute_parallel-Named env wave cs r in
    let same : ran ≡ results = cc in subst (Each (Named env) cs) same named

-- A replay comes to an output or to an error.
abbrev pub Returns : Replayed → Type 0
Returns o = ((out : ReplayOutput) × (o ≡ returned out)) ⊎ ((e : Error) × (o ≡ broken e))

module _ (env : Env) where
  steps : List ConfiguredStep
  steps = env.workflow.steps

  Ended : Replayed × Replayer → Type 0
  Ended o = Returns o.0

  complete-Ended : (output : Value) (r : Replayer) → Ended (complete env output r)
  unfolding Ended
  complete-Ended output r =
      Result_cases Ended (emit_workflow_completed env output r) _ _ (λ r' _. inl (_, refl))
        (λ e _. inr (_, refl))

  -- A wave that goes on leaves fewer steps undone.
  wave-lt :
      (d d' : Map String Bool) (ready : List ConfiguredStep) (c : ConfiguredStep)
      (cs : List ConfiguredStep) (results : List StepResult)
      → ready ≡ c ∷ cs
      → All (λ b. Has b steps × (is_done d (name b) ≡ false)) ready
      → Each (Named env) ready results
      → Extends d d'
      → All (λ (x : StepResult). is_done d' x.step_name ≡ true) results
      → undone d' steps < undone d steps
  wave-lt d d' [] c cs results e open_steps named extends all = cc
  wave-lt d d' (b ∷ ready) c cs [] e open_steps named extends all = absurd named
  wave-lt d d' (b ∷ ready) c cs (x ∷ results) e open_steps named extends all =
      undone-lt d d' b steps extends open_steps.0.0 open_steps.0.1 (rw (sym named.0) all.0)

  run_waves-Ended :
      (fuel wave : ℕ) (d : Map String Bool) (output : Value) (r : Replayer)
      → undone d steps < fuel
      → Ended (run_waves env fuel wave d output r)
  unfolding run_waves Ended steps IsOpen IsClear
  run_waves-Ended zero wave d output r h = absurd (omega arith)
  run_waves-Ended (suc fuel) wave d output r h =
      Option_cases Ended (env.context_err r.looks) _ _
        (λ _.
          Bool_cases Ended (look env r).history.cancelled _ _ (λ _. inl (_, refl))
            (λ _.
              List_cases Ended ready _ _ (λ _. complete-Ended output (look env r))
                (λ c cs e.
                  Option_cases Ended (execute_parallel env wave ready (look env r)).0 _ _
                    (λ none_e. let ran = execute_parallel-Named env wave ready (look env r) in cc)
                    (λ results some_e.
                      Bool_cases Ended (wave_end results).0.is_waiting _ _ (λ _. inl (_, refl))
                        (λ w.
                          Option_cases Ended (wave_end results).0.failure _ _
                            (λ f.
                              let (clear, extends, all) =
                                process_results-done env results _ _ (w, f) in
                              let fewer =
                                wave-lt d _ ready c cs results e
                                  (find_ready_steps-IsOpen (look env r).history d steps)
                                  (results-Named env wave ready (look env r) results some_e) extends
                                  all in
                              run_waves-Ended fuel (suc wave) _ _ _ (omega arith))
                            (λ f _. inl (_, refl)))))))
        (λ e _. inl (_, refl))
    where
      ready : List ConfiguredStep
      ready = find_ready_steps (look env r).history d env.workflow.steps

      wave_end : List StepResult → Progress × Replayer
      wave_end results =
          process_results env results
            (record { done = d; final_output = output; failure = none; is_waiting = false })
            (execute_parallel env wave ready (look env r)).1

-- A replay of steps whose code returns, which may call `Run` and `Map`, returns an output or an error,
-- from every state and under every schedule: it never runs out of the model's fuel, one wave more than
-- the workflow has steps.
pub replay-Returns : (env : Env) (r : Replayer) → Returns (replay env r).0
unfolding replay Ended steps
replay-Returns env r =
    Bool_cases (Ended env) r.history.cancelled _ _ (λ _. inl (_, refl))
      (λ _.
        Bool_cases (Ended env) r.history.completed _ _ (λ _. inl (_, refl))
          (λ _.
            Result_cases (Ended env) (start env r) _ _
              (λ started _.
                Option_cases (Ended env) (first_fatal started.history env.workflow.steps) _ _
                  (λ _.
                    run_waves-Ended env (suc (length env.workflow.steps)) 0
                      (completed_steps started.history env.workflow.steps) no_value started
                      (let bound =
                          undone-length (completed_steps started.history env.workflow.steps)
                            env.workflow.steps in
                        omega arith))
                  (λ f _. inl (_, refl)))
              (λ e _. inr (_, refl))))

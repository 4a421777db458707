-- ===== src/Workflow/Replay.antt =====
-- workflow/replay.go, `Replay`: the waves of ready steps, and how a replay ends.
pub mod Waves
pub mod Sequences
pub mod Undone
pub mod Totality
pub mod Ready
pub mod NoStall
use Prim.Native.Nat.{Ordering}
use Prim.Native.String.{compare as compare_text, ◌++◌ as concat}
use skene.Prelude.{
  ℕ, zero, suc, ◌+◌, String, Bool, true, false, Option, none, some, List, [], ◌∷◌, ◌++◌, map, Map,
  lookup, insert, if◌then◌else◌, ◌&&◌, ◌||◌, not, string_key, length,
}
use skene.Event.{Event}
use skene.Event.Json.{RawMessage}
use skene.Workflow.Errors.{Error, wrap, workflow_cancelled, Result, ok, quote, is_waiting}
use skene.Workflow.History.{History, is_set, has_completed, get_fatal_error, is_some}
use skene.Workflow.Step.{Value, no_value, ConfiguredStep, name, dependencies}
use skene.Workflow.Thread.{Thread, run, run_all}
use skene.Workflow.Replayer.{
  Env, Replayer, WaitingSignal, emit_event, emit_workflow_started, emit_workflow_completed,
  context_error, look,
}
use skene.Workflow.Execute.{StepResult, execute_step_with_events, goroutine}

-- `ReplayResult`
pub data ReplayResult : Type 0 where
  completed waiting failed suspended : ReplayResult

-- `(ReplayResult).String`
abbrev pub result_text : ReplayResult → String
result_text completed = "completed"
result_text waiting = "waiting"
result_text failed = "failed"
result_text suspended = "suspended"

-- `ReplayOutput`
pub record ReplayOutput : Type 0 where
  pub result : ReplayResult
  pub final_output : Value
  pub error : Option Error
  pub waiting_for_signals : List WaitingSignal
  pub new_events : List Event
  pub next_sequence : ℕ

-- What a call of `Replay` comes to: an output, an error, or a model that ran out of fuel.
pub data Replayed : Type 0 where
  returned : ReplayOutput → Replayed
  broken : Error → Replayed
  out_of_fuel : Replayed

-- `map[string]bool`: a name that is not there is false.
abbrev pub or_false : Option Bool → Bool
or_false none = false
or_false (some b) = b

abbrev pub is_done : Map String Bool → String → Bool
is_done done step_name = or_false (lookup step_name done)

abbrev pub all_done : Map String Bool → List String → Bool
all_done done [] = true
all_done done (dep ∷ deps) = is_done done dep && all_done done deps

-- `s < t` on strings
abbrev pub text_lt : String → String → Bool
text_lt s t = elim (compare_text s t) [ Ordering.lt ↦ true | _ ↦ false ]

-- sort.Slice by name. The names of a workflow's steps are distinct, so there is one result.
unfoldable pub insert_by_name : ConfiguredStep → List ConfiguredStep → List ConfiguredStep
insert_by_name c [] = c ∷ []
insert_by_name c (d ∷ ds) =
    if text_lt (name d) (name c) then d ∷ insert_by_name c ds else c ∷ d ∷ ds

unfoldable pub sort_by_name : List ConfiguredStep → List ConfiguredStep
unfolding insert_by_name
sort_by_name [] = []
sort_by_name (c ∷ cs) = insert_by_name c (sort_by_name cs)

-- The test of the loop in `findReadySteps`
abbrev pub is_ready : History → Map String Bool → ConfiguredStep → Bool
is_ready history done c =
    not (is_done done (name c))
    && not (is_some (get_fatal_error history (name c)))
    && all_done done (dependencies c)

unfoldable pub filter_ready : History → Map String Bool → List ConfiguredStep → List ConfiguredStep
filter_ready history done [] = []
filter_ready history done (c ∷ cs) =
    let rest = filter_ready history done cs in if is_ready history done c then c ∷ rest else rest

-- `findReadySteps`
unfoldable pub find_ready_steps :
    History → Map String Bool → List ConfiguredStep → List ConfiguredStep
unfolding filter_ready sort_by_name
find_ready_steps history done cs = sort_by_name (filter_ready history done cs)

-- The map of the steps that the history has completed.
unfoldable pub completed_steps : History → List ConfiguredStep → Map String Bool
completed_steps history [] = []
completed_steps history (c ∷ cs) =
    let rest = completed_steps history cs in
    if has_completed history (name c) then insert (name c) true rest else rest

-- The first step with a fatal error in the history.
unfoldable pub first_fatal : History → List ConfiguredStep → Option (String × Error)
first_fatal history [] = none
first_fatal history (c ∷ cs) = elim (get_fatal_error history (name c)) [
  | some e ↦ some (name c, e)
  | none ↦ first_fatal history cs
]

abbrev pub step_failed_error : String → Error → Error
step_failed_error step_name e = wrap (concat "step " (concat (quote step_name) " failed")) e

-- The variables of the loop over the results.
pub record Progress : Type 0 where
  pub done : Map String Bool
  pub final_output : Value
  pub failure : Option (String × Error)
  pub is_waiting : Bool

-- `if failedResult == nil { failedResult = result }`
abbrev pub first_of_both : Option (String × Error) → String × Error → Option (String × Error)
first_of_both none f = some f
first_of_both (some e) f = some e

abbrev pub note_result : StepResult → Progress → Progress
note_result result p = elim result.err [
  | some e ↦
      if is_waiting e
      then record p { is_waiting = true }
      else record p { failure = first_of_both p.failure (result.step_name, e) }
  | none ↦ record p { done = insert result.step_name true p.done; final_output = result.output }
]

-- The results, if no goroutine ran out of fuel.
abbrev pub all_some : {A : Type 0} → List (Option A) → Option (List A)
all_some [] = some []
all_some (none ∷ os) = none
all_some (some a ∷ os) = elim (all_some os) [ none ↦ none | some l ↦ some (a ∷ l) ]

module _ (env : Env) where
  -- The events of a result, in their order.
  unfoldable pub emit_events : List Event → Replayer → Replayer
  unfolding emit_event
  emit_events [] r = r
  emit_events (e ∷ es) r = emit_events es (emit_event env e r)

  -- The loop over the results of a wave.
  unfoldable pub process_results : List StepResult → Progress → Replayer → Progress × Replayer
  unfolding emit_events
  process_results [] p r = (p, r)
  process_results (result ∷ results) p r =
      process_results results (note_result result p) (emit_events result.events r)

  -- `executeParallel`. A single step runs on the parent's context, several on that of an errgroup.
  unfoldable pub execute_parallel :
      ℕ → List ConfiguredStep → Replayer → Option (List StepResult) × Replayer
  unfolding run_all execute_step_with_events goroutine
  execute_parallel wave [] r = (some [], r)
  execute_parallel wave (c ∷ []) r =
      let (result, r') = run (execute_step_with_events env c.step) r in (all_some (result ∷ []), r')
  execute_parallel wave (c ∷ d ∷ cs) r =
      let threads = map (λ (x : ConfiguredStep). goroutine env x.step) (c ∷ d ∷ cs) in
      let (results, r') = run_all (env.schedule wave) threads (record r { group = none }) in
      (all_some results, record r' { group = none })

  abbrev pub output_of :
      ReplayResult → Value → Option Error → List WaitingSignal → Replayer → Replayed
  output_of result final_output error signals r = returned (record {
    result = result;
    final_output = final_output;
    error = error;
    waiting_for_signals = signals;
    new_events = r.new_events;
    next_sequence = r.next_sequence;
  })

  -- After the loop
  abbrev pub complete : Value → Replayer → Replayed × Replayer
  complete final_output r = elim (emit_workflow_completed env final_output r) [
    | Result.err e ↦ (broken (wrap "emit workflow.completed" e), r)
    | ok r' ↦ (output_of completed final_output none [] r', r')
  ]

  -- The loop over the waves. The fuel bounds the waves.
  unfoldable pub run_waves : ℕ → ℕ → Map String Bool → Value → Replayer → Replayed × Replayer
  unfolding find_ready_steps execute_parallel process_results emit_workflow_completed
  run_waves zero wave done final_output r = (out_of_fuel, r)
  run_waves (suc fuel) wave done final_output r₀ =
      let r = look env r₀ in
      let ready = find_ready_steps r.history done env.workflow.steps in
      let ran = execute_parallel wave ready r in
      elim (env.context_err r₀.looks) [
        | some e ↦ (output_of suspended no_value (some e) [] r, r)
        | none ↦ elim r.history.cancelled [
          | true ↦ (output_of failed no_value (some workflow_cancelled) [] r, r)
          | false ↦ elim ready [
            | [] ↦ complete final_output r
            | c ∷ cs ↦ elim ran.0 [
              | none ↦ (out_of_fuel, ran.1)
              | some results ↦
                  let processed =
                    process_results results
                      (record {
                        done = done;
                        final_output = final_output;
                        failure = none;
                        is_waiting = false;
                      })
                      ran.1 in
                  let p = processed.0 in
                  let r' = processed.1 in
                  elim p.is_waiting [
                    | true ↦ (output_of waiting no_value none r'.waiting_signals r', r')
                    | false ↦ elim p.failure [
                      | some f ↦
                          (output_of failed no_value (some (step_failed_error f.0 f.1)) [] r', r')
                      | none ↦ run_waves fuel (suc wave) p.done p.final_output r'
                    ]
                  ]
            ]
          ]
        ]
      ]

  -- `if r.history.GetWorkflowInput() == nil && len(r.newEvents) == 0`
  abbrev pub start : Replayer → Result Replayer
  start r =
      if is_set r.history.workflow_input
      then ok r
      else elim r.new_events [ [] ↦ emit_workflow_started env r | e ∷ es ↦ ok r ]

  -- `Replay`
  unfoldable pub replay : Replayer → Replayed × Replayer
  unfolding run_waves emit_workflow_started completed_steps first_fatal
  replay r = elim r.history.cancelled [
    | true ↦ (output_of failed no_value (some workflow_cancelled) [] r, r)
    | false ↦ elim r.history.completed [
      | true ↦ (output_of completed no_value none [] r, r)
      | false ↦ elim (start r) [
        | Result.err e ↦ (broken (wrap "emit workflow.started" e), r)
        | ok started ↦ elim (first_fatal started.history env.workflow.steps) [
          | some f ↦
              (output_of failed no_value (some (step_failed_error f.0 f.1)) [] started, started)
          | none ↦
              run_waves (suc (length env.workflow.steps)) 0
                (completed_steps started.history env.workflow.steps) no_value started
        ]
      ]
    ]
  ]

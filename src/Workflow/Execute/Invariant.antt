-- ===== src/Workflow/Execute/Invariant.antt =====
-- workflow/replay.go: what every access to the replayer keeps, the goroutine of a step keeps, whatever
-- the step's code is and however it is interleaved with others.
use skene.Prelude.{
  ℕ, zero, suc, ◌+◌, String, Option, none, some, List, [], ◌==◌, if_cases, Bool_cases, Option_cases,
}
use skene.Event.{Event}
use skene.Workflow.Errors.{Error, Result_cases, canceled, Result, is_waiting}
use skene.Workflow.History.{SignalState, get_branch_choice, get_signal_state}
use skene.Workflow.Step.{
  Value, Body, return, get_output, wait_for_signal as wait_for_signal_call, next_child, next_map,
  read_history, read_error, record_event, Record, AnyStep, plain, branch, inert, Cases, no_cases,
  case, Default, no_default, default, config_of,
}
use skene.Workflow.Thread.{Thread, ◌>>=◌}
use skene.Workflow.Thread.Keeps.{Keeps, Keeps-bind}
use skene.Workflow.Replayer.{
  Env, Replayer, emit_event, note_branch_choice, record_branch_evaluated, record_signal_waiting,
  add_waiting_signal, context_output, context_error, look,
}
use skene.Workflow.Records.{record_in_step, event_of, count_child, count_map}
use skene.Workflow.Signal.{wait_for_signal, wait_on, first_wait, perform}
use skene.Workflow.Branch.{Labels, decide_branch, execute, execute_case, execute_default, labels_of}
use skene.Workflow.Execute.{
  StepResult, attempts, execute_step_with_events, goroutine, cancel, cache, will_retry,
  attempt_limit,
}

module _ (env : Env) where
  -- `P` is kept by each access.
  pub record Closed (P : Replayer → Type 0) : Type 0 where
    pub emit : (e : Event) (r : Replayer) → P r → P (emit_event env e r)
    pub note :
        (name choice : String) (r : Replayer) → P r → P (note_branch_choice env name choice r)
    pub await : (name : String) (at : ℕ) (r : Replayer) → P r → P (add_waiting_signal env name at r)
    pub looked : (r : Replayer) → P r → P (look env r)
    pub cached : (key : String) (output : Value) (r : Replayer) → P r → P (cache key output r)
    pub child : (r : Replayer) → P r → P (count_child r)
    pub mapped : (r : Replayer) → P r → P (count_map r)
    pub grouped : (g : Option Error) (r : Replayer) → P r → P (record r { group = g })

  module _ (P : Replayer → Type 0) (closed : Closed P) where
    open closed use {emit, note, await, looked, cached, child, mapped, grouped}

    Keeps-first_wait : (name : String) (timeout : ℕ) → Keeps P (first_wait env name timeout)
    unfolding ◌>>=◌ record_signal_waiting
    Keeps-first_wait name timeout =
        λ r p. (p, λ r₁ p₁. (looked r₁ p₁, λ r₂ p₂. (emit _ r₂ p₂, λ r₃ p₃. (await _ _ r₃ p₃, tt))))

    Keeps-wait_on :
        (name : String) (timeout : ℕ) (o : Option SignalState)
        → Keeps P (wait_on env name timeout o)
    unfolding ◌>>=◌
    Keeps-wait_on name timeout none = Keeps-first_wait name timeout
    Keeps-wait_on name timeout (some state) = if_cases (Keeps P) state.received _ _ tt (
        if_cases (Keeps P) state.timeout _ _ tt (
          if_cases (Keeps P) state.waiting _ _ (λ r p. (await _ _ r p, tt))
            (Keeps-first_wait name timeout)))

    Keeps-wait_for_signal :
        (name : String) (timeout : ℕ) → Keeps P (wait_for_signal env name timeout)
    unfolding wait_for_signal ◌>>=◌
    Keeps-wait_for_signal name timeout =
        λ r p. (p, Keeps-wait_on name timeout (get_signal_state r.history name))

    record_keeps : (e : Record) (r : Replayer) → P r → P (record_in_step env e r)
    unfolding record_in_step
    record_keeps e r p = emit (event_of e) r p

    Keeps-perform : {A : Type 0} (b : Body A) → Keeps P (perform env b)
    unfolding perform
    Keeps-perform (return a) = tt
    Keeps-perform (next_child k) = λ r p. (child r p, Keeps-perform (k r.child_counter))
    Keeps-perform (next_map k) = λ r p. (mapped r p, Keeps-perform (k r.map_counter))
    Keeps-perform (read_history k) = λ r p. (p, Keeps-perform (k r.history))
    Keeps-perform (read_error k) = λ r p. (looked r p, Keeps-perform (k (context_error env r)))
    Keeps-perform (record_event e b) = λ r p. (record_keeps e r p, Keeps-perform b)
    Keeps-perform (get_output name k) = λ r p. (p, Keeps-perform (k (context_output env r name)))
    Keeps-perform (wait_for_signal_call name timeout k) =
        Keeps-bind P (wait_for_signal env name timeout) (λ result. perform env (k result))
          (Keeps-wait_for_signal name timeout) (λ result. Keeps-perform (k result))

    Keeps-record_branch_evaluated :
        (name choice : String) → Keeps P (record_branch_evaluated env name choice)
    unfolding record_branch_evaluated ◌>>=◌
    Keeps-record_branch_evaluated name choice = λ r p. (note _ _ r p, λ r₁ p₁. (emit _ r₁ p₁, tt))

    Keeps-decide_branch :
        (name : String) (selector : Body String) → Keeps P (decide_branch env name selector)
    unfolding decide_branch ◌>>=◌
    Keeps-decide_branch name selector = λ r p. (
      p,
      Option_cases (Keeps P) (get_branch_choice r.history name) _ _
          (λ _.
            Keeps-bind P _ _ (Keeps-perform selector)
              (λ choice. Keeps-bind P _ _ (Keeps-record_branch_evaluated name choice) (λ _. tt)))
          (λ choice _. tt),
    )

    mutual
      unfolding execute

      Keeps-execute : (s : AnyStep) (attempt : ℕ) → Keeps P (execute env s attempt)
      Keeps-execute (plain name fn config) attempt = Keeps-perform (fn attempt)
      Keeps-execute (branch name selector cases fallback) attempt =
          Keeps-bind P (decide_branch env name selector) _ (Keeps-decide_branch name selector)
            (λ choice.
              Keeps-execute_case name choice cases attempt _
                (Keeps-execute_default name choice fallback attempt))
      Keeps-execute (inert name) attempt = tt

      Keeps-execute_case :
          (name choice : String) (cases : Cases) (attempt : ℕ)
          (otherwise : Thread Replayer (Result Value))
          → Keeps P otherwise
          → Keeps P (execute_case env name choice cases attempt otherwise)
      Keeps-execute_case name choice no_cases attempt otherwise h = h
      Keeps-execute_case name choice (case value s rest) attempt otherwise h =
          Bool_cases (Keeps P) (value == choice) _ _
            (λ _. Keeps-bind P (execute env s attempt) _ (Keeps-execute s attempt) (λ result. tt))
            (λ _. Keeps-execute_case name choice rest attempt otherwise h)

      Keeps-execute_default :
          (name choice : String) (fallback : Default) (attempt : ℕ)
          → Keeps P (execute_default env name choice fallback attempt)
      Keeps-execute_default name choice no_default attempt = tt
      Keeps-execute_default name choice (default s) attempt =
          Keeps-bind P (execute env s attempt) _ (Keeps-execute s attempt) (λ result. tt)

    Keeps-labels_of : (s : AnyStep) → Keeps P (labels_of env s)
    unfolding labels_of
    Keeps-labels_of (branch name selector cases fallback) =
        Keeps-bind P _ _ (Keeps-decide_branch name selector) (λ choice. tt)
    Keeps-labels_of (plain name fn config) = tt
    Keeps-labels_of (inert name) = tt

    Keeps-attempts :
        (s : AnyStep) (l : Labels) (fuel attempt : ℕ) (events : List Event)
        → Keeps P (attempts env s l fuel attempt events)
    unfolding attempts ◌>>=◌
    Keeps-attempts s l zero attempt events = tt
    Keeps-attempts s l (suc fuel) attempt events = λ r p. (
      looked r p,
      Option_cases (Keeps P) (context_error env r) _ _
          (λ _. Keeps-bind P (execute env s attempt) _ (Keeps-execute s attempt) (λ result.
            Result_cases (Keeps P) result _ _ (λ output _ r₁ p₁. (cached _ _ r₁ p₁, tt))
              (λ e _.
                Bool_cases (Keeps P) (is_waiting e) _ _ (λ _. tt)
                  (λ _.
                    Bool_cases (Keeps P) (will_retry (config_of s).retry_policy attempt) _ _
                      (λ _ r₂ p₂. (
                        looked r₂ p₂,
                        Option_cases (Keeps P) (context_error env r₂) _ _
                            (λ _. Keeps-attempts s l fuel (attempt + 1) _) (λ c _. tt),
                      ))
                      (λ _. tt)))))
          (λ e _. tt),
    )

    pub Keeps-execute_step_with_events : (s : AnyStep) → Keeps P (execute_step_with_events env s)
    unfolding execute_step_with_events ◌>>=◌
    Keeps-execute_step_with_events s = λ r p. (
      looked r p,
      Option_cases (Keeps P) (context_error env r) _ _
          (λ _.
            Keeps-bind P (labels_of env s) _ (Keeps-labels_of s)
              (λ l. Keeps-attempts s l (attempt_limit (config_of s).retry_policy) 1 []))
          (λ e _. tt),
    )

    cancel_closed : (o : Option StepResult) (r : Replayer) → P r → P (cancel o r)
    cancel_closed none r p = p
    cancel_closed (some result) r p = go result.err r.group
      where
        go :
            (e : Option Error) (g : Option Error)
            → P (elim e [
              | none ↦ r
              | some _ ↦ elim g [ none ↦ record r { group = some canceled } | some _ ↦ r ]
            ])
        go none g = p
        go (some e) none = grouped (some canceled) r p
        go (some e) (some c) = p

    pub Keeps-goroutine : (s : AnyStep) → Keeps P (goroutine env s)
    unfolding goroutine ◌>>=◌
    Keeps-goroutine s =
        Keeps-bind P (execute_step_with_events env s) _ (Keeps-execute_step_with_events s)
          (λ result r p. (cancel_closed result r p, tt))

-- ===== src/Workflow/Execute/Retries.antt =====
-- workflow/replay.go, `executeStepWithEvents`: the attempts that a step makes and the events that it
-- writes for them.
use skene.Prelude.{
  String, ◌⊎◌, inl, inr, ℕ, zero, suc, ◌+◌, ◌≤◌, ◌<◌, Bool, true, false, ◌≡◌, refl, sym, subst, ◌∙◌,
  Option, none, some, List, [], ◌∷◌, ◌++◌, append_assoc, append-nil, arith, pos, negsuc, pos_part,
  ltz, Bool_cases, Option_cases,
}
use skene.Event.{Event}
use skene.Retry.{Policy}
use skene.Workflow.Errors.{Error, Result, Result_cases, is_waiting}
use skene.Workflow.Step.{
  Value, no_value, AnyStep, name_of, config_of, plain, branch, inert, Body, StepConfig, Cases,
  Default, chosen, case_step_name,
}
use skene.Workflow.Thread.{done, ◌>>=◌}
use skene.Workflow.Thread.Yields.{Yields, Yields-map, Yields-bind, Yields-bind_of}
use skene.Workflow.Replayer.{Env, context_error}
use skene.Workflow.Branch.{Labels, execute, labels_of, or_name, decide_branch}
use skene.Workflow.Execute.{
  StepResult, started_event, completed_event, failed_event, will_retry, attempt_limit, finished,
  attempts, execute_step_with_events, goroutine, check,
}

-- The events of a step from an attempt on, and the error that the step ends with.
pub data Attempts (p : Option Policy) (l : Labels)
    : ℕ → List Event → Value → Option Error → Type 0 where
  -- The context had ended before the attempt.
  cancelled : (n : ℕ) (e : Error) → Attempts p l n [] no_value (some e)
  succeeded :
      (n : ℕ) (output : Value)
      → Attempts p l n (started_event l n ∷ completed_event l output ∷ []) output none
  -- The step waits for a signal: no failure is written, and no attempt follows.
  waits :
      (n : ℕ) (e : Error)
      → is_waiting e ≡ true
      → Attempts p l n (started_event l n ∷ []) no_value (some e)
  exhausted :
      (n : ℕ) (e : Error)
      → is_waiting e ≡ false
      → will_retry p n ≡ false
      → Attempts p l n (started_event l n ∷ failed_event l n e false ∷ []) no_value (some e)
  -- The context ended in the wait before the next attempt.
  interrupted :
      (n : ℕ) (e c : Error)
      → is_waiting e ≡ false
      → will_retry p n ≡ true
      → Attempts p l n (started_event l n ∷ failed_event l n e true ∷ []) no_value (some c)
  retried :
      {es : List Event} {v : Value} {c : Option Error} (n : ℕ) (e : Error)
      → is_waiting e ≡ false
      → will_retry p n ≡ true
      → Attempts p l (n + 1) es v c
      → Attempts p l n (started_event l n ∷ failed_event l n e true ∷ es) v c

-- The result of a step that had written `before` by attempt `n`.
pub record Goes (s : AnyStep) (l : Labels) (n : ℕ) (before : List Event) (o : Option StepResult)
    : Type 0 where
  pub result : StepResult
  pub is_there : o ≡ some result
  pub named : result.step_name ≡ name_of s
  pub later : List Event
  pub wrote : result.events ≡ before ++ later
  pub log : Attempts (config_of s).retry_policy l n later result.output result.err

will_retry-lt-limit : (p : Option Policy) (n : ℕ) → will_retry p n ≡ true → n + 1 < attempt_limit p
will_retry-lt-limit none n h = cc
will_retry-lt-limit (some policy) n h = go policy.max_attempts h
  where
    go : (m : _) → ltz (pos n) m ≡ true → n + 1 < suc (pos_part m)
    go (pos m) h = ground arith
    go (negsuc m) h = cc

append_two :
    {A : Type 0} (xs : List A) (a b : A) (ys : List A)
    → ((xs ++ a ∷ []) ++ b ∷ []) ++ ys ≡ xs ++ a ∷ b ∷ ys
append_two xs a b ys = append_assoc (xs ++ a ∷ []) (b ∷ []) ys ∙ append_assoc xs (a ∷ []) (b ∷ ys)

module _ (s : AnyStep) (l : Labels) (n : ℕ) (before : List Event) where
  -- A result that adds one or two events to those before, or none.
  ends_here :
      (output : Value) (e : Option Error) (later : List Event)
      → Attempts (config_of s).retry_policy l n later output e
      → Goes s l n before (some (finished s output e (before ++ later)))
  ends_here output e later log = record {
    result = _;
    is_there = refl;
    named = refl;
    later = later;
    wrote = refl;
    log = log;
  }

  nothing_more : (e : Error) → Goes s l n before (some (finished s no_value (some e) before))
  nothing_more e =
      subst (λ es. Goes s l n before (some (finished s no_value (some e) es))) (append-nil before)
        (ends_here no_value (some e) [] (cancelled n e))

  ends_after :
      (output : Value) (e : Option Error) (a b : Event)
      → Attempts (config_of s).retry_policy l n (a ∷ b ∷ []) output e
      → Goes s l n before (some (finished s output e ((before ++ a ∷ []) ++ b ∷ [])))
  ends_after output e a b log =
      subst (λ es. Goes s l n before (some (finished s output e es)))
        (sym (append_assoc before (a ∷ []) (b ∷ []))) (ends_here output e (a ∷ b ∷ []) log)

  another_attempt :
      (e : Error) (o : Option StepResult)
      → is_waiting e ≡ false
      → will_retry (config_of s).retry_policy n ≡ true
      → Goes s l (n + 1) ((before ++ started_event l n ∷ []) ++ failed_event l n e true ∷ []) o
      → Goes s l n before o
  another_attempt e o h k g = record {
    result = g.result;
    is_there = g.is_there;
    named = g.named;
    later = started_event l n ∷ failed_event l n e true ∷ g.later;
    wrote = g.wrote ∙ append_two before (started_event l n) (failed_event l n e true) g.later;
    log = retried n e h k g.log;
  }

module _ (env : Env) (s : AnyStep) (l : Labels) where
  abbrev policy : Option Policy
  policy = (config_of s).retry_policy

  attempts-Goes :
      (fuel n : ℕ) (before : List Event)
      → attempt_limit policy < n + fuel
      → n ≤ attempt_limit policy
      → Yields (Goes s l n before) (attempts env s l fuel n before)
  unfolding attempts ◌>>=◌
  attempts-Goes zero n before h k = absurd (omega arith)
  attempts-Goes (suc fuel) n before h k = λ r.
      Option_cases (Yields (Goes s l n before)) (context_error env r) _ _
        (λ _. Yields-bind (Goes s l n before) (execute env s n) _ (λ result.
          Result_cases (Yields (Goes s l n before)) result _ _
            (λ output _ r₁. ends_after s l n before output none _ _ (succeeded n output))
            (λ e _.
              Bool_cases (Yields (Goes s l n before)) (is_waiting e) _ _
                (λ w. ends_here s l n before no_value (some e) _ (waits n e w))
                (λ w. after_failure e (will_retry policy n) _ w refl refl (λ bound.
                  attempts-Goes fuel (n + 1) (failed e true) (omega arith) (omega arith))))))
        (λ e _. nothing_more s l n before e)
    where
      failed : Error → Bool → List Event
      failed e again = (before ++ started_event l n ∷ []) ++ failed_event l n e again ∷ []

      after_failure :
          (e : Error) (again sent : Bool)
          → is_waiting e ≡ false
          → will_retry policy n ≡ again
          → sent ≡ again
          → (n + 1 < attempt_limit policy
              → Yields
                  (Goes s l (n + 1) (failed e true))
                  (attempts env s l fuel (n + 1) (failed e true)))
          → Yields (Goes s l n before) (elim again [
            | false ↦ done (some (finished s no_value (some e) (failed e sent)))
            | true ↦ check env >>= λ stop. elim stop [
              | some c ↦ done (some (finished s no_value (some c) (failed e sent)))
              | none ↦ attempts env s l fuel (n + 1) (failed e sent)
            ]
          ])
      after_failure e false true w no_retry same next = cc
      after_failure e true false w retry same next = cc
      after_failure e false false w no_retry same next =
          ends_after s l n before no_value (some e) _ _ (exhausted n e w no_retry)
      after_failure e true true w retry same next = λ r.
          Option_cases (Yields (Goes s l n before)) (context_error env r) _ _
            (λ _.
              Yields-map (Goes s l (n + 1) (failed e true)) (Goes s l n before)
                (attempts env s l fuel (n + 1) (failed e true))
                (λ o. another_attempt s l n before e o w retry)
                (next (will_retry-lt-limit policy n retry)))
            (λ c _. ends_after s l n before no_value (some c) _ _ (interrupted n e c w retry))

-- The labels of a step's events: its name; or for a branch the name of the step of its case, the branch
-- and the case that was chosen.
pub data LabelsOf : AnyStep → Labels → Type 0 where
  of_plain :
      (step_name : String) (fn : ℕ → Body (Result Value)) (config : StepConfig)
      → LabelsOf
          (plain step_name fn config)
          (record { event_step_name = step_name; branch_name = ""; case_value = "" })
  of_branch :
      (name : String) (selector : Body String) (cases : Cases) (fallback : Default)
      (choice : String)
      → LabelsOf (branch name selector cases fallback) (record {
        event_step_name = or_name name (case_step_name (chosen choice cases fallback));
        branch_name = name;
        case_value = choice;
      })
  of_inert :
      (step_name : String)
      → LabelsOf
          (inert step_name)
          (record { event_step_name = step_name; branch_name = ""; case_value = "" })

labels_of-LabelsOf : (env : Env) (s : AnyStep) → Yields (LabelsOf s) (labels_of env s)
unfolding labels_of
labels_of-LabelsOf env (plain step_name fn config) = of_plain step_name fn config
labels_of-LabelsOf env (branch name selector cases fallback) =
    Yields-bind (LabelsOf (branch name selector cases fallback)) (decide_branch env name selector) _
      (λ choice. of_branch name selector cases fallback choice)
labels_of-LabelsOf env (inert step_name) = of_inert step_name

-- What a step's execution comes to: a result, whose events are the log of its attempts from the first.
abbrev pub Logged : AnyStep → Option StepResult → Type 0
Logged s o = (l : Labels) × (g : Goes s l 1 [] o) × (LabelsOf s l ⊎ (g.later ≡ []))

attempt_limit-pos : (p : Option Policy) → 1 ≤ attempt_limit p
attempt_limit-pos none = omega arith
attempt_limit-pos (some policy) = omega arith

pub execute_step_with_events-Logged :
    (env : Env) (s : AnyStep) → Yields (Logged s) (execute_step_with_events env s)
unfolding execute_step_with_events ◌>>=◌ ends_here
execute_step_with_events-Logged env s = λ r.
    Option_cases (Yields (Logged s)) (context_error env r) _ _
      (λ _.
        Yields-bind_of (Logged s) (LabelsOf s) (labels_of env s) _ (labels_of-LabelsOf env s)
          (λ l h.
            Yields-map (Goes s l 1 []) (Logged s) (attempts env s l limit 1 [])
              (λ o g. (l, g, inl h))
              (attempts-Goes env s l limit 1 [] (omega arith) (attempt_limit-pos policy_of))))
      (λ e _.
        (unlabelled, ends_here s unlabelled 1 [] no_value (some e) [] (cancelled 1 e), inr refl))
  where
    policy_of : Option Policy
    policy_of = (config_of s).retry_policy

    limit : ℕ
    limit = attempt_limit policy_of

    unlabelled : Labels
    unlabelled = record { event_step_name = ""; branch_name = ""; case_value = "" }

pub goroutine-Logged : (env : Env) (s : AnyStep) → Yields (Logged s) (goroutine env s)
unfolding goroutine ◌>>=◌
goroutine-Logged env s =
    Yields-bind_of (Logged s) (Logged s) (execute_step_with_events env s) _
      (execute_step_with_events-Logged env s) (λ o h r. h)

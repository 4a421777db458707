-- ===== src/Workflow/Execute/Story.antt =====
-- workflow/replay.go, `executeStepWithEvents`: what its events tell a reader of the attempts of a step.
use skene.Prelude.{ℕ, ◌+◌, ◌<◌, ◌≡◌, Bool, true, false, Option, none, some, List, [], ◌∷◌, pos}
use skene.Event.{Event, step_started, step_completed, step_failed}
use skene.Event.Json.{RawMessage, null, nil, doc, unmarshal}
use skene.Event.Data.{
  StepStartedData, StepFailedData, step_started_codec, step_completed_codec, step_failed_codec,
}
use skene.Retry.{Policy}
use skene.Workflow.Errors.{Error, error_text, is_waiting}
use skene.Workflow.Step.{Value, no_value, opaque_value, json_value}
use skene.Workflow.Replayer.{Replayer}
use skene.Workflow.Branch.{Labels}
use skene.Workflow.Execute.{will_retry}

-- The policy allows an attempt after the n-th.
abbrev pub Allows : Option Policy → ℕ → Type 0
Allows none n = ⊥
Allows (some policy) n = (m : ℕ) × (policy.max_attempts ≡ pos m) × (n < m)

-- The event tells of a start: its payload reads as the number of the attempt, the branch and the case.
pub record TellsStart (l : Labels) (n : ℕ) (e : Event) : Type 0 where
  pub type : e.type ≡ step_started
  pub step_name : e.step_name ≡ l.event_step_name
  pub body :
      unmarshal {A = StepStartedData} e.payload
      ≡ some (record { attempt = n; branch_name = l.branch_name; case_value = l.case_value })

-- The JSON of an output: nil stands for one that cannot be marshalled.
abbrev pub OutputOf : Value → RawMessage → Type 0
OutputOf no_value raw = raw ≡ doc null
OutputOf opaque_value raw = raw ≡ nil
OutputOf (json_value j) raw = raw ≡ doc j

pub record TellsCompletion (l : Labels) (v : Value) (e : Event) : Type 0 where
  pub type : e.type ≡ step_completed
  pub step_name : e.step_name ≡ l.event_step_name
  pub output : OutputOf v e.output

-- The event tells of a failure: its payload reads as the error, the attempt, and whether it is retried.
pub record TellsFailure (l : Labels) (n : ℕ) (x : Error) (again : Bool) (e : Event) : Type 0 where
  pub type : e.type ≡ step_failed
  pub step_name : e.step_name ≡ l.event_step_name
  pub body :
      unmarshal {A = StepFailedData} e.payload
      ≡ some (record {
        error = error_text x;
        attempt = n;
        will_retry = again;
        branch_name = l.branch_name;
        case_value = l.case_value;
      })

-- The events of a step from the n-th attempt on, with the output and the error that the step ends with.
pub data Story (p : Option Policy) (l : Labels)
    : ℕ → List Event → Value → Option Error → Type 0 where
  -- The context had ended before the attempt.
  ended : (n : ℕ) (x : Error) → Story p l n [] no_value (some x)
  done_well :
      (n : ℕ) (v : Value) (a b : Event)
      → TellsStart l n a
      → TellsCompletion l v b
      → Story p l n (a ∷ b ∷ []) v none
  -- The step waits for a signal.
  awaits :
      (n : ℕ) (x : Error) (a : Event)
      → TellsStart l n a
      → is_waiting x ≡ true
      → Story p l n (a ∷ []) no_value (some x)
  -- The step has failed for good.
  gives_up :
      (n : ℕ) (x : Error) (a b : Event)
      → TellsStart l n a
      → TellsFailure l n x false b
      → is_waiting x ≡ false
      → ¬ Allows p n
      → Story p l n (a ∷ b ∷ []) no_value (some x)
  -- The context ended before the retry that was told of.
  broken_off :
      (n : ℕ) (x y : Error) (a b : Event)
      → TellsStart l n a
      → TellsFailure l n x true b
      → is_waiting x ≡ false
      → Allows p n
      → Story p l n (a ∷ b ∷ []) no_value (some y)
  tries_again :
      {es : List Event} {v : Value} {o : Option Error} (n : ℕ) (x : Error) (a b : Event)
      → TellsStart l n a
      → TellsFailure l n x true b
      → is_waiting x ≡ false
      → Allows p n
      → Story p l (n + 1) es v o
      → Story p l n (a ∷ b ∷ es) v o

-- ===== src/Workflow/Execute/Bounds.antt =====
-- workflow/replay.go, `executeStepWithEvents`: how often a step's code is tried.
use Prim.Native.Nat.{max}
use skene.Prelude.{
  ℤ, ℕ, suc, ◌+◌, ◌≤◌, Bool, true, false, ◌≡◌, sym, subst, Option, none, some, List, [], ◌∷◌, arith,
  pos, negsuc, pos_part, ltz, if◌then◌else◌,
}
use skene.Event.{Event, EventType, step_started}
use skene.Retry.{Policy}
use skene.Workflow.Errors.{Error}
use skene.Workflow.Step.{Value, AnyStep, name_of, config_of}
use skene.Workflow.Thread.{run}
use skene.Workflow.Thread.Yields.{Yields-run}
use skene.Workflow.Replayer.{Env, Replayer}
use skene.Workflow.Branch.{Labels}
use skene.Workflow.Execute.{StepResult, will_retry, execute_step_with_events}
use skene.Workflow.Execute.Retries.{
  Attempts, cancelled, succeeded, waits, exhausted, interrupted, retried, Logged,
  execute_step_with_events-Logged,
}

abbrev pub is_start : EventType → Bool
is_start step_started = true
is_start _ = false

-- The attempts among the events of a step.
abbrev pub starts : List Event → ℕ
starts [] = 0
starts (e ∷ es) = if is_start e.type then suc (starts es) else starts es

-- The attempts that a policy allows: one, if it is none.
abbrev pub allowed : Option Policy → ℕ
allowed none = 1
allowed (some policy) = max 1 (pos_part policy.max_attempts)

will_retry-le-allowed : (p : Option Policy) (n : ℕ) → will_retry p n ≡ true → n + 1 ≤ allowed p
will_retry-le-allowed none n h = cc
will_retry-le-allowed (some policy) n h = go policy.max_attempts h
  where
    go : (m : ℤ) → ltz (pos n) m ≡ true → n + 1 ≤ max 1 (pos_part m)
    go (pos m) h = ground arith
    go (negsuc m) h = cc

allowed-pos : (p : Option Policy) → 1 ≤ allowed p
allowed-pos none = omega arith
allowed-pos (some policy) = omega arith

Attempts-starts :
    (p : Option Policy) (l : Labels) (n : ℕ) (es : List Event) (v : Value) (e : Option Error)
    → Attempts p l n es v e
    → n ≤ allowed p
    → n + starts es ≤ allowed p + 1
Attempts-starts p l n _ _ _ (cancelled _ e) h = omega arith
Attempts-starts p l n _ _ _ (succeeded _ output) h = omega arith
Attempts-starts p l n _ _ _ (waits _ e w) h = omega arith
Attempts-starts p l n _ _ _ (exhausted _ e w k) h = omega arith
Attempts-starts p l n _ _ _ (interrupted _ e c w k) h = omega arith
Attempts-starts p l n _ _ _ (retried {es = es} {v = v} {c = c} _ e w k rest) h =
    let bound = will_retry-le-allowed p n k in
    let later = Attempts-starts p l (n + 1) es v c rest (omega arith) in omega arith

-- The execution of a step returns, under that step's name, and has tried its code at most as often as
-- its policy allows, once with no policy or with a limit below one, whatever the code does and whenever the context ends.
pub execute_step_with_events_tries :
    (env : Env) (s : AnyStep) (r : Replayer)
    → (result : StepResult) × ((run (execute_step_with_events env s) r).0 ≡ some result)
      × (result.step_name ≡ name_of s)
      × (starts result.events ≤ allowed (config_of s).retry_policy)
execute_step_with_events_tries env s r =
    let (l, g, _) =
      Yields-run (Logged s) (execute_step_with_events env s) r
        (execute_step_with_events-Logged env s) in
    let bound = Attempts-starts _ l 1 g.later g.result.output g.result.err g.log (allowed-pos _) in
    (
      g.result,
      g.is_there,
      g.named,
      subst (λ es. starts es ≤ allowed (config_of s).retry_policy) (sym g.wrote) (omega arith),
    )

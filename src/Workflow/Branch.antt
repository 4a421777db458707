-- ===== src/Workflow/Branch.antt =====
-- workflow/branch.go: the choice of a branch and the execution of its case; and the part of
-- `executeStepWithEvents` in workflow/replay.go that makes the choice before the first attempt.
use Prim.Native.String.{◌++◌ as concat}
use skene.Prelude.{ℕ, String, true, false, none, some, if◌then◌else◌, ◌==◌}
use skene.Workflow.Errors.{new, wrap, Result, ok, quote}
use skene.Workflow.History.{get_branch_choice}
use skene.Workflow.Step.{
  Value, no_value, Body, AnyStep, plain, branch, inert, Cases, no_cases, case, Default, no_default,
  default, name_of, chosen, case_step_name,
}
use skene.Workflow.Thread.{Thread, done, ◌>>=◌, ◌>>◌, get}
use skene.Workflow.Replayer.{Env, Replayer, record_branch_evaluated}
use skene.Workflow.Signal.{perform}

abbrev pub case_text : String → String → String
case_text branch_name choice =
    concat "branch " (concat (quote branch_name) (concat " case " (quote choice)))

-- What `Branch.Execute` returns for the step of the case: a step that cannot be executed is an
-- error, and an error of the step is wrapped.
abbrev pub in_case : String → String → AnyStep → Result Value → Result Value
in_case branch_name choice (inert step_name) result = Result.err (
    new (
      concat (case_text branch_name choice)
        (concat ": step " (concat (quote step_name) " is not executable"))))
in_case branch_name choice s (ok output) = ok output
in_case branch_name choice s (Result.err e) = Result.err (wrap (case_text branch_name choice) e)

-- The step name, the branch and the case under which a step's events are written.
pub record Labels : Type 0 where
  pub event_step_name : String
  pub branch_name : String
  pub case_value : String

abbrev pub or_name : String → String → String
or_name branch_name case_name = if case_name == "" then branch_name else case_name

module _ (env : Env) where
  -- `choice, recorded := getBranchChoice(name); if !recorded { … }`
  unfoldable pub decide_branch : String → Body String → Thread Replayer String
  unfolding perform
  decide_branch branch_name selector = do
    r ← get
    elim (get_branch_choice r.history branch_name) [
      | some choice ↦ done choice
      | none ↦ do
        choice ← perform env selector
        record_branch_evaluated env branch_name choice
        done choice
    ]

  -- `Execute` of a `Step[T]` and of a `Branch`, which executes the step that stands under the choice,
  -- or the default. What is inert is only ever the step of a case, and is not executed.
  unfoldable mutual
    unfolding decide_branch

    pub execute : AnyStep → ℕ → Thread Replayer (Result Value)
    execute (plain step_name fn config) attempt = perform env (fn attempt)
    execute (branch branch_name selector cases fallback) attempt = do
      choice ← decide_branch branch_name selector
      execute_case branch_name choice cases attempt
          (execute_default branch_name choice fallback attempt)
    execute (inert step_name) attempt = done (ok no_value)

    pub execute_case :
        String
        → String
        → Cases
        → ℕ
        → Thread Replayer (Result Value)
        → Thread Replayer (Result Value)
    execute_case branch_name choice no_cases attempt otherwise = otherwise
    execute_case branch_name choice (case value s rest) attempt otherwise = elim (value == choice) [
      | true ↦ execute s attempt >>= λ result. done (in_case branch_name choice s result)
      | false ↦ execute_case branch_name choice rest attempt otherwise
    ]

    pub execute_default : String → String → Default → ℕ → Thread Replayer (Result Value)
    execute_default branch_name choice no_default attempt = done (
        Result.err (
          new (
            concat "branch " (
              concat (quote branch_name)
                (concat ": no case for " (concat (quote choice) " and no default"))))))
    execute_default branch_name choice (default s) attempt =
        execute s attempt >>= λ result. done (in_case branch_name choice s result)

  -- The labels: a branch's choice is made, and recorded, before its first attempt.
  unfoldable pub labels_of : AnyStep → Thread Replayer Labels
  unfolding decide_branch chosen
  labels_of (branch branch_name selector cases fallback) = do
    choice ← decide_branch branch_name selector
    done (record {
      event_step_name = or_name branch_name (case_step_name (chosen choice cases fallback));
      branch_name = branch_name;
      case_value = choice;
    })
  labels_of s = done (record { event_step_name = name_of s; branch_name = ""; case_value = "" })

-- ===== src/Workflow/Step.antt =====
-- workflow/step.go, workflow/branch.go: steps, their configuration and their dependencies. The code
-- of a step is a parameter of the workflow: all that matters of it is what it asks of its context and
-- what it returns.
use skene.Prelude.{ℕ, String, Option, none, some, List, [], ◌∷◌, map, ℤ, pos, if◌then◌else◌, ◌==◌}
use skene.Event.Json.{Json, RawMessage, null, doc}
use skene.Retry.{Policy}
use skene.Workflow.History.{History}
use skene.Workflow.Errors.{Error, Result}

-- A value of type `any`: nil, one that json.Marshal refuses, or one with a JSON text.
pub data Value : Type 0 where
  no_value : Value
  opaque_value : Value
  json_value : Json → Value

-- json.Marshal of an `any`
abbrev pub marshal_any : Value → Option RawMessage
marshal_any no_value = some (doc null)
marshal_any opaque_value = none
marshal_any (json_value j) = some (doc j)

-- The events that `Run` and `Map` record in a step.
pub data Record : Type 0 where
  child_spawned : (child_run_id workflow_name : String) → RawMessage → Record
  child_completed : (child_run_id : String) → RawMessage → Record
  child_failed : (child_run_id : String) → Option Error → Record
  map_started : (map_index item_count : ℕ) → Record
  map_completed : (map_index : ℕ) → RawMessage → Record
  map_failed : (map_index failed_index : ℕ) → Error → Record

-- User code that is given a workflow context, and returns: it reads outputs, waits for signals (with a
-- time-out in nanoseconds), and calls `Run` and `Map`, which take an index from a counter of the replayer,
-- read its history, look at the context, and record events. A call of `Map` is the sequence of what its
-- goroutines do. Code that panics, which ends the process, or that does not return has no body.
pub data Body (A : Type 0) : Type 0 where
  return : A → Body A
  next_child : (ℕ → Body A) → Body A
  next_map : (ℕ → Body A) → Body A
  read_history : (History → Body A) → Body A
  read_error : (Option Error → Body A) → Body A
  record_event : Record → Body A → Body A
  get_output : String → (Option RawMessage → Body A) → Body A
  wait_for_signal : String → ℕ → (Result RawMessage → Body A) → Body A

-- `StepConfig`. A time-out changes only what the step's code may return.
pub record StepConfig : Type 0 where
  pub retry_policy : Option Policy
  pub timeout : ℤ
  pub compensation : Option (Body (Option Error))

abbrev pub zero_config : StepConfig
zero_config = record { retry_policy = none; timeout = pos 0; compensation = none }

-- What stands behind `AnyStep`: a `Step[T]` with the code of each of its attempts, a `Branch`, or a
-- type that has a name and no `Execute`.
mutual
  pub data AnyStep : Type 0 where
    plain : String → (ℕ → Body (Result Value)) → StepConfig → AnyStep
    branch : String → Body String → Cases → Default → AnyStep
    inert : String → AnyStep

  -- The map `cases`, a key once.
  pub data Cases : Type 0 where
    no_cases : Cases
    case : String → AnyStep → Cases → Cases

  pub data Default : Type 0 where
    no_default : Default
    default : AnyStep → Default

abbrev pub name_of : AnyStep → String
name_of (plain name fn config) = name
name_of (branch name selector cases fallback) = name
name_of (inert name) = name

-- `Config()`: that of a branch is empty.
abbrev pub config_of : AnyStep → StepConfig
config_of (plain name fn config) = config
config_of _ = zero_config

-- `NewStep`, `WithRetry`, `WithTimeout`, `WithCompensation`: a step is a value, so each returns a new
-- one. On what is no `Step[T]` there are no such methods.
abbrev pub new_step : String → (ℕ → Body (Result Value)) → AnyStep
new_step name fn = plain name fn zero_config

abbrev pub with_retry : Policy → AnyStep → AnyStep
with_retry policy (plain name fn config) =
    plain name fn (record config { retry_policy = some policy })
with_retry policy s = s

abbrev pub with_timeout : ℤ → AnyStep → AnyStep
with_timeout timeout (plain name fn config) = plain name fn (record config { timeout = timeout })
with_timeout timeout s = s

abbrev pub with_compensation : Body (Option Error) → AnyStep → AnyStep
with_compensation fn (plain name f config) = plain name f (record config { compensation = some fn })
with_compensation fn s = s

-- `NewBranch`, `Case` and `Default`
abbrev pub new_branch : String → Body String → AnyStep
new_branch name selector = branch name selector no_cases no_default

abbrev pub set_case : String → AnyStep → Cases → Cases
set_case value s no_cases = case value s no_cases
set_case value s (case v t rest) =
    if v == value then case v s rest else case v t (set_case value s rest)

abbrev pub add_case : String → AnyStep → AnyStep → AnyStep
add_case value s (branch name selector cases fallback) =
    branch name selector (set_case value s cases) fallback
add_case value s other = other

abbrev pub set_default : AnyStep → AnyStep → AnyStep
set_default s (branch name selector cases fallback) = branch name selector cases (default s)
set_default s other = other

-- `step := b.cases[choice]; if step == nil { step = b.defaultStep }`
unfoldable pub chosen : String → Cases → Default → Option AnyStep
chosen choice no_cases no_default = none
chosen choice no_cases (default s) = some s
chosen choice (case value s rest) fallback =
    if value == choice then some s else chosen choice rest fallback

-- `GetCaseStepName`
abbrev pub case_step_name : Option AnyStep → String
case_step_name none = ""
case_step_name (some s) = name_of s

-- `ConfiguredStep`
pub record ConfiguredStep : Type 0 where
  pub step : AnyStep
  pub deps : List AnyStep

abbrev pub after : AnyStep → List AnyStep → ConfiguredStep
after s deps = record { step = s; deps = deps }

abbrev pub name : ConfiguredStep → String
name c = name_of c.step

abbrev pub dependencies : ConfiguredStep → List String
dependencies c = map name_of c.deps

-- `WorkflowDef`. The steps stand in their topological order; a step that is looked up by its name is
-- found there, since `stepMap` holds the same steps.
pub record WorkflowDef : Type 0 where
  pub name : String
  pub version : String
  pub steps : List ConfiguredStep

abbrev pub with_version : String → WorkflowDef → WorkflowDef
with_version version w = record w { version = version }

unfoldable pub get_step : String → List ConfiguredStep → Option ConfiguredStep
get_step step_name [] = none
get_step step_name (c ∷ cs) = if name c == step_name then some c else get_step step_name cs

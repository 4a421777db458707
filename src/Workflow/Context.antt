-- ===== src/Workflow/Context.antt =====
-- workflow/context.go, workflow/define.go, workflow/replay.go, workflow/step.go, workflow/branch.go: the
-- contexts that user code is given, and what it reads of them. A context is an interface, and a
-- function that looks for a method of it tells its implementations apart, so a context is one of the
-- implementations. A function with a type parameter is given json.Unmarshal into that type.
pub mod Reads
use Prim.Native.String.{◌++◌}
use skene.Prelude.{
  String, Bool, true, false, Option, none, some, Map, [], lookup, insert, string_key, ℤ, negsuc,
  if◌then◌else◌, ◌==◌,
}
use skene.Event.Json.{RawMessage, nil}
use skene.Workflow.Errors.{Error, new, wrap, error_text, quote, Result, ok, err}
use skene.Workflow.History.{History, get_output, get_branch_choice}
use skene.Workflow.Step.{
  Value, no_value, opaque_value, json_value, marshal_any, Cases, Default, chosen, name_of, AnyStep,
}
use skene.Workflow.Replayer.{Env, Replayer, context_output}

-- `workflowContext`
pub record WorkflowContext : Type 0 where
  pub run_id : String
  pub workflow_name : String
  pub input : RawMessage
  pub history : Option History
  pub outputs : Map String Value

-- `newWorkflowContext`
abbrev pub new_workflow_context : String → String → RawMessage → Option History → WorkflowContext
new_workflow_context run_id workflow_name input history = record {
  run_id = run_id;
  workflow_name = workflow_name;
  input = input;
  history = history;
  outputs = [];
}

-- `setOutput`
abbrev pub set_output : String → Value → WorkflowContext → WorkflowContext
set_output step_name output c = record c { outputs = insert step_name output c.outputs }

-- `childContext`
pub record ChildContext : Type 0 where
  pub base : WorkflowContext
  pub parent_run_id : String
  pub child_index : ℤ
  pub is_map_child : Bool

-- `newChildContext`
abbrev pub new_child_context : String → String → RawMessage → Option History → String → ChildContext
new_child_context run_id workflow_name input history parent_run_id = record {
  base = new_workflow_context run_id workflow_name input history;
  parent_run_id = parent_run_id;
  child_index = negsuc 0;
  is_map_child = false;
}

-- `newMapChildContext`
abbrev pub new_map_child_context :
    String → String → RawMessage → Option History → String → ℤ → ChildContext
new_map_child_context run_id workflow_name input history parent_run_id child_index = record {
  base = new_workflow_context run_id workflow_name input history;
  parent_run_id = parent_run_id;
  child_index = child_index;
  is_map_child = true;
}

-- `executionContext`, which the replayer gives to a step inside a `workflowContextAdapter`. Its history and
-- its cache are the replayer's.
pub record ExecutionContext : Type 0 where
  pub run_id : String
  pub workflow_name : String
  pub step_name : String
  pub input : Value
  pub replayer : Replayer

-- `buildExecutionContext`
abbrev pub build_execution_context : Env → String → Replayer → ExecutionContext
build_execution_context env step_name r = record {
  run_id = env.run_id;
  workflow_name = env.workflow.name;
  step_name = step_name;
  input = env.input;
  replayer = r;
}

-- The implementations of `Context`, and any other type that has its methods.
pub data Context : Type 0 where
  workflow_context : WorkflowContext → Context
  child_context : ChildContext → Context
  adapter : ExecutionContext → Context
  other_context : (run_id workflow_name : String) → Context

-- `RunID`
abbrev pub run_id : Context → String
run_id (workflow_context c) = c.run_id
run_id (child_context c) = c.base.run_id
run_id (adapter c) = c.run_id
run_id (other_context id name) = id

-- `WorkflowName`
abbrev pub workflow_name : Context → String
workflow_name (workflow_context c) = c.workflow_name
workflow_name (child_context c) = c.base.workflow_name
workflow_name (adapter c) = c.workflow_name
workflow_name (other_context id name) = name

-- What a call comes to: a value, an error, or a panic with its text.
pub data Call (A : Type 0) : Type 0 where
  value : A → Call A
  failed : Error → Call A
  panicked : String → Call A

-- `getInput` of the adapter. json.Marshal of what it refuses is a panic.
abbrev pub adapter_input : Value → Call RawMessage
adapter_input no_value = value nil
adapter_input (json_value j) = value (RawMessage.doc j)
adapter_input opaque_value = panicked "workflow: failed to marshal input"

-- `getInput`, where the context has it
abbrev pub context_input : Context → Call RawMessage
context_input (workflow_context c) = value c.input
context_input (child_context c) = value c.base.input
context_input (adapter c) = adapter_input c.input
context_input (other_context _ _) = failed (new "workflow: context does not support input access")

-- `getOutput` of a workflowContext: its cache, then the history if it has one.
unfoldable pub cached_output : WorkflowContext → String → Option RawMessage
cached_output c step_name = elim (lookup step_name c.outputs) [
  | some output ↦ marshal_any output
  | none ↦ elim c.history [ none ↦ none | some h ↦ get_output h step_name ]
]

module _ (env : Env) where
  -- `getOutput`, where the context has it
  unfoldable pub read_output : Context → String → Option (Option RawMessage)
  unfolding cached_output
  read_output (workflow_context c) step_name = some (cached_output c step_name)
  read_output (child_context c) step_name = some (cached_output c.base step_name)
  read_output (adapter c) step_name = some (context_output env c.replayer step_name)
  read_output (other_context _ _) step_name = none

  -- `getBranchChoice`, where the context has it
  abbrev pub read_choice : Context → String → Option (Option String)
  read_choice (adapter c) branch_name = some (get_branch_choice c.replayer.history branch_name)
  read_choice _ branch_name = none

  module _ {T : Type 0} (decode : RawMessage → Result T) where
    abbrev pub decoded : String → Result T → Call T
    decoded text (ok v) = value v
    decoded text (err e) = failed (wrap text e)

    abbrev pub decoded_call : String → Call RawMessage → Call T
    decoded_call text (value raw) = decoded text (decode raw)
    decoded_call text (failed e) = failed e
    decoded_call text (panicked s) = panicked s

    -- `if err != nil { panic(err.Error()) }`
    abbrev pub or_panic : Call T → Call T
    or_panic (failed e) = panicked (error_text e)
    or_panic c = c

    -- `GetInput`
    abbrev pub get_input : Context → Call T
    get_input c = decoded_call "workflow: failed to unmarshal input" (context_input c)

    -- `MustInput`, and `Input`
    abbrev pub must_input : Context → Call T
    must_input c = or_panic (get_input c)

    -- The tests of `GetOutput`, on what `getOutput` gives
    abbrev pub step_outcome : String → Option (Option RawMessage) → Call T
    step_outcome step_name none =
        failed
          (new ("workflow: context does not support output access for step " ++ quote step_name))
    step_outcome step_name (some none) =
        failed (new ("workflow: step " ++ (quote step_name ++ " has not completed")))
    step_outcome step_name (some (some raw)) =
        decoded ("workflow: failed to unmarshal output for step " ++ quote step_name) (decode raw)

    -- `GetOutput` of a step with the name
    unfoldable pub get_step_output : String → Context → Call T
    unfolding read_output quote
    get_step_output step_name c = step_outcome step_name (read_output c step_name)

    -- `MustOutput`, and `Output`
    abbrev pub must_output : String → Context → Call T
    must_output step_name c = or_panic (get_step_output step_name c)

    abbrev pub or_none : Result T → Option T
    or_none (ok v) = some v
    or_none (err e) = none

    abbrev pub case_outcome : Option (Option RawMessage) → Option T
    case_outcome none = none
    case_outcome (some none) = none
    case_outcome (some (some raw)) = or_none (decode raw)

    abbrev pub output_of_case : Context → Option AnyStep → Option T
    output_of_case c none = none
    output_of_case c (some step) = case_outcome (read_output c (name_of step))

    abbrev pub output_of_choice : Cases → Default → Context → Option (Option String) → Option T
    output_of_choice cases fallback c none = none
    output_of_choice cases fallback c (some none) = none
    output_of_choice cases fallback c (some (some choice)) =
        output_of_case c (chosen choice cases fallback)

    -- `BranchOutput`, and `none` for the zero value and false
    unfoldable pub branch_output : String → Cases → Default → Context → Option T
    unfolding read_output chosen
    branch_output branch_name cases fallback c =
        output_of_choice cases fallback c (read_choice c branch_name)

-- `ParentRunID`, and `none` for false. Only a childContext has the method that it looks for.
abbrev pub parent_run_id : Context → Option String
parent_run_id (child_context c) = if c.parent_run_id == "" then none else some c.parent_run_id
parent_run_id _ = none

-- `ChildIndex`: the index, and whether there is one.
abbrev pub child_index : Context → ℤ × Bool
child_index (child_context c) = if c.is_map_child then (c.child_index, true) else (negsuc 0, false)
child_index _ = (negsuc 0, false)

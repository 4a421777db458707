-- ===== src/Workflow/Define/Graph.antt =====
-- workflow/define.go: `Graph` and `GetStepDefs`, which tell of a workflow's structure.
use skene.Prelude.{
  String, Bool, true, false, Option, none, some, List, [], ◌∷◌, ◌++◌, map, Map, lookup, insert,
  string_key,
}
use mathlib.Core.Option
use skene.Workflow.Step.{
  AnyStep, branch, Cases, no_cases, case, Default, no_default, default, name_of, ConfiguredStep,
  WorkflowDef, name, dependencies,
}

-- `DAGNode`
pub record DagNode : Type 0 where
  pub name : String
  pub deps_on : List String
  pub blocks : List String

-- `DAG`
pub record Dag : Type 0 where
  pub nodes : Map String DagNode
  pub order : List String

unfoldable pub first_nodes : List ConfiguredStep → Map String DagNode → Map String DagNode
first_nodes [] m = m
first_nodes (s ∷ ss) m =
    first_nodes ss
      (insert (name s) (record { name = name s; deps_on = dependencies s; blocks = [] }) m)

abbrev pub with_block : String → DagNode → DagNode
with_block step_name node = record node { blocks = node.blocks ++ step_name ∷ [] }

-- `nodes[dep].Blocks = append(…)` for each dependency: a nil node is a panic, here `none`.
unfoldable pub add_blocks : String → List String → Map String DagNode → Option (Map String DagNode)
add_blocks step_name [] m = some m
add_blocks step_name (d ∷ ds) m = elim (lookup d m) [
  | none ↦ none
  | some node ↦ add_blocks step_name ds (insert d (with_block step_name node) m)
]

unfoldable pub reverse_dependencies :
    List ConfiguredStep → Map String DagNode → Option (Map String DagNode)
unfolding add_blocks
reverse_dependencies [] m = some m
reverse_dependencies (s ∷ ss) m = elim (add_blocks (name s) (dependencies s) m) [
  | none ↦ none
  | some m' ↦ reverse_dependencies ss m'
]

-- `Graph`. The order of the workflow is that of its steps.
unfoldable pub graph : WorkflowDef → Option Dag
unfolding first_nodes reverse_dependencies
graph w =
    Option.map (λ nodes. record { nodes = nodes; order = map name w.steps })
      (reverse_dependencies w.steps (first_nodes w.steps []))

-- `GetNode`
unfoldable pub get_node : String → Dag → Option DagNode
get_node node_name d = lookup node_name d.nodes

-- `CaseDef`
pub record CaseDef : Type 0 where
  pub value : String
  pub step_name : String
  pub is_default : Bool

-- `StepDef`
pub record StepDef : Type 0 where
  pub name : String
  pub dependencies : List String
  pub is_branch : Bool
  pub branch_cases : List CaseDef

abbrev pub case_defs : Cases → List CaseDef
case_defs no_cases = []
case_defs (case value s rest) =
    record { value = value; step_name = name_of s; is_default = false } ∷ case_defs rest

abbrev pub default_defs : Default → List CaseDef
default_defs no_default = []
default_defs (default s) =
    record { value = "default"; step_name = name_of s; is_default = true } ∷ []

abbrev pub step_def : ConfiguredStep → AnyStep → StepDef
step_def c (branch _ _ cases fallback) = record {
  name = name c;
  dependencies = dependencies c;
  is_branch = true;
  branch_cases = case_defs cases ++ default_defs fallback;
}
step_def c _ = record {
  name = name c;
  dependencies = dependencies c;
  is_branch = false;
  branch_cases = [];
}

-- `GetStepDefs`; the cases of a branch stand in the order of the model's list.
abbrev pub get_step_defs : WorkflowDef → List StepDef
get_step_defs w = map (λ c. step_def c c.step) w.steps

-- ===== src/Tests/Definitions.antt =====
-- workflow/define.go: definitions and their graphs, and the theorems at them.
use skene.Prelude.{
  IsRange, ◌≡◌, refl, some, List, [], ◌∷◌, map, Map, ℤ, String, lookup, insert, string_key, Has,
  Distinct, member, member_iff, true, false, sym, ◌∙◌,
}
use skene.Workflow.Step.{ConfiguredStep, WorkflowDef, after, name}
use skene.Workflow.Define.{
  returned, panicked, cycle_detected, duplicate_step, define, topological_sort, step_map,
  unknown_dependencies, unknown_of, process_steps, conclude, zero_degrees, in_degrees,
  all_dependents, add_dependents, dependents_of, names_where, process, relax, degree, sorted_nodes,
}
use skene.Workflow.Define.Sort.{blocked_by}
use skene.Workflow.Define.Sort.Order.{Sorted, topological_sort-Sorted}
use skene.Workflow.Define.Sort.Steps.{Defined, define-Defined}
use skene.Workflow.Define.Graph.{
  Dag, DagNode, graph, get_node, first_nodes, reverse_dependencies, add_blocks,
}
use skene.Workflow.Define.Blocks.{graph-blocks}
use skene.Tests.Demo.{fetch, paint, audit}

-- The steps are given last step first, and are sorted.
abbrev pub backwards : List ConfiguredStep
backwards = after audit (fetch ∷ paint ∷ []) ∷ after paint (fetch ∷ []) ∷ after fetch [] ∷ []

-- Two steps that wait for each other.
abbrev knotted : List ConfiguredStep
knotted = after audit (paint ∷ []) ∷ after paint (audit ∷ fetch ∷ []) ∷ after fetch [] ∷ []

abbrev pub same_order : Map String ℤ → Map String ℤ
same_order m = m

pub same_order-IsRange : IsRange same_order
same_order-IsRange = record { same = λ m e. (λ h. h, λ h. h); once = λ m u. u }

abbrev pub sorted : WorkflowDef
sorted = record {
  name = "demo";
  version = "1";
  steps = after fetch [] ∷ after paint (fetch ∷ []) ∷ after audit (fetch ∷ paint ∷ []) ∷ [];
}

pub backwards_is_sorted : define same_order "demo" backwards ≡ returned sorted
unfolding define step_map unknown_dependencies unknown_of topological_sort process_steps conclude
    zero_degrees in_degrees all_dependents add_dependents dependents_of names_where process relax
    degree sorted_nodes lookup insert
backwards_is_sorted = refl

same_name_is_refused :
    define same_order "demo" (after fetch [] ∷ after fetch [] ∷ [])
    ≡ panicked (duplicate_step "fetch")
unfolding define step_map lookup insert unknown_dependencies topological_sort
same_name_is_refused = refl

knotted_is_refused :
    define same_order "demo" knotted ≡ panicked (cycle_detected ("audit" ∷ "paint" ∷ []))
unfolding define step_map unknown_dependencies unknown_of topological_sort process_steps conclude
    zero_degrees in_degrees all_dependents add_dependents dependents_of names_where process relax
    degree sorted_nodes lookup insert
knotted_is_refused = refl

absent : (n : String) (ns : List String) → member n ns ≡ false → ¬ Has n ns
absent n ns e h = let clash : false ≡ true = sym e ∙ (member_iff n ns).1 h in cc

knotted-Distinct : Distinct (map name knotted)
knotted-Distinct = (
  absent "audit" ("paint" ∷ "fetch" ∷ []) refl,
  (absent "paint" ("fetch" ∷ []) refl, (absent "fetch" [] refl, tt)),
)

topological_sort-Sorted_example : Sorted knotted (topological_sort same_order knotted)
topological_sort-Sorted_example =
    topological_sort-Sorted same_order knotted same_order-IsRange knotted-Distinct

define-Defined_example : Defined backwards sorted
define-Defined_example =
    define-Defined same_order "demo" backwards sorted same_order-IsRange backwards_is_sorted

abbrev fetch_node : DagNode
fetch_node = record { name = "fetch"; deps_on = []; blocks = "paint" ∷ "audit" ∷ [] }

abbrev dag : Dag
dag = record {
  nodes =
      ("fetch", fetch_node)
      ∷ ("paint", record { name = "paint"; deps_on = "fetch" ∷ []; blocks = "audit" ∷ [] })
      ∷ ("audit", record { name = "audit"; deps_on = "fetch" ∷ "paint" ∷ []; blocks = [] })
      ∷ [];
  order = "fetch" ∷ "paint" ∷ "audit" ∷ [];
}

graph_sorted : graph sorted ≡ some dag
unfolding graph first_nodes reverse_dependencies add_blocks lookup insert
graph_sorted = refl

fetch_there : get_node "fetch" dag ≡ some fetch_node
unfolding get_node lookup
fetch_there = refl

graph-blocks_example : fetch_node.blocks ≡ blocked_by "fetch" sorted.steps
graph-blocks_example = graph-blocks sorted dag "fetch" fetch_node graph_sorted fetch_there

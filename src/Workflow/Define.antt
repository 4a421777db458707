-- ===== src/Workflow/Define.antt =====
-- workflow/define.go: `Define`, which checks the steps of a workflow and sorts them.
pub mod Sort
pub mod Graph
pub mod Blocks
use skene.Prelude.{
  ℕ, zero, suc, ◌+◌, String, Bool, true, false, Option, none, some, List, [], ◌∷◌, ◌++◌, map, Map,
  lookup, insert, length, nat_eq, if◌then◌else◌, ◌==◌, string_key, ℤ, pos, negsuc,
}
use skene.Workflow.Step.{
  AnyStep, plain, branch, inert, Cases, no_cases, case, Default, no_default, default,
  ConfiguredStep, name, dependencies, WorkflowDef,
}

-- What `Define` panics with.
pub data Panic : Type 0 where
  no_steps : Panic
  duplicate_step : (step_name : String) → Panic
  unknown_dependency : (step_name dependency : String) → Panic
  case_not_executable : (branch_name case_name : String) → Panic
  default_not_executable : (branch_name : String) → Panic
  cycle_detected : (steps : List String) → Panic
  out_of_fuel : Panic

pub data Checked (A : Type 0) : Type 0 where
  returned : A → Checked A
  panicked : Panic → Checked A

abbrev pub if_none : {A : Type 0} → Option Panic → Checked A → Checked A
if_none none c = c
if_none (some p) c = panicked p

-- The map of the steps by their names.
unfoldable pub step_map :
    List ConfiguredStep → Map String ConfiguredStep → Checked (Map String ConfiguredStep)
step_map [] m = returned m
step_map (s ∷ ss) m =
    let rest = step_map ss (insert (name s) s m) in
    elim (lookup (name s) m) [ none ↦ rest | some _ ↦ panicked (duplicate_step (name s)) ]

unfoldable pub unknown_of : String → List String → Map String ConfiguredStep → Option Panic
unknown_of step_name [] m = none
unknown_of step_name (d ∷ ds) m =
    let rest = unknown_of step_name ds m in
    elim (lookup d m) [ none ↦ some (unknown_dependency step_name d) | some _ ↦ rest ]

-- The panic of the first check, or else of the second.
abbrev pub or_else : Option Panic → Option Panic → Option Panic
or_else none other = other
or_else (some p) other = some p

unfoldable pub unknown_dependencies : List ConfiguredStep → Map String ConfiguredStep → Option Panic
unfolding unknown_of
unknown_dependencies [] m = none
unknown_dependencies (s ∷ ss) m =
    or_else (unknown_of (name s) (dependencies s) m) (unknown_dependencies ss m)

-- Whether a step is an `executableStep`.
abbrev pub is_executable : AnyStep → Bool
is_executable (plain _ _ _) = true
is_executable (branch _ _ _ _) = true
is_executable (inert _) = false

abbrev pub check_cases : String → Cases → Option Panic
check_cases branch_name no_cases = none
check_cases branch_name (case value s rest) =
    if is_executable s
    then check_cases branch_name rest
    else some (case_not_executable branch_name value)

abbrev pub check_default : String → Default → Option Panic
check_default branch_name no_default = none
check_default branch_name (default s) =
    if is_executable s then none else some (default_not_executable branch_name)

abbrev pub check_branch : AnyStep → Option Panic
check_branch (branch branch_name _ cases fallback) =
    or_else (check_cases branch_name cases) (check_default branch_name fallback)
check_branch _ = none

abbrev pub check_branches : List ConfiguredStep → Option Panic
check_branches [] = none
check_branches (s ∷ ss) = or_else (check_branch s.step) (check_branches ss)

-- `inDegree[name]`, 0 for a name that is not there
abbrev pub or_zero : Option ℤ → ℤ
or_zero none = pos 0
or_zero (some n) = n

unfoldable pub degree : String → Map String ℤ → ℤ
degree n m = or_zero (lookup n m)

-- `inDegree[dependent]--`
abbrev pub decrement : ℤ → ℤ
decrement (pos (suc n)) = pos n
decrement (pos zero) = negsuc 0
decrement (negsuc n) = negsuc (suc n)

abbrev pub is_zero : ℤ → Bool
is_zero (pos n) = nat_eq n 0
is_zero (negsuc n) = false

abbrev pub is_positive : ℤ → Bool
is_positive (pos zero) = false
is_positive (pos (suc n)) = true
is_positive (negsuc n) = false

-- `dependents[name]`, nil for a name that is not there
abbrev pub or_nil : Option (List String) → List String
or_nil none = []
or_nil (some l) = l

unfoldable pub dependents_of : String → Map String (List String) → List String
dependents_of n m = or_nil (lookup n m)

unfoldable pub zero_degrees : List ConfiguredStep → Map String ℤ → Map String ℤ
zero_degrees [] m = m
zero_degrees (s ∷ ss) m = zero_degrees ss (insert (name s) (pos 0) m)

unfoldable pub in_degrees : List ConfiguredStep → Map String ℤ → Map String ℤ
in_degrees [] m = m
in_degrees (s ∷ ss) m = in_degrees ss (insert (name s) (pos (length (dependencies s))) m)

unfoldable pub add_dependents :
    String → List String → Map String (List String) → Map String (List String)
unfolding dependents_of
add_dependents n [] m = m
add_dependents n (d ∷ ds) m = add_dependents n ds (insert d (dependents_of d m ++ n ∷ []) m)

unfoldable pub all_dependents :
    List ConfiguredStep → Map String (List String) → Map String (List String)
unfolding add_dependents
all_dependents [] m = m
all_dependents (s ∷ ss) m = all_dependents ss (add_dependents (name s) (dependencies s) m)

-- The names in a map whose degree passes a test, in the order of the map.
unfoldable pub names_where : (ℤ → Bool) → Map String ℤ → List String
names_where test [] = []
names_where test ((n, d) ∷ m) = let rest = names_where test m in if test d then n ∷ rest else rest

-- The loop over the dependents of a node: the degrees, and the queue.
unfoldable pub relax : List String → Map String ℤ → List String → Map String ℤ × List String
unfolding degree
relax [] degrees queue = (degrees, queue)
relax (n ∷ ns) degrees queue =
    let d = decrement (degree n degrees) in
    relax ns (insert n d degrees) (if is_zero d then queue ++ n ∷ [] else queue)

-- The order that the loop over the queue leaves, and the degrees.
pub data Processed : Type 0 where
  processed : (order : List String) (degrees : Map String ℤ) → Processed
  unfinished : Processed

-- The loop over the queue: a node is popped in each turn.
unfoldable pub process :
    ℕ → Map String (List String) → List String → Map String ℤ → List String → Processed
unfolding relax
process fuel dependents [] degrees order = processed order degrees
process zero dependents (n ∷ queue) degrees order = unfinished
process (suc fuel) dependents (n ∷ queue) degrees order =
    let (degrees', queue') = relax (dependents_of n dependents) degrees queue in
    process fuel dependents queue' degrees' (order ++ n ∷ [])

-- A map is ranged over in an order of the runtime's choice: `range` gives the entries in that order.
unfoldable pub conclude :
    (Map String ℤ → Map String ℤ) → List ConfiguredStep → Processed → Checked (List String)
unfolding names_where
conclude range steps unfinished = panicked out_of_fuel
conclude range steps (processed order degrees) =
    if nat_eq (length order) (length steps)
    then returned order
    else panicked (cycle_detected (names_where is_positive (range degrees)))

-- The degrees and the queue that the loop starts with, and the loop. Each step is popped at most once.
unfoldable pub process_steps : (Map String ℤ → Map String ℤ) → List ConfiguredStep → Processed
unfolding zero_degrees in_degrees all_dependents names_where process
process_steps range steps =
    let degrees = in_degrees steps (zero_degrees steps []) in
    process (length steps) (all_dependents steps []) (names_where is_zero (range degrees)) degrees
      []

-- `topologicalSort`; its error is the panic that `Define` makes of it.
unfoldable pub topological_sort :
    (Map String ℤ → Map String ℤ) → List ConfiguredStep → Checked (List String)
unfolding conclude process_steps
topological_sort range steps = conclude range steps (process_steps range steps)

-- `sortedNodes`: every name of the order is in the map of the nodes.
unfoldable pub sorted_nodes : List String → Map String ConfiguredStep → List ConfiguredStep
sorted_nodes [] m = []
sorted_nodes (n ∷ ns) m =
    let rest = sorted_nodes ns m in elim (lookup n m) [ none ↦ rest | some s ↦ s ∷ rest ]

abbrev pub with_order :
    String → Map String ConfiguredStep → Checked (List String) → Checked WorkflowDef
unfolding sorted_nodes
with_order workflow_name m (panicked p) = panicked p
with_order workflow_name m (returned order) =
    returned (record { name = workflow_name; version = "1"; steps = sorted_nodes order m })

abbrev pub with_map :
    (Map String ℤ → Map String ℤ)
    → String
    → List ConfiguredStep
    → Checked (Map String ConfiguredStep)
    → Checked WorkflowDef
unfolding unknown_dependencies topological_sort
with_map range workflow_name steps (panicked p) = panicked p
with_map range workflow_name steps (returned m) =
    if_none (unknown_dependencies steps m)
      (if_none (check_branches steps) (with_order workflow_name m (topological_sort range steps)))

-- `Define`
unfoldable pub define :
    (Map String ℤ → Map String ℤ) → String → List ConfiguredStep → Checked WorkflowDef
unfolding step_map
define range workflow_name [] = panicked no_steps
define range workflow_name (s ∷ ss) = with_map range workflow_name (s ∷ ss) (step_map (s ∷ ss) [])

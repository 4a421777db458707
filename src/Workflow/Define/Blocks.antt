-- ===== src/Workflow/Define/Blocks.antt =====
-- workflow/define.go: the reverse dependencies of the graph of a workflow.
use skene.Prelude.{
  ◌≡◌, refl, sym, ap, ◌∙◌, subst, String, Option, none, some, List, [], ◌∷◌, ◌++◌, append-nil,
  append_assoc, map, Map, lookup, insert, lookup-insert, if◌then◌else◌, ◌==◌, eq_iff, string_key,
  Bool-cases, Option_cases, inl, inr, count,
}
use mathlib.Core.Option
use skene.Workflow.Step.{ConfiguredStep, WorkflowDef, name, dependencies}
use skene.Workflow.Define.Sort.{blocked_by, repeat}
use skene.Workflow.Define.Graph.{
  DagNode, Dag, first_nodes, with_block, add_blocks, reverse_dependencies, graph, get_node,
}

abbrev or_no_blocks : Option DagNode → List String
or_no_blocks none = []
or_no_blocks (some node) = node.blocks

-- The `Blocks` of a node, none for one that is not there.
abbrev blocks_of : String → Map String DagNode → List String
blocks_of n m = or_no_blocks (lookup n m)

blocks_of-insert :
    (n d : String) (node : DagNode) (m : Map String DagNode)
    → blocks_of n (insert d node m) ≡ (if d == n then node.blocks else blocks_of n m)
blocks_of-insert n d node m =
    rw (lookup-insert d n node m)
      (elim (Bool-cases (d == n)) [ inl same ↦ rw same refl | inr other ↦ rw other refl ])

-- If there is a map, its nodes block what those of `m` do, and then the texts of `more`.
abbrev Grown : (String → List String) → Map String DagNode → Option (Map String DagNode) → Type 0
Grown more m none = Unit
Grown more m (some m') = (n : String) → blocks_of n m' ≡ blocks_of n m ++ more n

add_blocks-Grown :
    (step_name : String) (ds : List String) (m : Map String DagNode)
    → Grown (λ n. repeat (count n ds) step_name) m (add_blocks step_name ds m)
unfolding add_blocks
add_blocks-Grown step_name [] m = λ n. sym (append-nil (blocks_of n m))
add_blocks-Grown step_name (d ∷ ds) m =
    Option_cases (Grown (λ n. repeat (count n (d ∷ ds)) step_name) m) (lookup d m) _ _
      (λ absent. tt)
      (λ node there.
        longer node there _
          (add_blocks-Grown step_name ds (insert d (with_block step_name node) m)))
  where
    one_more :
        (node : DagNode) (n : String)
        → lookup d m ≡ some node
        → blocks_of n (insert d (with_block step_name node) m) ++ repeat (count n ds) step_name
          ≡ blocks_of n m ++ repeat (count n (d ∷ ds)) step_name
    one_more node n there =
        rw (blocks_of-insert n d (with_block step_name node) m) (elim (Bool-cases (d == n)) [
          | inl same ↦
              let known : lookup n m ≡ some node =
                subst (λ k. lookup k m ≡ some node) ((eq_iff d n).0 same) there in
              rw (same, known)
                (append_assoc node.blocks (step_name ∷ []) (repeat (count n ds) step_name))
          | inr other ↦ rw other refl
        ])

    longer :
        (node : DagNode)
        → lookup d m ≡ some node
        → (o : Option (Map String DagNode))
        → Grown (λ n. repeat (count n ds) step_name) (insert d (with_block step_name node) m) o
        → Grown (λ n. repeat (count n (d ∷ ds)) step_name) m o
    longer node there none h = tt
    longer node there (some m') h = λ n. h n ∙ one_more node n there

reverse_dependencies-Grown :
    (ss : List ConfiguredStep) (m : Map String DagNode)
    → Grown (λ n. blocked_by n ss) m (reverse_dependencies ss m)
unfolding reverse_dependencies
reverse_dependencies-Grown [] m = λ n. sym (append-nil (blocks_of n m))
reverse_dependencies-Grown (s ∷ ss) m =
    go (add_blocks (name s) (dependencies s) m) (add_blocks-Grown (name s) (dependencies s) m)
      (λ m'. reverse_dependencies-Grown ss m')
  where
    both :
        (m' : Map String DagNode)
        → ((n : String)
            → blocks_of n m' ≡ blocks_of n m ++ repeat (count n (dependencies s)) (name s))
        → (o : Option (Map String DagNode)) → Grown (λ n. blocked_by n ss) m' o
        → Grown (λ n. blocked_by n (s ∷ ss)) m o
    both m' h none k = tt
    both m' h (some m'') k = λ n.
        k n
        ∙ (rw (h n) (
            append_assoc (blocks_of n m) (repeat (count n (dependencies s)) (name s))
              (blocked_by n ss)))

    go :
        (o : Option (Map String DagNode))
        → Grown (λ n. repeat (count n (dependencies s)) (name s)) m o
        → ((m' : Map String DagNode) → Grown (λ n. blocked_by n ss) m' (reverse_dependencies ss m'))
        → Grown
            (λ n. blocked_by n (s ∷ ss))
            m
            (elim o [ none ↦ none | some m' ↦ reverse_dependencies ss m' ])
    go none h rest = tt
    go (some m') h rest = both m' h (reverse_dependencies ss m') (rest m')

no_blocks :
    (ss : List ConfiguredStep) (m : Map String DagNode) (n : String)
    → blocks_of n m ≡ []
    → blocks_of n (first_nodes ss m) ≡ []
unfolding first_nodes
no_blocks [] m n h = h
no_blocks (s ∷ ss) m n h = no_blocks ss (insert (name s) _ m) n (
    blocks_of-insert n (name s) _ m
    ∙ (elim (Bool-cases (name s == n)) [ inl same ↦ rw same refl | inr other ↦ rw other h ]))

-- In the graph of a workflow, the steps that a node blocks are those that depend on it, in the order of the
-- workflow, each as often as it names the node among its dependencies.
pub graph-blocks :
    (w : WorkflowDef) (d : Dag) (n : String) (node : DagNode)
    → graph w ≡ some d
    → get_node n d ≡ some node
    → node.blocks ≡ blocked_by n w.steps
unfolding graph get_node lookup
graph-blocks w d n node e there =
    go (reverse_dependencies w.steps (first_nodes w.steps []))
      (reverse_dependencies-Grown w.steps (first_nodes w.steps [])) e
  where
    go :
        (o : Option (Map String DagNode))
        → Grown (λ k. blocked_by k w.steps) (first_nodes w.steps []) o
        → Option.map (λ nodes. record { nodes = nodes; order = map name w.steps }) o ≡ some d
        → node.blocks ≡ blocked_by n w.steps
    go none h f = cc
    go (some m) h f =
        let made : record { nodes = m; order = map name w.steps } ≡ d = cc in
        let known : lookup n m ≡ some node = ap (λ g. lookup n g.nodes) made ∙ there in
        sym (ap or_no_blocks known) ∙ h n ∙ (rw (no_blocks w.steps [] n refl) refl)

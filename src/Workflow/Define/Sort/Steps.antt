-- ===== src/Workflow/Define/Sort/Steps.antt =====
-- workflow/define.go: the steps of a workflow that `Define` returns.
use skene.Prelude.{
  IsRange, ◌≡◌, refl, sym, ap, ◌∙◌, subst, String, Option, none, some, List, [], ◌∷◌, map, Map,
  lookup, insert, lookup-insert, ◌==◌, eq_iff, eq_refl, string_key, ℤ, Has, All, Distinct,
  Bool-cases, Option_cases, inl, inr, ◌⊎◌, arith,
}
use skene.Workflow.Step.{ConfiguredStep, WorkflowDef, name}
use skene.Workflow.Define.{
  Checked, Panic, returned, panicked, if_none, step_map, topological_sort, sorted_nodes,
  unknown_dependencies, check_branches, with_order, with_map, define,
}
use skene.Workflow.Define.Sort.Order.{Ordered, Sorted, in_order, held_up, topological_sort-Sorted}

-- What the map of the steps has, if no name stands twice.
record Mapped (ss : List ConfiguredStep) (m0 m : Map String ConfiguredStep) : Type 0 where
  distinct : Distinct (map name ss)
  new : (n : String) → Has n (map name ss) → lookup n m0 ≡ none
  from :
      (n : String) (s : ConfiguredStep)
      → lookup n m ≡ some s
      → (lookup n m0 ≡ some s) ⊎ Has s ss × (name s ≡ n)
  there : (n : String) → Has n (map name ss) → (s : ConfiguredStep) × (lookup n m ≡ some s)
  old :
      (n : String) (s : ConfiguredStep)
      → lookup n m0 ≡ some s
      → (t : ConfiguredStep) × (lookup n m ≡ some t)

abbrev IfMapped :
    List ConfiguredStep → Map String ConfiguredStep → Checked (Map String ConfiguredStep) → Type 0
IfMapped ss m0 (returned m) = Mapped ss m0 m
IfMapped ss m0 (panicked p) = Unit

Mapped-cons :
    (s : ConfiguredStep) (ss : List ConfiguredStep) (m0 : Map String ConfiguredStep)
    (r : Checked (Map String ConfiguredStep))
    → lookup (name s) m0 ≡ none
    → IfMapped ss (insert (name s) s m0) r
    → IfMapped (s ∷ ss) m0 r
Mapped-cons s ss m0 (panicked p) fresh h = tt
Mapped-cons s ss m0 (returned m) fresh h = record {
  distinct = (λ i. taken (h.new (name s) i), h.distinct);
  new = λ n i. elim i [
    | inl e ↦ subst (λ k. lookup k m0 ≡ none) e fresh
    | inr j ↦ ground (arith, h.new n j, lookup-insert (name s) n s m0)
  ];
  from = λ n t e. elim (h.from n t e) [
    | inl before ↦ elim (Bool-cases (name s == n)) [
      | inl same ↦
          let it : some s ≡ some t = rw (lookup-insert (name s) n s m0, same) at before in
          let it' : s ≡ t = cc in inr (inl it', ap name (sym it') ∙ (eq_iff (name s) n).0 same)
      | inr other ↦ inl (ground (arith, lookup-insert (name s) n s m0))
    ]
    | inr (i, k) ↦ inr (inr i, k)
  ];
  there = λ n i. elim i [
    | inl e ↦ h.old n s (rw (lookup-insert (name s) n s m0, (eq_iff (name s) n).1 e) refl)
    | inr j ↦ h.there n j
  ];
  old = λ n t e. elim (Bool-cases (name s == n)) [
    | inl same ↦ h.old n s (rw (lookup-insert (name s) n s m0, same) refl)
    | inr other ↦ h.old n t (rw (lookup-insert (name s) n s m0, other) e)
  ];
}
  where
    taken : ¬ (lookup (name s) (insert (name s) s m0) ≡ none)
    taken e = ground (arith, lookup-insert (name s) (name s) s m0, eq_refl (name s))

step_map-Mapped :
    (ss : List ConfiguredStep) (m0 : Map String ConfiguredStep) → IfMapped ss m0 (step_map ss m0)
unfolding step_map
step_map-Mapped [] m0 = record {
  distinct = tt;
  new = λ n i. absurd i;
  from = λ n s e. inl e;
  there = λ n i. absurd i;
  old = λ n s e. (s, e);
}
step_map-Mapped (s ∷ ss) m0 =
    Option_cases (IfMapped (s ∷ ss) m0) (lookup (name s) m0) _ _
      (λ fresh. Mapped-cons s ss m0 _ fresh (step_map-Mapped ss (insert (name s) s m0)))
      (λ t known. tt)

-- The nodes of an order whose names the map has are named as the order says, and are steps that were given.
sorted_nodes-names :
    (ss : List ConfiguredStep) (m : Map String ConfiguredStep)
    → Mapped ss [] m
    → (order : List String) → All (λ n. Has n (map name ss)) order
    → (map name (sorted_nodes order m) ≡ order) × All (λ s. Has s ss) (sorted_nodes order m)
unfolding sorted_nodes lookup
sorted_nodes-names ss m h [] k = (refl, tt)
sorted_nodes-names ss m h (n ∷ order) k =
    let (names, given) = sorted_nodes-names ss m h order k.1 in
    Option_cases (λ l. (map name l ≡ n ∷ order) × All (λ s. Has s ss) l) (lookup n m) _ _
      (λ absent. let (s, e) = h.there n k.0 in cc)
      (λ s e. elim (h.from n s e) [
        | inl never ↦ cc
        | inr (i, named) ↦ (rw (named, names) refl, (i, given))
      ])

-- What is known of a workflow that is defined from some steps.
pub record Defined (ss : List ConfiguredStep) (w : WorkflowDef) : Type 0 where
  pub distinct : Distinct (map name ss)
  pub ordered : Ordered ss (map name w.steps)
  pub all : All (λ n. Has n (map name w.steps)) (map name ss)
  pub given : All (λ s. Has s ss) w.steps

abbrev IfDefined : List ConfiguredStep → Checked WorkflowDef → Type 0
IfDefined ss (returned w) = Defined ss w
IfDefined ss (panicked p) = Unit

if_none-Defined :
    (ss : List ConfiguredStep) (o : Option Panic) (c : Checked WorkflowDef)
    → IfDefined ss c
    → IfDefined ss (if_none o c)
if_none-Defined ss none c h = h
if_none-Defined ss (some p) c h = tt

with_order-Defined :
    (workflow_name : String) (ss : List ConfiguredStep) (m : Map String ConfiguredStep)
    (c : Checked (List String))
    → Mapped ss [] m
    → Sorted ss c
    → IfDefined ss (with_order workflow_name m c)
unfolding with_order
with_order-Defined workflow_name ss m _ h (in_order order o all) =
    let (names, given) = sorted_nodes-names ss m h order o.known in
    record { distinct = h.distinct; ordered = rw names o; all = rw names all; given = given }
with_order-Defined workflow_name ss m _ h (held_up order cycle o c) = tt

with_map-Defined :
    (range : Map String ℤ → Map String ℤ) (workflow_name : String) (ss : List ConfiguredStep)
    (c : Checked (Map String ConfiguredStep))
    → IsRange range
    → IfMapped ss [] c
    → IfDefined ss (with_map range workflow_name ss c)
unfolding with_map unknown_dependencies
with_map-Defined range workflow_name ss (panicked p) r h = tt
with_map-Defined range workflow_name ss (returned m) r h =
    if_none-Defined ss (unknown_dependencies ss m) _ (
      if_none-Defined ss (check_branches ss) _ (
        with_order-Defined workflow_name ss m (topological_sort range ss) h
          (topological_sort-Sorted range ss r h.distinct)))

define-IfDefined :
    (range : Map String ℤ → Map String ℤ) (workflow_name : String) (ss : List ConfiguredStep)
    → IsRange range
    → IfDefined ss (define range workflow_name ss)
unfolding define
define-IfDefined range workflow_name [] r = tt
define-IfDefined range workflow_name (s ∷ ss) r =
    with_map-Defined range workflow_name (s ∷ ss) _ r (step_map-Mapped (s ∷ ss) [])

-- A workflow that `Define` returns without a panic was made of steps with different names, and has these
-- steps and no other, each once and after all its dependencies, whatever the order in which the runtime
-- ranges over a map.
pub define-Defined :
    (range : Map String ℤ → Map String ℤ) (workflow_name : String) (ss : List ConfiguredStep)
    (w : WorkflowDef)
    → IsRange range
    → define range workflow_name ss ≡ returned w
    → Defined ss w
define-Defined range workflow_name ss w r e =
    subst (IfDefined ss) e (define-IfDefined range workflow_name ss r)

-- ===== src/Workflow/Define/Sort/Order.antt =====
-- workflow/define.go: what `topologicalSort` returns: an order of all steps, or the steps that a cycle
-- holds up.
use skene.Prelude.{
  keys, IsRange, lookup-Has, Has-lookup, ◌≡◌, refl, sym, ap, ◌∙◌, subst, ℕ, zero, suc, ◌≤◌, String,
  true, false, List, [], ◌∷◌, map, Map, pos_part, if_known, ◌≢◌, lookup, length, Option, none, some,
  nat_eq, nat_eq_iff, string_key, ℤ, pos, Has, All, Distinct, pigeonhole, member, member_iff,
  Bool-cases, inl, inr, ◌⊎◌, arith,
}
use skene.Workflow.Step.{ConfiguredStep, name}
use skene.Workflow.Define.{
  Checked, returned, panicked, cycle_detected, degree, is_positive, is_zero, names_where, processed,
  process_steps, conclude, topological_sort,
}
use skene.Workflow.Define.Sort.{waits}
use skene.Workflow.Define.Sort.Loop.{Kahn, InOrder}
use skene.Workflow.Define.Sort.Start.{
  first_degrees, start-Kahn, first_degrees-Distinct, names_where-Has, Has-names_where, waits-absent,
}
use skene.Workflow.Define.Sort.Ends.{process-Ends, length-map}

pub All-of : {P : String → Type 0} (xs : List String) → ((x : String) → Has x xs → P x) → All P xs
All-of [] h = tt
All-of (x ∷ xs) h = (h x (inl refl), All-of xs (λ y k. h y (inr k)))

-- An order of some of the steps: each at most once, and after all its dependencies; a step that it leaves
-- out depends on one that it leaves out.
pub record Ordered (ss : List ConfiguredStep) (order : List String) : Type 0 where
  pub once : Distinct order
  pub known : All (λ n. Has n (map name ss)) order
  pub sorted : InOrder ss [] order
  pub left : All (λ n. Has n order ⊎ (1 ≤ waits ss order n)) (map name ss)

-- The steps of an error: those that the order leaves out, of which there is one.
pub record HeldUp (ss : List ConfiguredStep) (order cycle : List String) : Type 0 where
  pub waiting : All (λ n. Has n (map name ss) × (1 ≤ waits ss order n)) cycle
  pub all : All (λ n. Has n order ⊎ Has n cycle) (map name ss)
  pub someone : (n : String) × Has n cycle

-- What a call returns: an order of all the steps, or an error with the steps that are held up.
pub data Sorted (ss : List ConfiguredStep) : Checked (List String) → Type 0 where
  in_order :
      (order : List String)
      → Ordered ss order
      → All (λ n. Has n order) (map name ss)
      → Sorted ss (returned order)
  held_up :
      (order cycle : List String)
      → Ordered ss order
      → HeldUp ss order cycle
      → Sorted ss (panicked (cycle_detected cycle))

false-true : ¬ (false ≡ true)
false-true e = cc

-- A text of a list that is not in another one, if there is one.
search_left :
    (ns order : List String)
    → ((z : String) → Has z ns → Has z order) ⊎ ((n : String) × Has n ns × (member n order ≡ false))
search_left [] order = inl (λ z h. absurd h)
search_left (n ∷ ns) order = elim (Bool-cases (member n order)) [
  | inr absent ↦ inr (n, inl refl, absent)
  | inl there ↦ elim (search_left ns order) [
    | inl all ↦ inl (λ z h. elim h [
      | inl e ↦ subst (λ u. Has u order) e ((member_iff n order).0 there)
      | inr i ↦ all z i
    ])
    | inr (k, h, absent) ↦ inr (k, inr h, absent)
  ]
]

positive : (k : ℕ) → (1 ≤ k) ⊎ (k ≡ 0)
positive zero = inr refl
positive (suc k) = inl (omega arith)

module _ (ss : List ConfiguredStep) (order : List String) (m : Map String ℤ)
    (k : Kahn ss order [] m) where
  left_out : (n : String) → Has n (map name ss) → Has n order ⊎ (1 ≤ waits ss order n)
  left_out n h = elim (positive (waits ss order n)) [
    | inl more ↦ inr more
    | inr ended ↦ elim (k.complete n h ended) [ inl never ↦ absurd never | inr there ↦ inl there ]
  ]

  Kahn-Ordered : Ordered ss order
  Kahn-Ordered = record {
    once = k.once_done;
    known = All-of order k.known_done;
    sorted = k.sorted;
    left = All-of (map name ss) left_out;
  }

  all_there : length order ≡ length ss → (n : String) → Has n (map name ss) → Has n order
  all_there e n h = elim (Bool-cases (member n order)) [
    | inl there ↦ (member_iff n order).0 there
    | inr absent ↦ absurd (
        omega (
          arith,
          pigeonhole (n ∷ order) (map name ss)
              (λ i. false-true (sym absent ∙ (member_iff n order).1 i), k.once_done)
              (λ z i. elim i [
                | inl e' ↦ subst (λ u. Has u (map name ss)) e' h
                | inr j ↦ k.known_done z j
              ]),
          length-map ss,
        ))
  ]

  module _ (range : Map String ℤ → Map String ℤ) (r : IsRange range) (each : Distinct (keys m))
      (u : Distinct (map name ss)) where
    cycle : List String
    cycle = names_where is_positive (range m)

    is_held : (d : ℤ) (w : ℕ) → pos w ≡ d → is_positive d ≡ true → 1 ≤ w
    is_held d zero e t = absurd (false-true (ap is_positive e ∙ t))
    is_held d (suc w) e t = omega arith

    waiting : (n : String) → Has n cycle → Has n (map name ss) × (1 ≤ waits ss order n)
    unfolding cycle degree
    waiting n h =
        let (d, there, t) = names_where-Has is_positive n (range m) h in
        let found : lookup n m ≡ some d = Has-lookup n d m each ((r.same m (n, d)).0 there) in
        let more : 1 ≤ waits ss order n = is_held d _ (sym (k.degrees n) ∙ (rw found refl)) t in
        elim (Bool-cases (member n (map name ss))) [
          | inl known ↦ ((member_iff n (map name ss)).0 known, more)
          | inr absent ↦ absurd (omega (arith, waits-absent ss order n absent, more))
        ]

    is_more : (d : ℤ) (w : ℕ) → d ≡ pos w → 1 ≤ w → is_positive d ≡ true
    is_more d zero e h = absurd (omega arith)
    is_more d (suc w) e h = ap is_positive e

    found_in : (n : String) (o : Option ℤ) → lookup n m ≡ o → 1 ≤ waits ss order n → Has n cycle
    unfolding cycle degree
    found_in n none e h =
        let none_left : pos 0 ≡ pos (waits ss order n) = (rw e at (k.degrees n)) in
        absurd (omega (arith, ap pos_part none_left))
    found_in n (some d) e h =
        Has-names_where is_positive n d (range m) ((r.same m (n, d)).1 (lookup-Has n d m e))
          (is_more d _ (rw e at (k.degrees n)) h)

    held : (n : String) → Has n (map name ss) → Has n order ⊎ Has n cycle
    held n h = elim (left_out n h) [
      | inl there ↦ inl there
      | inr more ↦ inr (found_in n (lookup n m) refl more)
    ]

    one_held : length order ≢ length ss → (n : String) × Has n cycle
    one_held ne = elim (search_left (map name ss) order) [
      | inl all ↦ absurd (
          ne (
            omega (
              arith,
              pigeonhole (map name ss) order u all,
              pigeonhole order (map name ss) k.once_done k.known_done,
              length-map ss,
            )))
      | inr (n, h, absent) ↦ elim (held n h) [
        | inl there ↦ absurd (false-true (sym absent ∙ (member_iff n order).1 there))
        | inr i ↦ (n, i)
      ]
    ]

    conclude-Sorted : Sorted ss (conclude range ss (processed order m))
    unfolding conclude cycle
    conclude-Sorted =
        if_known (Sorted ss) (nat_eq (length order) (length ss)) _ _
          (λ e.
            in_order order Kahn-Ordered
              (All-of (map name ss) (all_there ((nat_eq_iff (length order) (length ss)).0 e))))
          (λ e. held_up order cycle Kahn-Ordered (record {
            waiting = All-of cycle waiting;
            all = All-of (map name ss) held;
            someone =
                one_held (λ f. false-true (sym e ∙ (nat_eq_iff (length order) (length ss)).1 f));
          }))

-- The sort of steps with different names ends, whatever the order in which the runtime ranges over a map:
-- it returns all the steps, each once and after all its dependencies, or the error that names just those
-- steps that an order of the others leaves out, each of which depends on one that is left out, and at
-- least one.
pub topological_sort-Sorted :
    (range : Map String ℤ → Map String ℤ) (ss : List ConfiguredStep)
    → IsRange range
    → Distinct (map name ss)
    → Sorted ss (topological_sort range ss)
unfolding topological_sort process_steps first_degrees
topological_sort-Sorted range ss r u =
    let ends =
      process-Ends ss (length ss) (names_where is_zero (range (first_degrees range r ss u)))
        (first_degrees range r ss u) [] (omega arith) (start-Kahn range r ss u)
        (first_degrees-Distinct range r ss u) in
    subst (λ p. Sorted ss (conclude range ss p)) (sym ends.result)
      (conclude-Sorted ss ends.order ends.degrees ends.kahn range r ends.each u)

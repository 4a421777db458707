-- ===== src/Workflow/Define/Sort.antt =====
-- workflow/define.go: the order that `topologicalSort` gives.
pub mod Loop
pub mod Start
pub mod Ends
pub mod Order
pub mod Steps
use skene.Prelude.{
  ◌≡◌, refl, sym, ap, ◌∙◌, subst, ℕ, zero, suc, ◌+◌, ◌≤◌, ◌<◌, String, Bool, true, false, not,
  Option, none, some, List, [], ◌∷◌, ◌++◌, append-nil, append_assoc, map, lookup, insert,
  lookup-insert, length, nat_eq, if◌then◌else◌, ◌==◌, eq_iff, eq_refl, string_key, ℤ, pos, negsuc,
  Has, Has-snoc, Has-snoc_old, Has-snoc_new, member, member_iff, member-snoc, Distinct, count,
  count-append, count-Has, count-Has_positive, Map, Distinct-snoc, Bool-cases, inl, inr, ◌⊎◌, arith,
}
use skene.Workflow.Step.{ConfiguredStep, name, dependencies}
use skene.Workflow.Define.{
  degree, decrement, is_zero, dependents_of, zero_degrees, in_degrees, add_dependents,
  all_dependents, names_where, relax,
}

-- How many texts of a list are not in another one.
abbrev pub missing : List String → List String → ℕ
missing seen [] = 0
missing seen (d ∷ ds) = if member d seen then missing seen ds else suc (missing seen ds)

-- How many dependencies of the steps of a name are not in a list.
abbrev pub waits : List ConfiguredStep → List String → String → ℕ
waits [] seen n = 0
waits (s ∷ ss) seen n =
    if name s == n then missing seen (dependencies s) + waits ss seen n else waits ss seen n

-- How often the steps of a name depend on a step.
abbrev edges : List ConfiguredStep → String → String → ℕ
edges [] c n = 0
edges (s ∷ ss) c n = if name s == n then count c (dependencies s) + edges ss c n else edges ss c n

missing-snoc :
    (seen ds : List String) (c : String)
    → member c seen ≡ false
    → missing seen ds ≡ missing (seen ++ c ∷ []) ds + count c ds
missing-snoc seen [] c h = refl
missing-snoc seen (d ∷ ds) c h =
    ground (arith, missing-snoc seen ds c h, member-snoc d c seen, eq_iff c d, eq_iff d c)

pub waits-snoc :
    (ss : List ConfiguredStep) (seen : List String) (c n : String)
    → member c seen ≡ false
    → waits ss seen n ≡ waits ss (seen ++ c ∷ []) n + edges ss c n
waits-snoc [] seen c n h = refl
waits-snoc (s ∷ ss) seen c n h =
    ground (arith, missing-snoc seen (dependencies s) c h, waits-snoc ss seen c n h)

abbrev pub repeat : ℕ → String → List String
repeat zero n = []
repeat (suc k) n = n ∷ repeat k n

-- The dependents of a step.
abbrev pub blocked_by : String → List ConfiguredStep → List String
blocked_by c [] = []
blocked_by c (s ∷ ss) = repeat (count c (dependencies s)) (name s) ++ blocked_by c ss

repeat-snoc : (k : ℕ) (n : String) → repeat k n ++ n ∷ [] ≡ n ∷ repeat k n
repeat-snoc zero n = refl
repeat-snoc (suc k) n = ap (λ l. n ∷ l) (repeat-snoc k n)

dependents_of-insert :
    (c d : String) (l : List String) (m : Map String (List String))
    → dependents_of c (insert d l m) ≡ (if d == c then l else dependents_of c m)
unfolding dependents_of
dependents_of-insert c d l m =
    rw (lookup-insert d c l m)
      (elim (Bool-cases (d == c)) [ inl same ↦ rw same refl | inr other ↦ rw other refl ])

dependents_of-add_dependents :
    (c n : String) (ds : List String) (m : Map String (List String))
    → dependents_of c (add_dependents n ds m) ≡ dependents_of c m ++ repeat (count c ds) n
unfolding add_dependents
dependents_of-add_dependents c n [] m = sym (append-nil (dependents_of c m))
dependents_of-add_dependents c n (d ∷ ds) m =
    dependents_of-add_dependents c n ds (insert d (dependents_of d m ++ n ∷ []) m)
    ∙ (rw (dependents_of-insert c d (dependents_of d m ++ n ∷ []) m) (elim (Bool-cases (d == c)) [
      | inl same ↦
          rw (same, (eq_iff d c).0 same)
            (append_assoc (dependents_of c m) (n ∷ []) (repeat (count c ds) n))
      | inr other ↦ rw other refl
    ]))

-- The map of the dependents has, for each step, a name as often as the step of that name depends on it.
pub dependents_of-all_dependents :
    (c : String) (ss : List ConfiguredStep) (m : Map String (List String))
    → dependents_of c (all_dependents ss m) ≡ dependents_of c m ++ blocked_by c ss
unfolding all_dependents
dependents_of-all_dependents c [] m = sym (append-nil (dependents_of c m))
dependents_of-all_dependents c (s ∷ ss) m =
    dependents_of-all_dependents c ss (add_dependents (name s) (dependencies s) m)
    ∙ (rw (dependents_of-add_dependents c (name s) (dependencies s) m) (
        append_assoc (dependents_of c m) (repeat (count c (dependencies s)) (name s))
          (blocked_by c ss)))

count-repeat : (k : ℕ) (n x : String) → count x (repeat k n) ≡ (if n == x then k else 0)
count-repeat zero n x = ground arith
count-repeat (suc k) n x = ground (arith, count-repeat k n x)

pub count-blocked_by :
    (ss : List ConfiguredStep) (c n : String) → count n (blocked_by c ss) ≡ edges ss c n
count-blocked_by [] c n = refl
count-blocked_by (s ∷ ss) c n = ground (
  arith,
  count-append n (repeat (count c (dependencies s)) (name s)) (blocked_by c ss),
  count-repeat (count c (dependencies s)) (name s) n,
  count-blocked_by ss c n,
)

Has-append : (x : String) (ys zs : List String) → Has x (ys ++ zs) → Has x ys ⊎ Has x zs
Has-append x [] zs h = inr h
Has-append x (y ∷ ys) zs (inl e) = inl (inl e)
Has-append x (y ∷ ys) zs (inr h) = elim (Has-append x ys zs h) [
  | inl k ↦ inl (inr k)
  | inr k ↦ inr k
]

Has-repeat : (k : ℕ) (n x : String) → Has x (repeat k n) → n ≡ x
Has-repeat zero n x h = absurd h
Has-repeat (suc k) n x (inl e) = e
Has-repeat (suc k) n x (inr h) = Has-repeat k n x h

pub Has-blocked_by :
    (ss : List ConfiguredStep) (c n : String) → Has n (blocked_by c ss) → Has n (map name ss)
Has-blocked_by [] c n h = absurd h
Has-blocked_by (s ∷ ss) c n h =
    elim (Has-append n (repeat (count c (dependencies s)) (name s)) (blocked_by c ss) h) [
      | inl k ↦ inl (Has-repeat (count c (dependencies s)) (name s) n k)
      | inr k ↦ inr (Has-blocked_by ss c n k)
    ]

pub degree-insert :
    (n y : String) (d : ℤ) (m : Map String ℤ)
    → degree y (insert n d m) ≡ (if n == y then d else degree y m)
unfolding degree
degree-insert n y d m =
    rw (lookup-insert n y d m)
      (elim (Bool-cases (n == y)) [ inl same ↦ rw same refl | inr other ↦ rw other refl ])

-- The loop over the dependents `ns` of a node, from a queue `q`, leaves the degrees `f` and a queue of
-- just those nodes of `q` and of `ns` whose degree is zero, each once.
pub record Relaxed (f : String → ℕ) (ns q : List String) (r : Map String ℤ × List String)
    : Type 0 where
  pub degrees : (y : String) → degree y r.0 ≡ pos (f y)
  pub ready : (y : String) → Has y r.1 → f y ≡ 0
  pub kept : (y : String) → Has y q → Has y r.1
  pub added : (y : String) → Has y ns → f y ≡ 0 → Has y r.1
  pub origin : (y : String) → Has y r.1 → Has y q ⊎ Has y ns
  pub once : Distinct r.1

-- A node with one edge less.
pub fall :
    (f : String → ℕ) (n : String) (ns : List String) (m : Map String ℤ)
    → ((y : String) → degree y m ≡ pos (f y + count y (n ∷ ns)))
    → (y : String) → degree y (insert n (pos (f n + count n ns)) m) ≡ pos (f y + count y ns)
fall f n ns m h y = degree-insert n y (pos (f n + count n ns)) m ∙ (elim (Bool-cases (n == y)) [
  | inl same ↦ rw (same, (eq_iff n y).0 same) refl
  | inr other ↦ rw other ((h y) ∙ (rw other refl))
])

-- ===== src/Workflow/Define/Sort/Ends.antt =====
-- workflow/define.go: the loop of `topologicalSort` ends, and what it leaves.
use skene.Prelude.{
  keys, insert-Distinct, ◌≡◌, refl, ap, subst, ℕ, zero, suc, ◌+◌, String, List, [], ◌∷◌, ◌++◌, map,
  Map, lookup, insert, length, length-append, string_key, ℤ, Has, Has-snoc, Distinct, Distinct-snoc,
  pigeonhole, inl, inr, arith,
}
use skene.Workflow.Step.{ConfiguredStep, name}
use skene.Workflow.Define.{dependents_of, all_dependents, relax, process, Processed, processed}
use skene.Workflow.Define.Sort.{blocked_by, dependents_of-all_dependents}
use skene.Workflow.Define.Sort.Loop.{Kahn, turn}

dependents_of-blocked_by :
    (c : String) (ss : List ConfiguredStep)
    → dependents_of c (all_dependents ss []) ≡ blocked_by c ss
unfolding dependents_of lookup
dependents_of-blocked_by c ss = dependents_of-all_dependents c ss []

pub length-map : (ss : List ConfiguredStep) → length (map name ss) ≡ length ss
length-map [] = refl
length-map (s ∷ ss) = ap suc (length-map ss)

relax-Distinct :
    (ns : List String) (m : Map String ℤ) (q : List String)
    → Distinct (keys m)
    → Distinct (keys (relax ns m q).0)
unfolding relax
relax-Distinct [] m q u = u
relax-Distinct (n ∷ ns) m q u = relax-Distinct ns (insert n _ m) _ (insert-Distinct n _ m u)

-- What the loop leaves.
pub record Ends (ss : List ConfiguredStep) (p : Processed) : Type 0 where
  pub order : List String
  pub degrees : Map String ℤ
  pub result : p ≡ processed order degrees
  pub kahn : Kahn ss order [] degrees
  pub each : Distinct (keys degrees)

pub process-Ends :
    (ss : List ConfiguredStep) (fuel : ℕ) (q : List String) (m : Map String ℤ) (order : List String)
    → fuel + length order ≡ length ss
    → Kahn ss order q m
    → Distinct (keys m)
    → Ends ss (process fuel (all_dependents ss []) q m order)
unfolding process
process-Ends ss fuel [] m order e k u = record {
  order = order;
  degrees = m;
  result = refl;
  kahn = k;
  each = u;
}
process-Ends ss zero (n ∷ q) m order e k u = absurd (
    omega (
      arith,
      pigeonhole (order ++ n ∷ []) (map name ss)
          (Distinct-snoc order n k.once_done (k.apart n (inl refl))) known,
      length-append order (n ∷ []),
      length-map ss,
    ))
  where
    known : (z : String) → Has z (order ++ n ∷ []) → Has z (map name ss)
    known z h = elim (Has-snoc z n order h) [
      | inl old ↦ k.known_done z old
      | inr e' ↦ subst (λ x. Has x (map name ss)) e' (k.known_ready n (inl refl))
    ]
process-Ends ss (suc fuel) (n ∷ q) m order e k u =
    rw (process, dependents_of-blocked_by n ss)
      (process-Ends ss fuel _ _ (order ++ n ∷ []) (omega (arith, length-append order (n ∷ [])))
        (turn ss n order q m k) (relax-Distinct (blocked_by n ss) m q u))

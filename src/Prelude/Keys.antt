-- ===== src/Prelude/Keys.antt =====
-- The keys of a Go map under texts, and what `range` over such a map meets.
use Prim.Native.String.{String}
use mathlib.Core.Path.{◌≡◌, refl, sym, ap, subst}
use mathlib.Core.Logic.{◌⊎◌, inl, inr, ◌↔◌}
use mathlib.Core.Option.{some}
use mathlib.Core.List.{List, [], ◌∷◌}
use native.Mathlib.Omega.{arith}
use text.Mathlib.Text.{◌==◌}
use text.Mathlib.TextEquality.{eq_iff}
use skene.Prelude.Tests.{Bool-cases, string_key}
use skene.Prelude.Lists.{Has}
use skene.Prelude.Maps.{Map, lookup, insert}
use skene.Prelude.Sets.{Distinct}

abbrev pub keys : {V : Type 0} → Map String V → List String
keys [] = []
keys ((k, v) ∷ m) = k ∷ keys m

-- What Go says of a loop over a map: it meets each entry, once, in an order of its own.
pub record IsRange {V : Type 0} (range : Map String V → Map String V) : Type 0 where
  pub same : (m : Map String V) (e : String × V) → Has e (range m) ↔ Has e m
  pub once : (m : Map String V) → Distinct (keys m) → Distinct (keys (range m))

pub Has-keys : {V : Type 0} (n : String) (v : V) (m : Map String V) → Has (n, v) m → Has n (keys m)
Has-keys n v ((k, u) ∷ m) (inl e) = inl (ap (λ p. p.0) e)
Has-keys n v ((k, u) ∷ m) (inr h) = inr (Has-keys n v m h)
Has-keys n v [] h = absurd h

pub lookup-Has :
    {V : Type 0} (n : String) (d : V) (m : Map String V) → lookup n m ≡ some d → Has (n, d) m
unfolding lookup
lookup-Has n d [] h = cc
lookup-Has n d ((k, v) ∷ m) h = elim (Bool-cases (k == n)) [
  | inl same ↦
      let e : some v ≡ some d = rw same at h in
      let e' : v ≡ d = cc in inl (rw ((eq_iff k n).0 same, e') refl)
  | inr other ↦ inr (lookup-Has n d m (rw other at h))
]

pub Has-lookup :
    {V : Type 0} (n : String) (d : V) (m : Map String V)
    → Distinct (keys m)
    → Has (n, d) m
    → lookup n m ≡ some d
unfolding lookup
Has-lookup n d [] u h = absurd h
Has-lookup n d ((k, v) ∷ m) u h = elim (Bool-cases (k == n)) [
  | inl same ↦ elim h [
    | inl e ↦ rw same (ap {A = String × _} (λ p. some (p.1)) e)
    | inr i ↦
        absurd (u.0 (subst (λ x. Has x (keys m)) (sym ((eq_iff k n).0 same)) (Has-keys n d m i)))
  ]
  | inr other ↦ elim h [
    | inl e ↦ let e' : k ≡ n = ap {A = String × _} (λ p. p.0) e in ground (arith, eq_iff k n)
    | inr i ↦ rw other (Has-lookup n d m u.1 i)
  ]
]

pub keys-insert :
    {V : Type 0} (n k : String) (d : V) (m : Map String V)
    → Has k (keys (insert n d m))
    → Has k (keys m) ⊎ (n ≡ k)
unfolding insert
keys-insert n k d [] h = elim h [ inl e ↦ inr e | inr i ↦ inl i ]
keys-insert n k d ((j, v) ∷ m) h = elim (Bool-cases (j == n)) [
  | inl same ↦ inl (rw same at h)
  | inr other ↦ elim (rw other at h) [
    | inl e ↦ inl (inl e)
    | inr i ↦ elim (keys-insert n k d m i) [ inl o ↦ inl (inr o) | inr e ↦ inr e ]
  ]
]

pub insert-Distinct :
    {V : Type 0} (n : String) (d : V) (m : Map String V)
    → Distinct (keys m)
    → Distinct (keys (insert n d m))
unfolding insert
insert-Distinct n d [] u = (λ h. h, tt)
insert-Distinct n d ((j, v) ∷ m) u = elim (Bool-cases (j == n)) [
  | inl same ↦ rw same u
  | inr other ↦ rw other (
    λ h. elim (keys-insert n j d m h) [ inl old ↦ u.0 old | inr e ↦ ground (arith, eq_iff j n) ],
    insert-Distinct n d m u.1,
  )
]

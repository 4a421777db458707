-- ===== src/Project/Fates/Deletions.antt =====
-- project/project.go, `ChildWorkflows`: what a map has after `delete`.
use skene.Prelude.{
  ◌≡◌, refl, String, none, [], ◌∷◌, Map, lookup, delete, keys, Distinct, Has, ◌==◌, eq_iff,
  string_key, if◌then◌else◌, Bool-cases, arith, inl, inr,
}
use skene.Event.Data.{child_spawned_codec, child_completed_codec, child_failed_codec}

absent : {V : Type 0} (k : String) (m : Map String V) → ¬ Has k (keys m) → lookup k m ≡ none
unfolding lookup
absent k [] h = refl
absent k ((j, v) ∷ m) h = ground (arith, eq_iff j k, absent k m)

pub lookup-delete :
    {V : Type 0} (k j : String) (m : Map String V)
    → Distinct (keys m)
    → lookup j (delete k m) ≡ (if k == j then none else lookup j m)
unfolding lookup delete
lookup-delete k j [] u = ground arith
lookup-delete k j ((i, v) ∷ m) u =
    ground (arith, eq_iff k j, eq_iff i k, eq_iff i j, lookup-delete k j m u.1, absent i m u.0)

Has-delete :
    {V : Type 0} (k j : String) (m : Map String V) → Has j (keys (delete k m)) → Has j (keys m)
unfolding delete
Has-delete k j [] h = h
Has-delete k j ((i, v) ∷ m) h = elim (Bool-cases (i == k)) [
  | inl same ↦ inr (rw same at h)
  | inr other ↦ elim (rw other at h) [ inl e ↦ inl e | inr later ↦ inr (Has-delete k j m later) ]
]

pub delete-Distinct :
    {V : Type 0} (k : String) (m : Map String V) → Distinct (keys m) → Distinct (keys (delete k m))
unfolding delete
delete-Distinct k [] u = u
delete-Distinct k ((i, v) ∷ m) u = elim (Bool-cases (i == k)) [
  | inl same ↦ rw same (u.1)
  | inr other ↦ rw other (λ h. u.0 (Has-delete k i m h), delete-Distinct k m u.1)
]

-- ===== src/Project/Fates/Places.antt =====
-- project/project.go, `ChildWorkflows`: the places in the result that `pending` has.
use skene.Prelude.{
  ◌≡◌, refl, sym, ap, ◌∙◌, ℕ, zero, suc, ◌<◌, String, Option, none, some, List, [], ◌∷◌, ◌++◌, Map,
  lookup, insert, delete, lookup-insert, keys, Distinct, length, length-append, update_at,
  get_elem?, ◌⊎◌, length-update_at, ◌==◌, eq_iff, string_key, Bool-cases, arith, inl, inr,
}
use skene.Event.Data.{child_spawned_codec, child_completed_codec, child_failed_codec}
use skene.Project.Children.{ChildWorkflowResult}
use skene.Project.Fates.Deletions.{lookup-delete}

-- The places that are pending are those of children of their ids.
abbrev pub Owned : Map String ℕ → List ChildWorkflowResult → Type 0
Owned m xs =
    (id : String) (j : ℕ)
    → lookup id m ≡ some j
    → (j < length xs) × ((x : ChildWorkflowResult) → get_elem? xs j ≡ some x → x.child_run_id ≡ id)

get_elem?-snoc :
    (xs : List ChildWorkflowResult) (x y : ChildWorkflowResult) (j : ℕ)
    → get_elem? (xs ++ x ∷ []) j ≡ some y
    → (get_elem? xs j ≡ some y) ⊎ (j ≡ length xs) × (x ≡ y)
get_elem?-snoc [] x y zero h = inr (refl, cc)
get_elem?-snoc [] x y (suc j) h = cc
get_elem?-snoc (z ∷ xs) x y zero h = inl h
get_elem?-snoc (z ∷ xs) x y (suc j) h = elim (get_elem?-snoc xs x y j h) [
  | inl old ↦ inl old
  | inr new ↦ inr (ap suc (new.0), new.1)
]

get_elem?-bound :
    (xs : List ChildWorkflowResult) (y : ChildWorkflowResult) (j : ℕ)
    → get_elem? xs j ≡ some y
    → j < length xs
get_elem?-bound [] y j h = cc
get_elem?-bound (z ∷ xs) y zero h = omega arith
get_elem?-bound (z ∷ xs) y (suc j) h = omega (arith, get_elem?-bound xs y j h)

pub Owned-insert :
    (x : ChildWorkflowResult) (m : Map String ℕ) (xs : List ChildWorkflowResult)
    → Owned m xs
    → Owned (insert x.child_run_id (length xs) m) (xs ++ x ∷ [])
Owned-insert x m xs o id j h = elim (Bool-cases (x.child_run_id == id)) [
  | inl same ↦
      let k : some (length xs) ≡ some j =
        rw (lookup-insert x.child_run_id id (length xs) m, same) at h in
      let at_end : length xs ≡ j = cc in
      (
        omega (arith, length-append xs (x ∷ [])),
        λ y g. elim (get_elem?-snoc xs x y j g) [
          | inl old ↦ absurd (omega (arith, get_elem?-bound xs y j old))
          | inr new ↦ ap (λ z. z.child_run_id) (sym (new.1)) ∙ (eq_iff x.child_run_id id).0 same
        ],
      )
  | inr other ↦
      let k : lookup id m ≡ some j =
        rw (lookup-insert x.child_run_id id (length xs) m, other) at h in
      let (b, own) = o id j k in
      (
        omega (arith, length-append xs (x ∷ [])),
        λ y g. elim (get_elem?-snoc xs x y j g) [
          | inl old ↦ own y old
          | inr new ↦ absurd (omega (arith, new.0))
        ],
      )
]

get_elem?-update :
    (f : ChildWorkflowResult → ChildWorkflowResult) (i j : ℕ) (xs : List ChildWorkflowResult)
    (y : ChildWorkflowResult)
    → ((x : ChildWorkflowResult) → (f x).child_run_id ≡ x.child_run_id)
    → get_elem? (update_at i f xs) j ≡ some y
    → (x : ChildWorkflowResult) × (get_elem? xs j ≡ some x) × (y.child_run_id ≡ x.child_run_id)
get_elem?-update f i j [] y s h = cc
get_elem?-update f zero zero (x ∷ xs) y s h =
    let e : f x ≡ y = cc in (x, refl, ap (λ z. z.child_run_id) (sym e) ∙ s x)
get_elem?-update f zero (suc j) (x ∷ xs) y s h = (y, h, refl)
get_elem?-update f (suc i) zero (x ∷ xs) y s h = (y, h, refl)
get_elem?-update f (suc i) (suc j) (x ∷ xs) y s h = get_elem?-update f i j xs y s h

pub Owned-delete :
    (id : String) (i : ℕ) (f : ChildWorkflowResult → ChildWorkflowResult) (m : Map String ℕ)
    (xs : List ChildWorkflowResult)
    → Distinct (keys m)
    → ((x : ChildWorkflowResult) → (f x).child_run_id ≡ x.child_run_id)
    → Owned m xs
    → Owned (delete id m) (update_at i f xs)
Owned-delete id i f m xs u s o id' j h = elim (Bool-cases (id == id')) [
  | inl same ↦
      let k : ◌≡◌ {A = Option ℕ} none (some j) = rw (lookup-delete id id' m u, same) at h in cc
  | inr other ↦
      let k : lookup id' m ≡ some j = rw (lookup-delete id id' m u, other) at h in
      let (b, own) = o id' j k in
      (
        omega (arith, length-update_at i f xs),
        λ y g. let (x, found, same) = get_elem?-update f i j xs y s g in same ∙ own x found,
      )
]

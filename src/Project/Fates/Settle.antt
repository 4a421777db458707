-- ===== src/Project/Fates/Settle.antt =====
-- project/project.go, `ChildWorkflows`: the children of a state, with what the events to come say of them.
use skene.Prelude.{
  ◌≡◌, refl, ap, ◌∙◌, ℕ, zero, suc, ◌+◌, ◌<◌, ◌≤◌, String, Bool, false, Option, none, some, List,
  [], ◌∷◌, ◌++◌, Map, lookup, insert, delete, lookup-insert, keys, Distinct, length, update_at,
  get_elem?, nat_eq, ◌==◌, eq_iff, string_key, if◌then◌else◌, arith,
}
use skene.Event.{Event}
use skene.Event.Data.{child_spawned_codec, child_completed_codec, child_failed_codec}
use skene.Project.Children.{ChildWorkflowResult}
use skene.Project.Fates.{Fate, nothing, again, fate, follow, told_child}
use skene.Project.Fates.Deletions.{lookup-delete}

abbrev is_at : ℕ → Option ℕ → Bool
is_at i none = false
is_at i (some j) = nat_eq j i

-- The children from a place on, each that is pending there with what the events say of it.
abbrev pub settle :
    Map String ℕ → ℕ → List Event → List ChildWorkflowResult → List ChildWorkflowResult
settle m i es [] = []
settle m i es (x ∷ xs) =
    let rest = settle m (suc i) es xs in
    (if is_at i (lookup x.child_run_id m) then told_child x es else x) ∷ rest

pub settle-nil : (m : Map String ℕ) (i : ℕ) (xs : List ChildWorkflowResult) → settle m i [] xs ≡ xs
settle-nil m i [] = refl
settle-nil m i (x ∷ xs) = ground (arith, settle-nil m (suc i) xs)

-- An event that says nothing of the pending ones
pub settle_same :
    (m : Map String ℕ) (i : ℕ) (e : Event) (es : List Event) (xs : List ChildWorkflowResult)
    → ((x : ChildWorkflowResult) (j : ℕ)
        → lookup x.child_run_id m ≡ some j
        → fate x.child_run_id e.type e ≡ nothing)
    → settle m i (e ∷ es) xs ≡ settle m i es xs
settle_same m i e es [] h = refl
settle_same m i e es (x ∷ xs) h = ground (arith, h x i, settle_same m (suc i) e es xs h)

pub settle-append :
    (m : Map String ℕ) (i : ℕ) (es : List Event) (xs : List ChildWorkflowResult)
    (x : ChildWorkflowResult)
    → lookup x.child_run_id m ≡ some (i + length xs)
    → settle m i es (xs ++ x ∷ []) ≡ settle m i es xs ++ told_child x es ∷ []
settle-append m i es [] x h = ground arith
settle-append m i es (y ∷ xs) x h =
    ap (λ l. (if is_at i (lookup y.child_run_id m) then told_child y es else y) ∷ l)
      (settle-append m (suc i) es xs x (h ∙ ap some (omega arith)))

pub settle-insert :
    (id : String) (n : ℕ) (m : Map String ℕ) (i : ℕ) (e : Event) (es : List Event)
    (xs : List ChildWorkflowResult)
    → i + length xs ≤ n
    → ((x : ChildWorkflowResult)
        → fate x.child_run_id e.type e ≡ (if id == x.child_run_id then again else nothing))
    → settle m i (e ∷ es) xs ≡ settle (insert id n m) i es xs
settle-insert id n m i e es [] b h = refl
settle-insert id n m i e es (x ∷ xs) b h = ground (
  arith,
  h x,
  lookup-insert id x.child_run_id n m,
  settle-insert id n m (suc i) e es xs (omega arith) h,
)

module _ (id : String) (j : ℕ) (m : Map String ℕ) (there : lookup id m ≡ some j)
    (u : Distinct (keys m)) (e : Event) (es : List Event)
    (f : ChildWorkflowResult → ChildWorkflowResult) (ending : Fate)
    (said : (x : ChildWorkflowResult)
      → fate x.child_run_id e.type e ≡ (if id == x.child_run_id then ending else nothing))
    (ends : (x later : ChildWorkflowResult) → follow ending x later ≡ f x)
    (stays : (x : ChildWorkflowResult) → (f x).child_run_id ≡ x.child_run_id) where
  settle_past :
      (i : ℕ) (xs : List ChildWorkflowResult)
      → j < i
      → settle m i (e ∷ es) xs ≡ settle (delete id m) i es xs
  settle_past i [] b = refl
  settle_past i (x ∷ xs) b = ground (
    arith,
    said x,
    eq_iff id x.child_run_id,
    lookup-delete id x.child_run_id m u,
    settle_past (suc i) xs (omega arith),
  )

  pub settle-delete :
      (i k : ℕ) (xs : List ChildWorkflowResult)
      → i + k ≡ j
      → ((x : ChildWorkflowResult) → get_elem? xs k ≡ some x → x.child_run_id ≡ id)
      → settle m i (e ∷ es) xs ≡ settle (delete id m) i es (update_at k f xs)
  settle-delete i k [] b own = refl
  settle-delete i zero (x ∷ xs) b own =
      let mine : x.child_run_id ≡ id = own x refl in
      ground (
        arith,
        said x,
        eq_iff id x.child_run_id,
        lookup-delete id x.child_run_id m u,
        ends x (told_child x es),
        stays x,
        settle_past (suc i) xs (omega arith),
      )
  settle-delete i (suc k) (x ∷ xs) b own = ground (
    arith,
    said x,
    eq_iff id x.child_run_id,
    lookup-delete id x.child_run_id m u,
    settle-delete (suc i) k xs (omega arith) own,
  )

-- ===== src/Workflow/Replay/Ready.antt =====
-- workflow/replay.go, `findReadySteps`: which steps a wave has, and in which order.
use Prim.Native.Nat.{Ordering, compare as compare_ℕ}
use Prim.Native.String.{compare as compare_text, [] as no_text, ◌∷◌ as char}
use Prim.Native.String.{then}
use Prim.Native.Char.{code}
use Prim.Native.String.compare as text_compare
use skene.Prelude.{
  ℕ, String, Bool, true, false, ◌≡◌, ◌↔◌, ◌⊎◌, inl, inr, refl, sym, subst, ap, none, some, Option,
  lookup, List, [], ◌∷◌, Map, Has, if_cases, if◌then◌else◌, arith, string_key,
}
use skene.Workflow.History.{History, get_fatal_error}
use skene.Workflow.Step.{ConfiguredStep, name, dependencies}
use skene.Workflow.Replay.{
  or_false, is_done, all_done, is_ready, filter_ready, insert_by_name, sort_by_name,
  find_ready_steps, text_lt,
}

not_both : (b : Bool) → b ≡ false → b ≡ true → ⊥
not_both b h k = cc

module _ (history : History) (d : Map String Bool) where
  -- The three tests on a step of a wave.
  abbrev pub Passes : ConfiguredStep → Type 0
  Passes c =
      (is_done d (name c) ≡ false)
      × (get_fatal_error history (name c) ≡ none)
      × (all_done d (dependencies c) ≡ true)

  is_ready_iff : (c : ConfiguredStep) → (is_ready history d c ≡ true) ↔ Passes c
  is_ready_iff c = ground arith

  filter_ready-Has :
      (cs : List ConfiguredStep) (c : ConfiguredStep)
      → Has c (filter_ready history d cs) ↔ Has c cs × Passes c
  unfolding filter_ready
  filter_ready-Has [] c = ((λ h. absurd h), (λ h. absurd h.0))
  filter_ready-Has (b ∷ cs) c = go (is_ready history d b) refl (filter_ready-Has cs c)
    where
      go :
          (r : Bool)
          → is_ready history d b ≡ r
          → Has c (filter_ready history d cs) ↔ Has c cs × Passes c
          → Has c (if r then b ∷ filter_ready history d cs else filter_ready history d cs)
            ↔ Has c (b ∷ cs) × Passes c
      go true h rest = (
        λ k. elim k [
          | inl e ↦ (inl e, subst Passes e ((is_ready_iff b).0 h))
          | inr later ↦ (inr (rest.0 later).0, (rest.0 later).1)
        ],
        λ k. elim k.0 [ inl e ↦ inl e | inr later ↦ inr (rest.1 (later, k.1)) ],
      )
      go false h rest = (
        λ k. (inr (rest.0 k).0, (rest.0 k).1),
        λ k. elim k.0 [
          | inl e ↦
              absurd
                (not_both (is_ready history d b) h ((is_ready_iff b).1 (subst Passes (sym e) k.1)))
          | inr later ↦ rest.1 (later, k.1)
        ],
      )

Has-insert_by_name :
    (b : ConfiguredStep) (cs : List ConfiguredStep) (c : ConfiguredStep)
    → Has c (insert_by_name b cs) ↔ (b ≡ c) ⊎ Has c cs
unfolding insert_by_name
Has-insert_by_name b [] c = ((λ h. h), (λ h. h))
Has-insert_by_name b (x ∷ cs) c =
    let rest = Has-insert_by_name b cs c in
    if_cases (λ l. Has c l ↔ (b ≡ c) ⊎ (x ≡ c) ⊎ Has c cs) (text_lt (name x) (name b)) _ _
      (
        (λ h. elim h [
          | inl e ↦ inr (inl e)
          | inr k ↦ elim (rest.0 k) [ inl e ↦ inl e | inr later ↦ inr (inr later) ]
        ]),
        (λ h. elim h [
          | inl e ↦ inr (rest.1 (inl e))
          | inr k ↦ elim k [ inl e ↦ inl e | inr later ↦ inr (rest.1 (inr later)) ]
        ]),
      )
      ((λ h. h), (λ h. h))

Has-sort_by_name :
    (cs : List ConfiguredStep) (c : ConfiguredStep) → Has c (sort_by_name cs) ↔ Has c cs
unfolding sort_by_name
Has-sort_by_name [] c = ((λ h. h), (λ h. h))
Has-sort_by_name (b ∷ cs) c =
    let inserted = Has-insert_by_name b (sort_by_name cs) c in
    let rest = Has-sort_by_name cs c in
    (
      (λ h. elim (inserted.0 h) [ inl e ↦ inl e | inr k ↦ inr (rest.0 k) ]),
      (λ h. elim h [ inl e ↦ inserted.1 (inl e) | inr k ↦ inserted.1 (inr (rest.1 k)) ]),
    )

-- No step has a name below that of the step before it.
abbrev pub InOrder : List ConfiguredStep → Type 0
InOrder [] = Unit
InOrder (c ∷ []) = Unit
InOrder (c ∷ d ∷ cs) = (text_lt (name d) (name c) ≡ false) × InOrder (d ∷ cs)

abbrev flip : Ordering → Ordering
flip Ordering.lt = Ordering.gt
flip Ordering.eq = Ordering.eq
flip Ordering.gt = Ordering.lt

number-flip : (m n : ℕ) → compare_ℕ n m ≡ flip (compare_ℕ m n)
number-flip m n = ground arith

then-flip : (o p : Ordering) → (then) (flip o) (flip p) ≡ flip ((then) o p)
then-flip Ordering.lt p = refl
then-flip Ordering.eq p = refl
then-flip Ordering.gt p = refl

text-flip : (s t : String) → compare_text t s ≡ flip (compare_text s t)
text-flip no_text no_text = rw text_compare.nil-nil refl
text-flip no_text (char d t) = rw (text_compare.nil-cons d t, text_compare.cons-nil d t) refl
text-flip (char c s) no_text = rw (text_compare.nil-cons c s, text_compare.cons-nil c s) refl
text-flip (char c s) (char d t) =
    rw (text_compare.cons-cons c d s t, text_compare.cons-cons d c t s)
      (rw (number-flip (code c) (code d), text-flip s t)
        (then-flip (compare_ℕ (code c) (code d)) (compare_text s t)))

text_lt-asym : (s t : String) → text_lt s t ≡ true → text_lt t s ≡ false
text_lt-asym s t h =
    subst (λ o. (elim o [ Ordering.lt ↦ true | _ ↦ false ]) ≡ false) (sym (text-flip s t))
      (go (compare_text s t) h)
  where
    go :
        (o : Ordering)
        → (elim o [ Ordering.lt ↦ true | _ ↦ false ]) ≡ true
        → (elim (flip o) [ Ordering.lt ↦ true | _ ↦ false ]) ≡ false
    go Ordering.lt k = refl
    go Ordering.eq k = refl
    go Ordering.gt k = cc

if_split :
    {X : Type 0} (Q : X → Type 0) (b : Bool) (x y : X)
    → (b ≡ true → Q x)
    → (b ≡ false → Q y)
    → Q (if b then x else y)
if_split Q true x y h k = h refl
if_split Q false x y h k = k refl

insert_by_name-InOrder :
    (b : ConfiguredStep) (cs : List ConfiguredStep) → InOrder cs → InOrder (insert_by_name b cs)
unfolding insert_by_name
insert_by_name-InOrder b [] h = tt
insert_by_name-InOrder b (x ∷ []) h =
    if_split InOrder (text_lt (name x) (name b)) _ _ (λ lt. (text_lt-asym (name x) (name b) lt, tt))
      (λ ge. (ge, tt))
insert_by_name-InOrder b (x ∷ y ∷ cs) h =
    if_split InOrder (text_lt (name x) (name b)) _ _
      (λ lt.
        go (text_lt (name y) (name b)) (text_lt-asym (name x) (name b) lt)
          (insert_by_name-InOrder b (y ∷ cs) h.1))
      (λ ge. (ge, h))
  where
    go :
        (y_first : Bool)
        → text_lt (name b) (name x) ≡ false
        → InOrder (if y_first then y ∷ insert_by_name b cs else b ∷ y ∷ cs)
        → InOrder (x ∷ (if y_first then y ∷ insert_by_name b cs else b ∷ y ∷ cs))
    go true e k = (h.0, k)
    go false e k = (e, k)

sort_by_name-InOrder : (cs : List ConfiguredStep) → InOrder (sort_by_name cs)
unfolding sort_by_name
sort_by_name-InOrder [] = tt
sort_by_name-InOrder (b ∷ cs) = insert_by_name-InOrder b (sort_by_name cs) (sort_by_name-InOrder cs)

pub find_ready_steps-Passes :
    (history : History) (d : Map String Bool) (cs : List ConfiguredStep)
    → InOrder (find_ready_steps history d cs)
      × ((c : ConfiguredStep)
          → Has c (find_ready_steps history d cs) ↔ Has c cs × Passes history d c)
unfolding find_ready_steps
find_ready_steps-Passes history d cs = (
  sort_by_name-InOrder (filter_ready history d cs),
  λ c.
      let sorted = Has-sort_by_name (filter_ready history d cs) c in
      let filtered = filter_ready-Has history d cs c in
      ((λ h. filtered.0 (sorted.0 h)), (λ h. sorted.1 (filtered.1 h))),
)

true_or : (o : Option Bool) → or_false o ≡ true → o ≡ some true
true_or none h = cc
true_or (some b) h = ap some h

all_done_iff :
    (d : Map String Bool) (deps : List String)
    → (all_done d deps ≡ true) ↔ ((n : String) → Has n deps → lookup n d ≡ some true)
all_done_iff d [] = ((λ h n k. absurd k), (λ h. refl))
all_done_iff d (dep ∷ deps) =
    let rest = all_done_iff d deps in
    (
      (λ h n k. elim k [
        | inl e ↦ true_or (lookup n d) (subst (λ x. is_done d x ≡ true) e (both.0 h))
        | inr later ↦ rest.0 (both.1 h) n later
      ]),
      (λ h. rw (h dep (inl refl)) (rest.1 (λ n k. h n (inr k)))),
    )
  where
    both :
        (all_done d (dep ∷ deps) ≡ true → is_done d dep ≡ true)
        × (all_done d (dep ∷ deps) ≡ true → all_done d deps ≡ true)
    both = ((λ h. ground arith), (λ h. ground arith))

-- What a step needs for a wave: it is not completed, no fatal error of it is on record, and each step that
-- it depends on is completed.
pub record MayRun (history : History) (d : Map String Bool) (c : ConfiguredStep) : Type 0 where
  pub not_completed : ¬ (lookup (name c) d ≡ some true)
  pub no_fatal_error : lookup (name c) history.fatal_errors ≡ none
  pub after_all : (n : String) → Has n (dependencies c) → lookup n d ≡ some true

Passes-MayRun :
    (history : History) (d : Map String Bool) (c : ConfiguredStep)
    → Passes history d c ↔ MayRun history d c
Passes-MayRun history d c = (
  (λ h. record {
    not_completed = λ k. not_both (is_done d (name c)) h.0 (ap or_false k);
    no_fatal_error = h.1;
    after_all = (all_done_iff d (dependencies c)).0 h.2;
  }),
  (λ h. (
    undone (lookup (name c) d) h.not_completed,
    h.no_fatal_error,
    (all_done_iff d (dependencies c)).1 h.after_all,
  )),
)
  where
    undone : (o : Option Bool) → ¬ (o ≡ some true) → or_false o ≡ false
    undone none h = refl
    undone (some true) h = absurd (h refl)
    undone (some false) h = refl

-- The steps of a wave are those of the workflow that are not completed, have no fatal error in the
-- history, and depend only on steps that are completed; and they stand in the order of their names.
pub find_ready_steps-MayRun :
    (history : History) (d : Map String Bool) (cs : List ConfiguredStep)
    → InOrder (find_ready_steps history d cs)
      × ((c : ConfiguredStep)
          → Has c (find_ready_steps history d cs) ↔ Has c cs × MayRun history d c)
find_ready_steps-MayRun history d cs =
    let (in_order, passes) = find_ready_steps-Passes history d cs in
    (
      in_order,
      λ c.
          let same = Passes-MayRun history d c in
          (
            (λ h. let (k, p) = (passes c).0 h in (k, same.0 p)),
            (λ h. (passes c).1 (h.0, same.1 h.1)),
          ),
    )

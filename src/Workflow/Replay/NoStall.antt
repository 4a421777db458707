-- ===== src/Workflow/Replay/NoStall.antt =====
-- workflow/replay.go, `findReadySteps`: on a workflow that `Define` returned, a wave is empty only when no
-- step is left.
use skene.Prelude.{
  IsRange, ◌≡◌, refl, ap, subst, String, Bool, true, false, Option, none, some, List, [], ◌∷◌, ◌++◌,
  map, Map, ℤ, string_key, Has, All, member, member_iff, eq_refl, Bool-cases, inl, inr, ◌⊎◌, ◌↔◌,
  arith,
}
use skene.Workflow.Errors.{Error}
use skene.Workflow.History.{History, get_fatal_error}
use skene.Workflow.Step.{ConfiguredStep, WorkflowDef, name, dependencies}
use skene.Workflow.Define.{returned, define}
use skene.Workflow.Define.Sort.{missing, waits}
use skene.Workflow.Define.Sort.Loop.{InOrder}
use skene.Workflow.Define.Sort.Steps.{Defined, define-Defined}
use skene.Workflow.Replay.{is_done, all_done, first_fatal, find_ready_steps}
use skene.Workflow.Replay.Ready.{Passes, find_ready_steps-Passes}

All-Has : {A : Type 0} (P : A → Type 0) (x : A) (xs : List A) → All P xs → Has x xs → P x
All-Has P x (y ∷ ys) h (inl e) = subst P e h.0
All-Has P x (y ∷ ys) h (inr k) = All-Has P x ys h.1 k
All-Has P x [] h k = absurd k

first_fatal-none :
    (history : History) (cs : List ConfiguredStep) (c : ConfiguredStep)
    → first_fatal history cs ≡ none
    → Has c cs
    → get_fatal_error history (name c) ≡ none
unfolding first_fatal
first_fatal-none history [] c h k = absurd k
first_fatal-none history (b ∷ cs) c h k =
    go (get_fatal_error history (name b)) refl h (first_fatal-none history cs c)
  where
    go :
        (o : Option Error)
        → get_fatal_error history (name b) ≡ o
        → (elim o [ some e ↦ some (name b, e) | none ↦ first_fatal history cs ]) ≡ none
        → (first_fatal history cs ≡ none → Has c cs → get_fatal_error history (name c) ≡ none)
        → get_fatal_error history (name c) ≡ none
    go (some e) f g rest = cc
    go none f g rest = elim k [
      | inl same ↦ subst (λ x. get_fatal_error history (name x) ≡ none) same f
      | inr there ↦ rest g there
    ]

-- The dependencies of a step are among those that the steps of its name wait for.
missing-waits :
    (ss : List ConfiguredStep) (seen : List String) (c : ConfiguredStep)
    → Has c ss
    → waits ss seen (name c) ≡ 0
    → missing seen (dependencies c) ≡ 0
missing-waits [] seen c h e = absurd h
missing-waits (s ∷ ss) seen c (inl same) e =
    subst (λ b. missing seen (dependencies b) ≡ 0) same
      (ground (arith, eq_refl (name s), ap name same))
missing-waits (s ∷ ss) seen c (inr h) e = missing-waits ss seen c h (ground arith)

module _ (d : Map String Bool) where
  all_done-missing :
      (seen ds : List String)
      → All (λ n. is_done d n ≡ true) seen
      → missing seen ds ≡ 0
      → all_done d ds ≡ true
  all_done-missing seen [] h e = refl
  all_done-missing seen (n ∷ ds) h e = elim (Bool-cases (member n seen)) [
    | inl there ↦
        rw (All-Has (λ n. is_done d n ≡ true) n seen h ((member_iff n seen).0 there))
          (all_done-missing seen ds h (ground arith))
    | inr absent ↦ absurd (ground arith)
  ]

  All-snoc :
      (seen : List String) (n : String)
      → All (λ n. is_done d n ≡ true) seen
      → is_done d n ≡ true
      → All (λ n. is_done d n ≡ true) (seen ++ n ∷ [])
  All-snoc [] n h e = (e, tt)
  All-snoc (x ∷ seen) n h e = (h.0, All-snoc seen n h.1 e)

  -- The first step that is not done has all its dependencies done.
  first_undone :
      (ss cs : List ConfiguredStep) (seen : List String)
      → InOrder ss seen (map name cs)
      → All (λ c. Has c ss) cs
      → All (λ n. is_done d n ≡ true) seen
      → All (λ (c : ConfiguredStep). is_done d (name c) ≡ true) cs
        ⊎ ((c : ConfiguredStep) × Has c cs
            × (is_done d (name c) ≡ false)
            × (all_done d (dependencies c) ≡ true))
  first_undone ss [] seen o given h = inl tt
  first_undone ss (c ∷ cs) seen o given h = elim (Bool-cases (is_done d (name c))) [
    | inr open_step ↦ inr (
      c,
      inl refl,
      open_step,
      all_done-missing seen (dependencies c) h (missing-waits ss seen c given.0 o.0),
    )
    | inl closed ↦
        elim (first_undone ss cs (seen ++ name c ∷ []) o.1 given.1
          (All-snoc seen (name c) h closed)) [
            | inl all ↦ inl (closed, all)
            | inr (b, k, o, deps) ↦ inr (b, inr k, o, deps)
          ]
  ]

-- The waves of a workflow that `Define` returned never stop short: with a history that has no fatal error
-- of a step, there is no step to run if and only if every step is done.
pub find_ready_steps_progress :
    (range : Map String ℤ → Map String ℤ) (workflow_name : String) (ss : List ConfiguredStep)
    (w : WorkflowDef) (history : History) (d : Map String Bool)
    → IsRange range
    → define range workflow_name ss ≡ returned w
    → first_fatal history w.steps ≡ none
    → (find_ready_steps history d w.steps ≡ [])
      ↔ All (λ (c : ConfiguredStep). is_done d (name c) ≡ true) w.steps
find_ready_steps_progress range workflow_name ss w history d r e f = (empty_wave, all_done_before)
  where
    wave : List ConfiguredStep
    wave = find_ready_steps history d w.steps

    may_run : (c : ConfiguredStep) → Has c wave ↔ Has c w.steps × Passes history d c
    may_run = (find_ready_steps-Passes history d w.steps).1

    defined : Defined ss w
    defined = define-Defined range workflow_name ss w r e

    empty_wave : wave ≡ [] → All (λ (c : ConfiguredStep). is_done d (name c) ≡ true) w.steps
    empty_wave none_left =
        elim (first_undone d ss w.steps [] defined.ordered.sorted defined.given tt) [
          | inl all ↦ all
          | inr (c, k, o, deps) ↦ absurd (
              subst (λ l. Has c l) none_left
                ((may_run c).1 (k, (o, first_fatal-none history w.steps c f k, deps))))
        ]

    no_member : (l : List ConfiguredStep) → ((c : ConfiguredStep) → ¬ Has c l) → l ≡ []
    no_member [] h = refl
    no_member (c ∷ l) h = absurd (h c (inl refl))

    all_done_before : All (λ (c : ConfiguredStep). is_done d (name c) ≡ true) w.steps → wave ≡ []
    all_done_before all = no_member wave (λ c h.
        let (k, may) = (may_run c).0 h in
        let done = All-Has (λ (c : ConfiguredStep). is_done d (name c) ≡ true) c w.steps all k in
        cc)

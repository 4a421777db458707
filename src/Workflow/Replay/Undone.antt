-- ===== src/Workflow/Replay/Undone.antt =====
-- workflow/replay.go: the steps that a replay has not completed yet, and what a wave leaves of them.
use skene.Prelude.{
  length, ℕ, suc, ◌≤◌, ◌<◌, String, Bool, true, false, ◌≡◌, sym, subst, refl, Option, none, some,
  List, [], ◌∷◌, Map, insert, lookup-insert, string_key, eq_iff, if◌then◌else◌, inl, inr, arith,
  if_cases, Option_cases, All, Has,
}
use skene.Workflow.Errors.{Error, is_waiting}
use skene.Workflow.History.{History}
use skene.Workflow.Step.{ConfiguredStep, name}
use skene.Workflow.Replayer.{Env, Replayer}
use skene.Workflow.Execute.{StepResult}
use skene.Workflow.Replay.{
  Progress, note_result, first_of_both, emit_events, process_results, is_done, is_ready,
  filter_ready, insert_by_name, text_lt, sort_by_name, find_ready_steps,
}

-- Every key that `d` has done, `d'` has done.
unfoldable pub Extends : Map String Bool → Map String Bool → Type 0
Extends d d' = (k : String) → is_done d k ≡ true → is_done d' k ≡ true

insert-Extends : (name : String) (d : Map String Bool) → Extends d (insert name true d)
unfolding Extends
insert-Extends name d k h = ground (arith, lookup-insert name k true d)

is_done-insert : (name : String) (d : Map String Bool) → is_done (insert name true d) name ≡ true
is_done-insert name d = ground (arith, lookup-insert name name true d, eq_iff name name)

-- No step of the wave has failed or waits.
unfoldable pub IsClear : Progress → Type 0
IsClear p = (p.is_waiting ≡ false) × (p.failure ≡ none)

note_result-IsClear :
    (result : StepResult) (p : Progress)
    → IsClear (note_result result p)
    → IsClear p × (note_result result p).done ≡ insert result.step_name true p.done
unfolding IsClear
note_result-IsClear result p =
    Option_cases Noted result.err _ _ (λ _ h. (h, refl))
      (λ e _. if_cases Noted (is_waiting e) _ _ (λ h. cc) (λ h. absurd (failed p.failure _ h.1)))
  where
    Noted : Progress → Type 0
    Noted q = IsClear q → IsClear p × (q.done ≡ insert result.step_name true p.done)

    failed : (o : Option (String × Error)) (f : String × Error) → first_of_both o f ≡ none → ⊥
    failed none f h = cc
    failed (some e) f h = cc

module _ (env : Env) where
  pub process_results-done :
      (results : List StepResult) (p : Progress) (r : Replayer)
      → IsClear (process_results env results p r).0
      → IsClear p
        × Extends p.done (process_results env results p r).0.done
        × All
            (λ (x : StepResult).
              is_done (process_results env results p r).0.done x.step_name ≡ true)
            results
  unfolding process_results Extends
  process_results-done [] p r h = (h, λ k d. d, tt)
  process_results-done (result ∷ results) p r h =
      let (clear, extends, all) =
        process_results-done results (note_result result p) (emit_events env result.events r) h in
      let (before, noted) = note_result-IsClear result p clear in
      (
        before,
        (λ k d. extends k (
            subst (λ m. is_done m k ≡ true) (sym noted)
              (insert-Extends result.step_name p.done k d))),
        (
          extends result.step_name (
              subst (λ m. is_done m result.step_name ≡ true) (sym noted)
                (is_done-insert result.step_name p.done)),
          all,
        ),
      )

-- The steps that are not done.
unfoldable pub undone : Map String Bool → List ConfiguredStep → ℕ
undone d [] = 0
undone d (c ∷ cs) = if is_done d (name c) then undone d cs else suc (undone d cs)

undone-le :
    (d d' : Map String Bool) (cs : List ConfiguredStep) → Extends d d' → undone d' cs ≤ undone d cs
unfolding undone Extends
undone-le d d' [] h = omega arith
undone-le d d' (c ∷ cs) h = let rest = undone-le d d' cs h in let here = h (name c) in ground arith

pub undone-lt :
    (d d' : Map String Bool) (c : ConfiguredStep) (cs : List ConfiguredStep)
    → Extends d d'
    → Has c cs
    → is_done d (name c) ≡ false
    → is_done d' (name c) ≡ true
    → undone d' cs < undone d cs
unfolding undone Extends
undone-lt d d' c [] e h k l = absurd h
undone-lt d d' c (b ∷ cs) e (inl same) k l =
    let rest = undone-le d d' cs e in
    let k' : is_done d (name b) ≡ false = rw same k in
    let l' : is_done d' (name b) ≡ true = rw same l in ground arith
undone-lt d d' c (b ∷ cs) e (inr later) k l =
    let rest = undone-lt d d' c cs e later k l in let here = e (name b) in ground arith

pub undone-length : (d : Map String Bool) (cs : List ConfiguredStep) → undone d cs ≤ length cs
unfolding undone
undone-length d [] = omega arith
undone-length d (c ∷ cs) = let rest = undone-length d cs in ground arith

module _ (history : History) (d : Map String Bool) (all : List ConfiguredStep) where
  -- A step of the workflow that is not done.
  unfoldable pub IsOpen : ConfiguredStep → Type 0
  IsOpen c = Has c all × (is_done d (name c) ≡ false)

  filter_ready-IsOpen :
      (cs : List ConfiguredStep)
      → ((c : ConfiguredStep) → Has c cs → Has c all)
      → All IsOpen (filter_ready history d cs)
  unfolding filter_ready IsOpen
  filter_ready-IsOpen [] h = tt
  filter_ready-IsOpen (c ∷ cs) h =
      let rest = filter_ready-IsOpen cs (λ b k. h b (inr k)) in go (is_ready history d c) refl rest
    where
      go :
          (b : Bool)
          → is_ready history d c ≡ b
          → All IsOpen (filter_ready history d cs)
          → All IsOpen (if b then c ∷ filter_ready history d cs else filter_ready history d cs)
      go true e rest = ((h c (inl refl), ground arith), rest)
      go false e rest = rest

  insert_by_name-All :
      (c : ConfiguredStep) (cs : List ConfiguredStep)
      → IsOpen c
      → All IsOpen cs
      → All IsOpen (insert_by_name c cs)
  unfolding insert_by_name
  insert_by_name-All c [] h k = (h, tt)
  insert_by_name-All c (b ∷ cs) h k =
      if_cases (All IsOpen) (text_lt (name b) (name c)) _ _ (k.0, insert_by_name-All c cs h k.1)
        (h, k)

  sort_by_name-All : (cs : List ConfiguredStep) → All IsOpen cs → All IsOpen (sort_by_name cs)
  unfolding sort_by_name
  sort_by_name-All [] h = tt
  sort_by_name-All (c ∷ cs) h = insert_by_name-All c _ h.0 (sort_by_name-All cs h.1)

pub find_ready_steps-IsOpen :
    (history : History) (d : Map String Bool) (cs : List ConfiguredStep)
    → All (IsOpen history d cs) (find_ready_steps history d cs)
unfolding find_ready_steps
find_ready_steps-IsOpen history d cs =
    sort_by_name-All history d cs _ (filter_ready-IsOpen history d cs cs (λ c h. h))

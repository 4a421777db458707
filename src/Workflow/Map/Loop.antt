-- ===== src/Workflow/Map/Loop.antt =====
-- workflow/map.go: the loop of a map over its items, with its goroutines under a schedule.
use skene.Prelude.{
  ◌≡◌, refl, ℕ, zero, suc, String, List, [], ◌∷◌, ◌++◌, Option, none, some, if_cases,
}
use skene.Event.Json.{RawMessage}
use skene.Workflow.Errors.{Error, Result, ok, err, wrap}
use skene.Workflow.Step.{Value, WorkflowDef}
use skene.Workflow.Thread.{run_rest, step_at}
use skene.Workflow.Replayer.{Env}
use skene.Workflow.Map.{
  Shared, Routine, set_result, note_failure, Start, on_record, failed_before, to_execute,
  is_blocked, begin_item, failed_child, routine_of, drain, run_map,
}

module _ (env : Env) {Out : Type 0} (decode : RawMessage → Result Out) (zero_out : Out) where
  -- A result for each of the things that the loop may do with an item.
  Start_cases :
      {X : Type 0} (Q : X → Type 0) (o : Start env decode zero_out) (f : Error → X) (g : Out → X)
      (h : String → X) (k : X)
      → ((e : Error) → o ≡ on_record (err e) → Q (f e))
      → ((v : Out) → o ≡ on_record (ok v) → Q (g v))
      → ((text : String) → o ≡ failed_before text → Q (h text))
      → (o ≡ to_execute → Q k)
      → Q (elim o [
        | on_record (err e) ↦ f e
        | on_record (ok v) ↦ g v
        | failed_before text ↦ h text
        | to_execute ↦ k
      ])
  Start_cases Q (on_record (err e)) f g h k a b c d = a e refl
  Start_cases Q (on_record (ok v)) f g h k a b c d = b v refl
  Start_cases Q (failed_before text) f g h k a b c d = c text refl
  Start_cases Q to_execute f g h k a b c d = d refl

  module _ (answers : ℕ → Env) (wf : WorkflowDef) (map_index limit : ℕ) where
    abbrev pub Routines : Type 0
    Routines = List (Routine env decode zero_out)

    -- What the loop keeps, and what holds where it ends.
    pub record Loop (G : ℕ → List Value → Routines → Shared Out → Type 0)
        (Q : Option Error × Shared Out → Type 0) : Type 0 where
      pub ends :
          (idx : ℕ) (ts : Routines) (s : Shared Out) → G idx [] ts s → Q (none, (run_rest ts s).1)
      pub refused :
          (idx : ℕ) (x : Value) (xs : List Value) (ts : Routines) (s : Shared Out) (e : Error)
          (s' : Shared Out)
          → G idx (x ∷ xs) ts s
          → begin_item env decode zero_out answers wf map_index limit idx s ≡ on_record (err e)
          → Q (some (wrap "workflow.Map: unmarshal child output" e), s')
      pub value :
          (idx : ℕ) (x : Value) (xs : List Value) (ts : Routines) (s : Shared Out) (v : Out)
          → G idx (x ∷ xs) ts s
          → begin_item env decode zero_out answers wf map_index limit idx s ≡ on_record (ok v)
          → G (suc idx) xs ts (set_result env decode zero_out idx v s)
      pub failure :
          (idx : ℕ) (x : Value) (xs : List Value) (ts : Routines) (s : Shared Out) (text : String)
          → G idx (x ∷ xs) ts s
          → begin_item env decode zero_out answers wf map_index limit idx s ≡ failed_before text
          → G (suc idx) xs ts (
              note_failure env decode zero_out idx
                (failed_child env decode zero_out answers wf map_index limit text)
                s)
      pub started :
          (idx : ℕ) (x : Value) (xs : List Value) (ts : Routines) (s : Shared Out)
          → G idx (x ∷ xs) ts s
          → begin_item env decode zero_out answers wf map_index limit idx s ≡ to_execute
          → G
              (suc idx)
              xs
              (ts ++ routine_of env decode zero_out answers wf map_index limit idx x ∷ [])
              s
      pub waited :
          (idx : ℕ) (x : Value) (xs : List Value) (ts : Routines) (s : Shared Out)
          → G idx (x ∷ xs) ts s
          → begin_item env decode zero_out answers wf map_index limit idx s ≡ to_execute
          → G
              (suc idx)
              xs
              (routine_of env decode zero_out answers wf map_index limit idx x ∷ [])
              (run_rest ts s).1
      pub acted :
          (k idx : ℕ) (xs : List Value) (ts : Routines) (s : Shared Out)
          → G idx xs ts s
          → G idx xs (step_at k ts s).0 (step_at k ts s).1

    module _ (G : ℕ → List Value → Routines → Shared Out → Type 0)
        (Q : Option Error × Shared Out → Type 0) (loop : Loop G Q) where
      open loop use {ends, refused, value, failure, started, waited, acted}

      drain_ends :
          (xs : List Value) (idx : ℕ) (ts : Routines) (s : Shared Out)
          → G idx xs ts s
          → Q (drain env decode zero_out answers wf map_index limit idx xs ts s)
      unfolding drain
      drain_ends [] idx ts s g = ends idx ts s g
      drain_ends (x ∷ xs) idx ts s g =
          Start_cases Q (begin_item env decode zero_out answers wf map_index limit idx s) _ _ _ _
            (λ e h. refused idx x xs ts s e _ g h)
            (λ v h. drain_ends xs (suc idx) _ _ (value idx x xs ts s v g h))
            (λ text h. drain_ends xs (suc idx) _ _ (failure idx x xs ts s text g h))
            (λ h.
              if_cases Q (is_blocked env decode zero_out limit ts) _ _
                (drain_ends xs (suc idx) _ _ (waited idx x xs ts s g h))
                (drain_ends xs (suc idx) _ _ (started idx x xs ts s g h)))

      -- What the loop keeps it brings to its end, under every schedule.
      pub run_map_ends :
          (schedule : List ℕ) (idx : ℕ) (xs : List Value) (ts : Routines) (s : Shared Out)
          → G idx xs ts s
          → Q (run_map env decode zero_out answers wf map_index limit schedule idx xs ts s)
      unfolding run_map
      run_map_ends [] idx xs ts s g = drain_ends xs idx ts s g
      run_map_ends (suc k ∷ schedule) idx xs ts s g =
          run_map_ends schedule idx xs _ _ (acted k idx xs ts s g)
      run_map_ends (zero ∷ schedule) idx [] ts s g = run_map_ends schedule idx [] ts s g
      run_map_ends (zero ∷ schedule) idx (x ∷ xs) ts s g =
          Start_cases Q (begin_item env decode zero_out answers wf map_index limit idx s) _ _ _ _
            (λ e h. refused idx x xs ts s e _ g h)
            (λ v h. run_map_ends schedule (suc idx) xs _ _ (value idx x xs ts s v g h))
            (λ text h. run_map_ends schedule (suc idx) xs _ _ (failure idx x xs ts s text g h))
            (λ h.
              if_cases Q (is_blocked env decode zero_out limit ts) _ _
                (run_map_ends schedule idx (x ∷ xs) ts s g)
                (run_map_ends schedule (suc idx) xs _ _ (started idx x xs ts s g h)))

-- ===== src/Workflow/Map/Succeeds.antt =====
-- workflow/map.go: a map of children none of which fails.
use skene.Prelude.{
  ◌≡◌, ◌≢◌, refl, sym, ◌∙◌, subst, ℕ, suc, String, Option, none, some, List, [], ◌∷◌, ◌++◌,
  append_assoc, length, length-append, All, All-append, get_elem?, get_elem?-middle, inl, inr, ◌⊎◌,
  arith,
}
use skene.Event.Json.{RawMessage, doc}
use skene.Workflow.Errors.{Error, Result, ok}
use skene.Workflow.History.{History, get_child_output, get_child_error}
use skene.Workflow.Step.{Value, no_value, opaque_value, json_value, marshal_any, WorkflowDef}
use skene.Workflow.Thread.{◌>>=◌}
use skene.Workflow.Thread.Keeps.{Keeps, Keeps-run_rest, Keeps-step_at}
use skene.Workflow.Replayer.{Env, emit_event, look, context_error}
use skene.Workflow.Replay.{
  ReplayOutput, ReplayResult, returned, failed, completed, waiting, suspended,
}
use skene.Workflow.Child.{record_child_spawned, record_child_completed}
use skene.Workflow.Map.{
  Shared, Routine, group_error, finish_with, complete_item, fail_item, end_item, replay_item,
  item_routine, map_child_id, on_record, to_execute, begin_item, routine_of, run_map,
}
use skene.Workflow.Map.Collected.{Reads}
use skene.Workflow.Map.Loop.{Loop, run_map_ends}

module _ (env : Env) {Out : Type 0} (decode : RawMessage → Result Out) (zero_out : Out)
    (answers : ℕ → Env) (wf : WorkflowDef) (map_index : ℕ) (history : History)
    (items : List Value) where
  abbrev child : ℕ → String
  child i = map_child_id env map_index i

  -- The child of an item has not failed: an output that decodes is on record, or its replay gives one.
  pub data Sound (i : ℕ) (x : Value) : Type 0 where
    recorded :
        (raw : RawMessage) (v : Out)
        → get_child_output history (child i) ≡ some raw
        → decode raw ≡ ok v
        → Sound i x
    replayed :
        (input : RawMessage) (o : ReplayOutput) (v : Out)
        → get_child_output history (child i) ≡ none
        → get_child_error history (child i) ≡ none
        → marshal_any x ≡ some input
        → replay_item env decode zero_out (answers i) wf (child i) x ≡ returned o
        → o.result ≢ failed
        → Reads env decode zero_out answers wf map_index history items o.final_output v
        → Sound i x

  -- Nothing has failed.
  abbrev pub Clean : Shared Out → Type 0
  Clean s =
      (s.replayer.history ≡ history)
      × (s.replayer.group ≡ none)
      × (s.group ≡ none)
      × (s.first_error ≡ none)

  abbrev pub Fine : Option Error × Shared Out → Type 0
  Fine (o, s) = (o ≡ none) × Clean s

  abbrev R : Type 0
  R = Routine env decode zero_out

  module _ (uncancelled : (n : ℕ) → env.context_err n ≡ none) where
    no_error : (s : Shared Out) → Clean s → group_error env decode zero_out s ≡ none
    unfolding context_error
    no_error s (h, g, e, f) = rw (e, g) (uncancelled s.replayer.looks)

    finish-Clean :
        (i : ℕ) (o : Result Out) (v : Out)
        → o ≡ ok v
        → Keeps Clean (finish_with env decode zero_out i o)
    finish-Clean i o v e =
        subst (λ o. Keeps Clean (finish_with env decode zero_out i o)) (sym e) (λ s c. (c, tt))

    complete-Clean :
        (i : ℕ) (output : Value) (v : Out)
        → Reads env decode zero_out answers wf map_index history items output v
        → Keeps Clean (complete_item env decode zero_out (child i) i output)
    unfolding ◌>>=◌ record_child_completed emit_event
    complete-Clean i no_value v h = λ s c. (c, finish-Clean i (ok zero_out) zero_out refl)
    complete-Clean i opaque_value v h = absurd h
    complete-Clean i (json_value j) v h = λ s c. (c, finish-Clean i (decode (doc j)) v h)

    end-Clean :
        (i : ℕ) (o : ReplayOutput) (v : Out)
        → o.result ≢ failed
        → Reads env decode zero_out answers wf map_index history items o.final_output v
        → Keeps Clean (end_item env decode zero_out (child i) i (returned o))
    end-Clean i o v ne h = go o.result ne
      where
        go :
            (result : ReplayResult)
            → result ≢ failed
            → Keeps Clean (elim result as (λ _. Routine env decode zero_out) [
              | failed ↦ fail_item env decode zero_out (child i) i o.error "child failed"
              | _ ↦ complete_item env decode zero_out (child i) i o.final_output
            ])
        go failed n = absurd (n refl)
        go completed n = complete-Clean i o.final_output v h
        go waiting n = complete-Clean i o.final_output v h
        go suspended n = complete-Clean i o.final_output v h

    routine-Clean :
        (i : ℕ) (x : Value) (input : RawMessage) (o : ReplayOutput) (v : Out)
        → marshal_any x ≡ some input
        → replay_item env decode zero_out (answers i) wf (child i) x ≡ returned o
        → o.result ≢ failed
        → Reads env decode zero_out answers wf map_index history items o.final_output v
        → Keeps Clean (item_routine env decode zero_out (answers i) wf (child i) i x)
    unfolding item_routine ◌>>=◌ record_child_spawned emit_event look
    routine-Clean i x input o v m e n h s c = (
      c,
      rw (no_error s c, m)
          (λ s' c'. (
            c',
            subst (λ p. Keeps Clean (end_item env decode zero_out (child i) i p)) (sym e)
                (end-Clean i o v n h),
          )),
    )

    module _ (limit : ℕ)
        (sound : (i : ℕ) (x : Value) → get_elem? items i ≡ some x → Sound i x) where
      -- What the loop keeps: nothing has failed, and no goroutine makes anything fail.
      record Going (idx : ℕ) (xs : List Value) (ts : List R) (s : Shared Out) : Type 0 where
        before : List Value
        split : items ≡ before ++ xs
        at : length before ≡ idx
        clean : Clean s
        keeps : All (Keeps Clean) ts

      here :
          (idx : ℕ) (x : Value) (xs : List Value) (ts : List R) (s : Shared Out)
          → Going idx (x ∷ xs) ts s
          → Sound idx x
      here idx x xs ts s g = sound idx x (
          subst (λ l. get_elem? l idx ≡ some x) (sym g.split)
            (subst (λ k. get_elem? (g.before ++ x ∷ xs) k ≡ some x) g.at
              (get_elem?-middle g.before x xs)))

      next :
          (idx : ℕ) (x : Value) (xs : List Value) (ts us : List R) (s s' : Shared Out)
          → Going idx (x ∷ xs) ts s
          → Clean s'
          → All (Keeps Clean) us
          → Going (suc idx) xs us s'
      next idx x xs ts us s s' g c k = record {
        before = g.before ++ x ∷ [];
        split = g.split ∙ sym (append_assoc g.before (x ∷ []) xs);
        at = omega (arith, length-append g.before (x ∷ []), g.at);
        clean = c;
        keeps = k;
      }

      -- What the loop finds of a child that has not failed.
      begun :
          (idx : ℕ) (x : Value) (s : Shared Out)
          → Clean s
          → Sound idx x
          → ((v : Out) × (begin_item env decode zero_out answers wf map_index limit idx s
                ≡ on_record (ok v)))
            ⊎ (begin_item env decode zero_out answers wf map_index limit idx s ≡ to_execute)
              × Keeps Clean (routine_of env decode zero_out answers wf map_index limit idx x)
      unfolding begin_item
      begun idx x s c (recorded raw v there e) = inl (v, rw (c.0, there, e) refl)
      begun idx x s c (replayed input o v no_output no_failure m e n h) =
          inr (rw (c.0, no_output, no_failure) refl, routine-Clean idx x input o v m e n h)

      going : Loop env decode zero_out answers wf map_index limit Going Fine
      going = record {
        ends = λ idx ts s g. (refl, Keeps-run_rest Clean ts s g.keeps g.clean);
        refused = λ idx x xs ts s e s' g h. elim (begun idx x s g.clean (here idx x xs ts s g)) [
          | inl (v, k) ↦ cc
          | inr (k, keeps) ↦ cc
        ];
        value = λ idx x xs ts s v g h. next idx x xs ts ts s _ g g.clean g.keeps;
        failure = λ idx x xs ts s text g h. elim (begun idx x s g.clean (here idx x xs ts s g)) [
          | inl (v, k) ↦ cc
          | inr (k, keeps) ↦ cc
        ];
        started = λ idx x xs ts s g h. elim (begun idx x s g.clean (here idx x xs ts s g)) [
          | inl (v, k) ↦ cc
          | inr (k, keeps) ↦
              next idx x xs ts _ s s g g.clean (All-append (Keeps Clean) ts _ g.keeps (keeps, tt))
        ];
        waited = λ idx x xs ts s g h. elim (begun idx x s g.clean (here idx x xs ts s g)) [
          | inl (v, k) ↦ cc
          | inr (k, keeps) ↦
              next idx x xs ts _ s _ g (Keeps-run_rest Clean ts s g.keeps g.clean) (keeps, tt)
        ];
        acted = λ k idx xs ts s g.
            let (keeps, c) = Keeps-step_at Clean k ts s g.keeps g.clean in
            record { before = g.before; split = g.split; at = g.at; clean = c; keeps = keeps };
      }

      pub run_map-Fine :
          (schedule : List ℕ) (s : Shared Out)
          → Clean s
          → Fine (run_map env decode zero_out answers wf map_index limit schedule 0 items [] s)
      run_map-Fine schedule s c =
          run_map_ends env decode zero_out answers wf map_index limit Going Fine going schedule 0
            items [] s (record { before = []; split = refl; at = refl; clean = c; keeps = tt })

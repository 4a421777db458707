-- ===== src/Workflow/Child/Repeat.antt =====
-- workflow/map.go: `Run` on a later replay of its parent.
use skene.Prelude.{
  ◌≡◌, refl, sym, ◌∙◌, subst, ℕ, String, Option, none, some, List, [], ◌∷◌, ◌++◌, append_assoc, ◌⊎◌,
  inl, inr, eq_refl, Option_cases, string_key,
}
use skene.Event.{Event}
use skene.Event.Json.{Json, RawMessage, nil, doc, marshal, marshal_or_nil, unmarshal}
use skene.Event.Data.{child_completed_codec}
use skene.Workflow.Errors.{Error, wrap, Result, ok, err}
use skene.Workflow.History.{History, new_history, get_child_output, get_child_error}
use skene.Workflow.History.LastWrite.{last_write, child_output_of}
use skene.Workflow.History.Writes.{get_child_output-eq-last_write}
use skene.Workflow.Step.{Value, no_value, opaque_value, json_value, marshal_any, WorkflowDef}
use skene.Workflow.Replayer.{Env, Replayer, emit_event}
use skene.Workflow.Replay.{
  ReplayResult, ReplayOutput, Replayed, returned, broken, completed, failed, waiting, suspended,
}
use skene.Workflow.Child.{
  record_child_completed, child_id, decoded, complete_child, end_child, after_replay, run_child,
}

abbrev pub outputs : Event → Option (String × RawMessage)
outputs e = child_output_of e.type e

last_write-snoc :
    (es : List Event) (e : Event) (key : String) (v : RawMessage)
    → outputs e ≡ some (key, v)
    → last_write outputs (es ++ e ∷ []) key ≡ some v
last_write-snoc [] e key v h = rw (h, eq_refl key) refl
last_write-snoc (d ∷ es) e key v h = rw (last_write-snoc es e key v h) refl

last_write-append :
    (es later : List Event) (key : String)
    → last_write outputs later key ≡ none
    → last_write outputs (es ++ later) key ≡ last_write outputs es key
last_write-append [] later key h = h
last_write-append (e ∷ es) later key h = rw (last_write-append es later key h) refl

-- The events of a replayer end with one that says that a child has completed with an output.
record Recorded (child_run_id : String) (raw : RawMessage) (r : Replayer) : Type 0 where
  before : List Event
  last : Event
  events : r.new_events ≡ before ++ last ∷ []
  says : outputs last ≡ some (child_run_id, raw)

record_child_completed-nil :
    (env : Env) (child_run_id : String) (r : Replayer)
    → Recorded child_run_id nil (record_child_completed env child_run_id nil r)
unfolding record_child_completed emit_event marshal_or_nil marshal unmarshal
record_child_completed-nil env child_run_id r = record {
  before = r.new_events;
  last = _;
  events = refl;
  says = refl;
}

record_child_completed-doc :
    (env : Env) (child_run_id : String) (j : Json) (r : Replayer)
    → Recorded child_run_id (doc j) (record_child_completed env child_run_id (doc j) r)
unfolding record_child_completed emit_event marshal_or_nil marshal unmarshal
record_child_completed-doc env child_run_id j r = record {
  before = r.new_events;
  last = _;
  events = refl;
  says = refl;
}

found_later :
    (run_id child_run_id : String) (raw : RawMessage) (es later : List Event) (r : Replayer)
    (h : History)
    → Recorded child_run_id raw r
    → last_write outputs later child_run_id ≡ none
    → h ≡ new_history run_id ((es ++ r.new_events) ++ later)
    → get_child_output h child_run_id ≡ some raw
found_later run_id child_run_id raw es later r h recorded none_later e =
    rw (e, recorded.events, sym (append_assoc es recorded.before (recorded.last ∷ [])))
      (get_child_output-eq-last_write run_id
          (((es ++ recorded.before) ++ recorded.last ∷ []) ++ later) child_run_id
        ∙ last_write-append ((es ++ recorded.before) ++ recorded.last ∷ []) later child_run_id
            none_later
        ∙ last_write-snoc (es ++ recorded.before) recorded.last child_run_id raw recorded.says)

module _ (env : Env) {Out : Type 0} (decode : RawMessage → Result Out) (zero_out : Out) where
  -- A value of `Run`: its output is on record, and decodes to the value, or there is none.
  record Returned (child_run_id : String) (v : Out) (r : Replayer) : Type 0 where
    raw : RawMessage
    recorded : Recorded child_run_id raw r
    read : (decode raw ≡ ok v) ⊎ (raw ≡ nil) × (v ≡ zero_out)

  abbrev Says : String → Result Out × Replayer → Type 0
  Says child_run_id (ok v, r) = Returned child_run_id v r
  Says child_run_id (err e, r) = Unit

  Says-ok :
      (child_run_id : String) (q : Result Out × Replayer) (v : Out)
      → Says child_run_id q
      → q.0 ≡ ok v
      → Returned child_run_id v q.1
  Says-ok child_run_id (ok u, r) v h e = subst (λ (o : Result Out). Says child_run_id (o, r)) e h
  Says-ok child_run_id (err x, r) v h e = cc

  complete_child-Says :
      (child_run_id : String) (output : Value) (r : Replayer)
      → Says child_run_id (complete_child env decode zero_out child_run_id output r)
  unfolding complete_child
  complete_child-Says child_run_id no_value r = record {
    raw = nil;
    recorded = record_child_completed-nil env child_run_id r;
    read = inr (refl, refl);
  }
  complete_child-Says child_run_id opaque_value r = tt
  complete_child-Says child_run_id (json_value j) r = go (decode (doc j)) refl
    where
      go :
          (o : Result Out)
          → decode (doc j) ≡ o
          → Says child_run_id (
            decoded env decode zero_out "workflow.Run: unmarshal output" o,
            record_child_completed env child_run_id (doc j) r,
          )
      go (ok v) e = record {
        raw = doc j;
        recorded = record_child_completed-doc env child_run_id j r;
        read = inl e;
      }
      go (err x) e = tt

  end_child-Says :
      (child_run_id : String) (result : ReplayResult) (o : ReplayOutput) (r : Replayer)
      → Says child_run_id (end_child env decode zero_out child_run_id result o r)
  unfolding end_child
  end_child-Says child_run_id failed o r = tt
  end_child-Says child_run_id completed o r = complete_child-Says child_run_id o.final_output r
  end_child-Says child_run_id waiting o r = complete_child-Says child_run_id o.final_output r
  end_child-Says child_run_id suspended o r = complete_child-Says child_run_id o.final_output r

  after_replay-Says :
      (child_run_id : String) (p : Replayed) (r : Replayer)
      → Says child_run_id (after_replay env decode zero_out child_run_id p r)
  unfolding after_replay
  after_replay-Says child_run_id (returned o) r = end_child-Says child_run_id o.result o r
  after_replay-Says child_run_id (broken e) r = tt
  after_replay-Says child_run_id Replayed.out_of_fuel r = tt

  module _ (answers : Env) (wf : WorkflowDef) (input : Value) (index : ℕ) where
    run_child-Says :
        (r : Replayer)
        → get_child_output r.history (child_id env index) ≡ none
        → Says (child_id env index) (run_child env decode zero_out answers wf input index r)
    unfolding run_child
    run_child-Says r fresh =
        Option_cases (Says (child_id env index)) (marshal_any input) _ _ (λ _. tt)
          (λ input_json _.
            Option_cases (Says (child_id env index))
              (get_child_output r.history (child_id env index)) _ _
              (λ _.
                Option_cases (Says (child_id env index))
                  (get_child_error r.history (child_id env index)) _ _
                  (λ _. after_replay-Says (child_id env index) _ _) (λ text _. tt))
              (λ output e. let never : some output ≡ none = sym e ∙ fresh in cc))

    -- The result of a later call, for which the output is on record.
    run_child-on_record :
        (r2 : Replayer) (raw : RawMessage)
        → ¬ (marshal_any input ≡ none)
        → get_child_output r2.history (child_id env index) ≡ some raw
        → run_child env decode zero_out answers wf input index r2
          ≡ (decoded env decode zero_out "workflow.Run: unmarshal child output" (decode raw), r2)
    unfolding run_child
    run_child-on_record r2 raw ne e =
        let there : Result Out × Replayer =
          (decoded env decode zero_out "workflow.Run: unmarshal child output" (decode raw), r2) in
        Option_cases (λ (q : Result Out × Replayer). q ≡ there) (marshal_any input) _ _
          (λ n. absurd (ne n))
          (λ input_json _.
            Option_cases (λ (q : Result Out × Replayer). q ≡ there)
              (get_child_output r2.history (child_id env index)) _ _
              (λ n. let never : some raw ≡ none = sym e ∙ n in cc)
              (λ output e'.
                let it : some output ≡ some raw = sym e' ∙ e in
                let it' : output ≡ raw = cc in rw it' refl))

  input_marshals :
      (answers : Env) (wf : WorkflowDef) (input : Value) (index : ℕ) (r : Replayer) (v : Out)
      → (run_child env decode zero_out answers wf input index r).0 ≡ ok v
      → ¬ (marshal_any input ≡ none)
  unfolding run_child
  input_marshals answers wf no_value index r v h = λ n. cc
  input_marshals answers wf opaque_value index r v h = λ n. cc
  input_marshals answers wf (json_value j) index r v h = λ n. cc

  -- A child that `Run` has executed is not executed again: on a later replay of its parent, whose history
  -- has the events of the first one and any others that do not complete a child of that id again, a `Run` with
  -- the same child index writes nothing, and returns the same value; or it returns an error, and then the
  -- value was the zero one. That is so if no output of the child was on record before, and json.Unmarshal
  -- of no bytes is an error.
  pub run_child-repeated :
      (answers answers_later : Env) (wf : WorkflowDef) (input : Value) (index : ℕ) (r r2 : Replayer)
      (v : Out) (e0 : Error) (run_id : String) (es later : List Event)
      → decode nil ≡ err e0
      → get_child_output r.history (child_id env index) ≡ none
      → (run_child env decode zero_out answers wf input index r).0 ≡ ok v
      → last_write outputs later (child_id env index) ≡ none
      → r2.history
        ≡ new_history run_id
            ((es ++ (run_child env decode zero_out answers wf input index r).1.new_events) ++ later)
      → (run_child env decode zero_out answers_later wf input index r2 ≡ (ok v, r2))
        ⊎ (run_child env decode zero_out answers_later wf input index r2
            ≡ (err (wrap "workflow.Run: unmarshal child output" e0), r2))
          × (v ≡ zero_out)
  run_child-repeated answers answers_later wf input index r r2 v e0 run_id es later d fresh h quiet
        e =
      let told =
        Says-ok (child_id env index) _ v (run_child-Says answers wf input index r fresh) h in
      let again =
        run_child-on_record answers_later wf input index r2 told.raw
          (input_marshals answers wf input index r v h)
          (found_later run_id (child_id env index) told.raw es later _ r2.history told.recorded
            quiet e) in
      elim (told.read) [
        | inl same ↦ inl (again ∙ (rw same refl))
        | inr (none_there, zeroed) ↦ inr (again ∙ (rw (none_there, d) refl), zeroed)
      ]

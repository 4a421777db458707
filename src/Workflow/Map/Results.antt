-- ===== src/Workflow/Map/Results.antt =====
-- workflow/map.go: what `MapWithOptions` returns.
use skene.Prelude.{
  ◌≡◌, refl, sym, ap, ◌∙◌, subst, ℕ, suc, ◌<◌, Option, none, some, List, [], ◌∷◌, length, get_elem?,
  inl, inr, arith,
}
use skene.Event.Json.{Json, Items, RawMessage}
use skene.Workflow.Errors.{Error, Result, ok, err}
use skene.Workflow.History.{MapError, get_map_results, get_map_error}
use skene.Workflow.Step.{Value, WorkflowDef}
use skene.Workflow.Replayer.{Env, Replayer, emit_event}
use skene.Workflow.Map.{
  record_map_started, record_map_completed, record_map_failed, Shared, Called, came_back, nil_error,
  run_map,
}
use skene.Workflow.Map.Call.{
  zeros, encode_all, decode_all, results_decoded, after_wait, first_shared, execute_map,
  map_with_options,
}
use skene.Workflow.Map.Collected.{ValueOf, Kept, is_set}
use skene.Workflow.Map.Order.{run_map-Ends, Ends}

length-zeros : {A B : Type 0} (z : B) (xs : List A) → length (zeros z xs) ≡ length xs
length-zeros z [] = refl
length-zeros z (x ∷ xs) = ap suc (length-zeros z xs)

module _ (env : Env) {Out : Type 0} (decode : RawMessage → Result Out) (zero_out : Out)
    (encode : Out → Option Json) (answers : ℕ → Env) (wf : WorkflowDef) (map_index limit : ℕ)
    (schedule : List ℕ) where
  -- What a call that returns values has done: nothing failed, and these are its results.
  record Fine (vs : List Out) (o : Option Error × Shared Out) : Type 0 where
    no_error : o.0 ≡ none
    no_group : o.1.group ≡ none
    no_failure : o.1.first_error ≡ none
    results : o.1.results ≡ vs

  after_wait-Fine :
      (o : Option Error × Shared Out) (vs : List Out)
      → (after_wait env decode zero_out encode map_index o).0 ≡ came_back (ok vs)
      → Fine vs o
  unfolding after_wait
  after_wait-Fine (some e, s) vs h = cc
  after_wait-Fine (none, s) vs h =
      go s.group s.first_error (encode_all encode s.results) refl refl h
    where
      go :
          (g f : Option Error) (j : Option Items)
          → s.group ≡ g
          → s.first_error ≡ f
          → (elim g as (λ _. Called (List Out) × Replayer) [
            | some e ↦ elim f [
              | none ↦ (nil_error, s.replayer)
              | some x ↦ (
                came_back (err (Error.wrap "workflow.Map" e)),
                record_map_failed env map_index s.first_failed_index x s.replayer,
              )
            ]
            | none ↦ elim f [
              | some x ↦ (
                came_back (err (Error.wrap "workflow.Map: child failed" x)),
                record_map_failed env map_index s.first_failed_index x s.replayer,
              )
              | none ↦ elim j [
                | none ↦ (came_back (err (Error.new "workflow.Map: marshal results")), s.replayer)
                | some js ↦ (
                  came_back (ok s.results),
                  record_map_completed env map_index (RawMessage.doc (Json.arr js)) s.replayer,
                )
              ]
            ]
          ]).0
            ≡ came_back (ok vs)
          → Fine vs (none, s)
      go (some e) none j p q k = cc
      go (some e) (some x) j p q k = cc
      go none (some x) j p q k = cc
      go none none none p q k = cc
      go none none (some js) p q k = record {
        no_error = refl;
        no_group = p;
        no_failure = q;
        results = cc;
      }

  abbrev State : Type 0
  State = Option Error × Shared Out

  module _ (items : List Value) (r : Replayer) where
    abbrev KeptR : Shared Out → Type 0
    KeptR = Kept env decode zero_out answers wf map_index r.history items

    -- The item at a place has its value there.
    abbrev pub Collected : List Out → ℕ → Type 0
    Collected vs i =
        (v : Out) × (get_elem? vs i ≡ some v)
        × ValueOf env decode zero_out answers wf map_index r.history items i v

    ended :
        (i : ℕ) (inside : i < length items) (o : State) (vs : List Out)
        → Ends env decode zero_out answers wf map_index limit r.history items i inside o
        → Fine vs o
        → (length vs ≡ length items) × Collected vs i
    ended i inside (some e, s) vs h f = let k = f.no_error in cc
    ended i inside (none, s) vs (kept, settled) f = (
      ap length (sym f.results) ∙ kept.1,
      elim settled [
        | inl g ↦ let k = sym g ∙ ap is_set f.no_group in cc
        | inr (inl e) ↦ let k = sym e ∙ ap is_set f.no_failure in cc
        | inr (inr (v, there, of)) ↦ (v, subst (λ l. get_elem? l i ≡ some v) f.results there, of)
      ],
    )

    execute_map-Ends :
        (i : ℕ) (inside : i < length items)
        → Ends env decode zero_out answers wf map_index limit r.history items i inside (
            run_map env decode zero_out answers wf map_index limit schedule 0 items [] (
              first_shared env decode zero_out encode items
                (record_map_started env map_index (length items) r)))
    unfolding record_map_started emit_event
    execute_map-Ends i inside =
        run_map-Ends env decode zero_out answers wf map_index limit r.history items i inside
          schedule 0 items [] _
          (record {
            before = [];
            split = refl;
            at = refl;
            invariant = (refl, length-zeros zero_out items);
            keeps = tt;
            steady = tt;
            goal = inl (omega arith);
          })

    execute_map-Collected :
        (i : ℕ) (vs : List Out)
        → i < length items
        → (execute_map env decode zero_out encode answers wf map_index limit schedule items r).0
          ≡ came_back (ok vs)
        → (length vs ≡ length items) × Collected vs i
    unfolding execute_map
    execute_map-Collected i vs inside h =
        ended i inside _ vs (execute_map-Ends i inside) (after_wait-Fine _ vs h)

-- When `MapWithOptions` returns values for some items, and no results of the map were on record, it
-- returns as many values as there are items, in their order, whatever the limit and whatever the order in
-- which its goroutines act: the value at the place of an item is that of the output that the history has
-- of the item's child, or of the output that a replay of the child with the item as its input gave.
pub map_with_options-Collected :
    (env : Env) {Out : Type 0} (decode : RawMessage → Result Out) (zero_out : Out)
    (encode : Out → Option Json) (answers : ℕ → Env) (wf : WorkflowDef) (map_index limit : ℕ)
    (schedule : List ℕ) (items : List Value) (r : Replayer) (vs : List Out)
    → get_map_results r.history map_index ≡ none
    → (map_with_options env decode zero_out encode answers wf map_index limit schedule items r).0
      ≡ came_back (ok vs)
    → (i : ℕ) → i < length items
    → (length vs ≡ length items)
      × Collected env decode zero_out encode answers wf map_index limit schedule items r vs i
unfolding map_with_options
map_with_options-Collected env decode zero_out encode answers wf map_index limit schedule [] r vs
      fresh h i inside =
    absurd (omega arith)
map_with_options-Collected env {Out} decode zero_out encode answers wf map_index limit schedule
      (x ∷ xs) r vs fresh h i inside =
    execute_map-Collected env decode zero_out encode answers wf map_index limit schedule (x ∷ xs) r
      i vs inside
      (go (get_map_results r.history map_index) (get_map_error r.history map_index) fresh h)
  where
    there : Called (List Out) × Replayer
    there = execute_map env decode zero_out encode answers wf map_index limit schedule (x ∷ xs) r

    go :
        (o : Option RawMessage) (e : Option MapError)
        → o ≡ none
        → (elim o as (λ _. Called (List Out) × Replayer) [
          | some raw ↦
              (came_back (results_decoded env decode zero_out encode (decode_all decode raw)), r)
          | none ↦ elim e [
            | some f ↦
                (came_back (err (Error.wrap "workflow.Map: child failed" (Error.new f.error))), r)
            | none ↦ there
          ]
        ]).0
          ≡ came_back (ok vs)
        → there.0 ≡ came_back (ok vs)
    go (some raw) e p k = cc
    go none (some f) p k = cc
    go none none p k = k

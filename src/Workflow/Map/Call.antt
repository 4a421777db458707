-- ===== src/Workflow/Map/Call.antt =====
-- workflow/map.go: `MapWithOptions` and `Map`, round the goroutines of a map.
use skene.Prelude.{ℕ, Option, none, some, List, [], ◌∷◌, length}
use skene.Event.Json.{Json, Items, no_items, item, null, arr, RawMessage, doc}
use skene.Workflow.Errors.{Error, new, wrap, Result, ok, err}
use skene.Workflow.History.{get_map_results, get_map_error}
use skene.Workflow.Step.{Value, WorkflowDef}
use skene.Workflow.Replayer.{Env, Replayer}
use skene.Workflow.Map.{
  record_map_started, record_map_completed, record_map_failed, Shared, Called, came_back, nil_error,
  run_map,
}

-- `make([]Out, len(items))`
abbrev pub zeros : {A B : Type 0} → B → List A → List B
zeros z [] = []
zeros z (x ∷ xs) = z ∷ zeros z xs

module _ {Out : Type 0} (encode : Out → Option Json) where
  abbrev pub with_item : Option Json → Option Items → Option Items
  with_item (some j) (some js) = some (item j js)
  with_item _ _ = none

  -- json.Marshal of a slice, without its brackets
  unfoldable pub encode_all : List Out → Option Items
  encode_all [] = some no_items
  encode_all (v ∷ vs) = with_item (encode v) (encode_all vs)

module _ {Out : Type 0} (decode : RawMessage → Result Out) where
  abbrev pub with_value : Result Out → Result (List Out) → Result (List Out)
  with_value (ok v) (ok vs) = ok (v ∷ vs)
  with_value (err e) _ = err e
  with_value (ok v) (err e) = err e

  unfoldable pub decode_items : Items → Result (List Out)
  decode_items no_items = ok []
  decode_items (item j js) = with_value (decode (doc j)) (decode_items js)

  -- json.Unmarshal into a slice
  unfoldable pub decode_all : RawMessage → Result (List Out)
  unfolding decode_items
  decode_all (doc (arr js)) = decode_items js
  decode_all (doc null) = ok []
  decode_all _ = err (new "json: cannot unmarshal into a slice")

module _ (env : Env) {Out : Type 0} (decode : RawMessage → Result Out) (zero_out : Out)
    (encode : Out → Option Json) where
  abbrev pub results_decoded : Result (List Out) → Result (List Out)
  results_decoded (ok vs) = ok vs
  results_decoded (err e) = err (wrap "workflow.Map: unmarshal results" e)

  -- The lines after the loop. `RecordMapFailed` asks the first failure for its text, which panics if an
  -- error of the group came with none.
  unfoldable pub after_wait : ℕ → Option Error × Shared Out → Called (List Out) × Replayer
  unfolding record_map_failed record_map_completed encode_all
  after_wait map_index (some e, s) = (came_back (err e), s.replayer)
  after_wait map_index (none, s) = elim s.group [
    | some e ↦ elim s.first_error [
      | none ↦ (nil_error, s.replayer)
      | some f ↦ (
        came_back (err (wrap "workflow.Map" e)),
        record_map_failed env map_index s.first_failed_index f s.replayer,
      )
    ]
    | none ↦ elim s.first_error [
      | some f ↦ (
        came_back (err (wrap "workflow.Map: child failed" f)),
        record_map_failed env map_index s.first_failed_index f s.replayer,
      )
      | none ↦ elim (encode_all encode s.results) [
        | none ↦ (came_back (err (new "workflow.Map: marshal results")), s.replayer)
        | some js ↦
            (came_back (ok s.results), record_map_completed env map_index (doc (arr js)) s.replayer)
      ]
    ]
  ]

  abbrev pub first_shared : List Value → Replayer → Shared Out
  first_shared items r = record {
    replayer = r;
    results = zeros zero_out items;
    first_failed_index = 0;
    first_error = none;
    group = none;
  }

  module _ (answers : ℕ → Env) (wf : WorkflowDef) (map_index limit : ℕ) (schedule : List ℕ) where
    -- What is executed when nothing of the map is on record.
    unfoldable pub execute_map : List Value → Replayer → Called (List Out) × Replayer
    unfolding run_map after_wait record_map_started
    execute_map items r = after_wait map_index (
        run_map env decode zero_out answers wf map_index limit schedule 0 items []
          (first_shared items (record_map_started env map_index (length items) r)))

    -- `MapWithOptions`, for the map index that `nextMapIndex` gave.
    unfoldable pub map_with_options : List Value → Replayer → Called (List Out) × Replayer
    unfolding execute_map decode_all
    map_with_options [] r = (came_back (ok []), r)
    map_with_options (x ∷ xs) r = elim (get_map_results r.history map_index) [
      | some raw ↦ (came_back (results_decoded (decode_all decode raw)), r)
      | none ↦ elim (get_map_error r.history map_index) [
        | some e ↦ (came_back (err (wrap "workflow.Map: child failed" (new e.error))), r)
        | none ↦ execute_map (x ∷ xs) r
      ]
    ]

  -- `Map`
  abbrev pub map_items :
      (ℕ → Env) → WorkflowDef → ℕ → List ℕ → List Value → Replayer → Called (List Out) × Replayer
  map_items answers wf map_index schedule = map_with_options answers wf map_index 0 schedule

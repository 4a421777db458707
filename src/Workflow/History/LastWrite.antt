-- ===== src/Workflow/History/LastWrite.antt =====
-- workflow/history.go: what an event writes into each index of a history, and the last value that a
-- list of events writes under a key.
use skene.Prelude.{
  ℕ, String, ◌≡◌, refl, Option, none, some, List, [], ◌∷◌, Map, lookup, insert, lookup-insert, Key,
  arith, if◌then◌else◌, ◌==◌, string_key, nat_key,
}
use skene.Event.{
  Event, EventType, step_completed, step_failed, branch_evaluated, map_completed, map_failed,
  child_completed, child_failed,
}
use skene.Event.Json.{RawMessage, nil, unmarshal}
use skene.Event.Data.{
  StepFailedData, BranchEvaluatedData, MapCompletedData, MapFailedData, ChildCompletedData,
  ChildFailedData, step_failed_codec, branch_evaluated_codec, map_completed_codec, map_failed_codec,
  child_completed_codec, child_failed_codec,
}
use skene.Workflow.Errors.{Error, new}
use skene.Workflow.History.{History, MapError, index_event, index, on_read}

module _ {K V : Type 0} ⦃k : Key K⦄ where
  abbrev written : Option (K × V) → K → Option V
  written none key = none
  written (some (j, v)) key = if k.same j key then some v else none

  -- The value of the last event that writes under the key.
  abbrev pub last_write : (Event → Option (K × V)) → List Event → K → Option V
  last_write writes [] key = none
  last_write writes (e ∷ es) key = elim (last_write writes es key) [
    | none ↦ written (writes e) key
    | some v ↦ some v
  ]

  abbrev pub put : Option (K × V) → Map K V → Map K V
  put none m = m
  put (some (j, v)) m = insert j v m

  lookup-put :
      (o : Option (K × V)) (m : Map K V) (key : K)
      → lookup key (put o m) ≡ elim (written o key) [ none ↦ lookup key m | some v ↦ some v ]
  lookup-put none m key = refl
  lookup-put (some (j, v)) m key = ground (arith, lookup-insert j key v m)

  module _ (field : History → Map K V) (writes : Event → Option (K × V))
      (step : (e : Event) (h : History) → field (index_event e h) ≡ put (writes e) (field h)) where
    pub lookup-index :
        (es : List Event) (h : History) (key : K)
        → lookup key (field (index es h))
          ≡ elim (last_write writes es key) [ none ↦ lookup key (field h) | some v ↦ some v ]
    unfolding index
    lookup-index [] h key = refl
    lookup-index (e ∷ es) h key = ground (
      arith,
      lookup-index es (index_event e h) key,
      step e h,
      lookup-put (writes e) (field h) key,
    )

-- What an event writes into each index, by its type.
abbrev pub output_of : EventType → Event → Option (String × RawMessage)
output_of step_completed e =
    if e.step_name == ""
    then none
    else elim e.output [ nil ↦ none | other ↦ some (e.step_name, other) ]
output_of _ e = none

abbrev pub fatal_error_of : EventType → Event → Option (String × Error)
fatal_error_of step_failed e =
    if e.step_name == ""
    then none
    else on_read (unmarshal e.payload)
        (λ (d : StepFailedData). if d.will_retry then none else some (e.step_name, new d.error))
        none
fatal_error_of _ e = none

abbrev pub branch_of : EventType → Event → Option (String × String)
branch_of branch_evaluated e =
    on_read (unmarshal e.payload) (λ (d : BranchEvaluatedData). some (d.branch_name, d.choice)) none
branch_of _ e = none

abbrev pub map_result_of : EventType → Event → Option (ℕ × RawMessage)
map_result_of map_completed e =
    on_read (unmarshal e.payload) (λ (d : MapCompletedData). some (d.map_index, d.results)) none
map_result_of _ e = none

abbrev pub map_error_of : EventType → Event → Option (ℕ × MapError)
map_error_of map_failed e =
    on_read (unmarshal e.payload)
      (λ (d : MapFailedData).
        some (d.map_index, record { failed_index = d.failed_index; error = d.error }))
      none
map_error_of _ e = none

abbrev pub child_output_of : EventType → Event → Option (String × RawMessage)
child_output_of child_completed e =
    on_read (unmarshal e.payload) (λ (d : ChildCompletedData). some (d.child_run_id, d.output)) none
child_output_of _ e = none

abbrev pub child_error_of : EventType → Event → Option (String × String)
child_error_of child_failed e =
    on_read (unmarshal e.payload) (λ (d : ChildFailedData). some (d.child_run_id, d.error)) none
child_error_of _ e = none

-- ===== src/Workflow/History/Writes.antt =====
-- workflow/history.go: each index of a history holds, under each key, the last value that an event
-- of the history wrote there.
use skene.Prelude.{ℕ, String, ◌≡◌, List, lookup, arith, if◌then◌else◌, string_key, nat_key, ltb}
use skene.Event.{Event, EventType, workflow_started}
use skene.Event.Data.{
  step_failed_codec, branch_evaluated_codec, map_completed_codec, map_failed_codec,
  child_completed_codec, child_failed_codec,
}
use skene.Workflow.History.{
  History, index_type, index_event, new_history, empty_history, get_output, get_fatal_error,
  get_branch_choice, get_map_results, get_map_error, get_child_output, get_child_error,
}
use skene.Workflow.History.LastWrite.{
  put, lookup-index, last_write, output_of, fatal_error_of, branch_of, map_result_of, map_error_of,
  child_output_of, child_error_of,
}

outputs-index_type :
    (t : EventType) (e : Event) (h : History)
    → (index_type t e h).outputs ≡ put (output_of t e) h.outputs
unfolding index_type
outputs-index_type workflow_started e h = ground arith
outputs-index_type _ e h = ground arith

fatal_errors-index_type :
    (t : EventType) (e : Event) (h : History)
    → (index_type t e h).fatal_errors ≡ put (fatal_error_of t e) h.fatal_errors
unfolding index_type
fatal_errors-index_type workflow_started e h = ground arith
fatal_errors-index_type _ e h = ground arith

branches-index_type :
    (t : EventType) (e : Event) (h : History)
    → (index_type t e h).branches ≡ put (branch_of t e) h.branches
unfolding index_type
branches-index_type workflow_started e h = ground arith
branches-index_type _ e h = ground arith

map_results-index_type :
    (t : EventType) (e : Event) (h : History)
    → (index_type t e h).map_results ≡ put (map_result_of t e) h.map_results
unfolding index_type
map_results-index_type workflow_started e h = ground arith
map_results-index_type _ e h = ground arith

map_errors-index_type :
    (t : EventType) (e : Event) (h : History)
    → (index_type t e h).map_errors ≡ put (map_error_of t e) h.map_errors
unfolding index_type
map_errors-index_type workflow_started e h = ground arith
map_errors-index_type _ e h = ground arith

child_outputs-index_type :
    (t : EventType) (e : Event) (h : History)
    → (index_type t e h).child_outputs ≡ put (child_output_of t e) h.child_outputs
unfolding index_type
child_outputs-index_type workflow_started e h = ground arith
child_outputs-index_type _ e h = ground arith

child_errors-index_type :
    (t : EventType) (e : Event) (h : History)
    → (index_type t e h).child_errors ≡ put (child_error_of t e) h.child_errors
unfolding index_type
child_errors-index_type workflow_started e h = ground arith
child_errors-index_type _ e h = ground arith

abbrev advance : Event → History → History
advance e h = if ltb h.last_sequence e.sequence then record h { last_sequence = e.sequence } else h

outputs-index_event :
    (e : Event) (h : History) → (index_event e h).outputs ≡ put (output_of e.type e) h.outputs
unfolding index_event
outputs-index_event e h = ground (arith, outputs-index_type e.type e (advance e h))

-- What `get_output` finds in a history is the last value that an event of the history wrote under the
-- name.
pub get_output-eq-last_write :
    (run_id : String) (es : List Event) (key : String)
    → get_output (new_history run_id es) key ≡ last_write (λ e. output_of e.type e) es key
unfolding new_history lookup
get_output-eq-last_write run_id es key = ground (
  arith,
  lookup-index (λ h. h.outputs) (λ e. output_of e.type e) outputs-index_event es
      (empty_history run_id es) key,
)

fatal_errors-index_event :
    (e : Event) (h : History)
    → (index_event e h).fatal_errors ≡ put (fatal_error_of e.type e) h.fatal_errors
unfolding index_event
fatal_errors-index_event e h = ground (arith, fatal_errors-index_type e.type e (advance e h))

-- What `get_fatal_error` finds in a history is the last value that an event of the history wrote under the
-- name.
pub get_fatal_error-eq-last_write :
    (run_id : String) (es : List Event) (key : String)
    → get_fatal_error (new_history run_id es) key ≡ last_write (λ e. fatal_error_of e.type e) es key
unfolding new_history lookup
get_fatal_error-eq-last_write run_id es key = ground (
  arith,
  lookup-index (λ h. h.fatal_errors) (λ e. fatal_error_of e.type e) fatal_errors-index_event es
      (empty_history run_id es) key,
)

branches-index_event :
    (e : Event) (h : History) → (index_event e h).branches ≡ put (branch_of e.type e) h.branches
unfolding index_event
branches-index_event e h = ground (arith, branches-index_type e.type e (advance e h))

-- What `get_branch_choice` finds in a history is the last value that an event of the history wrote under the
-- name.
pub get_branch_choice-eq-last_write :
    (run_id : String) (es : List Event) (key : String)
    → get_branch_choice (new_history run_id es) key ≡ last_write (λ e. branch_of e.type e) es key
unfolding new_history lookup
get_branch_choice-eq-last_write run_id es key = ground (
  arith,
  lookup-index (λ h. h.branches) (λ e. branch_of e.type e) branches-index_event es
      (empty_history run_id es) key,
)

map_results-index_event :
    (e : Event) (h : History)
    → (index_event e h).map_results ≡ put (map_result_of e.type e) h.map_results
unfolding index_event
map_results-index_event e h = ground (arith, map_results-index_type e.type e (advance e h))

-- What `get_map_results` finds in a history is the last value that an event of the history wrote under the
-- name.
pub get_map_results-eq-last_write :
    (run_id : String) (es : List Event) (key : ℕ)
    → get_map_results (new_history run_id es) key ≡ last_write (λ e. map_result_of e.type e) es key
unfolding new_history lookup
get_map_results-eq-last_write run_id es key = ground (
  arith,
  lookup-index (λ h. h.map_results) (λ e. map_result_of e.type e) map_results-index_event es
      (empty_history run_id es) key,
)

map_errors-index_event :
    (e : Event) (h : History)
    → (index_event e h).map_errors ≡ put (map_error_of e.type e) h.map_errors
unfolding index_event
map_errors-index_event e h = ground (arith, map_errors-index_type e.type e (advance e h))

-- What `get_map_error` finds in a history is the last value that an event of the history wrote under the
-- name.
pub get_map_error-eq-last_write :
    (run_id : String) (es : List Event) (key : ℕ)
    → get_map_error (new_history run_id es) key ≡ last_write (λ e. map_error_of e.type e) es key
unfolding new_history lookup
get_map_error-eq-last_write run_id es key = ground (
  arith,
  lookup-index (λ h. h.map_errors) (λ e. map_error_of e.type e) map_errors-index_event es
      (empty_history run_id es) key,
)

child_outputs-index_event :
    (e : Event) (h : History)
    → (index_event e h).child_outputs ≡ put (child_output_of e.type e) h.child_outputs
unfolding index_event
child_outputs-index_event e h = ground (arith, child_outputs-index_type e.type e (advance e h))

-- What `get_child_output` finds in a history is the last value that an event of the history wrote under the
-- name.
pub get_child_output-eq-last_write :
    (run_id : String) (es : List Event) (key : String)
    → get_child_output (new_history run_id es) key
      ≡ last_write (λ e. child_output_of e.type e) es key
unfolding new_history lookup
get_child_output-eq-last_write run_id es key = ground (
  arith,
  lookup-index (λ h. h.child_outputs) (λ e. child_output_of e.type e) child_outputs-index_event es
      (empty_history run_id es) key,
)

child_errors-index_event :
    (e : Event) (h : History)
    → (index_event e h).child_errors ≡ put (child_error_of e.type e) h.child_errors
unfolding index_event
child_errors-index_event e h = ground (arith, child_errors-index_type e.type e (advance e h))

-- What `get_child_error` finds in a history is the last value that an event of the history wrote under the
-- name.
pub get_child_error-eq-last_write :
    (run_id : String) (es : List Event) (key : String)
    → get_child_error (new_history run_id es) key ≡ last_write (λ e. child_error_of e.type e) es key
unfolding new_history lookup
get_child_error-eq-last_write run_id es key = ground (
  arith,
  lookup-index (λ h. h.child_errors) (λ e. child_error_of e.type e) child_errors-index_event es
      (empty_history run_id es) key,
)

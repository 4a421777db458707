-- ===== src/Tests/Histories.antt =====
-- workflow/history.go: runs of the index, and its theorems at a concrete history.
use skene.Prelude.{◌≡◌, refl, none, some, lookup, insert, string_key, nat_key, true, false}
use skene.Event.Json.{str, num, doc, unmarshal, marshal_or_nil, marshal}
use skene.Event.Memory.{
  Store, new as new_store, append_batch, validate, run_sequences, add_events, add_event, run_events,
  get_last_sequence,
}
use skene.Workflow.Errors.{new}
use skene.Workflow.History.{
  new_history, index, index_event, index_type, get_output, get_fatal_error, get_signal_state,
}
use skene.Workflow.History.LastWrite.{last_write, output_of}
use skene.Workflow.History.Writes.{get_output-eq-last_write}
use skene.Workflow.History.Signals.{signal_steps, get_signal_state-eq-signal_steps}
use skene.Workflow.History.Flags.{flags-new_history, any, is_completion, is_cancellation}
use skene.Tests.Demo.{four_events}

fetched : get_output (new_history "run" four_events) "fetch" ≡ some (doc (str "red"))
unfolding new_history index index_event index_type lookup insert unmarshal marshal_or_nil marshal
fetched = refl

audit_failed : get_fatal_error (new_history "run" four_events) "audit" ≡ some (new "no route")
unfolding new_history index index_event index_type lookup insert unmarshal marshal_or_nil marshal
audit_failed = refl

approved :
    get_signal_state (new_history "run" four_events) "approve"
    ≡ some (record {
      waiting = true;
      received = true;
      timeout = false;
      payload = doc (num 3);
      timeout_at = 9;
    })
unfolding new_history index index_event index_type lookup insert unmarshal marshal_or_nil marshal
approved = refl

get_output-eq-last_write_example :
    get_output (new_history "run" four_events) "fetch"
    ≡ last_write (λ e. output_of e.type e) four_events "fetch"
get_output-eq-last_write_example = get_output-eq-last_write "run" four_events "fetch"

get_signal_state-eq-signal_steps_example :
    get_signal_state (new_history "run" four_events) "approve"
    ≡ signal_steps "approve" four_events none
get_signal_state-eq-signal_steps_example =
    get_signal_state-eq-signal_steps "run" four_events "approve"

flags-new_history_example :
    ((new_history "run" four_events).completed ≡ any (λ e. is_completion e.type) four_events)
    × ((new_history "run" four_events).cancelled ≡ any (λ e. is_cancellation e.type) four_events)
flags-new_history_example = flags-new_history "run" four_events

abbrev four_stored : Store
four_stored = (append_batch four_events new_store).1

four_last : get_last_sequence four_stored "run" ≡ 4
unfolding append_batch validate run_sequences add_events add_event run_events lookup insert
    get_last_sequence
four_last = refl

-- ===== src/River/Runner.antt =====
-- river/runner.go: the operations of the runner.
pub mod Worker
pub mod Reads
pub mod Signals
pub mod Cancels
pub mod Starts
use skene.Prelude.{
  ℕ, ◌+◌, String, Bool, true, false, not, ◌||◌, Option, none, some, List, [], ◌∷◌, if◌then◌else◌,
  ◌==◌, string_key, ltb, length, nat_eq,
}
use skene.Event.{
  Event, EventType, zero_event, workflow_started, workflow_cancelled, signal_received,
}
use skene.Event.Json.{RawMessage, marshal, unmarshal}
use skene.Event.Data.{
  WorkflowStartedData, WorkflowCancelledData, SignalReceivedData, started_codec, cancelled_codec,
  signal_received_codec,
}
use skene.Workflow.Step.{WorkflowDef}
use skene.Workflow.History.{History, SignalState, new_history, get_signal_state}
use skene.River.Errors.{
  RunnerError, runner_not_started, runner_already_started, run_not_found, invalid_run_status,
  signal_not_waiting, signal_timed_out, unmarshallable, from_registry, wrapped, Outcome, ok, err,
}
use skene.River.Registry.{Registry, Reply, found, failed, get as get_workflow}
use skene.River.Types.{Run, StartOptions, build_run}
use skene.River.World.{
  EventStore, Job, JobArgs, workflow_job, World, Host, Action, ◌>>=◌, ◌>>◌, pure, raise, or_raise,
  call, fresh_id, clock, load_events, append_event, insert_job, transaction, within,
}

-- The event that an operation writes.
abbrev pub event_of : String → String → ℕ → EventType → RawMessage → ℕ → Event
event_of id run_id sequence type payload timestamp = record zero_event {
  id = id;
  run_id = run_id;
  sequence = sequence;
  version = 1;
  type = type;
  payload = payload;
  timestamp = timestamp;
}

-- The name and the version of the first workflow.started event, or two empty texts.
abbrev pub or_unnamed : Option WorkflowStartedData → String × String
or_unnamed none = ("", "")
or_unnamed (some d) = (d.workflow_name, d.version)

abbrev pub is_started : EventType → Bool
is_started workflow_started = true
is_started _ = false

unfoldable pub workflow_of : List Event → String × String
workflow_of [] = ("", "")
workflow_of (e ∷ es) =
    let rest = workflow_of es in
    if is_started e.type then or_unnamed (unmarshal e.payload) else rest

-- A job that resumes a run: `InsertTx` is given no options, and River does not see those that
-- `InsertOpts` of the arguments returns, since their type is not River's.
abbrev pub resume_job : String → String × String → Job
resume_job run_id w = record {
  args = workflow_job run_id w.0 w.1;
  max_attempts = 0;
  priority = 0;
  scheduled_at = 0;
}

unfoldable pub require : {S : Type 0} → RunnerError → Bool → Action S (Unit {0})
require e b w = if b then (ok tt, w) else (err e, w)

-- `r.started` under the lock
unfoldable pub check_started : {S : Type 0} → Action S (Unit {0})
unfolding require
check_started w = require runner_not_started w.started w

unfoldable pub from_reply : {S A : Type 0} → Reply A → Action S A
from_reply (found a) = pure a
from_reply (failed e) = raise (from_registry e)

abbrev pub is_empty : List Event → Bool
is_empty [] = true
is_empty (e ∷ es) = false

module _ (host : Host) where
  module _ {S : Type 0} where
    -- `Start`. With no workers the client only inserts jobs, and is not started.
    unfoldable pub start : Action S (Unit {0})
    start w =
        if w.started
        then (err runner_already_started, w)
        else ((do
          within
              (if nat_eq host.workers 0
                then "create insert-only river client"
                else "create river client")
              (call host)
          if nat_eq host.workers 0 then pure tt else within "start river client" (call host)
          λ w'. (ok tt, record w' { started = true }))
            w)

    -- `Stop`. An error of the client is only logged.
    unfoldable pub stop : Action S (Unit {0})
    stop w = if w.started then (ok tt, record w { started = false }) else (ok tt, w)

  module _ (E : EventStore) where
    -- `StartWorkflowTx`
    unfoldable pub start_workflow_tx : String → RawMessage → StartOptions → Action E.S String
    start_workflow_tx name input opts = do
      check_started
      def ← from_reply (get_workflow name host.registry)
      run_id ← if opts.run_id == "" then fresh_id host else pure opts.run_id
      let body : WorkflowStartedData = record {
        workflow_name = name;
        version = def.version;
        input = input;
      }
      payload ← or_raise (wrapped "marshal started data" unmarshallable) (marshal body)
      id ← fresh_id host
      now ← clock host
      within "append started event"
          (append_event host E (event_of id run_id 1 workflow_started payload now))
      within "insert workflow job" (
          insert_job host E (record {
            args = workflow_job run_id name def.version;
            max_attempts = 3;
            priority = opts.priority;
            scheduled_at = 0;
          }))
      pure run_id

    -- `StartWorkflow`
    unfoldable pub start_workflow : String → RawMessage → Action E.S String
    unfolding start_workflow_tx
    start_workflow name input = do
      check_started
      transaction host E (wrapped "commit transaction") (do
        run_id ← start_workflow_tx name input (record { run_id = ""; priority = 0 })
        pure (true, run_id))

    -- The part of `SendSignal` after its checks
    abbrev pub receive : String → String → RawMessage → List Event → Action E.S (Unit {0})
    receive run_id signal_name payload events =
        transaction host E (wrapped "commit transaction") (do
          let body : SignalReceivedData = record { signal_name = signal_name; payload = payload }
          raw ← or_raise (wrapped "marshal signal received data" unmarshallable) (marshal body)
          id ← fresh_id host
          now ← clock host
          within "append signal received event" (
              append_event host E (
                event_of id run_id ((new_history run_id events).last_sequence + 1) signal_received
                  raw now))
          within "insert resume job" (insert_job host E (resume_job run_id (workflow_of events)))
          pure (true, tt))

    abbrev pub send_to :
        String → String → RawMessage → List Event → Option SignalState → Action E.S (Unit {0})
    send_to run_id signal_name payload events none = raise signal_not_waiting
    send_to run_id signal_name payload events (some state) =
        if not state.waiting
        then raise signal_not_waiting
        else if state.received
        then pure tt
        else if state.timeout
        then raise (signal_timed_out signal_name)
        else receive run_id signal_name payload events

    -- `SendSignal`
    unfoldable pub send_signal : String → String → RawMessage → Action E.S (Unit {0})
    unfolding workflow_of
    send_signal run_id signal_name payload = do
      check_started
      events ← load_events host E run_id
      require run_not_found (not (is_empty events))
      send_to run_id signal_name payload events
          (get_signal_state (new_history run_id events) signal_name)

    -- The part of `CancelWorkflow` after its checks
    abbrev pub cancel_run : String → String → ℕ → Action E.S (Unit {0})
    cancel_run run_id reason last_sequence = transaction host E (wrapped "commit transaction") (do
      let body : WorkflowCancelledData = record { reason = reason }
      raw ← or_raise (wrapped "marshal cancelled data" unmarshallable) (marshal body)
      id ← fresh_id host
      now ← clock host
      within "append cancelled event"
          (append_event host E (event_of id run_id (last_sequence + 1) workflow_cancelled raw now))
      pure (true, tt))

    abbrev pub cancel_history : String → String → History → Action E.S (Unit {0})
    cancel_history run_id reason history =
        if history.cancelled
        then pure tt
        else if history.completed
        then raise invalid_run_status
        else cancel_run run_id reason history.last_sequence

    -- `CancelWorkflow`
    unfoldable pub cancel_workflow : String → String → Action E.S (Unit {0})
    cancel_workflow run_id reason = do
      check_started
      events ← load_events host E run_id
      require run_not_found (not (is_empty events))
      cancel_history run_id reason (new_history run_id events)

    -- `GetHistory`
    unfoldable pub get_history : String → Action E.S (List Event)
    get_history run_id = do
      events ← load_events host E run_id
      require run_not_found (not (is_empty events))
      pure events

    -- `GetRun`
    unfoldable pub get_run : String → Action E.S Run
    unfolding get_history build_run
    get_run run_id = do events ← get_history run_id; pure (build_run run_id events)

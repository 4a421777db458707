-- ===== src/River/Runner/Worker.antt =====
-- river/workers.go: what the workers do with the three kinds of jobs.
use skene.Prelude.{
  ℕ, ◌+◌, String, Bool, true, false, Option, none, some, List, [], ◌∷◌, if◌then◌else◌,
}
use skene.Event.{Event, workflow_failed, signal_timeout}
use skene.Event.Json.{RawMessage, nil, malformed, doc, marshal}
use skene.Event.Data.{WorkflowFailedData, SignalTimeoutData, failed_codec, signal_timeout_codec}
use skene.Workflow.Errors.{Error, error_text}
use skene.Workflow.Step.{Value, no_value, opaque_value, json_value, WorkflowDef}
use skene.Workflow.History.{History, SignalState, new_history, get_signal_state}
use skene.Workflow.Replayer.{Env, WaitingSignal, new_replayer}
use skene.Workflow.Replay.{
  ReplayResult, ReplayOutput, Replayed, returned, broken, replay, completed, waiting, failed,
  suspended,
}
use skene.River.Errors.{unmarshallable, from_workflow, from_registry, wrapped, out_of_fuel}
use skene.River.Registry.{get as get_workflow, Reply}
use skene.River.Types.{StartOptions}
use skene.River.World.{
  EventStore, signal_timeout_job, Host, Action, ◌>>=◌, ◌>>◌, pure, raise, or_raise, tick, fresh_id,
  clock, load_events, append_event, append_events, insert_job, transaction, within,
}
use skene.River.Runner.{event_of, workflow_of, resume_job, start_workflow_tx}

-- `var workflowInput any`: the input of the history, if it has one.
abbrev pub input_value : RawMessage → Value
input_value nil = no_value
input_value malformed = opaque_value
input_value (doc j) = json_value j

-- The error of an output: a failed replay has one.
abbrev pub error_or_empty : Option Error → String
error_or_empty none = ""
error_or_empty (some e) = error_text e

unfoldable pub workflow_or_raise : {S : Type 0} → Reply WorkflowDef → Action S WorkflowDef
workflow_or_raise (Reply.found def) = pure def
workflow_or_raise (Reply.failed e) = raise (wrapped "get workflow definition" (from_registry e))

-- The result of a replay, and its error.
unfoldable pub replayed_or_raise : {S : Type 0} → Replayed → Action S ReplayOutput
replayed_or_raise (returned o) = pure o
replayed_or_raise (broken e) = raise (wrapped "replay" (from_workflow e))
replayed_or_raise Replayed.out_of_fuel = raise out_of_fuel

module _ (host : Host) where
  -- The replay of a job: the count of calls names what the world answers in it.
  abbrev pub replay_env : String → WorkflowDef → History → ℕ → Env
  replay_env run_id def history call = record {
    workflow = def;
    run_id = run_id;
    input = input_value history.workflow_input;
    new_id = host.replay_id call;
    now = host.now;
    context_err = host.context_err call;
    schedule = host.schedule call;
  }

  -- `replayer.Replay(ctx)`
  unfoldable pub replay_job : {S : Type 0} → String → WorkflowDef → History → Action S ReplayOutput
  unfolding replayed_or_raise
  replay_job run_id def history w =
      replayed_or_raise (replay (replay_env run_id def history w.calls) (new_replayer history)).0
        (tick w)

  module _ (E : EventStore) where
    -- `if len(output.NewEvents) > 0`
    abbrev pub append_new : List Event → Action E.S (Unit {0})
    append_new [] = pure tt
    append_new (e ∷ es) = within "append events" (append_events host E (e ∷ es))

    -- `emitWorkflowFailed`
    unfoldable pub emit_workflow_failed : String → ℕ → Option Error → Action E.S (Unit {0})
    emit_workflow_failed run_id sequence error = within "emit workflow failed" (do
      let body : WorkflowFailedData = record { error = error_or_empty error }
      raw ← or_raise (wrapped "marshal failed data" unmarshallable) (marshal body)
      id ← fresh_id host
      now ← clock host
      append_event host E (event_of id run_id sequence workflow_failed raw now))

    -- `scheduleSignalTimeout`, for each signal
    unfoldable pub schedule_timeouts : String → List WaitingSignal → Action E.S (Unit {0})
    schedule_timeouts run_id [] = pure tt
    schedule_timeouts run_id (s ∷ signals) = do
      within "schedule signal timeout" (
          insert_job host E (record {
            args = signal_timeout_job run_id s.signal_name;
            max_attempts = 0;
            priority = 0;
            scheduled_at = s.timeout_at;
          }))
      schedule_timeouts run_id signals

    -- `switch output.Result`
    abbrev pub follow_up :
        String → String × String → ReplayResult → ReplayOutput → Action E.S (Unit {0})
    follow_up run_id w completed o = pure tt
    follow_up run_id w failed o = emit_workflow_failed run_id o.next_sequence o.error
    follow_up run_id w waiting o = schedule_timeouts run_id o.waiting_for_signals
    follow_up run_id w suspended o =
        within "insert next job" (insert_job host E (resume_job run_id w))

    -- The part of `Work` that replays the run.
    abbrev pub go_on : String → String × String → History → Action E.S (Bool × Unit {0})
    go_on run_id w history = do
      def ← workflow_or_raise (get_workflow w.0 host.registry)
      o ← replay_job run_id def history
      append_new o.new_events
      follow_up run_id w o.result o
      pure (true, tt)

    abbrev pub go_on_unless_ended :
        String → String × String → History → Action E.S (Bool × Unit {0})
    go_on_unless_ended run_id w history =
        if history.cancelled
        then pure (false, tt)
        else if history.completed
        then pure (false, tt)
        else go_on run_id w history

    -- `Work` of the workflowWorker. Its registry is asked for the name, and not for the version.
    unfoldable pub work : String → String → String → Action E.S (Unit {0})
    unfolding replay_job emit_workflow_failed schedule_timeouts
    work run_id workflow_name version =
        transaction host E (λ e. e)
          (do
            events ← load_events host E run_id
            go_on_unless_ended run_id (workflow_name, version) (new_history run_id events))

    -- The part of `Work` of the signalTimeoutWorker after its checks
    abbrev pub expire : String → String → List Event → Action E.S (Unit {0})
    expire run_id signal_name events = transaction host E (wrapped "commit") (do
      let body : SignalTimeoutData = record { signal_name = signal_name }
      raw ← or_raise (wrapped "marshal timeout data" unmarshallable) (marshal body)
      id ← fresh_id host
      now ← clock host
      within "append timeout event" (
          append_event host E (
            event_of id run_id ((new_history run_id events).last_sequence + 1) signal_timeout raw
              now))
      within "insert resume job" (insert_job host E (resume_job run_id (workflow_of events)))
      pure (true, tt))

    abbrev pub expire_state :
        String → String → List Event → Option SignalState → Action E.S (Unit {0})
    expire_state run_id signal_name events none = pure tt
    expire_state run_id signal_name events (some state) =
        if state.received
        then pure tt
        else if state.timeout
        then pure tt
        else expire run_id signal_name events

    -- `Work` of the signalTimeoutWorker
    unfoldable pub time_out : String → String → Action E.S (Unit {0})
    unfolding workflow_of
    time_out run_id signal_name = do
      events ← load_events host E run_id
      expire_state run_id signal_name events
          (get_signal_state (new_history run_id events) signal_name)

    -- `Work` of the scheduledStartWorker
    unfoldable pub scheduled_start : String → RawMessage → StartOptions → Action E.S (Unit {0})
    unfolding start_workflow_tx
    scheduled_start workflow_name input opts = transaction host E (wrapped "commit transaction") (do
      run_id ← within "start workflow" (start_workflow_tx host E workflow_name input opts)
      pure (true, tt))

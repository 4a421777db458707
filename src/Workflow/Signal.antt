-- ===== src/Workflow/Signal.antt =====
-- workflow/signal.go, and the calls that user code makes of its context.
use skene.Prelude.{ℕ, ◌+◌, String, Option, none, some, if◌then◌else◌}
use skene.Event.Json.{RawMessage}
use skene.Workflow.Errors.{replay_waiting, signal_wait, Result, ok}
use skene.Workflow.History.{SignalState, get_signal_state}
use skene.Workflow.Step.{
  Body, return, get_output, wait_for_signal as wait_for_signal_call, next_child, next_map,
  read_history, read_error, record_event,
}
use skene.Workflow.Records.{record_in_step, count_child, count_map}
use skene.Workflow.Thread.{Thread, done, act, ◌>>=◌, ◌>>◌, get, modify}
use skene.Workflow.Replayer.{
  Env, Replayer, record_signal_waiting, add_waiting_signal, context_output, context_error, look,
}

module _ (env : Env) where
  -- `WaitForSignal`, the first time: the wait is recorded.
  abbrev pub first_wait : String → ℕ → Thread Replayer (Result RawMessage)
  first_wait signal_name timeout = do
    r ← get
    modify (look env)
    modify (record_signal_waiting env signal_name (env.now r.looks + timeout))
    modify (add_waiting_signal env signal_name (env.now r.looks + timeout))
    done (Result.err replay_waiting)

  -- `WaitForSignal`, with the state of the signal that the history has
  abbrev pub wait_on : String → ℕ → Option SignalState → Thread Replayer (Result RawMessage)
  wait_on signal_name timeout none = first_wait signal_name timeout
  wait_on signal_name timeout (some state) =
      if state.received
      then done (ok state.payload)
      else if state.timeout
      then done (Result.err (signal_wait signal_name "timeout"))
      else if state.waiting
      then (do
        modify (add_waiting_signal env signal_name state.timeout_at)
        done (Result.err replay_waiting))
      else first_wait signal_name timeout

  unfoldable pub wait_for_signal : String → ℕ → Thread Replayer (Result RawMessage)
  wait_for_signal signal_name timeout = do
    r ← get
    wait_on signal_name timeout (get_signal_state r.history signal_name)

  -- User code, with what its calls of the context do.
  unfoldable pub perform : {A : Type 0} → Body A → Thread Replayer A
  unfolding wait_for_signal record_in_step
  perform (return a) = done a
  perform (next_child k) = act count_child (λ r. perform (k r.child_counter))
  perform (next_map k) = act count_map (λ r. perform (k r.map_counter))
  perform (read_history k) = act (λ r. r) (λ r. perform (k r.history))
  perform (read_error k) = act (look env) (λ r. perform (k (context_error env r)))
  perform (record_event e b) = act (record_in_step env e) (λ r. perform b)
  perform (get_output step_name k) =
      act (λ r. r) (λ r. perform (k (context_output env r step_name)))
  perform (wait_for_signal_call signal_name timeout k) =
      wait_for_signal signal_name timeout >>= λ result. perform (k result)

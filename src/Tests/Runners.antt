-- ===== src/Tests/Runners.antt =====
-- river/runner.go, river/workers.go: a run that is started, worked on and signalled, and the theorems on
-- the runner at it.
use skene.Prelude.{
  ℕ, ◌≡◌, refl, true, Option, none, some, [], ◌∷◌, ◌+◌, ◌*◌, if◌then◌else◌, lookup, insert,
  string_key, nat_eq,
}
use skene.Event.Json.{doc, str, marshal, marshal_or_nil}
use skene.Event.Memory.{
  append, append_batch, validate, run_sequences, add_events, add_event, run_events,
}
use skene.Workflow.Errors.{Error, new as error}
use skene.River.Errors.{ok, err, wrapped, from_workflow}
use skene.River.Registry.{new_registry, register, get}
use skene.River.World.{
  World, Host, ◌>>=◌, pure, or_raise, within, call, fresh_id, clock, transaction, append_event,
  insert_job,
}
use skene.River.Runner.{
  event_of, start, start_workflow, start_workflow_tx, require, check_started, from_reply,
}
use skene.Prelude.{false}
use skene.River.World.Memory.{memory_store}
use skene.Event.{Event, signal_waiting}
use skene.Event.Data.{
  SignalWaitingData, signal_waiting_codec, signal_received_codec, cancelled_codec, started_codec,
}
use skene.River.Runner.Starts.{Started, start_workflow-Started}
use skene.Tests.Demo.{workflow, tally}
use skene.Event.Memory as Memory

-- The database refuses one call.
abbrev refused : ℕ → ℕ → Option Error
refused n k = if nat_eq n k then some (error "connection reset") else none

abbrev host : ℕ → Host
host refusal = record {
  registry = register workflow new_registry;
  workers = 4;
  fails = refused refusal;
  commits = λ n. false;
  new_id = tally;
  now = λ n. n;
  replay_id = λ call n. tally (1000 * (call + 1) + n);
  context_err = λ call n. none;
  schedule = λ call n. [];
}

abbrev empty_world : World Memory.Store
empty_world = record { store = Memory.new; jobs = []; started = false; calls = 0 }

abbrev ready : ℕ → World Memory.Store
unfolding start
ready refusal = (start (host refusal) empty_world).1

-- The commit is refused.
commit_refused :
    (start_workflow (host 8) (memory_store true) "demo" (doc (str "input")) (ready 8)).0
    ≡ err (wrapped "commit transaction" (from_workflow (error "connection reset")))
unfolding start start_workflow start_workflow_tx ◌>>=◌ pure or_raise within call fresh_id clock
    transaction append_event insert_job require check_started from_reply get register lookup insert
    append_batch validate run_sequences add_events add_event run_events marshal
commit_refused = refl

start_workflow_ok :
    (start_workflow (host 100) (memory_store true) "demo" (doc (str "input")) (ready 100)).0
    ≡ ok "xxx"
unfolding start start_workflow start_workflow_tx ◌>>=◌ pure or_raise within call fresh_id clock
    transaction append_event insert_job require check_started from_reply get register lookup insert
    append_batch validate run_sequences add_events add_event run_events marshal
start_workflow_ok = refl

start_workflow-Started_example :
    Started
      (host 100)
      "demo"
      (doc (str "input"))
      (ready 100).jobs
      "xxx"
      (start_workflow (host 100) (memory_store true) "demo" (doc (str "input")) (ready 100)).1.store
      (start_workflow (host 100) (memory_store true) "demo" (doc (str "input")) (ready 100)).1.jobs
start_workflow-Started_example =
    start_workflow-Started (host 100) true "demo" (doc (str "input")) (ready 100) "xxx"
      start_workflow_ok

-- A run that waits for a signal.
abbrev approval : Event
approval =
    event_of "a" "run" 1 signal_waiting
      (marshal_or_nil {A = SignalWaitingData} (record { signal_name = "approve"; timeout_at = 50 }))
      0

abbrev waiting_world : World Memory.Store
waiting_world = record {
  store = (append_batch (approval ∷ []) Memory.new).1;
  jobs = [];
  started = true;
  calls = 0;
}

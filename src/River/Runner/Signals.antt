-- ===== src/River/Runner/Signals.antt =====
-- river/runner.go, river/workers.go over event/memory/store.go: what has happened to a signal and to the
-- queue when `SendSignal`, or the worker of signal timeouts, has returned no error.
use skene.Prelude.{
  ◌≡◌, String, Bool, true, Option, none, some, List, [], ◌∷◌, ◌++◌, eq_refl, ◌⊎◌, arith,
}
use skene.Event.{Event}
use skene.Event.Json.{RawMessage, unmarshal}
use skene.Event.Data.{SignalReceivedData, signal_received_codec, signal_timeout_codec}
use skene.Event.Memory.{Store, load, append, append_batch}
use skene.Event.Memory.Reads.{load-append, load-append_batch}
use skene.Workflow.History.{SignalState, new_history, get_signal_state}
use skene.River.World.{World, Host, Job}
use skene.River.World.Ensures.{Ensures}
use skene.River.Runner.{resume_job, workflow_of}

-- The history of a run says that a signal has been received.
pub record Received (run_id name : String) (s : Store) : Type 0 where
  pub state : SignalState
  pub found : get_signal_state (new_history run_id (load s run_id)) name ≡ some state
  pub received : state.received ≡ true

-- A store to which an append of one event has succeeded.
pub load-one :
    (e : Event) (s : Store)
    → (append e s).0 ≡ none
    → load (append e s).1 e.run_id ≡ load s e.run_id ++ e ∷ []
load-one e s h = ground (arith, load-append e s e.run_id, eq_refl e.run_id)

pub load-batch_of_one :
    (e : Event) (s : Store)
    → (append_batch (e ∷ []) s).0 ≡ none
    → load (append_batch (e ∷ []) s).1 e.run_id ≡ load s e.run_id ++ e ∷ []
load-batch_of_one e s h = ground (arith, load-append_batch (e ∷ []) s e.run_id, eq_refl e.run_id)

-- What was written of a received signal has its name.
abbrev NamesSignal : String → Option RawMessage → Type 0
NamesSignal name none = Unit
NamesSignal name (some raw) =
    (d : SignalReceivedData) × (unmarshal raw ≡ some d) × (d.signal_name ≡ name)

module _ (host : Host) (t : Bool) (run_id name : String) (payload : RawMessage) (s0 : Store)
    (jobs0 : List Job) where
  -- Nothing was done.
  abbrev pub Unchanged : Store → List Job → Type 0
  Unchanged s jobs = (s ≡ s0) × (jobs ≡ jobs0)

  -- The signal is received, and what was done is nothing, or a job to resume the run is there too.
  abbrev pub Resumed : Store → List Job → Type 0
  Resumed s jobs =
      Received run_id name s
      × (Unchanged s jobs ⊎ (jobs ≡ jobs0 ++ resume_job run_id (workflow_of (load s0 run_id)) ∷ []))

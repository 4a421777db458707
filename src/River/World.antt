-- ===== src/River/World.antt =====
-- What the runner stands on: an event store, a queue of jobs, and the transactions of a database.
pub mod Rules
pub mod Ensures
pub mod Memory
use skene.Prelude.{
  ℕ, ◌+◌, String, Bool, true, false, Option, none, some, List, [], ◌∷◌, ◌++◌, if◌then◌else◌,
}
use skene.Event.{Event}
use skene.Event.Json.{RawMessage}
use skene.Event.Store.{StoreError}
use skene.River.Errors.{RunnerError, from_store, from_workflow, wrapped, Outcome, ok, err}
use skene.River.Registry.{Registry}
use skene.Workflow.Errors.{Error}

-- `EventStore` of event/store.go. `transactional` tells whether it is a `TxEventStore` of
-- river/config.go too, which the runner tests for: one whose `AppendBatchTx` does what `AppendBatch`
-- does, but in a transaction. No store of the repository is one; the store is the caller's.
pub record EventStore : Type 1 where
  pub S : Type 0
  pub transactional : Bool
  pub append : Event → S → Option StoreError × S
  pub append_batch : List Event → S → Option StoreError × S
  pub load : S → String → List Event

-- The arguments of the three kinds of jobs, of river/jobs.go.
pub data JobArgs : Type 0 where
  workflow_job : (run_id workflow_name version : String) → JobArgs
  signal_timeout_job : (run_id signal_name : String) → JobArgs
  scheduled_start_job :
      (workflow_name : String) (input : RawMessage) (run_id : String) (priority : ℕ) → JobArgs

-- The job kinds
abbrev pub kind : JobArgs → String
kind (workflow_job _ _ _) = "skene.workflow"
kind (signal_timeout_job _ _) = "skene.signal_timeout"
kind (scheduled_start_job _ _ _ _) = "skene.scheduled_start"

-- `InsertOpts` of the three kinds: the number of attempts
abbrev pub insert_opts : JobArgs → ℕ
insert_opts _ = 3

-- A job in the queue. A number of attempts or a priority of 0 is River's default, a time
-- of 0 is at once.
pub record Job : Type 0 where
  pub args : JobArgs
  pub max_attempts : ℕ
  pub priority : ℕ
  pub scheduled_at : ℕ

-- What is kept: the event store, the jobs, and whether the runner is started. `calls` counts the calls
-- of the world.
pub record World (S : Type 0) : Type 0 where
  pub store : S
  pub jobs : List Job
  pub started : Bool
  pub calls : ℕ

-- What the world answers: the error of a call of the database or of the queue, whether a commit that
-- returns an error was made nevertheless (the connection may be lost after it), the ids of uuid.New,
-- the clock; and for the replay of a job the ids of its events, what its context tells, and the
-- schedules of its goroutines.
pub record Host : Type 0 where
  pub registry : Registry
  pub workers : ℕ
  pub fails : ℕ → Option Error
  pub commits : ℕ → Bool
  pub new_id : ℕ → String
  pub now : ℕ → ℕ
  pub replay_id : ℕ → ℕ → String
  pub context_err : ℕ → ℕ → Option Error
  pub schedule : ℕ → ℕ → List ℕ

-- An operation: it goes on from a world, and an error keeps what was done to the world before it.
abbrev pub Action : Type 0 → Type 0 → Type 0
Action S A = World S → Outcome A × World S

module _ {S A B : Type 0} where
  abbrev pub followed : (A → Action S B) → Outcome A × World S → Outcome B × World S
  followed k (ok a, w) = k a w
  followed k (err e, w) = (err e, w)

  infixl 5 ◌>>=◌ ◌>>◌
  unfoldable pub ◌>>=◌ : Action S A → (A → Action S B) → Action S B
  ◌>>=◌ m k w = followed k (m w)

  abbrev pub ◌>>◌ : Action S A → Action S B → Action S B
  m >> k = m >>= λ _. k

module _ {S A : Type 0} where
  unfoldable pub pure : A → Action S A
  pure a w = (ok a, w)

  unfoldable pub raise : RunnerError → Action S A
  raise e w = (err e, w)

  unfoldable pub or_raise : RunnerError → Option A → Action S A
  or_raise e none = raise e
  or_raise e (some a) = pure a

  abbrev pub wrap_error : String → Outcome A × World S → Outcome A × World S
  wrap_error text (ok a, w) = (ok a, w)
  wrap_error text (err e, w) = (err (wrapped text e), w)

  -- `fmt.Errorf("…: %w", err)` for the error of an action
  unfoldable pub within : String → Action S A → Action S A
  within text m w = wrap_error text (m w)

-- `calls` goes on by one.
abbrev pub tick : {S : Type 0} → World S → World S
tick w = record w { calls = w.calls + 1 }

module _ (host : Host) where
  module _ {S : Type 0} where
    -- A call that may fail.
    unfoldable pub call : Action S (Unit {0})
    call w = elim (host.fails w.calls) [
      | none ↦ (ok tt, tick w)
      | some e ↦ (err (from_workflow e), tick w)
    ]

    unfoldable pub fresh_id : Action S String
    fresh_id w = (ok (host.new_id w.calls), tick w)

    unfoldable pub clock : Action S ℕ
    clock w = (ok (host.now w.calls), tick w)

  module _ (E : EventStore) where
    open E use {S, transactional}

    -- `Load`, or `LoadTx`
    unfoldable pub load_events : String → Action S (List Event)
    load_events run_id = do within "load events" call; λ w. (ok (E.load w.store run_id), w)

    abbrev pub stored : Option StoreError × S → World S → Outcome (Unit {0}) × World S
    stored (none, s) w = (ok tt, record w { store = s })
    stored (some e, s) w = (err (from_store e), record w { store = s })

    -- `AppendBatchTx` of one event, or `Append`
    unfoldable pub append_event : Event → Action S (Unit {0})
    append_event e = do
      call
      λ w. stored (if transactional then E.append_batch (e ∷ []) w.store else E.append e w.store) w

    -- `AppendBatchTx` or `AppendBatch`
    unfoldable pub append_events : List Event → Action S (Unit {0})
    append_events es = do call; λ w. stored (E.append_batch es w.store) w

    -- `InsertTx`: a job is in the queue when the transaction commits.
    unfoldable pub insert_job : Job → Action S (Unit {0})
    insert_job job = do call; λ w. (ok tt, record w { jobs = w.jobs ++ job ∷ [] })

    -- What a rollback undoes: the jobs, and the events if the store took part in the transaction.
    abbrev pub roll_back : World S → World S → World S
    roll_back before after = record after {
      store = if transactional then before.store else after.store;
      jobs = before.jobs;
    }

    -- `pool.Begin`, a body that returns with or without a commit, and the deferred `Rollback`; `wrap` is
    -- what is said of an error of `Commit`.
    abbrev pub conclude :
        {A : Type 0}
        → (RunnerError → RunnerError)
        → World S
        → Outcome (Bool × A) × World S
        → Outcome A × World S
    conclude wrap before (err e, after) = (err e, roll_back before after)
    conclude wrap before (ok (false, a), after) = (ok a, roll_back before after)
    conclude wrap before (ok (true, a), after) = elim (host.fails after.calls) [
      | none ↦ (ok a, tick after)
      | some e ↦ (
        err (wrap (from_workflow e)),
        if host.commits after.calls then tick after else roll_back before (tick after),
      )
    ]

    unfoldable pub transaction :
        {A : Type 0} → (RunnerError → RunnerError) → Action S (Bool × A) → Action S A
    transaction wrap body = do within "begin transaction" call; λ w. conclude wrap w (body w)

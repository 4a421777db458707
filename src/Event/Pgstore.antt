-- ===== src/Event/Pgstore.antt =====
-- event/pgstore/store.go: the event store over PostgreSQL. A sequence is a number that counts the
-- events of a run, so `expectedSeq++` stays below 2 ^ 63.
pub mod Postgres
pub mod Errors
pub mod Checks
pub mod Duplicates
pub mod Agreement
pub mod Refinement
pub mod Batch
pub mod Constants
pub mod Loads
use skene.Prelude.{
  ℤ, pos, ◌⊎◌, inl, inr, ℕ, ◌+◌, String, Bool, true, false, Option, none, some, List, [], ◌∷◌, ◌++◌,
  map, Map, lookup, insert, string_key, nat_eq, if◌then◌else◌, ◌==◌,
}
use skene.Event.{
  Event, EventType, workflow_started, workflow_completed, workflow_failed, workflow_cancelled,
  step_started, step_completed, step_failed, branch_evaluated, signal_waiting, signal_received,
  signal_timeout, child_spawned, child_completed, child_failed, map_started, map_completed,
  map_failed, compensation_started, compensation_completed, compensation_failed, snapshot, other,
}
use skene.Event.Store.{StoreError, duplicate_event, sequence_conflict}
use Postgres.{Row, DbError, Answer, got, lost, Query, Database}
use Errors.{is_duplicate_key_error}

-- The texts of the constants of event/event.go
abbrev pub type_text : EventType → String
type_text workflow_started = "workflow.started"
type_text workflow_completed = "workflow.completed"
type_text workflow_failed = "workflow.failed"
type_text workflow_cancelled = "workflow.cancelled"
type_text step_started = "step.started"
type_text step_completed = "step.completed"
type_text step_failed = "step.failed"
type_text branch_evaluated = "branch.evaluated"
type_text signal_waiting = "signal.waiting"
type_text signal_received = "signal.received"
type_text signal_timeout = "signal.timeout"
type_text child_spawned = "child.spawned"
type_text child_completed = "child.completed"
type_text child_failed = "child.failed"
type_text map_started = "map.started"
type_text map_completed = "map.completed"
type_text map_failed = "map.failed"
type_text compensation_started = "compensation.started"
type_text compensation_completed = "compensation.completed"
type_text compensation_failed = "compensation.failed"
type_text snapshot = "snapshot"
type_text (other s) = s

-- The cases of `parseEventType`, in their order
abbrev pub known_types : List EventType
known_types =
    workflow_started ∷ workflow_completed ∷ workflow_failed ∷ workflow_cancelled ∷ step_started
    ∷ step_completed ∷ step_failed ∷ branch_evaluated ∷ signal_waiting ∷ signal_received
    ∷ signal_timeout ∷ child_spawned ∷ child_completed ∷ child_failed ∷ map_started ∷ map_completed
    ∷ map_failed ∷ compensation_started ∷ compensation_completed ∷ compensation_failed ∷ snapshot
    ∷ []

abbrev pub find_type : String → List EventType → EventType
find_type s [] = other s
find_type s (t ∷ ts) = if s == type_text t then t else find_type s ts

-- `parseEventType`
unfoldable pub parse_event_type : String → EventType
parse_event_type s = find_type s known_types

-- The arguments of the INSERT
abbrev pub columns : Event → Row
columns e = record {
  id = e.id;
  run_id = e.run_id;
  sequence = e.sequence;
  version = e.version;
  type = type_text e.type;
  step_name = some e.step_name;
  payload = e.payload;
  output = e.output;
  metadata = e.metadata;
  timestamp = e.timestamp;
}

abbrev pub or_no_name : Option String → String
or_no_name none = ""
or_no_name (some s) = s

-- The body of the loop in `loadEvents`
unfoldable pub scan : Row → Event
unfolding parse_event_type
scan x = record {
  id = x.id;
  run_id = x.run_id;
  sequence = x.sequence;
  version = x.version;
  type = parse_event_type x.type;
  step_name = or_no_name x.step_name;
  payload = x.payload;
  output = x.output;
  timestamp = x.timestamp;
  metadata = x.metadata;
}

-- The errors: of the events, of the database with the text that fmt.Errorf puts before it, and of
-- `Commit`.
pub data PgError : Type 0 where
  refused : StoreError → PgError
  wrapped : String → DbError → PgError
  commit_failed : DbError → PgError

-- What a `Tx` can be: a `pgx.Tx`, this package's wrapper (which embeds one), a type with a method `PgxTx`
-- or one with a method `Tx`, or any other.
pub data Tx (T : Type 0) : Type 0 where
  pgx_tx wrapper provider fielder : T → Tx T
  foreign : Tx T

-- `extractPgxTx`, and `none` for its error
abbrev pub extract_pgx_tx : {T : Type 0} → Tx T → Option T
extract_pgx_tx (pgx_tx t) = some t
extract_pgx_tx (wrapper t) = some t
extract_pgx_tx (provider t) = some t
extract_pgx_tx (fielder t) = some t
extract_pgx_tx foreign = none

-- `WrapTx`
abbrev pub wrap_tx : {T : Type 0} → T → Tx T
wrap_tx t = wrapper t

-- The error of a call within a transaction: it is none of pgx, or what the call met.
pub data TxError (E : Type 0) : Type 0 where
  not_a_tx : TxError E
  in_tx : E → TxError E

abbrev pub or_in_tx : {E : Type 0} → Option E → Option (TxError E)
or_in_tx none = none
or_in_tx (some e) = some (in_tx e)

-- `eventsByRun[runID]`, nil for a run that is not there
abbrev pub or_nil : Option (List Event) → List Event
or_nil none = []
or_nil (some es) = es

-- The loop that groups the events
unfoldable pub group_by_run : List Event → Map String (List Event) → Map String (List Event)
group_by_run [] m = m
group_by_run (e ∷ es) m = group_by_run es (insert e.run_id (or_nil (lookup e.run_id m) ++ e ∷ []) m)

-- The loop over the events of a run
unfoldable pub check_sequences : String → ℕ → List Event → Option StoreError
check_sequences run_id expected [] = none
check_sequences run_id expected (e ∷ es) =
    let rest = check_sequences run_id (expected + 1) es in
    if nat_eq e.sequence expected then rest else some (sequence_conflict run_id expected e.sequence)

abbrev pub or_refused : Option StoreError → Option PgError
or_refused none = none
or_refused (some e) = some (refused e)

module _ (db : Database) where
  -- `SELECT COALESCE(MAX(sequence), 0)`, and the check of the run's events
  abbrev pub check_run : String → List Event → db.T → Option PgError
  check_run run_id es t = elim (db.max_sequence run_id t) [
    | lost e ↦ some (wrapped "get last sequence" e)
    | got last ↦ or_refused (check_sequences run_id (last + 1) es)
  ]

  -- The loop over the runs
  unfoldable pub validate_runs : Map String (List Event) → db.T → Option PgError × db.T
  unfolding check_sequences
  validate_runs [] t = (none, t)
  validate_runs ((run_id, es) ∷ m) t =
      let (locked, t') = db.lock run_id t in
      let rest = validate_runs m t' in
      elim locked [
        | some e ↦ (some (wrapped "acquire advisory lock" e), t')
        | none ↦ elim (check_run run_id es t') [ some e ↦ (some e, t') | none ↦ rest ]
      ]

  abbrev pub insert_error : DbError → PgError
  insert_error e =
      if is_duplicate_key_error e then refused duplicate_event else wrapped "insert event" e

  -- The batch of INSERTs: the loop over its results
  unfoldable pub insert_events : List Event → db.T → Option PgError × db.T
  unfolding is_duplicate_key_error
  insert_events [] t = (none, t)
  insert_events (e ∷ es) t =
      let (error, t') = db.insert (columns e) t in
      let rest = insert_events es t' in
      elim error [ some x ↦ (some (insert_error x), t') | none ↦ rest ]

  module _ (range : Map String (List Event) → Map String (List Event)) where
    -- `appendBatchInTx`, with the order in which Go ranges over the runs
    unfoldable pub append_batch_in_tx : List Event → db.T → Option PgError × db.T
    unfolding group_by_run validate_runs insert_events
    append_batch_in_tx es t =
        let (error, t') = validate_runs (range (group_by_run es [])) t in
        elim error [ some e ↦ (some e, t') | none ↦ insert_events es t' ]

    -- `AppendBatchTx`: its error, and the transaction behind `tx` as it leaves it.
    unfoldable pub append_batch_tx : List Event → Tx db.T → Option (TxError PgError) × Option db.T
    unfolding append_batch_in_tx
    append_batch_tx [] tx = (none, extract_pgx_tx tx)
    append_batch_tx (e ∷ es) tx = elim (extract_pgx_tx tx) [
      | none ↦ (some not_a_tx, none)
      | some t ↦ let (error, t') = append_batch_in_tx (e ∷ es) t in (or_in_tx error, some t')
    ]

    abbrev pub commit_or_error : db.D → Option PgError × db.T → Option PgError × db.D
    commit_or_error d (some e, t) = (some e, d)
    commit_or_error d (none, t) = elim (db.commit t d).0 [
      | none ↦ (none, (db.commit t d).1)
      | some e ↦ (some (commit_failed e), (db.commit t d).1)
    ]

    -- `AppendBatch`
    unfoldable pub append_batch : List Event → db.D → Option PgError × db.D
    unfolding append_batch_in_tx
    append_batch [] d = (none, d)
    append_batch (e ∷ es) d = elim (db.begin d) [
      | lost x ↦ (some (wrapped "begin transaction" x), d)
      | got t ↦ commit_or_error d (append_batch_in_tx (e ∷ es) t)
    ]

    -- `Append`
    unfoldable pub append : Event → db.D → Option PgError × db.D
    unfolding append_batch
    append e d = append_batch (e ∷ []) d

  -- The query of `loadEvents`
  abbrev pub events_query : String → ℤ → Query
  events_query run_id after_sequence = record {
    run_id = run_id;
    above = after_sequence;
    ascending = true;
  }

  -- `loadEvents`, over the rows that the query gives
  abbrev pub loaded : Answer (List Row) → Answer (List Event)
  loaded (lost e) = lost e
  loaded (got xs) = got (map scan xs)

  -- `Load`
  unfoldable pub load : String → db.D → Answer (List Event)
  unfolding scan
  load run_id d = loaded (db.select (events_query run_id (pos 0)) d)

  abbrev pub loaded_in_tx : Answer (List Event) → (TxError DbError) ⊎ List Event
  loaded_in_tx (lost e) = inl (in_tx e)
  loaded_in_tx (got es) = inr es

  -- `LoadTx`: its error, or the events
  unfoldable pub load_tx : String → Tx db.T → (TxError DbError) ⊎ List Event
  unfolding scan
  load_tx run_id tx = elim (extract_pgx_tx tx) [
    | none ↦ inl not_a_tx
    | some t ↦ loaded_in_tx (loaded (db.select_in (events_query run_id (pos 0)) t))
  ]

  -- `LoadSince`
  unfoldable pub load_since : String → ℤ → db.D → Answer (List Event)
  unfolding scan
  load_since run_id after_sequence d = loaded (db.select (events_query run_id after_sequence) d)

  -- `GetLastSequence`
  unfoldable pub get_last_sequence : String → db.D → Answer ℕ
  get_last_sequence run_id d = db.last_sequence run_id d

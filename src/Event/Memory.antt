-- ===== src/Event/Memory.antt =====
-- event/memory/store.go: the in-memory event store. A method returns its result and the store that
-- it leaves. Each method holds the store's lock from its first read to its last write, so calls of
-- several goroutines are a sequence of calls. A nil map reads as an empty one, so the zero value
-- and the result of `New` are one store.
pub mod Numbering
pub mod Batch
pub mod Reads
use skene.Prelude.{
  ℕ, suc, ◌+◌, String, Bool, Option, none, some, List, [], ◌∷◌, ◌++◌, map, Map, lookup, insert,
  length, drop, nat_eq, leb, if◌then◌else◌, ℤ, pos_part, string_key,
}
use skene.Event.{Event}
use skene.Event.Store.{StoreError, duplicate_event, sequence_conflict}

-- `ids` is a set of event ids.
pub record Store : Type 0 where
  pub events : Map String (List Event)
  pub ids : Map String (Unit {0})

abbrev pub new : Store
new = record { events = []; ids = [] }

-- `s.events[runID]`, nil for a run that is not there
abbrev pub or_empty : Option (List Event) → List Event
or_empty none = []
or_empty (some es) = es

unfoldable pub run_events : Store → String → List Event
run_events s run_id = or_empty (lookup run_id s.events)

-- `_, exists := ids[id]`
abbrev pub is_there : Option (Unit {0}) → Bool
is_there none = Bool.false
is_there (some _) = Bool.true

-- The two writes that store an event.
unfoldable pub add_event : Event → Store → Store
unfolding run_events
add_event e s = record {
  events = insert e.run_id (run_events s e.run_id ++ e ∷ []) s.events;
  ids = insert e.id tt s.ids;
}

-- `appendLocked`, which `Append` calls under the lock
unfoldable pub append : Event → Store → Option StoreError × Store
append e s =
    let expected = length (run_events s e.run_id) + 1 in
    if is_there (lookup e.id s.ids)
    then (some duplicate_event, s)
    else if nat_eq e.sequence expected
    then (none, add_event e s)
    else (some (sequence_conflict e.run_id expected e.sequence), s)

-- `runSequences[runID]`, 0 for a run that is not there
abbrev pub or_zero : Option ℕ → ℕ
or_zero none = 0
or_zero (some n) = n

-- The first loop of `AppendBatch`: the map of the last sequences of the runs.
unfoldable pub run_sequences : Map String (List Event) → Map String ℕ
run_sequences [] = []
run_sequences ((run_id, es) ∷ rest) = (run_id, length es) ∷ run_sequences rest

-- The second loop: every event is checked before one is stored.
unfoldable pub validate :
    Store → List Event → Map String (Unit {0}) → Map String ℕ → Option StoreError
validate s [] new_ids sequences = none
validate s (e ∷ es) new_ids sequences =
    let expected = or_zero (lookup e.run_id sequences) + 1 in
    let rest = validate s es (insert e.id tt new_ids) (insert e.run_id e.sequence sequences) in
    if is_there (lookup e.id s.ids)
    then some duplicate_event
    else if is_there (lookup e.id new_ids)
    then some duplicate_event
    else if nat_eq e.sequence expected
    then rest
    else some (sequence_conflict e.run_id expected e.sequence)

-- The last loop.
unfoldable pub add_events : List Event → Store → Store
add_events [] s = s
add_events (e ∷ es) s = add_events es (add_event e s)

unfoldable pub append_batch : List Event → Store → Option StoreError × Store
append_batch [] s = (none, s)
append_batch (e ∷ es) s = elim (validate s (e ∷ es) [] (run_sequences s.events)) [
  | none ↦ (none, add_events (e ∷ es) s)
  | some error ↦ (some error, s)
]

-- A copy of the slice: lists have no aliases.
unfoldable pub load : Store → String → List Event
load s run_id = run_events s run_id

unfoldable pub load_since : Store → String → ℤ → List Event
load_since s run_id after_sequence =
    let es = run_events s run_id in
    let start = pos_part after_sequence in if leb (length es) start then [] else drop start es

unfoldable pub get_last_sequence : Store → String → ℕ
get_last_sequence s run_id = length (run_events s run_id)

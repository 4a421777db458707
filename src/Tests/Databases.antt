-- ===== src/Tests/Databases.antt =====
-- event/pgstore/store.go: a table as the database, and the theorems at it.
use Prim.Native.Nat.{◌/◌}
use skene.Prelude.{
  ◌≡◌, refl, ◌∙◌, ◌*◌, String, Bool, true, false, ◌||◌, ◌&&◌, Option, none, some, List, [], ◌∷◌,
  ◌++◌, map, Map, lookup, insert, inl, inr, ◌↔◌, pos, nat_eq, eq_iff, ◌==◌, if◌then◌else◌,
  Bool-cases, arith, string_key, IsRange,
}
use skene.Event.{Event}
use skene.Event.Memory as Memory
use skene.Event.Memory.{Store}
use skene.Event.Memory.Numbering.{IsSound-new}
use skene.Event.Pgstore.Postgres.{
  Row, DbError, failed, Answer, got, Database, IsKept, IsLawful, Query, IsColumnwise, Holds, of_run,
  max_of, above, in_order, Taken,
}
use skene.Event.Pgstore.{
  append_batch, append_batch_in_tx, group_by_run, validate_runs, check_sequences, insert_events,
  load_since, scan,
}
use skene.Event.Pgstore.Agreement.{Agrees}
use skene.Event.Pgstore.Batch.{Applied, append_batch-Applied}
use skene.Event.Pgstore.Loads.{ReadEach, read_back, read_back-Kept, load_since-eq-memory}
use skene.Tests.Demo.{first_event, second_event}

abbrev clash : Row → Row → Bool
clash x y = (y.id == x.id) || ((y.run_id == x.run_id) && nat_eq y.sequence x.sequence)

abbrev taken : Row → List Row → Bool
taken x [] = false
taken x (y ∷ ys) = clash x y || taken x ys

taken_iff : (x : Row) (ys : List Row) → (taken x ys ≡ true) ↔ Taken x ys
taken_iff x [] = (λ h. cc, λ h. absurd h)
taken_iff x (y ∷ ys) = ground (arith, eq_iff y.id x.id, eq_iff y.run_id x.run_id, taken_iff x ys)

-- A timestamp counts microseconds.
abbrev to_microseconds : Row → Row
to_microseconds x = record x { timestamp = x.timestamp / 1000 * 1000 }

abbrev duplicate_text : String
duplicate_text =
    "ERROR: duplicate key value violates unique constraint \"skene_events_pkey\" (SQLSTATE 23505)"

abbrev put : Row → List Row → Option DbError × List Row
put x rows =
    if taken x rows
    then (some (failed (some "23505") duplicate_text), rows)
    else (none, rows ++ to_microseconds x ∷ [])

abbrev chosen : Query → List Row → List Row
chosen q rows =
    let found = above q.above (of_run q.run_id rows) in
    if q.ascending then in_order found else found

chosen-ascending :
    (q : Query) (rows : List Row)
    → q.ascending ≡ true
    → chosen q rows ≡ in_order (above q.above (of_run q.run_id rows))
chosen-ascending q rows h = rw h refl

-- A table with its two constraints, on which nothing fails.
abbrev table : Database
table = record {
  D = List Row;
  T = List Row;
  begin = got;
  commit = λ t d. (none, t);
  lock = λ r t. (none, t);
  max_sequence = λ r t. got (max_of (of_run r t));
  insert = put;
  select = λ q d. got (chosen q d);
  select_in = λ q t. got (chosen q t);
  last_sequence = λ r d. got (max_of (of_run r d));
}

abbrev microseconds_kept : IsKept to_microseconds
microseconds_kept = record {
  id = λ x. refl;
  run_id = λ x. refl;
  sequence = λ x. refl;
  version = λ x. refl;
  type = λ x. refl;
  step_name = λ x. refl;
}

got-injective : {A : Type 0} {a b : A} → ◌≡◌ {A = Answer A} (got a) (got b) → b ≡ a
got-injective h = cc

put-insert :
    (x : Row) (rows : List Row)
    → (put x rows).0 ≡ none
    → ((put x rows).1 ≡ rows ++ to_microseconds x ∷ []) × (¬ Taken x rows)
put-insert x rows h = elim (Bool-cases (taken x rows)) [
  | inl is_taken ↦ let k : ◌≡◌ {A = Option DbError} (some _) none = rw is_taken at h in cc
  | inr free ↦ (rw free refl, λ t. let k = (taken_iff x rows).1 t in cc)
]

put-violation : (x : Row) (rows : List Row) (e : DbError) → (put x rows).0 ≡ some e → Taken x rows
put-violation x rows e h = elim (Bool-cases (taken x rows)) [
  | inl is_taken ↦ (taken_iff x rows).0 is_taken
  | inr free ↦ let k : ◌≡◌ {A = Option DbError} none (some e) = rw free at h in cc
]

put-text :
    (x : Row) (rows : List Row) (code message : String)
    → (put x rows).0 ≡ some (failed (some code) message)
    → Holds message code
put-text x rows code message h = elim (Bool-cases (taken x rows)) [
  | inl is_taken ↦
      let k : ◌≡◌ {A = Option DbError} (some (failed (some "23505") duplicate_text))
          (some (failed (some code) message)) =
        rw is_taken at h in
      let c : code ≡ "23505" = cc in
      let m : message ≡ duplicate_text = cc in
      rw (c, m)
        (
          "ERROR: duplicate key value violates unique constraint \"skene_events_pkey\" (SQLSTATE ",
          ")", refl,
        )
  | inr free ↦
      let k : ◌≡◌ {A = Option DbError} none (some (failed (some code) message)) = rw free at h in cc
]

abbrev table_law : IsLawful table to_microseconds
table_law = record {
  rows = λ d. d;
  seen = λ t. t;
  kept = microseconds_kept;
  begin = λ d t h. got-injective h;
  commit = λ t d h. refl;
  commit_failed = λ t d. inl refl;
  lock = λ r t. refl;
  max_sequence = λ r t n h. got-injective h;
  insert = put-insert;
  violation = λ x t e h k. put-violation x t e h;
  text = put-text;
  select = λ q d xs asc h. got-injective h ∙ chosen-ascending q d asc;
  select_in = λ q t xs asc h. got-injective h ∙ chosen-ascending q t asc;
  last_sequence = λ r d n h. got-injective h;
}

abbrev as_written : Map String (List Event) → Map String (List Event)
as_written m = m

as_written-IsRange : IsRange as_written
as_written-IsRange = record { same = λ m e. (λ h. h, λ h. h); once = λ m u. u }

empty_table : Agrees to_microseconds microseconds_kept Memory.new []
unfolding Memory.run_events lookup
empty_table = record { sound = IsSound-new; same = λ r. refl }

batch_fine : (append_batch table as_written (first_event ∷ second_event ∷ []) []).0 ≡ none
unfolding append_batch append_batch_in_tx group_by_run validate_runs check_sequences insert_events
    lookup insert
batch_fine = refl

append_batch-Applied_example :
    Applied table to_microseconds table_law []
      (append_batch table as_written (first_event ∷ second_event ∷ []) [])
      (Memory.append_batch (first_event ∷ second_event ∷ []) Memory.new)
append_batch-Applied_example =
    append_batch-Applied table to_microseconds table_law as_written as_written-IsRange
      (first_event ∷ second_event ∷ []) [] Memory.new empty_table

abbrev two_rows : List Row
two_rows = (append_batch table as_written (first_event ∷ second_event ∷ []) []).1

abbrev two_events : Store
two_events = (Memory.append_batch (first_event ∷ second_event ∷ []) Memory.new).1

two_agree : Agrees to_microseconds microseconds_kept two_events two_rows
unfolding append_batch append_batch_in_tx group_by_run validate_runs check_sequences insert_events
    lookup insert
two_agree =
    (append_batch-Applied table to_microseconds table_law as_written as_written-IsRange
      (first_event ∷ second_event ∷ []) [] Memory.new empty_table).1

abbrev microseconds_columnwise : IsColumnwise to_microseconds
microseconds_columnwise = record {
  json = λ j. j;
  instant = λ t. t / 1000 * 1000;
  labels = λ m. m;
  payload = λ x. refl;
  output = λ x. refl;
  timestamp = λ x. refl;
  metadata = λ x. refl;
}

load_since-eq-memory_example :
    ReadEach microseconds_columnwise
      (map scan two_rows)
      (Memory.load_since two_events "run" (pos 0))
unfolding load_since append_batch append_batch_in_tx group_by_run validate_runs check_sequences
    insert_events lookup insert
load_since-eq-memory_example =
    load_since-eq-memory table to_microseconds table_law microseconds_columnwise two_rows two_events
      two_agree "run" (pos 0) (map scan two_rows) refl

read_back-Kept_example :
    let d = read_back to_microseconds microseconds_kept first_event in
    (d.id ≡ first_event.id)
    × (d.run_id ≡ first_event.run_id)
    × (d.sequence ≡ first_event.sequence)
    × (d.version ≡ first_event.version)
    × (d.type ≡ first_event.type)
    × (d.step_name ≡ first_event.step_name)
read_back-Kept_example = read_back-Kept to_microseconds microseconds_kept first_event tt

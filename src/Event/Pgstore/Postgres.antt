-- ===== src/Event/Pgstore/Postgres.antt =====
-- What event/pgstore/store.go stands on: PostgreSQL behind pgx, as an interface, with what the store
-- relies on as laws. The columns are those of event/pgstore/migrations/001_create_events_table.sql.
use Prim.Native.String.{◌++◌ as ◌+++◌}
use skene.Prelude.{
  ℕ, String, ◌≡◌, Bool, true, ◌⊎◌, Option, none, some, List, [], ◌∷◌, ◌++◌, Map, if◌then◌else◌,
  ◌==◌, leb, ℤ, pos, ltz,
}
use skene.Event.Json.{RawMessage}

-- A row of skene_events: the arguments of the INSERT, and what a SELECT scans.
pub record Row : Type 0 where
  pub id : String
  pub run_id : String
  pub sequence : ℕ
  pub version : ℕ
  pub type : String
  pub step_name : Option String
  pub payload : RawMessage
  pub output : RawMessage
  pub metadata : Map String String
  pub timestamp : ℕ

-- `pgx.ErrNoRows`, and any other error: the SQLSTATE, if it is an error of PostgreSQL, and its text.
pub data DbError : Type 0 where
  no_rows : DbError
  failed : (code : Option String) (message : String) → DbError

pub data Answer (A : Type 0) : Type 0 where
  got : A → Answer A
  lost : DbError → Answer A

-- The text holds the other one.
abbrev pub Holds : String → String → Type 0
Holds s t = (before : String) × (after : String) × (before +++ (t +++ after) ≡ s)

-- An error of PostgreSQL that is a unique_violation
abbrev pub IsUniqueViolation : DbError → Type 0
IsUniqueViolation no_rows = ⊥
IsUniqueViolation (failed none message) = ⊥
IsUniqueViolation (failed (some code) message) = code ≡ "23505"

-- A SELECT of all columns of skene_events: the condition `run_id = …`, the condition `sequence > …`, and
-- whether it has `ORDER BY sequence ASC`.
pub record Query : Type 0 where
  pub run_id : String
  pub above : ℤ
  pub ascending : Bool

-- The calls of the store: a database is what is committed, a transaction is what it has seen and
-- written. `Rollback` leaves the database, so it is no operation here.
pub record Database : Type 1 where
  pub D : Type 0
  pub T : Type 0
  pub begin : D → Answer T
  pub commit : T → D → Option DbError × D
  pub lock : String → T → Option DbError × T
  pub max_sequence : String → T → Answer ℕ
  pub insert : Row → T → Option DbError × T
  pub select : Query → D → Answer (List Row)
  pub select_in : Query → T → Answer (List Row)
  pub last_sequence : String → D → Answer ℕ

-- `WHERE run_id = $1`
abbrev pub of_run : String → List Row → List Row
of_run r [] = []
of_run r (x ∷ xs) = if x.run_id == r then x ∷ of_run r xs else of_run r xs

-- `COALESCE(MAX(sequence), 0)`
abbrev pub max_of : List Row → ℕ
max_of [] = 0
max_of (x ∷ xs) = let n = max_of xs in if leb n x.sequence then x.sequence else n

-- `sequence > …`
abbrev pub above : ℤ → List Row → List Row
above n [] = []
above n (x ∷ xs) = if ltz n (pos x.sequence) then x ∷ above n xs else above n xs

-- `ORDER BY sequence ASC`
abbrev pub put_in_order : Row → List Row → List Row
put_in_order x [] = x ∷ []
put_in_order x (y ∷ ys) =
    let rest = put_in_order x ys in if leb x.sequence y.sequence then x ∷ y ∷ ys else y ∷ rest

abbrev pub in_order : List Row → List Row
in_order [] = []
in_order (x ∷ xs) = put_in_order x (in_order xs)

-- A row with the id, or with the run and the sequence.
abbrev pub Taken : Row → List Row → Type 0
Taken x [] = ⊥
Taken x (y ∷ ys) =
    ((y.id ≡ x.id) ⊎ ((y.run_id ≡ x.run_id) × (y.sequence ≡ x.sequence))) ⊎ Taken x ys

-- What a column keeps of a value: JSONB keeps no text but the value, and a timestamp counts
-- microseconds. The other columns keep what they are given.
pub record IsKept (keep : Row → Row) : Type 0 where
  pub id : (x : Row) → (keep x).id ≡ x.id
  pub run_id : (x : Row) → (keep x).run_id ≡ x.run_id
  pub sequence : (x : Row) → (keep x).sequence ≡ x.sequence
  pub version : (x : Row) → (keep x).version ≡ x.version
  pub type : (x : Row) → (keep x).type ≡ x.type
  pub step_name : (x : Row) → (keep x).step_name ≡ x.step_name

-- Each column keeps what it does of its own value.
pub record IsColumnwise (keep : Row → Row) : Type 0 where
  pub json : RawMessage → RawMessage
  pub instant : ℕ → ℕ
  pub labels : Map String String → Map String String
  pub payload : (x : Row) → (keep x).payload ≡ json x.payload
  pub output : (x : Row) → (keep x).output ≡ json x.output
  pub timestamp : (x : Row) → (keep x).timestamp ≡ instant x.timestamp
  pub metadata : (x : Row) → (keep x).metadata ≡ labels x.metadata

-- The laws, with the rows that a database and a transaction hold, in the order of their insertion.
-- While a transaction is open no other one writes: the store's lock keeps out the others that write to
-- its runs.
pub record IsLawful (db : Database) (keep : Row → Row) : Type 0 where
  pub rows : db.D → List Row
  pub seen : db.T → List Row
  pub kept : IsKept keep
  -- A transaction begins with what is committed.
  pub begin : (d : db.D) (t : db.T) → db.begin d ≡ got t → seen t ≡ rows d
  -- A commit that succeeds makes what the transaction wrote the rows; one that fails does so, or
  -- leaves them.
  pub commit : (t : db.T) (d : db.D) → (db.commit t d).0 ≡ none → rows (db.commit t d).1 ≡ seen t
  pub commit_failed :
      (t : db.T) (d : db.D) → (rows (db.commit t d).1 ≡ seen t) ⊎ (rows (db.commit t d).1 ≡ rows d)
  pub lock : (r : String) (t : db.T) → seen (db.lock r t).1 ≡ seen t
  pub max_sequence :
      (r : String) (t : db.T) (n : ℕ) → db.max_sequence r t ≡ got n → n ≡ max_of (of_run r (seen t))
  -- A row that is inserted stands at the end; its id, and its sequence in its run, were free.
  pub insert :
      (x : Row) (t : db.T)
      → (db.insert x t).0 ≡ none
      → (seen (db.insert x t).1 ≡ seen t ++ keep x ∷ []) × (¬ Taken x (seen t))
  -- PostgreSQL tells of a unique violation when the id, or the sequence in its run, is taken.
  pub violation :
      (x : Row) (t : db.T) (e : DbError)
      → (db.insert x t).0 ≡ some e
      → IsUniqueViolation e
      → Taken x (seen t)
  -- The text of an error of PostgreSQL ends with its SQLSTATE, in brackets.
  pub text :
      (x : Row) (t : db.T) (code message : String)
      → (db.insert x t).0 ≡ some (failed (some code) message)
      → Holds message code
  -- A SELECT gives the rows that meet its conditions; it says nothing of their order but under an
  -- ORDER BY.
  pub select :
      (q : Query) (d : db.D) (xs : List Row)
      → q.ascending ≡ true
      → db.select q d ≡ got xs
      → xs ≡ in_order (above q.above (of_run q.run_id (rows d)))
  pub select_in :
      (q : Query) (t : db.T) (xs : List Row)
      → q.ascending ≡ true
      → db.select_in q t ≡ got xs
      → xs ≡ in_order (above q.above (of_run q.run_id (seen t)))
  pub last_sequence :
      (r : String) (d : db.D) (n : ℕ)
      → db.last_sequence r d ≡ got n
      → n ≡ max_of (of_run r (rows d))

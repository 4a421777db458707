-- ===== src/Event/Store.antt =====
-- event/store.go: the errors of an event store.
use skene.Prelude.{ℕ, String}

-- `ErrDuplicateEvent`, and `SequenceConflictError` with its fields.
pub data StoreError : Type 0 where
  duplicate_event : StoreError
  sequence_conflict : (run_id : String) (expected actual : ℕ) → StoreError

-- ===== src/River/World/Memory.antt =====
-- event/memory/store.go as the store of a runner.
use skene.Prelude.{Bool}
use skene.Event.Memory.{Store, load, append, append_batch}
use skene.River.World.{EventStore}

-- The in-memory store takes part in no transaction; what a runner does over a store of the same behaviour
-- that does so is the other case.
abbrev pub memory_store : Bool → EventStore
memory_store transactional = record {
  S = Store;
  transactional = transactional;
  append = append;
  append_batch = append_batch;
  load = load;
}

-- ===== src/Event/Data.antt =====
-- event/data.go: the payloads of the events, with the JSON fields that their struct tags name.
mod Lifecycle
mod Steps
mod Waits
mod Fanout
unfoldable pub use Lifecycle.*
unfoldable pub use Steps.*
unfoldable pub use Waits.*
unfoldable pub use Fanout.*

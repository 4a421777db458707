-- ===== src/Event.antt =====
-- event/event.go: the event types and the event record. A `RawMessage` is a parsed JSON text (see
-- Event/Json), a time is the number of nanoseconds since Go's zero time. The field `Data` is called
-- `payload` here, since `data` is a word of the language.
pub mod Json
pub mod Data
pub mod Store
pub mod Memory
pub mod Pgstore
use skene.Prelude.{ℕ, String, Map, []}
use Json.{RawMessage, nil}

-- The constants of `EventType`, and any other string.
pub data EventType : Type 0 where
  workflow_started workflow_completed workflow_failed workflow_cancelled : EventType
  step_started step_completed step_failed : EventType
  branch_evaluated : EventType
  signal_waiting signal_received signal_timeout : EventType
  child_spawned child_completed child_failed : EventType
  map_started map_completed map_failed : EventType
  compensation_started compensation_completed compensation_failed : EventType
  snapshot : EventType
  other : String → EventType

pub record Event : Type 0 where
  pub id : String
  pub run_id : String
  pub sequence : ℕ
  pub version : ℕ
  pub type : EventType
  pub step_name : String
  pub payload : RawMessage
  pub output : RawMessage
  pub timestamp : ℕ
  pub metadata : Map String String

-- `event.Event{}`: what a literal leaves out.
abbrev pub zero_event : Event
zero_event = record {
  id = "";
  run_id = "";
  sequence = 0;
  version = 0;
  type = other "";
  step_name = "";
  payload = nil;
  output = nil;
  timestamp = 0;
  metadata = [];
}

-- ===== src/Event/Pgstore/Constants.antt =====
-- event/pgstore/store.go, `parseEventType`: the texts of the constants are read as the constants.
use skene.Prelude.{◌≡◌, refl}
use skene.Event.{
  EventType, workflow_started, workflow_completed, workflow_failed, workflow_cancelled,
  step_started, step_completed, step_failed, branch_evaluated, signal_waiting, signal_received,
  signal_timeout, child_spawned, child_completed, child_failed, map_started, map_completed,
  map_failed, compensation_started, compensation_completed, compensation_failed, snapshot, other,
}
use skene.Event.Pgstore.{parse_event_type, type_text}

-- A type that is one of the constants.
abbrev pub IsConstant : EventType → Type 0
IsConstant (other s) = ⊥
IsConstant _ = Unit

pub parse_event_type-type_text : (t : EventType) → IsConstant t → parse_event_type (type_text t) ≡ t
unfolding parse_event_type
parse_event_type-type_text workflow_started h = refl
parse_event_type-type_text workflow_completed h = refl
parse_event_type-type_text workflow_failed h = refl
parse_event_type-type_text workflow_cancelled h = refl
parse_event_type-type_text step_started h = refl
parse_event_type-type_text step_completed h = refl
parse_event_type-type_text step_failed h = refl
parse_event_type-type_text branch_evaluated h = refl
parse_event_type-type_text signal_waiting h = refl
parse_event_type-type_text signal_received h = refl
parse_event_type-type_text signal_timeout h = refl
parse_event_type-type_text child_spawned h = refl
parse_event_type-type_text child_completed h = refl
parse_event_type-type_text child_failed h = refl
parse_event_type-type_text map_started h = refl
parse_event_type-type_text map_completed h = refl
parse_event_type-type_text map_failed h = refl
parse_event_type-type_text compensation_started h = refl
parse_event_type-type_text compensation_completed h = refl
parse_event_type-type_text compensation_failed h = refl
parse_event_type-type_text snapshot h = refl
parse_event_type-type_text (other s) h = absurd h

-- ===== src/Event/Data/Waits.antt =====
-- event/data.go: the payloads of the signal and child events.
use mathlib.Core.Option
use skene.Prelude.{ℕ, String, some, if◌then◌else◌, ◌==◌}
use skene.Event.Json.{
  RawMessage, Codec, str, time, nil, no_fields, field, string_field, time_field, raw_field,
  raw_json,
}
use skene.Event.Data.Lifecycle.{omit_raw}

pub record SignalWaitingData : Type 0 where
  pub signal_name : String
  pub timeout_at : ℕ

pub record SignalReceivedData : Type 0 where
  pub signal_name : String
  pub payload : RawMessage

pub record SignalTimeoutData : Type 0 where
  pub signal_name : String

pub record ChildSpawnedData : Type 0 where
  pub child_run_id : String
  pub workflow_name : String
  pub input : RawMessage

pub record ChildCompletedData : Type 0 where
  pub child_run_id : String
  pub output : RawMessage

pub record ChildFailedData : Type 0 where
  pub child_run_id : String
  pub error : String

-- `omitempty` never leaves a time out: a struct is not empty.
instance abbrev pub signal_waiting_codec : Codec SignalWaitingData
signal_waiting_codec = record {
  zero_value = record { signal_name = ""; timeout_at = 0 };
  encode = λ d.
      some (
        field "signal_name" (str d.signal_name) (field "timeout_at" (time d.timeout_at) no_fields));
  assign = λ k j d.
      if k == "signal_name"
      then Option.map (λ s. record d { signal_name = s }) (string_field j d.signal_name)
      else if k == "timeout_at"
      then Option.map (λ t. record d { timeout_at = t }) (time_field j d.timeout_at)
      else some d;
}

instance abbrev pub signal_received_codec : Codec SignalReceivedData
signal_received_codec = record {
  zero_value = record { signal_name = ""; payload = nil };
  encode = λ d.
      Option.map (λ fs. field "signal_name" (str d.signal_name) fs)
        (omit_raw "payload" d.payload no_fields);
  assign = λ k j d.
      if k == "signal_name"
      then Option.map (λ s. record d { signal_name = s }) (string_field j d.signal_name)
      else if k == "payload"
      then Option.map (λ r. record d { payload = r }) (raw_field j d.payload)
      else some d;
}

instance abbrev pub signal_timeout_codec : Codec SignalTimeoutData
signal_timeout_codec = record {
  zero_value = record { signal_name = "" };
  encode = λ d. some (field "signal_name" (str d.signal_name) no_fields);
  assign = λ k j d.
      if k == "signal_name"
      then Option.map (λ s. record { signal_name = s }) (string_field j d.signal_name)
      else some d;
}

instance abbrev pub child_spawned_codec : Codec ChildSpawnedData
child_spawned_codec = record {
  zero_value = record { child_run_id = ""; workflow_name = ""; input = nil };
  encode = λ d.
      Option.map
        (λ j.
          field "child_run_id" (str d.child_run_id)
            (field "workflow_name" (str d.workflow_name) (field "input" j no_fields)))
        (raw_json d.input);
  assign = λ k j d.
      if k == "child_run_id"
      then Option.map (λ s. record d { child_run_id = s }) (string_field j d.child_run_id)
      else if k == "workflow_name"
      then Option.map (λ s. record d { workflow_name = s }) (string_field j d.workflow_name)
      else if k == "input"
      then Option.map (λ r. record d { input = r }) (raw_field j d.input)
      else some d;
}

instance abbrev pub child_completed_codec : Codec ChildCompletedData
child_completed_codec = record {
  zero_value = record { child_run_id = ""; output = nil };
  encode = λ d.
      Option.map (λ fs. field "child_run_id" (str d.child_run_id) fs)
        (omit_raw "output" d.output no_fields);
  assign = λ k j d.
      if k == "child_run_id"
      then Option.map (λ s. record d { child_run_id = s }) (string_field j d.child_run_id)
      else if k == "output"
      then Option.map (λ r. record d { output = r }) (raw_field j d.output)
      else some d;
}

instance abbrev pub child_failed_codec : Codec ChildFailedData
child_failed_codec = record {
  zero_value = record { child_run_id = ""; error = "" };
  encode =
      λ d. some (field "child_run_id" (str d.child_run_id) (field "error" (str d.error) no_fields));
  assign = λ k j d.
      if k == "child_run_id"
      then Option.map (λ s. record d { child_run_id = s }) (string_field j d.child_run_id)
      else if k == "error"
      then Option.map (λ s. record d { error = s }) (string_field j d.error)
      else some d;
}

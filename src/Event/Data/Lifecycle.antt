-- ===== src/Event/Data/Lifecycle.antt =====
-- event/data.go: the payloads of the workflow, compensation and snapshot events.
use mathlib.Core.Option
use skene.Prelude.{String, Option, none, some, List, [], if◌then◌else◌, ◌==◌}
use skene.Event.Json.{
  Fields, RawMessage, Codec, str, arr, nil, malformed, doc, no_fields, field, string_field,
  raw_field, strings_field, string_list, raw_json,
}

pub record WorkflowStartedData : Type 0 where
  pub workflow_name : String
  pub version : String
  pub input : RawMessage

pub record WorkflowCompletedData : Type 0 where
  pub output : RawMessage

pub record WorkflowFailedData : Type 0 where
  pub error : String

pub record WorkflowCancelledData : Type 0 where
  pub reason : String

pub record CompensationStartedData : Type 0 where
  pub trigger_step : String
  pub steps_to_undo : List String

pub record CompensationCompletedData : Type 0 where
  pub steps_compensated : List String

pub record CompensationFailedData : Type 0 where
  pub failed_step : String
  pub error : String

pub record SnapshotData : Type 0 where
  pub state : RawMessage

-- A raw message with the option `omitempty`.
abbrev pub omit_raw : String → RawMessage → Fields → Option Fields
omit_raw k nil fs = some fs
omit_raw k malformed fs = none
omit_raw k (doc j) fs = some (field k j fs)

instance abbrev pub started_codec : Codec WorkflowStartedData
started_codec = record {
  zero_value = record { workflow_name = ""; version = ""; input = nil };
  encode = λ d.
      Option.map
        (λ j.
          field "workflow_name" (str d.workflow_name)
            (field "version" (str d.version) (field "input" j no_fields)))
        (raw_json d.input);
  assign = λ k j d.
      if k == "workflow_name"
      then Option.map (λ s. record d { workflow_name = s }) (string_field j d.workflow_name)
      else if k == "version"
      then Option.map (λ s. record d { version = s }) (string_field j d.version)
      else if k == "input"
      then Option.map (λ r. record d { input = r }) (raw_field j d.input)
      else some d;
}

instance abbrev pub completed_codec : Codec WorkflowCompletedData
completed_codec = record {
  zero_value = record { output = nil };
  encode = λ d. omit_raw "output" d.output no_fields;
  assign = λ k j d.
      if k == "output"
      then Option.map (λ r. record { output = r }) (raw_field j d.output)
      else some d;
}

instance abbrev pub failed_codec : Codec WorkflowFailedData
failed_codec = record {
  zero_value = record { error = "" };
  encode = λ d. some (field "error" (str d.error) no_fields);
  assign = λ k j d.
      if k == "error"
      then Option.map (λ s. record { error = s }) (string_field j d.error)
      else some d;
}

instance abbrev pub cancelled_codec : Codec WorkflowCancelledData
cancelled_codec = record {
  zero_value = record { reason = "" };
  encode = λ d. some (field "reason" (str d.reason) no_fields);
  assign = λ k j d.
      if k == "reason"
      then Option.map (λ s. record { reason = s }) (string_field j d.reason)
      else some d;
}

instance abbrev pub compensation_started_codec : Codec CompensationStartedData
compensation_started_codec = record {
  zero_value = record { trigger_step = ""; steps_to_undo = [] };
  encode = λ d. some (
      field "trigger_step" (str d.trigger_step)
        (field "steps_to_undo" (arr (string_list d.steps_to_undo)) no_fields));
  assign = λ k j d.
      if k == "trigger_step"
      then Option.map (λ s. record d { trigger_step = s }) (string_field j d.trigger_step)
      else if k == "steps_to_undo"
      then Option.map (λ l. record d { steps_to_undo = l }) (strings_field j d.steps_to_undo)
      else some d;
}

instance abbrev pub compensation_completed_codec : Codec CompensationCompletedData
compensation_completed_codec = record {
  zero_value = record { steps_compensated = [] };
  encode = λ d. some (field "steps_compensated" (arr (string_list d.steps_compensated)) no_fields);
  assign = λ k j d.
      if k == "steps_compensated"
      then Option.map (λ l. record { steps_compensated = l }) (strings_field j d.steps_compensated)
      else some d;
}

instance abbrev pub compensation_failed_codec : Codec CompensationFailedData
compensation_failed_codec = record {
  zero_value = record { failed_step = ""; error = "" };
  encode =
      λ d. some (field "failed_step" (str d.failed_step) (field "error" (str d.error) no_fields));
  assign = λ k j d.
      if k == "failed_step"
      then Option.map (λ s. record d { failed_step = s }) (string_field j d.failed_step)
      else if k == "error"
      then Option.map (λ s. record d { error = s }) (string_field j d.error)
      else some d;
}

instance abbrev pub snapshot_codec : Codec SnapshotData
snapshot_codec = record {
  zero_value = record { state = nil };
  encode = λ d. Option.map (λ j. field "state" j no_fields) (raw_json d.state);
  assign = λ k j d.
      if k == "state" then Option.map (λ r. record { state = r }) (raw_field j d.state) else some d;
}

-- ===== src/Event/Data/Steps.antt =====
-- event/data.go: the payloads of the step and branch events.
use mathlib.Core.Option
use skene.Prelude.{ℕ, String, Bool, some, if◌then◌else◌, ◌==◌, nat_eq, false}
use skene.Event.Json.{
  Fields, Codec, str, num, bool, no_fields, field, string_field, int_field, bool_field,
}

pub record StepStartedData : Type 0 where
  pub attempt : ℕ
  pub branch_name : String
  pub case_value : String

pub record StepCompletedData : Type 0 where
  pub duration : ℕ
  pub branch_name : String
  pub case_value : String

pub record StepFailedData : Type 0 where
  pub error : String
  pub attempt : ℕ
  pub will_retry : Bool
  pub branch_name : String
  pub case_value : String

pub record BranchEvaluatedData : Type 0 where
  pub branch_name : String
  pub choice : String

-- Fields with the option `omitempty`.
abbrev pub omit_string : String → String → Fields → Fields
omit_string k s fs = if s == "" then fs else field k (str s) fs

abbrev pub omit_int : String → ℕ → Fields → Fields
omit_int k n fs = if nat_eq n 0 then fs else field k (num n) fs

instance abbrev pub step_started_codec : Codec StepStartedData
step_started_codec = record {
  zero_value = record { attempt = 0; branch_name = ""; case_value = "" };
  encode = λ d. some (
      omit_int "attempt" d.attempt (
        omit_string "branch_name" d.branch_name (omit_string "case_value" d.case_value no_fields)));
  assign = λ k j d.
      if k == "attempt"
      then Option.map (λ n. record d { attempt = n }) (int_field j d.attempt)
      else if k == "branch_name"
      then Option.map (λ s. record d { branch_name = s }) (string_field j d.branch_name)
      else if k == "case_value"
      then Option.map (λ s. record d { case_value = s }) (string_field j d.case_value)
      else some d;
}

instance abbrev pub step_completed_codec : Codec StepCompletedData
step_completed_codec = record {
  zero_value = record { duration = 0; branch_name = ""; case_value = "" };
  encode = λ d. some (
      field "duration_ns" (num d.duration) (
        omit_string "branch_name" d.branch_name (omit_string "case_value" d.case_value no_fields)));
  assign = λ k j d.
      if k == "duration_ns"
      then Option.map (λ n. record d { duration = n }) (int_field j d.duration)
      else if k == "branch_name"
      then Option.map (λ s. record d { branch_name = s }) (string_field j d.branch_name)
      else if k == "case_value"
      then Option.map (λ s. record d { case_value = s }) (string_field j d.case_value)
      else some d;
}

instance abbrev pub step_failed_codec : Codec StepFailedData
step_failed_codec = record {
  zero_value = record {
    error = "";
    attempt = 0;
    will_retry = false;
    branch_name = "";
    case_value = "";
  };
  encode = λ d. some (
      field "error" (str d.error) (
        field "attempt" (num d.attempt) (
          field "will_retry" (bool d.will_retry) (
            omit_string "branch_name" d.branch_name
              (omit_string "case_value" d.case_value no_fields)))));
  assign = λ k j d.
      if k == "error"
      then Option.map (λ s. record d { error = s }) (string_field j d.error)
      else if k == "attempt"
      then Option.map (λ n. record d { attempt = n }) (int_field j d.attempt)
      else if k == "will_retry"
      then Option.map (λ b. record d { will_retry = b }) (bool_field j d.will_retry)
      else if k == "branch_name"
      then Option.map (λ s. record d { branch_name = s }) (string_field j d.branch_name)
      else if k == "case_value"
      then Option.map (λ s. record d { case_value = s }) (string_field j d.case_value)
      else some d;
}

instance abbrev pub branch_evaluated_codec : Codec BranchEvaluatedData
branch_evaluated_codec = record {
  zero_value = record { branch_name = ""; choice = "" };
  encode =
      λ d. some (field "branch_name" (str d.branch_name) (field "choice" (str d.choice) no_fields));
  assign = λ k j d.
      if k == "branch_name"
      then Option.map (λ s. record d { branch_name = s }) (string_field j d.branch_name)
      else if k == "choice"
      then Option.map (λ s. record d { choice = s }) (string_field j d.choice)
      else some d;
}

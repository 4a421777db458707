-- ===== src/Event/Data/Fanout.antt =====
-- event/data.go: the payloads of the map events.
use mathlib.Core.Option
use skene.Prelude.{ℕ, String, some, if◌then◌else◌, ◌==◌}
use skene.Event.Json.{
  RawMessage, Codec, str, num, nil, no_fields, field, string_field, int_field, raw_field, raw_json,
}

pub record MapStartedData : Type 0 where
  pub map_index : ℕ
  pub item_count : ℕ

pub record MapCompletedData : Type 0 where
  pub map_index : ℕ
  pub results : RawMessage

pub record MapFailedData : Type 0 where
  pub map_index : ℕ
  pub failed_index : ℕ
  pub error : String

instance abbrev pub map_started_codec : Codec MapStartedData
map_started_codec = record {
  zero_value = record { map_index = 0; item_count = 0 };
  encode = λ d.
      some (field "map_index" (num d.map_index) (field "item_count" (num d.item_count) no_fields));
  assign = λ k j d.
      if k == "map_index"
      then Option.map (λ n. record d { map_index = n }) (int_field j d.map_index)
      else if k == "item_count"
      then Option.map (λ n. record d { item_count = n }) (int_field j d.item_count)
      else some d;
}

instance abbrev pub map_completed_codec : Codec MapCompletedData
map_completed_codec = record {
  zero_value = record { map_index = 0; results = nil };
  encode = λ d.
      Option.map (λ j. field "map_index" (num d.map_index) (field "results" j no_fields))
        (raw_json d.results);
  assign = λ k j d.
      if k == "map_index"
      then Option.map (λ n. record d { map_index = n }) (int_field j d.map_index)
      else if k == "results"
      then Option.map (λ r. record d { results = r }) (raw_field j d.results)
      else some d;
}

instance abbrev pub map_failed_codec : Codec MapFailedData
map_failed_codec = record {
  zero_value = record { map_index = 0; failed_index = 0; error = "" };
  encode = λ d. some (
      field "map_index" (num d.map_index)
        (field "failed_index" (num d.failed_index) (field "error" (str d.error) no_fields)));
  assign = λ k j d.
      if k == "map_index"
      then Option.map (λ n. record d { map_index = n }) (int_field j d.map_index)
      else if k == "failed_index"
      then Option.map (λ n. record d { failed_index = n }) (int_field j d.failed_index)
      else if k == "error"
      then Option.map (λ s. record d { error = s }) (string_field j d.error)
      else some d;
}

-- ===== src/Tests/Demo.antt =====
-- A run of a workflow of three steps: one that fails once and is retried, and then two in parallel, of
-- which one branches on the first's output.
use Prim.Native.String.{[] as no_text, ◌∷◌ as char}
use skene.Prelude.{
  ℕ, zero, suc, ◌≡◌, ap, ◌∙◌, sym, Bool, Option, none, some, List, [], ◌∷◌, String, pos, refl,
}
use skene.Event.{
  Event, EventType, zero_event, step_completed, step_failed, signal_waiting, signal_received,
}
use skene.Event.Json.{str, num, RawMessage, doc, marshal_or_nil}
use skene.Event.Data.{
  StepFailedData, step_failed_codec, SignalWaitingData, signal_waiting_codec, SignalReceivedData,
  signal_received_codec,
}
use skene.Retry.{Policy}
use skene.Workflow.Errors.{new, Result, ok, err}
use skene.Workflow.Step.{
  Value, json_value, Body, return, get_output, AnyStep, new_step, with_retry, new_branch, add_case,
  after, WorkflowDef,
}
use skene.Workflow.Replayer.{Env}

abbrev pub policy : Policy
policy = record {
  max_attempts = pos 2;
  initial_delay = pos 100;
  max_delay = pos 1000;
  multiplier = 2;
  jitter = 0;
}

abbrev pub fetch_code : ℕ → Body (Result Value)
fetch_code (suc zero) = return (err (new "no route"))
fetch_code _ = return (ok (json_value (str "red")))

abbrev pub fetch : AnyStep
fetch = with_retry policy (new_step "fetch" fetch_code)

abbrev pub colour : Option RawMessage → String
colour (some (doc (str s))) = s
colour _ = ""

abbrev pub paint : AnyStep
paint =
    add_case "red" (new_step "paint_red" (λ attempt. return (ok (json_value (num 1)))))
      (new_branch "paint" (get_output "fetch" (λ o. return (colour o))))

abbrev pub audit : AnyStep
audit = new_step "audit" (λ attempt. return (ok (json_value (num 7))))

abbrev pub workflow : WorkflowDef
workflow = record {
  name = "demo";
  version = "1";
  steps = after fetch [] ∷ after paint (fetch ∷ []) ∷ after audit (fetch ∷ []) ∷ [];
}

-- An id for each number.
abbrev pub tally : ℕ → String
tally zero = no_text
tally (suc n) = char "x" (tally n)

size : String → ℕ
size no_text = 0
size (char c s) = suc (size s)

size-tally : (n : ℕ) → size (tally n) ≡ n
unfolding size
size-tally zero = refl
size-tally (suc n) = ap suc (size-tally n)

pub tally-injective : (i j : ℕ) → tally i ≡ tally j → i ≡ j
tally-injective i j h = sym (size-tally i) ∙ ap size h ∙ size-tally j

abbrev pub env : Env
env = record {
  workflow = workflow;
  run_id = "run";
  input = json_value (num 5);
  new_id = tally;
  now = λ n. n;
  context_err = λ n. none;
  schedule = λ wave. 1 ∷ 0 ∷ 1 ∷ 0 ∷ [];
}

abbrev pub event_of : ℕ → EventType → String → RawMessage → RawMessage → Event
event_of n type step_name payload output = record zero_event {
  id = tally n;
  run_id = "run";
  sequence = n;
  type = type;
  step_name = step_name;
  payload = payload;
  output = output;
}

abbrev pub failed_body : StepFailedData
failed_body = record {
  error = "no route";
  attempt = 2;
  will_retry = Bool.false;
  branch_name = "";
  case_value = "";
}

abbrev pub waiting_body : SignalWaitingData
waiting_body = record { signal_name = "approve"; timeout_at = 9 }

abbrev pub received_body : SignalReceivedData
received_body = record { signal_name = "approve"; payload = doc (num 3) }

abbrev pub first_event : Event
first_event = event_of 1 step_completed "fetch" RawMessage.nil (doc (str "red"))

abbrev pub second_event : Event
second_event = event_of 2 step_failed "audit" (marshal_or_nil failed_body) RawMessage.nil

abbrev pub third_event : Event
third_event = event_of 3 signal_waiting "" (marshal_or_nil waiting_body) RawMessage.nil

abbrev pub fourth_event : Event
fourth_event = event_of 4 signal_received "" (marshal_or_nil received_body) RawMessage.nil

abbrev pub four_events : List Event
four_events = first_event ∷ second_event ∷ third_event ∷ fourth_event ∷ []

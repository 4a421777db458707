-- ===== src/Tests/Projections.antt =====
-- project/project.go: projections of a history, and the theorems at it.
use skene.Prelude.{
  ℕ, true, Map, lookup, insert, delete, ◌≡◌, refl, List, [], ◌∷◌, map, some, string_key,
}
use skene.Event.{
  Event, step_started, step_completed, step_failed, workflow_started, child_spawned,
  child_completed,
}
use skene.Event.Json.{nil, doc, num, marshal_or_nil, marshal, unmarshal}
use skene.Event.Data.{
  StepStartedData, StepFailedData, step_started_codec, step_failed_codec, WorkflowStartedData,
  ChildSpawnedData, ChildCompletedData, started_codec, child_spawned_codec, child_completed_codec,
}
use skene.River.Types.{status_text, build_run}
use skene.Project.{text_of, run_status, status_events, status_type}
use skene.Project.Agreement.{run_status-eq-build_run}
use skene.Project.Children.{child_workflows, child_events, child_type, finish_pending}
use skene.Project.Fates.{told}
use skene.Project.Fates.Told.{child_workflows-told}
use skene.Project.Timeline.{itoa, digits}
use skene.Project.Invocations.{
  AttemptKey, PendingInvocation, InvocationStatus, step_invocations, invocation_type,
  invocation_events, find_pending_attempt, end_pending,
}
use skene.Tests.Demo.{event_of, third_event, fourth_event}

abbrev started_body : WorkflowStartedData
started_body = record { workflow_name = "demo"; version = "1"; input = doc (num 5) }

abbrev start : Event
start = event_of 1 workflow_started "" (marshal_or_nil started_body) nil

started_read : unmarshal {A = WorkflowStartedData} start.payload ≡ some started_body
unfolding marshal_or_nil marshal unmarshal
started_read = refl

waiting_now : text_of (run_status (start ∷ third_event ∷ [])).status ≡ "waiting"
unfolding run_status status_events status_type marshal_or_nil marshal unmarshal
waiting_now = refl

run_status-eq-build_run_example :
    text_of (run_status (start ∷ third_event ∷ fourth_event ∷ [])).status
    ≡ status_text (build_run "run" (start ∷ third_event ∷ fourth_event ∷ [])).status
unfolding marshal_or_nil marshal unmarshal
run_status-eq-build_run_example =
    run_status-eq-build_run "run" start started_body (third_event ∷ fourth_event ∷ []) refl
      started_read ((_, refl, refl), (tt, tt))

abbrev child_start : Event
child_start =
    event_of 2 child_spawned ""
      (marshal_or_nil {A = ChildSpawnedData}
        (record { child_run_id = "c"; workflow_name = "sub"; input = nil }))
      nil

abbrev child_end : Event
child_end =
    event_of 3 child_completed ""
      (marshal_or_nil {A = ChildCompletedData} (record { child_run_id = "c"; output = nil })) nil

abbrev family : List Event
family = start ∷ child_start ∷ child_end ∷ []

-- The child has ended at the time of its second event.
family_ended : map (λ c. c.completed_at) (child_workflows family) ≡ some child_end.timestamp ∷ []
unfolding child_workflows child_events child_type finish_pending lookup insert delete marshal_or_nil
    marshal unmarshal
family_ended = refl

child_workflows-told_example : child_workflows family ≡ told family
child_workflows-told_example = child_workflows-told family

itoa_120 : itoa 120 ≡ "120"
unfolding itoa digits
itoa_120 = refl

-- A map that is visited in the order of its entries
abbrev in_order : ℕ → Map AttemptKey PendingInvocation → List PendingInvocation
in_order n m = map (λ entry. entry.1) m

abbrev try_body : ℕ → StepStartedData
try_body n = record { attempt = n; branch_name = ""; case_value = "" }

abbrev pub attempts : List Event
attempts =
    start
    ∷ event_of 2 step_started "charge" (marshal_or_nil (try_body 1)) nil
    ∷ event_of 3 step_failed "charge"
        (marshal_or_nil {A = StepFailedData} (record {
          error = "declined";
          attempt = 1;
          will_retry = true;
          branch_name = "";
          case_value = "";
        }))
        nil
    ∷ event_of 4 step_started "charge" (marshal_or_nil (try_body 2)) nil
    ∷ event_of 5 step_completed "charge" nil nil
    ∷ []

attempts_ended :
    map (λ i. i.status) (step_invocations in_order attempts)
    ≡ InvocationStatus.retrying ∷ InvocationStatus.completed ∷ []
unfolding step_invocations invocation_events invocation_type find_pending_attempt end_pending lookup
    insert delete marshal_or_nil marshal unmarshal
attempts_ended = refl

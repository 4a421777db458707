-- ===== src/Project/Agreement.antt =====
-- project/project.go and river/runner.go: the status that `RunStatus` projects, and the status that
-- `buildRunFromEvents` gives.
use skene.Prelude.{
  ◌≡◌, refl, sym, ap, ◌∙◌, String, Bool, true, false, not, ◌&&◌, some, List, [], ◌∷◌, All, ◌==◌,
  if◌then◌else◌, arith, Bool-cases, inl, inr,
}
use skene.Event.{
  Event, EventType, workflow_started, workflow_completed, workflow_failed, workflow_cancelled,
  signal_waiting, signal_received, signal_timeout,
}
use skene.Event.Json.{unmarshal}
use skene.Event.Data.{
  WorkflowStartedData, WorkflowCompletedData, WorkflowFailedData, WorkflowCancelledData,
  SignalWaitingData, started_codec, completed_codec, failed_codec, cancelled_codec,
  signal_waiting_codec,
}
use skene.River.Types.{
  RunStatus, status_text, Run, new_run, project_type, project_events, build_run, wait_if_running,
  run_if_waiting,
}
use skene.River.Types as River
use skene.Project.{
  Status, text_of, RunStatusResult, status_type, status_events, conclude, run_status, empty_result,
  pending, running, completed, failed, cancelled, waiting, is_running,
}

-- An event after the start on which the two agree: it decodes, a signal that is waited for has a name, and
-- it is no second start and no time-out of a signal.
abbrev pub Common : EventType → Event → Type 0
Common workflow_started e = ⊥
Common signal_timeout e = ⊥
Common workflow_completed e = (d : WorkflowCompletedData) × (unmarshal e.payload ≡ some d)
Common workflow_failed e = (d : WorkflowFailedData) × (unmarshal e.payload ≡ some d)
Common workflow_cancelled e = (d : WorkflowCancelledData) × (unmarshal e.payload ≡ some d)
Common signal_waiting e =
    (d : SignalWaitingData) × (unmarshal e.payload ≡ some d) × ((d.signal_name == "") ≡ false)
Common _ e = Unit

-- The status of a run, from the projected one and from whether no signal is waited for.
abbrev seen : Status → Bool → RunStatus
seen pending b = River.RunStatus.pending
seen running true = River.RunStatus.running
seen running false = River.RunStatus.waiting
seen completed b = River.RunStatus.completed
seen failed b = River.RunStatus.failed
seen cancelled b = River.RunStatus.cancelled
seen waiting true = River.RunStatus.running
seen waiting false = River.RunStatus.waiting

abbrev is_waiting : Status → Bool
is_waiting waiting = true
is_waiting _ = false

record Agree (run : Run) (r : RunStatusResult × String) : Type 0 where
  same : run.status ≡ seen r.0.status (r.1 == "")
  live : is_waiting r.0.status ≡ false

waits_for : (s : Status) (b : Bool) → wait_if_running (seen s b) ≡ seen s false
waits_for pending b = refl
waits_for running true = refl
waits_for running false = refl
waits_for completed b = refl
waits_for failed b = refl
waits_for cancelled b = refl
waits_for waiting true = refl
waits_for waiting false = refl

runs_again : (s : Status) (b : Bool) → run_if_waiting (seen s b) ≡ seen s true
runs_again pending b = refl
runs_again running true = refl
runs_again running false = refl
runs_again completed b = refl
runs_again failed b = refl
runs_again cancelled b = refl
runs_again waiting true = refl
runs_again waiting false = refl

Agree-step :
    (t : EventType) (e : Event) (run : Run) (r : RunStatusResult × String)
    → Common t e
    → Agree run r
    → Agree (project_type t e run) (status_type t e r)
unfolding project_type status_type
Agree-step workflow_started e run r c a = absurd c
Agree-step signal_timeout e run r c a = absurd c
Agree-step workflow_completed e run r (d, u) a = rw u (record { same = refl; live = refl })
Agree-step workflow_failed e run r (d, u) a = rw u (record { same = refl; live = refl })
Agree-step workflow_cancelled e run r (d, u) a = rw u (record { same = refl; live = refl })
Agree-step signal_waiting e run r (d, u, n) a = rw u (record {
  same = ap wait_if_running a.same ∙ waits_for r.0.status (r.1 == "") ∙ (rw n refl);
  live = a.live;
})
Agree-step signal_received e run r c a = record {
  same = ap run_if_waiting a.same ∙ runs_again r.0.status (r.1 == "");
  live = a.live;
}
Agree-step _ e run r c a = a

Agree-events :
    (es : List Event) (run : Run) (r : RunStatusResult × String)
    → All (λ (e : Event). Common e.type e) es
    → Agree run r
    → Agree (project_events es run) (status_events es r)
unfolding project_events status_events
Agree-events [] run r c a = a
Agree-events (e ∷ es) run r c a =
    Agree-events es (project_type e.type e run) (status_type e.type e r) c.1
      (Agree-step e.type e run r c.0 a)

same_text :
    (s : Status) (b : Bool)
    → is_waiting s ≡ false
    → text_of (if not b && is_running s then waiting else s) ≡ status_text (seen s b)
same_text pending b h = ground arith
same_text running true h = refl
same_text running false h = refl
same_text completed b h = ground arith
same_text failed b h = ground arith
same_text cancelled b h = ground arith
same_text waiting b h = cc

status-conclude :
    (r : RunStatusResult × String)
    → (conclude r).status
      ≡ (if not (r.1 == "") && is_running r.0.status then waiting else r.0.status)
status-conclude (r, signal) = elim (Bool-cases (not (signal == "") && is_running r.status)) [
  | inl waits ↦ rw waits refl
  | inr goes_on ↦ rw goes_on refl
]

Agree-start :
    (e : Event) (run : Run) (d : WorkflowStartedData)
    → unmarshal e.payload ≡ some d
    → Agree
        (project_type workflow_started e run)
        (status_type workflow_started e (empty_result running, ""))
unfolding project_type status_type
Agree-start e run d u = rw u (record { same = refl; live = refl })

-- On a history that begins with a start that decodes, and goes on with events that decode, signals that
-- have names, no second start and no time-out of a signal, `RunStatus` and `GetRun` give one status.
pub run_status-eq-build_run :
    (run_id : String) (e : Event) (d : WorkflowStartedData) (es : List Event)
    → e.type ≡ workflow_started
    → unmarshal e.payload ≡ some d
    → All (λ (x : Event). Common x.type x) es
    → text_of (run_status (e ∷ es)).status ≡ status_text (build_run run_id (e ∷ es)).status
unfolding run_status build_run project_events status_events
run_status-eq-build_run run_id e d es t u c =
    let a =
      Agree-events es (project_type e.type e (new_run run_id))
        (status_type e.type e (empty_result running, "")) c
        (rw t (Agree-start e (new_run run_id) d u)) in
    ap text_of (status-conclude (status_events (e ∷ es) (empty_result running, "")))
    ∙ same_text _ _ a.live
    ∙ ap status_text (sym a.same)

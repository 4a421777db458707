-- ===== src/River/Runner/Starts.antt =====
-- river/runner.go over event/memory/store.go: what has happened to a run when `StartWorkflow` has
-- returned its id.
use skene.Prelude.{
  ◌≡◌, refl, sym, ap, ◌∙◌, ℕ, ◌+◌, String, Bool, Option, none, some, List, [], ◌∷◌, ◌++◌, subst,
  arith, length,
}
use skene.Event.{Event, workflow_started}
use skene.Event.Json.{RawMessage, marshal, unmarshal, nil, malformed, doc, null}
use skene.Event.Data.{WorkflowStartedData, started_codec, cancelled_codec}
use skene.Event.Store.{StoreError}
use skene.Event.Memory.{Store, load, append, append_batch, run_events}
use skene.Event.Memory.Batch.{append_batch-eq-append_each, append_each, or_rollback}
use skene.Event.Memory.Numbering.{append-Appended, Appended, duplicated, conflicting, accepted}
use skene.Workflow.Step.{WorkflowDef}
use skene.River.Errors.{ok}
use skene.River.Registry.{Reply, found, failed, get as get_workflow}
use skene.River.World.{World, Action, Host, Job, ◌>>=◌, pure, raise, workflow_job}
use skene.River.World.Rules.{Reads-fresh_id, Reads-clock}
use skene.River.World.Ensures.{
  Ensures, Says-ok, Ensures-pure, Ensures-within, Ensures-bind, Ensures-after_read,
  Ensures-or_raise, Ensures-insert_job, Ensures-append_event, Ensures-transaction,
}
use skene.River.Runner.{event_of, from_reply, start_workflow_tx, start_workflow}
use skene.River.Runner.Reads.{Reads-check_started}
use skene.River.World.Memory.{memory_store}
use skene.River.Runner.Signals.{load-one}

-- A first event is only accepted by a run that has none.
append-first :
    (e : Event) (s : Store) → e.sequence ≡ 1 → (append e s).0 ≡ none → run_events s e.run_id ≡ []
append-first e s one h = go (append-Appended e s) h
  where
    none_of : (es : List Event) → 1 ≡ length es + 1 → es ≡ []
    none_of [] k = refl
    none_of (d ∷ es) k = absurd (omega arith)

    go : {o : Option StoreError × Store} → Appended e s o → o.0 ≡ none → run_events s e.run_id ≡ []
    go (duplicated _) k = cc
    go (conflicting _ _) k = cc
    go (accepted _ next) k = none_of _ (sym one ∙ next)

load-first :
    (e : Event) (s : Store)
    → e.sequence ≡ 1
    → (append e s).0 ≡ none
    → load (append e s).1 e.run_id ≡ e ∷ []
unfolding load
load-first e s one h = load-one e s h ∙ (rw (append-first e s one h) refl)

append_batch-eq-append : (e : Event) (s : Store) → append_batch (e ∷ []) s ≡ append e s
unfolding append_each
append_batch-eq-append e s = append_batch-eq-append_each (e ∷ []) s ∙ go (append-Appended e s)
  where
    go :
        {o : Option StoreError × Store}
        → Appended e s o
        → or_rollback s (elim o.0 [ none ↦ (none, o.1) | some x ↦ (some x, o.1) ]) ≡ o
    go (duplicated _) = refl
    go (conflicting _ _) = refl
    go (accepted _ _) = refl

load-first_of_batch :
    (e : Event) (s : Store)
    → e.sequence ≡ 1
    → (append_batch (e ∷ []) s).0 ≡ none
    → load (append_batch (e ∷ []) s).1 e.run_id ≡ e ∷ []
load-first_of_batch e s one h =
    let same = append_batch-eq-append e s in
    rw same (load-first e s one (ap (λ o. o.0) (sym same) ∙ h))

-- The run has one event, which says that the workflow was started, and the queue has its job.
pub record Started (host : Host) (name : String) (input : RawMessage) (jobs0 : List Job)
    (run_id : String) (s : Store) (jobs : List Job) : Type 0 where
  pub def : WorkflowDef
  pub event : Event
  pub body : WorkflowStartedData
  pub defined : get_workflow name host.registry ≡ found def
  pub stored : load s run_id ≡ event ∷ []
  pub type : event.type ≡ workflow_started
  pub told : unmarshal event.payload ≡ some body
  pub named : body.workflow_name ≡ name
  pub versioned : body.version ≡ def.version
  pub queued :
      jobs
      ≡ jobs0
        ++ record {
          args = workflow_job run_id name def.version;
          max_attempts = 3;
          priority = 0;
          scheduled_at = 0;
        }
          ∷ []

-- What was written of a start has its names.
abbrev NamesStart : String → String → Option RawMessage → Type 0
NamesStart name version none = Unit
NamesStart name version (some raw) =
    (d : WorkflowStartedData) × (unmarshal raw ≡ some d)
    × (d.workflow_name ≡ name)
    × (d.version ≡ version)

marshal-NamesStart :
    (name version : String) (input : RawMessage)
    → NamesStart name version (
        marshal {A = WorkflowStartedData}
          (record { workflow_name = name; version = version; input = input }))
unfolding marshal unmarshal
marshal-NamesStart name version nil =
    (record { workflow_name = name; version = version; input = doc null }, refl, refl, refl)
marshal-NamesStart name version malformed = tt
marshal-NamesStart name version (doc j) =
    (record { workflow_name = name; version = version; input = doc j }, refl, refl, refl)

Ensures-from_reply :
    {A B : Type 0} (P : Store → List Job → Type 0) (Q : B → Store → List Job → Type 0) (r : Reply A)
    (k : A → Action Store B)
    → ((a : A) → r ≡ found a → Ensures P (k a) Q)
    → Ensures P (from_reply r >>= k) Q
unfolding from_reply ◌>>=◌ pure raise
Ensures-from_reply P Q (found a) k f = record { ensured = λ w p. (f a refl).ensured w p }
Ensures-from_reply P Q (failed e) k f = record { ensured = λ w p. tt }

module _ (host : Host) (t : Bool) (name : String) (input : RawMessage) (s0 : Store)
    (jobs0 : List Job) where
  abbrev AsBefore : Store → List Job → Type 0
  AsBefore s jobs = (s ≡ s0) × (jobs ≡ jobs0)

  -- The run has its first event, and the queue is as it was.
  First : WorkflowDef → String → RawMessage → String → ℕ → Store → List Job → Type 0
  First def run_id raw id now s jobs =
      (load s run_id ≡ event_of id run_id 1 workflow_started raw now ∷ []) × (jobs ≡ jobs0)

  First-Started :
      (def : WorkflowDef) (run_id : String) (raw : RawMessage) (id : String) (now : ℕ) (s : Store)
      (jobs : List Job)
      → get_workflow name host.registry ≡ found def
      → marshal {A = WorkflowStartedData}
          (record { workflow_name = name; version = def.version; input = input })
        ≡ some raw
      → First def run_id raw id now s jobs
      → Started host name input jobs0 run_id s (
          jobs
          ++ record {
            args = workflow_job run_id name def.version;
            max_attempts = 3;
            priority = 0;
            scheduled_at = 0;
          }
            ∷ [])
  unfolding First
  First-Started def run_id raw id now s jobs known written p =
      let (body, told, named, versioned) =
        subst (NamesStart name def.version) written (marshal-NamesStart name def.version input) in
      record {
        def = def;
        event = event_of id run_id 1 workflow_started raw now;
        body = body;
        defined = known;
        stored = p.0;
        type = refl;
        told = told;
        named = named;
        versioned = versioned;
        queued = rw (p.1) refl;
      }

  start_workflow_tx-Started :
      Ensures AsBefore
        (start_workflow_tx host (memory_store t) name input (record { run_id = ""; priority = 0 }))
        (Started host name input jobs0)
  unfolding start_workflow_tx First
  start_workflow_tx-Started = Ensures-after_read AsBefore _ _ _ Reads-check_started (λ _.
      Ensures-from_reply AsBefore _ (get_workflow name host.registry) _ (λ def known.
        Ensures-after_read AsBefore _ _ _ (Reads-fresh_id host) (λ run_id.
          Ensures-or_raise AsBefore _ _ _ _ (λ raw written.
            Ensures-after_read AsBefore _ _ _ (Reads-fresh_id host) (λ id.
              Ensures-after_read AsBefore _ _ _ (Reads-clock host) (λ now.
                Ensures-bind AsBefore (λ _. First def run_id raw id now) _ _ _
                  (Ensures-within AsBefore _ _ _ (
                    Ensures-append_event host (memory_store t) AsBefore _ _
                      (λ s jobs p h. (load-first _ s refl h, p.1))
                      (λ s jobs p h. (load-first_of_batch _ s refl h, p.1))))
                  (λ _.
                    Ensures-bind (First def run_id raw id now)
                      (λ _. Started host name input jobs0 run_id) _ _ _
                      (Ensures-within _ _ _ _ (
                        Ensures-insert_job host (memory_store t) _
                          (λ _. Started host name input jobs0 run_id) _
                          (λ s jobs p. First-Started def run_id raw id now s jobs known written p)))
                      (λ _. Ensures-pure _ _ _ (λ s jobs p. p)))))))))

  start_workflow-Ensures :
      Ensures AsBefore
        (start_workflow host (memory_store t) name input)
        (Started host name input jobs0)
  unfolding start_workflow
  start_workflow-Ensures = Ensures-after_read AsBefore _ _ _ Reads-check_started (λ _.
      Ensures-transaction host (memory_store t) AsBefore (Started host name input jobs0) _ _ (
        Ensures-bind AsBefore (Started host name input jobs0) _ _ _ start_workflow_tx-Started
          (λ run_id. Ensures-pure _ _ _ (λ s jobs p. (refl, p)))))

-- When `StartWorkflow` returns a run id, the run has one event, which says that the workflow was started,
-- under the name that was asked for and the version that the registry gives; and a job to work on the run
-- has joined the end of the queue.
pub start_workflow-Started :
    (host : Host) (t : Bool) (name : String) (input : RawMessage) (w : World Store)
    (run_id : String)
    → (start_workflow host (memory_store t) name input w).0 ≡ ok run_id
    → Started host name input w.jobs run_id
        (start_workflow host (memory_store t) name input w).1.store
        (start_workflow host (memory_store t) name input w).1.jobs
start_workflow-Started host t name input w run_id h =
    Says-ok _ _ run_id
      ((start_workflow-Ensures host t name input w.store w.jobs).ensured w (refl, refl)) h

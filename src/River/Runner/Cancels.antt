-- ===== src/River/Runner/Cancels.antt =====
-- river/runner.go over event/memory/store.go: what has happened to a run when `CancelWorkflow` has
-- returned no error.
use skene.Prelude.{◌≡◌, String, Bool, true, List}
use skene.Event.{Event}
use skene.Event.Data.{started_codec, cancelled_codec}
use skene.Event.Memory.{Store, load}
use skene.Workflow.History.{new_history}
use skene.River.World.{World, Action, Host, Job}
use skene.River.World.Ensures.{Ensures}

module _ (host : Host) (t : Bool) (run_id reason : String) (s0 : Store) (jobs0 : List Job) where
  abbrev Before : Store → List Job → Type 0
  Before s jobs = (s ≡ s0) × (jobs ≡ jobs0)

  abbrev Cancelled : Store → List Job → Type 0
  Cancelled s jobs = ((new_history run_id (load s run_id)).cancelled ≡ true) × (jobs ≡ jobs0)

  abbrev Cancels : Action Store (Unit {0}) → Type 0
  Cancels m = Ensures Before m (λ _. Cancelled)

-- ===== src/Workflow/Map.antt =====
-- workflow/map.go, workflow/replay.go: `Map` and `MapWithOptions`, which execute a child workflow for each
-- item, and the events that they record. The goroutines of a map are threads over the variables of the
-- call; a schedule picks who acts next: 0 is the loop that starts them, k + 1 the k-th goroutine. A
-- goroutine waits to be started while as many are active as the limit allows. The replay of a child
-- touches nothing of its parent, so it is one step of its goroutine, with answers of its own from the
-- world.
pub mod Call
pub mod Collected
pub mod Loop
pub mod Order
pub mod Succeeds
pub mod Results
pub mod Returns
use Prim.Native.Nat.{◌-◌}
use Prim.Native.String.{◌++◌ as join}
use skene.Prelude.{
  ℕ, zero, suc, ◌+◌, String, Bool, true, false, ◌&&◌, Option, none, some, List, [], ◌∷◌, ◌++◌, map,
  length, update_at, decimal, if◌then◌else◌, ltb, leb,
}
use skene.Event.{Event, zero_event, map_started, map_completed, map_failed}
use skene.Event.Json.{Json, Items, no_items, item, arr, RawMessage, nil, doc, marshal_or_nil}
use skene.Event.Data.{
  MapStartedData, MapCompletedData, MapFailedData, map_started_codec, map_completed_codec,
  map_failed_codec,
}
use skene.Workflow.Errors.{Error, new, wrap, error_text, Result, ok, err}
use skene.Workflow.History.{
  MapError, new_history, get_map_results, get_map_error, get_child_output, get_child_error,
}
use skene.Workflow.Step.{Value, no_value, opaque_value, json_value, marshal_any, WorkflowDef}
use skene.Workflow.Thread.{Thread, done, act, ◌>>=◌, ◌>>◌, get, modify, run_rest, run_all, step_at}
use skene.Workflow.Replayer.{Env, Replayer, new_replayer, emit_event, context_error, look}
unfoldable pub use skene.Workflow.Records.{
  record_map_started, record_map_completed, record_map_failed,
}
use skene.Workflow.Replay as Replay
use skene.Workflow.Replay.{ReplayOutput, Replayed, returned, broken, replay, failed}
use skene.Workflow.Child.{
  record_child_spawned, record_child_completed, record_child_failed, or_unknown,
}

module _ (env : Env) where
  -- `fmt.Sprintf("%s-map-%d-%d", ctx.RunID(), mapIndex, i)`
  abbrev pub map_child_id : ℕ → ℕ → String
  map_child_id map_index i =
      join env.run_id (join "-map-" (join (decimal map_index) (join "-" (decimal i))))

-- The variables that the goroutines share: the replayer, `results`, `firstFailedIndex` and `firstError`,
-- and the first error of the errgroup.
pub record Shared (Out : Type 0) : Type 0 where
  pub replayer : Replayer
  pub results : List Out
  pub first_failed_index : ℕ
  pub first_error : Option Error
  pub group : Option Error

-- What a call comes to: a value or an error, or a panic on a nil error.
pub data Called (A : Type 0) : Type 0 where
  came_back : Result A → Called A
  nil_error : Called A

module _ (env : Env) {Out : Type 0} (decode : RawMessage → Result Out) (zero_out : Out) where
  abbrev pub on_replayer : (Replayer → Replayer) → Shared Out → Shared Out
  on_replayer f s = record s { replayer = f s.replayer }

  -- A goroutine returns an error: the first one is kept, and cancels the context of the group.
  abbrev pub fail_group : Error → Shared Out → Shared Out
  fail_group e s = record s { group = elim s.group [ none ↦ some e | some old ↦ some old ] }

  -- The lines under `failMu`
  abbrev pub note_failure : ℕ → Error → Shared Out → Shared Out
  note_failure i e s = elim s.first_error [
    | none ↦ record s { first_failed_index = i; first_error = some e }
    | some old ↦ s
  ]

  -- `results[i] = result`
  abbrev pub set_result : ℕ → Out → Shared Out → Shared Out
  set_result i v s = record s { results = update_at i (λ _. v) s.results }

  -- `gCtx.Err()`
  abbrev pub group_error : Shared Out → Option Error
  group_error s = elim s.group [ none ↦ context_error env s.replayer | some e ↦ some e ]

  abbrev pub Routine : Type 0
  Routine = Thread (Shared Out) (Unit {0})

  -- `return fmt.Errorf(…)` of a goroutine
  abbrev pub give_up : Error → Routine
  give_up e = modify (fail_group e)

  abbrev pub finish_with : ℕ → Result Out → Routine
  finish_with i (ok v) = modify (set_result i v)
  finish_with i (err e) = give_up (wrap "workflow.Map: unmarshal child output" e)

  -- The end of a child that has not failed: a nil output is not marshalled and not decoded.
  abbrev pub complete_item : String → ℕ → Value → Routine
  complete_item id i no_value =
      modify (on_replayer (record_child_completed env id nil)) >> finish_with i (ok zero_out)
  complete_item id i opaque_value = give_up (new "workflow.Map: marshal output for child")
  complete_item id i (json_value j) =
      modify (on_replayer (record_child_completed env id (doc j))) >> finish_with i (decode (doc j))

  -- The end of a child that has failed
  abbrev pub fail_item : String → ℕ → Option Error → String → Routine
  fail_item id i e text =
      modify (on_replayer (record_child_failed env id e))
      >> (modify (note_failure i (or_unknown e)) >> give_up (wrap text (or_unknown e)))

  abbrev pub end_item : String → ℕ → Replayed → Routine
  end_item id i (broken e) = fail_item id i (some e) "child error"
  end_item id i (returned o) = elim o.result [
    | failed ↦ fail_item id i o.error "child failed"
    | _ ↦ complete_item id i o.final_output
  ]
  end_item id i Replayed.out_of_fuel = give_up (new "out of fuel")

  -- What the world answers to the child of an item.
  abbrev pub item_env : Env → WorkflowDef → String → Value → Env
  item_env answers wf id x = record answers { workflow = wf; run_id = id; input = x }

  -- `childReplayer.Replay`
  abbrev pub replay_item : Env → WorkflowDef → String → Value → Replayed
  replay_item answers wf id x =
      (replay (item_env answers wf id x) (new_replayer (new_history id []))).0

  abbrev pub spawn_and_replay : Env → WorkflowDef → String → ℕ → Value → Option RawMessage → Routine
  spawn_and_replay answers wf id i x none = give_up (new "workflow.Map: marshal input for child")
  spawn_and_replay answers wf id i x (some input_json) =
      modify (on_replayer (record_child_spawned env id wf.name input_json))
      >> end_item id i (replay_item answers wf id x)

  abbrev pub unless_cancelled : Option Error → Routine → Routine
  unless_cancelled (some e) t = give_up e
  unless_cancelled none t = t

  -- The function that is given to `g.Go`
  unfoldable pub item_routine : Env → WorkflowDef → String → ℕ → Value → Routine
  unfolding ◌>>=◌ record_child_spawned record_child_completed record_child_failed
  item_routine answers wf id i x =
      act (on_replayer (look env))
        (λ s. unless_cancelled (group_error s) (spawn_and_replay answers wf id i x (marshal_any x)))

  -- What the loop does with an item: its output is on record, its failure is, or it is executed.
  pub data Start : Type 0 where
    on_record : Result Out → Start
    failed_before : String → Start
    to_execute : Start

  abbrev pub start_of : Option RawMessage → Option String → Start
  start_of (some raw) text = on_record (decode raw)
  start_of none (some text) = failed_before text
  start_of none none = to_execute

  abbrev pub is_active : Routine → Bool
  is_active (done _) = false
  is_active (act _ _) = true

  abbrev pub active : List Routine → ℕ
  active [] = 0
  active (t ∷ ts) = let n = active ts in if is_active t then n + 1 else n

  -- `g.Go` blocks; a limit that is 0 or negative is none.
  abbrev pub is_blocked : ℕ → List Routine → Bool
  is_blocked limit ts = ltb 0 limit && leb limit (active ts)

  module _ (answers : ℕ → Env) (wf : WorkflowDef) (map_index limit : ℕ) where
    abbrev pub id_of : ℕ → String
    id_of i = map_child_id env map_index i

    unfoldable pub begin_item : ℕ → Shared Out → Start
    begin_item i s =
        start_of (get_child_output s.replayer.history (id_of i))
          (get_child_error s.replayer.history (id_of i))

    abbrev pub failed_child : String → Error
    failed_child text = new (join "child workflow failed: " text)

    abbrev pub routine_of : ℕ → Value → Routine
    routine_of i x = item_routine (answers i) wf (id_of i) i x

    -- The loop to its end, and then `g.Wait`: when the loop cannot go on, the goroutines do, to their ends.
    unfoldable pub drain : ℕ → List Value → List Routine → Shared Out → Option Error × Shared Out
    unfolding begin_item run_rest item_routine
    drain i [] ts s = (none, (run_rest ts s).1)
    drain i (x ∷ xs) ts s = elim (begin_item i s) [
      | on_record (err e) ↦
          (some (wrap "workflow.Map: unmarshal child output" e), (run_rest ts s).1)
      | on_record (ok v) ↦ drain (suc i) xs ts (set_result i v s)
      | failed_before text ↦ drain (suc i) xs ts (note_failure i (failed_child text) s)
      | to_execute ↦
          let waited = drain (suc i) xs (routine_of i x ∷ []) (run_rest ts s).1 in
          let at_once = drain (suc i) xs (ts ++ routine_of i x ∷ []) s in
          if is_blocked limit ts then waited else at_once
    ]

    -- The loop and the goroutines under a schedule, from the item at the index on. An error is the one that
    -- the loop returns before `g.Wait`; its goroutines go on.
    unfoldable pub run_map :
        List ℕ → ℕ → List Value → List Routine → Shared Out → Option Error × Shared Out
    unfolding drain step_at run_all begin_item item_routine
    run_map [] i xs ts s = drain i xs ts s
    run_map (suc k ∷ schedule) i xs ts s =
        let (us, s') = step_at k ts s in run_map schedule i xs us s'
    run_map (zero ∷ schedule) i [] ts s = run_map schedule i [] ts s
    run_map (zero ∷ schedule) i (x ∷ xs) ts s = elim (begin_item i s) [
      | on_record (err e) ↦ (
        some (wrap "workflow.Map: unmarshal child output" e),
        (run_all (map (λ k. k - 1) schedule) ts s).1,
      )
      | on_record (ok v) ↦ run_map schedule (suc i) xs ts (set_result i v s)
      | failed_before text ↦ run_map schedule (suc i) xs ts (note_failure i (failed_child text) s)
      | to_execute ↦
          let waits = run_map schedule i (x ∷ xs) ts s in
          let goes = run_map schedule (suc i) xs (ts ++ routine_of i x ∷ []) s in
          if is_blocked limit ts then waits else goes
    ]

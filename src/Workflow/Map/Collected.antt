-- ===== src/Workflow/Map/Collected.antt =====
-- workflow/map.go: the actions of the goroutines of a map, and what they make of its results.
use skene.Prelude.{
  ◌≡◌, refl, ◌∙◌, ℕ, String, Bool, true, false, Option, none, some, List, length, length-update_at,
  get_elem?, get_elem?-written, get_elem?-update_at, get_elem?-bound, Option_cases, inl, inr, ◌⊎◌,
  subst, arith,
}
use skene.Event.Json.{RawMessage, nil, doc}
use skene.Workflow.Errors.{Error, Result, ok, err, wrap}
use skene.Workflow.History.{History, get_child_output}
use skene.Workflow.Step.{Value, no_value, opaque_value, json_value, marshal_any, WorkflowDef}
use skene.Workflow.Thread.{done, act, ◌>>=◌}
use skene.Workflow.Thread.Keeps.{Keeps}
use skene.Workflow.Thread.Leads.{Steady, Leads}
use skene.Workflow.Replayer.{Env, Replayer, emit_event, look}
use skene.Workflow.Replay.{
  ReplayOutput, ReplayResult, Replayed, returned, broken, failed, completed, waiting, suspended,
}
use skene.Workflow.Child.{
  record_child_spawned, record_child_completed, record_child_failed, or_unknown,
}
use skene.Workflow.Map.{
  Shared, Routine, on_replayer, fail_group, note_failure, set_result, group_error, give_up,
  finish_with, complete_item, fail_item, end_item, replay_item, spawn_and_replay, unless_cancelled,
  item_routine, map_child_id,
}

abbrev pub is_set : Option Error → Bool
is_set none = false
is_set (some e) = true

module _ (env : Env) {Out : Type 0} (decode : RawMessage → Result Out) (zero_out : Out)
    (answers : ℕ → Env) (wf : WorkflowDef) (map_index : ℕ) (history : History)
    (items : List Value) where
  -- A value that a child's output stands for: nil is the zero value.
  abbrev pub Reads : Value → Out → Type 0
  Reads no_value v = v ≡ zero_out
  Reads opaque_value v = ⊥
  Reads (json_value j) v = decode (doc j) ≡ ok v

  abbrev pub id_of : ℕ → String
  id_of i = map_child_id env map_index i

  -- The value of an item: that of the child's output on record, or of the output of the child's replay with
  -- the item as its input.
  pub record ValueOf (i : ℕ) (v : Out) : Type 0 where
    pub item : Value
    pub there : get_elem? items i ≡ some item
    pub source :
        ((raw : RawMessage) × (get_child_output history (id_of i) ≡ some raw) × (decode raw ≡ ok v))
        ⊎ ((o : ReplayOutput) × (replay_item env decode zero_out (answers i) wf (id_of i) item
              ≡ returned o)
            × Reads o.final_output v)

  -- The group has failed, a failure is noted, or the item has its value.
  abbrev pub Settled : ℕ → Shared Out → Type 0
  Settled i s =
      (is_set s.group ≡ true)
      ⊎ (is_set s.first_error ≡ true)
      ⊎ ((v : Out) × (get_elem? s.results i ≡ some v) × ValueOf i v)

  -- What every action keeps.
  abbrev pub Kept : Shared Out → Type 0
  Kept s = (s.replayer.history ≡ history) × (length s.results ≡ length items)

  -- An action that keeps both.
  pub record Good (f : Shared Out → Shared Out) : Type 0 where
    pub kept : (s : Shared Out) → Kept s → Kept (f s)
    pub settled : (i : ℕ) (s : Shared Out) → Settled i s → Settled i (f s)

  Good-on_replayer :
      (f : Replayer → Replayer)
      → ((r : Replayer) → (f r).history ≡ r.history)
      → Good (on_replayer env decode zero_out f)
  Good-on_replayer f h = record { kept = λ s k. (h s.replayer ∙ k.0, k.1); settled = λ i s q. q }

  group_set :
      (e : Error) (o : Option Error)
      → is_set (elim o [ none ↦ some e | some old ↦ some old ]) ≡ true
  group_set e none = refl
  group_set e (some old) = refl

  pub Good-fail_group : (e : Error) → Good (fail_group env decode zero_out e)
  Good-fail_group e = record { kept = λ s k. k; settled = λ i s q. inl (group_set e s.group) }

  pub Good-note_failure : (j : ℕ) (e : Error) → Good (note_failure env decode zero_out j e)
  Good-note_failure j e = record {
    kept = λ s k. Option_cases Kept s.first_error _ _ (λ _. k) (λ _ _. k);
    settled = λ i s q. Option_cases (Settled i) s.first_error _ _ (λ _. inr (inl refl)) (λ _ _. q);
  }

  pub Good-set_result : (j : ℕ) (v : Out) → ValueOf j v → Good (set_result env decode zero_out j v)
  Good-set_result j v r = record {
    kept = λ s k. (k.0, length-update_at j (λ _. v) s.results ∙ k.1);
    settled = λ i s q. elim q [
      | inl g ↦ inl g
      | inr (inl e) ↦ inr (inl e)
      | inr (inr (w, there, of)) ↦ elim (get_elem?-update_at i j v w s.results there) [
        | inl same ↦ inr (inr (w, same, of))
        | inr (at, new) ↦ inr (inr (v, new, subst (λ k. ValueOf k v) at r))
      ]
    ];
  }

  -- What holds of a goroutine: its actions keep what they have to, and one of them settles its item.
  pub record Works (i : ℕ) (t : Routine env decode zero_out) : Type 0 where
    pub keeps : Keeps Kept t
    pub steady : (j : ℕ) → Steady (Settled j) t
    pub leads : Leads Kept (Settled i) t

  -- An action before a goroutine
  Works-act :
      (i : ℕ) (f : Shared Out → Shared Out) (k : Shared Out → Routine env decode zero_out)
      → Good f
      → ((s : Shared Out) → Works i (k s))
      → Works i (act f k)
  Works-act i f k g h = record {
    keeps = λ s p. (g.kept s p, (h s).keeps);
    steady = λ j s. (g.settled j s, (h s).steady j);
    leads = λ s p. inr (h s).leads;
  }

  -- The last action
  Works-last :
      (i : ℕ) (f : Shared Out → Shared Out)
      → Good f
      → ((s : Shared Out) → Kept s → Settled i (f s))
      → Works i (act f (λ _. done tt))
  Works-last i f g h = record {
    keeps = λ s p. (g.kept s p, tt);
    steady = λ j s. (g.settled j s, tt);
    leads = λ s p. inl (h s p);
  }

  Works-give_up : (i : ℕ) (e : Error) → Works i (give_up env decode zero_out e)
  Works-give_up i e = Works-last i _ (Good-fail_group e) (λ s p. inl (group_set e s.group))

  pub set_result-Settled :
      (i : ℕ) (v : Out) (s : Shared Out)
      → ValueOf i v
      → Kept s
      → Settled i (set_result env decode zero_out i v s)
  set_result-Settled i v s r k =
      let bound = get_elem?-bound i r.item items r.there in
      inr (inr (v, get_elem?-written i v s.results (omega (arith, bound, k.1)), r))

  Works-finish :
      (i : ℕ) (o : Result Out)
      → ((v : Out) → o ≡ ok v → ValueOf i v)
      → Works i (finish_with env decode zero_out i o)
  Works-finish i (ok v) h =
      Works-last i _ (Good-set_result i v (h v refl)) (λ s k. set_result-Settled i v s (h v refl) k)
  Works-finish i (err e) h = Works-give_up i _

  record_keeps :
      (id : String) (raw : RawMessage)
      → Good (on_replayer env decode zero_out (record_child_completed env id raw))
  unfolding record_child_completed emit_event
  record_keeps id raw = Good-on_replayer _ (λ r. refl)

  Works-complete :
      (i : ℕ) (output : Value)
      → ((v : Out) → Reads output v → ValueOf i v)
      → Works i (complete_item env decode zero_out (id_of i) i output)
  unfolding ◌>>=◌
  Works-complete i no_value h =
      Works-act i _ _ (record_keeps (id_of i) nil)
        (λ s. Works-finish i (ok zero_out) (λ v e. let e' : v ≡ zero_out = cc in h v e'))
  Works-complete i opaque_value h = Works-give_up i _
  Works-complete i (json_value j) h =
      Works-act i _ _ (record_keeps (id_of i) (doc j)) (λ s. Works-finish i (decode (doc j)) h)

  Works-fail :
      (i : ℕ) (e : Option Error) (text : String)
      → Works i (fail_item env decode zero_out (id_of i) i e text)
  unfolding ◌>>=◌ record_child_failed emit_event
  Works-fail i e text =
      Works-act i _ _ (Good-on_replayer (record_child_failed env (id_of i) e) (λ r. refl)) (λ s.
        Works-act i _ _ (Good-note_failure i (or_unknown e))
          (λ s'. Works-give_up i (wrap text (or_unknown e))))

  Works-end :
      (i : ℕ) (x : Value) (p : Replayed)
      → get_elem? items i ≡ some x
      → replay_item env decode zero_out (answers i) wf (id_of i) x ≡ p
      → Works i (end_item env decode zero_out (id_of i) i p)
  Works-end i x (broken e) there from = Works-fail i (some e) _
  Works-end i x Replayed.out_of_fuel there from = Works-give_up i _
  Works-end i x (returned o) there from = go o.result
    where
      value_of : (v : Out) → Reads o.final_output v → ValueOf i v
      value_of v h = record { item = x; there = there; source = inr (o, from, h) }

      go :
          (result : ReplayResult)
          → Works i (elim result [
            | failed ↦ fail_item env decode zero_out (id_of i) i o.error "child failed"
            | _ ↦ complete_item env decode zero_out (id_of i) i o.final_output
          ])
      go failed = Works-fail i o.error _
      go completed = Works-complete i o.final_output value_of
      go waiting = Works-complete i o.final_output value_of
      go suspended = Works-complete i o.final_output value_of

  -- The goroutine of an item works, whatever it meets.
  pub Works-item_routine :
      (i : ℕ) (x : Value)
      → get_elem? items i ≡ some x
      → Works i (item_routine env decode zero_out (answers i) wf (id_of i) i x)
  unfolding item_routine ◌>>=◌ record_child_spawned emit_event look
  Works-item_routine i x there =
      Works-act i _ _ (Good-on_replayer (look env) (λ r. refl))
        (λ s. unless (group_error env decode zero_out s) (spawned (marshal_any x)))
    where
      spawned :
          (o : Option RawMessage)
          → Works i (spawn_and_replay env decode zero_out (answers i) wf (id_of i) i x o)
      spawned none = Works-give_up i _
      spawned (some input_json) =
          Works-act i _ _
            (Good-on_replayer (record_child_spawned env (id_of i) wf.name input_json) (λ r. refl))
            (λ s. Works-end i x _ there refl)

      unless :
          (o : Option Error) {t : Routine env decode zero_out}
          → Works i t
          → Works i (unless_cancelled env decode zero_out o t)
      unless (some e) w = Works-give_up i e
      unless none w = w

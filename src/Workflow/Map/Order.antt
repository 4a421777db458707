-- ===== src/Workflow/Map/Order.antt =====
-- workflow/map.go: the results of a map, under every schedule and every limit.
use skene.Prelude.{
  ◌≡◌, refl, sym, ap, ◌∙◌, subst, ℕ, suc, ◌<◌, ◌≤◌, true, String, Option, none, some, List, [], ◌∷◌,
  ◌++◌, append-nil, append_assoc, length, length-append, All, All-append, get_elem?,
  get_elem?-middle, Option_cases, inl, inr, ◌⊎◌, arith,
}
use skene.Event.Json.{RawMessage}
use skene.Workflow.Errors.{Error, Result, ok}
use skene.Workflow.History.{History, get_child_output, get_child_error}
use skene.Workflow.Step.{Value, WorkflowDef}
use skene.Workflow.Thread.{run_rest, step_at}
use skene.Workflow.Thread.Keeps.{Keeps, Keeps-run_rest, Keeps-step_at}
use skene.Workflow.Thread.Leads.{
  Steady, Leads, SomeLeads, SomeLeads-snoc_old, SomeLeads-snoc_new, Pursues, Pursues-run_rest,
  Steady-step_at, SomeLeads-step_at,
}
use skene.Workflow.Replayer.{Env}
use skene.Workflow.Map.{
  Shared, Routine, set_result, note_failure, Start, on_record, start_of, begin_item, routine_of,
  run_map,
}
use skene.Workflow.Map.Loop.{Loop, run_map_ends}
use skene.Workflow.Map.Collected.{
  id_of, ValueOf, Settled, Kept, Good, Good-set_result, Good-note_failure, set_result-Settled,
  Works, Works-item_routine, is_set,
}

module _ (env : Env) {Out : Type 0} (decode : RawMessage → Result Out) (zero_out : Out)
    (answers : ℕ → Env) (wf : WorkflowDef) (map_index limit : ℕ) (history : History)
    (items : List Value) (i : ℕ) (inside : i < length items) where
  abbrev pub KeptS : Shared Out → Type 0
  KeptS = Kept env decode zero_out answers wf map_index history items

  abbrev pub SettledS : Shared Out → Type 0
  SettledS = Settled env decode zero_out answers wf map_index history items i

  abbrev pub R : Type 0
  R = Routine env decode zero_out

  abbrev child_id : ℕ → String
  child_id = id_of env decode zero_out answers wf map_index history items

  abbrev GoodS : (Shared Out → Shared Out) → Type 0
  GoodS = Good env decode zero_out answers wf map_index history items

  -- The loop is before the item, or the item is settled, or a goroutine settles it.
  abbrev pub Goal : ℕ → List R → Shared Out → Type 0
  Goal idx ts s = (idx ≤ i) ⊎ SettledS s ⊎ SomeLeads KeptS SettledS ts

  pub record Going (idx : ℕ) (xs : List Value) (ts : List R) (s : Shared Out) : Type 0 where
    pub before : List Value
    pub split : items ≡ before ++ xs
    pub at : length before ≡ idx
    pub invariant : KeptS s
    pub keeps : All (Keeps KeptS) ts
    pub steady : All (Steady SettledS) ts
    pub goal : Goal idx ts s

  abbrev pub Ends : Option Error × Shared Out → Type 0
  Ends (none, s) = KeptS s × SettledS s
  Ends (some e, s) = Unit

  here :
      (idx : ℕ) (x : Value) (xs : List Value) (ts : List R) (s : Shared Out)
      → Going idx (x ∷ xs) ts s
      → get_elem? items idx ≡ some x
  here idx x xs ts s g =
      subst (λ l. get_elem? l idx ≡ some x) (sym g.split)
        (subst (λ k. get_elem? (g.before ++ x ∷ xs) k ≡ some x) g.at
          (get_elem?-middle g.before x xs))

  -- The loop goes on to the next item.
  next :
      (idx : ℕ) (x : Value) (xs : List Value) (ts us : List R) (s s' : Shared Out)
      → Going idx (x ∷ xs) ts s
      → KeptS s'
      → All (Keeps KeptS) us
      → All (Steady SettledS) us
      → ((idx ≡ i) ⊎ SettledS s ⊎ SomeLeads KeptS SettledS ts
          → SettledS s' ⊎ SomeLeads KeptS SettledS us)
      → Going (suc idx) xs us s'
  next idx x xs ts us s s' g p k q step = record {
    before = g.before ++ x ∷ [];
    split = g.split ∙ sym (append_assoc g.before (x ∷ []) xs);
    at = omega (arith, length-append g.before (x ∷ []), g.at);
    invariant = p;
    keeps = k;
    steady = q;
    goal = elim (g.goal) [
      | inl below ↦ later (le_or_lt (suc idx) i) below
      | inr now ↦ inr (step (inr now))
    ];
  }
    where
      le_or_lt : (a b : ℕ) → (a ≤ b) ⊎ (b < a)
      le_or_lt a b = ground arith

      later : (suc idx ≤ i) ⊎ (i < suc idx) → idx ≤ i → Goal (suc idx) us s'
      later (inl l) below = inl l
      later (inr m) below = inr (step (inl (omega arith)))

  start-value :
      (idx : ℕ) (s : Shared Out) (x : Value) (v : Out)
      → KeptS s
      → get_elem? items idx ≡ some x
      → begin_item env decode zero_out answers wf map_index limit idx s ≡ on_record (ok v)
      → ValueOf env decode zero_out answers wf map_index history items idx v
  unfolding begin_item
  start-value idx s x v k there h =
      go (get_child_output s.replayer.history (child_id idx))
        (get_child_error s.replayer.history (child_id idx)) refl h
    where
      go :
          (o : Option RawMessage) (t : Option String)
          → get_child_output s.replayer.history (child_id idx) ≡ o
          → start_of env decode zero_out o t ≡ on_record (ok v)
          → ValueOf env decode zero_out answers wf map_index history items idx v
      go (some raw) t e h = record {
        item = x;
        there = there;
        source =
            inl (raw, subst (λ l. get_child_output l (child_id idx) ≡ some raw) k.0 e, value h);
      }
        where
          value :
              {r : Result Out}
              → ◌≡◌ {A = Start env decode zero_out} (on_record r) (on_record (ok v))
              → r ≡ ok v
          value h = cc
      go none (some text) e h = cc
      go none none e h = cc

  -- The loop does an action of its own.
  next-by :
      (idx : ℕ) (x : Value) (xs : List Value) (ts : List R) (s : Shared Out)
      (f : Shared Out → Shared Out)
      → Going idx (x ∷ xs) ts s
      → GoodS f
      → (idx ≡ i → SettledS (f s))
      → Going (suc idx) xs ts (f s)
  next-by idx x xs ts s f g good settles =
      next idx x xs ts ts s (f s) g (good.kept s g.invariant) g.keeps g.steady (λ q. elim q [
        | inl same ↦ inl (settles same)
        | inr (inl now) ↦ inl (good.settled i s now)
        | inr (inr l) ↦ inr l
      ])

  next-value :
      (idx : ℕ) (x : Value) (xs : List Value) (ts : List R) (s : Shared Out) (v : Out)
      → Going idx (x ∷ xs) ts s
      → begin_item env decode zero_out answers wf map_index limit idx s ≡ on_record (ok v)
      → Going (suc idx) xs ts (set_result env decode zero_out idx v s)
  next-value idx x xs ts s v g h =
      let r = start-value idx s x v g.invariant (here idx x xs ts s g) h in
      next-by idx x xs ts s (set_result env decode zero_out idx v) g
        (Good-set_result env decode zero_out answers wf map_index history items idx v r)
        (λ same.
          subst
            (λ k.
              Settled env decode zero_out answers wf map_index history items k
                (set_result env decode zero_out idx v s))
            same
            (set_result-Settled env decode zero_out answers wf map_index history items idx v s r
              g.invariant))

  noted :
      (idx : ℕ) (e : Error) (s : Shared Out)
      → is_set (note_failure env decode zero_out idx e s).first_error ≡ true
  noted idx e s =
      Option_cases (λ (x : Shared Out). is_set x.first_error ≡ true) s.first_error _ _ (λ _. refl)
        (λ old h. ap is_set h)

  next-failure :
      (idx : ℕ) (x : Value) (xs : List Value) (ts : List R) (s : Shared Out) (e : Error)
      → Going idx (x ∷ xs) ts s
      → Going (suc idx) xs ts (note_failure env decode zero_out idx e s)
  next-failure idx x xs ts s e g =
      next-by idx x xs ts s (note_failure env decode zero_out idx e) g
        (Good-note_failure env decode zero_out answers wf map_index history items idx e)
        (λ same. inr (inl (noted idx e s)))

  works :
      (idx : ℕ) (x : Value) (xs : List Value) (ts : List R) (s : Shared Out)
      → Going idx (x ∷ xs) ts s
      → Works env decode zero_out answers wf map_index history items idx
          (routine_of env decode zero_out answers wf map_index limit idx x)
  works idx x xs ts s g =
      Works-item_routine env decode zero_out answers wf map_index history items idx x
        (here idx x xs ts s g)

  own :
      (idx : ℕ) (t : R)
      → Works env decode zero_out answers wf map_index history items idx t
      → idx ≡ i
      → Leads KeptS SettledS t
  own idx t w same =
      subst (λ k. Leads KeptS (Settled env decode zero_out answers wf map_index history items k) t)
        same w.leads

  -- The loop starts a goroutine.
  next-started :
      (idx : ℕ) (x : Value) (xs : List Value) (ts : List R) (s : Shared Out)
      → Going idx (x ∷ xs) ts s
      → Going
          (suc idx)
          xs
          (ts ++ routine_of env decode zero_out answers wf map_index limit idx x ∷ [])
          s
  next-started idx x xs ts s g =
      let w = works idx x xs ts s g in
      next idx x xs ts _ s s g g.invariant (All-append (Keeps KeptS) ts _ g.keeps (w.keeps, tt))
        (All-append (Steady SettledS) ts _ g.steady (w.steady i, tt))
        (λ q. elim q [
          | inl same ↦ inr (SomeLeads-snoc_new KeptS SettledS ts _ (own idx _ w same))
          | inr (inl now) ↦ inl now
          | inr (inr l) ↦ inr (SomeLeads-snoc_old KeptS SettledS ts _ l)
        ])

  pursues :
      (ts : List R) (s : Shared Out)
      → KeptS s
      → All (Keeps KeptS) ts
      → All (Steady SettledS) ts
      → SettledS s ⊎ SomeLeads KeptS SettledS ts
      → Pursues KeptS SettledS ts s
  pursues ts s p k q goal = record { invariant = p; keeps = k; steady = q; goal = goal }

  -- The goroutines end before the loop starts another one.
  next-waited :
      (idx : ℕ) (x : Value) (xs : List Value) (ts : List R) (s : Shared Out)
      → Going idx (x ∷ xs) ts s
      → Going
          (suc idx)
          xs
          (routine_of env decode zero_out answers wf map_index limit idx x ∷ [])
          (run_rest ts s).1
  next-waited idx x xs ts s g =
      let w = works idx x xs ts s g in
      next idx x xs ts _ s (run_rest ts s).1 g (Keeps-run_rest KeptS ts s g.keeps g.invariant)
        (w.keeps, tt) (w.steady i, tt)
        (λ q. elim q [
          | inl same ↦ inr (inl (own idx _ w same))
          | inr goal ↦
              inl
                (Pursues-run_rest KeptS SettledS ts s
                  (pursues ts s g.invariant g.keeps g.steady goal)).1
        ])

  -- A goroutine acts.
  next-acted :
      (k idx : ℕ) (xs : List Value) (ts : List R) (s : Shared Out)
      → Going idx xs ts s
      → Going idx xs (step_at k ts s).0 (step_at k ts s).1
  next-acted k idx xs ts s g =
      let (keeps, p) = Keeps-step_at KeptS k ts s g.keeps g.invariant in
      let (steady, q) = Steady-step_at KeptS SettledS k ts s g.steady in
      record {
        before = g.before;
        split = g.split;
        at = g.at;
        invariant = p;
        keeps = keeps;
        steady = steady;
        goal = elim (g.goal) [
          | inl below ↦ inl below
          | inr (inl now) ↦ inr (inl (q now))
          | inr (inr l) ↦ inr (SomeLeads-step_at KeptS SettledS k ts s g.invariant l)
        ];
      }

  going : Loop env decode zero_out answers wf map_index limit Going Ends
  going = record {
    ends = λ idx ts s g. elim (g.goal) [
      | inl below ↦
          absurd (omega (arith, below, inside, g.at, ap length (g.split ∙ append-nil g.before)))
      | inr goal ↦
          Pursues-run_rest KeptS SettledS ts s (pursues ts s g.invariant g.keeps g.steady goal)
    ];
    refused = λ idx x xs ts s e s' g h. tt;
    value = λ idx x xs ts s v g h. next-value idx x xs ts s v g h;
    failure = λ idx x xs ts s text g h. next-failure idx x xs ts s _ g;
    started = λ idx x xs ts s g h. next-started idx x xs ts s g;
    waited = λ idx x xs ts s g h. next-waited idx x xs ts s g;
    acted = λ k idx xs ts s g. next-acted k idx xs ts s g;
  }

  pub run_map-Ends :
      (schedule : List ℕ) (idx : ℕ) (xs : List Value) (ts : List R) (s : Shared Out)
      → Going idx xs ts s
      → Ends (run_map env decode zero_out answers wf map_index limit schedule idx xs ts s)
  run_map-Ends schedule idx xs ts s g =
      run_map_ends env decode zero_out answers wf map_index limit Going Ends going schedule idx xs
        ts s g

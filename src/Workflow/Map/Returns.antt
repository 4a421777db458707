-- ===== src/Workflow/Map/Returns.antt =====
-- workflow/map.go: `MapWithOptions` comes to an end with the values of its children.
use skene.Prelude.{
  ◌≡◌, refl, sym, ap, ◌∙◌, Option_cases, ℕ, ◌<◌, Option, none, some, List, [], ◌∷◌, length,
  get_elem?,
}
use skene.Event.Json.{Json, Items, item, RawMessage}
use skene.Workflow.Errors.{Error, Result, ok}
use skene.Workflow.History.{get_map_results, get_map_error}
use skene.Workflow.Step.{Value, WorkflowDef}
use skene.Workflow.Replayer.{Env, Replayer, emit_event}
use skene.Workflow.Map.{Shared, Called, came_back, record_map_started}
use skene.Workflow.Map.Call.{encode_all, after_wait, first_shared, execute_map, map_with_options}
use skene.Workflow.Map.Succeeds.{Sound, Fine, run_map-Fine}
use skene.Workflow.Map.Results.{Collected, map_with_options-Collected}

clash : {A : Type 0} {a : A} → ¬ (◌≡◌ {A = Option A} none (some a))
clash e = cc

encode_all-some :
    {Out : Type 0} (encode : Out → Option Json) (vs : List Out)
    → ((v : Out) → (j : Json) × (encode v ≡ some j))
    → (js : Items) × (encode_all encode vs ≡ some js)
unfolding encode_all
encode_all-some encode [] h = (_, refl)
encode_all-some encode (v ∷ vs) h =
    let (j, e) = h v in
    let (js, e') = encode_all-some encode vs h in
    let joined : encode_all encode (v ∷ vs) ≡ some (item j js) = rw (e, e') refl in (_, joined)

module _ (env : Env) {Out : Type 0} (decode : RawMessage → Result Out) (zero_out : Out)
    (encode : Out → Option Json) (answers : ℕ → Env) (wf : WorkflowDef) (map_index limit : ℕ)
    (schedule : List ℕ) where
  abbrev call : List Value → Replayer → Called (List Out) × Replayer
  call = map_with_options env decode zero_out encode answers wf map_index limit schedule

  after_wait-ok :
      (items : List Value) (r : Replayer) (o : Option Error × Shared Out)
      → ((v : Out) → (j : Json) × (encode v ≡ some j))
      → Fine env decode zero_out answers wf map_index r.history items o
      → (vs : List Out) × ((after_wait env decode zero_out encode map_index o).0
          ≡ came_back (ok vs))
  unfolding after_wait
  after_wait-ok items r (some e, s) encodes fine = absurd (clash (sym fine.0))
  after_wait-ok items r (none, s) encodes (_, (h, g, no_group, no_failure)) =
      let (js, j) = encode_all-some encode s.results encodes in
      (
        s.results,
        Option_cases Good s.group _ _
            (λ _.
              Option_cases Good s.first_error _ _
                (λ _.
                  Option_cases Good (encode_all encode s.results) _ _
                    (λ k. absurd (clash (sym k ∙ j))) (λ is k. refl))
                (λ f k. absurd (clash (sym no_failure ∙ k))))
            (λ e k. absurd (clash (sym no_group ∙ k))),
      )
    where
      Good : Called (List Out) × Replayer → Type 0
      Good c = c.0 ≡ came_back (ok s.results)

  execute_map-ok :
      (items : List Value) (r : Replayer)
      → ((n : ℕ) → env.context_err n ≡ none)
      → r.group ≡ none
      → ((v : Out) → (j : Json) × (encode v ≡ some j))
      → ((i : ℕ) (x : Value)
          → get_elem? items i ≡ some x
          → Sound env decode zero_out answers wf map_index r.history items i x)
      → (vs : List Out) × ((execute_map env decode zero_out encode answers wf map_index limit
            schedule items r).0
          ≡ came_back (ok vs))
  unfolding execute_map record_map_started emit_event
  execute_map-ok items r uncancelled no_group encodes sound = after_wait-ok items r _ encodes (
      run_map-Fine env decode zero_out answers wf map_index r.history items uncancelled limit sound
        schedule
        (first_shared env decode zero_out encode items
          (record_map_started env map_index (length items) r))
        (refl, no_group, refl, refl))

  -- Nothing of the map is on record.
  call_fresh :
      (x : Value) (xs : List Value) (r : Replayer)
      → get_map_results r.history map_index ≡ none
      → get_map_error r.history map_index ≡ none
      → call (x ∷ xs) r
        ≡ execute_map env decode zero_out encode answers wf map_index limit schedule (x ∷ xs) r
  unfolding map_with_options
  call_fresh x xs r fresh no_failure =
      Option_cases Executed (get_map_results r.history map_index) _ _
        (λ _.
          Option_cases Executed (get_map_error r.history map_index) _ _ (λ _. refl)
            (λ e h. absurd (clash (sym no_failure ∙ h))))
        (λ raw h. absurd (clash (sym fresh ∙ h)))
    where
      Executed : Called (List Out) × Replayer → Type 0
      Executed c =
          c ≡ execute_map env decode zero_out encode answers wf map_index limit schedule (x ∷ xs) r

  map_with_options-ok :
      (items : List Value) (r : Replayer)
      → ((n : ℕ) → env.context_err n ≡ none)
      → r.group ≡ none
      → ((v : Out) → (j : Json) × (encode v ≡ some j))
      → get_map_results r.history map_index ≡ none
      → get_map_error r.history map_index ≡ none
      → ((i : ℕ) (x : Value)
          → get_elem? items i ≡ some x
          → Sound env decode zero_out answers wf map_index r.history items i x)
      → (vs : List Out) × ((call items r).0 ≡ came_back (ok vs))
  unfolding map_with_options
  map_with_options-ok [] r uncancelled no_group encodes fresh no_failure sound = ([], refl)
  map_with_options-ok (x ∷ xs) r uncancelled no_group encodes fresh no_failure sound =
      let (vs, e) = execute_map-ok (x ∷ xs) r uncancelled no_group encodes sound in
      (vs, ap (λ c. c.0) (call_fresh x xs r fresh no_failure) ∙ e)

-- Of children that have not failed, `MapWithOptions` returns the values, under every limit and every order in
-- which its goroutines act, if the context is not cancelled, the map is not on record, and each value can
-- be marshalled: as many values as there are items, each at its item's place.
pub map_with_options_returns :
    (env : Env) {Out : Type 0} (decode : RawMessage → Result Out) (zero_out : Out)
    (encode : Out → Option Json) (answers : ℕ → Env) (wf : WorkflowDef) (map_index limit : ℕ)
    (schedule : List ℕ) (items : List Value) (r : Replayer)
    → ((n : ℕ) → env.context_err n ≡ none)
    → r.group ≡ none
    → ((v : Out) → (j : Json) × (encode v ≡ some j))
    → get_map_results r.history map_index ≡ none
    → get_map_error r.history map_index ≡ none
    → ((i : ℕ) (x : Value)
        → get_elem? items i ≡ some x
        → Sound env decode zero_out answers wf map_index r.history items i x)
    → (vs : List Out) × ((map_with_options env decode zero_out encode answers wf map_index limit
          schedule items r).0
        ≡ came_back (ok vs))
      × ((i : ℕ)
          → i < length items
          → (length vs ≡ length items)
            × Collected env decode zero_out encode answers wf map_index limit schedule items r vs i)
map_with_options_returns env decode zero_out encode answers wf map_index limit schedule items r
      uncancelled no_group encodes fresh no_failure sound =
    let (vs, e) =
      map_with_options-ok env decode zero_out encode answers wf map_index limit schedule items r
        uncancelled no_group encodes fresh no_failure sound in
    (
      vs,
      e,
      map_with_options-Collected env decode zero_out encode answers wf map_index limit schedule
          items r vs fresh e,
    )

-- ===== src/Workflow/Saga/Outcome.antt =====
-- workflow/saga.go, `runCompensation`: which steps are compensated, in which order, and what is told.
use Prim.Native.String.{◌++◌ as concat}
use skene.Prelude.{
  String, ◌≡◌, ◌≢◌, refl, none, some, Option, List, [], ◌∷◌, ◌++◌, append_assoc, append-nil, All,
  All-append, arith, if◌then◌else◌, ◌==◌, eq_iff, Option_cases, List_cases, sym, subst, ◌∙◌,
}
use skene.Event.Json.{marshal}
use skene.Event.Data.{
  compensation_started_codec, compensation_completed_codec, compensation_failed_codec,
}
use skene.Workflow.Errors.{Error, wrap, Result, Result_cases, ok, err}
use skene.Workflow.Step.{ConfiguredStep, Body}
use skene.Workflow.Thread.{run}
use skene.Workflow.Signal.{perform}
use skene.Workflow.Replayer.{Env, Replayer}
use skene.Workflow.Saga.{
  CompensationResult, nothing_done, compensation_of, steps_to_undo, succeed, fail, compensate_each,
  conclude, run_compensation, emit_compensation_started, emit_compensation_completed,
  emit_compensation_failed,
}

-- The names of a list from the last one to the first, those before others.
abbrev pub backwards : List String → List String → List String
backwards [] after = after
backwards (n ∷ ns) after = backwards ns (n ∷ after)

-- The steps that have a compensation.
abbrev pub compensable : List ConfiguredStep → List String → List String
compensable steps [] = []
compensable steps (n ∷ ns) = elim (compensation_of steps n) [
  | none ↦ compensable steps ns
  | some fn ↦ n ∷ compensable steps ns
]

-- The first name that is not empty.
abbrev pub first_named : List String → String
first_named [] = ""
first_named (n ∷ ns) = if n == "" then first_named ns else n

-- What came of some compensations: of each the step's name, and its error.
abbrev pub Tries : Type 0
Tries = List (String × Option Error)

abbrev pub compensated : Tries → List String
compensated [] = []
compensated ((n, none) ∷ ts) = n ∷ compensated ts
compensated ((n, some e) ∷ ts) = compensated ts

abbrev pub failures : Tries → List String
failures [] = []
failures ((n, none) ∷ ts) = failures ts
failures ((n, some e) ∷ ts) = n ∷ failures ts

abbrev pub errors_of : Tries → List Error
errors_of [] = []
errors_of ((n, none) ∷ ts) = errors_of ts
errors_of ((n, some e) ∷ ts) = wrap (concat "compensate " n) e ∷ errors_of ts

-- The compensations of some steps, run one after another from a replayer: what each of them returned, with
-- the event that tells of a failure.
pub data Ran (env : Env) : List String → Replayer → Tries → Type 0 where
  all_ran : (r : Replayer) → Ran env [] r []
  undone :
      {ns : List String} {ts : Tries} (n : String) (fn : Body (Option Error)) (r : Replayer)
      → compensation_of env.workflow.steps n ≡ some fn
      → (run (perform env fn) r).0 ≡ none
      → Ran env ns (run (perform env fn) r).1 ts
      → Ran env (n ∷ ns) r ((n, none) ∷ ts)
  not_undone :
      {ns : List String} {ts : Tries} (n : String) (fn : Body (Option Error)) (e : Error)
      (r r' : Replayer)
      → compensation_of env.workflow.steps n ≡ some fn
      → (run (perform env fn) r).0 ≡ some e
      → emit_compensation_failed env n e (run (perform env fn) r).1 ≡ ok r'
      → Ran env ns r' ts
      → Ran env (n ∷ ns) r ((n, some e) ∷ ts)

-- What the loop makes of a result by what came of the compensations.
pub record Outcome (env : Env) (ns : List String) (r : Replayer) (p q : CompensationResult)
    : Type 0 where
  pub tries : Tries
  pub ran : Ran env ns r tries
  pub told : q.steps_compensated ≡ p.steps_compensated ++ compensated tries
  pub errors : q.errors ≡ p.errors ++ errors_of tries
  pub first :
      q.failed_step ≡ (if p.failed_step == "" then first_named (failures tries) else p.failed_step)

-- The order of the loop.
steps_to_undo-compensable :
    (steps : List ConfiguredStep) (ns after : List String)
    → steps_to_undo steps ns ++ compensable steps after ≡ compensable steps (backwards ns after)
unfolding steps_to_undo
steps_to_undo-compensable steps [] after = refl
steps_to_undo-compensable steps (n ∷ ns) after =
    sym (go (compensation_of steps n) refl) ∙ steps_to_undo-compensable steps ns (n ∷ after)
  where
    go :
        (o : Option (Body (Option Error)))
        → compensation_of steps n ≡ o
        → steps_to_undo steps ns
            ++ (elim o [ none ↦ compensable steps after | some fn ↦ n ∷ compensable steps after ])
          ≡ (elim o [ none ↦ steps_to_undo steps ns | some fn ↦ steps_to_undo steps ns ++ n ∷ [] ])
            ++ compensable steps after
    go none h = refl
    go (some fn) h = sym (append_assoc (steps_to_undo steps ns) (n ∷ []) (compensable steps after))

Compensable : List ConfiguredStep → List String → Type 0
Compensable steps ns = All (λ n. compensation_of steps n ≢ none) ns

steps_to_undo-Compensable :
    (steps : List ConfiguredStep) (ns : List String) → Compensable steps (steps_to_undo steps ns)
unfolding Compensable steps_to_undo
steps_to_undo-Compensable steps [] = tt
steps_to_undo-Compensable steps (n ∷ ns) =
    let rest = steps_to_undo-Compensable steps ns in
    Option_cases (Compensable steps) (compensation_of steps n) _ _ (λ _. rest)
      (λ fn e.
        All-append (λ m. compensation_of steps m ≢ none) _ (n ∷ []) rest ((λ absent. cc), tt))

Outcome-nil : (env : Env) (r : Replayer) (p : CompensationResult) → Outcome env [] r p p
Outcome-nil env r p = record {
  tries = [];
  ran = all_ran r;
  told = sym (append-nil p.steps_compensated);
  errors = sym (append-nil p.errors);
  first = ground (arith, eq_iff p.failed_step "");
}

module _ (env : Env) (n : String) (ns : List String) (fn : Body (Option Error)) (r : Replayer)
    (p q : CompensationResult) (there : compensation_of env.workflow.steps n ≡ some fn) where
  Outcome-succeed :
      (run (perform env fn) r).0 ≡ none
      → Outcome env ns (run (perform env fn) r).1 (succeed n p) q
      → Outcome env (n ∷ ns) r p q
  Outcome-succeed fine o = record {
    tries = (n, none) ∷ o.tries;
    ran = undone n fn r there fine o.ran;
    told = o.told ∙ append_assoc p.steps_compensated (n ∷ []) (compensated o.tries);
    errors = o.errors;
    first = o.first;
  }

  Outcome-fail :
      (e : Error) (r' : Replayer)
      → (run (perform env fn) r).0 ≡ some e
      → emit_compensation_failed env n e (run (perform env fn) r).1 ≡ ok r'
      → Outcome env ns r' (fail n e p) q
      → Outcome env (n ∷ ns) r p q
  Outcome-fail e r' bad told o = record {
    tries = (n, some e) ∷ o.tries;
    ran = not_undone n fn e r r' there bad told o.ran;
    told = o.told;
    errors =
        o.errors ∙ append_assoc p.errors (wrap (concat "compensate " n) e ∷ []) (errors_of o.tries);
    first = ground (arith, o.first, eq_iff p.failed_step "", eq_iff n "");
  }

module _ (env : Env) where
  -- The loop returns, and has tried each of its steps.
  Tried :
      List String → Replayer → CompensationResult → Result (CompensationResult × Replayer) → Type 0
  Tried ns r p o =
      (q : CompensationResult) × (r' : Replayer) × (o ≡ ok (q, r')) × Outcome env ns r p q

  compensate_each-Tried :
      (ns : List String) (p : CompensationResult) (r : Replayer)
      → Compensable env.workflow.steps ns
      → Tried ns r p (compensate_each env ns p r)
  unfolding compensate_each Compensable emit_compensation_failed marshal Tried
  compensate_each-Tried [] p r h = (p, r, refl, Outcome-nil env r p)
  compensate_each-Tried (n ∷ ns) p r h =
      Option_cases (Tried (n ∷ ns) r p) (compensation_of env.workflow.steps n) _ _
        (λ absent. absurd (h.0 absent))
        (λ fn there.
          Option_cases (Tried (n ∷ ns) r p) (run (perform env fn) r).0 _ _
            (λ fine.
              let (q, r', e, o) =
                compensate_each-Tried ns (succeed n p) (run (perform env fn) r).1 h.1 in
              (q, r', e, Outcome-succeed env n ns fn r p q there fine o))
            (λ x bad.
              let (q, r', e, o) = compensate_each-Tried ns (fail n x p) _ h.1 in
              (q, r', e, Outcome-fail env n ns fn r p q there x _ bad refl o)))

  conclude-Tried :
      (ns : List String) (q : CompensationResult) (started r : Replayer)
      → Outcome env ns started nothing_done q
      → Tried ns started nothing_done (conclude env q r)
  unfolding Tried emit_compensation_completed marshal
  conclude-Tried ns q started r o =
      List_cases (Tried ns started nothing_done) q.errors _ _ (λ _. (q, _, refl, o))
        (λ e es _. (q, r, refl, o))

  emit_compensation_started_ne_err :
      (failed_step : String) (ns : List String) (r : Replayer) (x : Error)
      → emit_compensation_started env failed_step ns r ≢ err x
  unfolding emit_compensation_started marshal
  emit_compensation_started_ne_err failed_step ns r x h = cc

  -- Compensation returns. It takes the completed steps that have a compensation, from the last one to the
  -- first, and runs the compensation of each, going on after a failure, each from the replayer that the
  -- one before has left with its event. The steps told as compensated are those whose compensation returned
  -- no error, in that order; the errors are those of the others; and the failed step told is the first
  -- of these whose name is not empty.
  pub run_compensation-Outcome :
      (failed_step : String) (completed_steps : List String) (r : Replayer)
      → (q : CompensationResult) × (started r' : Replayer) × (run_compensation env failed_step
            completed_steps r
          ≡ ok (q, r'))
        × Outcome env
            (compensable env.workflow.steps (backwards completed_steps []))
            started
            nothing_done
            q
  unfolding run_compensation Tried
  run_compensation-Outcome failed_step completed_steps r =
      let (started, (q, r', e, o)) = out in
      (
        q,
        started,
        r',
        e,
        subst (λ ns. Outcome env ns started nothing_done q)
            (sym (append-nil undone_steps)
              ∙ steps_to_undo-compensable env.workflow.steps completed_steps [])
            o,
      )
    where
      undone_steps : List String
      undone_steps = steps_to_undo env.workflow.steps completed_steps

      Back : Result (CompensationResult × Replayer) → Type 0
      Back o = (started : Replayer) × Tried undone_steps started nothing_done o

      go :
          (s : String) (ss : List String)
          → undone_steps ≡ s ∷ ss
          → (started : Replayer) (o : Result (CompensationResult × Replayer))
          → Tried (s ∷ ss) started nothing_done o
          → Back (elim o [ err x ↦ err x | ok out ↦ conclude env out.0 out.1 ])
      go s ss e started (err x) (q, r', same, o) = cc
      go s ss e started (ok out) (q, r', same, o) =
          let found : out ≡ (q, r') = cc in
          (
            started,
            subst
                (λ (x : CompensationResult × Replayer).
                  Tried undone_steps started nothing_done (conclude env x.0 x.1))
                (sym found)
                (conclude-Tried undone_steps q started r'
                  (subst (λ ns. Outcome env ns started nothing_done q) (sym e) o)),
          )

      out : Back (run_compensation env failed_step completed_steps r)
      out =
          List_cases Back undone_steps _ _
            (λ e. (
              r,
              (
                nothing_done,
                r,
                refl,
                subst (λ ns. Outcome env ns r nothing_done nothing_done) (sym e)
                    (Outcome-nil env r nothing_done),
              ),
            ))
            (λ s ss e.
              Result_cases Back (emit_compensation_started env failed_step (s ∷ ss) r) _ _
                (λ started _.
                  go s ss e started (compensate_each env (s ∷ ss) nothing_done started) (
                    compensate_each-Tried (s ∷ ss) nothing_done started (
                      subst (Compensable env.workflow.steps) e
                        (steps_to_undo-Compensable env.workflow.steps completed_steps))))
                (λ x h. absurd (emit_compensation_started_ne_err failed_step (s ∷ ss) r x h)))

-- ===== src/Workflow/Thread/Leads.antt =====
-- What a thread brings about in a state that it shares with others.
use skene.Prelude.{ℕ, zero, suc, List, [], ◌∷◌, ◌++◌, All, ◌⊎◌, inl, inr}
use skene.Workflow.Thread.{Thread, done, act, run, step_at, run_rest}
use skene.Workflow.Thread.Keeps.{Keeps, Keeps-run, Keeps-step_at}

module _ {S A : Type 0} (Q : S → Type 0) where
  -- No action of the thread makes `Q` false.
  abbrev pub Steady : Thread S A → Type 0
  Steady (done a) = Unit
  Steady (act f k) = (s : S) → (Q s → Q (f s)) × Steady (k s)

module _ {S A : Type 0} (P Q : S → Type 0) where
  -- Whatever states that have `P` the thread meets, one of its actions makes `Q` true.
  abbrev pub Leads : Thread S A → Type 0
  Leads (done a) = ⊥
  Leads (act f k) = (s : S) → P s → Q (f s) ⊎ Leads (k s)

  -- One of the threads does.
  abbrev pub SomeLeads : List (Thread S A) → Type 0
  SomeLeads [] = ⊥
  SomeLeads (t ∷ ts) = Leads t ⊎ SomeLeads ts

module _ {S A : Type 0} (P Q : S → Type 0) where
  pub SomeLeads-snoc_old :
      (ts : List (Thread S A)) (t : Thread S A) → SomeLeads P Q ts → SomeLeads P Q (ts ++ t ∷ [])
  SomeLeads-snoc_old [] t h = absurd h
  SomeLeads-snoc_old (u ∷ ts) t (inl h) = inl h
  SomeLeads-snoc_old (u ∷ ts) t (inr h) = inr (SomeLeads-snoc_old ts t h)

  pub SomeLeads-snoc_new :
      (ts : List (Thread S A)) (t : Thread S A) → Leads P Q t → SomeLeads P Q (ts ++ t ∷ [])
  SomeLeads-snoc_new [] t h = inl h
  SomeLeads-snoc_new (u ∷ ts) t h = inr (SomeLeads-snoc_new ts t h)

  Steady-run : (t : Thread S A) (s : S) → Steady Q t → Q s → Q (run t s).1
  unfolding run
  Steady-run (done a) s h q = q
  Steady-run (act f k) s h q = Steady-run (k s) (f s) (h s).1 ((h s).0 q)

  Leads-run : (t : Thread S A) (s : S) → Steady Q t → Keeps P t → P s → Leads P Q t → Q (run t s).1
  unfolding run
  Leads-run (done a) s h p i l = absurd l
  Leads-run (act f k) s h p i l = elim (l s i) [
    | inl q ↦ Steady-run (k s) (f s) (h s).1 q
    | inr l' ↦ Leads-run (k s) (f s) (h s).1 (p s i).1 (p s i).0 l'
  ]

  -- Threads that keep `P`, make `Q` false nowhere, and have made it true, or one of them will.
  pub record Pursues (ts : List (Thread S A)) (s : S) : Type 0 where
    pub invariant : P s
    pub keeps : All (Keeps P) ts
    pub steady : All (Steady Q) ts
    pub goal : Q s ⊎ SomeLeads P Q ts

  -- At the ends of the threads it is true.
  pub Pursues-run_rest :
      (ts : List (Thread S A)) (s : S) → Pursues ts s → P (run_rest ts s).1 × Q (run_rest ts s).1
  unfolding run_rest
  Pursues-run_rest [] s h = (h.invariant, elim (h.goal) [ inl q ↦ q | inr l ↦ absurd l ])
  Pursues-run_rest (t ∷ ts) s h = Pursues-run_rest ts (run t s).1 (record {
    invariant = Keeps-run P t s h.keeps.0 h.invariant;
    keeps = h.keeps.1;
    steady = h.steady.1;
    goal = elim (h.goal) [
      | inl q ↦ inl (Steady-run t s h.steady.0 q)
      | inr l ↦ elim l [
        | inl here ↦ inl (Leads-run t s h.steady.0 h.keeps.0 h.invariant here)
        | inr there ↦ inr there
      ]
    ];
  })

  pub Steady-step_at :
      (i : ℕ) (ts : List (Thread S A)) (s : S)
      → All (Steady Q) ts
      → All (Steady Q) (step_at i ts s).0 × (Q s → Q (step_at i ts s).1)
  unfolding step_at
  Steady-step_at i [] s h = (h, λ q. q)
  Steady-step_at zero (done a ∷ ts) s h = (h, λ q. q)
  Steady-step_at zero (act f k ∷ ts) s h = (((h.0 s).1, h.1), (h.0 s).0)
  Steady-step_at (suc i) (t ∷ ts) s h =
      let (steady, q) = Steady-step_at i ts s h.1 in ((h.0, steady), q)

  pub SomeLeads-step_at :
      (i : ℕ) (ts : List (Thread S A)) (s : S)
      → P s
      → SomeLeads P Q ts
      → Q (step_at i ts s).1 ⊎ SomeLeads P Q (step_at i ts s).0
  unfolding step_at
  SomeLeads-step_at i [] s p l = absurd l
  SomeLeads-step_at zero (done a ∷ ts) s p l = inr l
  SomeLeads-step_at zero (act f k ∷ ts) s p (inl l) = elim (l s p) [
    | inl q ↦ inl q
    | inr l' ↦ inr (inl l')
  ]
  SomeLeads-step_at zero (act f k ∷ ts) s p (inr l) = inr (inr l)
  SomeLeads-step_at (suc i) (t ∷ ts) s p (inl l) = inr (inl l)
  SomeLeads-step_at (suc i) (t ∷ ts) s p (inr l) = elim (SomeLeads-step_at i ts s p l) [
    | inl q ↦ inl q
    | inr l' ↦ inr (inr l')
  ]

  pub Pursues-step_at :
      (i : ℕ) (ts : List (Thread S A)) (s : S)
      → Pursues ts s
      → Pursues (step_at i ts s).0 (step_at i ts s).1
  Pursues-step_at i ts s h =
      let (keeps, p) = Keeps-step_at P i ts s h.keeps h.invariant in
      let (steady, q) = Steady-step_at i ts s h.steady in
      record {
        invariant = p;
        keeps = keeps;
        steady = steady;
        goal = elim (h.goal) [
          | inl now ↦ inl (q now)
          | inr l ↦ SomeLeads-step_at i ts s h.invariant l
        ];
      }

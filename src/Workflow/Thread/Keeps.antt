-- ===== src/Workflow/Thread/Keeps.antt =====
-- Invariants of a state that several threads share.
use skene.Prelude.{ℕ, zero, suc, List, [], ◌∷◌, All}
use skene.Workflow.Thread.{Thread, done, act, ◌>>=◌, run, step_at, run_rest, run_all}

module _ {S A : Type 0} (P : S → Type 0) where
  -- Every action of the thread keeps `P`, whatever state that has `P` it meets.
  abbrev pub Keeps : Thread S A → Type 0
  Keeps (done a) = Unit
  Keeps (act f k) = (s : S) → P s → P (f s) × Keeps (k s)

module _ {S A B : Type 0} (P : S → Type 0) where
  pub Keeps-bind :
      (m : Thread S A) (g : A → Thread S B)
      → Keeps P m
      → ((a : A) → Keeps P (g a))
      → Keeps P (m >>= g)
  unfolding ◌>>=◌
  Keeps-bind (done a) g h k = k a
  Keeps-bind (act f c) g h k = λ s p. ((h s p).0, Keeps-bind (c s) g (h s p).1 k)

module _ {S A : Type 0} (P : S → Type 0) where
  pub Keeps-run : (t : Thread S A) (s : S) → Keeps P t → P s → P (run t s).1
  unfolding run
  Keeps-run (done a) s h p = p
  Keeps-run (act f k) s h p = Keeps-run (k s) (f s) (h s p).1 (h s p).0

  pub Keeps-run_rest :
      (ts : List (Thread S A)) (s : S) → All (Keeps P) ts → P s → P (run_rest ts s).1
  unfolding run_rest
  Keeps-run_rest [] s h p = p
  Keeps-run_rest (t ∷ ts) s h p = Keeps-run_rest ts (run t s).1 h.1 (Keeps-run t s h.0 p)

  pub Keeps-step_at :
      (i : ℕ) (ts : List (Thread S A)) (s : S)
      → All (Keeps P) ts
      → P s
      → All (Keeps P) (step_at i ts s).0 × P (step_at i ts s).1
  unfolding step_at
  Keeps-step_at i [] s h p = (h, p)
  Keeps-step_at zero (done a ∷ ts) s h p = (h, p)
  Keeps-step_at zero (act f k ∷ ts) s h p = (((h.0 s p).1, h.1), (h.0 s p).0)
  Keeps-step_at (suc i) (t ∷ ts) s h p =
      let (kept, q) = Keeps-step_at i ts s h.1 p in ((h.0, kept), q)

  -- Under every schedule the threads keep what each of their actions keeps.
  pub Keeps-run_all :
      (schedule : List ℕ) (ts : List (Thread S A)) (s : S)
      → All (Keeps P) ts
      → P s
      → P (run_all schedule ts s).1
  unfolding run_all
  Keeps-run_all [] ts s h p = Keeps-run_rest ts s h p
  Keeps-run_all (i ∷ schedule) ts s h p =
      let (kept, q) = Keeps-step_at i ts s h p in
      Keeps-run_all schedule (step_at i ts s).0 (step_at i ts s).1 kept q

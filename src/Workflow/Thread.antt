-- ===== src/Workflow/Thread.antt =====
-- Goroutines over a shared state. A thread is a sequence of atomic actions (what the code does under
-- a lock, or one access); between two actions of one goroutine the others may take theirs.
pub mod Keeps
pub mod Yields
pub mod Leads
use skene.Prelude.{ℕ, zero, suc, Option, none, some, List, [], ◌∷◌}

-- `act f k` changes the state by `f` and goes on as `k` of the state before.
pub data Thread (S A : Type 0) : Type 0 where
  done : A → Thread S A
  act : (S → S) → (S → Thread S A) → Thread S A

module _ {S A B : Type 0} where
  infixl 5 ◌>>=◌ ◌>>◌
  unfoldable pub ◌>>=◌ : Thread S A → (A → Thread S B) → Thread S B
  done a >>= g = g a
  act f k >>= g = act f (λ s. k s >>= g)

  abbrev pub ◌>>◌ : Thread S A → Thread S B → Thread S B
  m >> n = m >>= λ _. n

module _ {S : Type 0} where
  abbrev pub get : Thread S S
  get = act (λ s. s) done

  abbrev pub modify : (S → S) → Thread S (Unit {0})
  modify f = act f (λ _. done tt)

module _ {S A : Type 0} where
  -- A thread alone, to its end.
  unfoldable pub run : Thread S A → S → A × S
  run (done a) s = (a, s)
  run (act f k) s = run (k s) (f s)

  -- The thread at an index takes one action, if it is there and has one.
  unfoldable pub step_at : ℕ → List (Thread S A) → S → List (Thread S A) × S
  step_at i [] s = ([], s)
  step_at zero (done a ∷ ts) s = (done a ∷ ts, s)
  step_at zero (act f k ∷ ts) s = (k s ∷ ts, f s)
  step_at (suc i) (t ∷ ts) s = let (us, s') = step_at i ts s in (t ∷ us, s')

  -- What is left of each thread, one after another.
  unfoldable pub run_rest : List (Thread S A) → S → List A × S
  unfolding run
  run_rest [] s = ([], s)
  run_rest (t ∷ ts) s = let (a, s') = run t s in let (rest, s'') = run_rest ts s' in (a ∷ rest, s'')

  -- The threads together: a schedule names the thread that acts next. What a schedule leaves over
  -- runs at its end, so every interleaving is that of some schedule.
  unfoldable pub run_all : List ℕ → List (Thread S A) → S → List A × S
  unfolding step_at run_rest
  run_all [] ts s = run_rest ts s
  run_all (i ∷ schedule) ts s = let (us, s') = step_at i ts s in run_all schedule us s'

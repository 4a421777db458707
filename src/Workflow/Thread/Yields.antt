-- ===== src/Workflow/Thread/Yields.antt =====
-- What the threads of a shared state return, however they are interleaved.
use skene.Prelude.{ℕ, zero, suc, List, [], ◌∷◌}
use skene.Workflow.Thread.{Thread, done, act, ◌>>=◌, run, step_at, run_rest, run_all}

module _ {S A : Type 0} (Q : A → Type 0) where
  -- Whatever states the thread meets, what it returns has `Q`.
  abbrev pub Yields : Thread S A → Type 0
  Yields (done a) = Q a
  Yields (act f k) = (s : S) → Yields (k s)

module _ {S A B : Type 0} (Q : B → Type 0) where
  pub Yields-bind :
      (m : Thread S A) (g : A → Thread S B) → ((a : A) → Yields Q (g a)) → Yields Q (m >>= g)
  unfolding ◌>>=◌
  Yields-bind (done a) g h = h a
  Yields-bind (act f k) g h = λ s. Yields-bind (k s) g h

  pub Yields-bind_of :
      (R : A → Type 0) (m : Thread S A) (g : A → Thread S B)
      → Yields R m
      → ((a : A) → R a → Yields Q (g a))
      → Yields Q (m >>= g)
  unfolding ◌>>=◌
  Yields-bind_of R (done a) g r h = h a r
  Yields-bind_of R (act f k) g r h = λ s. Yields-bind_of R (k s) g (r s) h

module _ {S A : Type 0} (Q R : A → Type 0) where
  pub Yields-map : (t : Thread S A) → ((a : A) → Q a → R a) → Yields Q t → Yields R t
  Yields-map (done a) f h = f a h
  Yields-map (act g k) f h = λ s. Yields-map (k s) f (h s)

module _ {S B : Type 0} (Q : B → Type 0) where
  pub Yields-run : (t : Thread S B) (s : S) → Yields Q t → Q (run t s).0
  unfolding run
  Yields-run (done a) s h = h
  Yields-run (act f k) s h = Yields-run (k s) (f s) (h s)

module _ {X A : Type 0} (Q : X → A → Type 0) where
  -- Each value belongs to the element at its place.
  abbrev pub Each : List X → List A → Type 0
  Each [] [] = Unit
  Each (x ∷ xs) (a ∷ as') = Q x a × Each xs as'
  Each _ _ = ⊥

module _ {X S A : Type 0} (Q : X → A → Type 0) where
  abbrev pub EachYields : List X → List (Thread S A) → Type 0
  EachYields [] [] = Unit
  EachYields (x ∷ xs) (t ∷ ts) = Yields (Q x) t × EachYields xs ts
  EachYields _ _ = ⊥

  Each-run_rest :
      (xs : List X) (ts : List (Thread S A)) (s : S)
      → EachYields xs ts
      → Each Q xs (run_rest ts s).0
  unfolding run_rest
  Each-run_rest [] [] s h = tt
  Each-run_rest [] (t ∷ ts) s h = absurd h
  Each-run_rest (x ∷ xs) [] s h = absurd h
  Each-run_rest (x ∷ xs) (t ∷ ts) s h =
      (Yields-run (Q x) t s h.0, Each-run_rest xs ts (run t s).1 h.1)

  EachYields-step_at :
      (i : ℕ) (xs : List X) (ts : List (Thread S A)) (s : S)
      → EachYields xs ts
      → EachYields xs (step_at i ts s).0
  unfolding step_at
  EachYields-step_at i [] [] s h = tt
  EachYields-step_at i [] (t ∷ ts) s h = absurd h
  EachYields-step_at i (x ∷ xs) [] s h = absurd h
  EachYields-step_at zero (x ∷ xs) (done a ∷ ts) s h = h
  EachYields-step_at zero (x ∷ xs) (act f k ∷ ts) s h = (h.0 s, h.1)
  EachYields-step_at (suc i) (x ∷ xs) (t ∷ ts) s h = (h.0, EachYields-step_at i xs ts s h.1)

  -- Under every schedule each thread returns what it returns.
  pub Each-run_all :
      (schedule : List ℕ) (xs : List X) (ts : List (Thread S A)) (s : S)
      → EachYields xs ts
      → Each Q xs (run_all schedule ts s).0
  unfolding run_all
  Each-run_all [] xs ts s h = Each-run_rest xs ts s h
  Each-run_all (i ∷ schedule) xs ts s h =
      Each-run_all schedule xs (step_at i ts s).0 (step_at i ts s).1
        (EachYields-step_at i xs ts s h)

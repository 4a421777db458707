-- ===== src/Event/Pgstore/Agreement.antt =====
-- event/pgstore/store.go against event/memory/store.go: when a database holds what a sound memory store
-- does, and what follows for the rows that an INSERT or a check meets.
use skene.Prelude.{
  ℕ, suc, ◌+◌, ◌≤◌, String, ◌≡◌, refl, sym, ap, ◌∙◌, subst, Option, none, some, List, [], ◌∷◌, ◌++◌,
  map, map-snoc, length, lookup, Has, inl, inr, ◌⊎◌, arith, ◌==◌, eq_iff, string_key, if◌then◌else◌,
  Bool-cases, Bool, true, false, Option-cases,
}
use skene.Event.{Event}
use skene.Event.Store.{StoreError}
use skene.Event.Memory.{Store, run_events, add_event}
use skene.Event.Memory.Numbering.{Numbered, IsSound, run_events-add_event, append-IsSound}
use skene.Event.Memory.Batch.{append-eq-add_event}
use skene.Event.Pgstore.Postgres.{Row, IsKept, of_run, max_of, Taken}
use skene.Event.Pgstore.{columns}

Has-of_run : (x : Row) (xs : List Row) → Has x xs → Has x (of_run x.run_id xs)
Has-of_run x [] h = h
Has-of_run x (y ∷ ys) (inl e) =
    rw ((eq_iff y.run_id x.run_id).1 (ap (λ (z : Row). z.run_id) e)) (inl e)
Has-of_run x (y ∷ ys) (inr h) = elim (Bool-cases (y.run_id == x.run_id)) [
  | inl same ↦ rw same (inr (Has-of_run x ys h))
  | inr other ↦ rw other (Has-of_run x ys h)
]

of_run-Has : (x : Row) (r : String) (xs : List Row) → Has x (of_run r xs) → Has x xs
of_run-Has x r [] h = h
of_run-Has x r (y ∷ ys) h = elim (Bool-cases (y.run_id == r)) [
  | inl same ↦ elim (rw same at h) [ inl e ↦ inl e | inr k ↦ inr (of_run-Has x r ys k) ]
  | inr other ↦ inr (of_run-Has x r ys (rw other at h))
]

of_run-snoc :
    (r : String) (x : Row) (xs : List Row)
    → of_run r (xs ++ x ∷ []) ≡ (if x.run_id == r then of_run r xs ++ x ∷ [] else of_run r xs)
of_run-snoc r x [] = refl
of_run-snoc r x (y ∷ ys) = ground (arith, of_run-snoc r x ys)

Has-Taken : (x y : Row) (ys : List Row) → Has y ys → y.id ≡ x.id → Taken x ys
Has-Taken x y [] h e = h
Has-Taken x y (z ∷ zs) (inl same) e = inl (inl (ap (λ (w : Row). w.id) same ∙ e))
Has-Taken x y (z ∷ zs) (inr h) e = inr (Has-Taken x y zs h e)

-- The row that takes it.
Taken-Has :
    (x : Row) (ys : List Row)
    → Taken x ys
    → (y : Row) × Has y ys × ((y.id ≡ x.id) ⊎ ((y.run_id ≡ x.run_id) × (y.sequence ≡ x.sequence)))
Taken-Has x [] h = absurd h
Taken-Has x (y ∷ ys) (inl e) = (y, inl refl, e)
Taken-Has x (y ∷ ys) (inr h) = let (z, there, e) = Taken-Has x ys h in (z, inr there, e)

Numbered-last :
    (r : String) (n : ℕ) (es : List Event) (e : Event)
    → Numbered r (suc n) es
    → Has e es
    → (e.run_id ≡ r) × (e.sequence ≤ n + length es)
Numbered-last r n [] e h k = absurd k
Numbered-last r n (d ∷ es) e h (inl same) =
    subst (λ (x : Event). (x.run_id ≡ r) × (x.sequence ≤ n + suc (length es))) same
      (h.0, omega (arith, h.1))
Numbered-last r n (d ∷ es) e h (inr k) =
    let rest = Numbered-last r (suc n) es e h.2 k in (rest.0, omega (arith, rest.1))

module _ (keep : Row → Row) (kept : IsKept keep) where
  -- What the table keeps of an event.
  abbrev pub stored : Event → Row
  stored e = keep (columns e)

  -- The rows of each run are what the table keeps of the events of the run.
  pub record Agrees (s : Store) (rows : List Row) : Type 0 where
    pub sound : IsSound s
    pub same : (r : String) → of_run r rows ≡ map stored (run_events s r)

  Has-stored : (e : Event) (es : List Event) → Has e es → Has (stored e) (map stored es)
  Has-stored e [] h = absurd h
  Has-stored e (d ∷ es) (inl same) = inl (ap stored same)
  Has-stored e (d ∷ es) (inr h) = inr (Has-stored e es h)

  stored-Has :
      (x : Row) (es : List Event) → Has x (map stored es) → (e : Event) × Has e es × (stored e ≡ x)
  stored-Has x [] h = absurd h
  stored-Has x (e ∷ es) (inl same) = (e, inl refl, same)
  stored-Has x (e ∷ es) (inr h) = let (d, there, same) = stored-Has x es h in (d, inr there, same)

  max_of-Numbered :
      (r : String) (n : ℕ) (d : Event) (es : List Event)
      → Numbered r (suc n) (d ∷ es)
      → max_of (map stored (d ∷ es)) ≡ n + length (d ∷ es)
  max_of-Numbered r n d [] h = ground (arith, kept.sequence (columns d), h.1)
  max_of-Numbered r n d (e ∷ es) h =
      let rest = max_of-Numbered r (suc n) e es h.2 in
      ground (arith, kept.sequence (columns d), h.1, rest)

  module _ (s : Store) (rows : List Row) (a : Agrees s rows) where
    -- The greatest sequence of a run is the number of its events.
    pub max_of-length : (r : String) → max_of (of_run r rows) ≡ length (run_events s r)
    max_of-length r = rw (a.same r) (go (run_events s r) (a.sound.numbered r))
      where
        go : (es : List Event) → Numbered r 1 es → max_of (map stored es) ≡ length es
        go [] h = refl
        go (e ∷ es) h = omega (arith, max_of-Numbered r 0 e es h)

    -- An event whose row is not taken is new to the store.
    pub free-fresh : (e : Event) → ¬ Taken (columns e) rows → lookup e.id s.ids ≡ none
    free-fresh e free = elim (Option-cases (lookup e.id s.ids)) [
      | inl absent ↦ absent
      | inr (tt, there) ↦
          let (d, held, same) = a.sound.stored e.id there in
          absurd (
            free (
              Has-Taken (columns e) (stored d) rows
                (of_run-Has (stored d) d.run_id rows (rw (a.same d.run_id) (Has-stored d _ held)))
                (kept.id (columns d) ∙ same)))
    ]

    -- A row that is taken is that of an event whose id is stored, or whose sequence is not the next one.
    pub taken-refused :
        (e : Event)
        → Taken (columns e) rows
        → e.sequence ≡ length (run_events s e.run_id) + 1
        → lookup e.id s.ids ≡ some tt
    taken-refused e taken next =
        let (y, there, clash) = Taken-Has (columns e) rows taken in
        let (d, held, same) =
          stored-Has y (run_events s y.run_id)
            (subst (λ l. Has y l) (a.same y.run_id) (Has-of_run y rows there)) in
        let id : d.id ≡ y.id = sym (kept.id (columns d)) ∙ ap (λ (z : Row). z.id) same in
        let sequence : d.sequence ≡ y.sequence =
          sym (kept.sequence (columns d)) ∙ ap (λ (z : Row). z.sequence) same in
        elim clash [
          | inl same_id ↦
              subst (λ i. lookup i s.ids ≡ some tt) (id ∙ same_id)
                (a.sound.recorded y.run_id d held)
          | inr (same_run, same_sequence) ↦
              let bound = (Numbered-last y.run_id 0 _ d (a.sound.numbered y.run_id) held).1 in
              absurd (
                omega (
                  arith,
                  bound,
                  sequence,
                  same_sequence,
                  next,
                  ap (λ q. length (run_events s q)) same_run,
                ))
        ]

  -- An event that is stored on both sides keeps the agreement.
  pub add_event-Agrees :
      (s : Store) (rows : List Row) (e : Event)
      → Agrees s rows
      → lookup e.id s.ids ≡ none
      → e.sequence ≡ length (run_events s e.run_id) + 1
      → Agrees (add_event e s) (rows ++ stored e ∷ [])
  add_event-Agrees s rows e a fresh next = record {
    sound =
        subst (λ (o : Option StoreError × Store). IsSound o.1) (append-eq-add_event e s fresh next)
          (append-IsSound e s a.sound);
    same = λ r.
        of_run-snoc r (stored e) rows
        ∙ ap (λ q. if q == r then of_run r rows ++ stored e ∷ [] else of_run r rows)
            (kept.run_id (columns e))
        ∙ branch r (e.run_id == r)
        ∙ ap (map stored) (sym (run_events-add_event e s r));
  }
    where
      branch :
          (r : String) (b : Bool)
          → (if b then of_run r rows ++ stored e ∷ [] else of_run r rows)
            ≡ map stored (if b then run_events s r ++ e ∷ [] else run_events s r)
      branch r true = rw (a.same r) (sym (map-snoc stored (run_events s r) e))
      branch r false = a.same r

-- ===== src/Event/Pgstore/Checks.antt =====
-- event/pgstore/store.go: what the checks of `appendBatchInTx` say of the events of each run.
use skene.Prelude.{
  IsRange, Distinct, keys, Has-lookup, lookup-Has, insert-Distinct, ℕ, ◌+◌, String, ◌≡◌, refl, sym,
  ap, ◌∙◌, Option, none, some, List, [], ◌∷◌, ◌++◌, append-nil, append_assoc, Map, lookup, insert,
  lookup-insert, Has, inl, inr, ◌⊎◌, arith, nat_eq, ◌==◌, eq_iff, string_key, if◌then◌else◌,
  Bool-cases, Option-cases, subst,
}
use skene.Event.{Event}
use skene.Event.Store.{StoreError}
use skene.Event.Memory.Reads.{of_run as events_of}
use skene.Event.Pgstore.Postgres.{
  Row, DbError, Answer, got, lost, Database, IsLawful, of_run, max_of,
}
use skene.Event.Pgstore.{
  PgError, refused, wrapped, commit_failed, or_nil, group_by_run, check_sequences, or_refused,
  check_run, validate_runs,
}
use skene.Event.Pgstore.Duplicates.{Met, at_lock, at_max}

-- The events have the sequences n, n + 1, …
abbrev pub Follows : ℕ → List Event → Type 0
Follows n [] = Unit
Follows n (e ∷ es) = (e.sequence ≡ n) × Follows (n + 1) es

-- The check finds an error just when they have not.
check_sequences-Follows :
    (r : String) (n : ℕ) (es : List Event) → check_sequences r n es ≡ none → Follows n es
unfolding check_sequences
check_sequences-Follows r n [] h = tt
check_sequences-Follows r n (e ∷ es) h = elim (Bool-cases (nat_eq e.sequence n)) [
  | inl next ↦ (ground arith, check_sequences-Follows r (n + 1) es (rw next at h))
  | inr gap ↦ let k : ◌≡◌ {A = Option StoreError} (some _) none = rw gap at h in cc
]

check_sequences_refuses :
    (r : String) (n : ℕ) (es : List Event) (x : StoreError)
    → check_sequences r n es ≡ some x
    → ¬ Follows n es
unfolding check_sequences
check_sequences_refuses r n [] x h f = cc
check_sequences_refuses r n (e ∷ es) x h f = elim (Bool-cases (nat_eq e.sequence n)) [
  | inl next ↦ check_sequences_refuses r (n + 1) es x (rw next at h) f.1
  | inr gap ↦ ground (arith, f.0)
]

grouped :
    (q r : String) (m : Map String (List Event)) (e : Event) (es : List Event)
    → or_nil (if q == r then some (or_nil (lookup q m) ++ e ∷ []) else lookup r m) ++ es
      ≡ or_nil (lookup r m) ++ (if q == r then e ∷ es else es)
grouped q r m e es = elim (Bool-cases (q == r)) [
  | inl same ↦ rw (same, (eq_iff q r).0 same) (append_assoc (or_nil (lookup r m)) (e ∷ []) es)
  | inr other ↦ rw other refl
]

or_nil-group_by_run :
    (r : String) (es : List Event) (m : Map String (List Event))
    → or_nil (lookup r (group_by_run es m)) ≡ or_nil (lookup r m) ++ events_of r es
unfolding group_by_run
or_nil-group_by_run r [] m = sym (append-nil (or_nil (lookup r m)))
or_nil-group_by_run r (e ∷ es) m =
    or_nil-group_by_run r es (insert e.run_id (or_nil (lookup e.run_id m) ++ e ∷ []) m)
    ∙ rw (lookup-insert e.run_id r (or_nil (lookup e.run_id m) ++ e ∷ []) m)
        (grouped e.run_id r m e (events_of r es))

group_by_run-Distinct :
    (es : List Event) (m : Map String (List Event))
    → Distinct (keys m)
    → Distinct (keys (group_by_run es m))
unfolding group_by_run
group_by_run-Distinct [] m u = u
group_by_run-Distinct (e ∷ es) m u = group_by_run-Distinct es _ (insert-Distinct e.run_id _ m u)

module _ (range : Map String (List Event) → Map String (List Event)) (h : IsRange range)
    (es : List Event) where
  -- A group is the events of its run.
  pub group-events_of :
      (r : String) (ds : List Event)
      → Has (r, ds) (range (group_by_run es []))
      → ds ≡ events_of r es
  unfolding lookup
  group-events_of r ds met =
      let found =
        Has-lookup r ds (group_by_run es []) (group_by_run-Distinct es [] tt)
          ((h.same (group_by_run es []) (r, ds)).0 met) in
      ap or_nil (sym found) ∙ or_nil-group_by_run r es []

  -- A run with an event has a group.
  pub events_of-group :
      (r : String) → (events_of r es ≡ []) ⊎ Has (r, events_of r es) (range (group_by_run es []))
  unfolding lookup
  events_of-group r = elim (Option-cases (lookup r (group_by_run es []))) [
    | inl absent ↦ inl (sym (or_nil-group_by_run r es []) ∙ ap or_nil absent)
    | inr (ds, there) ↦
        let met =
          (h.same (group_by_run es []) (r, ds)).1 (lookup-Has r ds (group_by_run es []) there) in
        inr (subst (λ l. Has (r, l) (range (group_by_run es []))) (group-events_of r ds met) met)
  ]

module _ (db : Database) (keep : Row → Row) (law : IsLawful db keep) where
  -- The events go on from the last one of their run.
  abbrev pub GoesOn : List Row → String → List Event → Type 0
  GoesOn rows r es = Follows (max_of (of_run r rows) + 1) es

  -- What an outcome of the check says: on success all runs go on, and an error of the events is that
  -- one does not; in any case nothing is written.
  abbrev pub Checked : List Row → Map String (List Event) → Option PgError × db.T → Type 0
  Checked rows m (none, t) =
      (law.seen t ≡ rows) × ((r : String) (es : List Event) → Has (r, es) m → GoesOn rows r es)
  Checked rows m (some (refused x), t) =
      (r : String) × (es : List Event) × Has (r, es) m × ¬ GoesOn rows r es
  Checked rows m (some (wrapped w e), t) = Met db w e
  Checked rows m (some (commit_failed _), t) = ⊥

  -- The same of one run.
  abbrev CheckedRun : List Row → String → List Event → Option PgError → Type 0
  CheckedRun rows r es none = GoesOn rows r es
  CheckedRun rows r es (some (refused x)) = ¬ GoesOn rows r es
  CheckedRun rows r es (some (wrapped w e)) = Met db w e
  CheckedRun rows r es (some (commit_failed _)) = ⊥

  check_run-Checked :
      (r : String) (es : List Event) (t : db.T) → CheckedRun (law.seen t) r es (check_run db r es t)
  check_run-Checked r es t = go (db.max_sequence r t) refl
    where
      from_check :
          (n : ℕ) (o : Option StoreError)
          → n ≡ max_of (of_run r (law.seen t))
          → check_sequences r (n + 1) es ≡ o
          → CheckedRun (law.seen t) r es (or_refused o)
      from_check n none e h =
          check_sequences-Follows r _ es (subst (λ k. check_sequences r (k + 1) es ≡ none) e h)
      from_check n (some x) e h =
          check_sequences_refuses r _ es x (subst (λ k. check_sequences r (k + 1) es ≡ some x) e h)

      go :
          (a : Answer ℕ)
          → db.max_sequence r t ≡ a
          → CheckedRun (law.seen t) r es (elim a [
            | lost e ↦ some (wrapped "get last sequence" e)
            | got last ↦ or_refused (check_sequences r (last + 1) es)
          ])
      go (lost e) h = at_max r t e h
      go (got n) h = from_check n (check_sequences r (n + 1) es) (law.max_sequence r t n h) refl

  pub validate_runs-Checked :
      (m : Map String (List Event)) (t : db.T) (rows : List Row)
      → law.seen t ≡ rows
      → Checked rows m (validate_runs db m t)
  unfolding validate_runs
  validate_runs-Checked [] t rows same = (same, λ r es met. absurd met)
  validate_runs-Checked ((r, es) ∷ m) t rows same =
      go_lock (db.lock r t).0 (check_run db r es (db.lock r t).1) after refl
        (subst (λ l. CheckedRun l r es (check_run db r es (db.lock r t).1)) locked
          (check_run-Checked r es (db.lock r t).1))
        (validate_runs db m (db.lock r t).1) (validate_runs-Checked m (db.lock r t).1 rows locked)
    where
      locked : law.seen (db.lock r t).1 ≡ rows
      locked = law.lock r t ∙ same

      after : db.T
      after = (db.lock r t).1

      widen :
          (o : Option PgError × db.T)
          → GoesOn rows r es
          → Checked rows m o
          → Checked rows ((r, es) ∷ m) o
      widen (none, t') g c = (
        c.0,
        λ q ds met. elim met [ inl e ↦ subst (λ p. GoesOn rows p.0 p.1) e g | inr k ↦ c.1 q ds k ],
      )
      widen (some (refused x), t') g (q, ds, met, gap) = (q, ds, inr met, gap)
      widen (some (wrapped _ _), t') g c = c
      widen (some (commit_failed _), t') g c = c

      go_check :
          (o : Option PgError) (t' : db.T)
          → CheckedRun rows r es o
          → (rest : Option PgError × db.T) → Checked rows m rest
          → Checked rows ((r, es) ∷ m) (elim o [ some e ↦ (some e, t') | none ↦ rest ])
      go_check none t' g rest c = widen rest g c
      go_check (some (refused x)) t' g rest c = (r, es, inl refl, g)
      go_check (some (wrapped _ _)) t' g rest c = g
      go_check (some (commit_failed _)) t' g rest c = g

      go_lock :
          (l : Option DbError) (o : Option PgError) (t' : db.T)
          → (db.lock r t).0 ≡ l
          → CheckedRun rows r es o
          → (rest : Option PgError × db.T) → Checked rows m rest
          → Checked rows ((r, es) ∷ m) (elim l [
            | some e ↦ (some (wrapped "acquire advisory lock" e), t')
            | none ↦ elim o [ some e ↦ (some e, t') | none ↦ rest ]
          ])
      go_lock none o t' h g rest c = go_check o t' g rest c
      go_lock (some e) o t' h g rest c = at_lock r t e h

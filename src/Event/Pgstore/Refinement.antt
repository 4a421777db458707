-- ===== src/Event/Pgstore/Refinement.antt =====
-- event/pgstore/store.go against event/memory/store.go: over a lawful database `AppendBatch` does what it
-- does in memory.
use skene.Prelude.{
  ◌+◌, String, ◌≡◌, ◌≢◌, ◌⊎◌, refl, sym, ap, ◌∙◌, subst, Bool, true, false, Option, none, some,
  List, [], ◌∷◌, lookup, length, length-append, inl, inr, arith, ◌==◌, eq_iff, eq_refl, string_key,
  if◌then◌else◌, Bool-cases,
}
use skene.Event.{Event}
use skene.Event.Store.{StoreError, duplicate_event, sequence_conflict}
use skene.Event.Memory as Memory
use skene.Event.Memory.{Store, run_events, add_event}
use skene.Event.Memory.Numbering.{
  run_events-add_event, append-Appended, Appended, duplicated, conflicting, accepted,
}
use skene.Event.Memory.Batch.{append_each, or_rollback, append-eq-add_event}
use skene.Event.Memory.Reads.{of_run as events_of}
use skene.Event.Pgstore.Postgres.{Row, DbError, Database, IsLawful}
use skene.Event.Pgstore.Errors.{is_duplicate_key_error}
use skene.Event.Pgstore.Duplicates.{
  Met, at_insert, Misread, is_duplicate-IsUniqueViolation, is_duplicate-Taken,
}
use skene.Event.Pgstore.{
  PgError, refused, wrapped, commit_failed, columns, insert_error, insert_events,
}
use skene.Event.Pgstore.Checks.{Follows}
use skene.Event.Pgstore.Agreement.{Agrees, free-fresh, taken-refused, add_event-Agrees}

length-add_event :
    (e : Event) (s : Store) (r : String)
    → length (run_events (add_event e s) r)
      ≡ (if e.run_id == r then length (run_events s r) + 1 else length (run_events s r))
length-add_event e s r =
    rw (run_events-add_event e s r) (ground (arith, length-append (run_events s r) (e ∷ [])))

-- The events of every run go on from the last one in the store.
abbrev pub AllFollow : Store → List Event → Type 0
AllFollow s es = (r : String) → Follows (length (run_events s r) + 1) (events_of r es)

AllFollow-next :
    (e : Event) (es : List Event) (s : Store)
    → AllFollow s (e ∷ es)
    → e.sequence ≡ length (run_events s e.run_id) + 1
AllFollow-next e es s f = go (f e.run_id)
  where
    go :
        Follows (length (run_events s e.run_id) + 1) (events_of e.run_id (e ∷ es))
        → e.sequence ≡ length (run_events s e.run_id) + 1
    go h = (rw (eq_refl e.run_id) at h).0

AllFollow-rest :
    (e : Event) (es : List Event) (s : Store) → AllFollow s (e ∷ es) → AllFollow (add_event e s) es
AllFollow-rest e es s f r = elim (Bool-cases (e.run_id == r)) [
  | inl same ↦ rw (length-add_event e s r, same) ((rw same at (f r)).1)
  | inr other ↦ rw (length-add_event e s r, other) (rw other at (f r))
]

-- The rest of a batch, after its first append.
abbrev then_rest : List Event → Option StoreError × Store → Option StoreError × Store
then_rest es o = elim o.0 [ none ↦ append_each es o.1 | some x ↦ (some x, o.1) ]

-- What appends one after another accept goes on in every run.
pub append_each-AllFollow :
    (es : List Event) (s : Store) → (append_each es s).0 ≡ none → AllFollow s es
unfolding append_each
append_each-AllFollow [] s h = λ r. tt
append_each-AllFollow (e ∷ es) s h =
    go (append_each-AllFollow es (add_event e s)) (append-Appended e s) h
  where
    back :
        e.sequence ≡ length (run_events s e.run_id) + 1
        → AllFollow (add_event e s) es
        → AllFollow s (e ∷ es)
    back next f r = elim (Bool-cases (e.run_id == r)) [
      | inl same ↦ rw same (
        next ∙ ap (λ q. length (run_events s q) + 1) ((eq_iff e.run_id r).0 same),
        rw (length-add_event e s r, same) at (f r),
      )
      | inr other ↦ rw other (rw (length-add_event e s r, other) at (f r))
    ]

    go :
        ((append_each es (add_event e s)).0 ≡ none → AllFollow (add_event e s) es)
        → {o : Option StoreError × Store} → Appended e s o
        → (then_rest es o).0 ≡ none
        → AllFollow s (e ∷ es)
    go rest (duplicated _) k = cc
    go rest (conflicting _ _) k = cc
    go rest (accepted _ next) k = back next (rest k)

append_each-cons :
    (e : Event) (es : List Event) (s : Store)
    → Memory.append e s ≡ (none, add_event e s)
    → append_each (e ∷ es) s ≡ append_each es (add_event e s)
unfolding append_each
append_each-cons e es s h =
    ap
      (λ (o : Option StoreError × Store). elim o.0 [
        | none ↦ append_each es o.1
        | some x ↦ (some x, o.1)
      ])
      h

pub or_rollback-error : (s : Store) (o : Option StoreError × Store) → (or_rollback s o).0 ≡ o.0
or_rollback-error s (none, t) = refl
or_rollback-error s (some x, t) = refl

pub or_rollback-fine :
    (P : Store → Type 0) (s : Store) (o : Option StoreError × Store)
    → o.0 ≡ none
    → P o.1
    → P (or_rollback s o).1
or_rollback-fine P s (none, t) h p = p
or_rollback-fine P s (some x, t) h p = cc

module _ (db : Database) (keep : Row → Row) (law : IsLawful db keep) where
  -- What an error of the events says of the appends in memory: they meet one too, unless the error of an
  -- INSERT was taken for a duplicate key and is none.
  abbrev pub Refuses : StoreError → Option StoreError → Type 0
  Refuses duplicate_event error = (error ≢ none) ⊎ Misread db
  Refuses (sequence_conflict _ _ _) error = error ≢ none

  pub refuses : (x : StoreError) {error : Option StoreError} → error ≢ none → Refuses x error
  refuses duplicate_event h = inl h
  refuses (sequence_conflict _ _ _) h = h

  -- What a transaction has done, against the appends in memory: success on both sides, with the same
  -- events; or an error of the events; or an error that the database has answered.
  abbrev pub Mirrors : Option PgError × db.T → Option StoreError × Store → Type 0
  Mirrors (none, t) o = (o.0 ≡ none) × Agrees keep law.kept o.1 (law.seen t)
  Mirrors (some (refused x), t) o = Refuses x o.0
  Mirrors (some (wrapped w e), t) o = Met db w e
  Mirrors (some (commit_failed _), t) o = ⊥

  pub insert_events-Mirrors :
      (es : List Event) (t : db.T) (s : Store)
      → Agrees keep law.kept s (law.seen t)
      → AllFollow s es
      → Mirrors (insert_events db es t) (append_each es s)
  unfolding insert_events append_each
  insert_events-Mirrors [] t s a f = (refl, a)
  insert_events-Mirrors (e ∷ es) t s a f =
      go (insert_events-Mirrors es (db.insert (columns e) t).1 (add_event e s))
        (db.insert (columns e) t).0 refl
    where
      next : e.sequence ≡ length (run_events s e.run_id) + 1
      next = AllFollow-next e es s f

      Rest : Type 0
      Rest =
          Agrees keep law.kept (add_event e s) (law.seen (db.insert (columns e) t).1)
          → AllFollow (add_event e s) es
          → Mirrors (insert_events db es (db.insert (columns e) t).1)
              (append_each es (add_event e s))

      inserted :
          Rest
          → (db.insert (columns e) t).0 ≡ none
          → Mirrors (insert_events db es (db.insert (columns e) t).1) (append_each (e ∷ es) s)
      inserted rest fine =
          let (grown, free) = law.insert (columns e) t fine in
          let fresh = free-fresh keep law.kept s (law.seen t) a e free in
          subst (Mirrors (insert_events db es (db.insert (columns e) t).1))
            (sym (append_each-cons e es s (append-eq-add_event e s fresh next)))
            (rest
              (subst (λ l. Agrees keep law.kept (add_event e s) l) (sym grown)
                (add_event-Agrees keep law.kept s (law.seen t) e a fresh next))
              (AllFollow-rest e es s f))

      violated :
          (x : DbError)
          → (db.insert (columns e) t).0 ≡ some x
          → (b : Bool) → is_duplicate_key_error x ≡ b
          → Mirrors
              (
                some (if b then refused duplicate_event else wrapped "insert event" x),
                (db.insert (columns e) t).1,
              )
              (append_each (e ∷ es) s)
      violated x bad false h =
          at_insert (columns e) t x bad
            (λ u. let k = is_duplicate-IsUniqueViolation db keep law (columns e) t x bad u in cc)
      violated x bad true h = elim (is_duplicate-Taken db keep law (columns e) t x bad h) [
        | inr misread ↦ inr misread
        | inl is_taken ↦ inl (λ k.
            let there = taken-refused keep law.kept s (law.seen t) a e is_taken next in
            go_dup (append-Appended e s) there k)
      ]
        where
          go_dup :
              {o : Option StoreError × Store}
              → Appended e s o
              → lookup e.id s.ids ≡ some tt
              → (then_rest es o).0 ≡ none
              → ⊥
          go_dup (duplicated _) there k = cc
          go_dup (conflicting absent _) there k = cc
          go_dup (accepted absent _) there k = cc

      go :
          Rest
          → (o : Option DbError) → (db.insert (columns e) t).0 ≡ o
          → Mirrors
              (elim o [
                | some x ↦ (some (insert_error db x), (db.insert (columns e) t).1)
                | none ↦ insert_events db es (db.insert (columns e) t).1
              ])
              (append_each (e ∷ es) s)
      go rest none h = inserted rest h
      go rest (some x) h = violated x h (is_duplicate_key_error x) refl

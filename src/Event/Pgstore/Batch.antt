-- ===== src/Event/Pgstore/Batch.antt =====
-- event/pgstore/store.go: what `AppendBatch` does to the database, against `AppendBatch` in memory.
use skene.Prelude.{
  IsRange, ◌+◌, String, ◌≡◌, refl, sym, ◌∙◌, subst, Option, none, some, List, [], ◌∷◌, Map, inl,
  inr, ◌⊎◌, Has,
}
use skene.Event.{Event}
use skene.Event.Store.{StoreError}
use skene.Event.Memory as Memory
use skene.Event.Memory.{Store, run_events}
use skene.Event.Memory.Batch.{append_each, or_rollback, append_batch-eq-append_each}
use skene.Event.Memory.Reads.{of_run as events_of}
use skene.Event.Pgstore.Postgres.{Row, DbError, Answer, got, lost, Database, IsLawful}
use skene.Event.Pgstore.{
  PgError, refused, wrapped, commit_failed, group_by_run, validate_runs, insert_events,
  append_batch_in_tx, commit_or_error, append_batch,
}
use skene.Event.Pgstore.Checks.{
  Follows, group-events_of, events_of-group, GoesOn, Checked, validate_runs-Checked,
}
use skene.Event.Pgstore.Agreement.{Agrees, max_of-length}
use skene.Event.Pgstore.Refinement.{
  AllFollow, append_each-AllFollow, or_rollback-error, or_rollback-fine, Mirrors,
  insert_events-Mirrors, Refuses, refuses,
}
use skene.Event.Pgstore.Duplicates.{Met, at_begin}

module _ (db : Database) (keep : Row → Row) (law : IsLawful db keep) where
  -- What a batch has done to the rows of the database, against the same batch in memory: success on both
  -- sides, with the same events; an error of the events, which are refused in memory too, and nothing is
  -- written; an error that the database has answered, and nothing is written; or an error of `Commit`, on a batch that succeeds in memory,
  -- and all or nothing is written.
  abbrev pub Applied : List Row → Option PgError × db.D → Option StoreError × Store → Type 0
  Applied before (none, d) o = (o.0 ≡ none) × Agrees keep law.kept o.1 (law.rows d)
  Applied before (some (refused x), d) o = Refuses db keep law x o.0 × (law.rows d ≡ before)
  Applied before (some (wrapped w e), d) o = Met db w e × (law.rows d ≡ before)
  Applied before (some (commit_failed _), d) o =
      (o.0 ≡ none) × (Agrees keep law.kept o.1 (law.rows d) ⊎ (law.rows d ≡ before))

  module _ (range : Map String (List Event) → Map String (List Event)) (h : IsRange range) where
    checked-AllFollow :
        (es : List Event) (s : Store) (rows : List Row)
        → Agrees keep law.kept s rows
        → ((r : String) (ds : List Event)
            → Has (r, ds) (range (group_by_run es []))
            → GoesOn db keep law rows r ds)
        → AllFollow s es
    checked-AllFollow es s rows a c r = elim (events_of-group range h es r) [
      | inl none_of ↦ rw none_of tt
      | inr met ↦
          subst (λ n. Follows (n + 1) (events_of r es)) (max_of-length keep law.kept s rows a r)
            (c r (events_of r es) met)
    ]

    append_batch_in_tx-Mirrors :
        (es : List Event) (t : db.T) (s : Store)
        → Agrees keep law.kept s (law.seen t)
        → Mirrors db keep law (append_batch_in_tx db range es t) (append_each es s)
    unfolding append_batch_in_tx
    append_batch_in_tx-Mirrors es t s a =
        go (validate_runs db (range (group_by_run es [])) t)
          (validate_runs-Checked db keep law (range (group_by_run es [])) t (law.seen t) refl)
      where
        go :
            (o : Option PgError × db.T)
            → Checked db keep law (law.seen t) (range (group_by_run es [])) o
            → Mirrors db keep law
                (elim o.0 [ some e ↦ (some e, o.1) | none ↦ insert_events db es o.1 ])
                (append_each es s)
        go (none, t') (same, c) =
            insert_events-Mirrors db keep law es t' s
              (subst (λ l. Agrees keep law.kept s l) (sym same) a)
              (checked-AllFollow es s (law.seen t) a c)
        go (some (refused x), t') (r, ds, met, gap) = refuses db keep law x (λ fine.
            let all = append_each-AllFollow es s fine r in
            gap (
              subst (λ l. GoesOn db keep law (law.seen t) r l)
                (sym (group-events_of range h es r ds met))
                (subst (λ n. Follows (n + 1) (events_of r es))
                  (sym (max_of-length keep law.kept s (law.seen t) a r)) all)))
        go (some (wrapped _ _), t') c = c
        go (some (commit_failed _), t') c = c

    commit-Applied :
        (o : Option PgError × db.T) (d : db.D) (s : Store) (p : Option StoreError × Store)
        → Mirrors db keep law o p
        → Applied (law.rows d) (commit_or_error db range d o) (or_rollback s p)
    commit-Applied (some (refused x), t) d s p m =
        (subst (Refuses db keep law x) (sym (or_rollback-error s p)) m, refl)
    commit-Applied (some (wrapped _ _), t) d s p m = (m, refl)
    commit-Applied (some (commit_failed _), t) d s p m = absurd m
    commit-Applied (none, t) d s p (fine, a) = go (db.commit t d).0 refl
      where
        fine' : (or_rollback s p).0 ≡ none
        fine' = or_rollback-error s p ∙ fine

        agrees :
            law.rows (db.commit t d).1 ≡ law.seen t
            → Agrees keep law.kept (or_rollback s p).1 (law.rows (db.commit t d).1)
        agrees same =
            subst (λ l. Agrees keep law.kept (or_rollback s p).1 l) (sym same)
              (or_rollback-fine (λ q. Agrees keep law.kept q (law.seen t)) s p fine a)

        go :
            (o : Option DbError)
            → (db.commit t d).0 ≡ o
            → Applied
                (law.rows d)
                (elim o [
                  | none ↦ (none, (db.commit t d).1)
                  | some e ↦ (some (commit_failed e), (db.commit t d).1)
                ])
                (or_rollback s p)
        go none c = (fine', agrees (law.commit t d c))
        go (some e) c = (
          fine',
          elim (law.commit_failed t d) [ inl all ↦ inl (agrees all) | inr nothing ↦ inr nothing ],
        )

-- Over a lawful database whose rows are those of a sound memory store, and in whatever order it ranges
-- over the runs, `AppendBatch` does what the memory store's does: it returns no error only if that
-- returns none, and then the rows are again those of that store; it returns a sequence conflict, or a
-- duplicate event, only if that returns an error, but that it may also tell of a duplicate event for an
-- error of an INSERT that is no unique violation and whose text reads like one; it returns a wrapped
-- error only if the call of the database that its text names has answered that error, which is no unique
-- violation if the call is an INSERT. On all these errors the rows are as before; on an error of `Commit`
-- that returns none, and the rows are as before or those of that store.
pub append_batch-Applied :
    (db : Database) (keep : Row → Row) (law : IsLawful db keep)
    (range : Map String (List Event) → Map String (List Event))
    → IsRange range
    → (es : List Event) (d : db.D) (s : Store) → Agrees keep law.kept s (law.rows d)
    → Applied db keep law (law.rows d) (append_batch db range es d) (Memory.append_batch es s)
unfolding append_batch
append_batch-Applied db keep law range h [] d s a = unfold Memory.append_batch in (refl, a)
append_batch-Applied db keep law range h (e ∷ es) d s a =
    subst (Applied db keep law (law.rows d) (append_batch db range (e ∷ es) d))
      (sym (append_batch-eq-append_each (e ∷ es) s)) (go (db.begin d) refl)
  where
    go :
        (b : Answer db.T)
        → db.begin d ≡ b
        → Applied db keep law
            (law.rows d)
            (elim b [
              | lost x ↦ (some (wrapped "begin transaction" x), d)
              | got t ↦ commit_or_error db range d (append_batch_in_tx db range (e ∷ es) t)
            ])
            (or_rollback s (append_each (e ∷ es) s))
    go (lost x) b = (at_begin d x b, refl)
    go (got t) b = commit-Applied db keep law range h _ d s (append_each (e ∷ es) s) (
        append_batch_in_tx-Mirrors db keep law range h (e ∷ es) t s
          (subst (λ l. Agrees keep law.kept s l) (sym (law.begin d t b)) a))

-- ===== src/Event/Memory/Batch.antt =====
-- event/memory/store.go: `AppendBatch` against one `Append` for each event.
use skene.Prelude.{
  ℕ, suc, ◌+◌, String, ◌≡◌, ◌≢◌, refl, ap, sym, ◌||◌, Option, none, some, List, [], ◌∷◌, Map,
  lookup, insert, lookup-insert, length, length-append, arith, eq_iff, inl, inr, ◌==◌, All, subst,
  Bool-cases, Option-cases, if◌then◌else◌, string_key, nat_eq,
}
use skene.Event.{Event}
use skene.Event.Store.{StoreError}
use skene.Event.Memory.{
  Store, run_events, add_event, append, is_there, or_empty, or_zero, run_sequences, validate,
  add_events, append_batch, get_last_sequence,
}
use skene.Event.Memory.Numbering.{
  Numbered, IsSound, run_events-add_event, ids-add_event, append-IsSound,
}

-- One `append` after another, until one fails.
unfoldable pub append_each : List Event → Store → Option StoreError × Store
append_each [] s = (none, s)
append_each (e ∷ es) s =
    let after = append e s in
    let rest = append_each es after.1 in
    elim after.0 [ none ↦ rest | some error ↦ (some error, after.1) ]

-- All or nothing: on an error the store is what it was before.
abbrev pub or_rollback : Store → Option StoreError × Store → Option StoreError × Store
or_rollback s (none, t) = (none, t)
or_rollback s (some error, t) = (some error, s)

length-run_events-add_event :
    (e : Event) (s : Store) (r : String)
    → length (run_events (add_event e s) r)
      ≡ (if e.run_id == r then length (run_events s r) + 1 else length (run_events s r))
length-run_events-add_event e s r =
    rw (run_events-add_event e s r) (ground (arith, length-append (run_events s r) (e ∷ [])))

lookup-run_sequences :
    (r : String) (m : Map String (List Event))
    → or_zero (lookup r (run_sequences m)) ≡ length (or_empty (lookup r m))
unfolding run_sequences lookup
lookup-run_sequences r [] = refl
lookup-run_sequences r ((q, es) ∷ m) = ground (arith, lookup-run_sequences r m)

-- How the sets of the check stand to the store `t` that the appends so far would have made.
record Tracks (s t : Store) (new_ids : Map String (Unit {0})) (sequences : Map String ℕ)
    : Type 0 where
  ids :
      (i : String)
      → is_there (lookup i t.ids) ≡ is_there (lookup i s.ids) || is_there (lookup i new_ids)
  counts : (r : String) → or_zero (lookup r sequences) ≡ length (run_events t r)

Tracks-start : (s : Store) → Tracks s s [] (run_sequences s.events)
unfolding run_events lookup
Tracks-start s = record { ids = λ i. ground arith; counts = λ r. lookup-run_sequences r s.events }

Tracks-add_event :
    (s t : Store) (new_ids : Map String (Unit {0})) (sequences : Map String ℕ) (e : Event)
    → Tracks s t new_ids sequences
    → e.sequence ≡ length (run_events t e.run_id) + 1
    → Tracks s (add_event e t) (insert e.id tt new_ids) (insert e.run_id e.sequence sequences)
Tracks-add_event s t new_ids sequences e h next = record {
  ids = λ i. rw (ids-add_event e t i, lookup-insert e.id i tt new_ids) (ground (arith, h.ids i));
  counts = λ r.
      rw (length-run_events-add_event e t r, lookup-insert e.run_id r e.sequence sequences)
        (ground (arith, h.counts r, eq_iff e.run_id r));
}

-- The check finds the error that the appends would meet, or there is none and they store the same.
append_each-validate :
    (s t : Store) (es : List Event) (new_ids : Map String (Unit {0})) (sequences : Map String ℕ)
    → Tracks s t new_ids sequences
    → or_rollback s (append_each es t) ≡ (elim (validate s es new_ids sequences) [
      | none ↦ (none, add_events es t)
      | some error ↦ (some error, s)
    ])
unfolding append append_each validate add_events
append_each-validate s t [] new_ids sequences h = refl
append_each-validate s t (e ∷ es) new_ids sequences h =
    elim (Bool-cases (nat_eq e.sequence (length (run_events t e.run_id) + 1))) [
      | inl next ↦
          let grown = Tracks-add_event s t new_ids sequences e h (ground arith) in
          ground (
            arith,
            h.ids e.id,
            h.counts e.run_id,
            append_each-validate s (add_event e t) es _ _ grown,
          )
      | inr gap ↦ ground (arith, h.ids e.id, h.counts e.run_id)
    ]

-- A batch does what its events do one append after another, if all succeed; if one fails, the batch
-- reports that error and the store is as before.
pub append_batch-eq-append_each :
    (es : List Event) (s : Store) → append_batch es s ≡ or_rollback s (append_each es s)
unfolding append_batch
append_batch-eq-append_each [] s = unfold append_each in refl
append_batch-eq-append_each (e ∷ es) s =
    sym (append_each-validate s s (e ∷ es) [] (run_sequences s.events) (Tracks-start s))

append_each-IsSound : (es : List Event) (s : Store) → IsSound s → IsSound (append_each es s).1
unfolding append_each
append_each-IsSound [] s sound = sound
append_each-IsSound (e ∷ es) s sound = elim (Option-cases (append e s).0) [
  | inl fine ↦
      rw (fine, append_each) (append_each-IsSound es (append e s).1 (append-IsSound e s sound))
  | inr (error, failed) ↦ rw (failed, append_each) (append-IsSound e s sound)
]

or_rollback-IsSound :
    (s : Store) (o : Option StoreError × Store)
    → IsSound s
    → IsSound o.1
    → IsSound (or_rollback s o).1
or_rollback-IsSound s (none, t) old now = now
or_rollback-IsSound s (some error, t) old now = old

-- A batch keeps the store sound, whether it stores its events or refuses them.
pub append_batch-IsSound : (es : List Event) (s : Store) → IsSound s → IsSound (append_batch es s).1
append_batch-IsSound es s sound =
    rw (append_batch-eq-append_each es s)
      (or_rollback-IsSound s (append_each es s) sound (append_each-IsSound es s sound))

-- No id stands twice.
abbrev pub Distinct : List Event → Type 0
Distinct [] = Unit
Distinct (e ∷ es) = All (λ d. e.id ≢ d.id) es × Distinct es

-- None of the ids is stored.
abbrev pub Fresh : Store → List Event → Type 0
Fresh s es = All (λ d. lookup d.id s.ids ≡ none) es

pub append-eq-add_event :
    (e : Event) (s : Store)
    → lookup e.id s.ids ≡ none
    → e.sequence ≡ length (run_events s e.run_id) + 1
    → append e s ≡ (none, add_event e s)
unfolding append
append-eq-add_event e s fresh next = ground arith

Fresh-add_event :
    (e : Event) (s : Store) (es : List Event)
    → Fresh s es
    → All (λ d. e.id ≢ d.id) es
    → Fresh (add_event e s) es
Fresh-add_event e s [] f d = tt
Fresh-add_event e s (x ∷ es) f d =
    (rw (ids-add_event e s x.id) (ground (arith, eq_iff e.id x.id)), Fresh-add_event e s es f.1 d.1)

append_each_accepts :
    (r : String) (es : List Event) (s : Store)
    → Numbered r (length (run_events s r) + 1) es
    → Fresh s es
    → Distinct es
    → append_each es s ≡ (none, add_events es s)
unfolding append_each add_events
append_each_accepts r [] s n f d = refl
append_each_accepts r (e ∷ es) s n f d =
    let rest =
      append_each_accepts r es (add_event e s) (subst (λ k. Numbered r k es) later n.2)
        (Fresh-add_event e s es f.1 d.0) d.1 in
    ground (arith, append-eq-add_event e s f.0 next, rest)
  where
    next : e.sequence ≡ length (run_events s e.run_id) + 1
    next = omega (arith, ap (λ q. length (run_events s q)) n.0)

    later : suc (length (run_events s r) + 1) ≡ length (run_events (add_event e s) r) + 1
    later = rw (length-run_events-add_event e s r) (ground (arith, eq_iff e.run_id r, n.0))

-- A batch for one run is accepted as a whole if it goes on where the run ends, its ids are new to
-- the store, and no id stands in it twice.
pub append_batch_accepts :
    (r : String) (es : List Event) (s : Store)
    → Numbered r (get_last_sequence s r + 1) es
    → Fresh s es
    → Distinct es
    → append_batch es s ≡ (none, add_events es s)
unfolding get_last_sequence
append_batch_accepts r es s n f d =
    rw (append_batch-eq-append_each es s, append_each_accepts r es s n f d)

-- ===== src/Event/Memory/Reads.antt =====
-- event/memory/store.go: what the reads return, before and after the writes.
use skene.Prelude.{
  ℕ, zero, suc, ◌+◌, ◌≤◌, ◌<◌, String, ◌≡◌, ◌≢◌, refl, ap, sym, ◌∙◌, Option, none, some, List, [],
  ◌∷◌, ◌++◌, append-nil, append_assoc, length, length-append, drop, arith, inl, inr, ◌==◌, eq_refl,
  Bool-cases, if◌then◌else◌, string_key, ltb, leb, ℤ, pos_part, ◌⊎◌, subst,
}
use skene.Event.{Event}
use skene.Event.Store.{StoreError}
use skene.Event.Memory.{
  Store, run_events, add_event, append, add_events, append_batch, load, load_since,
  get_last_sequence,
}
use skene.Event.Memory.Numbering.{
  IsSound, Numbered, run_events-add_event, append-Appended, Appended, duplicated, conflicting,
  accepted,
}

-- After an append, an error means that every run reads as before, and success that the event stands
-- at the end of its run and that the other runs read as before.
pub load-append :
    (e : Event) (s : Store) (r : String)
    → load (append e s).1 r ≡ elim (append e s).0 [
      | none ↦ if e.run_id == r then load s r ++ e ∷ [] else load s r
      | some error ↦ load s r
    ]
unfolding load
load-append e s r = go (append-Appended e s)
  where
    go :
        {o : Option StoreError × Store}
        → Appended e s o
        → run_events o.1 r ≡ elim o.0 [
          | none ↦ if e.run_id == r then run_events s r ++ e ∷ [] else run_events s r
          | some error ↦ run_events s r
        ]
    go (duplicated _) = refl
    go (conflicting _ _) = refl
    go (accepted _ _) = run_events-add_event e s r

-- The events of a list that belong to a run.
abbrev pub of_run : String → List Event → List Event
of_run r [] = []
of_run r (e ∷ es) = if e.run_id == r then e ∷ of_run r es else of_run r es

run_events-add_events :
    (es : List Event) (s : Store) (r : String)
    → run_events (add_events es s) r ≡ run_events s r ++ of_run r es
unfolding add_events
run_events-add_events [] s r = sym (append-nil (run_events s r))
run_events-add_events (e ∷ es) s r =
    run_events-add_events es (add_event e s) r
    ∙ (rw (run_events-add_event e s r) (elim (Bool-cases (e.run_id == r)) [
      | inl same ↦ rw same (append_assoc (run_events s r) (e ∷ []) (of_run r es))
      | inr other ↦ rw other refl
    ]))

-- After a batch that succeeds, each run has its old events and then those of the batch that belong
-- to it, in their order; after one that fails, every run reads as before.
pub load-append_batch :
    (es : List Event) (s : Store) (r : String)
    → load (append_batch es s).1 r
      ≡ elim (append_batch es s).0 [ none ↦ load s r ++ of_run r es | some error ↦ load s r ]
unfolding load append_batch
load-append_batch [] s r = sym (append-nil (run_events s r))
load-append_batch (e ∷ es) s r = ground (arith, run_events-add_events (e ∷ es) s r)

-- The events with a sequence above a bound.
abbrev pub since : ℕ → List Event → List Event
since n [] = []
since n (e ∷ es) = if ltb n e.sequence then e ∷ since n es else since n es

pub since_all : (r : String) (n k : ℕ) (es : List Event) → Numbered r n es → k < n → since k es ≡ es
since_all r n k [] h lt = refl
since_all r n k (e ∷ es) h lt = ground (arith, since_all r (suc n) k es h.2)

drop-eq-since :
    (r : String) (n k : ℕ) (es : List Event) → Numbered r (suc n) es → drop k es ≡ since (n + k) es
drop-eq-since r n zero [] h = refl
drop-eq-since r n (suc k) [] h = refl
drop-eq-since r n zero (e ∷ es) h = sym (since_all r (suc n) (n + zero) (e ∷ es) h (omega arith))
drop-eq-since r n (suc k) (e ∷ es) h =
    ground (arith, drop-eq-since r (suc n) k es h.2, ap (λ m. since m es) up)
  where
    up : suc n + k ≡ n + suc k
    up = omega arith

drop_all : (n : ℕ) (es : List Event) → length es ≤ n → drop n es ≡ []
drop_all zero [] h = refl
drop_all zero (e ∷ es) h = absurd (omega arith)
drop_all (suc n) [] h = refl
drop_all (suc n) (e ∷ es) h = drop_all n es (omega arith)

-- In a sound store `LoadSince` returns the events of the run with a sequence above the given one,
-- in order; a negative one gives them all.
pub load_since-eq-since :
    (s : Store) (r : String) (k : ℤ) → IsSound s → load_since s r k ≡ since (pos_part k) (load s r)
unfolding load_since load
load_since-eq-since s r k sound =
    let es = run_events s r in
    let n = pos_part k in
    let same : drop n es ≡ since n es =
      drop-eq-since r 0 n es (sound.numbered r) ∙ ap (λ m. since m es) (omega arith) in
    elim (Bool-cases (leb (length es) n)) [
      | inl past ↦ rw past (sym (drop_all n es (ground arith)) ∙ same)
      | inr inside ↦ rw inside same
    ]

-- The last of some numbered events.
abbrev pub EndsAt : ℕ → List Event → Type 0
EndsAt n es = (ds : List Event) × (e : Event) × (es ≡ ds ++ e ∷ []) × (e.sequence ≡ n)

Numbered-EndsAt :
    (r : String) (n : ℕ) (e : Event) (es : List Event)
    → Numbered r n (e ∷ es)
    → EndsAt (n + length es) (e ∷ es)
Numbered-EndsAt r n e [] h = ([], e, refl, omega arith)
Numbered-EndsAt r n e (d ∷ es) h =
    let (ds, last, split, at) = Numbered-EndsAt r (suc n) d es h.2 in
    (e ∷ ds, last, ap (λ l. e ∷ l) split, omega arith)

-- In a sound store the last sequence of a run is 0 if the run has no events, and that of its last
-- event if it has some.
pub get_last_sequence-EndsAt :
    (s : Store) (r : String)
    → IsSound s
    → (load s r ≡ []) × (get_last_sequence s r ≡ 0) ⊎ EndsAt (get_last_sequence s r) (load s r)
unfolding get_last_sequence load
get_last_sequence-EndsAt s r sound = go (run_events s r) (sound.numbered r)
  where
    go : (es : List Event) → Numbered r 1 es → (es ≡ []) × (length es ≡ 0) ⊎ EndsAt (length es) es
    go [] h = inl (refl, refl)
    go (e ∷ es) h = inr (subst (λ n. EndsAt n (e ∷ es)) (omega arith) (Numbered-EndsAt r 1 e es h))

length_after :
    (e : Event) (s : Store)
    → (append e s).0 ≡ none
    → (e.sequence ≡ length (run_events s e.run_id) + 1)
      × (length (run_events (append e s).1 e.run_id) ≡ length (run_events s e.run_id) + 1)
length_after e s = go (append-Appended e s)
  where
    go :
        {o : Option StoreError × Store}
        → Appended e s o
        → o.0 ≡ none
        → (e.sequence ≡ length (run_events s e.run_id) + 1)
          × (length (run_events o.1 e.run_id) ≡ length (run_events s e.run_id) + 1)
    go (duplicated _) h = cc
    go (conflicting _ _) h = cc
    go (accepted fresh next) h = (
      next,
      rw (run_events-add_event e s e.run_id, eq_refl e.run_id)
          (omega (arith, length-append {0} (run_events s e.run_id) (e ∷ []))),
    )

-- Of two writers that append an event with one sequence to one run, the second fails if the first
-- has succeeded.
pub append-append_ne_none :
    (d e : Event) (s : Store)
    → (append d s).0 ≡ none
    → e.run_id ≡ d.run_id
    → e.sequence ≡ d.sequence
    → (append e (append d s).1).0 ≢ none
append-append_ne_none d e s fine same_run same_sequence again =
    let (at, grown) = length_after d s fine in
    let (at', _) = length_after e (append d s).1 again in
    absurd (omega (arith, ap (λ q. length (run_events (append d s).1 q)) same_run))

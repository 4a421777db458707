-- ===== src/Event/Memory/Numbering.antt =====
-- event/memory/store.go: the invariant of the store, kept by its writes.
use skene.Prelude.{
  ℕ, suc, ◌+◌, String, ◌≡◌, ◌≢◌, ap, Option, none, some, List, [], ◌∷◌, ◌++◌, lookup, lookup-insert,
  length, arith, eq_iff, inl, inr, ◌==◌, Option-cases, nat_eq, eq_refl, Has, Has-snoc, Has-snoc_old,
  Has-snoc_new, ◌⊎◌, Bool-cases, if◌then◌else◌, string_key,
}
use skene.Event.{Event}
use skene.Event.Store.{StoreError, duplicate_event, sequence_conflict}
use skene.Event.Memory.{Store, new, run_events, add_event, append}

-- The events belong to the run, and are numbered from `n` on with no gap.
abbrev pub Numbered : String → ℕ → List Event → Type 0
Numbered run_id n [] = Unit
Numbered run_id n (e ∷ es) = (e.run_id ≡ run_id) × (e.sequence ≡ n) × Numbered run_id (suc n) es

pub Numbered-snoc :
    (r : String) (n : ℕ) (es : List Event) (e : Event)
    → Numbered r n es
    → e.run_id ≡ r
    → e.sequence ≡ n + length es
    → Numbered r n (es ++ e ∷ [])
Numbered-snoc r n [] e h p q = (p, omega arith, tt)
Numbered-snoc r n (x ∷ es) e h p q = (h.0, h.1, Numbered-snoc r (suc n) es e h.2 p (omega arith))

pub run_events-add_event :
    (e : Event) (s : Store) (r : String)
    → run_events (add_event e s) r
      ≡ (if e.run_id == r then run_events s r ++ e ∷ [] else run_events s r)
unfolding run_events add_event
run_events-add_event e s r = simp lookup-insert (ground (arith, eq_iff e.run_id r))

pub ids-add_event :
    (e : Event) (s : Store) (i : String)
    → lookup i (add_event e s).ids ≡ (if e.id == i then some tt else lookup i s.ids)
unfolding add_event
ids-add_event e s i = lookup-insert e.id i tt s.ids

-- Each run's events are numbered 1, 2, 3, …; the set of ids is that of the stored events; and no
-- id stands at two events.
pub record IsSound (s : Store) : Type 0 where
  pub numbered : (r : String) → Numbered r 1 (run_events s r)
  pub recorded : (r : String) (e : Event) → Has e (run_events s r) → lookup e.id s.ids ≡ some tt
  pub stored :
      (i : String)
      → lookup i s.ids ≡ some tt
      → (e : Event) × Has e (run_events s e.run_id) × (e.id ≡ i)
  pub unique :
      (r q : String) (d e : Event)
      → Has d (run_events s r)
      → Has e (run_events s q)
      → d.id ≡ e.id
      → d ≡ e

pub IsSound-new : IsSound new
unfolding run_events lookup
IsSound-new = record {
  numbered = λ r. tt;
  recorded = λ r e h. absurd h;
  stored = λ i h. cc;
  unique = λ r q d e h. absurd h;
}

module _ (e : Event) (s : Store) (sound : IsSound s) (fresh : lookup e.id s.ids ≡ none)
    (next : e.sequence ≡ length (run_events s e.run_id) + 1) where
  -- An event of the grown store is the new one or an old one.
  old_or_new :
      (r : String) (d : Event)
      → Has d (run_events (add_event e s) r)
      → Has d (run_events s r) ⊎ (e ≡ d) × (e.run_id ≡ r)
  old_or_new r d h = elim (Bool-cases (e.run_id == r)) [
    | inl same ↦
        let h' : Has d (run_events s r ++ e ∷ []) = rw (run_events-add_event e s r, same) at h in
        elim (Has-snoc d e (run_events s r) h') [
          | inl old ↦ inl old
          | inr new_one ↦ inr (new_one, (eq_iff e.run_id r).0 same)
        ]
    | inr other ↦ inl (rw (run_events-add_event e s r, other) at h)
  ]

  kept : (r : String) (d : Event) → Has d (run_events s r) → Has d (run_events (add_event e s) r)
  kept r d h = rw (run_events-add_event e s r) (elim (Bool-cases (e.run_id == r)) [
    | inl same ↦ rw same (Has-snoc_old d e (run_events s r) h)
    | inr other ↦ rw other h
  ])

  grown_in_order : (r : String) → Numbered r 1 (run_events (add_event e s) r)
  grown_in_order r = rw (run_events-add_event e s r) (elim (Bool-cases (e.run_id == r)) [
    | inl same ↦ rw same (
        let here = (eq_iff e.run_id r).0 same in
        Numbered-snoc r 1 (run_events s r) e (sound.numbered r) here
          (omega (arith, ap (λ q. length (run_events s q)) here)))
    | inr other ↦ rw other (sound.numbered r)
  ])

  recorded_after :
      (r : String) (d : Event)
      → Has d (run_events (add_event e s) r)
      → lookup d.id (add_event e s).ids ≡ some tt
  recorded_after r d h = rw (ids-add_event e s d.id) (elim (old_or_new r d h) [
    | inl old ↦ ground (arith, sound.recorded r d old)
    | inr (new_one, _) ↦ rw (← new_one) (rw (eq_refl e.id))
  ])

  stored_after :
      (i : String)
      → lookup i (add_event e s).ids ≡ some tt
      → (d : Event) × Has d (run_events (add_event e s) d.run_id) × (d.id ≡ i)
  stored_after i h = elim (Bool-cases (e.id == i)) [
    | inl same ↦ (
      e,
      rw (run_events-add_event e s e.run_id, eq_refl e.run_id)
          (Has-snoc_new e (run_events s e.run_id)),
      (eq_iff e.id i).0 same,
    )
    | inr other ↦
        let (d, there, named) = sound.stored i (rw (ids-add_event e s i, other) at h) in
        (d, kept d.run_id d there, named)
  ]

  not_old : (r : String) (d : Event) → Has d (run_events s r) → e.id ≢ d.id
  not_old r d h same = cc (sound.recorded r d h, ap (λ i. lookup i s.ids) same)

  unique_after :
      (r q : String) (d f : Event)
      → Has d (run_events (add_event e s) r)
      → Has f (run_events (add_event e s) q)
      → d.id ≡ f.id
      → d ≡ f
  unique_after r q d f h k same = elim (old_or_new r d h) [
    | inl d_old ↦ elim (old_or_new q f k) [
      | inl f_old ↦ sound.unique r q d f d_old f_old same
      | inr (f_new, _) ↦ absurd (not_old r d d_old (cc (ap (λ (x : Event). x.id) f_new)))
    ]
    | inr (d_new, _) ↦ elim (old_or_new q f k) [
      | inl f_old ↦ absurd (not_old q f f_old (cc (ap (λ (x : Event). x.id) d_new)))
      | inr (f_new, _) ↦ cc
    ]
  ]

  pub add_event-IsSound : IsSound (add_event e s)
  add_event-IsSound = record {
    numbered = grown_in_order;
    recorded = recorded_after;
    stored = stored_after;
    unique = unique_after;
  }

-- The three outcomes of `append`, with what is known in each.
pub data Appended (e : Event) (s : Store) : Option StoreError × Store → Type 0 where
  duplicated : lookup e.id s.ids ≡ some tt → Appended e s (some duplicate_event, s)
  conflicting :
      lookup e.id s.ids ≡ none
      → e.sequence ≢ length (run_events s e.run_id) + 1
      → Appended e s
          (some (sequence_conflict e.run_id (length (run_events s e.run_id) + 1) e.sequence), s)
  accepted :
      lookup e.id s.ids ≡ none
      → e.sequence ≡ length (run_events s e.run_id) + 1
      → Appended e s (none, add_event e s)

pub append-Appended : (e : Event) (s : Store) → Appended e s (append e s)
unfolding append
append-Appended e s = elim (Option-cases (lookup e.id s.ids)) [
  | inl absent ↦ elim (Bool-cases (nat_eq e.sequence (length (run_events s e.run_id) + 1))) [
    | inl next ↦ rw (absent, next) (accepted absent (ground arith))
    | inr gap ↦ rw (absent, gap) (conflicting absent (ground arith))
  ]
  | inr (tt, there) ↦ rw there (duplicated there)
]

-- An append keeps the store sound, whether it stores its event or refuses it.
pub append-IsSound : (e : Event) (s : Store) → IsSound s → IsSound (append e s).1
append-IsSound e s sound = go (append-Appended e s)
  where
    go : {o : Option StoreError × Store} → Appended e s o → IsSound o.1
    go (duplicated _) = sound
    go (conflicting _ _) = sound
    go (accepted fresh next) = add_event-IsSound e s sound fresh next

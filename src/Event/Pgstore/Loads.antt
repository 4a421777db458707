-- ===== src/Event/Pgstore/Loads.antt =====
-- event/pgstore/store.go: what the reads return, against those of event/memory/store.go.
use skene.Prelude.{
  ℕ, suc, Bool, true, false, ◌≤◌, String, ◌≡◌, refl, sym, ap, ◌∙◌, subst, List, [], ◌∷◌, map, arith,
  ltb, inl, inr, if◌then◌else◌, Bool-cases, ℤ, pos, negsuc, pos_part,
}
use skene.Event.{Event}
use skene.Event.Memory as Memory
use skene.Event.Memory.{Store, run_events}
use skene.Event.Memory.Numbering.{Numbered}
use skene.Event.Memory.Reads.{since, since_all, load_since-eq-since}
use skene.Event.Pgstore.Postgres.{
  Row, Answer, got, lost, Query, Database, IsLawful, IsKept, IsColumnwise, of_run, above,
  put_in_order, in_order,
}
use skene.Event.Pgstore.{
  columns, scan, or_no_name, parse_event_type, loaded, load_since, events_query, get_last_sequence,
}
use skene.Event.Pgstore.Agreement.{Agrees, stored, max_of-length}
use skene.Event.Pgstore.Constants.{IsConstant, parse_event_type-type_text}

since-head :
    (r : String) (n k : ℕ) (es : List Event) (d : Event) (ds : List Event)
    → Numbered r n es
    → since k es ≡ d ∷ ds
    → n ≤ d.sequence
since-head r n k [] d ds h e = cc
since-head r n k (x ∷ xs) d ds h e = elim (Bool-cases (ltb k x.sequence)) [
  | inl in_it ↦
      let same : x ∷ since k xs ≡ d ∷ ds = rw in_it at e in
      let head : x ≡ d = cc in subst (λ (y : Event). n ≤ y.sequence) head (omega (arith, h.1))
  | inr out ↦ omega (arith, since-head r (suc n) k xs d ds h.2 (rw out at e))
]

module _ (keep : Row → Row) (kept : IsKept keep) where
  map-since :
      (k : ℕ) (es : List Event)
      → above (pos k) (map (stored keep kept) es) ≡ map (stored keep kept) (since k es)
  map-since k [] = refl
  map-since k (e ∷ es) =
      ap
        (λ n.
          if ltb k n
          then stored keep kept e ∷ above (pos k) (map (stored keep kept) es)
          else above (pos k) (map (stored keep kept) es))
        (kept.sequence (columns e))
      ∙ branch (ltb k e.sequence) (map-since k es)
    where
      branch :
          (b : Bool)
          → above (pos k) (map (stored keep kept) es) ≡ map (stored keep kept) (since k es)
          → (if b
              then stored keep kept e ∷ above (pos k) (map (stored keep kept) es)
              else above (pos k) (map (stored keep kept) es))
            ≡ map (stored keep kept) (if b then e ∷ since k es else since k es)
      branch true h = ap (λ l. stored keep kept e ∷ l) h
      branch false h = h

  put_first :
      (e : Event) (es : List Event)
      → ((d : Event) (ds : List Event) → es ≡ d ∷ ds → e.sequence ≤ d.sequence)
      → put_in_order (stored keep kept e) (map (stored keep kept) es)
        ≡ map (stored keep kept) (e ∷ es)
  put_first e [] h = refl
  put_first e (d ∷ ds) h =
      ground (arith, h d ds refl, kept.sequence (columns e), kept.sequence (columns d))

  -- The rows of a numbered run are in order.
  in_order-Numbered :
      (r : String) (n k : ℕ) (es : List Event)
      → Numbered r n es
      → in_order (map (stored keep kept) (since k es)) ≡ map (stored keep kept) (since k es)
  in_order-Numbered r n k [] h = refl
  in_order-Numbered r n k (e ∷ es) h =
      branch (ltb k e.sequence) (in_order-Numbered r (suc n) k es h.2)
    where
      branch :
          (b : Bool)
          → in_order (map (stored keep kept) (since k es)) ≡ map (stored keep kept) (since k es)
          → in_order (map (stored keep kept) (if b then e ∷ since k es else since k es))
            ≡ map (stored keep kept) (if b then e ∷ since k es else since k es)
      branch false same = same
      branch true same =
          ap (put_in_order (stored keep kept e)) same
          ∙ put_first e (since k es)
              (λ d ds split. omega (arith, since-head r (suc n) k es d ds h.2 split, h.1))

  -- What is read back of an event.
  abbrev pub read_back : Event → Event
  read_back e = scan (stored keep kept e)

  map-map : (es : List Event) → map scan (map (stored keep kept) es) ≡ map read_back es
  map-map [] = refl
  map-map (e ∷ es) = ap (λ l. read_back e ∷ l) (map-map es)

  -- A cut below the first sequence leaves all.
  above-negative : (j : ℕ) (xs : List Row) → above (negsuc j) xs ≡ xs
  above-negative j [] = refl
  above-negative j (x ∷ xs) = ap (λ l. x ∷ l) (above-negative j xs)

  above-since :
      (r : String) (k : ℤ) (es : List Event)
      → Numbered r 1 es
      → above k (map (stored keep kept) es) ≡ map (stored keep kept) (since (pos_part k) es)
  above-since r (pos k) es h = map-since k es
  above-since r (negsuc j) es h =
      above-negative j (map (stored keep kept) es)
      ∙ ap (map (stored keep kept)) (sym (since_all r 1 0 es h (omega arith)))

-- The event is what comes back of the other one: the JSON columns, the metadata and the time are what
-- the table keeps of its own; the type is the same, if it is one of the constants; the rest is the same.
pub record ReadAs {keep : Row → Row} (c : IsColumnwise keep) (d e : Event) : Type 0 where
  pub id : d.id ≡ e.id
  pub run_id : d.run_id ≡ e.run_id
  pub sequence : d.sequence ≡ e.sequence
  pub version : d.version ≡ e.version
  pub type : IsConstant e.type → d.type ≡ e.type
  pub step_name : d.step_name ≡ e.step_name
  pub payload : d.payload ≡ c.json e.payload
  pub output : d.output ≡ c.json e.output
  pub timestamp : d.timestamp ≡ c.instant e.timestamp
  pub metadata : d.metadata ≡ c.labels e.metadata

abbrev pub ReadEach : {keep : Row → Row} → IsColumnwise keep → List Event → List Event → Type 0
ReadEach c [] [] = Unit
ReadEach c (d ∷ ds) (e ∷ es) = ReadAs c d e × ReadEach c ds es
ReadEach c [] (e ∷ es) = ⊥
ReadEach c (d ∷ ds) [] = ⊥

module _ (keep : Row → Row) (kept : IsKept keep) (c : IsColumnwise keep) where
  read_back-ReadAs : (e : Event) → ReadAs c (read_back keep kept e) e
  unfolding scan
  read_back-ReadAs e = record {
    id = kept.id (columns e);
    run_id = kept.run_id (columns e);
    sequence = kept.sequence (columns e);
    version = kept.version (columns e);
    type = λ h. ap parse_event_type (kept.type (columns e)) ∙ parse_event_type-type_text e.type h;
    step_name = ap or_no_name (kept.step_name (columns e));
    payload = c.payload (columns e);
    output = c.output (columns e);
    timestamp = c.timestamp (columns e);
    metadata = c.metadata (columns e);
  }

  read_back-ReadEach : (es : List Event) → ReadEach c (map (read_back keep kept) es) es
  read_back-ReadEach [] = tt
  read_back-ReadEach (e ∷ es) = (read_back-ReadAs e, read_back-ReadEach es)

-- Over a lawful database whose rows are those of a sound memory store, a `LoadSince` that returns no error
-- returns what comes back of the events that the memory store's returns, one for one and in their order:
-- each with its id, run, sequence, version and step, its type if that is one of the constants, and what
-- the table keeps of its payload, its output, its time and its metadata.
pub load_since-eq-memory :
    (db : Database) (keep : Row → Row) (law : IsLawful db keep) (c : IsColumnwise keep) (d : db.D)
    (s : Store)
    → Agrees keep law.kept s (law.rows d)
    → (r : String) (k : ℤ) (es : List Event) → load_since db r k d ≡ got es
    → ReadEach c es (Memory.load_since s r k)
unfolding load_since
load_since-eq-memory db keep law c d s a r k es h =
    subst (λ l. ReadEach c l (Memory.load_since s r k)) (sym (go (db.select query d) refl h))
      (read_back-ReadEach keep law.kept c (Memory.load_since s r k))
  where
    query : Query
    query = events_query db r k

    held :
        in_order (above k (of_run r (law.rows d)))
        ≡ map (stored keep law.kept) (since (pos_part k) (run_events s r))
    held =
        ap (λ l. in_order (above k l)) (a.same r)
        ∙ ap in_order (above-since keep law.kept r k (run_events s r) (a.sound.numbered r))
        ∙ in_order-Numbered keep law.kept r 1 (pos_part k) (run_events s r) (a.sound.numbered r)

    in_memory : since (pos_part k) (run_events s r) ≡ Memory.load_since s r k
    in_memory = unfold Memory.load in sym (load_since-eq-since s r k a.sound)

    go :
        (o : Answer (List Row))
        → db.select query d ≡ o
        → loaded db o ≡ got es
        → es ≡ map (read_back keep law.kept) (Memory.load_since s r k)
    go (lost e) q l = cc
    go (got xs) q l =
        let same : map scan xs ≡ es = cc in
        sym same
        ∙ ap (map scan) (law.select query d xs refl q ∙ held)
        ∙ map-map keep law.kept (since (pos_part k) (run_events s r))
        ∙ ap (map (read_back keep law.kept)) in_memory

-- `GetLastSequence` returns the same number as the memory store's, if it returns one.
pub get_last_sequence-eq-memory :
    (db : Database) (keep : Row → Row) (law : IsLawful db keep) (d : db.D) (s : Store)
    → Agrees keep law.kept s (law.rows d)
    → (r : String) (n : ℕ) → get_last_sequence db r d ≡ got n
    → n ≡ Memory.get_last_sequence s r
unfolding get_last_sequence Memory.get_last_sequence
get_last_sequence-eq-memory db keep law d s a r n h =
    law.last_sequence r d n h ∙ max_of-length keep law.kept s (law.rows d) a r

-- The columns that the database keeps as they are come back: an event whose type is a constant is read
-- back with its id, its run, its sequence, its version, its type and the name of its step.
pub read_back-Kept :
    (keep : Row → Row) (kept : IsKept keep) (e : Event)
    → IsConstant e.type
    → let d = read_back keep kept e in
      (d.id ≡ e.id)
      × (d.run_id ≡ e.run_id)
      × (d.sequence ≡ e.sequence)
      × (d.version ≡ e.version)
      × (d.type ≡ e.type)
      × (d.step_name ≡ e.step_name)
unfolding scan
read_back-Kept keep kept e h = (
  kept.id (columns e),
  kept.run_id (columns e),
  kept.sequence (columns e),
  kept.version (columns e),
  ap parse_event_type (kept.type (columns e)) ∙ parse_event_type-type_text e.type h,
  ap or_no_name (kept.step_name (columns e)),
)

-- ===== src/Event/Pgstore/Duplicates.antt =====
-- event/pgstore/store.go, `isDuplicateKeyError`: what its search of the text finds.
use Prim.Native.String.{◌++◌}
use text.Mathlib.Text.{starts_with}
use text.Mathlib.TextBridge.{IsPrefix}
use text.Mathlib.TextEquality.{starts_with_iff}
use text.Mathlib.TextLemmas.{nil-append, cons-append, append-nil}
use skene.Prelude.{
  String, ◌≡◌, refl, sym, ap, ◌∙◌, Bool, true, false, ◌||◌, Option, none, some, inl, inr, ◌⊎◌,
  Bool-cases, ◌==◌, eq_iff, subst,
}
use skene.Event.Pgstore.Postgres.{
  DbError, no_rows, failed, lost, Row, Database, IsLawful, Taken, Holds, IsUniqueViolation,
}
use skene.Event.Pgstore.Errors.{search_string, contains_string, is_duplicate_key_error}

search_string-IsPrefix : (s t : String) → IsPrefix t s → search_string s t ≡ true
unfolding search_string
search_string-IsPrefix String.[] t h = (starts_with_iff String.[] t).1 h
search_string-IsPrefix (String.◌∷◌ c s) t h = rw ((starts_with_iff (String.◌∷◌ c s) t).1 h) refl

or_true : (b : Bool) → b || true ≡ true
or_true true = refl
or_true false = refl

search_later :
    (c : _) (s t : String) → search_string s t ≡ true → search_string (String.◌∷◌ c s) t ≡ true
unfolding search_string
search_later c s t h = rw h (or_true (starts_with (String.◌∷◌ c s) t))

search_string-append : (p t q : String) → search_string (p ++ (t ++ q)) t ≡ true
search_string-append String.[] t q =
    rw (nil-append (t ++ q)) (search_string-IsPrefix (t ++ q) t (q, refl))
search_string-append (String.◌∷◌ c p) t q =
    rw (cons-append c p (t ++ q)) (search_later c (p ++ (t ++ q)) t (search_string-append p t q))

search_string-Holds : (s t : String) → search_string s t ≡ true → Holds s t
unfolding search_string
search_string-Holds String.[] t h =
    let p = (starts_with_iff String.[] t).0 h in (String.[], p.0, nil-append (t ++ p.0) ∙ p.1)
search_string-Holds (String.◌∷◌ c s) t h = elim (Bool-cases (starts_with (String.◌∷◌ c s) t)) [
  | inl first ↦
      let p = (starts_with_iff (String.◌∷◌ c s) t).0 first in
      (String.[], p.0, nil-append (t ++ p.0) ∙ p.1)
  | inr later ↦
      let (p, q, same) = search_string-Holds s t (rw later at h) in
      (String.◌∷◌ c p, q, cons-append c p (t ++ q) ∙ ap (λ u. String.◌∷◌ c u) same)
]

contains_string-Holds : (s t : String) → contains_string s t ≡ true → Holds s t
contains_string-Holds s t h = elim (Bool-cases (s == t)) [
  | inl same ↦
      (String.[], String.[], nil-append (t ++ String.[]) ∙ append-nil t ∙ sym ((eq_iff s t).0 same))
  | inr other ↦ search_string-Holds s t (rw other at h)
]

Holds-contains_string : (s t : String) → Holds s t → contains_string s t ≡ true
Holds-contains_string s t (p, q, same) =
    subst (λ u. (u == t) || search_string u t ≡ true) same
      (rw (search_string-append p t q) (or_true (p ++ (t ++ q) == t)))

-- The text holds the code, or the words, of a duplicate key.
abbrev pub Mentions : DbError → Type 0
Mentions no_rows = ⊥
Mentions (failed code message) = Holds message "23505" ⊎ Holds message "duplicate key"

pub Mentions-is_duplicate : (e : DbError) → is_duplicate_key_error e ≡ true → Mentions e
unfolding is_duplicate_key_error
Mentions-is_duplicate no_rows h = cc
Mentions-is_duplicate (failed code message) h =
    elim (Bool-cases (contains_string message "23505")) [
      | inl there ↦ inl (contains_string-Holds message "23505" there)
      | inr absent ↦ inr (contains_string-Holds message "duplicate key" (rw absent at h))
    ]

-- A text with the code is found.
pub is_duplicate-Holds :
    (code : Option String) (message : String)
    → Holds message "23505"
    → is_duplicate_key_error (failed code message) ≡ true
unfolding is_duplicate_key_error
is_duplicate-Holds code message h = rw (Holds-contains_string message "23505" h) refl

-- An error that a call of the database has answered, under the text that the store puts before it. That of an
-- INSERT is no unique violation.
pub data Met (db : Database) : String → DbError → Type 0 where
  at_begin : (d : db.D) (e : DbError) → db.begin d ≡ lost e → Met db "begin transaction" e
  at_lock :
      (r : String) (t : db.T) (e : DbError)
      → (db.lock r t).0 ≡ some e
      → Met db "acquire advisory lock" e
  at_max :
      (r : String) (t : db.T) (e : DbError)
      → db.max_sequence r t ≡ lost e
      → Met db "get last sequence" e
  at_insert :
      (x : Row) (t : db.T) (e : DbError)
      → (db.insert x t).0 ≡ some e
      → ¬ IsUniqueViolation e
      → Met db "insert event" e

-- An INSERT has answered with an error that is no unique violation, and whose text reads like one.
abbrev pub Misread : Database → Type 0
Misread db =
    (x : Row) × (t : db.T) × (e : DbError) × ((db.insert x t).0 ≡ some e)
    × (¬ IsUniqueViolation e)
    × Mentions e

-- What `isDuplicateKeyError` says of an error of an INSERT: of a unique violation it says so.
module _ (db : Database) (keep : Row → Row) (law : IsLawful db keep) where
  pub is_duplicate-IsUniqueViolation :
      (x : Row) (t : db.T) (e : DbError)
      → (db.insert x t).0 ≡ some e
      → IsUniqueViolation e
      → is_duplicate_key_error e ≡ true
  is_duplicate-IsUniqueViolation x t no_rows h u = absurd u
  is_duplicate-IsUniqueViolation x t (failed none message) h u = absurd u
  is_duplicate-IsUniqueViolation x t (failed (some code) message) h u =
      is_duplicate-Holds (some code) message
        (subst (λ c. Holds message c) u (law.text x t code message h))

  IsUniqueViolation-dec : (e : DbError) → IsUniqueViolation e ⊎ (¬ IsUniqueViolation e)
  IsUniqueViolation-dec no_rows = inr (λ u. u)
  IsUniqueViolation-dec (failed none message) = inr (λ u. u)
  IsUniqueViolation-dec (failed (some code) message) = elim (Bool-cases (code == "23505")) [
    | inl same ↦ inl ((eq_iff code "23505").0 same)
    | inr other ↦ inr (λ u. let k : code == "23505" ≡ true = (eq_iff code "23505").1 u in cc)
  ]

  -- An error that is taken for a duplicate key tells that the row is taken, or is misread.
  pub is_duplicate-Taken :
      (x : Row) (t : db.T) (e : DbError)
      → (db.insert x t).0 ≡ some e
      → is_duplicate_key_error e ≡ true
      → Taken x (law.seen t) ⊎ Misread db
  is_duplicate-Taken x t e h d = elim (IsUniqueViolation-dec e) [
    | inl u ↦ inl (law.violation x t e h u)
    | inr n ↦ inr (x, t, e, h, n, Mentions-is_duplicate e d)
  ]

-- ===== src/Workflow/Define/Sort/Start.antt =====
-- workflow/define.go: the degrees and the queue that the loop of `topologicalSort` starts with.
use skene.Prelude.{
  keys, IsRange, Has-keys, lookup-Has, Has-lookup, insert-Distinct, ◌≡◌, refl, sym, ap, ◌∙◌, subst,
  ℕ, suc, String, Bool, true, false, none, some, List, [], ◌∷◌, map, Map, lookup, insert,
  lookup-insert, length, nat_eq_iff, if◌then◌else◌, ◌==◌, eq_iff, string_key, ℤ, pos, Has, member,
  member_iff, Distinct, Bool-cases, inl, inr, arith,
}
use skene.Workflow.Step.{ConfiguredStep, name, dependencies}
use skene.Workflow.Define.{degree, is_zero, zero_degrees, in_degrees, names_where}
use skene.Workflow.Define.Sort.{waits, missing}
use skene.Workflow.Define.Sort.Loop.{Kahn}

zero_degrees-Distinct :
    (ss : List ConfiguredStep) (m : Map String ℤ)
    → Distinct (keys m)
    → Distinct (keys (zero_degrees ss m))
unfolding zero_degrees
zero_degrees-Distinct [] m u = u
zero_degrees-Distinct (s ∷ ss) m u =
    zero_degrees-Distinct ss (insert (name s) (pos 0) m) (insert-Distinct (name s) (pos 0) m u)

in_degrees-Distinct :
    (ss : List ConfiguredStep) (m : Map String ℤ)
    → Distinct (keys m)
    → Distinct (keys (in_degrees ss m))
unfolding in_degrees
in_degrees-Distinct [] m u = u
in_degrees-Distinct (s ∷ ss) m u =
    in_degrees-Distinct ss (insert (name s) _ m) (insert-Distinct (name s) _ m u)

missing-none : (ds : List String) → missing [] ds ≡ length ds
missing-none [] = refl
missing-none (d ∷ ds) = ap suc (missing-none ds)

pub waits-absent :
    (ss : List ConfiguredStep) (seen : List String) (n : String)
    → member n (map name ss) ≡ false
    → waits ss seen n ≡ 0
waits-absent [] seen n h = refl
waits-absent (s ∷ ss) seen n h = ground (arith, waits-absent ss seen n)

lookup-zero_degrees :
    (ss : List ConfiguredStep) (n : String) (m : Map String ℤ)
    → lookup n m ≡ none
    → member n (map name ss) ≡ false
    → lookup n (zero_degrees ss m) ≡ none
unfolding zero_degrees
lookup-zero_degrees [] n m h a = h
lookup-zero_degrees (s ∷ ss) n m h a = ground (
  arith,
  lookup-zero_degrees ss n (insert (name s) (pos 0) m),
  lookup-insert (name s) n (pos 0) m,
)

lookup-in_degrees :
    (ss : List ConfiguredStep) (n : String) (m : Map String ℤ)
    → Distinct (map name ss)
    → lookup n (in_degrees ss m)
      ≡ (if member n (map name ss) then some (pos (waits ss [] n)) else lookup n m)
unfolding in_degrees
lookup-in_degrees [] n m u = refl
lookup-in_degrees (s ∷ ss) n m u =
    lookup-in_degrees ss n (insert (name s) (pos (length (dependencies s))) m) u.1
    ∙ (elim (Bool-cases (name s == n)) [
      | inl same ↦
          let absent = absent_after same in
          rw (same, absent, waits-absent ss [] n absent, lookup-insert, same, missing-none)
            (ap (λ k. some (pos k)) (omega arith))
      | inr other ↦ rw (lookup-insert, other) refl
    ])
  where
    absent_after : name s == n ≡ true → member n (map name ss) ≡ false
    absent_after same = elim (Bool-cases (member n (map name ss))) [
      | inl there ↦ absurd (
          u.0 (
            subst (λ x. Has x (map name ss)) (sym ((eq_iff (name s) n).0 same))
              ((member_iff n (map name ss)).0 there)))
      | inr absent ↦ absent
    ]

pub names_where-Has :
    (test : ℤ → Bool) (n : String) (m : Map String ℤ)
    → Has n (names_where test m)
    → (d : ℤ) × Has (n, d) m × (test d ≡ true)
unfolding names_where
names_where-Has test n [] h = absurd h
names_where-Has test n ((k, v) ∷ m) h = elim (Bool-cases (test v)) [
  | inl passes ↦ elim (rw passes at h) [
    | inl e ↦ (v, inl (rw e refl), passes)
    | inr i ↦ let (d, there, t) = names_where-Has test n m i in (d, inr there, t)
  ]
  | inr fails ↦ let (d, there, t) = names_where-Has test n m (rw fails at h) in (d, inr there, t)
]

pub Has-names_where :
    (test : ℤ → Bool) (n : String) (d : ℤ) (m : Map String ℤ)
    → Has (n, d) m
    → test d ≡ true
    → Has n (names_where test m)
unfolding names_where
Has-names_where test n d [] h t = absurd h
Has-names_where test n d ((k, v) ∷ m) (inl e) t =
    let same : v ≡ d = ap {A = String × ℤ} (λ p. p.1) e in
    let passes : test v ≡ true = ap test same ∙ t in
    rw passes (inl (ap {A = String × ℤ} (λ p. p.0) e))
Has-names_where test n d ((k, v) ∷ m) (inr h) t = elim (Bool-cases (test v)) [
  | inl passes ↦ rw passes (inr (Has-names_where test n d m h t))
  | inr fails ↦ rw fails (Has-names_where test n d m h t)
]

names_where-Distinct :
    (test : ℤ → Bool) (m : Map String ℤ) → Distinct (keys m) → Distinct (names_where test m)
unfolding names_where
names_where-Distinct test [] u = tt
names_where-Distinct test ((k, v) ∷ m) u = elim (Bool-cases (test v)) [
  | inl passes ↦ rw passes (
    λ h. let (d, there, _) = names_where-Has test k m h in u.0 (Has-keys k d m there),
    names_where-Distinct test m u.1,
  )
  | inr fails ↦ rw fails (names_where-Distinct test m u.1)
]

module _ (range : Map String ℤ → Map String ℤ) (r : IsRange range) (ss : List ConfiguredStep)
    (u : Distinct (map name ss)) where
  unfoldable pub first_degrees : Map String ℤ
  first_degrees = in_degrees ss (zero_degrees ss [])

  pub first_degrees-Distinct : Distinct (keys first_degrees)
  unfolding first_degrees
  first_degrees-Distinct = in_degrees-Distinct ss _ (zero_degrees-Distinct ss [] tt)

  lookup-first_degrees :
      (n : String)
      → lookup n first_degrees
        ≡ (if member n (map name ss) then some (pos (waits ss [] n)) else none)
  unfolding first_degrees lookup
  lookup-first_degrees n =
      lookup-in_degrees ss n (zero_degrees ss []) u ∙ (elim (Bool-cases (member n (map name ss))) [
        | inl there ↦ rw there refl
        | inr absent ↦ rw absent (lookup-zero_degrees ss n [] refl absent)
      ])

  degree-first_degrees : (n : String) → degree n first_degrees ≡ pos (waits ss [] n)
  unfolding degree
  degree-first_degrees n = rw (lookup-first_degrees n) (elim (Bool-cases (member n (map name ss))) [
    | inl there ↦ rw there refl
    | inr absent ↦ rw absent (ap pos (sym (waits-absent ss [] n absent)))
  ])

  no_degree : (w : ℕ) (d : ℤ) → some (pos w) ≡ some d → is_zero d ≡ true → w ≡ 0
  no_degree w d e t = let e' : pos w ≡ d = cc in (nat_eq_iff w 0).0 (ap is_zero e' ∙ t)

  -- A name whose degree is zero at first.
  of_zero :
      (n : String)
      → Has n (names_where is_zero (range first_degrees))
      → Has n (map name ss) × (waits ss [] n ≡ 0)
  of_zero n h =
      let (d, there, t) = names_where-Has is_zero n (range first_degrees) h in
      let known : lookup n first_degrees ≡ some d =
        Has-lookup n d first_degrees first_degrees-Distinct
          ((r.same first_degrees (n, d)).0 there) in
      elim (Bool-cases (member n (map name ss))) [
        | inl m ↦ (
          (member_iff n (map name ss)).0 m,
          no_degree _ d (sym (lookup-first_degrees n ∙ (rw m refl)) ∙ known) t,
        )
        | inr absent ↦
            let nowhere : lookup n first_degrees ≡ none =
              lookup-first_degrees n ∙ (rw absent refl) in
            cc
      ]

  pub start-Kahn : Kahn ss [] (names_where is_zero (range first_degrees)) first_degrees
  start-Kahn = record {
    degrees = degree-first_degrees;
    ready = λ n h. (of_zero n h).1;
    done = λ n h. absurd h;
    complete = λ n known z. inl (
        Has-names_where is_zero n (pos (waits ss [] n)) (range first_degrees)
          ((r.same first_degrees (n, pos (waits ss [] n))).1 (
            lookup-Has n _ first_degrees
              (lookup-first_degrees n ∙ (rw ((member_iff n (map name ss)).1 known) refl))))
          (rw z refl));
    known_ready = λ n h. (of_zero n h).0;
    known_done = λ n h. absurd h;
    once =
        names_where-Distinct is_zero (range first_degrees)
          (r.once first_degrees first_degrees-Distinct);
    once_done = tt;
    apart = λ n h k. k;
    sorted = tt;
  }

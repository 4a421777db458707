-- ===== src/Workflow/Define/Sort/Loop.antt =====
-- workflow/define.go: the loops of `topologicalSort`.

use skene.Prelude.{
  ◌≡◌, refl, sym, ap, ◌∙◌, subst, ℕ, suc, ◌+◌, String, true, false, List, [], ◌∷◌, ◌++◌, map, Map,
  insert, append-nil, append_assoc, nat_eq, nat_eq_iff, eq_refl, string_key, ℤ, pos, Has, Has-snoc,
  Has-snoc_old, Has-snoc_new, member, member_iff, Distinct, Distinct-snoc, count, count-Has,
  count-Has_positive, Bool-cases, inl, inr, ◌⊎◌, arith,
}
use skene.Workflow.Step.{ConfiguredStep, name}
use skene.Workflow.Define.{degree, decrement, relax}
use skene.Workflow.Define.Sort.{
  waits, waits-snoc, blocked_by, count-blocked_by, Has-blocked_by, Relaxed, fall,
}

decrement_add : (a k : ℕ) → decrement (pos (a + suc k)) ≡ pos (a + k)
decrement_add a k = let e : a + suc k ≡ suc (a + k) = omega arith in ap (λ x. decrement (pos x)) e

decrement-degree :
    (f : String → ℕ) (n : String) (ns : List String) (m : Map String ℤ)
    → degree n m ≡ pos (f n + count n (n ∷ ns))
    → decrement (degree n m) ≡ pos (f n + count n ns)
decrement-degree f n ns m h =
    let h' : degree n m ≡ pos (f n + suc (count n ns)) = rw (eq_refl n) at h in
    rw h' (decrement_add (f n) (count n ns))

lighter :
    (f : String → ℕ) (n y : String) (ns : List String)
    → f y + count y (n ∷ ns) ≡ 0
    → f y + count y ns ≡ 0
lighter f n y ns h = ground arith

heavy : (f : String → ℕ) (n : String) (ns : List String) → ¬ (f n + count n (n ∷ ns) ≡ 0)
heavy f n ns h = ground (arith, eq_refl n)

-- A node more, given what came of the rest.
Relaxed-cons :
    (f : String → ℕ) (n : String) (ns q q1 : List String) (r : Map String ℤ × List String)
    → Relaxed f ns q1 r
    → ((y : String) → Has y q → Has y q1)
    → ((y : String) → Has y q1 → Has y q ⊎ (n ≡ y))
    → (f n ≡ 0 → Has n r.1)
    → Relaxed f (n ∷ ns) q r
Relaxed-cons f n ns q q1 r rest more fewer new = record {
  degrees = rest.degrees;
  ready = rest.ready;
  kept = λ y h. rest.kept y (more y h);
  added = λ y h z. elim h [
    | inl e ↦ subst (λ u. Has u r.1) e (new (ap f e ∙ z))
    | inr k ↦ rest.added y k z
  ];
  origin = λ y h. elim (rest.origin y h) [
    | inl k ↦ elim (fewer y k) [ inl old ↦ inl old | inr e ↦ inr (inl e) ]
    | inr k ↦ inr (inr k)
  ];
  once = rest.once;
}

relax-Relaxed :
    (f : String → ℕ) (ns : List String) (m : Map String ℤ) (q : List String)
    → ((y : String) → degree y m ≡ pos (f y + count y ns))
    → ((y : String) → Has y q → f y + count y ns ≡ 0)
    → Distinct q
    → Relaxed f ns q (relax ns m q)
unfolding relax
relax-Relaxed f [] m q d z u = record {
  degrees = λ y. d y ∙ ap pos (omega arith);
  ready = λ y h. omega (arith, z y h);
  kept = λ y h. h;
  added = λ y h. absurd h;
  origin = λ y h. inl h;
  once = u;
}
relax-Relaxed f (n ∷ ns) m q d z u =
    let k = f n + count n ns in
    rw (decrement-degree f n ns m (d n)) (elim (Bool-cases (nat_eq k 0)) [
      | inl zeroed ↦ rw zeroed (
          let q1 = q ++ n ∷ [] in
          let rest =
            relax-Relaxed f ns (insert n (pos k) m) q1 (fall f n ns m d)
              (λ y h. settled zeroed y (Has-snoc y n q h))
              (Distinct-snoc q n u (λ h. heavy f n ns (z n h))) in
          Relaxed-cons f n ns q q1 _ rest (λ y h. Has-snoc_old y n q h) (λ y h. Has-snoc y n q h)
            (λ e. rest.kept n (Has-snoc_new n q)))
      | inr more ↦ rw more (
          let rest =
            relax-Relaxed f ns (insert n (pos k) m) q (fall f n ns m d)
              (λ y h. lighter f n y ns (z y h)) u in
          Relaxed-cons f n ns q q _ rest (λ y h. h) (λ y h. inl h)
            (λ e. again _ more (rest.added n) e))
    ])
  where
    settled :
        nat_eq (f n + count n ns) 0 ≡ true → (y : String) → Has y q ⊎ (n ≡ y) → f y + count y ns ≡ 0
    settled zeroed y (inl h) = lighter f n y ns (z y h)
    settled zeroed y (inr e) =
        subst (λ u. f u + count u ns ≡ 0) e ((nat_eq_iff (f n + count n ns) 0).0 zeroed)

    again :
        (r : List String)
        → nat_eq (f n + count n ns) 0 ≡ false
        → (Has n ns → f n ≡ 0 → Has n r)
        → f n ≡ 0
        → Has n r
    again r more add e = elim (count-Has n ns) [ inl (h, _) ↦ add h e | inr none ↦ ground arith ]

-- The order, as far as it goes: each step comes when no dependency of it is missing before it.
abbrev pub InOrder : List ConfiguredStep → List String → List String → Type 0
InOrder ss seen [] = Unit
InOrder ss seen (n ∷ ns) = (waits ss seen n ≡ 0) × InOrder ss (seen ++ n ∷ []) ns

InOrder-snoc :
    (ss : List ConfiguredStep) (seen ns : List String) (n : String)
    → InOrder ss seen ns
    → waits ss (seen ++ ns) n ≡ 0
    → InOrder ss seen (ns ++ n ∷ [])
InOrder-snoc ss seen [] n h w = (subst (λ l. waits ss l n ≡ 0) (append-nil seen) w, tt)
InOrder-snoc ss seen (k ∷ ns) n h w = (
  h.0,
  InOrder-snoc ss (seen ++ k ∷ []) ns n h.1
      (subst (λ l. waits ss l n ≡ 0) (sym (append_assoc seen (k ∷ []) ns)) w),
)

-- What holds at each turn of the loop over the queue.
pub record Kahn (ss : List ConfiguredStep) (order q : List String) (m : Map String ℤ) : Type 0 where
  pub degrees : (n : String) → degree n m ≡ pos (waits ss order n)
  pub ready : (n : String) → Has n q → waits ss order n ≡ 0
  pub done : (n : String) → Has n order → waits ss order n ≡ 0
  pub complete : (n : String) → Has n (map name ss) → waits ss order n ≡ 0 → Has n q ⊎ Has n order
  pub known_ready : (n : String) → Has n q → Has n (map name ss)
  pub known_done : (n : String) → Has n order → Has n (map name ss)
  pub once : Distinct q
  pub once_done : Distinct order
  pub apart : (n : String) → Has n q → ¬ Has n order
  pub sorted : InOrder ss [] order

module _ (ss : List ConfiguredStep) (c : String) (order q : List String) (m : Map String ℤ)
    (k : Kahn ss order (c ∷ q) m) where
  after : List String
  after = order ++ c ∷ []

  left : String → ℕ
  left n = waits ss after n

  not_done : member c order ≡ false
  not_done = elim (Bool-cases (member c order)) [
    | inl there ↦ absurd (k.apart c (inl refl) ((member_iff c order).0 there))
    | inr absent ↦ absent
  ]

  one_less : (n : String) → waits ss order n ≡ left n + count n (blocked_by c ss)
  unfolding after left
  one_less n = rw (count-blocked_by ss c n) (waits-snoc ss order c n not_done)

  relaxed : Relaxed left (blocked_by c ss) q (relax (blocked_by c ss) m q)
  relaxed =
      relax-Relaxed left (blocked_by c ss) m q (λ n. k.degrees n ∙ ap pos (one_less n))
        (λ n h. sym (one_less n) ∙ k.ready n (inr h)) (k.once.1)

  settled_before : (n : String) → Has n after → waits ss order n ≡ 0
  unfolding after
  settled_before n h = elim (Has-snoc n c order h) [
    | inl old ↦ k.done n old
    | inr e ↦ subst (λ u. waits ss order u ≡ 0) e (k.ready c (inl refl))
  ]

  completed :
      (n : String)
      → left n ≡ 0
      → Has n (map name ss)
      → Has n (relax (blocked_by c ss) m q).1 ⊎ Has n after
  unfolding after left
  completed n z known = elim (count-Has n (blocked_by c ss)) [
    | inl (h, _) ↦ inl (relaxed.added n h z)
    | inr none ↦ elim (k.complete n known (omega (arith, one_less n, z, none))) [
      | inl (inl e) ↦ inr (subst (λ u. Has u after) e (Has-snoc_new c order))
      | inl (inr h) ↦ inl (relaxed.kept n h)
      | inr h ↦ inr (Has-snoc_old n c order h)
    ]
  ]

  not_again : (n : String) → Has n (relax (blocked_by c ss) m q).1 → ¬ Has n after
  unfolding after
  not_again n h d = elim (relaxed.origin n h) [
    | inl old ↦ elim (Has-snoc n c order d) [
      | inl before ↦ k.apart n (inr old) before
      | inr e ↦ k.once.0 (subst (λ u. Has u q) (sym e) old)
    ]
    | inr new ↦
        absurd (
          omega (arith, settled_before n d, one_less n, count-Has_positive n (blocked_by c ss) new))
  ]

  -- A turn of the loop keeps all of it.
  pub turn :
      Kahn ss (order ++ c ∷ []) (relax (blocked_by c ss) m q).1 (relax (blocked_by c ss) m q).0
  unfolding left after
  turn = record {
    degrees = relaxed.degrees;
    ready = relaxed.ready;
    done = λ n h. omega (arith, settled_before n h, one_less n);
    complete = λ n known z. completed n z known;
    known_ready = λ n h. elim (relaxed.origin n h) [
      | inl old ↦ k.known_ready n (inr old)
      | inr new ↦ Has-blocked_by ss c n new
    ];
    known_done = λ n h. elim (Has-snoc n c order h) [
      | inl old ↦ k.known_done n old
      | inr e ↦ subst (λ u. Has u (map name ss)) e (k.known_ready c (inl refl))
    ];
    once = relaxed.once;
    once_done = Distinct-snoc order c k.once_done (k.apart c (inl refl));
    apart = not_again;
    sorted = InOrder-snoc ss [] order c k.sorted (k.ready c (inl refl));
  }

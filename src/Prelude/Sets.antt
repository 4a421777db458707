-- ===== src/Prelude/Sets.antt =====
-- Lists of texts as sets: no text stands twice, and how long such a list can be.
use Prim.Native.Nat.{ℕ, suc, ◌+◌, ◌≤◌}
use Prim.Native.String.{String}
use mathlib.Core.Path.{◌≡◌, refl, sym, ap, ◌∙◌, subst}
use mathlib.Core.Logic.{◌⊎◌, inl, inr, ◌↔◌}
use mathlib.Core.List.{List, [], ◌∷◌, ◌++◌}
use mathlib.Core.Bool.{Bool, true, false}
use native.Mathlib.Omega.{arith}
use text.Mathlib.Text.{◌==◌}
use text.Mathlib.TextEquality.{eq_iff}
use skene.Prelude.Tests.{if◌then◌else◌, Bool-cases}
use skene.Prelude.Lists.{length, Has, Has-snoc}

-- No text stands twice.
abbrev pub Distinct : List String → Type 0
Distinct [] = Unit
Distinct (x ∷ xs) = (¬ Has x xs) × Distinct xs

pub Distinct-snoc :
    (xs : List String) (x : String) → Distinct xs → ¬ Has x xs → Distinct (xs ++ x ∷ [])
Distinct-snoc [] x d n = (λ h. h, tt)
Distinct-snoc (y ∷ xs) x d n = (
  λ h. elim (Has-snoc y x xs h) [ inl old ↦ d.0 old | inr new ↦ n (inl (sym new)) ],
  Distinct-snoc xs x d.1 (λ h. n (inr h)),
)

-- How often a text stands in a list.
abbrev pub count : String → List String → ℕ
count x [] = 0
count x (y ∷ ys) = if y == x then suc (count x ys) else count x ys

abbrev remove : String → List String → List String
remove x [] = []
remove x (y ∷ ys) = if y == x then ys else y ∷ remove x ys

length-remove : (x : String) (ys : List String) → Has x ys → suc (length (remove x ys)) ≡ length ys
length-remove x [] h = elim h [ ]
length-remove x (y ∷ ys) h = elim (Bool-cases (y == x)) [
  | inl same ↦ rw same refl
  | inr other ↦ elim h [
    | inl e ↦ absurd (ground (arith, eq_iff y x))
    | inr k ↦ rw other (ap suc (length-remove x ys k))
  ]
]

Has-remove : (x z : String) (ys : List String) → Has z ys → ¬ (x ≡ z) → Has z (remove x ys)
Has-remove x z [] h n = elim h [ ]
Has-remove x z (y ∷ ys) h n = elim (Bool-cases (y == x)) [
  | inl same ↦ elim h [ inl e ↦ absurd (n (sym ((eq_iff y x).0 same) ∙ e)) | inr k ↦ rw same k ]
  | inr other ↦ elim h [ inl e ↦ rw other (inl e) | inr k ↦ rw other (inr (Has-remove x z ys k n)) ]
]

-- A list with no text twice is no longer than a list that has all its texts.
pub pigeonhole :
    (xs ys : List String)
    → Distinct xs
    → ((z : String) → Has z xs → Has z ys)
    → length xs ≤ length ys
pigeonhole [] ys d h = omega arith
pigeonhole (x ∷ xs) ys d h = omega (
  arith,
  length-remove x ys (h x (inl refl)),
  pigeonhole xs (remove x ys) d.1
      (λ z k. Has-remove x z ys (h z (inr k)) (λ e. d.0 (subst (λ u. Has u xs) (sym e) k))),
)

abbrev pub member : String → List String → Bool
member x [] = false
member x (y ∷ ys) = if y == x then true else member x ys

pub member_iff : (x : String) (ys : List String) → (member x ys ≡ true) ↔ Has x ys
member_iff x [] = (λ h. cc, λ h. absurd h)
member_iff x (y ∷ ys) = elim (Bool-cases (y == x)) [
  | inl same ↦ (λ h. inl ((eq_iff y x).0 same), λ h. rw same refl)
  | inr other ↦ (
    λ h. inr ((member_iff x ys).0 (rw other at h)),
    λ h. elim h [ inl e ↦ ground (arith, eq_iff y x) | inr k ↦ rw other ((member_iff x ys).1 k) ],
  )
]

pub member-snoc :
    (x c : String) (ys : List String)
    → member x (ys ++ c ∷ []) ≡ (if c == x then true else member x ys)
member-snoc x c [] = refl
member-snoc x c (y ∷ ys) = ground (arith, member-snoc x c ys)

pub count-append : (x : String) (ys zs : List String) → count x (ys ++ zs) ≡ count x ys + count x zs
count-append x [] zs = omega arith
count-append x (y ∷ ys) zs = ground (arith, count-append x ys zs)

-- A text stands in a list, or the count of it is zero.
pub count-Has : (x : String) (ys : List String) → (Has x ys × (1 ≤ count x ys)) ⊎ (count x ys ≡ 0)
count-Has x [] = inr refl
count-Has x (y ∷ ys) = elim (Bool-cases (y == x)) [
  | inl same ↦ inl (inl ((eq_iff y x).0 same), rw same (omega arith))
  | inr other ↦ elim (count-Has x ys) [
    | inl (h, n) ↦ inl (inr h, rw other n)
    | inr none ↦ inr (rw other none)
  ]
]

pub count-Has_positive : (x : String) (ys : List String) → Has x ys → 1 ≤ count x ys
count-Has_positive x [] h = absurd h
count-Has_positive x (y ∷ ys) (inl e) = ground (arith, eq_iff y x)
count-Has_positive x (y ∷ ys) (inr h) = ground (arith, count-Has_positive x ys h)

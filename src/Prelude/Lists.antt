-- ===== src/Prelude/Lists.antt =====
-- Lists measured and indexed by native numbers, under the library's names.
use Prim.Native.Nat.{ℕ, zero, suc, ◌+◌, ◌-◌}
use mathlib.Core.Path.{◌≡◌, refl}
use mathlib.Core.Logic.{◌⊎◌, inl, inr}
use mathlib.Core.List.{List, [], ◌∷◌, ◌++◌}
use native.Mathlib.Omega.{arith}

module _ {ℓ} {A : Type ℓ} where
  abbrev pub length : List A → ℕ
  length [] = 0
  length (x ∷ xs) = suc (length xs)

  abbrev pub drop : ℕ → List A → List A
  drop zero xs = xs
  drop (suc n) [] = []
  drop (suc n) (x ∷ xs) = drop n xs

  pub length-append : (xs ys : List A) → length (xs ++ ys) ≡ length xs + length ys
  length-append [] ys = omega arith
  length-append (x ∷ xs) ys = omega (arith, length-append xs ys)

  pub length-drop : (n : ℕ) (xs : List A) → length (drop n xs) ≡ length xs - n
  length-drop zero xs = omega arith
  length-drop (suc n) [] = omega arith
  length-drop (suc n) (x ∷ xs) = omega (arith, length-drop n xs)

module _ {ℓ κ} {A : Type ℓ} where
  -- A predicate on every member, by recursion: it computes to tuples.
  abbrev pub All : (A → Type κ) → List A → Type κ
  All P [] = Unit
  All P (x ∷ xs) = P x × All P xs

  pub All-append : (P : A → Type κ) (xs ys : List A) → All P xs → All P ys → All P (xs ++ ys)
  All-append P [] ys hx hy = hy
  All-append P (x ∷ xs) ys hx hy = (hx.0, All-append P xs ys hx.1 hy)

module _ {A : Type 0} where
  -- Membership, by recursion: it computes to a sum of equations.
  abbrev pub Has : A → List A → Type 0
  Has a [] = ⊥
  Has a (x ∷ xs) = (x ≡ a) ⊎ Has a xs

  pub Has-snoc : (a x : A) (xs : List A) → Has a (xs ++ x ∷ []) → Has a xs ⊎ (x ≡ a)
  Has-snoc a x [] (inl e) = inr e
  Has-snoc a x [] (inr h) = absurd h
  Has-snoc a x (y ∷ xs) (inl e) = inl (inl e)
  Has-snoc a x (y ∷ xs) (inr h) = elim (Has-snoc a x xs h) [
    | inl old ↦ inl (inr old)
    | inr new ↦ inr new
  ]

  pub Has-snoc_old : (a x : A) (xs : List A) → Has a xs → Has a (xs ++ x ∷ [])
  Has-snoc_old a x (y ∷ xs) (inl e) = inl e
  Has-snoc_old a x (y ∷ xs) (inr h) = inr (Has-snoc_old a x xs h)
  Has-snoc_old a x [] h = absurd h

  pub Has-snoc_new : (x : A) (xs : List A) → Has x (xs ++ x ∷ [])
  Has-snoc_new x [] = inl refl
  Has-snoc_new x (y ∷ xs) = inr (Has-snoc_new x xs)

-- ===== src/Prelude/Places.antt =====
-- A change at one place of a list, and what it leaves.
use Prim.Native.Nat.{ℕ, zero, suc, ◌<◌}
use mathlib.Core.Logic.{◌⊎◌, inl, inr}
use native.Mathlib.Omega.{arith}
use mathlib.Core.Path.{◌≡◌, refl, ap}
use mathlib.Core.List.{List, [], ◌∷◌, ◌++◌, map}
use mathlib.Core.Option.{Option, none, some}
use skene.Prelude.Lists.{All, length}

module _ {A : Type 0} where
  -- `list[i] = f(list[i])`
  abbrev pub update_at : ℕ → (A → A) → List A → List A
  update_at i f [] = []
  update_at zero f (x ∷ xs) = f x ∷ xs
  update_at (suc i) f (x ∷ xs) = x ∷ update_at i f xs

  abbrev pub get_elem? : List A → ℕ → Option A
  get_elem? [] i = none
  get_elem? (x ∷ xs) zero = some x
  get_elem? (x ∷ xs) (suc i) = get_elem? xs i

  pub get_elem?-append :
      (xs ys : List A) (i : ℕ) (a : A) → get_elem? xs i ≡ some a → get_elem? (xs ++ ys) i ≡ some a
  get_elem?-append [] ys i a h = cc
  get_elem?-append (x ∷ xs) ys zero a h = h
  get_elem?-append (x ∷ xs) ys (suc i) a h = get_elem?-append xs ys i a h

  pub All-update_at :
      (P : A → Type 0) (i : ℕ) (f : A → A) (xs : List A)
      → ((x : A) → get_elem? xs i ≡ some x → P (f x))
      → All P xs
      → All P (update_at i f xs)
  All-update_at P zero f [] h a = tt
  All-update_at P (suc i) f [] h a = tt
  All-update_at P zero f (x ∷ xs) h a = (h x refl, a.1)
  All-update_at P (suc i) f (x ∷ xs) h a = (a.0, All-update_at P i f xs h a.1)

  pub length-update_at : (i : ℕ) (f : A → A) (xs : List A) → length (update_at i f xs) ≡ length xs
  length-update_at zero f [] = refl
  length-update_at (suc i) f [] = refl
  length-update_at zero f (x ∷ xs) = refl
  length-update_at (suc i) f (x ∷ xs) = ap suc (length-update_at i f xs)

  -- A write at a place that is there is read there.
  pub get_elem?-written :
      (i : ℕ) (v : A) (xs : List A) → i < length xs → get_elem? (update_at i (λ _. v) xs) i ≡ some v
  get_elem?-written zero v [] h = absurd (omega arith)
  get_elem?-written (suc i) v [] h = absurd (omega arith)
  get_elem?-written zero v (x ∷ xs) h = refl
  get_elem?-written (suc i) v (x ∷ xs) h = get_elem?-written i v xs (omega arith)

  -- A place keeps its value under a write, or the write is there.
  pub get_elem?-update_at :
      (i j : ℕ) (v w : A) (xs : List A)
      → get_elem? xs i ≡ some w
      → (get_elem? (update_at j (λ _. v) xs) i ≡ some w)
        ⊎ (j ≡ i) × (get_elem? (update_at j (λ _. v) xs) i ≡ some v)
  get_elem?-update_at i zero v w [] h = inl h
  get_elem?-update_at i (suc j) v w [] h = inl h
  get_elem?-update_at zero zero v w (x ∷ xs) h = inr (refl, refl)
  get_elem?-update_at (suc i) zero v w (x ∷ xs) h = inl h
  get_elem?-update_at zero (suc j) v w (x ∷ xs) h = inl h
  get_elem?-update_at (suc i) (suc j) v w (x ∷ xs) h = elim (get_elem?-update_at i j v w xs h) [
    | inl kept ↦ inl kept
    | inr (same, new) ↦ inr (ap suc same, new)
  ]

  pub get_elem?-middle :
      (before : List A) (x : A) (xs : List A)
      → get_elem? (before ++ x ∷ xs) (length before) ≡ some x
  get_elem?-middle [] x xs = refl
  get_elem?-middle (y ∷ before) x xs = get_elem?-middle before x xs

  pub get_elem?-bound : (i : ℕ) (a : A) (xs : List A) → get_elem? xs i ≡ some a → i < length xs
  get_elem?-bound i a [] h = cc
  get_elem?-bound zero a (x ∷ xs) h = omega arith
  get_elem?-bound (suc i) a (x ∷ xs) h = omega (arith, get_elem?-bound i a xs h)

module _ {A B : Type 0} (g : A → B) where
  pub map-snoc : (xs : List A) (x : A) → map g (xs ++ x ∷ []) ≡ map g xs ++ g x ∷ []
  map-snoc [] x = refl
  map-snoc (y ∷ xs) x = ap (λ l. g y ∷ l) (map-snoc xs x)

  pub map-update_at :
      (i : ℕ) (f : A → A) (xs : List A)
      → ((x : A) → g (f x) ≡ g x)
      → map g (update_at i f xs) ≡ map g xs
  map-update_at zero f [] h = refl
  map-update_at (suc i) f [] h = refl
  map-update_at zero f (x ∷ xs) h = ap (λ y. y ∷ map g xs) (h x)
  map-update_at (suc i) f (x ∷ xs) h = ap (λ l. g x ∷ l) (map-update_at i f xs h)

  pub get_elem?-map :
      (xs : List A) (i : ℕ) (x : A) (b : B)
      → get_elem? (map g xs) i ≡ some b
      → get_elem? xs i ≡ some x
      → g x ≡ b
  get_elem?-map [] i x b h k = cc
  get_elem?-map (y ∷ ys) zero x b h k = cc
  get_elem?-map (y ∷ ys) (suc i) x b h k = get_elem?-map ys i x b h k

  pub get_elem?-map_last :
      (xs : List A) (x : A) → get_elem? (map g (xs ++ x ∷ [])) (length xs) ≡ some (g x)
  get_elem?-map_last [] x = refl
  get_elem?-map_last (y ∷ ys) x = get_elem?-map_last ys x

-- ===== src/Prelude/Tests.antt =====
-- Boolean tests on the native numbers, the conditional, and the interface of a map's keys.
use Prim.Native.Nat.{ℕ, compare, Ordering}
use Prim.Native.String.{String}
use mathlib.Core.Path.{◌≡◌, refl}
use mathlib.Core.Logic.{◌↔◌, ◌⊎◌, inl, inr}
use mathlib.Core.Bool.{Bool, true, false}
use mathlib.Core.Option.{Option, none, some}
use mathlib.Core.List.{List, [], ◌∷◌}
use native.Mathlib.Omega.{arith}
use text.Mathlib.Text.{◌==◌}
use text.Mathlib.TextEquality.{eq_iff}

abbrev pub ltb : ℕ → ℕ → Bool
ltb a b = elim (compare a b) [ Ordering.lt ↦ true | _ ↦ false ]

abbrev pub leb : ℕ → ℕ → Bool
leb a b = elim (compare a b) [ Ordering.gt ↦ false | _ ↦ true ]

abbrev pub nat_eq : ℕ → ℕ → Bool
nat_eq a b = elim (compare a b) [ Ordering.eq ↦ true | _ ↦ false ]

pub nat_eq_iff : (a b : ℕ) → (nat_eq a b ≡ true) ↔ (a ≡ b)
nat_eq_iff a b = ground arith

infix 1 if◌then◌else◌
abbrev pub if◌then◌else◌ {ℓ} : {A : Type ℓ} → Bool → A → A → A
if true then x else y = x
if false then x else y = y

-- To split on a computed value and keep the equation.
pub Bool-cases : (b : Bool) → (b ≡ true) ⊎ (b ≡ false)
Bool-cases true = inl refl
Bool-cases false = inr refl

pub Option-cases {ℓ} : {A : Type ℓ} (o : Option A) → (o ≡ none) ⊎ ((a : A) × (o ≡ some a))
Option-cases none = inl refl
Option-cases (some a) = inr (a, refl)

-- The keys of a Go map: a type whose values can be compared.
pub record Key (K : Type 0) : Type 0 where
  pub same : K → K → Bool
  pub same_iff : (a b : K) → (same a b ≡ true) ↔ (a ≡ b)

instance abbrev pub string_key : Key String
string_key = record { same = ◌==◌; same_iff = eq_iff }

instance abbrev pub nat_key : Key ℕ
nat_key = record { same = nat_eq; same_iff = nat_eq_iff }

-- To show `Q` of what a match returns, show it of what each case returns.
module _ {ℓ κ} {X : Type ℓ} (Q : X → Type κ) where
  pub if_cases : (b : Bool) (x y : X) → Q x → Q y → Q (if b then x else y)
  if_cases true x y h k = h
  if_cases false x y h k = k

  -- The same, where a branch knows what the test gave.
  pub if_known :
      (b : Bool) (x y : X) → (b ≡ true → Q x) → (b ≡ false → Q y) → Q (if b then x else y)
  if_known true x y h k = h refl
  if_known false x y h k = k refl

  pub Bool_cases :
      (b : Bool) (x y : X)
      → (b ≡ true → Q x)
      → (b ≡ false → Q y)
      → Q (elim b [ true ↦ x | false ↦ y ])
  Bool_cases true x y h k = h refl
  Bool_cases false x y h k = k refl

  pub Option_cases :
      {B : Type 0} (o : Option B) (x : X) (f : B → X)
      → (o ≡ none → Q x)
      → ((b : B) → o ≡ some b → Q (f b))
      → Q (elim o [ none ↦ x | some b ↦ f b ])
  Option_cases none x f h k = h refl
  Option_cases (some b) x f h k = k b refl

  pub List_cases :
      {B : Type 0} (l : List B) (x : X) (f : B → List B → X)
      → (l ≡ [] → Q x)
      → ((b : B) (bs : List B) → l ≡ b ∷ bs → Q (f b bs))
      → Q (elim l [ [] ↦ x | b ∷ bs ↦ f b bs ])
  List_cases [] x f h k = h refl
  List_cases (b ∷ bs) x f h k = k b bs refl

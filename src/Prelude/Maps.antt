-- ===== src/Prelude/Maps.antt =====
-- Go's maps, as association lists in which a key stands once. A write replaces the entry of its
-- key or adds one at the end.
use mathlib.Core.Path.{◌≡◌, refl, subst}
use mathlib.Core.Bool.{Bool, true, false}
use mathlib.Core.Option.{Option, none, some}
use mathlib.Core.List.{List, [], ◌∷◌}
use native.Mathlib.Omega.{arith}
use skene.Prelude.Lists.{All}
use skene.Prelude.Tests.{if_cases, if◌then◌else◌, Key}

abbrev pub Map : Type 0 → Type 0 → Type 0
Map K V = List (K × V)

module _ {K V : Type 0} ⦃e : Key K⦄ where
  unfoldable pub lookup : K → Map K V → Option V
  lookup k [] = none
  lookup k ((j, v) ∷ m) = if e.same j k then some v else lookup k m

  unfoldable pub insert : K → V → Map K V → Map K V
  insert k v [] = (k, v) ∷ []
  insert k v ((j, w) ∷ m) = if e.same j k then (j, v) ∷ m else (j, w) ∷ insert k v m

  -- `delete(m, k)`
  unfoldable pub delete : K → Map K V → Map K V
  delete k [] = []
  delete k ((j, v) ∷ m) = if e.same j k then m else (j, v) ∷ delete k m

  pub lookup-insert :
      (k j : K) (v : V) (m : Map K V)
      → lookup j (insert k v m) ≡ (if e.same k j then some v else lookup j m)
  unfolding lookup insert
  lookup-insert k j v [] = refl
  lookup-insert k j v ((i, w) ∷ m) =
      ground (arith, e.same_iff k j, e.same_iff i k, e.same_iff i j, lookup-insert k j v m)

  -- What holds of every value of a map
  abbrev pub Values : (V → Type 0) → Map K V → Type 0
  Values P m = All (λ entry. P entry.1) m

  pub Values-insert :
      (P : V → Type 0) (k : K) (v : V) (m : Map K V) → P v → Values P m → Values P (insert k v m)
  unfolding insert
  Values-insert P k v [] h a = (h, tt)
  Values-insert P k v ((j, w) ∷ m) h a =
      if_cases (Values P) (e.same j k) _ _ (h, a.1) (a.0, Values-insert P k v m h a.1)

  pub Values-delete : (P : V → Type 0) (k : K) (m : Map K V) → Values P m → Values P (delete k m)
  unfolding delete
  Values-delete P k [] a = tt
  Values-delete P k ((j, w) ∷ m) a =
      if_cases (Values P) (e.same j k) _ _ a.1 (a.0, Values-delete P k m a.1)

  pub Values-lookup :
      (P : V → Type 0) (k : K) (v : V) (m : Map K V) → Values P m → lookup k m ≡ some v → P v
  unfolding lookup
  Values-lookup P k v [] a h = cc
  Values-lookup P k v ((j, w) ∷ m) a h = go (Values-lookup P k v m a.1) (e.same j k) h
    where
      go :
          (lookup k m ≡ some v → P v)
          → (b : Bool) → (if b then some w else lookup k m) ≡ some v
          → P v
      go rest true k = let same : w ≡ v = cc in subst P same a.0
      go rest false k = rest k

  pub Values-map :
      (P Q : V → Type 0) (m : Map K V) → ((v : V) → P v → Q v) → Values P m → Values Q m
  Values-map P Q [] f a = tt
  Values-map P Q ((j, w) ∷ m) f a = (f w a.0, Values-map P Q m f a.1)

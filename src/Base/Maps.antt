-- ===== src/Base/Maps.antt =====
-- Go's maps with number keys, as association lists.
use Prim.Native.Nat.{ℕ}
use mathlib.Core.Path.{◌≡◌, refl}
use mathlib.Core.Option.{Option, none, some}
use mathlib.Core.List.{List, [], ◌∷◌}
use native.Mathlib.Omega.{arith}
use go_mls.Base.Tests.{◌==◌, if◌then◌else◌}

module _ {ℓ} {V : Type ℓ} where
  unfoldable pub lookup : ℕ → List (ℕ × V) → Option V
  lookup key [] = none
  lookup key ((there, value) ∷ rest) = if there == key then some value else lookup key rest

  unfoldable pub insert : ℕ → V → List (ℕ × V) → List (ℕ × V)
  insert key new [] = (key, new) ∷ []
  insert key new ((there, value) ∷ rest) =
      if there == key then (key, new) ∷ rest else (there, value) ∷ insert key new rest

  unfoldable pub delete : ℕ → List (ℕ × V) → List (ℕ × V)
  delete key [] = []
  delete key ((there, value) ∷ rest) =
      if there == key then delete key rest else (there, value) ∷ delete key rest

  pub lookup-insert :
      (key other : ℕ) (new : V) (map : List (ℕ × V))
      → lookup other (insert key new map) ≡ (if key == other then some new else lookup other map)
  unfolding lookup insert
  lookup-insert key other new [] = refl
  lookup-insert key other new (entry ∷ rest) = ground (arith, lookup-insert key other new rest)

  pub lookup-delete :
      (key other : ℕ) (map : List (ℕ × V))
      → lookup other (delete key map) ≡ (if key == other then none else lookup other map)
  unfolding lookup delete
  lookup-delete key other [] = ground arith
  lookup-delete key other (entry ∷ rest) = ground (arith, lookup-delete key other rest)

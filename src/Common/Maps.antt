-- ===== src/Common/Maps.antt =====
-- A JavaScript `Map` whose keys are numbers: an association list in insertion order, where setting
-- a key that is present keeps its place.
use Prim.Native.Nat.{ℕ}
use mathlib.Core.Path.{◌≡◌, refl}
use mathlib.Core.Bool.{Bool}
use mathlib.Core.Option.{Option, none, some}
use mathlib.Core.List.{List, [], ◌∷◌}
use native.Mathlib.Omega.{arith}
use offline_qr_school_attend.Common.Tests.{if◌then◌else◌, ◌==◌, is_some}

abbrev pub Map {ℓ} : Type ℓ → Type ℓ
Map V = List (ℕ × V)

module _ {ℓ} {V : Type ℓ} where
  -- `m.get(k)`
  abbrev pub lookup : ℕ → Map V → Option V
  lookup k [] = none
  lookup k ((j, v) ∷ m) = if k == j then some v else lookup k m

  -- `m.has(k)`
  abbrev pub has : ℕ → Map V → Bool
  has k m = is_some (lookup k m)

  -- `m.set(k, v)`
  abbrev pub insert : ℕ → V → Map V → Map V
  insert k v [] = (k, v) ∷ []
  insert k v ((j, w) ∷ m) = if k == j then (k, v) ∷ m else (j, w) ∷ insert k v m

  -- `[...m.values()]`
  abbrev pub values : Map V → List V
  values [] = []
  values ((_, v) ∷ m) = v ∷ values m

  pub lookup-insert :
      (j k : ℕ) (v : V) (m : Map V)
      → lookup j (insert k v m) ≡ (if j == k then some v else lookup j m)
  lookup-insert j k v [] = refl
  lookup-insert j k v ((i, w) ∷ m) = ground (arith, lookup-insert j k v m)

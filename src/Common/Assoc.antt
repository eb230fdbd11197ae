-- ===== src/Common/Assoc.antt =====
-- Go maps as association lists under a Boolean test of keys. `range` runs over them in list order;
-- a statement about an arbitrary order ranges over all lists.
use mathlib.Core.Path.{◌≡◌, refl}
use mathlib.Core.List.{List, [], ◌∷◌}
use mathlib.Core.Option.{Option, none, some}
use native.Mathlib.Omega.{arith}
use Prim.Native.Nat.{ℕ}
use logical_backup.Common.Tests.{◌==◌, if◌then◌else◌}

-- A map from the unsigned integers, `map[uint32]V`.
abbrev pub Map {ℓ} : Type ℓ → Type ℓ
Map V = List (ℕ × V)

module _ {ℓ} {V : Type ℓ} where
  -- `delete(m, k)`
  unfoldable pub delete : ℕ → Map V → Map V
  delete key [] = []
  delete key ((other, old) ∷ entries) =
      if other == key then delete key entries else (other, old) ∷ delete key entries

  -- `m[k] = v`
  unfoldable pub insert : ℕ → V → Map V → Map V
  insert key new [] = (key, new) ∷ []
  insert key new ((other, old) ∷ entries) =
      if other == key then (key, new) ∷ entries else (other, old) ∷ insert key new entries

  -- `v, ok := m[k]`
  unfoldable pub lookup : ℕ → Map V → Option V
  lookup key [] = none
  lookup key ((other, found) ∷ entries) = if other == key then some found else lookup key entries

  pub lookup-delete :
      (key wanted : ℕ) (entries : Map V)
      → lookup wanted (delete key entries) ≡ (if key == wanted then none else lookup wanted entries)
  unfolding lookup delete
  lookup-delete key wanted [] = ground arith
  lookup-delete key wanted ((other, old) ∷ entries) =
      ground (arith, lookup-delete key wanted entries)

  pub lookup-insert :
      (key wanted : ℕ) (new : V) (entries : Map V)
      → lookup wanted (insert key new entries)
        ≡ (if key == wanted then some new else lookup wanted entries)
  unfolding lookup insert
  lookup-insert key wanted new [] = refl
  lookup-insert key wanted new ((other, old) ∷ entries) =
      ground (arith, lookup-insert key wanted new entries)

-- ===== src/Base/Dict.antt =====
-- Go maps with text keys, as association lists; a nil map is the empty one. `range` visits a map
-- in an unspecified order, for which the order of the list stands.
use mathlib.Core.Path.{◌≡◌, refl}
use mathlib.Core.Option.{Option, none, some}
use mathlib.Core.List.{List, [], ◌∷◌}
use native.Mathlib.Omega.{arith}
use Prim.Native.String.{String}
use text.Mathlib.Text.{◌==◌}
use text.Mathlib.TextEquality.{eq_iff}
use agscheduler.Base.Tests.{if◌then◌else◌}

abbrev pub Dict {ℓ} : Type ℓ → Type ℓ
Dict V = List (String × V)

module _ {ℓ} {V : Type ℓ} where
  -- `m[key] = v`
  unfoldable pub insert : (key : String) → V → Dict V → Dict V
  insert key v ((j, old) ∷ rest) =
      if j == key then (key, v) ∷ rest else (j, old) ∷ insert key v rest
  insert key v [] = (key, v) ∷ []

  -- `v, ok := m[key]`
  unfoldable pub lookup : (key : String) → Dict V → Option V
  lookup key ((j, v) ∷ rest) = if j == key then some v else lookup key rest
  lookup key [] = none

  pub lookup-insert :
      (key asked : String) (v : V) (m : Dict V)
      → lookup asked (insert key v m) ≡ (if key == asked then some v else lookup asked m)
  unfolding insert lookup
  lookup-insert key asked v ((j, old) ∷ rest) =
      ground (arith, lookup-insert key asked v rest, eq_iff j key, eq_iff key asked, eq_iff j asked)
  lookup-insert key asked v [] = refl

  -- No key stands twice.
  abbrev pub Unique : Dict V → Type ℓ
  Unique [] = Unit
  Unique ((key, v) ∷ rest) = (lookup key rest ≡ none) × Unique rest

  -- What is found behind the first entry of a map without duplicates is found in the whole map.
  pub lookup_in_tail :
      (asked key : String) (v x : V) (rest : Dict V)
      → lookup key rest ≡ none
      → lookup asked rest ≡ some x
      → lookup asked ((key, v) ∷ rest) ≡ some x
  unfolding lookup
  lookup_in_tail asked key v x rest lost found = ground (arith, eq_iff key asked)

-- ===== src/Base/Dict.antt =====
-- Go's maps with string keys, as association lists: `m[k]`, `m[k] = v`. The program never depends
-- on the order in which a map is read.
use Prim.Native.String.{String}
use mathlib.Core.Path.{◌≡◌, refl}
use mathlib.Core.Bool.{Bool, true, false}
use mathlib.Core.Option.{Option, none, some}
use mathlib.Core.List.{List, [], ◌∷◌}
use native.Mathlib.Omega.{arith}
use text.Mathlib.Text.{◌==◌}
use text.Mathlib.TextEquality.{eq_iff}

abbrev choose {ℓ} : {A : Type ℓ} → Bool → A → A → A
choose true a b = a
choose false a b = b

module _ {ℓ} {V : Type ℓ} where
  -- v, ok := m[k]
  unfoldable pub lookup : String → List (String × V) → Option V
  lookup k [] = none
  lookup k ((j, v) ∷ m) = choose (j == k) (some v) (lookup k m)

  -- m[k] = v
  unfoldable pub insert : String → V → List (String × V) → List (String × V)
  insert k v [] = (k, v) ∷ []
  insert k v ((j, w) ∷ m) = choose (j == k) ((j, v) ∷ m) ((j, w) ∷ insert k v m)

  pub lookup-insert :
      (j k : String) (v : V) (m : List (String × V))
      → lookup j (insert k v m) ≡ choose (k == j) (some v) (lookup j m)
  unfolding lookup insert
  lookup-insert j k v [] = refl
  lookup-insert j k v ((i, w) ∷ m) =
      ground (arith, eq_iff k j, eq_iff i k, eq_iff i j, lookup-insert j k v m)

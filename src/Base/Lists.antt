-- ===== src/Base/Lists.antt =====
-- Lists: the loops over lists that several parts of the program write out, and predicates on them.
use Prim.Native.Nat.{ℕ, suc}
use Prim.Native.String.{String}
use mathlib.Core.Path.{◌≡◌, refl}
use mathlib.Core.Bool.{Bool, true, false, ◌||◌}
use mathlib.Core.List.{List, [], ◌∷◌, ◌++◌}
use native.Mathlib.Omega.{arith}
use text.Mathlib.Text.{◌==◌}
use text.Mathlib.TextEquality.{eq_iff}

module _ {ℓ} {A : Type ℓ} where
  abbrev pub length : List A → ℕ
  length [] = 0
  length (x ∷ xs) = suc (length xs)

  -- len(xs) > 0
  abbrev pub nonempty : List A → Bool
  nonempty [] = false
  nonempty (x ∷ xs) = true

-- The list holds the text.
unfoldable pub contains : String → List String → Bool
contains k [] = false
contains k (x ∷ xs) = x == k || contains k xs

pub contains-append :
    (k : String) (xs ys : List String) → contains k (xs ++ ys) ≡ (contains k xs || contains k ys)
unfolding contains
contains-append k [] ys = refl
contains-append k (x ∷ xs) ys = ground (arith, contains-append k xs ys)

-- No text stands twice.
abbrev pub NoDuplicates : List String → Type 0
NoDuplicates [] = Unit
NoDuplicates (x ∷ xs) = (contains x xs ≡ false) × NoDuplicates xs

pub contains_self : (k : String) (xs : List String) → contains k (k ∷ xs) ≡ true
unfolding contains
contains_self k xs = ground (arith, eq_iff k k)

pub NoDuplicates-concat :
    (xs : List String) (k : String)
    → contains k xs ≡ false
    → NoDuplicates xs
    → NoDuplicates (xs ++ k ∷ [])
unfolding contains
NoDuplicates-concat [] k h n = (refl, tt)
NoDuplicates-concat (x ∷ xs) k h n = (
  ground (arith, contains-append x xs (k ∷ []), eq_iff x k, eq_iff k x),
  NoDuplicates-concat xs k (ground arith) n.1,
)

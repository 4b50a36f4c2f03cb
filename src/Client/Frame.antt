-- ===== src/Client/Frame.antt =====
-- Actions that leave an object alone and whose results have a property: one rule for each way of
-- composing actions.
use hackaway_repo.Base.{String, ◌≡◌, refl, inl, inr, arith, Bool, true, false, subst, if◌then◌else◌}
use hackaway_repo.Client.{
  Kind, Key, Error, ok, Result-cases, Client, M, pure, fail, ◌>>=◌, attempt, wrapping,
}

module _ (c : Client) (j : Kind) (x : Key) where
  -- The object of kind `j` under the key `x` is the same after the action.
  abbrev pub Leaves : {A : Type 0} → M c.State A → Type 0
  Leaves m = (s : c.State) → c.get j x (m s).1 ≡ c.get j x s

  -- It is, and what the action returns has the property.
  abbrev pub Tame : {A : Type 0} → (A → Type 0) → M c.State A → Type 0
  Tame {A} P m =
      (s : c.State) → (c.get j x (m s).1 ≡ c.get j x s) × ((a : A) → (m s).0 ≡ ok a → P a)

  pub Leaves-wrapping :
      {A : Type 0} (msg : String) (m : M c.State A) → Leaves m → Leaves (wrapping msg m)
  Leaves-wrapping msg m first s = elim (Result-cases (m s).0) [
    | inl (a, e) ↦ ground (arith, first s)
    | inr (inl (f, e)) ↦ ground (arith, first s)
    | inr (inr e) ↦ ground (arith, first s)
  ]

  module _ {B : Type 0} (P : B → Type 0) where
    pub Tame-pure : (b : B) → P b → Tame P (pure {S = c.State} b)
    Tame-pure b holds s = (refl, λ a e. subst P (ground arith) holds)

    pub Tame-fail : (f : Error) → Tame P (fail {S = c.State} {A = B} f)
    Tame-fail f s = (refl, λ a e. absurd (ground arith))

    pub Tame-if : (b : Bool) (m n : M c.State B) → Tame P m → Tame P n → Tame P (if b then m else n)
    Tame-if true m n yes_m yes_n = yes_m
    Tame-if false m n yes_m yes_n = yes_n

    pub Tame-bind :
        {A : Type 0} (m : M c.State A) (f : A → M c.State B)
        → Leaves m
        → ((a : A) → Tame P (f a))
        → Tame P (m >>= f)
    Tame-bind m f first next s = elim (Result-cases (m s).0) [
      | inl (a, e) ↦
          let (same, holds) = next a (m s).1 in
          (ground (arith, first s, same), λ b done. holds b (ground arith))
      | inr (inl (g, e)) ↦ (ground (arith, first s), λ b done. absurd (ground arith))
      | inr (inr e) ↦ (ground (arith, first s), λ b done. absurd (ground arith))
    ]

    pub Tame-attempt :
        {A : Type 0} (m : M c.State A) (f : A → M c.State B) (g : Error → M c.State B)
        → Leaves m
        → ((a : A) → Tame P (f a))
        → ((e : Error) → Tame P (g e))
        → Tame P (attempt m f g)
    Tame-attempt m f g first next caught s = elim (Result-cases (m s).0) [
      | inl (a, e) ↦
          let (same, holds) = next a (m s).1 in
          (ground (arith, first s, same), λ b done. holds b (ground arith))
      | inr (inl (d, e)) ↦
          let (same, holds) = caught d (m s).1 in
          (ground (arith, first s, same), λ b done. holds b (ground arith))
      | inr (inr e) ↦ (ground (arith, first s), λ b done. absurd (ground arith))
    ]

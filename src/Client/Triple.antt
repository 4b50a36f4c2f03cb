-- ===== src/Client/Triple.antt =====
-- What holds of the result and of the cluster when an action that starts in a cluster of some kind
-- succeeds: one rule for each way of composing actions.
use hackaway_repo.Base.{◌≡◌, sym, ◌∙◌, subst, inl, inr, arith, Bool, true, false, if◌then◌else◌}
use hackaway_repo.Client.{
  Error, Result, ok, err, Result-cases, M, pure, fail, ◌>>=◌, attempt, reads,
}

-- From `P` before to `Q` after.
abbrev pub Triple : {S A : Type 0} → (S → Type 0) → M S A → (A → S → Type 0) → Type 0
Triple {S} {A} P m Q = (s : S) → P s → (a : A) → (m s).0 ≡ ok a → Q a (m s).1

module _ {S B : Type 0} (P : S → Type 0) (Q : B → S → Type 0) where
  pub Triple-pure : (b : B) → ((s : S) → P s → Q b s) → Triple P (pure b) Q
  Triple-pure b holds s before a e = subst (λ x. Q x s) (ground arith) (holds s before)

  pub Triple-fail : (f : Error) → Triple P (fail f) Q
  Triple-fail f s before a e = absurd (ground arith)

  pub Triple-if :
      (b : Bool) (m n : M S B) → Triple P m Q → Triple P n Q → Triple P (if b then m else n) Q
  Triple-if true m n yes_m no_m = yes_m
  Triple-if false m n yes_m no_m = no_m

  carried :
      (m n : M S B) (s t : S) (b : B)
      → (m s).0 ≡ (n t).0
      → (m s).1 ≡ (n t).1
      → (m s).0 ≡ ok b
      → ((n t).0 ≡ ok b → Q b (n t).1)
      → Q b (m s).1
  carried m n s t b same_result same_state done holds =
      subst (Q b) (sym same_state) (holds (sym same_result ∙ done))

  -- `R` holds between the two actions.
  pub Triple-bind :
      {A : Type 0} (R : A → S → Type 0) (m : M S A) (f : A → M S B)
      → Triple P m R
      → ((a : A) → Triple (R a) (f a) Q)
      → Triple P (m >>= f) Q
  Triple-bind R m f first next s before b done = elim (Result-cases (m s).0) [
    | inl (a, e) ↦
        carried (m >>= f) (f a) s (m s).1 b (ground arith) (ground arith) done
          (next a (m s).1 (first s before a e) b)
    | inr (inl (g, e)) ↦ absurd (ground arith)
    | inr (inr e) ↦ absurd (ground arith)
  ]

  -- `R` holds after a success of the first action, and `E` after an error.
  pub Triple-attempt :
      {A : Type 0} (R : A → S → Type 0) (E : S → Type 0) (m : M S A) (f : A → M S B)
      (g : Error → M S B)
      → Triple P m R
      → ((s : S) (e : Error) → P s → E (m s).1)
      → ((a : A) → Triple (R a) (f a) Q)
      → ((e : Error) → Triple E (g e) Q)
      → Triple P (attempt m f g) Q
  Triple-attempt R E m f g first failed next caught s before b done = elim (Result-cases (m s).0) [
    | inl (a, e) ↦
        carried (attempt m f g) (f a) s (m s).1 b (ground arith) (ground arith) done
          (next a (m s).1 (first s before a e) b)
    | inr (inl (d, e)) ↦
        carried (attempt m f g) (g d) s (m s).1 b (ground arith) (ground arith) done
          (caught d (m s).1 (failed s d before) b)
    | inr (inr e) ↦ absurd (ground arith)
  ]

  -- A read, whose answer is known from then on.
  pub Triple-read :
      {A : Type 0} (r : S → Result A) (f : A → M S B) (g : Error → M S B)
      → ((a : A) → Triple (λ s. P s × (r s ≡ ok a)) (f a) Q)
      → ((e : Error) → Triple (λ s. P s × (r s ≡ err e)) (g e) Q)
      → Triple P (attempt (reads r) f g) Q
  Triple-read r f g next caught s before b done = elim (Result-cases (r s)) [
    | inl (a, e) ↦
        carried (attempt (reads r) f g) (f a) s s b (ground arith) (ground arith) done
          (next a s (before, e) b)
    | inr (inl (d, e)) ↦
        carried (attempt (reads r) f g) (g d) s s b (ground arith) (ground arith) done
          (caught d s (before, e) b)
    | inr (inr e) ↦ absurd (ground arith)
  ]

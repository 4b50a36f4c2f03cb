-- ===== src/Client/Steps.antt =====
-- A successful sequence of actions, taken apart.
use hackaway_repo.Base.{◌≡◌, refl, ap, inl, inr, arith}
use hackaway_repo.Client.{Result-cases, ok, err, panic, M, pure, ◌>>=◌, ◌>>◌}

module _ {S : Type 0} where
  pub bind_ok :
      {A B : Type 0} (m : M S A) (f : A → M S B) (s : S) (b : B)
      → ((m >>= f) s).0 ≡ ok b
      → (a : A) × ((m s).0 ≡ ok a) × ((f a (m s).1).0 ≡ ok b) × (((m >>= f) s).1 ≡ (f a (m s).1).1)
  bind_ok m f s b done = elim (Result-cases (m s).0) [
    | inl (a, e) ↦ (a, e, ground arith, ground arith)
    | inr (inl (g, e)) ↦ absurd (ground arith)
    | inr (inr e) ↦ absurd (ground arith)
  ]

  pub then_ok :
      {B : Type 0} (m : M S (Unit {0})) (k : M S B) (s : S) (b : B)
      → ((m >> k) s).0 ≡ ok b
      → ((m s).0 ≡ ok tt) × ((k (m s).1).0 ≡ ok b) × (((m >> k) s).1 ≡ (k (m s).1).1)
  then_ok m k s b done = elim (Result-cases (m s).0) [
    | inl (a, e) ↦ (e, ground arith, ground arith)
    | inr (inl (g, e)) ↦ absurd (ground arith)
    | inr (inr e) ↦ absurd (ground arith)
  ]

  -- Reads one after the other are a read.
  pub bind_frame :
      {A B : Type 0} (m : M S A) (f : A → M S B) (s : S)
      → (m s).1 ≡ s
      → ((a : A) (t : S) → (f a t).1 ≡ t)
      → ((m >>= f) s).1 ≡ s
  bind_frame m f s p q = elim (Result-cases (m s).0) [
    | inl (a, e) ↦ ground (arith, q a (m s).1)
    | inr (inl (g, e)) ↦ ground arith
    | inr (inr e) ↦ ground arith
  ]

  -- A step whose result is known.
  pub bind_at :
      {A B : Type 0} (m : M S A) (f : A → M S B) (s : S) (a : A) (t : S)
      → m s ≡ (ok a, t)
      → (m >>= f) s ≡ f a t
  bind_at m f s a t e =
      ap (λ p. elim p.0 [ ok x ↦ f x p.1 | err g ↦ (err g, p.1) | panic ↦ (panic, p.1) ]) e

  -- Two reads in a row that answer the same in two states.
  pub bind_same :
      {A B : Type 0} (m : M S A) (f : A → M S B) (s t : S)
      → (m s).0 ≡ (m t).0
      → (m s).1 ≡ s
      → (m t).1 ≡ t
      → ((a : A) → (f a s).0 ≡ (f a t).0)
      → ((m >>= f) s).0 ≡ ((m >>= f) t).0
  bind_same m f s t same at_s at_t next = elim (Result-cases (m t).0) [
    | inl (a, e) ↦ ground (arith, next a)
    | inr (inl (g, e)) ↦ ground arith
    | inr (inr e) ↦ ground arith
  ]

  -- A read answers the same in both states.
  abbrev pub Agrees : {A : Type 0} → M S A → S → S → Type 0
  Agrees m s t = ((m s).0 ≡ (m t).0) × ((m s).1 ≡ s) × ((m t).1 ≡ t)

  -- Five reads in a row and a function of what they answer.
  pub reads_agree :
      {A B C D E R : Type 0} (s t : S) (m₁ : M S A) (m₂ : M S B) (m₃ : M S C) (m₄ : M S D)
      (m₅ : M S E) (f : A → B → C → D → E → R)
      → Agrees m₁ s t
      → Agrees m₂ s t
      → Agrees m₃ s t
      → Agrees m₄ s t
      → Agrees m₅ s t
      → let all = m₁ >>= λ a. m₂ >>= λ b. m₃ >>= λ x. m₄ >>= λ y. m₅ >>= λ z. pure (f a b x y z) in
        (all s).0 ≡ (all t).0
  reads_agree s t m₁ m₂ m₃ m₄ m₅ f (p₁, q₁, r₁) (p₂, q₂, r₂) (p₃, q₃, r₃) (p₄, q₄, r₄)
        (p₅, q₅, r₅) =
      bind_same m₁ (λ a. m₂ >>= λ b. m₃ >>= λ x. m₄ >>= λ y. m₅ >>= λ z. pure (f a b x y z)) s t p₁
        q₁ r₁
        (λ a.
          bind_same m₂ (λ b. m₃ >>= λ x. m₄ >>= λ y. m₅ >>= λ z. pure (f a b x y z)) s t p₂ q₂ r₂
            (λ b.
              bind_same m₃ (λ x. m₄ >>= λ y. m₅ >>= λ z. pure (f a b x y z)) s t p₃ q₃ r₃
                (λ x.
                  bind_same m₄ (λ y. m₅ >>= λ z. pure (f a b x y z)) s t p₄ q₄ r₄
                    (λ y. bind_same m₅ (λ z. pure (f a b x y z)) s t p₅ q₅ r₅ (λ z. refl)))))

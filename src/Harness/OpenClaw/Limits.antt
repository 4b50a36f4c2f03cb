-- ===== src/Harness/OpenClaw/Limits.antt =====
-- What the policy of an agent becomes: its budget and the tools that it is denied.
use hackaway_repo.Base.{
  ℤ, is_pos, String, ◌≡◌, ◌≢◌, refl, arith, true, eq_iff, ◌==◌, ◌&&◌, Option, some, none, lookup,
  lookup-insert, inl, inr, Option-cases, Bool-cases, pos, ◌∙◌,
}
use hackaway_repo.V1.Policy.{ClawPolicy}
use hackaway_repo.Harness.Json.{int, float, Encoding}
use hackaway_repo.Harness.OpenClaw.Policy.{
  Map, initial_budget, put_warn_at, put_pos, budget_defaults,
}

-- A limit that is a positive whole number.
abbrev pub PositiveAt : String → Map → Type 0
PositiveAt k m = (n : ℤ) × (lookup k m ≡ some (int n)) × (is_pos n ≡ true)

lookup-put_warn_at :
    (e : Encoding) (s k : String) (m : Map)
    → k ≢ "warnAt"
    → lookup k (put_warn_at e s m) ≡ lookup k m
unfolding put_warn_at
lookup-put_warn_at e s k m other = elim (Option-cases (e.parse_float s)) [
  | inl bad ↦ ground arith
  | inr (f, good) ↦ ground (arith, lookup-insert k "warnAt" (float f) m, eq_iff "warnAt" k)
]

PositiveAt-put_pos :
    (k j : String) (n : ℤ) (m : Map) → PositiveAt k m → PositiveAt k (put_pos j n m)
PositiveAt-put_pos k j n m (d, found, d_pos) = elim (Bool-cases (is_pos n && j == k)) [
  | inl changed ↦ (n, ground (arith, lookup-insert k j (int n) m), ground arith)
  | inr other ↦ (d, ground (arith, lookup-insert k j (int n) m), d_pos)
]

PositiveAt-put_warn_at :
    (e : Encoding) (s k : String) (m : Map)
    → k ≢ "warnAt"
    → PositiveAt k m
    → PositiveAt k (put_warn_at e s m)
PositiveAt-put_warn_at e s k m other (d, found, d_pos) =
    (d, lookup-put_warn_at e s k m other ∙ found, d_pos)

initial-daily : lookup "daily" initial_budget ≡ some (int (pos 100))
unfolding lookup
initial-daily = refl

initial-monthly : lookup "monthly" initial_budget ≡ some (int (pos 2000))
unfolding lookup
initial-monthly = refl

-- Whatever the policy says, the plugin gets positive daily and monthly limits.
pub budget_defaults-positive :
    (e : Encoding) (policy : Option ClawPolicy)
    → PositiveAt "daily" (budget_defaults e policy)
      × PositiveAt "monthly" (budget_defaults e policy)
unfolding budget_defaults
budget_defaults-positive e none =
    ((pos 100, initial-daily, refl), (pos 2000, initial-monthly, refl))
budget_defaults-positive e (some p) =
    let b = p.spec.budget in
    (
      PositiveAt-put_warn_at e b.warn_at "daily" _ (ground (arith, eq_iff "daily" "warnAt")) (
          PositiveAt-put_pos "daily" "monthly" b.monthly _ (
            PositiveAt-put_pos "daily" "daily" b.daily initial_budget
              (pos 100, initial-daily, refl))),
      PositiveAt-put_warn_at e b.warn_at "monthly" _ (ground (arith, eq_iff "monthly" "warnAt")) (
          PositiveAt-put_pos "monthly" "monthly" b.monthly _ (
            PositiveAt-put_pos "monthly" "daily" b.daily initial_budget
              (pos 2000, initial-monthly, refl))),
    )

-- ===== src/Agent/Config/Away.antt =====
-- No config map of an agent goes by the name of the dashboard's: its name ends in a suffix that the
-- other has not.
use Prim.Native.String.{len, slice}
use text.Mathlib.TextPositions.{len-append, slice-append_right}
use hackaway_repo.Base.{
  String, false, ◌≡◌, ◌≢◌, refl, sym, ap, ◌∙◌, inl, inr, arith, ◌-◌, ◌+◌, append, ◌==◌, eq_iff,
  Bool-cases,
}
use hackaway_repo.Harness.Json.{Encoding}
use hackaway_repo.Harness.OpenClaw.{openclaw, observeclaw}
use hackaway_repo.Harness.Hermes.{hermes}
use hackaway_repo.Harness.Registry.{for_type}

-- The last part of a text, of the length of another one.
abbrev pub ending : String → String → String
ending whole suffix = slice whole (len whole - len suffix) (len whole)

ending-append : (s t : String) → ending (append s t) t ≡ t
ending-append s t =
    let sum : len (append s t) ≡ len s + len t = len-append s t in
    let start : len (append s t) - len t ≡ len s = omega (arith, sum) in
    ap (λ n. slice (append s t) n (len (append s t))) start
    ∙ ap (λ n. slice (append s t) (len s) n) sum
    ∙ slice-append_right s t

pub not_ending :
    (whole name suffix : String)
    → (ending whole suffix == suffix) ≡ false
    → append name suffix ≢ whole
not_ending whole name suffix other same = cc (
    (eq_iff (ending whole suffix) suffix).1
      (ap (λ w. ending w suffix) (sym same) ∙ ending-append name suffix))

-- The name of the dashboard's config map ends in no suffix of a harness.
pub harness_away :
    (e : Encoding) (type : String)
    → let suffix = (for_type e type).config_map_suffix in
      (ending "fleet-dashboard" suffix == suffix) ≡ false
unfolding for_type openclaw observeclaw hermes
harness_away e type = elim (Bool-cases (type == "observeclaw")) [
  | inl observe ↦ rw observe refl
  | inr other ↦ elim (Bool-cases (type == "hermes")) [
    | inl yes_hermes ↦ rw (other, yes_hermes) refl
    | inr neither ↦ rw (other, neither) refl
  ]
]

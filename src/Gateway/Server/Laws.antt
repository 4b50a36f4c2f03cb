-- ===== src/Gateway/Server/Laws.antt =====
-- What the redaction of the gateway makes of a text.
use hackaway_repo.Base.{String, some, List, [], ◌∷◌, ◌++◌, ◌≡◌, inl, inr, arith, Option-cases}
use hackaway_repo.Gateway.Server.{Regex, Redaction, matches, redact}

module _ (re : Regex) where
  -- The second text is the first after the replacements of the patterns, one after the other.
  abbrev pub Through : List (re.Pattern × String) → String → String → Type 0
  Through [] s t = s ≡ t
  Through ((p, r) ∷ patterns) s t = (u : String) × (re.sub p r s ≡ some u) × Through patterns u t

  -- A replacement and the rest of the patterns.
  pub redact_step :
      (p : re.Pattern) (r s t : String) (patterns : List (re.Pattern × String))
      (redactions : List Redaction)
      → redact re ((p, r) ∷ patterns) s ≡ some (t, redactions)
      → (u : String) × (rest : List Redaction) × (re.sub p r s ≡ some u)
        × (redact re patterns u ≡ some (t, rest))
        × (matches re p r s ++ rest ≡ redactions)
  unfolding redact
  redact_step p r s t patterns redactions done = elim (Option-cases (re.sub p r s)) [
    | inl raised ↦ absurd (ground arith)
    | inr (u, replaced) ↦ elim (Option-cases (redact re patterns u)) [
      | inl raised ↦ absurd (ground arith)
      | inr ((t', rest), last) ↦ (u, rest, replaced, ground arith, ground arith)
    ]
  ]

  pub redact-Through :
      (patterns : List (re.Pattern × String)) (s t : String) (redactions : List Redaction)
      → redact re patterns s ≡ some (t, redactions)
      → Through patterns s t
  unfolding redact
  redact-Through [] s t redactions done = ground arith
  redact-Through ((p, r) ∷ patterns) s t redactions done =
      let (u, rest, replaced, last, _) = redact_step p r s t patterns redactions done in
      (u, replaced, redact-Through patterns u t rest last)

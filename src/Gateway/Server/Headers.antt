-- ===== src/Gateway/Server/Headers.antt =====
-- The headers of the request upstream, and what is printed of the redaction.
use hackaway_repo.Base.{
  String, Option, none, some, List, [], ◌∷◌, ◌++◌, ◌≡◌, refl, sym, ap, ◌∙◌, arith, ◌==◌, lookup,
  if◌then◌else◌, map,
}
use hackaway_repo.Gateway.Server.{Regex, redact, forward_keys, forward_headers}
use hackaway_repo.Gateway.Server.Laws.{redact_step}

-- Whatever the request of the agent says, the request upstream has the key of the server as its
-- `x-api-key`, and has no `x-api-key` where the server has no key.
pub lookup-forward_headers :
    (server_api_key : String) (header : String → String)
    → lookup "x-api-key" (forward_headers server_api_key header)
      ≡ (if server_api_key == "" then none else some server_api_key)
unfolding forward_headers forward_keys lookup
lookup-forward_headers server_api_key header = ground arith

some-cancel : {A : Type 0} (a b : A) → Path (Option A) (some a) (some b) → a ≡ b
some-cancel a b p = cc

map-empty :
    {A B : Type 0} (f : A → B) (xs : List A) (rest : List B)
    → map f xs ++ rest ≡ []
    → (xs ≡ []) × (rest ≡ [])
map-empty f [] rest quiet = (refl, quiet)
map-empty f (x ∷ xs) rest quiet = absurd (cc)

module _ (re : Regex)
    (unmatched : (p : re.Pattern) (r s : String)
      → re.finditer p s ≡ []
      → re.sub p r s ≡ some s) where
  -- If a pattern that does not match leaves a text as it is, then a text of which no match is
  -- reported is sent on as it came.
  pub redact_reports :
      (patterns : List (re.Pattern × String)) (s t : String)
      → redact re patterns s ≡ some (t, [])
      → t ≡ s
  redact_reports [] s t done = unfold redact in (ground arith)
  redact_reports ((p, r) ∷ patterns) s t done =
      let (u, rest, replaced, last, joined) = redact_step re p r s t patterns [] done in
      let (unseen, none_left) = map-empty _ (re.finditer p s) rest joined in
      let kept : u ≡ s = some-cancel u s (sym replaced ∙ unmatched p r s unseen) in
      redact_reports patterns u t (last ∙ ap (λ l. some (t, l)) none_left) ∙ kept

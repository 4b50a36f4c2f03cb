-- ===== src/Base/Text/Marks.antt =====
-- How often a text opens a tag of HTML, by the character `<`.
use Prim.Native.Nat.{ℕ, ◌+◌}
use Prim.Native.Char.{Char}
use Prim.Native.String.append as cat
use Prim.Native.String.{String, [], ◌∷◌}
use mathlib.Core.Path.{◌≡◌, refl, ap, ◌∙◌}
use mathlib.Core.Bool.{Bool, true, false, cond}
use mathlib.Core.List.{List, ◌++◌}
use native.Mathlib.Omega.{arith}
use hackaway_repo.Base.Text.{append, concat, has_code, escape_char, escape_html}

unfoldable pub mark : Bool → ℕ
mark b = cond b 1 0

unfoldable pub marks : String → ℕ
unfolding mark
marks [] = 0
marks (c ∷ s) = mark (has_code b'<' c) + marks s

pub marks-append : (s t : String) → marks (append s t) ≡ marks s + marks t
unfolding marks
marks-append [] t = ap marks (λ i. cat.nil t i) ∙ omega arith
marks-append (c ∷ s) t =
    ap marks (λ i. cat.cons c s t i)
    ∙ (ap (λ n. mark (has_code b'<' c) + n) (marks-append s t) ∙ omega arith)

-- The escape of a character that is none of the five is the character.
plain_escape : (b₁ b₂ b₃ b₄ b₅ : Bool) → Char → String
plain_escape b₁ b₂ b₃ b₄ b₅ c =
    cond b₁ "&lt;" (cond b₂ "&gt;" (cond b₃ "&amp;" (cond b₄ "&#39;" (cond b₅ "&#34;" (c ∷ [])))))

marks-plain_escape :
    (c : Char) (b₁ b₂ b₃ b₄ b₅ : Bool)
    → has_code b'<' c ≡ b₁
    → marks (plain_escape b₁ b₂ b₃ b₄ b₅ c) ≡ 0
unfolding marks plain_escape mark
marks-plain_escape c true b₂ b₃ b₄ b₅ p = refl
marks-plain_escape c false true b₃ b₄ b₅ p = refl
marks-plain_escape c false false true b₄ b₅ p = refl
marks-plain_escape c false false false true b₅ p = refl
marks-plain_escape c false false false false true p = refl
marks-plain_escape c false false false false false p = ap (λ b. mark b + 0) p

marks-escape_char : (c : Char) → marks (escape_char c) ≡ 0
unfolding escape_char plain_escape
marks-escape_char c =
    marks-plain_escape c (has_code b'<' c) (has_code b'>' c) (has_code b'&' c) (has_code 39 c)
      (has_code 34 c) refl

pub marks-escape_html : (s : String) → marks (escape_html s) ≡ 0
unfolding marks escape_html
marks-escape_html [] = refl
marks-escape_html (c ∷ s) =
    omega (
      arith,
      marks-append (escape_char c) (escape_html s),
      marks-escape_char c,
      marks-escape_html s,
    )

-- Lists of pieces with as many marks piece by piece.
infixr 5 ◌&◌
pub data Alike : List String → List String → Type 0 where
  ends : Alike List.[] List.[]
  ◌&◌ :
      {s t : String} {ss ts : List String}
      → marks s ≡ marks t
      → Alike ss ts
      → Alike (List.◌∷◌ s ss) (List.◌∷◌ t ts)

pub marks-concat : {ss ts : List String} → Alike ss ts → marks (concat ss) ≡ marks (concat ts)
unfolding concat
marks-concat ends = refl
marks-concat (◌&◌ {s} {t} {ss} {ts} p ps) =
    omega (arith, marks-append s (concat ss), marks-append t (concat ts), p, marks-concat ps)

pub Alike-append :
    {ss ss' ts ts' : List String} → Alike ss ss' → Alike ts ts' → Alike (ss ++ ts) (ss' ++ ts')
Alike-append ends qs = qs
Alike-append (p & ps) qs = p & Alike-append ps qs

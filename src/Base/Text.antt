-- ===== src/Base/Text.antt =====
-- Texts: `fmt.Sprintf` as the concatenation of its pieces, `%d`, `strings.Join`,
-- `strings.ReplaceAll` of one character by another, `strings.ToUpper` (of the ASCII letters; every
-- other character is kept), and prefixes cut by bytes.
pub mod Marks
use Prim.Native.Nat.{ℕ, zero, suc, compare, Ordering, ◌+◌, ◌-◌, ◌/◌, ◌%◌}
use Prim.Native.Char.{Char, code}
use Prim.Native.String
use Prim.Native.String.{String, [], ◌∷◌, len, slice, char_at}
use mathlib.Core.Path.{◌≡◌, refl}
use mathlib.Core.Bool.{Bool, true, false, cond}
use mathlib.Core.List.{List}
use text.Mathlib.Text.{◌==◌}
use text.Mathlib.TextEquality.{eq_iff}
use hackaway_repo.Base.Int.{ℤ, pos, negsuc}

abbrev pub append : String → String → String
append s t = String.◌++◌ s t

-- The pieces of a format, one after the other.
unfoldable pub concat : List String → String
concat List.[] = ""
concat (List.◌∷◌ s ss) = append s (concat ss)

-- strings.Join(ss, sep)
unfoldable pub join : String → List String → String
join sep List.[] = ""
join sep (List.◌∷◌ s List.[]) = s
join sep (List.◌∷◌ s (List.◌∷◌ t ts)) = append s (append sep (join sep (List.◌∷◌ t ts)))

-- The digits of `n` above `acc`, with at most `fuel` divisions: `fuel > n` is enough.
digits_from : ℕ → ℕ → String → String
digits_from zero n acc = acc
digits_from (suc fuel) n acc =
    let next = char_at "0123456789" (n % 10) ∷ acc in
    let rest = digits_from fuel (n / 10) next in
    elim (compare n 10) [ Ordering.lt ↦ next | _ ↦ rest ]

-- %d
unfoldable pub decimal : ℤ → String
unfolding digits_from
decimal (pos n) = digits_from (suc n) n ""
decimal (negsuc n) = append "-" (digits_from (n + 2) (n + 1) "")

is_lower : Char → Bool
is_lower c = elim (compare (code c) b'a') [
  | Ordering.lt ↦ false
  | _ ↦ elim (compare (code c) b'z') [ Ordering.gt ↦ false | _ ↦ true ]
]

upper_char : Char → Char
unfolding is_lower
upper_char c = cond (is_lower c) (char_at "ABCDEFGHIJKLMNOPQRSTUVWXYZ" (code c - b'a')) c

unfoldable pub to_upper : String → String
unfolding upper_char
to_upper [] = []
to_upper (c ∷ s) = upper_char c ∷ to_upper s

is_upper : Char → Bool
is_upper c = elim (compare (code c) b'A') [
  | Ordering.lt ↦ false
  | _ ↦ elim (compare (code c) b'Z') [ Ordering.gt ↦ false | _ ↦ true ]
]

lower_char : Char → Char
unfolding is_upper
lower_char c = cond (is_upper c) (char_at "abcdefghijklmnopqrstuvwxyz" (code c - b'A')) c

-- strings.ToLower, of the ASCII letters
unfoldable pub to_lower : String → String
unfolding lower_char
to_lower [] = []
to_lower (c ∷ s) = lower_char c ∷ to_lower s

-- if len(s) > n { s = s[:n] + "..." }, in bytes
unfoldable pub snippet : ℕ → String → String
snippet n s = elim (compare n (len s)) [ Ordering.lt ↦ append (slice s 0 n) "..." | _ ↦ s ]

-- The character has the code.
abbrev pub has_code : ℕ → Char → Bool
has_code n c = elim (compare (code c) n) [ Ordering.eq ↦ true | _ ↦ false ]

-- html.EscapeString
escape_char : Char → String
escape_char c = cond (has_code b'<' c) "&lt;" (
    cond (has_code b'>' c) "&gt;" (
      cond (has_code b'&' c) "&amp;"
        (cond (has_code 39 c) "&#39;" (cond (has_code 34 c) "&#34;" (c ∷ [])))))

unfoldable pub escape_html : String → String
unfolding escape_char
escape_html [] = []
escape_html (c ∷ s) = append (escape_char c) (escape_html s)

replace_one : ℕ → Char → Char → Char
replace_one a b c = elim (compare (code c) a) [ Ordering.eq ↦ b | _ ↦ c ]

-- strings.ReplaceAll(s, a, b) for one character `a`, given by its code
unfoldable pub replace_all : ℕ → Char → String → String
unfolding replace_one
replace_all a b [] = []
replace_all a b (c ∷ s) = replace_one a b c ∷ replace_all a b s

pub String-discrete : Discrete String
String-discrete s t = decide_by (s == t) refl
  where
    decide_by : (b : Bool) → (s == t) ≡ b → Dec (s ≡ t)
    decide_by true e = yes ((eq_iff s t).0 e)
    decide_by false e = no (λ p. cc ((eq_iff s t).1 p))

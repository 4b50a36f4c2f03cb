-- ===== src/Api/Paths.antt =====
-- The parts of package strings that the routes are cut with: TrimPrefix, TrimSuffix of a slash, and
-- SplitN at the first slash.
use Prim.Native.Char.{Char, code}
use Prim.Native.String.append as cat
use Prim.Native.String.{String, [], ◌∷◌}
use hackaway_repo.Base.{
  Bool, true, false, Option, none, some, ◌≡◌, refl, ap, ◌∙◌, arith, append, if◌then◌else◌,
}
use hackaway_repo.Base.Text.{has_code}

abbrev is_slash : Char → Bool
is_slash c = has_code b'/' c

-- strings.TrimSuffix(s, "/")
unfoldable pub trim_slash : String → String
trim_slash [] = []
trim_slash (c ∷ []) = if is_slash c then [] else c ∷ []
trim_slash (c ∷ d ∷ s) = c ∷ trim_slash (d ∷ s)

-- strings.SplitN(s, "/", 2): the part before the first slash, and the part after it if there is one
unfoldable pub split_slash : String → String × Option String
split_slash [] = ([], none)
split_slash (c ∷ s) =
    let rest = split_slash s in if is_slash c then ([], some s) else (c ∷ rest.0, rest.1)

-- A segment of a path: no slash in it.
unfoldable pub is_segment : String → Bool
is_segment [] = true
is_segment (c ∷ s) = if is_slash c then false else is_segment s

-- strings.TrimPrefix(s, prefix), none where the prefix is not there
unfoldable pub strip_prefix : String → String → Option String
strip_prefix [] s = some s
strip_prefix (p ∷ prefix) [] = none
strip_prefix (p ∷ prefix) (c ∷ s) =
    let rest = strip_prefix prefix s in if has_code (code p) c then rest else none

segment_parts :
    (c : Char) (s : String)
    → is_segment (c ∷ s) ≡ true
    → (is_slash c ≡ false) × (is_segment s ≡ true)
unfolding is_segment
segment_parts c s h = by_slash (is_slash c) h
  where
    by_slash :
        (b : Bool)
        → (if b then false else is_segment s) ≡ true
        → (b ≡ false) × (is_segment s ≡ true)
    by_slash true h = absurd (cc)
    by_slash false h = (refl, h)

pub trim_slash-segment : (s : String) → is_segment s ≡ true → trim_slash s ≡ s
unfolding trim_slash
trim_slash-segment [] h = refl
trim_slash-segment (c ∷ []) h = rw (segment_parts c [] h).0 refl
trim_slash-segment (c ∷ d ∷ s) h =
    ap (λ t. c ∷ t) (trim_slash-segment (d ∷ s) (segment_parts c (d ∷ s) h).1)

pub split_slash-segment : (s : String) → is_segment s ≡ true → split_slash s ≡ (s, none)
unfolding split_slash
split_slash-segment [] h = refl
split_slash-segment (c ∷ s) h =
    let (plain, rest) = segment_parts c s h in
    rw plain (ap (λ p. (c ∷ p.0, p.1)) (split_slash-segment s rest))

own_code : (c : Char) → has_code (code c) c ≡ true
own_code c = ground arith

-- What stands after a prefix is what is left of the two together.
pub strip_prefix-append : (p s : String) → strip_prefix p (append p s) ≡ some s
unfolding strip_prefix
strip_prefix-append [] s = ap some (λ i. cat.nil s i)
strip_prefix-append (c ∷ p) s =
    ap (strip_prefix (c ∷ p)) (λ i. cat.cons c p s i) ∙ rw (own_code c) (strip_prefix-append p s)

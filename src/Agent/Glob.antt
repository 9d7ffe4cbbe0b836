-- ===== src/Agent/Glob.antt =====
-- Go's `path.Match`, by which the chain allowlist is matched: `*` and `?` stop at a slash, `[…]` is a
-- class of ranges, a backslash takes the next byte as it is. A malformed pattern matches nothing, as
-- its error does for the callers here.
use smtx_lab.Prelude.{
  ℕ, zero, suc, ◌≡◌, refl, Bool, true, false, not, ◌&&◌, ◌||◌, Option, none, some, List, [], ◌∷◌,
  ◌++◌, leb, eqb, if◌then◌else◌, nat_eq, text_eq, length, any, Text, lit, is_empty,
}

pub data Token : Type 0 where
  star : Token
  one : Token
  byte : ℕ → Token
  class : Bool → List (ℕ × ℕ) → Token

-- `getEsc`: one byte of a class and the pattern behind it, which must not be empty
unfoldable pub get_esc : Text → Option (ℕ × Text)
unfolding is_empty
get_esc [] = none
get_esc (c ∷ p) =
    if eqb c b'-' || eqb c b']' || is_empty p
    then none
    else if eqb c b'\\'
    then escaped p
    else some (c, p)
  where
    escaped : Text → Option (ℕ × Text)
    escaped [] = none
    escaped (d ∷ []) = none
    escaped (d ∷ e ∷ q) = some (d, e ∷ q)

-- `lo` or `lo-hi`
unfoldable pub get_range : Text → Option ((ℕ × ℕ) × Text)
unfolding get_esc
get_range p = elim (get_esc p) [ none ↦ none | some (lo, q) ↦ upper lo q ]
  where
    upper : ℕ → Text → Option ((ℕ × ℕ) × Text)
    upper lo [] = none
    upper lo (d ∷ q) =
        if eqb d b'-'
        then elim (get_esc q) [ none ↦ none | some (hi, r) ↦ some ((lo, hi), r) ]
        else some ((lo, lo), d ∷ q)

-- the ranges up to the closing bracket; there is at least one
unfoldable pub parse_ranges : ℕ → List (ℕ × ℕ) → Text → Option (List (ℕ × ℕ) × Text)
unfolding get_range is_empty
parse_ranges zero ranges p = none
parse_ranges (suc fuel) ranges [] = none
parse_ranges (suc fuel) ranges (c ∷ p) =
    let more : Option (List (ℕ × ℕ) × Text) = elim (get_range (c ∷ p)) [
      | none ↦ none
      | some (range, q) ↦ parse_ranges fuel (ranges ++ range ∷ []) q
    ] in
    if eqb c b']' && not (is_empty ranges) then some (ranges, p) else more

abbrev push : Token → Option (List Token) → Option (List Token)
push t none = none
push t (some ts) = some (t ∷ ts)

-- The tokens of a pattern; each takes a byte at least, so its length is fuel enough.
unfoldable pub parse : ℕ → Text → Option (List Token)
unfolding parse_ranges
parse fuel [] = some []
parse zero (c ∷ p) = none
parse (suc fuel) (c ∷ p) =
    let rest = parse fuel p in
    let negated = class_from (parse fuel) p in
    if eqb c b'*'
    then push star rest
    else if eqb c b'?'
    then push one rest
    else if eqb c b'\\'
    then escaped (parse fuel) p
    else if eqb c b'['
    then negated
    else push (byte c) rest
  where
    escaped : (Text → Option (List Token)) → Text → Option (List Token)
    escaped next [] = none
    escaped next (d ∷ q) = push (byte d) (next q)

    closing : (Text → Option (List Token)) → Bool → Text → Option (List Token)
    closing next negated q = elim (parse_ranges (suc (length q)) [] q) [
      | none ↦ none
      | some (ranges, r) ↦ push (class negated ranges) (next r)
    ]

    class_from : (Text → Option (List Token)) → Text → Option (List Token)
    class_from next [] = none
    class_from next (d ∷ q) =
        let plain = closing next false (d ∷ q) in
        let inverse = closing next true q in if eqb d b'^' then inverse else plain

unfoldable pub in_class : List (ℕ × ℕ) → ℕ → Bool
unfolding any
in_class ranges r = any (λ range. leb range.0 r && leb r range.1) ranges

abbrev pub slash : ℕ
slash = b'/'

-- `*`: the rest of the tokens match some tail that no slash stands before
unfoldable pub skip_to : (Text → Bool) → Text → Bool
skip_to rest [] = rest []
skip_to rest (c ∷ name) = rest (c ∷ name) || (not (eqb c slash) && skip_to rest name)

unfoldable pub match_tokens : List Token → Text → Bool
unfolding skip_to in_class is_empty
match_tokens [] name = is_empty name
match_tokens (star ∷ ts) name = skip_to (match_tokens ts) name
match_tokens (one ∷ ts) [] = false
match_tokens (one ∷ ts) (c ∷ name) = not (eqb c slash) && match_tokens ts name
match_tokens (byte b ∷ ts) [] = false
match_tokens (byte b ∷ ts) (c ∷ name) = eqb b c && match_tokens ts name
match_tokens (class negated ranges ∷ ts) [] = false
match_tokens (class negated ranges ∷ ts) (c ∷ name) =
    (if negated then not (in_class ranges c) else in_class ranges c) && match_tokens ts name

-- `ok, err := path.Match(pattern, name)`, as `err == nil && ok`
unfoldable pub path_match : Text → Text → Bool
unfolding parse match_tokens
path_match pattern_ name = elim (parse (length pattern_) pattern_) [
  | none ↦ false
  | some tokens ↦ match_tokens tokens name
]

glob_tests :
    (path_match (lit "KUBE-*") (lit "KUBE-SVC-X") ≡ true)
    × (path_match (lit "[a-c]?[^x]\\*") (lit "bzy*") ≡ true)
    × (path_match (lit "a*c") (lit "ab/c") ≡ false)
    × (path_match (lit "[a") (lit "a") ≡ false)
unfolding path_match lit
glob_tests = (refl, refl, refl, refl)

-- ===== src/Strings.antt =====
-- The functions of Go's package `strings` that the program calls, over ASCII text: the letters whose
-- case changes and the characters that count as spaces are those of ASCII.
pub mod Words
use smtx_lab.Prelude.{
  ℕ, ◌+◌, ◌-◌, ◌/◌, ◌≡◌, refl, Bool, true, false, ◌&&◌, ◌||◌, List, [], ◌∷◌, ◌++◌, map, leb, eqb,
  if◌then◌else◌, ◌==◌, nat_eq, text_eq, length, drop, Text, lit, text_beq, is_empty,
}

unfoldable pub lower_byte : ℕ → ℕ
lower_byte c = if leb b'A' c && leb c b'Z' then c + 32 else c

unfoldable pub upper_byte : ℕ → ℕ
upper_byte c = if leb b'a' c && leb c b'z' then c - 32 else c

-- `strings.ToLower`, `strings.ToUpper`
unfoldable pub to_lower : Text → Text
unfolding lower_byte
to_lower = map lower_byte

unfoldable pub to_upper : Text → Text
unfolding upper_byte
to_upper = map upper_byte

-- `strings.EqualFold`
unfoldable pub equal_fold : Text → Text → Bool
unfolding to_lower
equal_fold s t = to_lower s == to_lower t

-- `strings.HasPrefix(s, prefix)`
unfoldable pub has_prefix : Text → Text → Bool
has_prefix s [] = true
has_prefix [] (d ∷ t) = false
has_prefix (c ∷ s) (d ∷ t) = eqb c d && has_prefix s t

-- `strings.TrimPrefix(s, prefix)`
unfoldable pub trim_prefix : Text → Text → Text
unfolding has_prefix
trim_prefix s prefix = if has_prefix s prefix then drop (length prefix) s else s

-- `strings.HasSuffix(s, suffix)`
unfoldable pub has_suffix : Text → Text → Bool
has_suffix [] suffix = [] == suffix
has_suffix (c ∷ s) suffix = (c ∷ s) == suffix || has_suffix s suffix

-- `strings.TrimSuffix(s, suffix)`
unfoldable pub trim_suffix : Text → Text → Text
trim_suffix [] suffix = []
trim_suffix (c ∷ s) suffix =
    let rest = trim_suffix s suffix in if (c ∷ s) == suffix then [] else c ∷ rest

-- `strings.Contains(s, substr)`
unfoldable pub contains_sub : Text → Text → Bool
unfolding has_prefix
contains_sub [] sub = is_empty sub
contains_sub (c ∷ s) sub = has_prefix (c ∷ s) sub || contains_sub s sub

unfoldable pub is_space : ℕ → Bool
is_space c = (leb 9 c && leb c 13) || eqb c 32

module _ (cut : ℕ → Bool) where
  unfoldable pub trim_left : Text → Text
  trim_left [] = []
  trim_left (c ∷ s) = let rest = trim_left s in if cut c then rest else c ∷ s

  unfoldable pub trim_right : Text → Text
  unfolding is_empty
  trim_right [] = []
  trim_right (c ∷ s) = let rest = trim_right s in if is_empty rest && cut c then [] else c ∷ rest

-- `strings.TrimSpace`
unfoldable pub trim_space : Text → Text
unfolding trim_left trim_right is_space
trim_space s = trim_right is_space (trim_left is_space s)

-- `strings.Join(parts, sep)`
unfoldable pub join : List Text → Text → Text
join [] sep = []
join (p ∷ []) sep = p
join (p ∷ q ∷ ps) sep = p ++ (sep ++ join (q ∷ ps) sep)

-- the words up to here, with `word` as what has been read of the current one
unfoldable pub split_words : Text → Text → List Text
unfolding is_space is_empty
split_words [] word = if is_empty word then [] else word ∷ []
split_words (c ∷ s) word =
    let fresh = split_words s [] in
    let longer = split_words s (word ++ c ∷ []) in
    if is_space c then (if is_empty word then fresh else word ∷ fresh) else longer

-- `strings.Fields`
unfoldable pub fields : Text → List Text
unfolding split_words
fields s = split_words s []

fields_test : fields (lit " -A  KUBE-SVC -j ") ≡ lit "-A" ∷ lit "KUBE-SVC" ∷ lit "-j" ∷ []
unfolding fields lit
fields_test = refl

trim_suffix_test :
    (trim_suffix (lit "10.0.0.1/32") (lit "/32") ≡ lit "10.0.0.1")
    × (trim_space (lit " a b ") ≡ lit "a b")
unfolding trim_suffix trim_space lit text_beq
trim_suffix_test = (refl, refl)

-- ===== src/Crypto.antt =====
-- `crypto/sha1` and `encoding/hex` as the program uses them: the digest of a text and its digits.
use Prim.Native.Nat.{bit_and, bit_or, bit_xor}
use smtx_lab.Prelude.{
  ℕ, zero, suc, ◌+◌, ◌-◌, ◌*◌, ◌/◌, ◌%◌, ◌^◌, ◌≤◌, ◌<◌, ◌≡◌, refl, ◌⊎◌, List, [], ◌∷◌, ◌++◌, arith,
  ltb, if◌then◌else◌, nat_eq, text_eq, length, get_elem?, take, drop, replicate, All, All-append,
  Text, lit, value_or,
}

abbrev word : ℕ
word = 2 ^ 32

rotl : ℕ → ℕ → ℕ
rotl k x = (x * 2 ^ k) % word + x / 2 ^ (32 - k)

complement : ℕ → ℕ
complement x = word - 1 - x

-- the big-endian bytes of a number, `n` of them
be_bytes : ℕ → ℕ → Text
be_bytes zero x = []
be_bytes (suc n) x = be_bytes n (x / 256) ++ (x % 256) ∷ []

padding : Text → Text
unfolding be_bytes
padding msg =
    msg ++ (0x80 ∷ (replicate ((119 - length msg % 64) % 64) 0 ++ be_bytes 8 (length msg * 8)))

be_words : Text → List ℕ
be_words (a ∷ b ∷ c ∷ d ∷ rest) = (((a * 256 + b) * 256 + c) * 256 + d) ∷ be_words rest
be_words _ = []

record Sha1State : Type 0 where
  h0 : ℕ
  h1 : ℕ
  h2 : ℕ
  h3 : ℕ
  h4 : ℕ

nth : List ℕ → ℕ → ℕ
nth ws i = value_or 0 (get_elem? ws i)

mix : ℕ → ℕ → ℕ → ℕ → ℕ × ℕ
unfolding complement
mix t b c d =
    if ltb t 20
    then (bit_or (bit_and b c) (bit_and (complement b) d), 0x5A827999)
    else if ltb t 40
    then (bit_xor (bit_xor b c) d, 0x6ED9EBA1)
    else if ltb t 60
    then (bit_or (bit_or (bit_and b c) (bit_and b d)) (bit_and c d), 0x8F1BBCDC)
    else (bit_xor (bit_xor b c) d, 0xCA62C1D6)

-- one round over the window of the next sixteen words
rounds : ℕ → ℕ → List ℕ → Sha1State → Sha1State
unfolding rotl mix nth
rounds zero t ws s = s
rounds (suc left) t ws s =
    let (f, k) = mix t s.h1 s.h2 s.h3 in
    let temp = (rotl 5 s.h0 + f + s.h4 + k + nth ws 0) % word in
    let fresh = rotl 1 (bit_xor (bit_xor (nth ws 13) (nth ws 8)) (bit_xor (nth ws 2) (nth ws 0))) in
    rounds left (t + 1) (drop 1 ws ++ fresh ∷ [])
      (record { h0 = temp; h1 = s.h0; h2 = rotl 30 s.h1; h3 = s.h2; h4 = s.h3 })

-- one block of sixteen words for each unit of fuel
blocks : ℕ → List ℕ → Sha1State → Sha1State
unfolding rounds
blocks zero ws s = s
blocks (suc n) ws s =
    let r = rounds 80 0 (take 16 ws) s in
    blocks n (drop 16 ws) (record {
      h0 = (s.h0 + r.h0) % word;
      h1 = (s.h1 + r.h1) % word;
      h2 = (s.h2 + r.h2) % word;
      h3 = (s.h3 + r.h3) % word;
      h4 = (s.h4 + r.h4) % word;
    })

initial : Sha1State
initial = record {
  h0 = 0x67452301;
  h1 = 0xEFCDAB89;
  h2 = 0x98BADCFE;
  h3 = 0x10325476;
  h4 = 0xC3D2E1F0;
}

words_bytes : List ℕ → Text
unfolding be_bytes
words_bytes [] = []
words_bytes (w ∷ ws) = be_bytes 4 w ++ words_bytes ws

digest_words : Text → List ℕ
unfolding padding be_words blocks initial
digest_words msg =
    let bytes = padding msg in
    let s = blocks (length bytes / 64) (be_words bytes) initial in
    s.h0 ∷ s.h1 ∷ s.h2 ∷ s.h3 ∷ s.h4 ∷ []

-- `sha1.Sum`
unfoldable pub sha1 : Text → Text
unfolding digest_words words_bytes
sha1 msg = words_bytes (digest_words msg)

hex_digit : ℕ → ℕ
hex_digit d = if ltb d 10 then b'0' + d else b'a' + (d - 10)

-- `hex.EncodeToString`
unfoldable pub hex : Text → Text
unfolding hex_digit
hex [] = []
hex (b ∷ bs) = hex_digit (b / 16) ∷ hex_digit (b % 16) ∷ hex bs

sha1_abc : hex (sha1 (lit "abc")) ≡ lit "a9993e364706816aba3e25717850c26c9cd0d89d"
unfolding hex sha1 lit
sha1_abc = refl

sha1_empty : hex (sha1 []) ≡ lit "da39a3ee5e6b4b0d3255bfef95601890afd80709"
unfolding hex sha1 lit
sha1_empty = refl

abbrev pub IsByte : ℕ → Type 0
IsByte b = b < 256

be_bytes-IsByte : (n x : ℕ) → All IsByte (be_bytes n x)
unfolding be_bytes
be_bytes-IsByte zero x = tt
be_bytes-IsByte (suc n) x =
    All-append IsByte (be_bytes n (x / 256)) ((x % 256) ∷ []) (be_bytes-IsByte n (x / 256))
      (omega arith)

-- A digest has twenty bytes.
pub length-sha1 : (msg : Text) → length (sha1 msg) ≡ 20
unfolding sha1
length-sha1 msg = refl

words_bytes-IsByte : (ws : List ℕ) → All IsByte (words_bytes ws)
unfolding words_bytes
words_bytes-IsByte [] = tt
words_bytes-IsByte (w ∷ ws) =
    All-append IsByte (be_bytes 4 w) (words_bytes ws) (be_bytes-IsByte 4 w) (words_bytes-IsByte ws)

pub sha1-IsByte : (msg : Text) → All IsByte (sha1 msg)
unfolding sha1
sha1-IsByte msg = words_bytes-IsByte (digest_words msg)

-- A digit of a lower-case hexadecimal number.
abbrev pub IsHexDigit : ℕ → Type 0
IsHexDigit c = ((b'0' ≤ c) × (c ≤ b'9')) ⊎ ((b'a' ≤ c) × (c ≤ b'f'))

hex_digit-IsHexDigit : (d : ℕ) → d < 16 → IsHexDigit (hex_digit d)
unfolding hex_digit
hex_digit-IsHexDigit d h = grind arith

pub length-hex : (bs : Text) → length (hex bs) ≡ 2 * length bs
unfolding hex
length-hex [] = refl
length-hex (b ∷ bs) = omega (arith, length-hex bs)

pub hex-IsHexDigit : (bs : Text) → All IsByte bs → All IsHexDigit (hex bs)
unfolding hex
hex-IsHexDigit [] h = tt
hex-IsHexDigit (b ∷ bs) (p, h) = (
  hex_digit-IsHexDigit (b / 16) (omega arith),
  (hex_digit-IsHexDigit (b % 16) (omega arith), hex-IsHexDigit bs h),
)

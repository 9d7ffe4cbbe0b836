-- ===== src/Controller/Naming/Label.antt =====
-- The names of jobs and ConfigMaps as labels of Kubernetes.
use smtx_lab.Prelude.{
  ℕ, suc, ◌-◌, ◌≤◌, ◌<◌, ◌≡◌, refl, ◌⊎◌, inl, inr, Bool, true, false, not, ◌&&◌, [], ◌∷◌, ◌++◌,
  arith, ltb, if◌then◌else◌, nat_eq, text_eq, Bool-cases, length, take, length-append, length-take,
  All, All-append, All-take, All-mono, Text, lit, is_empty,
}
use smtx_lab.Strings.{to_lower, trim_left, trim_right}
use smtx_lab.Strings.Words.{length-trim_right, All-trim_right, All-trim_left}
use smtx_lab.Crypto.{sha1, hex, length-sha1, length-hex, sha1-IsByte, hex-IsHexDigit, IsHexDigit}
use smtx_lab.Controller.Naming.{
  snapshot_config_map_name, is_alnum, replace_runs, is_dash, sanitize_name, short_hash,
  bounded_base, probe_job_name,
}

abbrev pub IsAlnum : ℕ → Type 0
IsAlnum c = ((b'a' ≤ c) × (c ≤ b'z')) ⊎ ((b'0' ≤ c) × (c ≤ b'9'))

abbrev pub IsLabelByte : ℕ → Type 0
IsLabelByte c = IsAlnum c ⊎ (c ≡ b'-')

-- The last byte, and `d` where there is none.
abbrev pub last_or : ℕ → Text → ℕ
last_or d [] = d
last_or d (c ∷ s) = last_or c s

abbrev pub head_or : ℕ → Text → ℕ
head_or d [] = d
head_or d (c ∷ s) = c

-- A label of RFC 1123: at most 63 bytes, lower-case letters, digits and dashes, a letter or digit at
-- both ends.
pub record IsLabel (s : Text) : Type 0 where
  pub short : length s ≤ 63
  pub bytes : All IsLabelByte s
  pub first : IsAlnum (head_or 0 s)
  pub last : IsAlnum (last_or 0 s)

is_alnum-IsAlnum : (r : ℕ) → is_alnum r ≡ true → IsAlnum r
unfolding is_alnum
is_alnum-IsAlnum r h = grind arith

replace_runs-IsLabelByte : (value : Text) (d : Bool) → All IsLabelByte (replace_runs value d)
unfolding replace_runs
replace_runs-IsLabelByte [] d = tt
replace_runs-IsLabelByte (r ∷ value) d = elim (Bool-cases (is_alnum r)) [
  | inl e ↦ rw e (inl (is_alnum-IsAlnum r e), replace_runs-IsLabelByte value false)
  | inr e ↦ rw e (after_other d (replace_runs-IsLabelByte value true))
]
  where
    after_other :
        (d : Bool)
        → All IsLabelByte (replace_runs value true)
        → All IsLabelByte
            (if not d then b'-' ∷ replace_runs value true else replace_runs value true)
    after_other true h = h
    after_other false h = (inr refl, h)

trimmed : Text → Text
trimmed value = trim_right is_dash (trim_left is_dash (replace_runs (to_lower value) false))

trimmed-IsLabelByte : (value : Text) → All IsLabelByte (trimmed value)
unfolding trimmed
trimmed-IsLabelByte value =
    let runs = replace_runs (to_lower value) false in
    All-trim_right is_dash IsLabelByte (trim_left is_dash runs)
      (All-trim_left is_dash IsLabelByte runs (replace_runs-IsLabelByte (to_lower value) false))

lab-IsLabelByte : All IsLabelByte (lit "lab")
unfolding lit
lab-IsLabelByte = (inl (omega arith), (inl (omega arith), (inl (omega arith), tt)))

sanitize_name-IsLabelByte : (value : Text) → All IsLabelByte (sanitize_name value)
unfolding sanitize_name trimmed
sanitize_name-IsLabelByte value = elim (Bool-cases (is_empty (trimmed value))) [
  | inl e ↦ rw e lab-IsLabelByte
  | inr e ↦ rw e (trimmed-IsLabelByte value)
]

length-short_hash : (value : Text) → length (short_hash value) ≡ 10
unfolding short_hash
length-short_hash value =
    omega (arith, length-take 10 (hex (sha1 value)), length-hex (sha1 value), length-sha1 value)

short_hash-IsHexDigit : (value : Text) → All IsHexDigit (short_hash value)
unfolding short_hash
short_hash-IsHexDigit value =
    All-take IsHexDigit 10 (hex (sha1 value)) (hex-IsHexDigit (sha1 value) (sha1-IsByte value))

IsHexDigit-IsAlnum : (c : ℕ) → IsHexDigit c → IsAlnum c
IsHexDigit-IsAlnum c h = grind arith

IsHexDigit-IsLabelByte : (c : ℕ) → IsHexDigit c → IsLabelByte c
IsHexDigit-IsLabelByte c h = inl (IsHexDigit-IsAlnum c h)

-- The last byte of a text whose bytes all satisfy `P`.
last_or-All {ℓ} : (P : ℕ → Type ℓ) (d : ℕ) (s : Text) → P d → All P s → P (last_or d s)
last_or-All P d [] pd h = pd
last_or-All P d (c ∷ s) pd (pc, h) = last_or-All P c s pc h

last_or-append : (d c : ℕ) (s t : Text) → last_or d (s ++ c ∷ t) ≡ last_or c t
last_or-append d c [] t = refl
last_or-append d c (b ∷ s) t = last_or-append b c s t

length-bounded_base : (s : Text) (n : ℕ) → length (bounded_base s n) ≤ n
unfolding bounded_base
length-bounded_base s n = ground (arith, length-trim_right is_dash (take n s), length-take n s)

-- A first byte that is no dash stays, if there is room for it.
bounded_base-cons :
    (c n : ℕ) (base : Text)
    → is_dash c ≡ false
    → (rest : Text) × (bounded_base (c ∷ base) (suc n) ≡ c ∷ rest)
unfolding bounded_base trim_right
bounded_base-cons c n base plain = elim (Bool-cases (ltb (suc n) (suc (length base)))) [
  | inl e ↦
      (trim_right is_dash (take n base), rw e (kept (is_empty (trim_right is_dash (take n base)))))
  | inr e ↦ (base, rw e refl)
]
  where
    kept :
        (b : Bool)
        → (if b && is_dash c then [] else c ∷ trim_right is_dash (take n base))
          ≡ c ∷ trim_right is_dash (take n base)
    kept b = rw plain (ground arith)

bounded_base-IsLabelByte :
    (s : Text) (n : ℕ) → All IsLabelByte s → All IsLabelByte (bounded_base s n)
unfolding bounded_base
bounded_base-IsLabelByte s n h = elim (Bool-cases (ltb n (length s))) [
  | inl e ↦ rw e (All-trim_right is_dash IsLabelByte (take n s) (All-take IsLabelByte n s h))
  | inr e ↦ rw e h
]

abbrev hashed_name : Text → Text → Text
hashed_name base value =
    let hash = short_hash value in bounded_base base (63 - length hash - 1) ++ (lit "-" ++ hash)

hashed_name-bytes :
    (base value : Text) → All IsLabelByte base → All IsLabelByte (hashed_name base value)
unfolding lit
hashed_name-bytes base value h =
    let hash = short_hash value in
    All-append IsLabelByte (bounded_base base (63 - length hash - 1)) (lit "-" ++ hash)
      (bounded_base-IsLabelByte base (63 - length hash - 1) h)
      (
        inr refl,
        All-mono IsHexDigit IsLabelByte IsHexDigit-IsLabelByte hash (short_hash-IsHexDigit value),
      )

hashed_name-short : (base value : Text) → length (hashed_name base value) ≤ 63
unfolding lit
hashed_name-short base value =
    let hash = short_hash value in
    omega (
      arith,
      length-append (bounded_base base (63 - length hash - 1)) (lit "-" ++ hash),
      length-bounded_base base (63 - length hash - 1),
      length-short_hash value,
    )

last_or-long : (s : Text) (d : ℕ) → All IsHexDigit s → 0 < length s → IsAlnum (last_or d s)
last_or-long [] d h l = absurd (omega arith)
last_or-long (c ∷ s) d (pc, h) l =
    last_or-All IsAlnum c s (IsHexDigit-IsAlnum c pc)
      (All-mono IsHexDigit IsAlnum IsHexDigit-IsAlnum s h)

hashed_name-last : (base value : Text) → IsAlnum (last_or 0 (hashed_name base value))
unfolding lit
hashed_name-last base value =
    let hash = short_hash value in
    rw (last_or-append 0 b'-' (bounded_base base (63 - length hash - 1)) hash) (
      last_or-long hash b'-' (short_hash-IsHexDigit value) (omega (arith, length-short_hash value)))

hashed_name-first :
    (c : ℕ) (base value : Text) → is_dash c ≡ false → head_or 0 (hashed_name (c ∷ base) value) ≡ c
unfolding lit
hashed_name-first c base value plain =
    let (rest, e) = bounded_base-cons c 51 base plain in
    let room : 63 - length (short_hash value) - 1 ≡ 52 = omega (arith, length-short_hash value) in
    rw (room, e) refl

hashed_name-IsLabel :
    (c : ℕ) (base value : Text)
    → IsAlnum c
    → is_dash c ≡ false
    → All IsLabelByte base
    → IsLabel (hashed_name (c ∷ base) value)
hashed_name-IsLabel c base value alnum plain h = record {
  short = hashed_name-short (c ∷ base) value;
  bytes = hashed_name-bytes (c ∷ base) value (inl alnum, h);
  first = rw (hashed_name-first c base value plain) alnum;
  last = hashed_name-last (c ∷ base) value;
}

-- Whatever the names of the lab and of the node, the name of a probe job is a label of RFC 1123.
pub probe_job_name-IsLabel :
    (lab_name source_node : Text) → IsLabel (probe_job_name lab_name source_node)
unfolding probe_job_name lit
probe_job_name-IsLabel lab_name source_node =
    hashed_name-IsLabel b'n' (lit "pl-" ++ sanitize_name lab_name) source_node (inl (omega arith))
      refl (inl (omega arith), (inl (omega arith), (inr refl, sanitize_name-IsLabelByte lab_name)))

-- Whatever the names of the lab and of the node, the name of a snapshot's ConfigMap is a label of
-- RFC 1123.
pub snapshot_config_map_name-IsLabel :
    (lab_name node_name : Text) → IsLabel (snapshot_config_map_name lab_name node_name)
unfolding snapshot_config_map_name lit
snapshot_config_map_name-IsLabel lab_name node_name =
    hashed_name-IsLabel b'n' (lit "pl-snapshot-" ++ sanitize_name lab_name) node_name
      (inl (omega arith)) refl
      (
        inl (omega arith),
        (
          inl (omega arith),
          (
            inr refl,
            (
              inl (omega arith),
              (
                inl (omega arith),
                (
                  inl (omega arith),
                  (
                    inl (omega arith),
                    (
                      inl (omega arith),
                      (
                        inl (omega arith),
                        (
                          inl (omega arith),
                          (inl (omega arith), (inr refl, sanitize_name-IsLabelByte lab_name)),
                        ),
                      ),
                    ),
                  ),
                ),
              ),
            ),
          ),
        ),
      )

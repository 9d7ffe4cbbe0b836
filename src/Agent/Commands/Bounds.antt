-- ===== src/Agent/Commands/Bounds.antt =====
-- `boundedLines` of internal/agent/commands.go and its limit.
use smtx_lab.Prelude.Int.{ℤ, is_pos, pos_part}
use smtx_lab.Agent.Commands.{bounded_data, drop_cr, scan_lines, bounded_lines, max_token}
use smtx_lab.Prelude.{
  ℕ, ◌+◌, ◌≤◌, ◌<◌, ◌≡◌, ◌≢◌, ◌↔◌, true, List, [], ◌∷◌, ◌++◌, arith, leb, eqb, nat_eq, text_eq,
  if_both, length, length-append, length-take, All, All-append, Text, is_empty,
}

-- The bytes of all the lines.
abbrev pub total_length : List Text → ℕ
total_length [] = 0
total_length (s ∷ ss) = length s + total_length ss

length-drop_cr : (s : Text) → length (drop_cr s) ≤ length s
unfolding drop_cr
length-drop_cr [] = omega arith
length-drop_cr (c ∷ []) = ground arith
length-drop_cr (c ∷ d ∷ s) = omega (arith, length-drop_cr (d ∷ s))

total_length-scan_lines :
    (cap : ℕ) (s line : Text) → total_length (scan_lines cap s line) ≤ length line + length s
unfolding scan_lines is_empty
total_length-scan_lines cap [] [] = omega arith
total_length-scan_lines cap [] (c ∷ line) = ground (arith, length-drop_cr (c ∷ line))
total_length-scan_lines cap (c ∷ s) line = ground (
  arith,
  length-drop_cr line,
  length-append line (c ∷ []),
  total_length-scan_lines cap s [],
  total_length-scan_lines cap s (line ++ c ∷ []),
)

abbrev pub IsNotBreak : ℕ → Type 0
IsNotBreak c = c ≢ 10

abbrev IsOneLine : Text → Type 0
IsOneLine s = All IsNotBreak s

drop_cr-IsOneLine : (s : Text) → IsOneLine s → IsOneLine (drop_cr s)
unfolding drop_cr
drop_cr-IsOneLine [] h = tt
drop_cr-IsOneLine (c ∷ []) (p, h) = if_both IsOneLine (eqb c 13) (λ _. tt) (λ _. (p, tt))
drop_cr-IsOneLine (c ∷ d ∷ s) (p, h) = (p, drop_cr-IsOneLine (d ∷ s) h)

scan_lines-IsOneLine :
    (cap : ℕ) (s line : Text) → IsOneLine line → All IsOneLine (scan_lines cap s line)
unfolding scan_lines
scan_lines-IsOneLine cap [] line h =
    if_both (All IsOneLine) (is_empty line) (λ _. tt)
      λ _.
        if_both (All IsOneLine) (leb cap (length line)) (λ _. tt)
          λ _. (drop_cr-IsOneLine line h, tt)
scan_lines-IsOneLine cap (c ∷ s) line h =
    if_both (All IsOneLine) (leb cap (length line)) (λ _. tt)
      λ _.
        if_both (All IsOneLine) (eqb c 10)
          (λ _. (drop_cr-IsOneLine line h, scan_lines-IsOneLine cap s [] tt))
          (λ e.
            scan_lines-IsOneLine cap s (line ++ c ∷ [])
              (All-append IsNotBreak line (c ∷ []) h ((λ p. ground arith), tt)))

module _ (bytes : Text) (max_bytes : ℤ) (limited : is_pos max_bytes ≡ true) where
  length-bounded_data : length (bounded_data bytes max_bytes).0 ≤ pos_part max_bytes
  unfolding bounded_data
  length-bounded_data = ground (arith, length-take (pos_part max_bytes) bytes)

  bounded_data_cut : ((bounded_data bytes max_bytes).1 ≡ true) ↔ (pos_part max_bytes < length bytes)
  unfolding bounded_data
  bounded_data_cut = (λ h. ground arith, λ h. ground arith)

-- Where a limit is set, the lines hold at most that many bytes; `truncated` tells whether the output
-- was longer than the limit; and no line holds a line break.
pub bounded_lines_fits :
    (bytes : Text) (max_bytes : ℤ)
    → is_pos max_bytes ≡ true
    → (total_length (bounded_lines bytes max_bytes).0 ≤ pos_part max_bytes)
      × (((bounded_lines bytes max_bytes).1 ≡ true) ↔ (pos_part max_bytes < length bytes))
      × All (All IsNotBreak) (bounded_lines bytes max_bytes).0
unfolding bounded_lines
bounded_lines_fits bytes max_bytes limited = (
  fits,
  (bounded_data_cut bytes max_bytes limited),
  scan_lines-IsOneLine max_token (bounded_data bytes max_bytes).0 [] tt,
)
  where
    fits : total_length (bounded_lines bytes max_bytes).0 ≤ pos_part max_bytes
    fits = omega (
      arith,
      total_length-scan_lines max_token (bounded_data bytes max_bytes).0 [],
      length-bounded_data bytes max_bytes limited,
    )

-- ===== src/Agent/Commands/Filters.antt =====
-- `filterConntrackLines` and `filterIptablesLines` of internal/agent/commands.go, as filters.
use mathlib.Core.List.{Memᴰ}
use smtx_lab.Agent.Glob.{path_match}
use smtx_lab.Strings.{fields, to_lower}
use smtx_lab.Agent.Types.{ConntrackFilter}
use smtx_lab.Prelude.{
  ℕ, zero, suc, ◌+◌, ◌-◌, ◌≡◌, refl, sym, ◌∙◌, ◌≢◌, ◌↔◌, ◌⊎◌, inl, inr, Bool, true, false, ◌||◌,
  List, [], ◌∷◌, ◌++◌, map, append-nil, append_assoc, arith, leb, if◌then◌else◌, ◌==◌, eq_iff,
  nat_eq, text_eq, Bool-cases, or_true, length, take, filter, length-append, any-true, any-Memᴰ,
  filter-Memᴰ, Memᴰ-filter, Text, is_empty,
}
use smtx_lab.Agent.Commands.{
  protocol_matches, conntrack_loop, filter_conntrack_lines, max_entries_of, filter_iptables_lines,
  keeps_line, chain_allowed, iptables_chain,
}

abbrev kept : List Text → Text → Bool
kept protocols line = protocol_matches protocols (fields line)

-- With room for `k + 1` more lines the loop appends the first `k + 1` that pass.
conntrack_loop-eq :
    (protocols lines out : List Text) (k : ℕ)
    → conntrack_loop protocols (length out + suc k) lines out
      ≡ out ++ take (suc k) (filter (kept protocols) lines)
unfolding conntrack_loop filter
conntrack_loop-eq protocols [] out k = sym (append-nil out)
conntrack_loop-eq protocols (line ∷ rest) out k = elim (Bool-cases (kept protocols line)) [
  | inr e ↦ rw e (conntrack_loop-eq protocols rest out k)
  | inl e ↦ rw e (room k (λ j. conntrack_loop-eq protocols rest (out ++ line ∷ []) j))
]
  where
    room :
        (k : ℕ)
        → ((j : ℕ)
            → conntrack_loop protocols (length (out ++ line ∷ []) + suc j) rest (out ++ line ∷ [])
              ≡ (out ++ line ∷ []) ++ take (suc j) (filter (kept protocols) rest))
        → (if leb (length out + suc k) (length (out ++ line ∷ []))
            then out ++ line ∷ []
            else conntrack_loop protocols (length out + suc k) rest (out ++ line ∷ []))
          ≡ out ++ line ∷ take k (filter (kept protocols) rest)
    room zero ih =
        let full : leb (length out + 1) (length (out ++ line ∷ [])) ≡ true =
          ground (arith, length-append out (line ∷ [])) in
        rw full refl
    room (suc j) ih =
        let more : leb (length out + suc (suc j)) (length (out ++ line ∷ [])) ≡ false =
          ground (arith, length-append out (line ∷ [])) in
        let same : length out + suc (suc j) ≡ length (out ++ line ∷ []) + suc j =
          omega (arith, length-append out (line ∷ [])) in
        rw more (
          rw same
            (ih j ∙ append_assoc out (line ∷ []) (take (suc j) (filter (kept protocols) rest))))

max_entries_pos : (f : ConntrackFilter) → (k : ℕ) × (max_entries_of f ≡ suc k)
max_entries_pos f = (max_entries_of f - 1, ground arith)

-- The loop with its `break` gives the first `maxEntries` lines, 2000 where that is not positive, of
-- those whose first word is an allowed protocol, or that have a word where no protocol is listed.
pub filter_conntrack_lines-eq-take :
    (lines : List Text) (f : ConntrackFilter)
    → filter_conntrack_lines lines f
      ≡ take
          (max_entries_of f)
          (filter (λ line. protocol_matches (map to_lower f.protocols) (fields line)) lines)
unfolding filter_conntrack_lines
filter_conntrack_lines-eq-take lines f =
    let (k, e) = max_entries_pos f in
    let start : 0 + suc k ≡ suc k = omega arith in
    rw e (rw start at (conntrack_loop-eq (map to_lower f.protocols) lines [] k))

-- What the allowlist says of a chain.
abbrev pub IsAllowed : Text → List Text → Type 0
IsAllowed chain allowlist =
    (p : Text) × Memᴰ p allowlist × ((path_match p chain ≡ true) ⊎ (p ≡ chain))

chain_allowed-IsAllowed :
    (chain : Text) (allowlist : List Text)
    → chain_allowed chain allowlist ≡ true
    → IsAllowed chain allowlist
unfolding chain_allowed
chain_allowed-IsAllowed chain allowlist h =
    let (p, m, e) = any-true (λ q. path_match q chain || q == chain) allowlist h in
    (p, m, ground (arith, eq_iff p chain))

pub IsAllowed-chain_allowed :
    (chain : Text) (allowlist : List Text)
    → IsAllowed chain allowlist
    → chain_allowed chain allowlist ≡ true
unfolding chain_allowed
IsAllowed-chain_allowed chain allowlist (p, m, e) =
    any-Memᴰ (λ q. path_match q chain || q == chain) allowlist m (ground (arith, eq_iff p chain))

-- With a non-empty allowlist a line is kept exactly if it is one of the input and names no chain, or
-- its chain is one of the list or matched by a pattern of the list.
pub filter_iptables_lines_iff :
    (lines allowlist : List Text) (line : Text)
    → allowlist ≢ []
    → Memᴰ line (filter_iptables_lines lines allowlist)
      ↔ (Memᴰ line lines × ((iptables_chain line ≡ []) ⊎ IsAllowed (iptables_chain line) allowlist))
unfolding filter_iptables_lines is_empty
filter_iptables_lines_iff lines [] line ne = absurd (ne refl)
filter_iptables_lines_iff lines (a ∷ rest) line ne = (there, back)
  where
    chain : Text
    chain = iptables_chain line

    sides : keeps_line (a ∷ rest) line ≡ true → (chain ≡ []) ⊎ IsAllowed chain (a ∷ rest)
    sides e = elim (Bool-cases (chain == [])) [
      | inl no_chain ↦ inl ((eq_iff chain []).0 no_chain)
      | inr named ↦ inr (chain_allowed-IsAllowed chain (a ∷ rest) (rw named at e))
    ]

    test : (chain ≡ []) ⊎ IsAllowed chain (a ∷ rest) → keeps_line (a ∷ rest) line ≡ true
    test (inl e) = rw ((eq_iff chain []).1 e) refl
    test (inr h) = rw (IsAllowed-chain_allowed chain (a ∷ rest) h) (or_true (chain == []))

    there :
        Memᴰ line (filter_iptables_lines lines (a ∷ rest))
        → Memᴰ line lines × ((chain ≡ []) ⊎ IsAllowed chain (a ∷ rest))
    there m = let (n, e) = Memᴰ-filter (keeps_line (a ∷ rest)) lines m in (n, sides e)

    back :
        Memᴰ line lines × ((chain ≡ []) ⊎ IsAllowed chain (a ∷ rest))
        → Memᴰ line (filter_iptables_lines lines (a ∷ rest))
    back (m, h) = filter-Memᴰ (keeps_line (a ∷ rest)) lines m (test h)

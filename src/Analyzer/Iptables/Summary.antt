-- ===== src/Analyzer/Iptables/Summary.antt =====
-- What `SummarizeIptables` tells of a dump.
use smtx_lab.Prelude.{
  text_lt_total, ℕ, ◌+◌, ◌≡◌, refl, sym, ap, ◌∙◌, inl, inr, true, false, ◌&&◌, some, List, [], ◌∷◌,
  map, arith, if◌then◌else◌, ◌==◌, eq_iff, nat_eq, text_eq, Bool-cases, if_both, length, filter,
  length-append, All, filter-append, Text, lit, is_empty, Dict, lookup, lookup-insert, value_or,
  All-sort_slice, IsSorted, IsOrder, sort_slice-IsSorted, text_lt-IsOrder,
}
use smtx_lab.Prelude.DictKeys.{All-lookup, IsDict, All-insert, insert-IsDict}
use smtx_lab.Analyzer.Iptables.Parsed.{empty_differs}
use smtx_lab.Analyzer.Iptables.Listed.{is_chain_of, is_summarized, is_summarized-chains_of}
use smtx_lab.Analyzer.Iptables.{extract_rule_chain}
use smtx_lab.Analyzer.Iptables.Chains.{
  chains_of, summarize_iptables, summary_of, chain_category, chain_less, IptablesChainSummary,
  is_rule_line, count_line, count_rules,
}

-- The rules of a chain in the dump, whatever their table.
abbrev pub tally : Text → List Text → ℕ
tally chain lines =
    length (filter (λ line. extract_rule_chain line == chain && is_rule_line line) lines)

value-count_line :
    (c line : Text) (counts : Dict Text ℕ)
    → is_empty c ≡ false
    → value_or 0 (lookup c (count_line line counts))
      ≡ value_or 0 (lookup c counts) + tally c (line ∷ [])
unfolding count_line filter
value-count_line c line counts named =
    let chain = extract_rule_chain line in
    let count = value_or 0 (lookup chain counts) in
    let next = if is_rule_line line then count + 1 else count in
    elim (Bool-cases (is_empty chain)) [
      | inl e ↦ rw (e, empty_differs chain c e named) (omega arith)
      | inr e ↦ elim (Bool-cases (chain == c)) [
        | inr d ↦ rw (e, lookup-insert chain c next counts, d) (omega arith)
        | inl d ↦ elim (Bool-cases (is_rule_line line)) [
          | inl r ↦ rw (e, lookup-insert chain c next counts, d, r, (eq_iff chain c).0 d) refl
          | inr r ↦
              rw (e, lookup-insert chain c next counts, d, r, (eq_iff chain c).0 d) (omega arith)
        ]
      ]
    ]

add_zero : (n : ℕ) → n + 0 ≡ n
add_zero n = omega arith

value-count_rules :
    (c : Text) (lines : List Text) (counts : Dict Text ℕ)
    → is_empty c ≡ false
    → value_or 0 (lookup c (count_rules lines counts))
      ≡ value_or 0 (lookup c counts) + tally c lines
unfolding count_rules filter
value-count_rules c [] counts named = sym (add_zero (value_or 0 (lookup c counts)))
value-count_rules c (line ∷ lines) counts named =
    let first = value-count_line c line counts named in
    let rest = value-count_rules c lines (count_line line counts) named in
    let split =
      ap length
        (filter-append (λ l. extract_rule_chain l == c && is_rule_line l) (line ∷ []) lines) in
    let adds =
      length-append (filter (λ l. extract_rule_chain l == c && is_rule_line l) (line ∷ []))
        (filter (λ l. extract_rule_chain l == c && is_rule_line l) lines) in
    omega arith

-- The keys of the counts are distinct names.
record IsCounts (counts : Dict Text ℕ) : Type 0 where
  distinct : IsDict counts
  named : All (λ entry. is_empty entry.0 ≡ false) counts

count_line-IsCounts :
    (line : Text) (counts : Dict Text ℕ) → IsCounts counts → IsCounts (count_line line counts)
unfolding count_line
count_line-IsCounts line counts h =
    let chain = extract_rule_chain line in
    let count = value_or 0 (lookup chain counts) in
    if_both IsCounts (is_empty chain) (λ e. h)
      (λ e. record {
        distinct =
            insert-IsDict chain (if is_rule_line line then count + 1 else count) counts h.distinct;
        named = All-insert (λ entry. is_empty entry.0 ≡ false) chain _ counts e h.named;
      })

count_rules-IsCounts :
    (lines : List Text) (counts : Dict Text ℕ)
    → IsCounts counts
    → IsCounts (count_rules lines counts)
unfolding count_rules
count_rules-IsCounts [] counts h = h
count_rules-IsCounts (line ∷ lines) counts h =
    count_rules-IsCounts lines (count_line line counts) (count_line-IsCounts line counts h)

zero_add : (n : ℕ) → 0 + n ≡ n
zero_add n = omega arith

tallied :
    (lines : List Text) (counts rest : Dict Text ℕ)
    → counts ≡ count_rules lines []
    → All (λ entry. lookup entry.0 counts ≡ some entry.1) rest
    → All (λ entry. is_empty entry.0 ≡ false) rest
    → All (λ entry. entry.1 ≡ tally entry.0 lines) rest
unfolding lookup
tallied lines counts [] e h k = tt
tallied lines counts ((chain, count) ∷ rest) e (found, h) (named, k) =
    let total = value-count_rules chain lines [] named in
    (
      ap (value_or 0) (sym found)
          ∙ ap (λ m. value_or 0 (lookup chain m)) e
          ∙ total
          ∙ zero_add (tally chain lines),
      tallied lines counts rest e h k,
    )

-- What a summary of a dump's chain is to be.
pub record IsSummary (lines : List Text) (category : Text) (s : IptablesChainSummary) : Type 0 where
  pub is_named : is_empty s.name ≡ false
  pub of_category : s.category ≡ category
  pub by_name : s.category ≡ chain_category s.name
  pub counted : s.rule_count ≡ tally s.name lines

chain_less_asym : (a b : IptablesChainSummary) → chain_less b a ≡ true → chain_less a b ≡ false
unfolding chain_less
chain_less_asym a b h =
    let by_category = text_lt-IsOrder.asym a.category b.category in
    let by_names = text_lt-IsOrder.asym a.name b.name in
    ground
      (arith, eq_iff a.category b.category, eq_iff b.category a.category, by_category, by_names)

chain_less_trans :
    (a b c : IptablesChainSummary)
    → chain_less b a ≡ false
    → chain_less c b ≡ false
    → chain_less c a ≡ false
unfolding chain_less
chain_less_trans a b c p q =
    let by_category = text_lt-IsOrder.trans a.category b.category c.category in
    let by_names = text_lt-IsOrder.trans a.name b.name c.name in
    let same = text_lt_total a.category b.category in
    ground (
      arith,
      eq_iff c.category b.category,
      eq_iff b.category a.category,
      eq_iff c.category a.category,
      by_category,
      by_names,
      same,
    )

pub chain_less-IsOrder : IsOrder chain_less
chain_less-IsOrder = record { asym = chain_less_asym; trans = chain_less_trans }

summaries :
    (lines : List Text) (category : Text) (counts : Dict Text ℕ)
    → All (λ entry. entry.1 ≡ tally entry.0 lines) counts
    → All (λ entry. is_empty entry.0 ≡ false) counts
    → All (IsSummary lines category) (filter (λ s. s.category == category) (map summary_of counts))
unfolding filter
summaries lines category [] h k = tt
summaries lines category ((chain, count) ∷ counts) (e, h) (named, k) =
    elim (Bool-cases (chain_category chain == category)) [
      | inr d ↦ rw d (summaries lines category counts h k)
      | inl d ↦ rw d (
        record {
          is_named = named;
          of_category = (eq_iff (chain_category chain) category).0 d;
          by_name = refl;
          counted = e;
        },
        summaries lines category counts h k,
      )
    ]

chains_of_lem :
    (lines : List Text) (category : Text)
    → All (IsSummary lines category) (chains_of category (count_rules lines []))
      × IsSorted chain_less (chains_of category (count_rules lines []))
unfolding chains_of
chains_of_lem lines category =
    let counts = count_rules lines [] in
    let well = count_rules-IsCounts lines [] (record { distinct = tt; named = tt }) in
    let counted = tallied lines counts counts refl (All-lookup counts well.distinct) well.named in
    (
      All-sort_slice chain_less (IsSummary lines category)
          (filter (λ s. s.category == category) (map summary_of counts))
          (summaries lines category counts counted well.named),
      sort_slice-IsSorted chain_less chain_less-IsOrder
          (filter (λ s. s.category == category) (map summary_of counts)),
    )

-- A list of the summaries of all chains of a category, sorted by name.
pub record IsSummaryOf (lines : List Text) (category chain : Text)
    (summaries : List IptablesChainSummary) : Type 0 where
  pub each : All (IsSummary lines category) summaries
  pub sorted : IsSorted chain_less summaries
  pub complete :
      is_summarized chain summaries ≡ (is_chain_of chain lines && chain_category chain == category)

-- `SummarizeIptables` returns two lists sorted by name, of the chains of pods and of the chains of
-- services. A chain is in a list just where some line of the dump declares it or is a rule of it and
-- its category is that of the list; its summary counts the lines of the dump that are rules of the
-- chain, in whatever table.
pub summarize_iptables-IsSummary :
    (lines : List Text) (chain : Text)
    → IsSummaryOf lines (lit "pod-forward") chain (summarize_iptables lines).0
      × IsSummaryOf lines (lit "service") chain (summarize_iptables lines).1
unfolding summarize_iptables
summarize_iptables-IsSummary lines chain =
    (summary_of_category (lit "pod-forward"), summary_of_category (lit "service"))
  where
    summary_of_category :
        (category : Text)
        → IsSummaryOf lines category chain (chains_of category (count_rules lines []))
    summary_of_category category = record {
      each = (chains_of_lem lines category).0;
      sorted = (chains_of_lem lines category).1;
      complete = is_summarized-chains_of chain category lines;
    }

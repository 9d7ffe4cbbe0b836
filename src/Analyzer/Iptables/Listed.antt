-- ===== src/Analyzer/Iptables/Listed.antt =====
-- Which chains of a dump `SummarizeIptables` lists.
use smtx_lab.Prelude.{
  ℕ, ◌+◌, ◌≡◌, refl, sym, ap, ◌∙◌, inl, inr, Bool, true, false, not, ◌&&◌, ◌||◌, List, [], ◌∷◌, map,
  arith, if◌then◌else◌, ◌==◌, eq_iff, nat_eq, text_eq, Bool-cases, filter, any, Text, is_empty,
  Dict, lookup, insert, value_or, any-sort_slice,
}
use smtx_lab.Analyzer.Iptables.Parsed.{empty_differs}
use smtx_lab.Analyzer.Iptables.{extract_rule_chain}
use smtx_lab.Analyzer.Iptables.Chains.{
  IptablesChainSummary, chain_category, chain_less, chains_of, count_line, count_rules,
  is_rule_line, summary_of,
}

-- Whether a line of the dump declares the chain or is a rule of it.
abbrev pub is_chain_of : Text → List Text → Bool
is_chain_of chain lines =
    not (is_empty chain) && any (λ line. extract_rule_chain line == chain) lines

-- Whether a summary of the chain is among these.
abbrev pub is_summarized : Text → List IptablesChainSummary → Bool
is_summarized chain summaries = any (λ s. s.name == chain) summaries

has_key : Text → Dict Text ℕ → Bool
has_key chain counts = any (λ entry. entry.0 == chain) counts

has_key-insert :
    (chain k : Text) (v : ℕ) (counts : Dict Text ℕ)
    → has_key chain (insert k v counts) ≡ (k == chain || has_key chain counts)
unfolding has_key any insert
has_key-insert chain k v [] = refl
has_key-insert chain k v ((j, w) ∷ counts) =
    ground (arith, has_key-insert chain k v counts, eq_iff j k, eq_iff k chain, eq_iff j chain)

has_key-count_line :
    (chain line : Text) (counts : Dict Text ℕ)
    → has_key chain (count_line line counts)
      ≡ (is_chain_of chain (line ∷ []) || has_key chain counts)
unfolding count_line any is_empty
has_key-count_line chain line counts =
    let name = extract_rule_chain line in
    elim (Bool-cases (is_empty name)) [
      | inl e ↦ elim (Bool-cases (is_empty chain)) [
        | inl q ↦ rw (e, q) refl
        | inr q ↦ rw (e, q, empty_differs name chain e q) refl
      ]
      | inr e ↦
          let added =
            has_key-insert chain name
              (if is_rule_line line
                then value_or 0 (lookup name counts) + 1
                else value_or 0 (lookup name counts))
              counts in
          elim (Bool-cases (name == chain)) [
            | inl q ↦
                let same : is_empty chain ≡ false =
                  ap is_empty (sym ((eq_iff name chain).0 q)) ∙ e in
                rw (e, added, q, same) refl
            | inr q ↦ rw (e, added, q) (ground arith)
          ]
    ]

has_key-count_rules :
    (chain : Text) (lines : List Text) (counts : Dict Text ℕ)
    → has_key chain (count_rules lines counts) ≡ (is_chain_of chain lines || has_key chain counts)
unfolding count_rules any
has_key-count_rules chain [] counts = ground arith
has_key-count_rules chain (line ∷ lines) counts = ground (
  arith,
  has_key-count_rules chain lines (count_line line counts),
  has_key-count_line chain line counts,
)

is_summarized-map :
    (chain category : Text) (counts : Dict Text ℕ)
    → is_summarized chain (filter (λ s. s.category == category) (map summary_of counts))
      ≡ (has_key chain counts && chain_category chain == category)
unfolding has_key any filter
is_summarized-map chain category [] = refl
is_summarized-map chain category ((k, n) ∷ counts) =
    let later = is_summarized-map chain category counts in
    elim (Bool-cases (k == chain)) [
      | inl q ↦
          let same : chain_category k ≡ chain_category chain =
            ap chain_category ((eq_iff k chain).0 q) in
          elim (Bool-cases (chain_category k == category)) [
            | inl e ↦ rw (← same, e, q) refl
            | inr e ↦ rw (e, later, ← same, e) (ground arith)
          ]
      | inr q ↦ elim (Bool-cases (chain_category k == category)) [
        | inl e ↦ rw (e, q) later
        | inr e ↦ rw (e, q) later
      ]
    ]

or_no_key : (chain : Text) (b : Bool) → (b || has_key chain []) ≡ b
unfolding has_key any
or_no_key chain true = refl
or_no_key chain false = refl

-- The chains that are listed for a category.
pub is_summarized-chains_of :
    (chain category : Text) (lines : List Text)
    → is_summarized chain (chains_of category (count_rules lines []))
      ≡ (is_chain_of chain lines && chain_category chain == category)
unfolding chains_of has_key
is_summarized-chains_of chain category lines =
    let counts = count_rules lines [] in
    any-sort_slice chain_less (λ s. s.name == chain)
      (filter (λ s. s.category == category) (map summary_of counts))
    ∙ (is_summarized-map chain category counts
        ∙ ap (λ b. b && chain_category chain == category)
            (has_key-count_rules chain lines [] ∙ or_no_key chain (is_chain_of chain lines)))

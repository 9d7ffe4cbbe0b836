-- ===== src/Analyzer/Iptables/Chains.antt =====
-- `chainCategory`, `chainPurpose` and `SummarizeIptables` of internal/analyzer/network.go.
use smtx_lab.Prelude.{
  ℕ, ◌+◌, Bool, ◌||◌, List, [], ◌∷◌, map, if◌then◌else◌, ◌==◌, nat_eq, text_eq, filter, Text, lit,
  text_lt, is_empty, Dict, lookup, insert, value_or, sort_slice,
}
use smtx_lab.Strings.{has_prefix, trim_space, to_lower, to_upper}
use smtx_lab.Analyzer.Iptables.{extract_rule_chain}

pub record IptablesChainSummary : Type 0 where
  pub name : Text
  pub category : Text
  pub rule_count : ℕ
  pub purpose : Text

unfoldable pub chain_category : Text → Text
chain_category chain =
    let lower = to_lower chain in
    let upper = to_upper chain in
    if has_prefix lower (lit "cali-")
    then lit "pod-forward"
    else if upper == lit "KUBE-FORWARD"
    then lit "pod-forward"
    else if has_prefix upper (lit "KUBE-SVC-")
        || has_prefix upper (lit "KUBE-SEP-")
        || has_prefix upper (lit "KUBE-EXT-")
    then lit "service"
    else if upper == lit "KUBE-SERVICES"
        || upper == lit "KUBE-NODEPORTS"
        || upper == lit "KUBE-EXTERNAL-SERVICES"
        || upper == lit "KUBE-MARK-MASQ"
        || upper == lit "KUBE-POSTROUTING"
    then lit "service"
    else []

-- The first purpose whose test passes.
unfoldable pub first_purpose : List (Bool × Text) → Text
first_purpose [] = lit "iptables datapath chain captured for correlation."
first_purpose ((test, purpose) ∷ cases) =
    let later = first_purpose cases in if test then purpose else later

unfoldable pub chain_purpose : Text → Text
chain_purpose chain =
    let lower = to_lower chain in
    let upper = to_upper chain in
    first_purpose (
      (lower == lit "cali-forward", lit "Calico policy and routing hook for forwarded pod traffic.")
      ∷ (
        lower == lit "cali-from-wl-dispatch",
        lit "Dispatches packets leaving workload interfaces to per-workload policy chains.",
      )
      ∷ (
        lower == lit "cali-to-wl-dispatch",
        lit "Dispatches packets entering workload interfaces to per-workload policy chains.",
      )
      ∷ (
        has_prefix lower (lit "cali-fw-"),
        lit "Calico from-workload policy chain for a workload endpoint.",
      )
      ∷ (
        has_prefix lower (lit "cali-tw-"),
        lit "Calico to-workload policy chain for a workload endpoint.",
      )
      ∷ (
        has_prefix lower (lit "cali-pri-") || has_prefix lower (lit "cali-pro-"),
        lit "Calico profile policy chain.",
      )
      ∷ (
        upper == lit "KUBE-FORWARD",
        lit "kube-proxy forwarding chain that permits service and pod forwarding paths.",
      )
      ∷ (upper == lit "KUBE-SERVICES", lit "kube-proxy service VIP entry chain.")
      ∷ (has_prefix upper (lit "KUBE-SVC-"), lit "kube-proxy per-Service load-balancing chain.")
      ∷ (has_prefix upper (lit "KUBE-SEP-"), lit "kube-proxy per-endpoint DNAT chain.")
      ∷ (has_prefix upper (lit "KUBE-EXT-"), lit "kube-proxy external traffic policy chain.")
      ∷ (upper == lit "KUBE-NODEPORTS", lit "kube-proxy NodePort dispatch chain.")
      ∷ (upper == lit "KUBE-EXTERNAL-SERVICES", lit "kube-proxy external service guard chain.")
      ∷ (
        upper == lit "KUBE-MARK-MASQ",
        lit "kube-proxy chain that marks packets requiring masquerade.",
      )
      ∷ (upper == lit "KUBE-POSTROUTING", lit "kube-proxy postrouting masquerade chain.")
      ∷ [])

abbrev pub is_rule_line : Text → Bool
is_rule_line line = has_prefix (trim_space line) (lit "-A ")

-- `counts` after one line.
unfoldable pub count_line : Text → Dict Text ℕ → Dict Text ℕ
count_line line counts =
    let chain = extract_rule_chain line in
    let count = value_or 0 (lookup chain counts) in
    if is_empty chain
    then counts
    else insert chain (if is_rule_line line then count + 1 else count) counts

unfoldable pub count_rules : List Text → Dict Text ℕ → Dict Text ℕ
count_rules [] counts = counts
count_rules (line ∷ lines) counts = count_rules lines (count_line line counts)

abbrev pub summary_of : Text × ℕ → IptablesChainSummary
summary_of (chain, count) = record {
  name = chain;
  category = chain_category chain;
  rule_count = count;
  purpose = chain_purpose chain;
}

-- The order of `sortChains`.
unfoldable pub chain_less : IptablesChainSummary → IptablesChainSummary → Bool
chain_less a b =
    if a.category == b.category then text_lt a.name b.name else text_lt a.category b.category

-- `sortChains` on the summaries of one category.
unfoldable pub chains_of : Text → Dict Text ℕ → List IptablesChainSummary
chains_of category counts =
    sort_slice chain_less (filter (λ summary. summary.category == category) (map summary_of counts))

unfoldable pub summarize_iptables :
    List Text → List IptablesChainSummary × List IptablesChainSummary
summarize_iptables lines =
    let counts = count_rules lines [] in
    (chains_of (lit "pod-forward") counts, chains_of (lit "service") counts)

-- ===== src/Analyzer/Iptables/Correlate/Distinct.antt =====
-- The lists of chains that `CorrelateDatapath` of internal/analyzer/network.go collects.
use smtx_lab.Prelude.{
  ◌≡◌, ◌≢◌, false, List, [], ◌∷◌, ◌++◌, arith, eq_iff, nat_eq, text_eq, if_both, any, All,
  All-append, Text, is_empty, contains, IsDistinct,
}
use smtx_lab.Agent.Types.{Snapshot}
use smtx_lab.Analyzer.Iptables.{TrafficObservation, extract_rule_chain}
use smtx_lab.Analyzer.Iptables.Chains.{IptablesChainSummary}
use smtx_lab.Analyzer.Iptables.Correlate.{
  append_new, is_relevant, relevant_from, append_names, correlate_datapath,
}

apart_of_contains : (xs : List Text) (a : Text) → contains xs a ≡ false → All (λ y. y ≢ a) xs
unfolding contains any
apart_of_contains [] a h = tt
apart_of_contains (x ∷ xs) a h =
    (λ q. ground (arith, eq_iff x a), apart_of_contains xs a (ground arith))

append-IsDistinct :
    (xs : List Text) (a : Text) → IsDistinct xs → All (λ y. y ≢ a) xs → IsDistinct (xs ++ a ∷ [])
append-IsDistinct [] a h k = (tt, tt)
append-IsDistinct (x ∷ xs) a (p, h) (q, k) =
    (All-append (λ y. x ≢ y) xs (a ∷ []) p (q, tt), append-IsDistinct xs a h k)

append_new-IsDistinct :
    (names : List Text) (name : Text) → IsDistinct names → IsDistinct (append_new names name)
unfolding append_new
append_new-IsDistinct names name h =
    if_both IsDistinct (contains names name) (λ e. h)
      (λ e. append-IsDistinct names name h (apart_of_contains names name e))

relevant_from-IsDistinct :
    (lines names : List Text) → IsDistinct names → IsDistinct (relevant_from lines names)
unfolding relevant_from
relevant_from-IsDistinct [] names h = h
relevant_from-IsDistinct (line ∷ lines) names h = relevant_from-IsDistinct lines _ (
    if_both IsDistinct (is_relevant line)
      (λ e.
        if_both IsDistinct (is_empty (extract_rule_chain line)) (λ d. h)
          (λ d. append_new-IsDistinct names _ h))
      (λ e. h))

append_names-IsDistinct :
    (chains : List IptablesChainSummary) (names : List Text)
    → IsDistinct names
    → IsDistinct (append_names chains names)
unfolding append_names
append_names-IsDistinct [] names h = h
append_names-IsDistinct (chain ∷ chains) names h =
    append_names-IsDistinct chains _ (append_new-IsDistinct names chain.name h)

-- No name stands twice in the relevant chains, in the chains of pods or in the chains of services that
-- `CorrelateDatapath` returns.
pub correlate_datapath-IsDistinct :
    (snapshot : Snapshot) (traffic : TrafficObservation)
    → IsDistinct (correlate_datapath snapshot traffic).relevant_chains
      × IsDistinct (correlate_datapath snapshot traffic).pod_forward_chains
      × IsDistinct (correlate_datapath snapshot traffic).service_chains
unfolding correlate_datapath
correlate_datapath-IsDistinct snapshot traffic = (
  relevant_from-IsDistinct snapshot.iptables.lines [] tt,
  append_names-IsDistinct _ [] tt,
  append_names-IsDistinct _ [] tt,
)

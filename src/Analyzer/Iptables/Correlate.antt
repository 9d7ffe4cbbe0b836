-- ===== src/Analyzer/Iptables/Correlate.antt =====
-- `CorrelateDatapath` of internal/analyzer/network.go.
use smtx_lab.Prelude.{
  Bool, not, ◌&&◌, List, [], ◌∷◌, ◌++◌, if◌then◌else◌, ◌==◌, nat_eq, text_eq, any, Text, lit,
  is_empty, contains,
}
pub mod Distinct
use smtx_lab.Strings.{contains_sub, to_lower, to_upper}
use smtx_lab.Agent.Types.{Snapshot}
use smtx_lab.Analyzer.Iptables.{TrafficObservation, extract_rule_chain}
use smtx_lab.Analyzer.Iptables.Chains.{IptablesChainSummary, summarize_iptables}
use smtx_lab.Analyzer.Iptables.Trace.{IptablesTraceStep, trace_source_iptables}

pub record DatapathCorrelation : Type 0 where
  pub cni : Text
  pub calico_overlay_mode : Text
  pub kube_proxy_mode : Text
  pub relevant_chains : List Text
  pub pod_forward_chains : List Text
  pub service_chains : List Text
  pub chain_path : List IptablesTraceStep
  pub conntrack_matched : Bool
  pub ipvs_matched : Bool

unfoldable pub infer_kube_proxy_mode : Snapshot → Text
infer_kube_proxy_mode snapshot =
    if snapshot.ipvs.enabled
    then lit "ipvs"
    else if snapshot.iptables.captured
    then lit "iptables"
    else if snapshot.cni.mode == lit "ebpf"
    then lit "ebpf"
    else lit "unknown"

unfoldable pub tuple_matches : Text → TrafficObservation → Bool
tuple_matches line traffic =
    let lower = to_lower line in
    not (not (is_empty traffic.protocol) && not (contains_sub lower (to_lower traffic.protocol)))
    && any (λ value. not (is_empty value) && contains_sub lower value)
        (traffic.source_ip ∷ traffic.target_ip ∷ traffic.service_ip ∷ [])

-- `if !contains(names, name) { names = append(names, name) }`
unfoldable pub append_new : List Text → Text → List Text
append_new names name = if contains names name then names else names ++ name ∷ []

unfoldable pub is_relevant : Text → Bool
is_relevant line =
    let upper = to_upper line in
    any (contains_sub upper)
      (lit "KUBE-" ∷ lit "CALI-" ∷ lit "CILIUM" ∷ lit "EVEROUTE" ∷ lit "FLANNEL" ∷ [])

unfoldable pub relevant_from : List Text → List Text → List Text
relevant_from [] names = names
relevant_from (line ∷ lines) names =
    let chain = extract_rule_chain line in
    relevant_from lines (
      if is_relevant line
      then (if is_empty chain then names else append_new names chain)
      else names)

unfoldable pub append_names : List IptablesChainSummary → List Text → List Text
append_names [] names = names
append_names (chain ∷ chains) names = append_names chains (append_new names chain.name)

unfoldable pub correlate_datapath : Snapshot → TrafficObservation → DatapathCorrelation
correlate_datapath snapshot traffic =
    let (pod_chains, service_chains) = summarize_iptables snapshot.iptables.lines in
    record {
      cni = snapshot.cni.type;
      calico_overlay_mode = snapshot.cni.overlay_mode;
      kube_proxy_mode = infer_kube_proxy_mode snapshot;
      relevant_chains = relevant_from snapshot.iptables.lines [];
      pod_forward_chains = append_names pod_chains [];
      service_chains = append_names service_chains [];
      chain_path = trace_source_iptables snapshot traffic;
      conntrack_matched = any (λ line. tuple_matches line traffic) snapshot.conntrack.lines;
      ipvs_matched =
          any (λ line. not (is_empty traffic.service_ip) && contains_sub line traffic.service_ip)
            snapshot.ipvs.lines;
    }

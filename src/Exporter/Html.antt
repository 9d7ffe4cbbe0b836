-- ===== src/Exporter/Html.antt =====
-- internal/exporter/html.go: the contents of the two HTML reports. The templates, which only place
-- them, and the time of the report are not modelled.
pub mod Flows
use smtx_lab.Prelude.{
  ℕ, ◌+◌, ◌-◌, ◌/◌, Bool, true, false, not, ◌&&◌, Option, none, some, List, [], ◌∷◌, ◌++◌, map, ltb,
  if◌then◌else◌, ◌==◌, nat_eq, text_eq, length, take, filter, Text, lit, text_lt, Dict, lookup,
  insert, value_or, sort_slice,
}
use smtx_lab.Prelude.Int.{ℤ, pos, ltb_ℤ, ◌+ℤ◌, ◌-ℤ◌, wrap64}
use smtx_lab.Strings.{join, equal_fold}
use smtx_lab.Api.Resource.{
  ContainerResourceValues, ResourceAnalyzerSummary, ResourceRecommendation, zero_values,
}
use smtx_lab.Api.Network.{NetworkProbeSummary, NetworkProbeResult, NetworkNodeResult, IptablesChain}
use smtx_lab.Controller.Checks.{sprint}

-- The first pair that differs decides; `tie` is for where none does.
unfoldable pub less_by : List (Text × Text) → Bool → Bool
less_by [] tie = tie
less_by ((left, right) ∷ pairs) tie =
    let rest = less_by pairs tie in if left == right then rest else text_lt left right

-- `podRecommendationRow`
pub record PodRecommendationRow : Type 0 where
  pub namespace : Text
  pub pod : Text
  pub containers : ℤ
  pub current : ContainerResourceValues
  pub recommended : ContainerResourceValues

unfoldable pub add_values :
    ContainerResourceValues → ContainerResourceValues → ContainerResourceValues
add_values total values = record {
  cpu_request_millicores = wrap64 (total.cpu_request_millicores +ℤ values.cpu_request_millicores);
  cpu_limit_millicores = wrap64 (total.cpu_limit_millicores +ℤ values.cpu_limit_millicores);
  memory_request_mib = wrap64 (total.memory_request_mib +ℤ values.memory_request_mib);
  memory_limit_mib = wrap64 (total.memory_limit_mib +ℤ values.memory_limit_mib);
}

unfoldable pub pod_key : ResourceRecommendation → Text
pod_key rec = rec.namespace ++ (lit "/" ++ rec.pod)

abbrev new_row : ResourceRecommendation → PodRecommendationRow
new_row rec = record {
  namespace = rec.namespace;
  pod = rec.pod;
  containers = pos 0;
  current = zero_values;
  recommended = zero_values;
}

-- The row with one more container.
unfoldable pub add_container : ResourceRecommendation → PodRecommendationRow → PodRecommendationRow
add_container rec row = record row {
  containers = wrap64 (row.containers +ℤ pos 1);
  current = add_values row.current rec.current;
  recommended = add_values row.recommended rec.recommended;
}

-- The loop that fills `byPod`.
unfoldable pub by_pod :
    List ResourceRecommendation → Dict Text PodRecommendationRow → Dict Text PodRecommendationRow
by_pod [] rows = rows
by_pod (rec ∷ recs) rows = by_pod recs (
    insert (pod_key rec) (add_container rec (value_or (new_row rec) (lookup (pod_key rec) rows)))
      rows)

abbrev row_less : PodRecommendationRow → PodRecommendationRow → Bool
row_less a b = less_by ((a.namespace, b.namespace) ∷ []) (text_lt a.pod b.pod)

unfoldable pub resource_pods : List ResourceRecommendation → List PodRecommendationRow
resource_pods recommendations =
    sort_slice row_less (map (λ entry. entry.1) (by_pod recommendations []))

unfoldable pub top_resource_deltas :
    List ResourceRecommendation → (ResourceRecommendation → ℤ) → List ResourceRecommendation
top_resource_deltas recommendations delta =
    take 8 (sort_slice (λ a b. ltb_ℤ (delta b) (delta a)) recommendations)

abbrev recommendation_less : ResourceRecommendation → ResourceRecommendation → Bool
recommendation_less a b =
    less_by ((a.namespace, b.namespace) ∷ (a.pod, b.pod) ∷ (a.container, b.container) ∷ []) false

-- `resourceHTMLReport`
pub record ResourceHtmlReport : Type 0 where
  pub lab_name : Text
  pub summary : ResourceAnalyzerSummary
  pub recommendations : List ResourceRecommendation
  pub pod_rows : List PodRecommendationRow
  pub top_cpu : List ResourceRecommendation
  pub top_memory : List ResourceRecommendation

unfoldable pub write_resource_html :
    Text → ResourceAnalyzerSummary → List ResourceRecommendation → ResourceHtmlReport
write_resource_html lab_name summary recs =
    let recommendations = sort_slice recommendation_less recs in
    record {
      lab_name = lab_name;
      summary = summary;
      recommendations = recommendations;
      pod_rows = resource_pods recommendations;
      top_cpu = top_resource_deltas recommendations λ rec.
          wrap64 (rec.current.cpu_request_millicores -ℤ rec.recommended.cpu_request_millicores);
      top_memory =
          top_resource_deltas recommendations
            λ rec. wrap64 (rec.current.memory_request_mib -ℤ rec.recommended.memory_request_mib);
    }

-- `passRate` apart, the functions of the templates that compute.
unfoldable pub positive_delta : ℤ → ℤ → ℤ
positive_delta current recommended =
    let delta = wrap64 (current -ℤ recommended) in if ltb_ℤ delta (pos 0) then pos 0 else delta

unfoldable pub chain_names : List IptablesChain → ℕ → Text
chain_names chains limit =
    let shown = map (λ chain. chain.name) (take limit chains) in
    let more = lit "+" ++ (sprint (pos (length chains - limit)) ++ lit " more") in
    join (if ltb limit (length chains) then shown ++ more ∷ [] else shown) (lit ", ")

unfoldable pub resource_id : ResourceRecommendation → Text
resource_id rec = rec.namespace ++ (lit "/" ++ (rec.pod ++ (lit "/" ++ rec.container)))

abbrev sum_over : {A : Type 0} → (A → ℕ) → List A → ℕ
sum_over size [] = 0
sum_over size (x ∷ xs) = size x + sum_over size xs

abbrev sum_conntrack : List NetworkNodeResult → ℤ
sum_conntrack [] = pos 0
sum_conntrack (node ∷ nodes) = node.conntrack.entries_matched +ℤ sum_conntrack nodes

-- `networkHTMLReport`
pub record NetworkHtmlReport (F : Type 0) : Type 0 where
  pub lab_name : Text
  pub summary : NetworkProbeSummary
  pub results : List (NetworkProbeResult F)
  pub failed_results : List (NetworkProbeResult F)
  pub pod_flows : List (NetworkProbeResult F)
  pub service_flows : List (NetworkProbeResult F)
  pub nodes : List NetworkNodeResult
  pub total_pod_chains : ℕ
  pub total_service_chains : ℕ
  pub total_conntrack : ℤ

module _ {F : Type 0} where
  unfoldable pub topology_key : NetworkProbeResult F → Text
  topology_key result =
      join
        (result.source_node ∷ result.target_node ∷ result.target_pod_ip ∷ result.target_service
          ∷ result.service_ip ∷ [])
        (lit "|")

  abbrev is_tcp : NetworkProbeResult F → Bool
  is_tcp result = equal_fold result.protocol (lit "TCP")

  -- Whether the flow replaces what is kept for its topology.
  unfoldable pub replaces : NetworkProbeResult F → Option (NetworkProbeResult F) → Bool
  replaces result none = true
  replaces result (some existing) = not (is_tcp existing) && is_tcp result

  unfoldable pub by_topology :
      List (NetworkProbeResult F)
      → Text
      → Dict Text (NetworkProbeResult F)
      → Dict Text (NetworkProbeResult F)
  by_topology [] path flows = flows
  by_topology (result ∷ results) path flows =
      let key = topology_key result in
      by_topology results path (
        if result.path == path && replaces result (lookup key flows)
        then insert key result flows
        else flows)

  abbrev flow_less : NetworkProbeResult F → NetworkProbeResult F → Bool
  flow_less a b =
      less_by ((a.source_node, b.source_node) ∷ [])
        (text_lt (a.target_node ++ a.target_service) (b.target_node ++ b.target_service))

  unfoldable pub representative_network_flows :
      List (NetworkProbeResult F) → Text → List (NetworkProbeResult F)
  representative_network_flows results path =
      sort_slice flow_less (map (λ entry. entry.1) (by_topology results path []))

  abbrev result_less : NetworkProbeResult F → NetworkProbeResult F → Bool
  result_less a b =
      less_by
        ((a.source_node, b.source_node)
          ∷ (a.path, b.path)
          ∷ (a.protocol, b.protocol)
          ∷ (a.target_pod ++ a.target_service, b.target_pod ++ b.target_service)
          ∷ [])
        (ltb_ℤ a.port b.port)

  unfoldable pub write_network_html :
      Text
      → NetworkProbeSummary
      → List (NetworkProbeResult F)
      → List NetworkNodeResult
      → NetworkHtmlReport F
  write_network_html lab_name summary all_results all_nodes =
      let results = sort_slice result_less all_results in
      let nodes = sort_slice (λ a b. text_lt a.node_name b.node_name) all_nodes in
      record {
        lab_name = lab_name;
        summary = summary;
        results = results;
        failed_results = filter (λ result. not result.success) results;
        pod_flows = representative_network_flows results (lit "podIP");
        service_flows = representative_network_flows results (lit "serviceVIP");
        nodes = nodes;
        total_pod_chains = sum_over (λ node. length node.iptables.pod_chains) nodes;
        total_service_chains = sum_over (λ node. length node.iptables.service_chains) nodes;
        total_conntrack = sum_conntrack nodes;
      }

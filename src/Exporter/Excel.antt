-- ===== src/Exporter/Excel.antt =====
-- internal/exporter/excel.go: the sheets with their rows of cells. The library that writes the file is
-- not modelled, nor are widths, panes and filters.
use smtx_lab.Prelude.{Bool, List, [], ◌∷◌, ◌++◌, map, nat_eq, text_eq, length, Text, lit}
use smtx_lab.Prelude.Int.{ℤ, pos, ◌+ℤ◌, ◌-ℤ◌, wrap64}
use smtx_lab.Strings.{join}
use smtx_lab.Api.Resource.{ResourceRecommendation}
use smtx_lab.Api.Network.{NetworkProbeResult, NetworkNodeResult, IptablesChain}
use smtx_lab.Controller.Checks.{for_each}

-- The values that a cell is set to.
pub data Cell (F : Type 0) : Type 0 where
  text : Text → Cell F
  number : ℤ → Cell F
  flag : Bool → Cell F
  float : F → Cell F

pub record Sheet (F : Type 0) : Type 0 where
  pub name : Text
  pub rows : List (List (Cell F))

unfoldable pub recommendation_headers : List Text
recommendation_headers =
    lit "Namespace"
    ∷ lit "Workload Kind"
    ∷ lit "Workload Name"
    ∷ lit "Pod"
    ∷ lit "Container"
    ∷ lit "Language"
    ∷ lit "Current CPU Request (m)"
    ∷ lit "Current CPU Limit (m)"
    ∷ lit "Current Memory Request (MiB)"
    ∷ lit "Current Memory Limit (MiB)"
    ∷ lit "Current CPU Usage (m)"
    ∷ lit "Current Memory Usage (MiB)"
    ∷ lit "7d CPU Min (m)"
    ∷ lit "7d CPU Avg (m)"
    ∷ lit "7d CPU Max (m)"
    ∷ lit "7d Memory Min (MiB)"
    ∷ lit "7d Memory Avg (MiB)"
    ∷ lit "7d Memory Max (MiB)"
    ∷ lit "14d CPU Min (m)"
    ∷ lit "14d CPU Avg (m)"
    ∷ lit "14d CPU Max (m)"
    ∷ lit "14d Memory Min (MiB)"
    ∷ lit "14d Memory Avg (MiB)"
    ∷ lit "14d Memory Max (MiB)"
    ∷ lit "CPU p50 (m)"
    ∷ lit "CPU p95 (m)"
    ∷ lit "CPU p99 (m)"
    ∷ lit "Memory p50 (MiB)"
    ∷ lit "Memory p95 (MiB)"
    ∷ lit "Memory p99 (MiB)"
    ∷ lit "Recommended CPU Request (m)"
    ∷ lit "Recommended CPU Limit (m)"
    ∷ lit "Recommended Memory Request (MiB)"
    ∷ lit "Recommended Memory Limit (MiB)"
    ∷ lit "Reason"
    ∷ []

-- The totals of the summary sheet, in `int64`.
unfoldable pub total_deltas : List ResourceRecommendation → ℤ × ℤ → ℤ × ℤ
total_deltas [] totals = totals
total_deltas (rec ∷ recs) (cpu, memory) = total_deltas recs (
  wrap64 (
      cpu +ℤ wrap64 (rec.current.cpu_request_millicores -ℤ rec.recommended.cpu_request_millicores)),
  wrap64 (memory +ℤ wrap64 (rec.current.memory_request_mib -ℤ rec.recommended.memory_request_mib)),
)

unfoldable pub test_headers : List Text
test_headers =
    lit "Source Pod"
    ∷ lit "Source Pod IP"
    ∷ lit "Source Node"
    ∷ lit "Source Node IP"
    ∷ lit "Target Pod"
    ∷ lit "Target Pod IP"
    ∷ lit "Target Node"
    ∷ lit "Target Node IP"
    ∷ lit "Target Service"
    ∷ lit "Service IP"
    ∷ lit "Protocol"
    ∷ lit "Port"
    ∷ lit "Path"
    ∷ lit "Success"
    ∷ lit "Error"
    ∷ lit "Latency p50 ms"
    ∷ lit "Latency p95 ms"
    ∷ lit "CNI"
    ∷ lit "Calico Overlay Mode"
    ∷ lit "Kube Proxy Mode"
    ∷ lit "Pod Forward Chains"
    ∷ lit "Service Chains"
    ∷ lit "Relevant Chains"
    ∷ lit "Conntrack Matched"
    ∷ []

-- `fmt.Sprintf("%v", names)`
abbrev sprint_names : List Text → Text
sprint_names names = lit "[" ++ (join names (lit " ") ++ lit "]")

abbrev newline : Text
newline = 10 ∷ []

unfoldable pub node_headers : List Text
node_headers =
    lit "Node"
    ∷ lit "CNI"
    ∷ lit "CNI Mode"
    ∷ lit "Calico Overlay Mode"
    ∷ lit "Calico IPIP Interface"
    ∷ lit "Calico VXLAN Interface"
    ∷ lit "Calico Workload Interfaces"
    ∷ lit "Calico Config Hints"
    ∷ lit "iptables Captured"
    ∷ lit "iptables Chains"
    ∷ lit "Pod Forward Chain Count"
    ∷ lit "Service Chain Count"
    ∷ lit "IPVS Enabled"
    ∷ lit "IPVS Services"
    ∷ lit "Conntrack Captured"
    ∷ lit "Conntrack Matches"
    ∷ []

module _ {F : Type 0} where
  abbrev header_row : List Text → List (Cell F)
  header_row headers = map text headers

  unfoldable pub recommendation_row : ResourceRecommendation → List (Cell F)
  recommendation_row rec =
      text rec.namespace
        ∷ text rec.workload_kind
        ∷ text rec.workload_name
        ∷ text rec.pod
        ∷ text rec.container
        ∷ text rec.language
        ∷ map number (
            rec.current.cpu_request_millicores ∷ rec.current.cpu_limit_millicores
            ∷ rec.current.memory_request_mib ∷ rec.current.memory_limit_mib
            ∷ rec.usage.current.cpu_max_millicores ∷ rec.usage.current.memory_max_mib
            ∷ rec.usage.last_7d.cpu_min_millicores ∷ rec.usage.last_7d.cpu_avg_millicores
            ∷ rec.usage.last_7d.cpu_max_millicores ∷ rec.usage.last_7d.memory_min_mib
            ∷ rec.usage.last_7d.memory_avg_mib ∷ rec.usage.last_7d.memory_max_mib
            ∷ rec.usage.last_14d.cpu_min_millicores ∷ rec.usage.last_14d.cpu_avg_millicores
            ∷ rec.usage.last_14d.cpu_max_millicores ∷ rec.usage.last_14d.memory_min_mib
            ∷ rec.usage.last_14d.memory_avg_mib ∷ rec.usage.last_14d.memory_max_mib
            ∷ rec.observed.cpu_p50_millicores ∷ rec.observed.cpu_p95_millicores
            ∷ rec.observed.cpu_p99_millicores ∷ rec.observed.memory_p50_mib
            ∷ rec.observed.memory_p95_mib ∷ rec.observed.memory_p99_mib
            ∷ rec.recommended.cpu_request_millicores ∷ rec.recommended.cpu_limit_millicores
            ∷ rec.recommended.memory_request_mib ∷ rec.recommended.memory_limit_mib ∷ [])
      ++ text rec.reason ∷ []

  unfoldable pub add_summary_sheet : List ResourceRecommendation → Sheet F
  add_summary_sheet recommendations =
      let (cpu, memory) = total_deltas recommendations (pos 0, pos 0) in
      record {
        name = lit "Summary";
        rows =
            (text (lit "Metric") ∷ text (lit "Value") ∷ [])
            ∷ (text (lit "Containers") ∷ number (pos (length recommendations)) ∷ [])
            ∷ (text (lit "Potential CPU request reduction (m)") ∷ number cpu ∷ [])
            ∷ (text (lit "Potential memory request reduction (MiB)") ∷ number memory ∷ [])
            ∷ [];
      }

  unfoldable pub write_resource_recommendations : List ResourceRecommendation → List (Sheet F)
  write_resource_recommendations recommendations =
      record {
        name = lit "Resource Recommendations";
        rows = header_row recommendation_headers ∷ map recommendation_row recommendations;
      }
      ∷ add_summary_sheet recommendations
      ∷ []

  unfoldable pub test_row : NetworkProbeResult F → List (Cell F)
  test_row result =
      map text (
        result.source_pod ∷ result.source_pod_ip ∷ result.source_node ∷ result.source_node_ip
        ∷ result.target_pod ∷ result.target_pod_ip ∷ result.target_node ∷ result.target_node_ip
        ∷ result.target_service ∷ result.service_ip ∷ result.protocol ∷ [])
      ++ (number result.port
          ∷ text result.path
          ∷ flag result.success
          ∷ text result.error
          ∷ float result.latency_ms_p50
          ∷ float result.latency_ms_p95
          ∷ text result.datapath.cni
          ∷ text result.datapath.calico_overlay_mode
          ∷ text result.datapath.kube_proxy_mode
          ∷ text (join result.datapath.pod_forward_chains newline)
          ∷ text (join result.datapath.service_chains newline)
          ∷ text (sprint_names result.datapath.relevant_chains)
          ∷ flag result.datapath.conntrack_matched
          ∷ [])

  unfoldable pub node_row : NetworkNodeResult → List (Cell F)
  node_row node =
      text node.node_name
      ∷ text node.cni.type
      ∷ text node.cni.mode
      ∷ text node.cni.overlay_mode
      ∷ text node.cni.calico.ipip_interface
      ∷ text node.cni.calico.vxlan_interface
      ∷ text (join node.cni.calico.workload_interface newline)
      ∷ text (join node.cni.calico.config_hints newline)
      ∷ flag node.iptables.captured
      ∷ number node.iptables.chain_count
      ∷ number (pos (length node.iptables.pod_chains))
      ∷ number (pos (length node.iptables.service_chains))
      ∷ flag node.ipvs.enabled
      ∷ number node.ipvs.service_count
      ∷ flag node.conntrack.captured
      ∷ number node.conntrack.entries_matched
      ∷ []

  -- One row for each chain of each node.
  unfoldable pub chain_rows :
      (NetworkNodeResult → List IptablesChain) → List NetworkNodeResult → List (List (Cell F))
  chain_rows chains_for nodes = for_each nodes λ node.
      map
        (λ chain.
          text node.node_name
          ∷ text chain.name
          ∷ text chain.category
          ∷ number chain.rule_count
          ∷ text chain.purpose
          ∷ [])
        (chains_for node)

  unfoldable pub add_iptables_chain_sheet :
      Text → List NetworkNodeResult → (NetworkNodeResult → List IptablesChain) → Sheet F
  add_iptables_chain_sheet sheet nodes chains_for = record {
    name = sheet;
    rows =
        header_row
          (lit "Node" ∷ lit "Chain" ∷ lit "Category" ∷ lit "Rule Count" ∷ lit "Purpose" ∷ [])
        ∷ chain_rows chains_for nodes;
  }

  unfoldable pub write_network_results :
      List (NetworkProbeResult F) → List NetworkNodeResult → List (Sheet F)
  write_network_results results nodes =
      record { name = lit "Network Tests"; rows = header_row test_headers ∷ map test_row results }
      ∷ record { name = lit "Datapath"; rows = header_row node_headers ∷ map node_row nodes }
      ∷ add_iptables_chain_sheet (lit "Pod Forward Chains") nodes (λ node. node.iptables.pod_chains)
      ∷ add_iptables_chain_sheet (lit "Service Chains") nodes (λ node. node.iptables.service_chains)
      ∷ []

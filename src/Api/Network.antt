-- ===== src/Api/Network.antt =====
-- api/v1alpha1/networkprobelab_types.go and the phases of common_types.go: the types that the
-- controller of NetworkProbeLab reads and writes. `F` is `float64`; `int32` and `int64` are integers.
use smtx_lab.Prelude.{Bool, List, nat_eq, text_eq, Text}
use smtx_lab.Prelude.Int.{ℤ}

-- `LabPhase`
pub data LabPhase : Type 0 where
  pending : LabPhase
  running : LabPhase
  succeeded : LabPhase
  failed : LabPhase

pub record NetworkProbeTrafficSpec : Type 0 where
  pub protocols : List Text
  pub ports : List ℤ
  pub count : ℤ
  pub timeout_seconds : ℤ
  pub concurrency : ℤ
  pub cross_node_only : Bool
  pub include_service_vip : Bool
  pub include_pod_ip : Bool
  pub include_dns : Bool

pub record ConntrackFilterSpec : Type 0 where
  pub protocols : List Text
  pub max_entries : ℤ

pub record NetworkObservabilitySpec : Type 0 where
  pub collect_cni : Bool
  pub collect_iptables : Bool
  pub collect_ipvs : Bool
  pub collect_conntrack : Bool
  pub collect_routes : Bool
  pub chain_allowlist : List Text
  pub conntrack_filter : ConntrackFilterSpec

pub record NetworkProbeSummary : Type 0 where
  pub total_tests : ℤ
  pub succeeded : ℤ
  pub failed : ℤ
  pub cni_detected : List Text
  pub datapath_modes : List Text
  pub calico_overlay_modes : List Text

pub record CalicoStatus : Type 0 where
  pub overlay_mode : Text
  pub ipip_interface : Text
  pub vxlan_interface : Text
  pub workload_interface : List Text
  pub config_hints : List Text

pub record CniStatus : Type 0 where
  pub type : Text
  pub version : Text
  pub mode : Text
  pub overlay_mode : Text
  pub calico : CalicoStatus

pub record SnapshotReference : Type 0 where
  pub kind : Text
  pub name : Text

pub record IptablesChain : Type 0 where
  pub name : Text
  pub category : Text
  pub rule_count : ℤ
  pub purpose : Text

pub record IptablesStatus : Type 0 where
  pub captured : Bool
  pub chain_count : ℤ
  pub snapshot_ref : SnapshotReference
  pub pod_chains : List IptablesChain
  pub service_chains : List IptablesChain

pub record IpvsStatus : Type 0 where
  pub enabled : Bool
  pub service_count : ℤ
  pub real_server_count : ℤ

pub record ConntrackStatus : Type 0 where
  pub captured : Bool
  pub entries_matched : ℤ

pub record NetworkNodeResult : Type 0 where
  pub node_name : Text
  pub cni : CniStatus
  pub iptables : IptablesStatus
  pub ipvs : IpvsStatus
  pub conntrack : ConntrackStatus

pub record IptablesTraceStep : Type 0 where
  pub order : ℤ
  pub node : Text
  pub stage : Text
  pub table : Text
  pub chain : Text
  pub action : Text
  pub purpose : Text

pub record DatapathSummary : Type 0 where
  pub cni : Text
  pub calico_overlay_mode : Text
  pub kube_proxy_mode : Text
  pub relevant_chains : List Text
  pub pod_forward_chains : List Text
  pub service_chains : List Text
  pub chain_path : List IptablesTraceStep
  pub service_endpoint_source : Text
  pub conntrack_matched : Bool

pub record NetworkProbeResult (F : Type 0) : Type 0 where
  pub source_pod : Text
  pub source_pod_ip : Text
  pub source_node : Text
  pub source_node_ip : Text
  pub target_pod : Text
  pub target_pod_ip : Text
  pub target_node : Text
  pub target_node_ip : Text
  pub target_service : Text
  pub service_ip : Text
  pub protocol : Text
  pub port : ℤ
  pub path : Text
  pub success : Bool
  pub error : Text
  pub latency_ms_p50 : F
  pub latency_ms_p95 : F
  pub datapath : DatapathSummary

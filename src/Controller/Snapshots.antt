-- ===== src/Controller/Snapshots.antt =====
-- The snapshots of internal/controller/networkprobelab_controller.go: the request to the agents, what
-- the status tells of a snapshot, and the cut that fits it into a ConfigMap.
pub mod Request
pub mod Truncated
use smtx_lab.Prelude.{
  ℕ, ◌+◌, ◌-◌, ◌*◌, ◌/◌, Bool, true, false, not, ◌||◌, Option, none, some, List, [], ◌∷◌, ◌++◌, map,
  leb, if◌then◌else◌, ◌==◌, nat_eq, text_eq, length, take, filter, Text, lit, text_lt, is_empty,
  add_key, sort_slice,
}
use smtx_lab.Prelude.Int.{pos, wrap32}
use smtx_lab.Agent.Types.{Snapshot, SnapshotRequest, CommandSnapshot}
use smtx_lab.Api.Network.{
  NetworkObservabilitySpec, NetworkNodeResult, IptablesChain, SnapshotReference, NetworkProbeResult,
  IptablesTraceStep,
}
use smtx_lab.Analyzer.Iptables.Chains.{IptablesChainSummary, summarize_iptables}
use smtx_lab.Analyzer.Iptables.Trace
use smtx_lab.Controller.Checks.{sprint}

unfoldable pub snapshot_request_from_spec : NetworkObservabilitySpec → SnapshotRequest
snapshot_request_from_spec spec =
    let any_set =
      spec.collect_cni || spec.collect_iptables || spec.collect_ipvs || spec.collect_conntrack
      || spec.collect_routes in
    record {
      collect_cni = spec.collect_cni || not any_set;
      collect_iptables = spec.collect_iptables || not any_set;
      collect_ipvs = spec.collect_ipvs || not any_set;
      collect_conntrack = spec.collect_conntrack || not any_set;
      collect_routes = spec.collect_routes || not any_set;
      chain_allowlist = spec.chain_allowlist;
      conntrack_filter = record {
        protocols = spec.conntrack_filter.protocols;
        max_entries = spec.conntrack_filter.max_entries;
      };
    }

abbrev to_api_chain : IptablesChainSummary → IptablesChain
to_api_chain chain = record {
  name = chain.name;
  category = chain.category;
  rule_count = wrap32 (pos chain.rule_count);
  purpose = chain.purpose;
}

unfoldable pub to_api_chains : List IptablesChainSummary → List IptablesChain
to_api_chains chains = map to_api_chain chains

-- The steps numbered from `start_order`.
unfoldable pub to_api_trace_steps : Text → List Trace.IptablesTraceStep → ℕ → List IptablesTraceStep
to_api_trace_steps node [] start_order = []
to_api_trace_steps node (step ∷ steps) start_order =
    (record {
      order = wrap32 (pos start_order);
      node = node;
      stage = step.stage;
      table = step.table;
      chain = step.chain;
      action = step.action;
      purpose = step.purpose;
    })
    ∷ to_api_trace_steps node steps (start_order + 1)

abbrev snapshot_ref_of : Text → SnapshotReference
snapshot_ref_of name =
    if is_empty name
    then record { kind = []; name = [] }
    else record { kind = lit "ConfigMap"; name = name }

unfoldable pub snapshot_to_node_result : Snapshot → Text → NetworkNodeResult
snapshot_to_node_result snapshot config_map_name =
    let (pod_chains, service_chains) = summarize_iptables snapshot.iptables.lines in
    record {
      node_name = snapshot.node_name;
      cni = record {
        type = snapshot.cni.type;
        version = [];
        mode = snapshot.cni.mode;
        overlay_mode = snapshot.cni.overlay_mode;
        calico = record {
          overlay_mode = snapshot.cni.calico.overlay_mode;
          ipip_interface = snapshot.cni.calico.ipip_interface;
          vxlan_interface = snapshot.cni.calico.vxlan_interface;
          workload_interface = snapshot.cni.calico.workload_interfaces;
          config_hints = snapshot.cni.calico.config_hints;
        };
      };
      iptables = record {
        captured = snapshot.iptables.captured;
        chain_count = wrap32 (pos snapshot.iptables.line_count);
        snapshot_ref = snapshot_ref_of config_map_name;
        pod_chains = to_api_chains pod_chains;
        service_chains = to_api_chains service_chains;
      };
      ipvs = record {
        enabled = snapshot.ipvs.enabled;
        service_count = wrap32 (pos snapshot.ipvs.service_count);
        real_server_count = wrap32 (pos snapshot.ipvs.real_server_count);
      };
      conntrack = record {
        captured = snapshot.conntrack.captured;
        entries_matched = wrap32 (pos snapshot.conntrack.line_count);
      };
    }

abbrev pub truncation_note : ℕ → Text
truncation_note count = lit "... truncated " ++ (sprint (pos count) ++ lit " additional lines")

unfoldable pub truncate_lines : List Text → ℕ → List Text
truncate_lines lines max_lines =
    if leb (length lines) max_lines
    then lines
    else take max_lines lines ++ truncation_note (length lines - max_lines) ∷ []

unfoldable pub truncate_command_snapshot : CommandSnapshot → ℕ → CommandSnapshot
truncate_command_snapshot snapshot max_lines =
    let lines = truncate_lines snapshot.lines max_lines in
    record snapshot { lines = lines; line_count = length lines; truncated = true }

unfoldable pub truncate_snapshot : Snapshot → ℕ → Snapshot
truncate_snapshot snapshot max_lines =
    let ipvs = snapshot.ipvs in
    let cni = snapshot.cni in
    record snapshot {
      errors =
          snapshot.errors ++ lit "snapshot artifact truncated to fit ConfigMap size budget" ∷ [];
      iptables = truncate_command_snapshot snapshot.iptables max_lines;
      conntrack = truncate_command_snapshot snapshot.conntrack max_lines;
      ipvs = record ipvs { lines = truncate_lines snapshot.ipvs.lines max_lines };
      cni = record cni { detection_log = truncate_lines snapshot.cni.detection_log max_lines };
    }

-- `encodeSnapshot`, with the compression as a parameter that may fail.
unfoldable pub encode_snapshot : (Snapshot → Option Text) → Snapshot → Option (Text × Bool)
encode_snapshot gzip_json snapshot = elim (gzip_json snapshot) [
  | none ↦ none
  | some payload ↦
      if leb (length payload) (900 * 1024)
      then some (payload, false)
      else elim (gzip_json (truncate_snapshot snapshot 500)) [
        | none ↦ none
        | some smaller ↦ some (smaller, true)
      ]
]

-- `sortedKeys` of the set that a loop collects: the names that are not empty.
unfoldable pub add_names : List Text → List Text → List Text
add_names [] seen = seen
add_names (name ∷ names) seen = add_names names (if is_empty name then seen else add_key seen name)

unfoldable pub sorted_keys : List Text → List Text
sorted_keys names = sort_slice text_lt (add_names names [])

unfoldable pub unique_cni : List NetworkNodeResult → List Text
unique_cni nodes = sorted_keys (map (λ node. node.cni.type) nodes)

unfoldable pub unique_calico_overlay_modes : List NetworkNodeResult → List Text
unique_calico_overlay_modes nodes =
    sorted_keys
      (map (λ node. node.cni.overlay_mode) (filter (λ node. node.cni.type == lit "calico") nodes))

unfoldable pub unique_datapath_modes : {F : Type 0} → List (NetworkProbeResult F) → List Text
unique_datapath_modes results = sorted_keys (map (λ r. r.datapath.kube_proxy_mode) results)

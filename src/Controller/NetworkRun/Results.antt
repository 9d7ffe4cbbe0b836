-- ===== src/Controller/NetworkRun/Results.antt =====
-- The probe results that `runNetworkProbe` of internal/controller/networkprobelab_controller.go makes
-- of the reports.
use smtx_lab.Prelude.{
  ◌+◌, Bool, false, not, ◌&&◌, Option, none, some, List, [], ◌∷◌, ◌++◌, eqb, if◌then◌else◌, ◌==◌,
  nat_eq, text_eq, length, Text, lit, is_empty, Dict, lookup, value_or,
}
use smtx_lab.Agent.Types.{Snapshot}
use smtx_lab.Api.Network.{NetworkProbeResult, DatapathSummary, IptablesTraceStep}
use smtx_lab.Analyzer.Iptables.{TrafficObservation}
use smtx_lab.Analyzer.Iptables.Trace.{trace_target_iptables}
use smtx_lab.Analyzer.Iptables.Correlate.{correlate_datapath}
use smtx_lab.Probe.{CheckResult}
use smtx_lab.Controller.Client.{has_labels}
use smtx_lab.Controller.Checks.{Pod, Service}
use smtx_lab.Controller.Naming.{probe_job_name}
use smtx_lab.Controller.Snapshots.{to_api_trace_steps}

-- `strings.SplitN(ref, "/", 2)`, where it has two parts.
unfoldable pub split_ref : Text → Option (Text × Text)
split_ref [] = none
split_ref (c ∷ ref) =
    let rest = split_ref ref in
    if eqb c b'/'
    then some ([], ref)
    else elim rest [ none ↦ none | some (namespace, name) ↦ some (c ∷ namespace, name) ]

unfoldable pub find_service : Text → Text → List Service → Option Service
find_service namespace name [] = none
find_service namespace name (service ∷ services) =
    let rest = find_service namespace name services in
    if service.namespace == namespace && service.name == name then some service else rest

abbrev is_backend : Service → Pod → Bool
is_backend service pod =
    pod.namespace == service.namespace && has_labels service.selector pod.labels

-- The loop over the pods: the first backend on another node, or else the first backend.
unfoldable pub find_backend : Service → Text → List Pod → Option Pod → Option Pod
find_backend service source_node [] fallback = fallback
find_backend service source_node (pod ∷ pods) fallback =
    let first : Option Pod = elim fallback [ none ↦ some pod | some p ↦ some p ] in
    let skipped = find_backend service source_node pods fallback in
    let passed = find_backend service source_node pods first in
    if not (is_backend service pod)
    then skipped
    else if not (pod.node_name == source_node)
    then some pod
    else passed

abbrev backend_of : Text → List Pod → Option Service → Option Pod
backend_of source_node pods none = none
backend_of source_node pods (some service) =
    if is_empty service.selector then none else find_backend service source_node pods none

unfoldable pub correlated_service_backend : Text → Text → List Pod → List Service → Option Pod
correlated_service_backend service_ref source_node pods services = elim (split_ref service_ref) [
  | none ↦ none
  | some (namespace, name) ↦ backend_of source_node pods (find_service namespace name services)
]

abbrev default_string : Text → Text → Text
default_string value fallback = if is_empty value then fallback else value

abbrev no_datapath : DatapathSummary
no_datapath = record {
  cni = [];
  calico_overlay_mode = [];
  kube_proxy_mode = [];
  relevant_chains = [];
  pod_forward_chains = [];
  service_chains = [];
  chain_path = [];
  service_endpoint_source = [];
  conntrack_matched = false;
}

abbrev ip_of : Dict Text Text → Text → Text
ip_of node_ips node = value_or [] (lookup node node_ips)

module _ {F : Type 0} (lab_name : Text) (pods : List Pod) (services : List Service)
    (node_ips : Dict Text Text) (snapshots : Dict Text Snapshot) where
  unfoldable pub probe_result_from_report : CheckResult F → NetworkProbeResult F
  probe_result_from_report item = record {
    source_pod =
        default_string item.source_pod (lit "job/" ++ probe_job_name lab_name item.source_node);
    source_pod_ip = item.source_ip;
    source_node = item.source_node;
    source_node_ip = ip_of node_ips item.source_node;
    target_pod = item.target_pod;
    target_pod_ip = item.target_ip;
    target_node = item.target_node;
    target_node_ip = ip_of node_ips item.target_node;
    target_service = item.target_service;
    service_ip = item.service_ip;
    protocol = item.protocol;
    port = item.port;
    path = item.path;
    success = item.success;
    error = item.error;
    latency_ms_p50 = item.latency_ms_p50;
    latency_ms_p95 = item.latency_ms_p95;
    datapath = no_datapath;
  }

  -- The backend of a service that the check went to, where the target is not known.
  abbrev endpoint_for : CheckResult F → Option Pod
  endpoint_for item =
      if not (is_empty item.target_service) && is_empty item.target_ip
      then correlated_service_backend item.target_service item.source_node pods services
      else none

  unfoldable pub with_endpoint : Option Pod → NetworkProbeResult F → NetworkProbeResult F × Text
  with_endpoint none result = (result, [])
  with_endpoint (some backend) result = (
    record result {
      target_pod = backend.namespace ++ (lit "/" ++ backend.name);
      target_pod_ip = backend.pod_ip;
      target_node = backend.node_name;
      target_node_ip = ip_of node_ips backend.node_name;
    },
    lit "service-selector-correlated",
  )

  unfoldable pub with_datapath :
      Option Snapshot → CheckResult F → Text → NetworkProbeResult F → NetworkProbeResult F
  with_datapath none item source result = result
  with_datapath (some snapshot) item source result =
      let traffic : TrafficObservation = record {
        protocol = item.protocol;
        source_ip = item.source_ip;
        target_ip = default_string result.target_pod_ip item.target_ip;
        service_ip = item.service_ip;
        port = item.port;
      } in
      let correlation = correlate_datapath snapshot traffic in
      let path = to_api_trace_steps item.source_node correlation.chain_path 1 in
      let target_path : List IptablesTraceStep = elim (lookup result.target_node snapshots) [
        | none ↦ []
        | some target ↦
            to_api_trace_steps result.target_node (trace_target_iptables target traffic)
              (length path + 1)
      ] in
      record result {
        datapath = record {
          cni = correlation.cni;
          calico_overlay_mode = correlation.calico_overlay_mode;
          kube_proxy_mode = correlation.kube_proxy_mode;
          relevant_chains = correlation.relevant_chains;
          pod_forward_chains = correlation.pod_forward_chains;
          service_chains = correlation.service_chains;
          chain_path = path ++ target_path;
          service_endpoint_source = source;
          conntrack_matched = correlation.conntrack_matched;
        };
      }

  unfoldable pub probe_result_of : CheckResult F → NetworkProbeResult F
  probe_result_of item =
      let (result, source) = with_endpoint (endpoint_for item) (probe_result_from_report item) in
      with_datapath (lookup item.source_node snapshots) item source result

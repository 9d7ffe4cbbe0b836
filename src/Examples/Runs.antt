-- ===== src/Examples/Runs.antt =====
-- The theorems on a run of a NetworkProbeLab, on the probe command, and on the reports at concrete
-- inputs.
use smtx_lab.Prelude.{
  insert_sorted, ◌↔◌, Bool, ℕ, ◌+◌, ◌≡◌, refl, true, false, Option, none, some, List, [], ◌∷◌,
  arith, eqb, if◌then◌else◌, nat_eq, text_eq, length, filter, any, All, Text, lit, text_lt,
  text_beq, is_empty, lookup, insert, contains, add_key, sort_slice,
}
use mathlib.Core.List.{Memᴰ}
use smtx_lab.Prelude.Int.{pos, ◌+ℤ◌, wrap32, beq_ℤ}
use smtx_lab.Prelude.Results.{ok, err}
use smtx_lab.Api.Network.{NetworkProbeResult, NetworkNodeResult}
use smtx_lab.Agent.Types.{empty_snapshot}
use smtx_lab.Probe.{CheckResult, Report, Network, run_check}
use smtx_lab.Probe.Checked.{IsChecked, run_check-IsChecked}
use smtx_lab.Exporter.Html.{representative_network_flows}
use smtx_lab.Exporter.Html.Flows.{StandsFor, on_path, representative_network_flows_cover}
use smtx_lab.Controller.Objects.{Stores, ApiServer, on_labs}
use smtx_lab.Controller.Checks.{
  Check, build_probe_checks, sprint, for_each, unique_pod_nodes, add_nodes, default_protocols,
  default_probe_ports, port_set, add_ports, source_checks, pod_checks, pod_check, vip_checks,
  dns_checks, service_or_default_ports, check_id, join_parts, decimal_on,
}
use smtx_lab.Controller.Jobs.{
  Cluster, GetResult, ReadResult, ensure_and_read_probe_jobs, source_nodes, add_sources,
  node_checks, checks_hash, run_nodes, node_step, step_of_get, step_of_job, step_of_read,
  after_step, is_failure, sorted_outcome,
}
use smtx_lab.Controller.Status.{
  NetworkRunResult, NextStatus, Requeue, no_requeue, requeue_after_10s, next_status, phase_of,
  conditions_of, requeues, write_status,
}
use smtx_lab.Controller.NetworkRun.Ended.{IsLeft, reconcile_run_ends}
use smtx_lab.Controller.NetworkRun.{
  NetworkProbeLab, RunEnv, run_network_probe, reconcile_run, run_listed, after_jobs, observe_nodes,
  after_raw, finish_run, export_run, with_results, count_results, count_result, node_results_of,
  collect_snapshots, snapshots_by_node,
}
use smtx_lab.Controller.NetworkRun.Listed.{
  Node, Listing, list_probe_pods, allowed_node_names, list_probe_services, filter_runnable_pods,
  is_runnable, list_observation_nodes, node_ip_map, node_address, address_of,
}
use smtx_lab.Controller.NetworkRun.Counted.{run_network_probe_succeeded}
use smtx_lab.Examples.Analyzer.{thousandths}
use smtx_lab.Examples.Controller.{traffic, pods, services, spec, output}
use smtx_lab.Examples.Server.{list_api, nothing, at_key}
use smtx_lab.Controller.NetworkRun.Results.{
  probe_result_of, with_endpoint, with_datapath, probe_result_from_report,
}
use smtx_lab.Controller.Snapshots.{snapshot_request_from_spec}
use smtx_lab.Controller.Reports.{write_network_excel_config_map, write_config_map}
use smtx_lab.Controller.Client.{upsert, Call, Result}
use smtx_lab.Api.Network.{LabPhase}
use smtx_lab.Strings.{to_upper}
use smtx_lab.Crypto.{sha1, hex}
use smtx_lab.Controller.Naming.{excel_name}

abbrev check : Check
check = record {
  id = lit "0a";
  source_node = lit "node-a";
  target_pod = lit "shop/cart";
  target_node = lit "node-b";
  target_service = [];
  protocol = lit "tcp";
  address = lit "10.0.0.2";
  port = pos 8080;
  path = lit "podIP";
  target_ip = lit "10.0.0.2";
  service_ip = [];
}

-- The third exchange is refused.
abbrev network : Network ℕ
network = record {
  get = λ n url timeout. ok (pos 200);
  dial = λ n kind target timeout. if eqb n 2 then err (lit "connection refused") else ok tt;
  write = λ n payload. ok tt;
  close = λ n. ok tt;
  latency = λ n. 1000 + n;
}

run_check-IsChecked_example :
    IsChecked thousandths network check
      (pos 5000000000)
      5
      0
      (run_check thousandths network 0 check 5 (pos 5000000000)).0
      (run_check thousandths network 0 check 5 (pos 5000000000)).1
run_check-IsChecked_example = run_check-IsChecked thousandths network check (pos 5000000000) 5 0

abbrev item : CheckResult ℕ
item = record {
  check_id = lit "0a";
  source_pod = lit "smtx-lab-system/npl-a";
  source_ip = lit "10.0.0.9";
  source_node = lit "node-a";
  target_pod = lit "shop/cart";
  target_node = lit "node-b";
  target_service = [];
  protocol = lit "TCP";
  address = lit "10.0.0.2";
  port = pos 8080;
  path = lit "podIP";
  target_ip = lit "10.0.0.2";
  service_ip = [];
  success = true;
  error = [];
  latency_ms_p50 = 1000;
  latency_ms_p95 = 1000;
}

abbrev flow_with : Text → NetworkProbeResult ℕ
flow_with protocol = record {
  source_pod = lit "smtx-lab-system/npl-a";
  source_pod_ip = lit "10.0.0.9";
  source_node = lit "node-a";
  source_node_ip = lit "192.168.0.1";
  target_pod = lit "shop/cart";
  target_pod_ip = lit "10.0.0.2";
  target_node = lit "node-b";
  target_node_ip = lit "192.168.0.2";
  target_service = [];
  service_ip = [];
  protocol = protocol;
  port = pos 8080;
  path = lit "podIP";
  success = true;
  error = [];
  latency_ms_p50 = 1000;
  latency_ms_p95 = 1000;
  datapath = record {
    cni = [];
    calico_overlay_mode = [];
    kube_proxy_mode = [];
    relevant_chains = [];
    pod_forward_chains = [];
    service_chains = [];
    chain_path = [];
    service_endpoint_source = [];
    conntrack_matched = false;
  };
}

abbrev results : List (NetworkProbeResult ℕ)
results = flow_with (lit "UDP") ∷ flow_with (lit "TCP") ∷ []

representative_network_flows_cover_example :
    All
      (λ result.
        (flow : NetworkProbeResult ℕ) × Memᴰ flow
          (representative_network_flows results (lit "podIP"))
        × StandsFor ℕ result flow)
      (on_path (lit "podIP") results)
representative_network_flows_cover_example =
    representative_network_flows_cover (lit "podIP") results

abbrev node : Node
node = record { name = lit "node-a"; addresses = (lit "InternalIP", lit "192.168.0.1") ∷ [] }

abbrev listing : Listing
listing = record {
  pod_selector = ok tt;
  service_selector = ok tt;
  pods = λ namespace. ok pods;
  services = λ namespace. ok services;
  nodes = λ selector. ok (node ∷ []);
  node = λ name. ok node;
}

-- All jobs are done; each leaves the same report.
abbrev done_jobs : Text → Cluster (Report ℕ)
done_jobs hash = record {
  namespace = lit "smtx-lab-system";
  get = λ name. GetResult.found (record {
    deleting = false;
    checks_hash = hash;
    generation = sprint (pos 1);
    succeeded = pos 1;
    failed = pos 0;
  });
  create_error = λ job. none;
  image = lit "smtx-lab";
  delete_error = λ name. none;
  read_report =
      λ name. ReadResult.report (record { source_node = lit "node-a"; results = item ∷ [] });
  source_node = λ report. report.source_node;
  marshal = λ checks. [];
}

abbrev env : RunEnv ℕ
env = record {
  cluster_ip_none = lit "None";
  cluster = done_jobs (lit "da39a3ee5e6b4b0d");
  collect_snapshot = λ node request. ok (empty_snapshot node.name (pos 1700000000));
  gzip_json = λ snapshot. some snapshot.node_name;
  gzip_error = lit "gzip";
  namespace = lit "smtx-lab-system";
  write_network_results = λ results nodes. ok (lit "rows");
  write_network_html = λ name summary results nodes. ok (lit "page");
}

abbrev lab : NetworkProbeLab
lab = record {
  name = lit "shop";
  generation = pos 1;
  target = record { namespaces = []; node_selector = [] };
  traffic = traffic;
  observability = spec;
  output = output;
}

abbrev api : ApiServer Text
api = list_api (λ name. record { namespace = []; name = name })

abbrev empty : Stores Text api
empty = nothing (λ name. record { namespace = []; name = name })

abbrev ended :
    (NetworkRunResult NetworkNodeResult (NetworkProbeResult ℕ) × Option Text) × Stores Text api
ended = run_network_probe listing env api lab empty

run_network_probe_succeeded_example :
    All (λ r. r.success ≡ true) ended.0.0.probe_results
    × (ended.0.0.summary.succeeded ≡ pos (length ended.0.0.probe_results))
unfolding run_network_probe next_status build_probe_checks run_listed after_jobs observe_nodes
    after_raw finish_run export_run with_results count_results count_result node_results_of
    collect_snapshots snapshots_by_node list_probe_pods allowed_node_names list_probe_services
    filter_runnable_pods is_runnable list_observation_nodes node_ip_map node_address address_of
    probe_result_of with_endpoint with_datapath probe_result_from_report for_each unique_pod_nodes
    add_nodes default_protocols default_probe_ports port_set add_ports source_checks pod_checks
    pod_check vip_checks dns_checks service_or_default_ports check_id join_parts sprint decimal_on
    ensure_and_read_probe_jobs source_nodes add_sources node_checks checks_hash run_nodes node_step
    step_of_get step_of_job step_of_read after_step is_failure sorted_outcome phase_of conditions_of
    snapshot_request_from_spec write_network_excel_config_map write_config_map upsert at_key
    to_upper sha1 hex excel_name add_key contains insert_sorted any filter sort_slice is_empty
    text_lt text_beq lit lookup insert ◌+ℤ◌ wrap32 beq_ℤ
run_network_probe_succeeded_example =
    run_network_probe_succeeded listing env api lab output ended.0.0 none empty ended.1 refl refl
      (omega arith)

abbrev never_same : NextStatus NetworkNodeResult (NetworkProbeResult ℕ) → Bool
never_same next = false

abbrev updated :
    NextStatus NetworkNodeResult (NetworkProbeResult ℕ) → Call (Stores Text api) (Unit {0})
updated next = on_labs (api.update_status lab.name)

abbrev written : Result Requeue × Stores Text api
written = reconcile_run listing env api lab never_same updated empty

reconcile_run_ends_example :
    (next : NextStatus NetworkNodeResult (NetworkProbeResult ℕ)) × (next
      ≡ next_status lab.output lab.name lab.generation ended.0.0 ended.0.1)
    × IsLeft never_same updated next ended.1 written.1
    × ((no_requeue ≡ requeue_after_10s) ↔ (next.phase ≡ LabPhase.running))
unfolding reconcile_run write_status requeues run_network_probe next_status build_probe_checks
    run_listed after_jobs observe_nodes after_raw finish_run export_run with_results count_results
    count_result node_results_of collect_snapshots snapshots_by_node list_probe_pods
    allowed_node_names list_probe_services filter_runnable_pods is_runnable list_observation_nodes
    node_ip_map node_address address_of probe_result_of with_endpoint with_datapath
    probe_result_from_report for_each unique_pod_nodes add_nodes default_protocols
    default_probe_ports port_set add_ports source_checks pod_checks pod_check vip_checks dns_checks
    service_or_default_ports check_id join_parts sprint decimal_on ensure_and_read_probe_jobs
    source_nodes add_sources node_checks checks_hash run_nodes node_step step_of_get step_of_job
    step_of_read after_step is_failure sorted_outcome phase_of conditions_of
    snapshot_request_from_spec write_network_excel_config_map write_config_map upsert at_key
    to_upper sha1 hex excel_name add_key contains insert_sorted any filter sort_slice is_empty
    text_lt text_beq lit lookup insert ◌+ℤ◌ wrap32 beq_ℤ
reconcile_run_ends_example =
    reconcile_run_ends listing env api lab never_same updated empty written.1 no_requeue refl

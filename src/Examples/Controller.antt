-- ===== src/Examples/Controller.antt =====
-- The theorems on the reconcilers at a concrete lab, its pods and the answers of an API server.
use smtx_lab.Controller.Jobs.{
  add_sources, sorted_outcome, is_failure, after_step, step_of_read, step_of_job, step_of_get,
  node_step, run_nodes, GetResult, ReadResult, Cluster, ensure_and_read_probe_jobs, source_nodes,
  node_checks, checks_hash, report_less,
}
use smtx_lab.Prelude.{
  ◌+◌, ◌*◌, min, max, ◌≡◌, refl, true, false, not, ◌||◌, none, List, [], ◌∷◌, ◌++◌, arith, eq_refl,
  nat_eq, text_eq, length, take, any, All, Text, lit, text_lt, text_beq, is_empty, contains,
  add_key, sort_slice, IsSorted,
}
use smtx_lab.Prelude.Int.{pos}
use smtx_lab.Agent.Types.{Snapshot, empty_snapshot, no_command}
use smtx_lab.Agent.Collector.{default_request, decode_onto}
use smtx_lab.Api.Network.{NetworkProbeTrafficSpec, NetworkObservabilitySpec, NetworkProbeSummary}
use smtx_lab.Controller.Naming.{probe_job_name}
use smtx_lab.Controller.Naming.Label.{IsLabel, probe_job_name-IsLabel}
use smtx_lab.Controller.Checks.{
  Check, Pod, Service, build_probe_checks, default_probe_ports, probe_job_deadline_seconds, sprint,
}
use smtx_lab.Controller.Checks.Ports.{IsPortList, default_probe_ports-IsPortList}
use smtx_lab.Controller.Checks.CrossNode.{IsRunnable, build_probe_checks-IsRunnable}
use smtx_lab.Controller.Checks.Deadline.{probe_job_deadline_seconds-eq-clamp}
use smtx_lab.Crypto.{sha1, hex}
use smtx_lab.Controller.Jobs.Complete.{IsDone, Reported, ensure_and_read_probe_jobs_complete}
use smtx_lab.Controller.Finalizers.{
  has_finalizer, add_finalizer, remove_finalizer, remove_finalizer-add_finalizer,
}
use smtx_lab.Controller.Snapshots.{snapshot_request_from_spec, truncate_snapshot}
use smtx_lab.Controller.Snapshots.Request.{served_request_collects}
use smtx_lab.Controller.Snapshots.Truncated.{IsCut, truncate_snapshot-IsCut}
use smtx_lab.Controller.Status.{OutputSpec}

abbrev pub traffic : NetworkProbeTrafficSpec
traffic = record {
  protocols = lit "tcp" ∷ [];
  ports = pos 8080 ∷ [];
  count = pos 3;
  timeout_seconds = pos 5;
  concurrency = pos 1;
  cross_node_only = true;
  include_service_vip = false;
  include_pod_ip = true;
  include_dns = false;
}

abbrev pod_on : Text → Pod
pod_on node = record {
  namespace = lit "shop";
  name = lit "cart-" ++ node;
  phase = lit "Running";
  pod_ip = lit "10.0.0.1";
  node_name = node;
  container_ports = pos 8080 ∷ [];
  labels = [];
}

abbrev pub pods : List Pod
pods = pod_on (lit "node-a") ∷ pod_on (lit "node-b") ∷ []

abbrev pub services : List Service
services = []

abbrev check_a : Check
check_a = record {
  id = lit "0a";
  source_node = lit "node-a";
  target_pod = lit "shop/cart-node-b";
  target_node = lit "node-b";
  target_service = [];
  protocol = lit "TCP";
  address = lit "10.0.0.1";
  port = pos 8080;
  path = lit "podIP";
  target_ip = lit "10.0.0.1";
  service_ip = [];
}

abbrev checks : List Check
checks = check_a ∷ []

-- An API server whose jobs are all done; a report is the name of its node.
abbrev no_marshal : List Check → Text
no_marshal cs = []

abbrev pub done_cluster : Text → Cluster Text
done_cluster hash = record {
  namespace = lit "smtx-lab-system";
  get = λ name. GetResult.found (record {
    deleting = false;
    checks_hash = hash;
    generation = sprint (pos 1);
    succeeded = pos 1;
    failed = pos 0;
  });
  create_error = λ job. none;
  image = lit "smtx-lab";
  delete_error = λ name. none;
  read_report = λ name. ReadResult.report (lit "node-a");
  source_node = λ r. r;
  marshal = no_marshal;
}

abbrev cluster : Cluster Text
cluster = done_cluster (take 16 (hex (sha1 [])))

abbrev pub spec : NetworkObservabilitySpec
spec = record {
  collect_cni = false;
  collect_iptables = false;
  collect_ipvs = false;
  collect_conntrack = false;
  collect_routes = true;
  chain_allowlist = [];
  conntrack_filter = record { protocols = []; max_entries = pos 0 };
}

abbrev summary : NetworkProbeSummary
summary = record {
  total_tests = pos 1;
  succeeded = pos 1;
  failed = pos 0;
  cni_detected = [];
  datapath_modes = [];
  calico_overlay_modes = [];
}

abbrev pub output : OutputSpec
output = record {
  excel_enabled = true;
  html_enabled = false;
  retain_raw_snapshots = false;
  excel_config_map_name = lit "report";
  html_config_map_name = [];
}

abbrev snapshot_a : Snapshot
snapshot_a =
    let empty = empty_snapshot (lit "node-a") (pos 1700000000) in
    record empty { iptables = record no_command { lines = lit "a" ∷ lit "b" ∷ lit "c" ∷ [] } }

probe_job_name-IsLabel_example : IsLabel (probe_job_name (lit "My Lab") (lit "node-a"))
probe_job_name-IsLabel_example = probe_job_name-IsLabel (lit "My Lab") (lit "node-a")

default_probe_ports-IsPortList_example :
    IsPortList (default_probe_ports (pos 8080 ∷ []) pods services)
    × (is_empty (default_probe_ports (pos 8080 ∷ []) pods services) ≡ false)
default_probe_ports-IsPortList_example =
    default_probe_ports-IsPortList (pos 8080 ∷ []) pods services

build_probe_checks-IsRunnable_example :
    All (IsRunnable traffic) (build_probe_checks (lit "None") traffic pods services)
    × IsSorted (λ a b. text_lt a.id b.id) (build_probe_checks (lit "None") traffic pods services)
build_probe_checks-IsRunnable_example =
    build_probe_checks-IsRunnable (lit "None") traffic pods services

probe_job_deadline_seconds-eq-clamp_example :
    probe_job_deadline_seconds traffic (pos 10) ≡ pos (min 3600 (max 120 (10 * 3 * 5 + 60)))
probe_job_deadline_seconds-eq-clamp_example =
    probe_job_deadline_seconds-eq-clamp traffic 10 3 5 (omega arith) (omega arith) (omega arith)
      refl refl (omega arith) (omega arith)

lacks_a : has_finalizer (lit "b" ∷ []) (lit "a") ≡ false
unfolding has_finalizer any lit text_beq
lacks_a = refl

remove_finalizer-add_finalizer_example :
    remove_finalizer (add_finalizer (lit "b" ∷ []) (lit "a")).0 (lit "a") ≡ (lit "b" ∷ [], true)
remove_finalizer-add_finalizer_example =
    remove_finalizer-add_finalizer (lit "b" ∷ []) (lit "a") lacks_a

truncate_snapshot-IsCut_example :
    IsCut 2 snapshot_a.iptables.lines (truncate_snapshot snapshot_a 2).iptables.lines
    × IsCut 2 snapshot_a.conntrack.lines (truncate_snapshot snapshot_a 2).conntrack.lines
    × IsCut 2 snapshot_a.ipvs.lines (truncate_snapshot snapshot_a 2).ipvs.lines
    × IsCut 2 snapshot_a.cni.detection_log (truncate_snapshot snapshot_a 2).cni.detection_log
    × ((truncate_snapshot snapshot_a 2).iptables.line_count
        ≡ length (truncate_snapshot snapshot_a 2).iptables.lines)
    × ((truncate_snapshot snapshot_a 2).conntrack.line_count
        ≡ length (truncate_snapshot snapshot_a 2).conntrack.lines)
truncate_snapshot-IsCut_example = truncate_snapshot-IsCut snapshot_a 2

served_request_collects_example :
    ((decode_onto default_request (snapshot_request_from_spec spec)).collect_cni ≡ true)
    × ((decode_onto default_request (snapshot_request_from_spec spec)).collect_iptables ≡ true)
    × ((decode_onto default_request (snapshot_request_from_spec spec)).collect_ipvs ≡ true)
    × ((decode_onto default_request (snapshot_request_from_spec spec)).collect_conntrack ≡ true)
    × ((decode_onto default_request (snapshot_request_from_spec spec)).collect_routes ≡ (
        spec.collect_routes
        || not (
            spec.collect_cni || spec.collect_iptables || spec.collect_ipvs || spec.collect_conntrack
            || spec.collect_routes)))
served_request_collects_example = served_request_collects spec

-- With the one job done, the run ends without an error and waits for nothing.
job_done :
    ((ensure_and_read_probe_jobs cluster traffic (lit "lab") (pos 1) checks).error ≡ none)
    × ((ensure_and_read_probe_jobs cluster traffic (lit "lab") (pos 1) checks).is_pending ≡ false)
unfolding ensure_and_read_probe_jobs run_nodes node_step step_of_get step_of_job step_of_read
    after_step is_failure sorted_outcome source_nodes add_sources sort_slice add_key contains any
    checks_hash
job_done = rw (eq_refl (take 16 (hex (sha1 []))), eq_refl (sprint (pos 1))) (refl, refl)

ensure_and_read_probe_jobs_complete_example :
    (rs : List Text) × ((ensure_and_read_probe_jobs cluster traffic (lit "lab") (pos 1) checks).read
      ≡ sort_slice (report_less cluster) rs)
    × Reported
        (λ node.
          IsDone cluster
            (probe_job_name (lit "lab") node)
            (checks_hash cluster (node_checks node checks))
            (sprint (pos 1)))
        (source_nodes checks)
        rs
ensure_and_read_probe_jobs_complete_example =
    ensure_and_read_probe_jobs_complete cluster traffic (lit "lab") (pos 1) checks job_done.0
      job_done.1

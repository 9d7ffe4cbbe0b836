-- ===== src/Controller/NetworkRun.antt =====
-- `runNetworkProbe` of internal/controller/networkprobelab_controller.go: it lists, builds checks, reads
-- the reports of the jobs, collects snapshots, and makes the results; and the end of `Reconcile`, which
-- writes the status.
pub mod Listed
pub mod Agents
pub mod Results
pub mod Counted
pub mod Ended
use smtx_lab.Prelude.{
  ◌+◌, ◌-◌, ◌/◌, Bool, true, false, Option, none, some, List, [], ◌∷◌, map, if◌then◌else◌, nat_eq,
  text_eq, length, Text, lit, text_lt, is_empty, Dict, lookup, insert, value_or, sort_slice,
}
use smtx_lab.Prelude.Int.{ℤ, pos, ◌+ℤ◌, wrap32}
use smtx_lab.Agent.Types.{Snapshot, SnapshotRequest}
use smtx_lab.Api.Network.{
  NetworkProbeTrafficSpec, NetworkObservabilitySpec, NetworkProbeSummary, NetworkProbeResult,
  NetworkNodeResult,
}
use smtx_lab.Probe.{Report}
use smtx_lab.Controller.Client.{Result, ok, err, Call}
use smtx_lab.Controller.Objects.{ApiServer, Stores}
use smtx_lab.Controller.Checks.{Check, Pod, Service, for_each, build_probe_checks}
use smtx_lab.Controller.Jobs.{Cluster, Outcome, ensure_and_read_probe_jobs}
use smtx_lab.Controller.Snapshots.{
  snapshot_request_from_spec, snapshot_to_node_result, unique_cni, unique_datapath_modes,
  unique_calico_overlay_modes,
}
use smtx_lab.Controller.Status.{
  NetworkRunResult, OutputSpec, NextStatus, Requeue, next_status, requeues, write_status,
}
use smtx_lab.Controller.Reports.{
  write_network_excel_config_map, write_network_html_config_map, write_raw_snapshot_config_maps,
}
use smtx_lab.Controller.NetworkRun.Listed.{
  Node, NetworkProbeTargetSpec, Listing, list_probe_pods, list_probe_services,
  list_observation_nodes, node_ip_map,
}
use smtx_lab.Controller.NetworkRun.Results.{probe_result_of}

-- What the run reads of a NetworkProbeLab.
pub record NetworkProbeLab : Type 0 where
  pub name : Text
  pub generation : ℤ
  pub target : NetworkProbeTargetSpec
  pub traffic : NetworkProbeTrafficSpec
  pub observability : NetworkObservabilitySpec
  pub output : OutputSpec

-- What the run is given besides: the jobs, the snapshots of nodes, the compression and the exporters.
pub record RunEnv (F : Type 0) : Type 0 where
  -- `corev1.ClusterIPNone`
  pub cluster_ip_none : Text
  pub cluster : Cluster (Report F)
  pub collect_snapshot : Node → SnapshotRequest → Result Snapshot
  pub gzip_json : Snapshot → Option Text
  pub gzip_error : Text
  pub namespace : Text
  pub write_network_results : List (NetworkProbeResult F) → List NetworkNodeResult → Result Text
  pub write_network_html :
      Text
      → NetworkProbeSummary
      → List (NetworkProbeResult F)
      → List NetworkNodeResult
      → Result Text

unfoldable pub snapshots_by_node : List Snapshot → Dict Text Snapshot → Dict Text Snapshot
snapshots_by_node [] by_node = by_node
snapshots_by_node (snapshot ∷ snapshots) by_node =
    snapshots_by_node snapshots (insert snapshot.node_name snapshot by_node)

-- `result.Summary` after one more probe result.
unfoldable pub count_result :
    {F : Type 0} → NetworkProbeResult F → NetworkProbeSummary → NetworkProbeSummary
count_result result s =
    if result.success
    then record s { succeeded = wrap32 (s.succeeded +ℤ pos 1) }
    else record s { failed = wrap32 (s.failed +ℤ pos 1) }

unfoldable pub count_results :
    {F : Type 0} → List (NetworkProbeResult F) → NetworkProbeSummary → NetworkProbeSummary
count_results [] s = s
count_results (result ∷ results) s = count_results results (count_result result s)

module _ {F : Type 0} (listing : Listing) (env : RunEnv F) {Lab : Type 0} (api : ApiServer Lab)
    (lab : NetworkProbeLab) where
  abbrev Run : Type 0
  Run = NetworkRunResult NetworkNodeResult (NetworkProbeResult F)

  -- The result and the error, and what is stored afterwards.
  abbrev Ended : Type 0
  Ended = (Run × Option Text) × Stores Lab api

  abbrev empty_run : Run
  empty_run = record {
    pending = false;
    summary = record {
      total_tests = pos 0;
      succeeded = pos 0;
      failed = pos 0;
      cni_detected = [];
      datapath_modes = [];
      calico_overlay_modes = [];
    };
    node_results = [];
    probe_results = [];
    raw_snapshot_config_map_names = [];
  }

  -- The snapshots of the nodes that answer.
  unfoldable pub collect_snapshots : List Node → List Snapshot
  collect_snapshots nodes = for_each nodes λ node.
      elim (env.collect_snapshot node (snapshot_request_from_spec lab.observability)) [
        | ok snapshot ↦ snapshot ∷ []
        | err e ↦ []
      ]

  unfoldable pub node_results_of : List Snapshot → Dict Text Text → List NetworkNodeResult
  node_results_of snapshots refs =
      sort_slice (λ (a b : NetworkNodeResult). text_lt a.node_name b.node_name)
        (map
          (λ snapshot.
            snapshot_to_node_result snapshot (value_or [] (lookup snapshot.node_name refs)))
          snapshots)

  -- The run with its results, before the reports.
  unfoldable pub with_results :
      List Pod → List Service → List Node → List Snapshot → List (Report F) → Run → Run
  with_results pods services nodes snapshots reports run =
      let by_node = snapshots_by_node snapshots [] in
      let results =
        map (probe_result_of lab.name pods services (node_ip_map nodes []) by_node)
          (for_each reports (λ report. report.results)) in
      let counted = count_results results run.summary in
      record run {
        probe_results = results;
        summary = record counted {
          cni_detected = unique_cni run.node_results;
          datapath_modes = unique_datapath_modes results;
          calico_overlay_modes = unique_calico_overlay_modes run.node_results;
        };
      }

  -- A report where it is enabled: made, and written.
  abbrev write_if :
      Bool
      → Result Text
      → (Text → Stores Lab api → Result (Unit {0}) × Stores Lab api)
      → Stores Lab api
      → Option Text × Stores Lab api
  write_if false made write w = (none, w)
  write_if true (err e) write w = (some e, w)
  write_if true (ok report) write w =
      let (r, w') = write report w in elim r [ ok _ ↦ (none, w') | err e ↦ (some e, w') ]

  unfoldable pub export_run : Run → Stores Lab api → Option Text × Stores Lab api
  export_run run w =
      let (excel, w1) =
        write_if lab.output.excel_enabled
          (env.write_network_results run.probe_results run.node_results)
          (write_network_excel_config_map api env.namespace lab.output.excel_config_map_name
            lab.name)
          w in
      elim excel [
        | some e ↦ (some e, w1)
        | none ↦
            write_if lab.output.html_enabled
              (env.write_network_html lab.name run.summary run.probe_results run.node_results)
              (write_network_html_config_map api env.namespace lab.output.html_config_map_name
                lab.name)
              w1
      ]

  unfoldable pub finish_run :
      List Pod
      → List Service
      → List Node
      → List Snapshot
      → List (Report F)
      → Run
      → Dict Text Text
      → Stores Lab api
      → Ended
  finish_run pods services nodes snapshots reports run refs w =
      let observed = record run { node_results = node_results_of snapshots refs } in
      let done = with_results pods services nodes snapshots reports observed in
      let (e, w') = export_run done w in ((done, e), w')

  -- The raw snapshots, where they are retained.
  unfoldable pub after_raw :
      List Pod
      → List Service
      → List Node
      → List Snapshot
      → List (Report F)
      → Run
      → Result (Dict Text Text × List Text) × Stores Lab api
      → Ended
  after_raw pods services nodes snapshots reports run (ok (refs, names), w) =
      finish_run pods services nodes snapshots reports
        (record run { raw_snapshot_config_map_names = names }) refs w
  after_raw pods services nodes snapshots reports run (err e, w) = ((run, some e), w)

  unfoldable pub observe_nodes :
      List Pod → List Service → List (Report F) → Run → Result (List Node) → Stores Lab api → Ended
  observe_nodes pods services reports run (err e) w = ((run, some e), w)
  observe_nodes pods services reports run (ok nodes) w =
      let snapshots = collect_snapshots nodes in
      if lab.output.retain_raw_snapshots
      then after_raw pods services nodes snapshots reports run (
          write_raw_snapshot_config_maps api env.gzip_json env.gzip_error env.namespace lab.name
            snapshots w)
      else finish_run pods services nodes snapshots reports run [] w

  abbrev counted_checks : List Check → Run
  counted_checks checks =
      let summary = empty_run.summary in
      let run = empty_run in
      record run { summary = record summary { total_tests = wrap32 (pos (length checks)) } }

  unfoldable pub after_jobs :
      List Pod → List Service → List Check → Outcome (Report F) → Stores Lab api → Ended
  after_jobs pods services checks o w =
      let run = counted_checks checks in
      elim o.error [
        | some e ↦ ((record run { pending = o.is_pending }, some e), w)
        | none ↦
            if o.is_pending
            then ((record run { pending = true }, none), w)
            else observe_nodes pods services o.read run
                (list_observation_nodes listing lab.target.node_selector checks) w
      ]

  unfoldable pub run_listed : Result (List Pod) → Result (List Service) → Stores Lab api → Ended
  run_listed (err e) services w = ((empty_run, some e), w)
  run_listed (ok pods) (err e) w = ((empty_run, some e), w)
  run_listed (ok pods) (ok services) w =
      let checks = build_probe_checks env.cluster_ip_none lab.traffic pods services in
      if is_empty pods
      then ((empty_run, some (lit "no running target pods matched NetworkProbeLab target")), w)
      else if is_empty checks
      then ((empty_run, some (lit "no probe checks could be built from matched pods/services")), w)
      else after_jobs pods services checks
          (ensure_and_read_probe_jobs env.cluster lab.traffic lab.name lab.generation checks) w

  unfoldable pub run_network_probe : Stores Lab api → Ended
  run_network_probe =
      run_listed (list_probe_pods listing lab.target) (list_probe_services listing lab.target)

  -- `Reconcile` from `r.runNetworkProbe` on: the run, and the status that is written.
  unfoldable pub reconcile_run :
      (NextStatus NetworkNodeResult (NetworkProbeResult F) → Bool)
      → (NextStatus NetworkNodeResult (NetworkProbeResult F) → Call (Stores Lab api) (Unit {0}))
      → Call (Stores Lab api) Requeue
  reconcile_run same_status update_status w =
      let ((run, e), w') = run_network_probe w in
      write_status same_status update_status (next_status lab.output lab.name lab.generation run e)
        (requeues lab.output lab.name lab.generation run e) w'

-- ===== src/Examples/Stores.antt =====
-- The theorems on what the controllers store at concrete objects of an API server over lists.
use smtx_lab.Controller.Reports.{
  probe_labels, cleanup_network_probe_artifacts, report_config_map, write_config_map,
  network_report_labels, write_raw, write_raw_snapshot_config_maps, write_network_excel_config_map,
  network_snapshot_labels,
}
use smtx_lab.Controller.Objects.{JobObject, ConfigMap, Stores, ApiServer}
use smtx_lab.Prelude.{
  ◌≡◌, refl, true, false, Option, none, some, List, [], ◌∷◌, nat_eq, text_eq, filter, any, all,
  Text, lit, text_beq, is_empty, lookup, insert, sort_slice,
}
use smtx_lab.Api.Resource.{MonitoringStackSpec}
use smtx_lab.Controller.Client.{is_listed, has_labels, delete_items, delete_by_labels, Key, upsert}
use smtx_lab.Controller.Objects.Stored.{IsApiServer}
use smtx_lab.Controller.Monitoring.{
  apply_result, upsert_config_map, upsert_deployment, upsert_service, available,
  deployment_available, apply_prometheus, apply_grafana, ensure_monitoring_stack,
}
use smtx_lab.Controller.Monitoring.Manifests.{
  prometheus_config_map, prometheus_deployment, prometheus_service, kube_state_metrics_deployment,
  kube_state_metrics_service, grafana_deployment, grafana_service,
}
use smtx_lab.Controller.Monitoring.Ensured.{IsEnsured, ensure_monitoring_stack_applies}
use smtx_lab.Controller.Reports.Written.{file_of, write_config_map_sets}
use smtx_lab.Examples.Server.{list_api, list_api-IsApiServer, nothing, at_key}
use smtx_lab.Controller.Naming.{
  short_hash, bounded_base, sanitize_name, replace_runs, snapshot_config_map_name, excel_name,
}
use smtx_lab.Crypto.{sha1, hex}
use smtx_lab.Agent.Types.{Snapshot, empty_snapshot}
use smtx_lab.Prelude.Int.{pos}
use smtx_lab.Strings.{to_lower, trim_left, trim_right}
use smtx_lab.Controller.Snapshots.{encode_snapshot}
use smtx_lab.Controller.Reports.Cleaned.{IsCleaned, cleanup_network_probe_artifacts-IsCleaned}
use smtx_lab.Controller.Reports.Removed.{cleanup_removes_artifacts}

-- Labs are their names.
abbrev lab_key : Text → Key
lab_key name = record { namespace = []; name = name }

abbrev api : ApiServer Text
api = list_api lab_key

abbrev server : IsApiServer Text api
server = list_api-IsApiServer lab_key

abbrev namespace : Text
namespace = lit "smtx-lab-system"

abbrev empty : Stores Text api
empty = nothing lab_key

abbrev missing : Text → Text
missing name = lit "deployment not found"

abbrev both : MonitoringStackSpec
both = record {
  auto_deploy = true;
  prometheus = record { enabled = true };
  grafana = record { enabled = true };
}

abbrev ensured : Stores Text api
ensured = (ensure_monitoring_stack api missing namespace both empty).1

ensure_monitoring_stack_applies_example :
    IsEnsured server missing namespace both (apply_result namespace both false) ensured
unfolding ensure_monitoring_stack apply_prometheus apply_grafana upsert_config_map upsert_deployment
    upsert_service deployment_available available upsert at_key prometheus_config_map
    prometheus_deployment prometheus_service kube_state_metrics_deployment
    kube_state_metrics_service grafana_deployment grafana_service lit text_beq
ensure_monitoring_stack_applies_example =
    ensure_monitoring_stack_applies server missing namespace both empty ensured
      (apply_result namespace both false) refl

abbrev report_of : Text → ConfigMap
report_of content =
    report_config_map namespace (lit "shop-network-report") (network_report_labels (lit "shop")) []
      (lit "network-probe-results.xlsx") content

abbrev with_old : Stores Text api
with_old = record {
  config_maps = report_of (lit "old") ∷ [];
  deployments = [];
  services = [];
  jobs = [];
  labs = [];
}

abbrev with_new : Stores Text api
with_new = (write_config_map api (report_of (lit "new")) with_old).1

write_config_map_sets_example :
    file_of (lit "network-probe-results.xlsx") (
      server.config_map_view with_new.config_maps
        (record { namespace = namespace; name = lit "shop-network-report" }))
    ≡ some (lit "new")
unfolding write_config_map upsert at_key lit text_beq
write_config_map_sets_example =
    write_config_map_sets server namespace (lit "shop-network-report")
      (network_report_labels (lit "shop")) [] (lit "network-probe-results.xlsx") (lit "new")
      with_old with_new refl (record { namespace = namespace; name = lit "shop-network-report" })
      (lit "network-probe-results.xlsx")

-- A job of the lab and one of another.
abbrev job_of : Text → Text → JobObject
job_of name lab_name = record {
  deleting = false;
  namespace = namespace;
  name = name;
  labels = probe_labels lab_name;
  annotations = [];
  spec = record {
    backoff_limit = pos 0;
    ttl_seconds_after_finished = pos 3600;
    active_deadline_seconds = pos 120;
    template = record {
      labels = [];
      spec = record {
        service_account_name = [];
        node_name = lit "node-a";
        restart_policy = lit "Never";
        containers = [];
        volumes = [];
      };
    };
  };
}

abbrev mixed : Stores Text api
mixed = record {
  config_maps =
      report_of (lit "old")
      ∷ report_config_map namespace (lit "settings") [] [] (lit "file") (lit "kept")
      ∷ [];
  deployments = [];
  services = [];
  jobs = job_of (lit "npl-shop") (lit "shop") ∷ job_of (lit "npl-bank") (lit "bank") ∷ [];
  labs = [];
}

abbrev cleaned : Stores Text api
cleaned = (cleanup_network_probe_artifacts api namespace (lit "shop") mixed).1

cleanup_network_probe_artifacts-IsCleaned_example :
    IsCleaned server namespace (lit "shop") mixed cleaned
unfolding probe_labels cleanup_network_probe_artifacts delete_by_labels delete_items has_labels
    is_listed at_key network_report_labels lit text_beq short_hash hex sha1 filter any all lookup
cleanup_network_probe_artifacts-IsCleaned_example =
    cleanup_network_probe_artifacts-IsCleaned server namespace (lit "shop") mixed cleaned refl

-- A lab with the raw snapshot of one node and an Excel report.
abbrev snapshots : List Snapshot
snapshots = empty_snapshot (lit "node-a") (pos 1700000000) ∷ []

abbrev gzip_json : Snapshot → Option Text
gzip_json snapshot = some snapshot.node_name

abbrev raw_written : Stores Text api
raw_written =
    (write_raw_snapshot_config_maps api gzip_json [] namespace (lit "shop") snapshots empty).1

abbrev all_written : Stores Text api
all_written =
    (write_network_excel_config_map api namespace [] (lit "shop") (lit "rows") raw_written).1

abbrev all_cleaned : Stores Text api
all_cleaned = (cleanup_network_probe_artifacts api namespace (lit "shop") all_written).1

abbrev snapshot_name : Text
snapshot_name = snapshot_config_map_name (lit "shop") (lit "node-a")

cleanup_removes_artifacts_example :
    ((server.config_map_view all_cleaned.config_maps
          (record { namespace = namespace; name = snapshot_name })
        ≡ none)
      × Unit {0})
    × (server.config_map_view all_cleaned.config_maps
          (record { namespace = namespace; name = lit "shop-network-report" })
        ≡ none)
unfolding write_raw_snapshot_config_maps write_raw write_network_excel_config_map write_config_map
    upsert snapshot_config_map_name bounded_base sanitize_name replace_runs to_lower trim_left
    trim_right encode_snapshot excel_name network_snapshot_labels is_empty
    cleanup_network_probe_artifacts delete_by_labels delete_items has_labels is_listed at_key
    network_report_labels lit text_beq short_hash hex sha1 filter any all lookup sort_slice insert
cleanup_removes_artifacts_example =
    cleanup_removes_artifacts server namespace (lit "shop") gzip_json [] snapshots [] (lit "rows")
      ((lit "node-a", snapshot_name) ∷ [], snapshot_name ∷ []) empty raw_written all_written
      all_cleaned refl refl refl

-- ===== src/Controller/Reports.antt =====
-- The ConfigMaps that the controllers of internal/controller write and clean up: reports, raw
-- snapshots, and their labels.
pub mod Written
pub mod Cleaned
pub mod Removed
use smtx_lab.Prelude.{
  ◌+◌, ◌-◌, ◌/◌, Bool, true, false, not, Option, none, some, List, [], ◌∷◌, ◌++◌, if◌then◌else◌,
  nat_eq, text_eq, Text, lit, text_lt, is_empty, Dict, insert, sort_slice,
}
use smtx_lab.Agent.Types.{Snapshot}
use smtx_lab.Controller.Client.{Result, ok, err, Call, ◌>>=◌, ◌>>◌, lift, upsert, delete_by_labels}
use smtx_lab.Controller.Objects.{ConfigMap, ApiServer, Stores, on_config_maps, on_jobs}
use smtx_lab.Controller.Naming.{short_hash, excel_name, html_name, snapshot_config_map_name}
use smtx_lab.Controller.Snapshots.{encode_snapshot}
use smtx_lab.Controller.Monitoring.Manifests.{set_all}

-- `env` is the value of `POD_NAMESPACE`, empty where it is not set.
unfoldable pub report_namespace : Text → Text → Text
report_namespace configured env =
    if not (is_empty configured)
    then configured
    else if not (is_empty env)
    then env
    else lit "smtx-lab-system"

-- `env` is the value of `SMTX_PROBE_IMAGE`.
unfoldable pub probe_image : Text → Text → Text
probe_image configured env =
    if not (is_empty configured)
    then configured
    else if not (is_empty env)
    then env
    else lit "registry.cn-hangzhou.aliyuncs.com/smtxlab/smtx-lab-operator:v0.2.1"

abbrev hashed_labels : Text → Text → Dict Text Text
hashed_labels component lab_name =
    (lit "app.kubernetes.io/name", lit "smtx-lab-operator")
    ∷ (lit "app.kubernetes.io/component", component)
    ∷ (lit "lab.smtx.io/networkprobe-hash", short_hash lab_name)
    ∷ []

unfoldable pub network_report_labels : Text → Dict Text Text
network_report_labels lab_name = hashed_labels (lit "network-report") lab_name

unfoldable pub network_snapshot_labels : Text → Dict Text Text
network_snapshot_labels lab_name = hashed_labels (lit "network-snapshot") lab_name

unfoldable pub probe_labels : Text → Dict Text Text
probe_labels lab_name = hashed_labels (lit "network-probe") lab_name

unfoldable pub resource_report_labels : Text → Dict Text Text
resource_report_labels lab_name =
    (lit "app.kubernetes.io/name", lit "smtx-lab-operator")
    ∷ (lit "app.kubernetes.io/component", lit "resource-report")
    ∷ (lit "lab.smtx.io/resourceanalyzer", lab_name)
    ∷ []

-- The ConfigMap that is created where there is none.
abbrev pub report_config_map :
    Text → Text → Dict Text Text → Dict Text Text → Text → Text → ConfigMap
report_config_map namespace name labels annotations file content = record {
  namespace = namespace;
  name = name;
  labels = labels;
  annotations = annotations;
  data_of = [];
  binary_data = (file, content) ∷ [];
}

-- The existing ConfigMap with the labels, the annotations and the file set in it.
abbrev pub add_to_config_map : ConfigMap → ConfigMap → ConfigMap
add_to_config_map existing desired = record existing {
  labels = set_all desired.labels existing.labels;
  annotations = set_all desired.annotations existing.annotations;
  binary_data = set_all desired.binary_data existing.binary_data;
}

abbrev bool_text : Bool → Text
bool_text true = lit "true"
bool_text false = lit "false"

module _ {Lab : Type 0} (api : ApiServer Lab) where
  open api use {config_map_client, job_client}

  unfoldable pub write_config_map : ConfigMap → Call (Stores Lab api) (Unit {0})
  write_config_map desired = on_config_maps (upsert config_map_client add_to_config_map desired)

  -- `writeExcelConfigMap` and `writeHTMLConfigMap` of the ResourceAnalyzerLab reconciler
  unfoldable pub write_excel_config_map :
      Text → Text → Text → Text → Call (Stores Lab api) (Unit {0})
  write_excel_config_map namespace configured lab_name report = write_config_map (
      report_config_map namespace (excel_name configured lab_name (lit "resource"))
        (resource_report_labels lab_name) [] (lit "resource-recommendations.xlsx") report)

  unfoldable pub write_html_config_map :
      Text → Text → Text → Text → Call (Stores Lab api) (Unit {0})
  write_html_config_map namespace configured lab_name report = write_config_map (
      report_config_map namespace (html_name configured lab_name (lit "resource"))
        (resource_report_labels lab_name) [] (lit "resource-recommendations.html") report)

  unfoldable pub write_network_excel_config_map :
      Text → Text → Text → Text → Call (Stores Lab api) (Unit {0})
  write_network_excel_config_map namespace configured lab_name report = write_config_map (
      report_config_map namespace (excel_name configured lab_name (lit "network"))
        (network_report_labels lab_name) [] (lit "network-probe-results.xlsx") report)

  unfoldable pub write_network_html_config_map :
      Text → Text → Text → Text → Call (Stores Lab api) (Unit {0})
  write_network_html_config_map namespace configured lab_name report = write_config_map (
      report_config_map namespace (html_name configured lab_name (lit "network"))
        (network_report_labels lab_name) [] (lit "network-probe-results.html") report)

  -- `gzip_json` may fail, with the error `gzip_error`.
  module _ (gzip_json : Snapshot → Option Text) (gzip_error : Text)
      (namespace lab_name : Text) where
    abbrev encoded : Snapshot → Result (Text × Bool)
    encoded snapshot = elim (encode_snapshot gzip_json snapshot) [
      | none ↦ err gzip_error
      | some payload ↦ ok payload
    ]

    abbrev snapshot_config_map : Snapshot → Text × Bool → ConfigMap
    snapshot_config_map snapshot (payload, truncated) =
        report_config_map namespace (snapshot_config_map_name lab_name snapshot.node_name)
          (network_snapshot_labels lab_name)
          ((lit "lab.smtx.io/node", snapshot.node_name)
            ∷ (lit "lab.smtx.io/truncated", bool_text truncated)
            ∷ [])
          (lit "snapshot.json.gz") payload

    -- The loop, with `refs` and `names`.
    unfoldable pub write_raw :
        List Snapshot
        → Dict Text Text
        → List Text
        → Call (Stores Lab api) (Dict Text Text × List Text)
    write_raw [] refs names w = (ok (refs, sort_slice text_lt names), w)
    write_raw (snapshot ∷ snapshots) refs names w =
        let name = snapshot_config_map_name lab_name snapshot.node_name in
        let rest = write_raw snapshots (insert snapshot.node_name name refs) (names ++ name ∷ []) in
        (do
          payload ← lift (encoded snapshot)
          write_config_map (snapshot_config_map snapshot payload)
          rest)
          w

    unfoldable pub write_raw_snapshot_config_maps :
        List Snapshot → Call (Stores Lab api) (Dict Text Text × List Text)
    write_raw_snapshot_config_maps snapshots = write_raw snapshots [] []

  unfoldable pub cleanup_resource_analyzer_artifacts :
      Text → Text → Call (Stores Lab api) (Unit {0})
  cleanup_resource_analyzer_artifacts namespace lab_name = on_config_maps (
      delete_by_labels config_map_client namespace
        ((lit "lab.smtx.io/resourceanalyzer", lab_name) ∷ []))

  unfoldable pub cleanup_network_probe_artifacts : Text → Text → Call (Stores Lab api) (Unit {0})
  cleanup_network_probe_artifacts namespace lab_name = do
    let match = (lit "lab.smtx.io/networkprobe-hash", short_hash lab_name) ∷ []
    on_jobs (delete_by_labels job_client namespace match)
    on_config_maps (delete_by_labels config_map_client namespace match)

-- ===== src/Controller/Monitoring.antt =====
-- internal/controller/monitoring_stack.go: the objects of the monitoring stack are in
-- Monitoring/Manifests; here they are created or updated, in their order.
pub mod Manifests
pub mod Merge
pub mod Applied
pub mod Ensured
use smtx_lab.Prelude.{
  ◌-◌, ◌/◌, Bool, false, not, ◌&&◌, ◌||◌, if◌then◌else◌, ◌==◌, nat_eq, text_eq, any, Text, lit,
}
use smtx_lab.Prelude.Int.{is_pos}
use smtx_lab.Api.Resource.{MonitoringStackSpec}
use smtx_lab.Controller.Client.{
  ok, err, Call, ◌>>=◌, ◌>>◌, pure, call_if, found, not_found, failed, upsert,
}
use smtx_lab.Controller.Objects.{
  ConfigMap, Deployment, DeploymentCondition, ServiceObject, ApiServer, Stores, on_config_maps,
  on_deployments, on_services,
}
use smtx_lab.Controller.Monitoring.Manifests.{
  monitoring_prometheus_name, default_prometheus_url, merge_string_map, prometheus_config_map,
  prometheus_deployment, prometheus_service, kube_state_metrics_deployment,
  kube_state_metrics_service, grafana_deployment, grafana_service,
}

pub record MonitoringApplyResult : Type 0 where
  pub namespace : Text
  pub prometheus_url : Text
  pub prometheus_enabled : Bool
  pub grafana_enabled : Bool
  pub prometheus_ready : Bool
  pub kube_state_metrics : Bool

-- The existing object with what `upsertConfigMap`, `upsertDeployment` and `upsertService` set in it.
abbrev pub adopt_config_map : ConfigMap → ConfigMap → ConfigMap
adopt_config_map existing desired = record existing {
  labels = merge_string_map existing.labels desired.labels;
  data_of = desired.data_of;
  binary_data = desired.binary_data;
}

abbrev pub adopt_deployment : Deployment → Deployment → Deployment
adopt_deployment existing desired = record existing {
  labels = merge_string_map existing.labels desired.labels;
  spec = desired.spec;
}

abbrev pub adopt_service : ServiceObject → ServiceObject → ServiceObject
adopt_service existing desired =
    let old = existing.spec in
    let new = desired.spec in
    record existing {
      labels = merge_string_map existing.labels desired.labels;
      spec = record new { cluster_ip = old.cluster_ip; cluster_ips = old.cluster_ips };
    }

abbrev is_available : DeploymentCondition → Bool
is_available condition = condition.type == lit "Available" && condition.status == lit "True"

unfoldable pub available : Deployment → Bool
available deployment =
    is_pos deployment.status.available_replicas && any is_available deployment.status.conditions

-- `prometheusEnabled`
abbrev pub wants_prometheus : MonitoringStackSpec → Bool
wants_prometheus spec = spec.prometheus.enabled || not spec.grafana.enabled

-- The result that is returned, where Prometheus was found ready or not.
abbrev pub apply_result : Text → MonitoringStackSpec → Bool → MonitoringApplyResult
apply_result namespace spec ready = record {
  namespace = namespace;
  prometheus_url = default_prometheus_url namespace;
  prometheus_enabled = wants_prometheus spec;
  grafana_enabled = spec.grafana.enabled;
  prometheus_ready = ready;
  kube_state_metrics = wants_prometheus spec;
}

module _ {Lab : Type 0} (api : ApiServer Lab) where
  open api use {config_map_client, deployment_client, service_client}

  unfoldable pub upsert_config_map : ConfigMap → Call (Stores Lab api) (Unit {0})
  upsert_config_map desired = on_config_maps (upsert config_map_client adopt_config_map desired)

  unfoldable pub upsert_deployment : Deployment → Call (Stores Lab api) (Unit {0})
  upsert_deployment desired = on_deployments (upsert deployment_client adopt_deployment desired)

  unfoldable pub upsert_service : ServiceObject → Call (Stores Lab api) (Unit {0})
  upsert_service desired = on_services (upsert service_client adopt_service desired)

  -- A missing deployment is an error here.
  unfoldable pub deployment_available : (Text → Text) → Text → Text → Call (Stores Lab api) Bool
  deployment_available missing namespace name w =
      elim (deployment_client.get (record { namespace = namespace; name = name }) w.deployments) [
        | found deployment ↦ (ok (available deployment), w)
        | not_found ↦ (err (missing name), w)
        | failed e ↦ (err e, w)
      ]

  -- `missing` is the text of the error that `IsNotFound` tells.
  unfoldable pub apply_prometheus : (Text → Text) → Text → Call (Stores Lab api) Bool
  apply_prometheus missing namespace = do
    upsert_config_map (prometheus_config_map namespace)
    upsert_deployment (kube_state_metrics_deployment namespace)
    upsert_service (kube_state_metrics_service namespace)
    upsert_deployment (prometheus_deployment namespace)
    upsert_service (prometheus_service namespace)
    deployment_available missing namespace monitoring_prometheus_name

  unfoldable pub apply_grafana : Text → Call (Stores Lab api) (Unit {0})
  apply_grafana namespace = do
    upsert_deployment (grafana_deployment namespace)
    upsert_service (grafana_service namespace)

  -- The result beside an error is not read.
  unfoldable pub ensure_monitoring_stack :
      (Text → Text) → Text → MonitoringStackSpec → Call (Stores Lab api) MonitoringApplyResult
  ensure_monitoring_stack missing namespace spec = do
    ready ←
        λ w. if wants_prometheus spec then apply_prometheus missing namespace w else (ok false, w)
    call_if spec.grafana.enabled (apply_grafana namespace)
    pure (apply_result namespace spec ready)

-- ===== src/Controller/Monitoring/Ensured.antt =====
-- `ensureMonitoringStack` of internal/controller/monitoring_stack.go: its sequence of calls.
use mathlib.Core.Path.{subst}
use smtx_lab.Api.Resource.{MonitoringStackSpec}
use smtx_lab.Controller.Monitoring.{
  MonitoringApplyResult, ensure_monitoring_stack, apply_result, apply_grafana, upsert_config_map,
  upsert_deployment, upsert_service, apply_prometheus,
}
use smtx_lab.Controller.Client.{Result, pure, call_if, ok, key_eq, same_key}
use smtx_lab.Prelude.{
  ◌≡◌, refl, ap, ◌≢◌, Bool, true, false, not, ◌||◌, List, [], ◌∷◌, arith, if◌then◌else◌, ◌==◌,
  eq_iff, nat_eq, text_eq, All, Text, lit, text_beq,
}
use smtx_lab.Prelude.DictKeys.{IsDict}
use smtx_lab.Controller.Client.Triples.{Triple, Triple->>=}
use smtx_lab.Controller.Objects.{Stores, ConfigMap, Deployment, ServiceObject, ApiServer}
use smtx_lab.Controller.Objects.Stored.{service_key, deployment_key, IsApiServer}
use smtx_lab.Controller.Monitoring.Manifests.{
  monitoring_grafana_name, monitoring_kube_state_metrics_name, monitoring_prometheus_name,
  monitoring_labels, prometheus_config_map, prometheus_deployment, prometheus_service,
  kube_state_metrics_deployment, kube_state_metrics_service, grafana_deployment, grafana_service,
}
use smtx_lab.Controller.Monitoring.Applied.{
  IsApplied, upsert_deployment-IsApplied, upsert_service-IsApplied, upsert_config_map-IsApplied,
  available-keeps,
}

-- The objects of the stack, by whether Prometheus and Grafana are enabled.
abbrev pub config_maps_of : Bool → Text → List ConfigMap
config_maps_of prometheus namespace =
    if prometheus then prometheus_config_map namespace ∷ [] else []

abbrev pub deployments_of : Bool → Bool → Text → List Deployment
deployments_of prometheus grafana namespace =
    let base =
      if prometheus
      then prometheus_deployment namespace ∷ kube_state_metrics_deployment namespace ∷ []
      else [] in
    if grafana then grafana_deployment namespace ∷ base else base

abbrev pub services_of : Bool → Bool → Text → List ServiceObject
services_of prometheus grafana namespace =
    let base =
      if prometheus
      then prometheus_service namespace ∷ kube_state_metrics_service namespace ∷ []
      else [] in
    if grafana then grafana_service namespace ∷ base else base

differ : (a b : Text) → (a == b) ≡ false → a ≢ b
differ a b h q = ground (arith, eq_iff a b)

monitoring_labels-IsDict : (component : Text) → IsDict (monitoring_labels component)
unfolding monitoring_labels lit text_beq
monitoring_labels-IsDict component = (
  (
    differ (lit "app.kubernetes.io/name") (lit "app.kubernetes.io/component") refl,
    (differ (lit "app.kubernetes.io/name") (lit "app.kubernetes.io/managed-by") refl, tt),
  ),
  (
    (differ (lit "app.kubernetes.io/component") (lit "app.kubernetes.io/managed-by") refl, tt),
    (tt, tt),
  ),
)

-- Keys with different names differ.
apart :
    (namespace a b : Text)
    → (a == b) ≡ false
    → same_key
        (record { namespace = namespace; name = a })
        (record { namespace = namespace; name = b })
      ≡ false
apart namespace a b h = ground (arith, h)

module _ {Lab : Type 0} {api : ApiServer Lab} (s : IsApiServer Lab api) (missing : Text → Text)
    (namespace : Text) where
  abbrev pname : Text
  pname = monitoring_prometheus_name

  abbrev kname : Text
  kname = monitoring_kube_state_metrics_name

  abbrev gname : Text
  gname = monitoring_grafana_name

  prometheus-IsApplied :
      Triple (IsApplied s [] [] []) (apply_prometheus api missing namespace) (λ _.
        IsApplied s
          (config_maps_of true namespace)
          (deployments_of true false namespace)
          (services_of true false namespace))
  unfolding apply_prometheus prometheus_config_map kube_state_metrics_deployment
      kube_state_metrics_service prometheus_deployment prometheus_service lit text_beq
  prometheus-IsApplied =
      Triple->>= (upsert_config_map api cm) _ (λ _. IsApplied s (cm ∷ []) [] []) _
        (upsert_config_map-IsApplied s [] [] [] cm (monitoring_labels-IsDict _) tt)
        λ _.
          Triple->>= (upsert_deployment api kd) _ (λ _. IsApplied s (cm ∷ []) (kd ∷ []) []) _
            (upsert_deployment-IsApplied s (cm ∷ []) [] [] kd (monitoring_labels-IsDict _) tt)
            λ _.
              Triple->>= (upsert_service api ks) _ (λ _. IsApplied s (cm ∷ []) (kd ∷ []) (ks ∷ []))
                _
                (upsert_service-IsApplied s (cm ∷ []) (kd ∷ []) [] ks (monitoring_labels-IsDict _)
                  tt)
                λ _.
                  Triple->>= (upsert_deployment api pd) _
                    (λ _. IsApplied s (cm ∷ []) (pd ∷ kd ∷ []) (ks ∷ [])) _
                    (upsert_deployment-IsApplied s (cm ∷ []) (kd ∷ []) (ks ∷ []) pd
                      (monitoring_labels-IsDict _) (apart namespace pname kname refl, tt))
                    λ _.
                      Triple->>= (upsert_service api ps) _
                        (λ _. IsApplied s (cm ∷ []) (pd ∷ kd ∷ []) (ps ∷ ks ∷ [])) _
                        (upsert_service-IsApplied s (cm ∷ []) (pd ∷ kd ∷ []) (ks ∷ []) ps
                          (monitoring_labels-IsDict _) (apart namespace pname kname refl, tt))
                        λ _.
                          available-keeps s missing namespace monitoring_prometheus_name (cm ∷ [])
                            (pd ∷ kd ∷ []) (ps ∷ ks ∷ [])
    where
      cm : ConfigMap
      cm = prometheus_config_map namespace

      kd : Deployment
      kd = kube_state_metrics_deployment namespace

      pd : Deployment
      pd = prometheus_deployment namespace

      ks : ServiceObject
      ks = kube_state_metrics_service namespace

      ps : ServiceObject
      ps = prometheus_service namespace

  deployments_apart :
      (prometheus : Bool)
      → All
          (λ o. (deployment_key (grafana_deployment namespace) == deployment_key o) ≡ false)
          (deployments_of prometheus false namespace)
  unfolding grafana_deployment prometheus_deployment kube_state_metrics_deployment lit text_beq
  deployments_apart true =
      (apart namespace gname pname refl, (apart namespace gname kname refl, tt))
  deployments_apart false = tt

  services_apart :
      (prometheus : Bool)
      → All
          (λ o. (service_key (grafana_service namespace) == service_key o) ≡ false)
          (services_of prometheus false namespace)
  unfolding grafana_service prometheus_service kube_state_metrics_service lit text_beq
  services_apart true = (apart namespace gname pname refl, (apart namespace gname kname refl, tt))
  services_apart false = tt

  grafana-IsApplied :
      (prometheus : Bool)
      → Triple
          (IsApplied s
            (config_maps_of prometheus namespace)
            (deployments_of prometheus false namespace)
            (services_of prometheus false namespace))
          (apply_grafana api namespace)
          (λ _.
            IsApplied s
              (config_maps_of prometheus namespace)
              (deployments_of prometheus true namespace)
              (services_of prometheus true namespace))
  unfolding apply_grafana grafana_deployment grafana_service
  grafana-IsApplied prometheus =
      let cs = config_maps_of prometheus namespace in
      let ds = deployments_of prometheus false namespace in
      let ss = services_of prometheus false namespace in
      Triple->>= (upsert_deployment api (grafana_deployment namespace)) _
        (λ _. IsApplied s cs (grafana_deployment namespace ∷ ds) ss) _
        (upsert_deployment-IsApplied s cs ds ss (grafana_deployment namespace)
          (monitoring_labels-IsDict _) (deployments_apart prometheus))
        λ _.
          upsert_service-IsApplied s cs (grafana_deployment namespace ∷ ds) ss
            (grafana_service namespace) (monitoring_labels-IsDict _) (services_apart prometheus)

  prometheus_if :
      (prometheus : Bool)
      → Triple
          (IsApplied s [] [] [])
          (λ w. if prometheus then apply_prometheus api missing namespace w else (ok false, w))
          (λ _.
            IsApplied s
              (config_maps_of prometheus namespace)
              (deployments_of prometheus false namespace)
              (services_of prometheus false namespace))
  prometheus_if true w w2 a p u = prometheus-IsApplied w w2 a p u
  prometheus_if false w w2 a p u = subst (IsApplied s [] [] []) (ap (λ q. q.1) u) p

  grafana_if :
      (prometheus grafana : Bool)
      → Triple
          (IsApplied s
            (config_maps_of prometheus namespace)
            (deployments_of prometheus false namespace)
            (services_of prometheus false namespace))
          (call_if grafana (apply_grafana api namespace))
          (λ _.
            IsApplied s
              (config_maps_of prometheus namespace)
              (deployments_of prometheus grafana namespace)
              (services_of prometheus grafana namespace))
  grafana_if prometheus true w w2 a p u = grafana-IsApplied prometheus w w2 a p u
  grafana_if prometheus false w w2 a p u =
      subst
        (IsApplied s (config_maps_of prometheus namespace)
          (deployments_of prometheus false namespace) (services_of prometheus false namespace))
        (ap (λ q. q.1) u) p

  abbrev pub IsEnsured : MonitoringStackSpec → MonitoringApplyResult → Stores Lab api → Type 0
  IsEnsured spec r w =
      IsApplied s (config_maps_of r.prometheus_enabled namespace)
        (deployments_of r.prometheus_enabled r.grafana_enabled namespace)
        (services_of r.prometheus_enabled r.grafana_enabled namespace) w
      × (r.prometheus_enabled ≡ (spec.prometheus.enabled || not spec.grafana.enabled))
      × (r.grafana_enabled ≡ spec.grafana.enabled)

  finish :
      (spec : MonitoringStackSpec) (v v2 : Stores Lab api) (made r : MonitoringApplyResult)
      → IsApplied s
          (config_maps_of made.prometheus_enabled namespace)
          (deployments_of made.prometheus_enabled made.grafana_enabled namespace)
          (services_of made.prometheus_enabled made.grafana_enabled namespace)
          v
      → ◌≡◌ {A = Result MonitoringApplyResult × Stores Lab api} (ok made, v) (ok r, v2)
      → made.prometheus_enabled ≡ (spec.prometheus.enabled || not spec.grafana.enabled)
      → made.grafana_enabled ≡ spec.grafana.enabled
      → IsEnsured spec r v2
  finish spec v v2 made r p q e f =
      let same : made ≡ r = cc in
      let after : v ≡ v2 = cc in
      subst (λ m. IsEnsured spec m v2) same (subst (λ x. IsEnsured spec made x) after (p, e, f))

  -- Where `ensureMonitoringStack` returns no error, the server holds every object of the stack, with
  -- its labels and with every field of its contents that the code sets, but for the quantities of
  -- resources: the configuration, the two deployments and
  -- the two services of Prometheus where that is enabled or Grafana is not, and the deployment and the
  -- service of Grafana where that is enabled. The result tells the two flags.
  pub ensure_monitoring_stack_applies :
      (spec : MonitoringStackSpec) (w w2 : Stores Lab api) (r : MonitoringApplyResult)
      → ensure_monitoring_stack api missing namespace spec w ≡ (ok r, w2)
      → IsEnsured spec r w2
  unfolding ensure_monitoring_stack
  ensure_monitoring_stack_applies spec w w2 r u =
      let prometheus = spec.prometheus.enabled || not spec.grafana.enabled in
      let grafana = spec.grafana.enabled in
      Triple->>= _ _
        (λ _.
          IsApplied s (config_maps_of prometheus namespace)
            (deployments_of prometheus false namespace) (services_of prometheus false namespace))
        (λ result v. IsEnsured spec result v) (prometheus_if prometheus)
        (λ ready.
          Triple->>= _ (λ _. pure (apply_result namespace spec ready))
            (λ _.
              IsApplied s (config_maps_of prometheus namespace)
                (deployments_of prometheus grafana namespace)
                (services_of prometheus grafana namespace))
            (λ result v. IsEnsured spec result v) (grafana_if prometheus grafana)
            (λ _ v v2 result p q.
              finish spec v v2 (apply_result namespace spec ready) result p q refl refl))
        w w2 r (record { configured = tt; deployed = tt; served = tt }) u

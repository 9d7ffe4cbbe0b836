-- ===== src/Controller/Monitoring/Manifests.antt =====
-- The objects of the monitoring stack, and `mergeStringMap`, of
-- internal/controller/monitoring_stack.go.
use smtx_lab.Prelude.{Option, some, List, [], ◌∷◌, ◌++◌, nat_eq, text_eq, Text, lit, Dict, insert}
use smtx_lab.Prelude.Int.{pos}
use smtx_lab.Controller.Objects.{
  ConfigMap, ResourceRequirements, config_map_volume, empty_dir, PodSpec, Deployment, ServicePort,
  ServiceObject,
}

abbrev pub monitoring_prometheus_name : Text
monitoring_prometheus_name = lit "smtx-lab-prometheus"

abbrev pub monitoring_grafana_name : Text
monitoring_grafana_name = lit "smtx-lab-grafana"

abbrev pub monitoring_kube_state_metrics_name : Text
monitoring_kube_state_metrics_name = lit "kube-state-metrics"

abbrev default_prometheus_image : Text
default_prometheus_image = lit "registry.cn-hangzhou.aliyuncs.com/smtxlab/prometheus:v2.53.1"

abbrev default_kube_state_metrics_image : Text
default_kube_state_metrics_image =
    lit "registry.cn-hangzhou.aliyuncs.com/smtxlab/kube-state-metrics:v2.13.0"

abbrev default_grafana_image : Text
default_grafana_image = lit "registry.cn-hangzhou.aliyuncs.com/smtxlab/grafana:11.1.4"

unfoldable pub monitoring_labels : Text → Dict Text Text
monitoring_labels component =
    (lit "app.kubernetes.io/name", lit "smtx-lab-operator")
    ∷ (lit "app.kubernetes.io/component", component)
    ∷ (lit "app.kubernetes.io/managed-by", lit "smtx-lab-operator")
    ∷ []

unfoldable pub default_prometheus_url : Text → Text
default_prometheus_url namespace =
    lit "http://" ++ (monitoring_prometheus_name ++ (lit "." ++ (namespace ++ lit ".svc:9090")))

-- `for k, v := range m { out[k] = v }`
unfoldable pub set_all : Dict Text Text → Dict Text Text → Dict Text Text
set_all [] out = out
set_all ((k, v) ∷ m) out = set_all m (insert k v out)

unfoldable pub merge_string_map : Dict Text Text → Dict Text Text → Dict Text Text
merge_string_map existing desired = set_all desired (set_all existing [])

-- The lines of `prometheus.yml`.
abbrev prometheus_lines : List Text
prometheus_lines =
    lit "global:"
    ∷ lit "  scrape_interval: 30s"
    ∷ lit "  evaluation_interval: 30s"
    ∷ lit "scrape_configs:"
    ∷ lit "  - job_name: kubernetes-cadvisor"
    ∷ lit "    scheme: https"
    ∷ lit "    kubernetes_sd_configs:"
    ∷ lit "      - role: node"
    ∷ lit "    tls_config:"
    ∷ lit "      insecure_skip_verify: true"
    ∷ lit "    bearer_token_file: /var/run/secrets/kubernetes.io/serviceaccount/token"
    ∷ lit "    metrics_path: /metrics/cadvisor"
    ∷ lit "    relabel_configs:"
    ∷ lit "      - action: labelmap"
    ∷ lit "        regex: __meta_kubernetes_node_label_(.+)"
    ∷ lit "  - job_name: kube-state-metrics"
    ∷ lit "    kubernetes_sd_configs:"
    ∷ lit "      - role: endpoints"
    ∷ lit "    relabel_configs:"
    ∷ lit "      - source_labels: [__meta_kubernetes_service_name]"
    ∷ lit "        action: keep"
    ∷ lit "        regex: kube-state-metrics|smtx-lab-kube-state-metrics"
    ∷ []

-- Each line with its end.
unfoldable pub text_of_lines : List Text → Text
text_of_lines [] = []
text_of_lines (line ∷ lines) = line ++ (10 ∷ text_of_lines lines)

unfoldable pub prometheus_config_map : Text → ConfigMap
prometheus_config_map namespace = record {
  namespace = namespace;
  name = monitoring_prometheus_name;
  labels = monitoring_labels (lit "prometheus");
  annotations = [];
  data_of = (lit "prometheus.yml", text_of_lines prometheus_lines) ∷ [];
  binary_data = [];
}

abbrev resources : Text → Text → Text → Text → Option ResourceRequirements
resources cpu memory limit_cpu limit_memory = some (record {
  requests = record { cpu = cpu; memory = memory };
  limits = record { cpu = limit_cpu; memory = limit_memory };
})

-- A deployment of one replica with one container, as the three functions write it.
abbrev deployment_of : Text → Text → Dict Text Text → PodSpec → Deployment
deployment_of namespace name labels spec = record {
  namespace = namespace;
  name = name;
  labels = labels;
  spec = record {
    replicas = pos 1;
    selector = labels;
    template = record { labels = labels; spec = spec };
  };
  status = record { available_replicas = pos 0; conditions = [] };
}

abbrev service_of : Text → Text → Dict Text Text → List ServicePort → ServiceObject
service_of namespace name labels ports = record {
  namespace = namespace;
  name = name;
  labels = labels;
  spec = record { selector = labels; ports = ports; cluster_ip = []; cluster_ips = [] };
}

unfoldable pub prometheus_deployment : Text → Deployment
prometheus_deployment namespace =
    deployment_of namespace monitoring_prometheus_name (monitoring_labels (lit "prometheus"))
      (record {
        service_account_name = lit "smtx-lab-operator";
        node_name = [];
        restart_policy = [];
        containers =
            (record {
              name = lit "prometheus";
              image = default_prometheus_image;
              image_pull_policy = [];
              command = [];
              args =
                  lit "--config.file=/etc/prometheus/prometheus.yml"
                  ∷ lit "--storage.tsdb.path=/prometheus"
                  ∷ lit "--storage.tsdb.retention.time=15d"
                  ∷ lit "--web.enable-lifecycle"
                  ∷ [];
              env = [];
              ports = record { name = lit "web"; container_port = pos 9090 } ∷ [];
              volume_mounts =
                  record { name = lit "config"; mount_path = lit "/etc/prometheus" }
                  ∷ record { name = lit "data"; mount_path = lit "/prometheus" }
                  ∷ [];
              resources = resources (lit "100m") (lit "256Mi") (lit "1000m") (lit "2Gi");
            })
            ∷ [];
        volumes =
            record { name = lit "config"; source = config_map_volume monitoring_prometheus_name }
            ∷ record { name = lit "data"; source = empty_dir }
            ∷ [];
      })

unfoldable pub prometheus_service : Text → ServiceObject
prometheus_service namespace =
    service_of namespace monitoring_prometheus_name (monitoring_labels (lit "prometheus"))
      (record { name = lit "web"; port = pos 9090; target_port = lit "web" } ∷ [])

unfoldable pub kube_state_metrics_deployment : Text → Deployment
kube_state_metrics_deployment namespace =
    deployment_of namespace monitoring_kube_state_metrics_name
      (monitoring_labels (lit "kube-state-metrics"))
      (record {
        service_account_name = lit "smtx-lab-operator";
        node_name = [];
        restart_policy = [];
        containers =
            (record {
              name = lit "kube-state-metrics";
              image = default_kube_state_metrics_image;
              image_pull_policy = [];
              command = [];
              args = lit "--port=8080" ∷ lit "--telemetry-port=8081" ∷ [];
              env = [];
              ports =
                  record { name = lit "http"; container_port = pos 8080 }
                  ∷ record { name = lit "telemetry"; container_port = pos 8081 }
                  ∷ [];
              volume_mounts = [];
              resources = resources (lit "50m") (lit "128Mi") (lit "500m") (lit "512Mi");
            })
            ∷ [];
        volumes = [];
      })

unfoldable pub kube_state_metrics_service : Text → ServiceObject
kube_state_metrics_service namespace =
    service_of namespace monitoring_kube_state_metrics_name
      (monitoring_labels (lit "kube-state-metrics"))
      (record { name = lit "http"; port = pos 8080; target_port = lit "http" }
        ∷ record { name = lit "telemetry"; port = pos 8081; target_port = lit "telemetry" }
        ∷ [])

unfoldable pub grafana_deployment : Text → Deployment
grafana_deployment namespace =
    deployment_of namespace monitoring_grafana_name (monitoring_labels (lit "grafana")) (record {
      service_account_name = [];
      node_name = [];
      restart_policy = [];
      containers =
          (record {
            name = lit "grafana";
            image = default_grafana_image;
            image_pull_policy = [];
            command = [];
            args = [];
            env =
                record { name = lit "GF_SECURITY_ADMIN_USER"; value = lit "admin" }
                ∷ record { name = lit "GF_SECURITY_ADMIN_PASSWORD"; value = lit "admin" }
                ∷ record { name = lit "GF_AUTH_ANONYMOUS_ENABLED"; value = lit "true" }
                ∷ record { name = lit "GF_AUTH_ANONYMOUS_ORG_ROLE"; value = lit "Viewer" }
                ∷ [];
            ports = record { name = lit "http"; container_port = pos 3000 } ∷ [];
            volume_mounts = [];
            resources = resources (lit "50m") (lit "128Mi") (lit "500m") (lit "512Mi");
          })
          ∷ [];
      volumes = [];
    })

unfoldable pub grafana_service : Text → ServiceObject
grafana_service namespace =
    service_of namespace monitoring_grafana_name (monitoring_labels (lit "grafana"))
      (record { name = lit "http"; port = pos 3000; target_port = lit "http" } ∷ [])

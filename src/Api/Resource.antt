-- ===== src/Api/Resource.antt =====
-- api/v1alpha1/resourceanalyzerlab_types.go: the types that the analyzer reads and writes. `F` is
-- `float64`; `int32` and `int64` are integers.
use smtx_lab.Prelude.{Bool, List, nat_eq, text_eq, Text}
use smtx_lab.Api.Network.{LabPhase}
use smtx_lab.Prelude.Int.{ℤ, pos}

pub record ResourceTargetSpec : Type 0 where
  pub namespaces : List Text
  pub workload_kinds : List Text
  pub exclude_namespaces : List Text

pub record ResourceRecommendationRule (F : Type 0) : Type 0 where
  pub request_percentile : Text
  pub limit_percentile : Text
  pub request_headroom_ratio : F
  pub limit_headroom_ratio : F
  pub min_request_millicores : ℤ
  pub min_request_mib : ℤ

pub record LanguageOverrideSpec : Type 0 where
  pub namespace : Text
  pub workload : Text
  pub container : Text
  pub language : Text

pub record LanguageHintsSpec : Type 0 where
  pub default : Text
  pub overrides : List LanguageOverrideSpec

pub record RecommendationPolicySpec (F : Type 0) : Type 0 where
  pub cpu : ResourceRecommendationRule F
  pub memory : ResourceRecommendationRule F
  pub language_hints : LanguageHintsSpec

pub record ContainerResourceValues : Type 0 where
  pub cpu_request_millicores : ℤ
  pub cpu_limit_millicores : ℤ
  pub memory_request_mib : ℤ
  pub memory_limit_mib : ℤ

pub record ObservedResourceValues : Type 0 where
  pub cpu_p50_millicores : ℤ
  pub cpu_p95_millicores : ℤ
  pub cpu_p99_millicores : ℤ
  pub memory_p50_mib : ℤ
  pub memory_p95_mib : ℤ
  pub memory_p99_mib : ℤ

pub record ResourceUsageStats : Type 0 where
  pub sample_count : ℤ
  pub cpu_min_millicores : ℤ
  pub cpu_avg_millicores : ℤ
  pub cpu_max_millicores : ℤ
  pub memory_min_mib : ℤ
  pub memory_avg_mib : ℤ
  pub memory_max_mib : ℤ

pub record ResourceUsageWindows : Type 0 where
  pub current : ResourceUsageStats
  pub last_7d : ResourceUsageStats
  pub last_14d : ResourceUsageStats

pub record ResourceRecommendation : Type 0 where
  pub namespace : Text
  pub workload_kind : Text
  pub workload_name : Text
  pub pod : Text
  pub container : Text
  pub language : Text
  pub current : ContainerResourceValues
  pub observed : ObservedResourceValues
  pub usage : ResourceUsageWindows
  pub recommended : ContainerResourceValues
  pub reason : Text

pub record ResourceAnalyzerSummary : Type 0 where
  pub analyzed_namespaces : ℤ
  pub analyzed_workloads : ℤ
  pub analyzed_containers : ℤ
  pub recommended_changes : ℤ
  pub potential_cpu_request_reduction_millicores : ℤ
  pub potential_memory_request_reduction_mib : ℤ

pub record MetricsSourceSpec : Type 0 where
  pub prometheus_url : Text
  pub lookback_days : ℤ
  pub step : Text
  pub timeout_seconds : ℤ

pub record MonitoringItem : Type 0 where
  pub enabled : Bool

pub record MonitoringStackSpec : Type 0 where
  pub auto_deploy : Bool
  pub prometheus : MonitoringItem
  pub grafana : MonitoringItem

-- `ExcelOutputSpec` and `HTMLOutputSpec`
pub record ReportOutputSpec : Type 0 where
  pub enabled : Bool
  pub config_map_name : Text

pub record ResourceAnalyzerOutputSpec : Type 0 where
  pub excel : ReportOutputSpec
  pub html : ReportOutputSpec
  pub include_raw_metrics : Bool

pub record ArtifactStatus : Type 0 where
  pub excel_config_map_name : Text
  pub html_config_map_name : Text
  pub raw_snapshot_config_map_names : List Text

pub record ResourceAnalyzerLabSpec (F : Type 0) : Type 0 where
  pub target : ResourceTargetSpec
  pub metrics : MetricsSourceSpec
  pub recommendation : RecommendationPolicySpec F
  pub monitoring_stack : MonitoringStackSpec
  pub output : ResourceAnalyzerOutputSpec

-- `Conditions` stands for `[]metav1.Condition`.
pub record ResourceAnalyzerLabStatus (Conditions : Type 0) : Type 0 where
  pub observed_generation : ℤ
  pub phase : LabPhase
  pub conditions : Conditions
  pub summary : ResourceAnalyzerSummary
  pub recommendations : List ResourceRecommendation
  pub artifacts : ArtifactStatus

-- With what is read of the object's metadata.
pub record ResourceAnalyzerLab (F Conditions : Type 0) : Type 0 where
  pub name : Text
  pub generation : ℤ
  pub deleting : Bool
  pub finalizers : List Text
  pub spec : ResourceAnalyzerLabSpec F
  pub status : ResourceAnalyzerLabStatus Conditions

-- The zero values of Go.
abbrev pub zero_values : ContainerResourceValues
zero_values = record {
  cpu_request_millicores = pos 0;
  cpu_limit_millicores = pos 0;
  memory_request_mib = pos 0;
  memory_limit_mib = pos 0;
}

abbrev pub zero_stats : ResourceUsageStats
zero_stats = record {
  sample_count = pos 0;
  cpu_min_millicores = pos 0;
  cpu_avg_millicores = pos 0;
  cpu_max_millicores = pos 0;
  memory_min_mib = pos 0;
  memory_avg_mib = pos 0;
  memory_max_mib = pos 0;
}

abbrev pub zero_windows : ResourceUsageWindows
zero_windows = record { current = zero_stats; last_7d = zero_stats; last_14d = zero_stats }

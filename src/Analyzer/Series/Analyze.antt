-- ===== src/Analyzer/Series/Analyze.antt =====
-- `AnalyzeResourceSeries` of internal/analyzer/resource_series.go, over the series that
-- internal/metrics/prometheus.go returns.
use smtx_lab.Prelude.{
  Bool, not, ◌&&◌, none, some, List, [], ◌∷◌, ◌++◌, map, if◌then◌else◌, nat_eq, text_eq, length,
  filter, Text, lit, is_empty, Dict, lookup, insert, value_or, add_key, sort_slice,
}
use smtx_lab.Prelude.Int.{ℤ, pos, is_pos, ◌+ℤ◌, ◌-ℤ◌, wrap64, wrap32}
use smtx_lab.Api.Resource.{
  ResourceTargetSpec, RecommendationPolicySpec, ResourceRecommendation, ResourceAnalyzerSummary,
  zero_values, zero_windows,
}
use smtx_lab.Analyzer.Float.{Float}
use smtx_lab.Analyzer.Resource.{
  SamplePoint, ContainerUsageProfile, cores_to_millicores, bytes_to_mib,
}
use smtx_lab.Analyzer.Resource.Recommend.{recommend_resources}
use smtx_lab.Analyzer.Series.{
  SeriesKey, key_eq, key_less, key_from_metric, target_matches, workload_kind_matches,
  workload_from_labels, language_for, recommendation_changed,
}
use smtx_lab.Analyzer.Series.Usage.{build_usage_windows}

-- The profiles of the containers that have samples, in the order of the result.
abbrev pub entry_less {ℓ} : {V : Type ℓ} → SeriesKey × V → SeriesKey × V → Bool
entry_less a b = key_less a.0 b.0

module _ (f : Float) where
  open f use {F, literal}

  -- `metrics.Series`; a sample's timestamp is what `Unix()` gives of it.
  pub record Series : Type 0 where
    pub metric : Dict Text Text
    pub values : List (SamplePoint f)

  pub record ResourceAnalysisResult : Type 0 where
    pub summary : ResourceAnalyzerSummary
    pub recommendations : List ResourceRecommendation

  abbrev pub Profiles : Type 0
  Profiles = Dict SeriesKey (ContainerUsageProfile f)

  unfoldable pub latest_value : List (SamplePoint f) → F
  latest_value [] = literal 0 1
  latest_value (sample ∷ []) = sample.value
  latest_value (sample ∷ next ∷ samples) = latest_value (next ∷ samples)

  abbrev pub add_cpu : Series → ContainerUsageProfile f → ContainerUsageProfile f
  add_cpu series p = record p {
    cpu_cores = p.cpu_cores ++ map (λ sample. sample.value) series.values;
    cpu_samples = p.cpu_samples ++ series.values;
  }

  abbrev pub add_memory : Series → ContainerUsageProfile f → ContainerUsageProfile f
  add_memory series p = record p {
    memory_bytes = p.memory_bytes ++ map (λ sample. sample.value) series.values;
    memory_samples = p.memory_samples ++ series.values;
  }

  abbrev pub set_cpu_request : Series → ContainerUsageProfile f → ContainerUsageProfile f
  set_cpu_request series p =
      let current = p.current in
      record p {
        current = record current {
          cpu_request_millicores = cores_to_millicores f (latest_value series.values);
        };
      }

  abbrev pub set_memory_request : Series → ContainerUsageProfile f → ContainerUsageProfile f
  set_memory_request series p =
      let current = p.current in
      record p {
        current = record current {
          memory_request_mib = bytes_to_mib f (latest_value series.values);
        };
      }

  abbrev pub set_cpu_limit : Series → ContainerUsageProfile f → ContainerUsageProfile f
  set_cpu_limit series p =
      let current = p.current in
      record p {
        current = record current {
          cpu_limit_millicores = cores_to_millicores f (latest_value series.values);
        };
      }

  abbrev pub set_memory_limit : Series → ContainerUsageProfile f → ContainerUsageProfile f
  set_memory_limit series p =
      let current = p.current in
      record p {
        current = record current { memory_limit_mib = bytes_to_mib f (latest_value series.values) };
      }

  module _ (target : ResourceTargetSpec) (policy : RecommendationPolicySpec F) where
    -- The profile that `ensure` makes of a key.
    unfoldable pub new_profile : SeriesKey → Dict Text Text → ContainerUsageProfile f
    new_profile key labels =
        let (kind, name) = workload_from_labels labels key.pod in
        record {
          namespace = key.namespace;
          workload_kind = kind;
          workload_name = name;
          pod = key.pod;
          container = key.container;
          language = language_for policy.language_hints key.namespace name key.container;
          cpu_cores = [];
          memory_bytes = [];
          cpu_samples = [];
          memory_samples = [];
          usage = zero_windows;
          current = zero_values;
        }

    unfoldable pub ensure : SeriesKey → Dict Text Text → Profiles → ContainerUsageProfile f
    ensure key labels profiles = value_or (new_profile key labels) (lookup key profiles)

    -- One series of a loop, with the change that the loop makes to the profile.
    unfoldable pub read_series :
        (Series → ContainerUsageProfile f → ContainerUsageProfile f) → Series → Profiles → Profiles
    read_series update series profiles = elim (key_from_metric series.metric) [
      | none ↦ profiles
      | some key ↦
          if target_matches key target
          then insert key (update series (ensure key series.metric profiles)) profiles
          else profiles
    ]

    unfoldable pub read_all :
        (Series → ContainerUsageProfile f → ContainerUsageProfile f)
        → List Series
        → Profiles
        → Profiles
    read_all update [] profiles = profiles
    read_all update (series ∷ rest) profiles =
        read_all update rest (read_series update series profiles)

    -- A profile with samples, of a kind that is asked for.
    unfoldable pub is_selected : SeriesKey × ContainerUsageProfile f → Bool
    is_selected (key, p) =
        not (is_empty p.cpu_cores && is_empty p.memory_bytes)
        && workload_kind_matches p.workload_kind target.workload_kinds

    unfoldable pub recommend_for : SeriesKey × ContainerUsageProfile f → ResourceRecommendation
    recommend_for (key, p) =
        recommend_resources f
          (record p { usage = build_usage_windows f p.cpu_samples p.memory_samples }) policy

    abbrev workload_key : ResourceRecommendation → Text
    workload_key rec =
        rec.namespace ++ (lit "/" ++ (rec.workload_kind ++ (lit "/" ++ rec.workload_name)))

    abbrev add_reduction : ℤ → ℤ → ℤ → ℤ
    add_reduction current recommended total =
        let delta = wrap64 (current -ℤ recommended) in
        if is_pos delta then wrap64 (total +ℤ delta) else total

    -- The summary after one recommendation.
    unfoldable pub add_to_summary :
        ResourceRecommendation → ResourceAnalyzerSummary → ResourceAnalyzerSummary
    add_to_summary rec s = record s {
      analyzed_containers = wrap32 (s.analyzed_containers +ℤ pos 1);
      recommended_changes =
          if recommendation_changed rec
          then wrap32 (s.recommended_changes +ℤ pos 1)
          else s.recommended_changes;
      potential_cpu_request_reduction_millicores =
          add_reduction rec.current.cpu_request_millicores rec.recommended.cpu_request_millicores
            s.potential_cpu_request_reduction_millicores;
      potential_memory_request_reduction_mib =
          add_reduction rec.current.memory_request_mib rec.recommended.memory_request_mib
            s.potential_memory_request_reduction_mib;
    }

    unfoldable pub summarize :
        List ResourceRecommendation → ResourceAnalyzerSummary → ResourceAnalyzerSummary
    summarize [] s = s
    summarize (rec ∷ recs) s = summarize recs (add_to_summary rec s)

    -- The keys of the sets `namespaces` and `workloads`.
    unfoldable pub distinct_keys : List Text → List Text → List Text
    distinct_keys [] set = set
    distinct_keys (key ∷ rest) set = distinct_keys rest (add_key set key)

    unfoldable pub selected_profiles : Profiles → Profiles
    selected_profiles profiles = sort_slice entry_less (filter is_selected profiles)

    unfoldable pub result_of : Profiles → ResourceAnalysisResult
    result_of profiles =
        let recs = map recommend_for (selected_profiles profiles) in
        let namespaces = distinct_keys (map (λ rec. rec.namespace) recs) [] in
        let workloads = distinct_keys (map workload_key recs) [] in
        record {
          recommendations = recs;
          summary = summarize recs (record {
            analyzed_namespaces = wrap32 (pos (length namespaces));
            analyzed_workloads = wrap32 (pos (length workloads));
            analyzed_containers = pos 0;
            recommended_changes = pos 0;
            potential_cpu_request_reduction_millicores = pos 0;
            potential_memory_request_reduction_mib = pos 0;
          });
        }

    unfoldable pub profiles_of :
        List Series → List Series → List Series → List Series → List Series → List Series → Profiles
    profiles_of cpu memory requests_cpu requests_memory limits_cpu limits_memory =
        read_all set_memory_limit limits_memory (
          read_all set_cpu_limit limits_cpu (
            read_all set_memory_request requests_memory (
              read_all set_cpu_request requests_cpu
                (read_all add_memory memory (read_all add_cpu cpu [])))))

    unfoldable pub analyze_resource_series :
        List Series
        → List Series
        → List Series
        → List Series
        → List Series
        → List Series
        → ResourceAnalysisResult
    analyze_resource_series cpu memory requests_cpu requests_memory limits_cpu limits_memory =
        result_of (profiles_of cpu memory requests_cpu requests_memory limits_cpu limits_memory)

-- ===== src/Analyzer/Resource/Recommend.antt =====
-- `RecommendResources` of internal/analyzer/resource.go.
use smtx_lab.Prelude.{◌++◌, if◌then◌else◌, nat_eq, text_eq, Text, lit, is_empty}
use smtx_lab.Prelude.Int.{ℤ, pos}
use smtx_lab.Strings.{trim_space}
use smtx_lab.Api.Resource.{RecommendationPolicySpec, ResourceRecommendation}
use smtx_lab.Analyzer.Float.{Float}
use smtx_lab.Analyzer.Resource.{
  max_int64, min_millicores, min_mib, round_millicores, round_mib, raise_limit, cores_to_millicores,
  bytes_to_mib, apply_headroom, language_cpu_limit_headroom, language_memory_request_headroom,
  language_memory_limit_headroom, percentile_name, percentile, ContainerUsageProfile,
}

-- `cpuRequest` and `memRequest` before the rounding, and `cpuLimit` and `memLimit` before it.
module _ (f : Float) (profile : ContainerUsageProfile f)
    (policy : RecommendationPolicySpec f.F) where
  open f use {literal}

  unfoldable pub language_of_profile : Text
  unfolding trim_space is_empty
  language_of_profile =
      let language = trim_space profile.language in
      let hint = if is_empty language then policy.language_hints.default else language in
      if is_empty hint then lit "Go" else hint

  unfoldable pub cpu_request_of : ℤ
  cpu_request_of =
      let p = percentile_name f policy.cpu.request_percentile (lit "p95") in
      let base =
        max_int64 (cores_to_millicores f (percentile f profile.cpu_cores p))
          profile.usage.last_14d.cpu_avg_millicores in
      apply_headroom f base policy.cpu.request_headroom_ratio
        (min_millicores policy.cpu.min_request_millicores)

  unfoldable pub cpu_limit_of : Text → ℤ
  cpu_limit_of language =
      let p = percentile_name f policy.cpu.limit_percentile (lit "p99") in
      let base =
        max_int64 (cores_to_millicores f (percentile f profile.cpu_cores p))
          profile.usage.last_14d.cpu_max_millicores in
      apply_headroom f base (language_cpu_limit_headroom f language policy.cpu.limit_headroom_ratio)
        (pos 0)

  unfoldable pub memory_request_of : Text → ℤ
  memory_request_of language =
      let p = percentile_name f policy.memory.request_percentile (lit "p95") in
      let base =
        max_int64 (bytes_to_mib f (percentile f profile.memory_bytes p))
          profile.usage.last_14d.memory_avg_mib in
      apply_headroom f base
        (language_memory_request_headroom f language policy.memory.request_headroom_ratio)
        (min_mib policy.memory.min_request_mib)

  unfoldable pub memory_limit_of : Text → ℤ
  memory_limit_of language =
      let p = percentile_name f policy.memory.limit_percentile (lit "p99") in
      let base =
        max_int64 (bytes_to_mib f (percentile f profile.memory_bytes p))
          profile.usage.last_14d.memory_max_mib in
      apply_headroom f base
        (language_memory_limit_headroom f language policy.memory.limit_headroom_ratio) (pos 0)

  -- The text of `Reason`.
  abbrev reason_of : Text → Text
  reason_of language =
      lit "request uses max(14d avg,"
      ++ (policy.cpu.request_percentile
          ++ (lit ") with headroom; limit uses 14d peak/"
              ++ (policy.cpu.limit_percentile
                  ++ (lit " with " ++ (language ++ lit " runtime headroom")))))

  unfoldable pub recommend_resources : ResourceRecommendation
  recommend_resources =
      let language = language_of_profile in
      let cpu_request = round_millicores cpu_request_of in
      let memory_request = round_mib (memory_request_of language) in
      record {
        namespace = profile.namespace;
        workload_kind = profile.workload_kind;
        workload_name = profile.workload_name;
        pod = profile.pod;
        container = profile.container;
        language = language;
        current = profile.current;
        observed = record {
          cpu_p50_millicores =
              cores_to_millicores f (percentile f profile.cpu_cores (literal 50 100));
          cpu_p95_millicores =
              cores_to_millicores f (percentile f profile.cpu_cores (literal 95 100));
          cpu_p99_millicores =
              cores_to_millicores f (percentile f profile.cpu_cores (literal 99 100));
          memory_p50_mib = bytes_to_mib f (percentile f profile.memory_bytes (literal 50 100));
          memory_p95_mib = bytes_to_mib f (percentile f profile.memory_bytes (literal 95 100));
          memory_p99_mib = bytes_to_mib f (percentile f profile.memory_bytes (literal 99 100));
        };
        usage = profile.usage;
        recommended = record {
          cpu_request_millicores = cpu_request;
          cpu_limit_millicores = raise_limit cpu_request (round_millicores (cpu_limit_of language));
          memory_request_mib = memory_request;
          memory_limit_mib = raise_limit memory_request (round_mib (memory_limit_of language));
        };
        reason = reason_of language;
      }

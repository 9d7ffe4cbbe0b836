-- ===== src/Analyzer/Series/Usage.antt =====
-- `BuildUsageWindows` of internal/analyzer/resource_series.go.
use smtx_lab.Prelude.{
  ℕ, ◌*◌, max, ◌&&◌, Option, none, some, List, [], ◌∷◌, map, if◌then◌else◌, nat_eq, text_eq, length,
  filter,
}
use smtx_lab.Prelude.Int.{ℤ, pos, ltb_ℤ, leb_ℤ, beq_ℤ, ◌-ℤ◌, wrap64, wrap32}
use smtx_lab.Api.Resource.{ResourceUsageStats, ResourceUsageWindows, zero_stats, zero_windows}
use smtx_lab.Analyzer.Float.{Float}
use smtx_lab.Analyzer.Resource.{SamplePoint, cores_to_millicores, bytes_to_mib}

module _ (f : Float) where
  open f use {F, literal, lt, add, div, of_int, inf, neg_inf}

  unfoldable pub latest_from : ℤ → List (SamplePoint f) → ℤ
  latest_from latest [] = latest
  latest_from latest (sample ∷ samples) =
      latest_from (if ltb_ℤ latest sample.timestamp then sample.timestamp else latest) samples

  unfoldable pub latest_timestamp : List (SamplePoint f) → List (SamplePoint f) → ℤ
  latest_timestamp cpu memory = latest_from (latest_from (pos 0) cpu) memory

  unfoldable pub later_sample : SamplePoint f → List (SamplePoint f) → SamplePoint f
  later_sample latest [] = latest
  later_sample latest (sample ∷ samples) =
      later_sample (if leb_ℤ latest.timestamp sample.timestamp then sample else latest) samples

  unfoldable pub latest_sample : List (SamplePoint f) → Option (SamplePoint f)
  latest_sample [] = none
  latest_sample (sample ∷ samples) = some (later_sample sample samples)

  unfoldable pub values_in_window : List (SamplePoint f) → ℤ → ℤ → List F
  values_in_window samples start end =
      map (λ sample. sample.value)
        (filter (λ sample. leb_ℤ start sample.timestamp && leb_ℤ sample.timestamp end) samples)

  unfoldable pub min_avg_max_from : ℕ → List F → F → F → F → F × F × F
  min_avg_max_from count [] min_value max_value sum =
      (min_value, div sum (of_int (pos count)), max_value)
  min_avg_max_from count (value ∷ values) min_value max_value sum =
      min_avg_max_from count values (if lt value min_value then value else min_value)
        (if lt max_value value then value else max_value) (add sum value)

  unfoldable pub min_avg_max : List F → F × F × F
  min_avg_max [] = (literal 0 1, literal 0 1, literal 0 1)
  min_avg_max (value ∷ values) =
      min_avg_max_from (length (value ∷ values)) (value ∷ values) inf neg_inf (literal 0 1)

  unfoldable pub cpu_stats_millicores : List F → ℤ × ℤ × ℤ
  cpu_stats_millicores values =
      let (low, mean, high) = min_avg_max values in
      (cores_to_millicores f low, cores_to_millicores f mean, cores_to_millicores f high)

  unfoldable pub memory_stats_mib : List F → ℤ × ℤ × ℤ
  memory_stats_mib values =
      let (low, mean, high) = min_avg_max values in
      (bytes_to_mib f low, bytes_to_mib f mean, bytes_to_mib f high)

  unfoldable pub window_usage_stats :
      List (SamplePoint f) → List (SamplePoint f) → ℤ → ℤ → ResourceUsageStats
  window_usage_stats cpu memory start end =
      let cpu_values = values_in_window cpu start end in
      let memory_values = values_in_window memory start end in
      let (cpu_min, cpu_avg, cpu_max) = cpu_stats_millicores cpu_values in
      let (memory_min, memory_avg, memory_max) = memory_stats_mib memory_values in
      record {
        sample_count = wrap32 (pos (max (length cpu_values) (length memory_values)));
        cpu_min_millicores = cpu_min;
        cpu_avg_millicores = cpu_avg;
        cpu_max_millicores = cpu_max;
        memory_min_mib = memory_min;
        memory_avg_mib = memory_avg;
        memory_max_mib = memory_max;
      }

  unfoldable pub with_current_cpu : Option (SamplePoint f) → ResourceUsageStats → ResourceUsageStats
  with_current_cpu none stats = stats
  with_current_cpu (some sample) stats =
      let value = cores_to_millicores f sample.value in
      record stats {
        sample_count = pos 1;
        cpu_min_millicores = value;
        cpu_avg_millicores = value;
        cpu_max_millicores = value;
      }

  unfoldable pub with_current_memory :
      Option (SamplePoint f) → ResourceUsageStats → ResourceUsageStats
  with_current_memory none stats = stats
  with_current_memory (some sample) stats =
      let value = bytes_to_mib f sample.value in
      record stats {
        sample_count = pos 1;
        memory_min_mib = value;
        memory_avg_mib = value;
        memory_max_mib = value;
      }

  unfoldable pub current_usage_stats :
      List (SamplePoint f) → List (SamplePoint f) → ResourceUsageStats
  current_usage_stats cpu memory =
      with_current_memory (latest_sample memory) (with_current_cpu (latest_sample cpu) zero_stats)

  unfoldable pub build_usage_windows :
      List (SamplePoint f) → List (SamplePoint f) → ResourceUsageWindows
  build_usage_windows cpu memory =
      let end = latest_timestamp cpu memory in
      let day_seconds = 24 * 60 * 60 in
      if beq_ℤ end (pos 0) then zero_windows else record {
        current = current_usage_stats cpu memory;
        last_7d = window_usage_stats cpu memory (wrap64 (end -ℤ pos (7 * day_seconds))) end;
        last_14d = window_usage_stats cpu memory (wrap64 (end -ℤ pos (14 * day_seconds))) end;
      }

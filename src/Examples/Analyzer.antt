-- ===== src/Examples/Analyzer.antt =====
-- The theorems on the analyzer at concrete rules, samples and a concrete `float64`.
use smtx_lab.Analyzer.Series.{
  key_beq, workload_from_labels, workload_kind_matches, target_matches, key_from_metric,
  recommendation_changed,
}
use smtx_lab.Analyzer.Series.Analyze.{
  is_selected, selected_profiles, new_profile, ensure, read_series, read_all, profiles_of,
  result_of, Series, analyze_resource_series,
}
use smtx_lab.Prelude.{
  insert_sorted, ℕ, ◌+◌, ◌-◌, ◌*◌, ◌/◌, ◌^◌, ◌≤◌, ◌≡◌, refl, ap, ◌⊎◌, false, none, some, List, [],
  ◌∷◌, arith, ltb, leb, eqb, nat_eq, text_eq, length, filter, any, All, Text, lit, text_beq,
  is_empty, lookup, insert, contains, IsDistinct, sort_slice,
}
use smtx_lab.Analyzer.Iptables.Decimal.{int32_string-reads}
use smtx_lab.Analyzer.Iptables.{int32_string, TrafficObservation, rules_of, parse_iptables}
use smtx_lab.Prelude.Decimal.{read_from}
use smtx_lab.Prelude.Int.{pos, pos_part, ◌≤ℤ◌}
use smtx_lab.Strings.{to_lower, trim_space, trim_left, trim_right}
use smtx_lab.Agent.Types.{Snapshot, empty_snapshot, no_command}
use smtx_lab.Api.Resource.{
  ResourceTargetSpec, RecommendationPolicySpec, ResourceRecommendationRule, zero_values,
  zero_windows,
}
use smtx_lab.Analyzer.Float.{Float}
use smtx_lab.Analyzer.Resource.{
  ContainerUsageProfile, SamplePoint, min_millicores, round_millicores, apply_headroom, max_int64,
  cores_to_millicores, percentile, percentile_name, percentile_name_on,
}
use smtx_lab.Analyzer.Resource.Rounding.{
  IsRoundedUp, step_of_millicores, round_millicores-IsRoundedUp,
}
use smtx_lab.Analyzer.Resource.Recommend.{recommend_resources, cpu_request_of}
use smtx_lab.Analyzer.Resource.Limits.{
  IsLimitOf, recommend_resources_limits, recommend_resources_cpu_request,
}
use smtx_lab.Analyzer.Iptables.Parsed.{rules_in, parse_iptables-eq-rules_in}
use smtx_lab.Analyzer.Iptables.Trace.{trace_source_iptables}
use smtx_lab.Analyzer.Iptables.Steps.{IsTrace, trace_source_iptables-IsTrace}
use smtx_lab.Analyzer.Iptables.Chains.{summarize_iptables}
use smtx_lab.Analyzer.Iptables.Summary.{IsSummaryOf, summarize_iptables-IsSummary}
use smtx_lab.Analyzer.Iptables.Correlate.{correlate_datapath}
use smtx_lab.Analyzer.Iptables.Correlate.Distinct.{correlate_datapath-IsDistinct}
use smtx_lab.Analyzer.Series.Usage.{latest_sample}
use smtx_lab.Analyzer.Series.Latest.{IsLatest, latest_sample-IsLatest}
use smtx_lab.Analyzer.Series.Selected.{IsWanted, analyze_resource_series-IsWanted}
use smtx_lab.Analyzer.Series.Counts.{analyze_resource_series_counts}

-- Numbers with three decimals, as thousandths.
abbrev pub thousandths : Float
thousandths = record {
  F = ℕ;
  literal = λ n d. n * 1000 / d;
  lt = ltb;
  le = leb;
  feq = eqb;
  add = λ a b. a + b;
  sub = λ a b. a - b;
  mul = λ a b. a * b / 1000;
  div = λ a b. a * 1000 / b;
  of_int = λ i. pos_part i * 1000;
  ceil_int = λ a. pos ((a + 999) / 1000);
  floor_int = λ a. pos (a / 1000);
  inf = 2 ^ 62;
  neg_inf = 0;
}

abbrev dump : List Text
dump =
    lit "*nat"
    ∷ lit ":KUBE-SERVICES - [0:0]"
    ∷ lit "-A KUBE-SERVICES -d 10.96.0.1/32 -p tcp --dport 80 -j KUBE-SVC-A"
    ∷ lit "-A KUBE-SVC-A -j KUBE-SEP-A"
    ∷ lit "-A KUBE-SEP-A -p tcp -j DNAT --to-destination 10.0.0.2:8080"
    ∷ lit "COMMIT"
    ∷ []

abbrev snapshot_a : Snapshot
snapshot_a =
    let empty = empty_snapshot (lit "node-a") (pos 1700000000) in
    record empty { iptables = record no_command { lines = dump } }

abbrev traffic_a : TrafficObservation
traffic_a = record {
  protocol = lit "TCP";
  source_ip = lit "10.0.0.1";
  target_ip = lit "10.0.0.2";
  service_ip = lit "10.96.0.1";
  port = pos 80;
}

abbrev rule : ResourceRecommendationRule ℕ
rule = record {
  request_percentile = lit "p95";
  limit_percentile = lit "p99";
  request_headroom_ratio = 1200;
  limit_headroom_ratio = 1500;
  min_request_millicores = pos 50;
  min_request_mib = pos 64;
}

abbrev pub policy : RecommendationPolicySpec ℕ
policy = record {
  cpu = rule;
  memory = rule;
  language_hints = record { default = lit "Go"; overrides = [] };
}

abbrev profile_a : ContainerUsageProfile thousandths
profile_a = record {
  namespace = lit "shop";
  workload_kind = lit "Deployment";
  workload_name = lit "cart";
  pod = lit "cart-1";
  container = lit "cart";
  language = [];
  cpu_cores = 200 ∷ [];
  memory_bytes = 200000000000 ∷ [];
  cpu_samples = [];
  memory_samples = [];
  usage = zero_windows;
  current = zero_values;
}

abbrev pub target : ResourceTargetSpec
target = record {
  namespaces = [];
  workload_kinds = [];
  exclude_namespaces = lit "kube-system" ∷ [];
}

abbrev sample_a : SamplePoint thousandths
sample_a = record { timestamp = pos 1700000000; value = 200 }

abbrev pub series_a : List (Series thousandths)
series_a =
    (record {
      metric =
          (lit "namespace", lit "shop")
          ∷ (lit "pod", lit "cart-1")
          ∷ (lit "container", lit "cart")
          ∷ [];
      values = sample_a ∷ [];
    })
    ∷ []

nat_named : (is_empty (lit "nat") ≡ false) × (is_empty (lit "KUBE-SVC-A") ≡ false)
unfolding lit is_empty
nat_named = (refl, refl)

parse_iptables-eq-rules_in_example :
    rules_of (parse_iptables dump) (lit "nat") (lit "KUBE-SVC-A")
    ≡ rules_in (lit "nat") (lit "KUBE-SVC-A") dump []
parse_iptables-eq-rules_in_example =
    parse_iptables-eq-rules_in dump (lit "nat") (lit "KUBE-SVC-A") nat_named.0 nat_named.1

trace_source_iptables-IsTrace_example : IsTrace (trace_source_iptables snapshot_a traffic_a)
trace_source_iptables-IsTrace_example = trace_source_iptables-IsTrace snapshot_a traffic_a

summarize_iptables-IsSummary_example :
    IsSummaryOf dump (lit "pod-forward") (lit "KUBE-SVC-A") (summarize_iptables dump).0
    × IsSummaryOf dump (lit "service") (lit "KUBE-SVC-A") (summarize_iptables dump).1
summarize_iptables-IsSummary_example = summarize_iptables-IsSummary dump (lit "KUBE-SVC-A")

correlate_datapath-IsDistinct_example :
    IsDistinct (correlate_datapath snapshot_a traffic_a).relevant_chains
    × IsDistinct (correlate_datapath snapshot_a traffic_a).pod_forward_chains
    × IsDistinct (correlate_datapath snapshot_a traffic_a).service_chains
correlate_datapath-IsDistinct_example = correlate_datapath-IsDistinct snapshot_a traffic_a

round_millicores-IsRoundedUp_example :
    (m : ℕ) × (round_millicores (pos 101) ≡ pos m) × IsRoundedUp (step_of_millicores 101) 101 m
round_millicores-IsRoundedUp_example = round_millicores-IsRoundedUp 101 (omega arith) (omega arith)

recommend_resources_limits_example :
    let r = (recommend_resources thousandths profile_a policy).recommended in
    IsLimitOf r.cpu_request_millicores r.cpu_limit_millicores
    × IsLimitOf r.memory_request_mib r.memory_limit_mib
recommend_resources_limits_example = recommend_resources_limits thousandths profile_a policy

cpu_request_a : cpu_request_of thousandths profile_a policy ≡ pos 240
unfolding cpu_request_of apply_headroom max_int64 cores_to_millicores percentile percentile_name
    percentile_name_on min_millicores to_lower trim_space trim_left trim_right lit text_beq is_empty
cpu_request_a = refl

recommend_resources_cpu_request_example :
    (min_millicores (pos 50)
      ≤ℤ (recommend_resources thousandths profile_a policy).recommended.cpu_request_millicores)
    × (cpu_request_of thousandths profile_a policy
        ≤ℤ (recommend_resources thousandths profile_a policy).recommended.cpu_request_millicores)
recommend_resources_cpu_request_example =
    recommend_resources_cpu_request thousandths profile_a policy
      (omega (arith, ap pos_part cpu_request_a))

latest_sample-IsLatest_example :
    ((sample_a ∷ [] ≡ []) × (latest_sample thousandths (sample_a ∷ []) ≡ none))
    ⊎ ((s : SamplePoint thousandths) × (latest_sample thousandths (sample_a ∷ []) ≡ some s)
        × IsLatest thousandths (sample_a ∷ []) s)
latest_sample-IsLatest_example = latest_sample-IsLatest thousandths (sample_a ∷ [])

analyze_resource_series-IsWanted_example :
    All
      (IsWanted target)
      (analyze_resource_series thousandths target policy series_a series_a [] [] []
        []).recommendations
analyze_resource_series-IsWanted_example =
    analyze_resource_series-IsWanted thousandths target policy series_a series_a [] [] [] []

one_recommendation :
    length
      (analyze_resource_series thousandths target policy series_a series_a [] [] []
        []).recommendations
    ≡ 1
unfolding analyze_resource_series result_of profiles_of read_all read_series key_from_metric
    target_matches ensure new_profile insert lookup selected_profiles is_selected
    workload_kind_matches workload_from_labels filter sort_slice insert_sorted key_beq contains any
    is_empty lit text_beq
one_recommendation = refl

analyze_resource_series_counts_example :
    ((analyze_resource_series thousandths target policy series_a series_a [] [] []
        []).summary.analyzed_containers
      ≡ pos (
          length
            (analyze_resource_series thousandths target policy series_a series_a [] [] []
              []).recommendations))
    × ((analyze_resource_series thousandths target policy series_a series_a [] [] []
          []).summary.recommended_changes
        ≡ pos (
            length (
              filter recommendation_changed
                (analyze_resource_series thousandths target policy series_a series_a [] [] []
                  []).recommendations)))
analyze_resource_series_counts_example =
    analyze_resource_series_counts thousandths target policy series_a series_a [] [] [] []
      (omega (arith, one_recommendation))

int32_string-reads_example :
    (read_from 0 (int32_string (pos 8080)) ≡ 8080) × (length (int32_string (pos 8080)) ≤ 10)
int32_string-reads_example = int32_string-reads 8080 (omega arith)

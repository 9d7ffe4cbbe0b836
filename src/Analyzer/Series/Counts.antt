-- ===== src/Analyzer/Series/Counts.antt =====
-- The counts in the summary of `AnalyzeResourceSeries`.
use smtx_lab.Prelude.{
  ℕ, ◌+◌, ◌^◌, ◌≤◌, ◌<◌, ◌≡◌, refl, ap, ◌∙◌, Bool, true, false, List, [], ◌∷◌, arith, if◌then◌else◌,
  nat_eq, text_eq, length, filter,
}
use smtx_lab.Prelude.Int.{
  ℤ, pos, pos_part, neg_part, ◌+ℤ◌, wrap32, wrap32_fits, eq_of_parts, int_laws,
}
use smtx_lab.Api.Resource.{
  ResourceTargetSpec, RecommendationPolicySpec, ResourceRecommendation, ResourceAnalyzerSummary,
}
use smtx_lab.Analyzer.Float.{Float}
use smtx_lab.Analyzer.Series.{recommendation_changed}
use smtx_lab.Analyzer.Series.Analyze.{
  Series, result_of, analyze_resource_series, add_to_summary, summarize,
}

-- `count++` on an `int32` that is not at its bound.
increment : (n : ℕ) (a : ℤ) → a ≡ pos n → n + 1 < 2 ^ 31 → wrap32 (a +ℤ pos 1) ≡ pos (n + 1)
increment n a e h =
    let plus : a +ℤ pos 1 ≡ pos (n + 1) =
      eq_of_parts (a +ℤ pos 1) (pos (n + 1)) (omega (int_laws, ap pos_part e, ap neg_part e)) in
    ap wrap32 plus ∙ wrap32_fits (pos (n + 1)) h (omega arith)

abbrev changes : List ResourceRecommendation → ℕ
changes recs = length (filter recommendation_changed recs)

changed_next :
    (b : Bool) (n : ℕ) (a : ℤ)
    → a ≡ pos n
    → n + 1 < 2 ^ 31
    → (if b then wrap32 (a +ℤ pos 1) else a) ≡ pos (if b then n + 1 else n)
changed_next true n a e h = increment n a e h
changed_next false n a e h = e

module _ (f : Float) (target : ResourceTargetSpec) (policy : RecommendationPolicySpec f.F) where
  summarize_counts :
      (recs : List ResourceRecommendation) (s : ResourceAnalyzerSummary) (n c : ℕ)
      → s.analyzed_containers ≡ pos n
      → s.recommended_changes ≡ pos c
      → n + length recs < 2 ^ 31
      → c ≤ n
      → ((summarize f target policy recs s).analyzed_containers ≡ pos (n + length recs))
        × ((summarize f target policy recs s).recommended_changes ≡ pos (c + changes recs))
  unfolding summarize filter add_to_summary
  summarize_counts [] s n c e d h k = (e ∙ ap pos (omega arith), d ∙ ap pos (omega arith))
  summarize_counts (rec ∷ recs) s n c e d h k =
      let b = recommendation_changed rec in
      let below =
        summarize_counts recs (add_to_summary f target policy rec s) (n + 1)
          (if b then c + 1 else c) (increment n s.analyzed_containers e (omega arith))
          (changed_next b c s.recommended_changes d (omega arith)) (omega arith) (ground arith) in
      (below.0 ∙ ap pos (omega arith), below.1 ∙ ap pos (ground arith))

-- Where there are fewer than 2^31 recommendations, the summary counts one container for each of them
-- and one change for each of them that differs from what is set.
pub analyze_resource_series_counts :
    (f : Float) (target : ResourceTargetSpec) (policy : RecommendationPolicySpec f.F)
    (cpu memory requests_cpu requests_memory limits_cpu limits_memory : List (Series f))
    → length
        (analyze_resource_series f target policy cpu memory requests_cpu requests_memory limits_cpu
          limits_memory).recommendations
      < 2 ^ 31
    → ((analyze_resource_series f target policy cpu memory requests_cpu requests_memory limits_cpu
          limits_memory).summary.analyzed_containers
        ≡ pos (
            length
              (analyze_resource_series f target policy cpu memory requests_cpu requests_memory
                limits_cpu limits_memory).recommendations))
      × ((analyze_resource_series f target policy cpu memory requests_cpu requests_memory limits_cpu
            limits_memory).summary.recommended_changes
          ≡ pos (
              length (
                filter recommendation_changed
                  (analyze_resource_series f target policy cpu memory requests_cpu requests_memory
                    limits_cpu limits_memory).recommendations)))
unfolding analyze_resource_series result_of
analyze_resource_series_counts f target policy cpu memory requests_cpu requests_memory limits_cpu
      limits_memory h =
    let counts =
      summarize_counts f target policy _ _ 0 0 refl refl (omega (arith, h)) (omega arith) in
    (counts.0 ∙ ap pos (omega arith), counts.1 ∙ ap pos (omega arith))

-- ===== src/Controller/ResourceLab/Run.antt =====
-- `runResourceAnalysis` of internal/controller/resourceanalyzerlab_controller.go.
use smtx_lab.Prelude.{Bool, List, if◌then◌else◌, nat_eq, text_eq, Text, lit, is_empty}
use smtx_lab.Prelude.Int.{ℤ, pos, ◌-ℤ◌, ◌*ℤ◌, wrap64}
use smtx_lab.Api.Resource.{
  ResourceAnalyzerSummary, ResourceRecommendation, ResourceAnalyzerLabStatus, ResourceAnalyzerLab,
}
use smtx_lab.Analyzer.Float.{Float}
use smtx_lab.Analyzer.Series.Analyze.{Series, ResourceAnalysisResult, analyze_resource_series}
use smtx_lab.Metrics.{
  Web, container_cpu_usage_query, container_memory_working_set_query, container_cpu_requests_query,
  container_memory_requests_query, container_cpu_limits_query, container_memory_limits_query,
  query_range,
}
use smtx_lab.Controller.Client.{Result, Call, ◌>>=◌, ◌>>◌, pure, lift, call_if}
use smtx_lab.Controller.Objects.{ApiServer, Stores}
use smtx_lab.Controller.Checks.{default_int32}
use smtx_lab.Controller.Status.{Condition}
use smtx_lab.Controller.Reports.{write_excel_config_map, write_html_config_map}

unfoldable pub default_string : Text → Text → Text
default_string value fallback = if is_empty value then fallback else value

-- `ctrl.Result`: whether to be called again, in 15 seconds.
pub data Requeue : Type 0 where
  no_requeue : Requeue
  requeue_after_15s : Requeue

-- What the reconciler is given: the conditions and how one is set among them, the comparison of two
-- statuses, the time, the namespace of the reports, the text of the error that `IsNotFound` tells, and
-- the two exporters.
pub record Env (f : Float) : Type 1 where
  pub Conditions : Type 0
  pub set_condition : Conditions → ℤ → Condition → Conditions
  pub same_status :
      ResourceAnalyzerLabStatus Conditions → ResourceAnalyzerLabStatus Conditions → Bool
  pub now : ℤ
  pub namespace : Text
  pub missing : Text → Text
  pub write_resource_recommendations : List ResourceRecommendation → Result Text
  pub write_resource_html :
      Text → ResourceAnalyzerSummary → List ResourceRecommendation → Result Text

module _ (f : Float) (web : Web f.F) (env : Env f)
    (api : ApiServer (ResourceAnalyzerLab f.F env.Conditions)) where
  open f use {F}
  open env use {Conditions}

  abbrev Lab : Type 0
  Lab = ResourceAnalyzerLab F Conditions

  -- The times in nanoseconds that the queries go by.
  abbrev pub second : ℤ
  second = pos 1000000000

  abbrev pub lookback : Lab → ℤ
  lookback lab =
      wrap64 (default_int32 lab.spec.metrics.lookback_days (pos 14) *ℤ pos 86400000000000)

  abbrev pub timeout : Lab → ℤ
  timeout lab = wrap64 (default_int32 lab.spec.metrics.timeout_seconds (pos 30) *ℤ second)

  -- One of the six queries.
  unfoldable pub query : Lab → Text → ℤ → Text → Result (List (Series f))
  query lab base_url step q =
      query_range f web base_url (web.with_timeout (timeout lab)) q (env.now -ℤ lookback lab)
        env.now step

  -- The reports, each where it is enabled.
  unfoldable pub export : Lab → ResourceAnalysisResult f → Call (Stores Lab api) (Unit {0})
  export lab result = do
    call_if lab.spec.output.excel.enabled (do
      report ← lift (env.write_resource_recommendations result.recommendations)
      write_excel_config_map api env.namespace lab.spec.output.excel.config_map_name lab.name
          report)
    call_if lab.spec.output.html.enabled (do
      report ← lift (env.write_resource_html lab.name result.summary result.recommendations)
      write_html_config_map api env.namespace lab.spec.output.html.config_map_name lab.name report)

  unfoldable pub run_resource_analysis :
      Lab → Text → Call (Stores Lab api) (ResourceAnalysisResult f)
  run_resource_analysis lab base_url = do
    step ← lift (web.parse_duration (default_string lab.spec.metrics.step (lit "5m")))
    cpu ← lift (query lab base_url step container_cpu_usage_query)
    memory ← lift (query lab base_url step container_memory_working_set_query)
    cpu_requests ← lift (query lab base_url step container_cpu_requests_query)
    memory_requests ← lift (query lab base_url step container_memory_requests_query)
    cpu_limits ← lift (query lab base_url step container_cpu_limits_query)
    memory_limits ← lift (query lab base_url step container_memory_limits_query)
    let result =
        analyze_resource_series f lab.spec.target lab.spec.recommendation cpu memory cpu_requests
          memory_requests cpu_limits memory_limits
    export lab result
    pure result

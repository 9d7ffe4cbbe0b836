-- ===== src/Controller/ResourceLab/Next.antt =====
-- The status that `Reconcile` of internal/controller/resourceanalyzerlab_controller.go computes.
use smtx_lab.Prelude.{
  Bool, not, ◌&&◌, List, [], ◌∷◌, ◌++◌, if◌then◌else◌, nat_eq, text_eq, Text, lit, is_empty,
}
use smtx_lab.Prelude.Int.{ℤ}
use smtx_lab.Api.Network.{LabPhase}
use smtx_lab.Api.Resource.{ArtifactStatus, ResourceAnalyzerLabStatus, ResourceAnalyzerLab}
use smtx_lab.Analyzer.Float.{Float}
use smtx_lab.Analyzer.Series.Analyze.{ResourceAnalysisResult}
use smtx_lab.Metrics.{Web}
use smtx_lab.Controller.Client.{Result, ok, err}
use smtx_lab.Controller.Objects.{ApiServer, Stores}
use smtx_lab.Controller.Naming.{excel_name, html_name}
use smtx_lab.Controller.Status.{
  Condition, condition, condition_true, condition_false, condition_unknown,
}
use smtx_lab.Controller.Monitoring.{MonitoringApplyResult, ensure_monitoring_stack}
use smtx_lab.Controller.ResourceLab.Run.{
  Requeue, no_requeue, requeue_after_15s, Env, run_resource_analysis,
}

module _ (f : Float) (web : Web f.F) (env : Env f)
    (api : ApiServer (ResourceAnalyzerLab f.F env.Conditions)) where
  open f use {F}
  open env use {Conditions}

  abbrev Lab : Type 0
  Lab = ResourceAnalyzerLab F Conditions

  abbrev Status : Type 0
  Status = ResourceAnalyzerLabStatus Conditions

  unfoldable pub set_all_conditions : ℤ → List Condition → Conditions → Conditions
  set_all_conditions generation [] conditions = conditions
  set_all_conditions generation (c ∷ cs) conditions =
      set_all_conditions generation cs (env.set_condition conditions generation c)

  abbrev artifacts_of : Lab → ArtifactStatus
  artifacts_of lab =
      let old = lab.status.artifacts in
      record old {
        excel_config_map_name =
            excel_name lab.spec.output.excel.config_map_name lab.name (lit "resource");
        html_config_map_name =
            html_name lab.spec.output.html.config_map_name lab.name (lit "resource");
      }

  -- `next` before the outcome is known.
  unfoldable pub accepted_status : Lab → Status
  accepted_status lab =
      let old = lab.status in
      record old {
        observed_generation = lab.generation;
        artifacts = artifacts_of lab;
        conditions = env.set_condition lab.status.conditions lab.generation (
            condition (lit "SpecAccepted") condition_true (lit "SpecAccepted")
              (lit "ResourceAnalyzerLab spec is accepted."));
      }

  -- `next` with a phase and with conditions set in it.
  abbrev with_phase : Lab → LabPhase → List Condition → Status → Status
  with_phase lab phase conditions next = record next {
    phase = phase;
    conditions = set_all_conditions lab.generation conditions next.conditions;
  }

  unfoldable pub apply_failed : Lab → Text → Status → Status
  apply_failed lab e = with_phase lab LabPhase.failed (
      condition (lit "MonitoringStackReady") condition_false (lit "ApplyFailed") e
      ∷ condition (lit "PrometheusReachable") condition_false (lit "MonitoringStackFailed")
          (lit "Prometheus cannot be queried until the monitoring stack is applied.")
      ∷ condition (lit "AnalysisCompleted") condition_false (lit "Blocked")
          (lit "Analysis cannot run until the monitoring stack is ready.")
      ∷ [])

  unfoldable pub waiting : Lab → Status → Status
  waiting lab = with_phase lab LabPhase.running (
      condition (lit "MonitoringStackReady") condition_unknown (lit "WaitingForPrometheus") (
        lit
          "Monitoring stack resources are applied; waiting for Prometheus deployment availability.")
      ∷ condition (lit "PrometheusReachable") condition_unknown (lit "WaitingForPrometheus")
          (lit "Prometheus deployment is not available yet.")
      ∷ condition (lit "AnalysisCompleted") condition_false (lit "WaitingForMonitoringStack")
          (lit "Analysis will run after Prometheus becomes available.")
      ∷ [])

  unfoldable pub stack_ready : Lab → Status → Status
  stack_ready lab next =
      with_phase lab next.phase
        (condition (lit "MonitoringStackReady") condition_true (lit "ResourcesReady")
            (lit "Monitoring stack resources are applied and Prometheus is available.")
          ∷ [])
        next

  unfoldable pub missing_url : Lab → Status → Status
  missing_url lab = with_phase lab LabPhase.failed (
      condition (lit "PrometheusReachable") condition_false (lit "MissingPrometheusURL")
        (lit "spec.metrics.prometheusURL is required for resource analysis.")
      ∷ condition (lit "AnalysisCompleted") condition_false (lit "Blocked")
          (lit "Analysis cannot run without a Prometheus endpoint.")
      ∷ [])

  unfoldable pub analysis_failed : Lab → Text → Status → Status
  analysis_failed lab e = with_phase lab LabPhase.failed (
      condition (lit "PrometheusReachable") condition_false (lit "QueryFailed") e
      ∷ condition (lit "AnalysisCompleted") condition_false (lit "Failed")
          (lit "Resource analysis failed.")
      ∷ [])

  abbrev when_enabled : Bool → Condition → List Condition
  when_enabled enabled c = if enabled then c ∷ [] else []

  unfoldable pub analysis_done : Lab → ResourceAnalysisResult f → Status → Status
  analysis_done lab result next =
      with_phase lab LabPhase.succeeded
        (condition (lit "PrometheusReachable") condition_true (lit "QuerySucceeded")
            (lit "Prometheus range queries completed.")
          ∷ condition (lit "AnalysisCompleted") condition_true (lit "Completed")
              (lit "Resource analysis and recommendation generation completed.")
          ∷ (when_enabled lab.spec.output.excel.enabled (
                condition (lit "ExcelExported") condition_true (lit "ConfigMapWritten") (
                  lit "Excel report was written to ConfigMap "
                  ++ (next.artifacts.excel_config_map_name ++ lit ".")))
              ++ when_enabled lab.spec.output.html.enabled (
                  condition (lit "HTMLExported") condition_true (lit "ConfigMapWritten") (
                    lit "HTML report was written to ConfigMap "
                    ++ (next.artifacts.html_config_map_name ++ lit ".")))))
        (record next { summary = result.summary; recommendations = result.recommendations })

  -- A status to write, and whether to come back.
  abbrev pub Next : Type 0
  Next = Status × Requeue

  -- The error of an analysis is part of the status.
  unfoldable pub after_analysis : Lab → Status → Result (ResourceAnalysisResult f) → Next
  after_analysis lab next (err e) = (analysis_failed lab e next, no_requeue)
  after_analysis lab next (ok result) = (analysis_done lab result next, no_requeue)

  -- The analysis against one Prometheus.
  unfoldable pub analyze : Lab → Text → Status → Stores Lab api → Next × Stores Lab api
  analyze lab prometheus_url next w =
      if is_empty prometheus_url
      then ((missing_url lab next, no_requeue), w)
      else (let (r, w') = run_resource_analysis f web env api lab prometheus_url w in
          (after_analysis lab next r, w'))

  -- The URL in the spec, or else that of the deployed Prometheus.
  unfoldable pub chosen_url : Lab → MonitoringApplyResult → Text
  chosen_url lab monitoring =
      if is_empty lab.spec.metrics.prometheus_url && monitoring.prometheus_enabled
      then monitoring.prometheus_url
      else lab.spec.metrics.prometheus_url

  unfoldable pub after_stack :
      Lab → Status → Result MonitoringApplyResult → Stores Lab api → Next × Stores Lab api
  after_stack lab next (err e) w = ((apply_failed lab e next, no_requeue), w)
  after_stack lab next (ok monitoring) w =
      if monitoring.prometheus_enabled && not monitoring.prometheus_ready
      then ((waiting lab next, requeue_after_15s), w)
      else analyze lab (chosen_url lab monitoring) (stack_ready lab next) w

  unfoldable pub next_status : Lab → Stores Lab api → Next × Stores Lab api
  next_status lab w =
      let next = accepted_status lab in
      if lab.spec.monitoring_stack.auto_deploy
      then (let (r, w') =
            ensure_monitoring_stack api env.missing env.namespace lab.spec.monitoring_stack w in
          after_stack lab next r w')
      else analyze lab lab.spec.metrics.prometheus_url next w

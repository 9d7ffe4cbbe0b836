-- ===== src/Controller/ResourceLab/Outcome.antt =====
-- The status that `Reconcile` of internal/controller/resourceanalyzerlab_controller.go computes, by its
-- phase.
use smtx_lab.Prelude.{◌≡◌, refl, true, false, not, ◌&&◌, nat_eq, text_eq, if_both, Text, is_empty}
use smtx_lab.Api.Network.{LabPhase}
use smtx_lab.Api.Resource.{ResourceAnalyzerLab, ResourceAnalyzerLabStatus}
use smtx_lab.Analyzer.Float.{Float}
use smtx_lab.Analyzer.Series.Analyze.{ResourceAnalysisResult}
use smtx_lab.Metrics.{Web}
use smtx_lab.Controller.Client.{Result, ok, err}
use smtx_lab.Controller.Objects.{ApiServer, Stores}
use smtx_lab.Controller.Monitoring.{MonitoringApplyResult}
use smtx_lab.Controller.ResourceLab.Run.{
  Requeue, no_requeue, requeue_after_15s, Env, run_resource_analysis,
}
use smtx_lab.Controller.ResourceLab.Next.{
  accepted_status, apply_failed, waiting, stack_ready, missing_url, analysis_failed, analysis_done,
  chosen_url, after_analysis, analyze, after_stack, next_status,
}

module _ (f : Float) (web : Web f.F) (env : Env f)
    (api : ApiServer (ResourceAnalyzerLab f.F env.Conditions)) where
  abbrev Lab : Type 0
  Lab = ResourceAnalyzerLab f.F env.Conditions

  abbrev Status : Type 0
  Status = ResourceAnalyzerLabStatus env.Conditions

  -- The summary and the recommendations are those of the object.
  abbrev pub IsUnchanged : Lab → Status → Type 0
  IsUnchanged lab next =
      (next.summary ≡ lab.status.summary) × (next.recommendations ≡ lab.status.recommendations)

  -- The three outcomes, with the stores after them.
  pub data Outcome (lab : Lab) (next : Status) (requeue : Requeue) (w : Stores Lab api)
      : Type 0 where
    succeeded :
        (url : Text) (result : ResourceAnalysisResult f) (before : Stores Lab api)
        → is_empty url ≡ false
        → run_resource_analysis f web env api lab url before ≡ (ok result, w)
        → next.phase ≡ LabPhase.succeeded
        → next.summary ≡ result.summary
        → next.recommendations ≡ result.recommendations
        → requeue ≡ no_requeue
        → Outcome lab next requeue w
    waits :
        lab.spec.monitoring_stack.auto_deploy ≡ true
        → next.phase ≡ LabPhase.running
        → IsUnchanged lab next
        → requeue ≡ requeue_after_15s
        → Outcome lab next requeue w
    failed :
        next.phase ≡ LabPhase.failed
        → IsUnchanged lab next
        → requeue ≡ no_requeue
        → Outcome lab next requeue w

  abbrev pub HasOutcome : Lab → (Status × Requeue) × Stores Lab api → Type 0
  HasOutcome lab ((next, requeue), w) = Outcome lab next requeue w

  after_analysis_outcome :
      (lab : Lab) (url : Text) (next : Status) (before w : Stores Lab api)
      (r : Result (ResourceAnalysisResult f))
      → is_empty url ≡ false
      → IsUnchanged lab next
      → run_resource_analysis f web env api lab url before ≡ (r, w)
      → HasOutcome lab (after_analysis f web env api lab next r, w)
  unfolding after_analysis analysis_failed analysis_done
  after_analysis_outcome lab url next before w (ok result) e u q =
      succeeded url result before e q refl refl refl refl
  after_analysis_outcome lab url next before w (err m) e u q = failed refl u refl

  analyze_outcome :
      (lab : Lab) (url : Text) (next : Status) (w : Stores Lab api)
      → IsUnchanged lab next
      → HasOutcome lab (analyze f web env api lab url next w)
  unfolding analyze missing_url
  analyze_outcome lab url next w u =
      if_both (HasOutcome lab) (is_empty url) (λ e. failed refl u refl)
        (λ e.
          after_analysis_outcome lab url next w (run_resource_analysis f web env api lab url w).1
            (run_resource_analysis f web env api lab url w).0 e u refl)

  after_stack_outcome :
      (lab : Lab) (next : Status) (r : Result MonitoringApplyResult) (w : Stores Lab api)
      → lab.spec.monitoring_stack.auto_deploy ≡ true
      → IsUnchanged lab next
      → HasOutcome lab (after_stack f web env api lab next r w)
  unfolding after_stack apply_failed waiting stack_ready
  after_stack_outcome lab next (err m) w a u = failed refl u refl
  after_stack_outcome lab next (ok monitoring) w a u =
      if_both (HasOutcome lab) (monitoring.prometheus_enabled && not monitoring.prometheus_ready)
        (λ e. waits a refl u refl)
        (λ e. analyze_outcome lab (chosen_url f web env api lab monitoring) _ w u)

  -- The status that the reconciler computes has one of three outcomes. It is Succeeded only after an
  -- analysis against a URL that is not empty returned a result, whose summary and recommendations it
  -- then has; it is Running, and then only is a requeue asked for, where the monitoring stack is to be
  -- deployed; else it is Failed. Where it is not Succeeded the summary and the recommendations stay.
  pub next_status_outcome :
      (lab : Lab) (w : Stores Lab api) → HasOutcome lab (next_status f web env api lab w)
  unfolding next_status accepted_status
  next_status_outcome lab w =
      if_both (HasOutcome lab) lab.spec.monitoring_stack.auto_deploy
        (λ a. after_stack_outcome lab _ _ _ a (refl, refl))
        (λ a. analyze_outcome lab lab.spec.metrics.prometheus_url _ w (refl, refl))

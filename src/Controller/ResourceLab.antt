-- ===== src/Controller/ResourceLab.antt =====
-- internal/controller/resourceanalyzerlab_controller.go: the reconciler of ResourceAnalyzerLab, whose
-- analysis is in ResourceLab/Run and whose status in ResourceLab/Next.
pub mod Run
pub mod Next
pub mod Exported
pub mod Analysis
pub mod Outcome
pub mod Deleted
use smtx_lab.Prelude.{◌-◌, ◌/◌, List, [], if◌then◌else◌, nat_eq, text_eq, Text, lit}
use smtx_lab.Api.Resource.{ResourceAnalyzerLabStatus, ResourceAnalyzerLab}
use smtx_lab.Analyzer.Float.{Float}
use smtx_lab.Metrics.{Web}
use smtx_lab.Controller.Client.{ok, err, Call, ◌>>=◌, ◌>>◌, pure, found, not_found, failed}
use smtx_lab.Controller.Objects.{ApiServer, Stores, on_labs}
use smtx_lab.Controller.Finalizers.{has_finalizer, add_finalizer, remove_finalizer}
use smtx_lab.Controller.Reports.{cleanup_resource_analyzer_artifacts}
use smtx_lab.Controller.ResourceLab.Run.{Requeue, no_requeue, Env}
use smtx_lab.Controller.ResourceLab.Next.{next_status}

abbrev pub resource_analyzer_lab_finalizer : Text
resource_analyzer_lab_finalizer = lit "resourceanalyzerlabs.lab.smtx.io/finalizer"

module _ (f : Float) (web : Web f.F) (env : Env f)
    (api : ApiServer (ResourceAnalyzerLab f.F env.Conditions)) where
  open f use {F}
  open env use {Conditions}

  abbrev Lab : Type 0
  Lab = ResourceAnalyzerLab F Conditions

  abbrev Next : Type 0
  Next = ResourceAnalyzerLabStatus Conditions × Requeue

  unfoldable pub update_resource_analyzer_status : Lab → Next → Call (Stores Lab api) Requeue
  update_resource_analyzer_status lab (next, requeue) w =
      if env.same_status lab.status next
      then (ok requeue, w)
      else (do on_labs (api.update_status (record lab { status = next })); pure requeue) w

  -- `r.Update(ctx, &lab)` with other finalizers.
  unfoldable pub update_finalizers : Lab → List Text → Call (Stores Lab api) Requeue
  update_finalizers lab finalizers = do
    on_labs (api.lab_client.update (record lab { finalizers = finalizers }))
    pure no_requeue

  -- The object is deleted and has the finalizer.
  unfoldable pub release : Lab → Call (Stores Lab api) Requeue
  release lab = do
    cleanup_resource_analyzer_artifacts api env.namespace lab.name
    update_finalizers lab (remove_finalizer lab.finalizers resource_analyzer_lab_finalizer).0

  unfoldable pub reconcile_lab : Lab → Call (Stores Lab api) Requeue
  reconcile_lab lab w =
      let (with_finalizer, added) = add_finalizer lab.finalizers resource_analyzer_lab_finalizer in
      if lab.deleting
      then (if has_finalizer lab.finalizers resource_analyzer_lab_finalizer
          then release lab w
          else (ok no_requeue, w))
      else if added
      then update_finalizers lab with_finalizer w
      else (let (next, w') = next_status f web env api lab w in
          update_resource_analyzer_status lab next w')

  -- The object is in no namespace; one that is gone is no error.
  unfoldable pub reconcile : Text → Call (Stores Lab api) Requeue
  reconcile name w = elim (api.lab_client.get (record { namespace = []; name = name }) w.labs) [
    | found lab ↦ reconcile_lab lab w
    | not_found ↦ (ok no_requeue, w)
    | failed e ↦ (err e, w)
  ]

-- ===== src/Controller/ResourceLab/Deleted.antt =====
-- `Reconcile` of internal/controller/resourceanalyzerlab_controller.go for an object that is deleted.
use smtx_lab.Prelude.{
  ◌≡◌, sym, ap, ◌∙◌, Bool, true, Option, none, [], ◌∷◌, arith, if◌then◌else◌, nat_eq, text_eq, Text,
  lit,
}
use smtx_lab.Api.Resource.{ResourceAnalyzerLab}
use smtx_lab.Analyzer.Float.{Float}
use smtx_lab.Metrics.{Web}
use smtx_lab.Controller.Client.{ok, Call, pure, Key, key_eq, is_listed}
use smtx_lab.Controller.Client.Cleanup.{delete_by_labels_lem, Removed-none}
use smtx_lab.Controller.Client.Triples.{>>=-returns}
use smtx_lab.Controller.Objects.{ConfigMap, ApiServer, Stores, on_labs}
use smtx_lab.Controller.Objects.Stored.{IsApiServer}
use smtx_lab.Controller.Finalizers.{has_finalizer, remove_finalizer}
use smtx_lab.Controller.Reports.{cleanup_resource_analyzer_artifacts}
use smtx_lab.Controller.ResourceLab.Run.{Requeue, no_requeue, Env}
use smtx_lab.Controller.ResourceLab.{
  resource_analyzer_lab_finalizer, update_finalizers, release, reconcile_lab,
}

module _ (f : Float) (web : Web f.F) (env : Env f)
    {api : ApiServer (ResourceAnalyzerLab f.F env.Conditions)}
    (s : IsApiServer (ResourceAnalyzerLab f.F env.Conditions) api) where
  abbrev Lab : Type 0
  Lab = ResourceAnalyzerLab f.F env.Conditions

  -- A report of the lab, among the ConfigMaps.
  abbrev pub is_report : Text → Key → Option ConfigMap → Bool
  is_report lab_name j =
      is_listed api.config_map_client.labels env.namespace
        ((lit "lab.smtx.io/resourceanalyzer", lab_name) ∷ []) j

  -- The object without the finalizer of the controller.
  abbrev pub released : Lab → Lab
  released lab = record lab {
    finalizers = (remove_finalizer lab.finalizers resource_analyzer_lab_finalizer).0;
  }

  reconcile_lab-release :
      (lab : Lab) (w : Stores Lab api)
      → lab.deleting ≡ true
      → has_finalizer lab.finalizers resource_analyzer_lab_finalizer ≡ true
      → reconcile_lab f web env api lab w ≡ release f web env api lab w
  unfolding reconcile_lab
  reconcile_lab-release lab w d g = ground (arith, d, g)

  released_cleans :
      (lab : Lab) (w w2 : Stores Lab api) (r : Requeue)
      → release f web env api lab w ≡ (ok r, w2)
      → (api.lab_client.update (released lab) w.labs ≡ (ok tt, w2.labs))
        × ((j : Key)
            → s.config_map_view w2.config_maps j ≡ (
                if is_report lab.name j (s.config_map_view w.config_maps j)
                then none
                else s.config_map_view w.config_maps j))
  unfolding release update_finalizers cleanup_resource_analyzer_artifacts
  released_cleans lab w w2 r h =
      let clean : Call (Stores Lab api) (Unit {0}) =
        cleanup_resource_analyzer_artifacts api env.namespace lab.name in
      let (a, w1, p, q) =
        >>=-returns clean (λ _. update_finalizers f web env api lab (released lab).finalizers) w w2
          r h in
      let (b, w3, u, v) =
        >>=-returns (on_labs (api.lab_client.update (released lab))) (λ _. pure no_requeue) w1 w2 r
          q in
      (
        ap (api.lab_client.update (released lab)) (ap (λ x. x.1.labs) p)
            ∙ ((λ i. ((u i).0, (u i).1.labs)) ∙ (λ i. (ok tt, (v i).1.labs))),
        λ j.
            ap (λ (x : Stores Lab api). s.config_map_view x.config_maps j) (sym (ap (λ x. x.1) v))
            ∙ (ap (λ (x : Stores Lab api). s.config_map_view x.config_maps j)
                  (sym (ap (λ x. x.1) u))
                ∙ Removed-none _ _ _ (
                    delete_by_labels_lem s.config_maps env.namespace
                      ((lit "lab.smtx.io/resourceanalyzer", lab.name) ∷ []) w.config_maps
                      w1.config_maps (λ i. ((p i).0, (p i).1.config_maps)) j)),
      )

  -- Where the reconciler returns no error for an object that is deleted and has the finalizer, the
  -- update of the object without the finalizer returned no error either, and from the report namespace
  -- exactly the ConfigMaps with the lab's label are gone; every other ConfigMap is as before.
  pub reconcile_lab_cleans :
      (lab : Lab) (w w2 : Stores Lab api) (r : Requeue)
      → lab.deleting ≡ true
      → has_finalizer lab.finalizers resource_analyzer_lab_finalizer ≡ true
      → reconcile_lab f web env api lab w ≡ (ok r, w2)
      → (api.lab_client.update (released lab) w.labs ≡ (ok tt, w2.labs))
        × ((j : Key)
            → s.config_map_view w2.config_maps j ≡ (
                if is_report lab.name j (s.config_map_view w.config_maps j)
                then none
                else s.config_map_view w.config_maps j))
  reconcile_lab_cleans lab w w2 r d g h =
      released_cleans lab w w2 r (sym (reconcile_lab-release lab w d g) ∙ h)

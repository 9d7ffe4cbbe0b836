-- ===== src/Controller/Monitoring/Applied.antt =====
-- `ensureMonitoringStack` of internal/controller/monitoring_stack.go against the API server, and what
-- the server holds afterwards.
use mathlib.Core.Path.{subst}
use smtx_lab.Prelude.{
  ◌≡◌, refl, sym, ap, ◌∙◌, true, false, Option, none, some, List, [], ◌∷◌, arith, ◌==◌, eq_refl,
  nat_eq, text_eq, all, All, All-mono, Text, Dict, lookup,
}
use smtx_lab.Prelude.DictKeys.{IsDict, All-lookup}
use smtx_lab.Controller.Client.{Result, ok, key_eq, has_labels}
use smtx_lab.Controller.Client.Upsert.{sent}
use smtx_lab.Controller.Client.Held.{Held, upsert-Held}
use smtx_lab.Controller.Client.Triples.{Triple}
use smtx_lab.Controller.Objects.{ConfigMap, Deployment, ServiceObject, ApiServer, Stores}
use smtx_lab.Controller.Objects.Stored.{
  config_map_key, deployment_key, service_key, KeptPort, Pointwise, KeptDeploymentSpec,
  KeptDeployment, KeptService, IsApiServer,
}
use smtx_lab.Controller.Monitoring.{
  adopt_config_map, adopt_deployment, adopt_service, upsert_config_map, upsert_deployment,
  upsert_service, deployment_available,
}
use smtx_lab.Controller.Monitoring.Manifests.{set_all, merge_string_map}
use smtx_lab.Controller.Monitoring.Merge.{lookup-set_all}

labels_held :
    (match labels : Dict Text Text)
    → All (λ entry. lookup entry.0 labels ≡ some entry.1) match
    → has_labels match labels ≡ true
unfolding has_labels all
labels_held [] labels h = refl
labels_held ((k, v) ∷ match) labels (p, h) = rw (p, labels_held match labels h, eq_refl v) refl

-- The desired labels are among the merged ones, whatever there was before.
merge_string_map_has :
    (existing desired : Dict Text Text)
    → IsDict desired
    → has_labels desired (merge_string_map existing desired) ≡ true
unfolding merge_string_map
merge_string_map_has existing desired d =
    labels_held desired (set_all desired (set_all existing [])) (
      All-mono (λ entry. lookup entry.0 desired ≡ some entry.1)
        (λ entry. lookup entry.0 (set_all desired (set_all existing [])) ≡ some entry.1)
        (λ entry h. rw (lookup-set_all entry.0 desired (set_all existing []) d, h) refl) desired
        (All-lookup desired d))

has_labels_self : (desired : Dict Text Text) → IsDict desired → has_labels desired desired ≡ true
has_labels_self desired d = labels_held desired desired (All-lookup desired d)

module _ {Lab : Type 0} {api : ApiServer Lab} (s : IsApiServer Lab api) where
  abbrev pub GoodConfigMap : ConfigMap → ConfigMap → Type 0
  GoodConfigMap desired kept =
      (has_labels desired.labels kept.labels ≡ true) × (kept.data_of ≡ desired.data_of)

  abbrev pub GoodDeployment : Deployment → Deployment → Type 0
  GoodDeployment desired kept =
      (has_labels desired.labels kept.labels ≡ true) × KeptDeploymentSpec desired.spec kept.spec

  abbrev pub GoodService : ServiceObject → ServiceObject → Type 0
  GoodService desired kept =
      (has_labels desired.labels kept.labels ≡ true)
      × (kept.spec.selector ≡ desired.spec.selector)
      × Pointwise KeptPort desired.spec.ports kept.spec.ports

  -- The server holds all these objects, with the desired contents and labels.
  pub record IsApplied (cs : List ConfigMap) (ds : List Deployment) (ss : List ServiceObject)
      (w : Stores Lab api) : Type 0 where
    pub configured :
        All
          (λ o.
            Held s.config_maps config_map_key s.config_map_key_lem GoodConfigMap o w.config_maps)
          cs
    pub deployed :
        All
          (λ o.
            Held s.deployments deployment_key s.deployment_key_lem GoodDeployment o w.deployments)
          ds
    pub served :
        All (λ o. Held s.services service_key s.service_key_lem GoodService o w.services) ss

  config_map_good :
      (d : ConfigMap)
      → IsDict d.labels
      → (before : Option ConfigMap) (kept : ConfigMap) → kept ≡ sent adopt_config_map d before
      → GoodConfigMap d kept
  config_map_good d h none kept k = rw k (has_labels_self d.labels h, refl)
  config_map_good d h (some e) kept k = rw k (merge_string_map_has e.labels d.labels h, refl)

  deployment_good :
      (d : Deployment)
      → IsDict d.labels
      → (before : Option Deployment) (kept : Deployment)
      → KeptDeployment (sent adopt_deployment d before) kept
      → GoodDeployment d kept
  deployment_good d h none kept k =
      (ap (has_labels d.labels) k.labels ∙ has_labels_self d.labels h, k.spec)
  deployment_good d h (some e) kept k =
      (ap (has_labels d.labels) k.labels ∙ merge_string_map_has e.labels d.labels h, k.spec)

  service_good :
      (d : ServiceObject)
      → IsDict d.labels
      → (before : Option ServiceObject) (kept : ServiceObject)
      → KeptService (sent adopt_service d before) kept
      → GoodService d kept
  service_good d h none kept k =
      (ap (has_labels d.labels) k.labels ∙ has_labels_self d.labels h, k.selector, k.ports)
  service_good d h (some e) kept k = (
    ap (has_labels d.labels) k.labels ∙ merge_string_map_has e.labels d.labels h,
    k.selector,
    k.ports,
  )

  call_parts :
      {A B : Type 0} (r : Result A) (x y : B) (a : A)
      → ◌≡◌ {A = Result A × B} (r, x) (ok a, y)
      → (r ≡ ok a) × (x ≡ y)
  call_parts r x y a h = (ap (λ p. p.0) h, ap (λ p. p.1) h)

  module _ (cs : List ConfigMap) (ds : List Deployment) (ss : List ServiceObject) where
    pub upsert_deployment-IsApplied :
        (d : Deployment)
        → IsDict d.labels
        → All (λ o. (deployment_key d == deployment_key o) ≡ false) ds
        → Triple (IsApplied cs ds ss) (upsert_deployment api d) (λ _. IsApplied cs (d ∷ ds) ss)
    unfolding upsert_deployment
    upsert_deployment-IsApplied d h apart w w2 tt p u = record {
      configured =
          subst
            (λ v.
              All (λ o. Held s.config_maps config_map_key s.config_map_key_lem GoodConfigMap o v)
                cs)
            (ap (λ q. q.1.config_maps) u) p.configured;
      deployed =
          upsert-Held s.deployments deployment_key s.deployment_key_lem GoodDeployment
            adopt_deployment d (λ e. refl) (deployment_good d h) ds w.deployments w2.deployments
            (λ i. ((u i).0, (u i).1.deployments)) apart p.deployed;
      served =
          subst (λ v. All (λ o. Held s.services service_key s.service_key_lem GoodService o v) ss)
            (ap (λ q. q.1.services) u) p.served;
    }

    pub upsert_service-IsApplied :
        (d : ServiceObject)
        → IsDict d.labels
        → All (λ o. (service_key d == service_key o) ≡ false) ss
        → Triple (IsApplied cs ds ss) (upsert_service api d) (λ _. IsApplied cs ds (d ∷ ss))
    unfolding upsert_service
    upsert_service-IsApplied d h apart w w2 tt p u = record {
      configured =
          subst
            (λ v.
              All (λ o. Held s.config_maps config_map_key s.config_map_key_lem GoodConfigMap o v)
                cs)
            (ap (λ q. q.1.config_maps) u) p.configured;
      deployed =
          subst
            (λ v.
              All (λ o. Held s.deployments deployment_key s.deployment_key_lem GoodDeployment o v)
                ds)
            (ap (λ q. q.1.deployments) u) p.deployed;
      served =
          upsert-Held s.services service_key s.service_key_lem GoodService adopt_service d
            (λ e. refl) (service_good d h) ss w.services w2.services
            (λ i. ((u i).0, (u i).1.services)) apart p.served;
    }

    pub upsert_config_map-IsApplied :
        (d : ConfigMap)
        → IsDict d.labels
        → All (λ o. (config_map_key d == config_map_key o) ≡ false) cs
        → Triple (IsApplied cs ds ss) (upsert_config_map api d) (λ _. IsApplied (d ∷ cs) ds ss)
    unfolding upsert_config_map
    upsert_config_map-IsApplied d h apart w w2 tt p u = record {
      configured =
          upsert-Held s.config_maps config_map_key s.config_map_key_lem GoodConfigMap
            adopt_config_map d (λ e. refl) (config_map_good d h) cs w.config_maps w2.config_maps
            (λ i. ((u i).0, (u i).1.config_maps)) apart p.configured;
      deployed =
          subst
            (λ v.
              All (λ o. Held s.deployments deployment_key s.deployment_key_lem GoodDeployment o v)
                ds)
            (ap (λ q. q.1.deployments) u) p.deployed;
      served =
          subst (λ v. All (λ o. Held s.services service_key s.service_key_lem GoodService o v) ss)
            (ap (λ q. q.1.services) u) p.served;
    }

  available_same :
      (missing : Text → Text) (namespace name : Text) (w : Stores Lab api)
      → (deployment_available api missing namespace name w).1 ≡ w
  unfolding deployment_available
  available_same missing namespace name w = ground arith

  pub available-keeps :
      (missing : Text → Text) (namespace name : Text) (cs : List ConfigMap) (ds : List Deployment)
      (ss : List ServiceObject)
      → Triple
          (IsApplied cs ds ss)
          (deployment_available api missing namespace name)
          (λ _. IsApplied cs ds ss)
  unfolding deployment_available
  available-keeps missing namespace name cs ds ss w w2 a p u =
      subst (IsApplied cs ds ss) (sym (available_same missing namespace name w) ∙ ap (λ q. q.1) u) p

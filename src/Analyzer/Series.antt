-- ===== src/Analyzer/Series.antt =====
-- internal/analyzer/resource_series.go: from the series of Prometheus to the profiles of containers.
pub mod Usage
pub mod Analyze
pub mod Selected
pub mod Latest
pub mod Counts
use smtx_lab.Prelude.{
  ◌-◌, ◌/◌, ◌≡◌, ◌↔◌, Bool, true, not, ◌&&◌, ◌||◌, Option, none, some, List, [], ◌∷◌, arith,
  if◌then◌else◌, Eq, ◌==◌, eq_iff, nat_eq, text_eq, any, Text, lit, text_lt, is_empty, Dict, lookup,
  value_or, contains,
}
use smtx_lab.Strings.{to_lower, equal_fold}
use smtx_lab.Api.Resource.{
  ResourceTargetSpec, LanguageHintsSpec, LanguageOverrideSpec, ResourceRecommendation,
}
use smtx_lab.Prelude.Int.{int_eq}

pub record SeriesKey : Type 0 where
  pub namespace : Text
  pub pod : Text
  pub container : Text

unfoldable pub key_beq : SeriesKey → SeriesKey → Bool
key_beq a b = a.namespace == b.namespace && (a.pod == b.pod && a.container == b.container)

pub key_beq_iff : (a b : SeriesKey) → (key_beq a b ≡ true) ↔ (a ≡ b)
unfolding key_beq
key_beq_iff a b =
    ground
      (arith, eq_iff a.namespace b.namespace, eq_iff a.pod b.pod, eq_iff a.container b.container)

instance abbrev pub key_eq : Eq SeriesKey
key_eq = record { same = key_beq; same_iff = key_beq_iff }

-- `metric["name"]`
abbrev pub label : Dict Text Text → Text → Text
label labels name = value_or [] (lookup name labels)

unfoldable pub key_from_metric : Dict Text Text → Option SeriesKey
key_from_metric metric =
    let namespace = label metric (lit "namespace") in
    let pod = label metric (lit "pod") in
    let container = label metric (lit "container") in
    if is_empty namespace || is_empty pod || is_empty container || container == lit "POD"
    then none
    else some (record { namespace = namespace; pod = pod; container = container })

unfoldable pub target_matches : SeriesKey → ResourceTargetSpec → Bool
target_matches key target =
    not (contains target.exclude_namespaces key.namespace)
    && (is_empty target.namespaces || contains target.namespaces key.namespace)

unfoldable pub workload_kind_matches : Text → List Text → Bool
workload_kind_matches kind allowed =
    if is_empty allowed || is_empty kind || kind == lit "Pod"
    then true
    else any (λ value. equal_fold value kind) allowed

unfoldable pub normalize_kind : Text → Text
normalize_kind kind =
    let lower = to_lower kind in
    if lower == lit "deployment" || lower == lit "deployments"
    then lit "Deployment"
    else if lower == lit "statefulset" || lower == lit "statefulsets"
    then lit "StatefulSet"
    else if lower == lit "daemonset" || lower == lit "daemonsets"
    then lit "DaemonSet"
    else if lower == lit "replicaset" || lower == lit "replicasets"
    then lit "ReplicaSet"
    else if is_empty kind
    then lit "Pod"
    else kind

-- The inner loop, over the labels that may hold the name, for a label that may hold the kind.
unfoldable pub named_by : Dict Text Text → Text → List Text → Option (Text × Text)
named_by labels kind_key [] = none
named_by labels kind_key (name_key ∷ name_keys) =
    let kind = label labels kind_key in
    let name = label labels name_key in
    let later = named_by labels kind_key name_keys in
    if is_empty kind || is_empty name then later else some (normalize_kind kind, name)

unfoldable pub kinded_by : Dict Text Text → List Text → Option (Text × Text)
kinded_by labels [] = none
kinded_by labels (kind_key ∷ kind_keys) =
    let name_keys =
      lit "workload" ∷ lit "workload_name" ∷ lit "owner_name" ∷ lit "created_by_name" ∷ [] in
    let later = kinded_by labels kind_keys in
    elim (named_by labels kind_key name_keys) [ none ↦ later | some found ↦ some found ]

unfoldable pub owner_from_labels : Dict Text Text → Text → Text × Text
owner_from_labels labels pod =
    let deployment = label labels (lit "deployment") in
    let statefulset = label labels (lit "statefulset") in
    let daemonset = label labels (lit "daemonset") in
    if not (is_empty deployment)
    then (lit "Deployment", deployment)
    else if not (is_empty statefulset)
    then (lit "StatefulSet", statefulset)
    else if not (is_empty daemonset)
    then (lit "DaemonSet", daemonset)
    else (lit "Pod", pod)

unfoldable pub workload_from_labels : Dict Text Text → Text → Text × Text
workload_from_labels labels pod =
    let kind_keys =
      lit "workload_kind" ∷ lit "workload_type" ∷ lit "owner_kind" ∷ lit "created_by_kind" ∷ [] in
    value_or (owner_from_labels labels pod) (kinded_by labels kind_keys)

-- An override whose fields are empty or equal, and that names a language.
unfoldable pub overrides : LanguageOverrideSpec → Text → Text → Text → Bool
overrides o namespace workload container =
    (is_empty o.namespace || o.namespace == namespace)
    && (is_empty o.workload || o.workload == workload)
    && (is_empty o.container || o.container == container)
    && not (is_empty o.language)

unfoldable pub override_in : List LanguageOverrideSpec → Text → Text → Text → Option Text
override_in [] namespace workload container = none
override_in (o ∷ os) namespace workload container =
    let later = override_in os namespace workload container in
    if overrides o namespace workload container then some o.language else later

unfoldable pub language_for : LanguageHintsSpec → Text → Text → Text → Text
language_for hints namespace workload container =
    value_or (if is_empty hints.default then lit "Go" else hints.default)
      (override_in hints.overrides namespace workload container)

unfoldable pub recommendation_changed : ResourceRecommendation → Bool
recommendation_changed rec =
    not (rec.current.cpu_request_millicores == rec.recommended.cpu_request_millicores)
    || not (rec.current.cpu_limit_millicores == rec.recommended.cpu_limit_millicores)
    || not (rec.current.memory_request_mib == rec.recommended.memory_request_mib)
    || not (rec.current.memory_limit_mib == rec.recommended.memory_limit_mib)

-- The order of the keys in the result.
unfoldable pub key_less : SeriesKey → SeriesKey → Bool
key_less a b =
    if not (a.namespace == b.namespace)
    then text_lt a.namespace b.namespace
    else if not (a.pod == b.pod)
    then text_lt a.pod b.pod
    else text_lt a.container b.container

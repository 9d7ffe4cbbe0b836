-- ===== src/Analyzer/Series/Selected.antt =====
-- Which containers `AnalyzeResourceSeries` makes a recommendation for.
use smtx_lab.Prelude.{
  ◌≡◌, refl, sym, ap, ◌∙◌, inl, inr, true, false, not, ◌&&◌, ◌||◌, some, List, [], ◌∷◌, map, arith,
  ◌==◌, eq_iff, nat_eq, text_eq, Bool-cases, if_both, Option-cases, and_iff, filter, any, all, All,
  All-filter_both, Text, lit, is_empty, Dict, lookup, value_or, contains, All-sort_slice,
}
use mathlib.Core.List.{Memᴰ}
use smtx_lab.Strings.{equal_fold}
use smtx_lab.Prelude.DictKeys.{All-insert}
use smtx_lab.Api.Resource.{ResourceTargetSpec, RecommendationPolicySpec, ResourceRecommendation}
use smtx_lab.Analyzer.Float.{Float}
use smtx_lab.Analyzer.Resource.{ContainerUsageProfile}
use smtx_lab.Analyzer.Resource.Recommend.{recommend_resources}
use smtx_lab.Analyzer.Series.{
  SeriesKey, key_eq, key_from_metric, target_matches, workload_kind_matches,
}
use smtx_lab.Analyzer.Series.Analyze.{
  Series, Profiles, new_profile, ensure, read_series, read_all, is_selected, recommend_for,
  selected_profiles, result_of, profiles_of, analyze_resource_series, entry_less, add_cpu,
  add_memory, set_cpu_request, set_memory_request, set_cpu_limit, set_memory_limit,
}

-- A kind that a target does not exclude: where it lists kinds, the kind is among them but for the case
-- of letters, or it is that of a bare pod, or it is not known.
pub data IsKind (kinds : List Text) (kind : Text) : Type 0 where
  all_kinds : kinds ≡ [] → IsKind kinds kind
  not_known : kind ≡ [] → IsKind kinds kind
  bare_pod : kind ≡ lit "Pod" → IsKind kinds kind
  listed : (value : Text) → Memᴰ value kinds → equal_fold value kind ≡ true → IsKind kinds kind

-- A recommendation for a namespace and a workload's kind that the target does not exclude.
pub record IsWanted (target : ResourceTargetSpec) (rec : ResourceRecommendation) : Type 0 where
  pub not_excluded : contains target.exclude_namespaces rec.namespace ≡ false
  pub included : (is_empty target.namespaces || contains target.namespaces rec.namespace) ≡ true
  pub of_kind : IsKind target.workload_kinds rec.workload_kind

empty_list : {A : Type 0} (xs : List A) → is_empty xs ≡ true → xs ≡ []
unfolding is_empty
empty_list [] h = refl
empty_list (x ∷ xs) h = cc

listed-IsKind :
    (kind : Text) (kinds all : List Text)
    → ((value : Text) → Memᴰ value kinds → Memᴰ value all)
    → any (λ value. equal_fold value kind) kinds ≡ true
    → IsKind all kind
unfolding any
listed-IsKind kind [] all sub h = cc
listed-IsKind kind (value ∷ kinds) all sub h = elim (Bool-cases (equal_fold value kind)) [
  | inl e ↦ IsKind.listed value (sub value (Memᴰ.head refl)) e
  | inr e ↦ listed-IsKind kind kinds all (λ v m. sub v (Memᴰ.tail m)) (rw e at h)
]

workload_kind_matches-IsKind :
    (kind : Text) (kinds : List Text) → workload_kind_matches kind kinds ≡ true → IsKind kinds kind
unfolding workload_kind_matches
workload_kind_matches-IsKind kind kinds h = elim (Bool-cases (is_empty kinds)) [
  | inl e ↦ IsKind.all_kinds (empty_list kinds e)
  | inr e ↦ elim (Bool-cases (is_empty kind)) [
    | inl q ↦ IsKind.not_known (empty_list kind q)
    | inr q ↦ elim (Bool-cases (kind == lit "Pod")) [
      | inl r ↦ IsKind.bare_pod ((eq_iff kind (lit "Pod")).0 r)
      | inr r ↦ listed-IsKind kind kinds kinds (λ v m. m) (rw (e, q, r) at h)
    ]
  ]
]

module _ (f : Float) (target : ResourceTargetSpec) (policy : RecommendationPolicySpec f.F) where
  -- A profile that stands under its own key, which the target asks for.
  record IsOwn (entry : SeriesKey × ContainerUsageProfile f) : Type 0 where
    namespace : entry.1.namespace ≡ entry.0.namespace
    asked : target_matches entry.0 target ≡ true

  -- A loop's change of a profile leaves its namespace as it is.
  abbrev Keeps : (Series f → ContainerUsageProfile f → ContainerUsageProfile f) → Type 0
  Keeps update =
      (series : Series f) (p : ContainerUsageProfile f) → (update series p).namespace ≡ p.namespace

  lookup_own :
      (key : SeriesKey) (p : ContainerUsageProfile f) (profiles : Profiles f)
      → All IsOwn profiles
      → lookup key profiles ≡ some p
      → p.namespace ≡ key.namespace
  unfolding lookup
  lookup_own key p [] h e = cc
  lookup_own key p ((j, q) ∷ profiles) (own, h) e = elim (Bool-cases (j == key)) [
    | inr d ↦ lookup_own key p profiles h (rw d at e)
    | inl d ↦
        let same : some q ≡ some p = rw d at e in
        let r : q ≡ p = ap (value_or q) same in
        ap (λ v. v.namespace) (sym r) ∙ own.namespace ∙ ap (λ v. v.namespace) ((eq_iff j key).0 d)
  ]

  ensure_own :
      (key : SeriesKey) (labels : Dict Text Text) (profiles : Profiles f)
      → All IsOwn profiles
      → (ensure f target policy key labels profiles).namespace ≡ key.namespace
  unfolding ensure new_profile
  ensure_own key labels profiles h = elim (Option-cases (lookup key profiles)) [
    | inl e ↦ rw e refl
    | inr (p, e) ↦ rw e (lookup_own key p profiles h e)
  ]

  read_series-IsOwn :
      (update : Series f → ContainerUsageProfile f → ContainerUsageProfile f)
      → Keeps update
      → (series : Series f) (profiles : Profiles f) → All IsOwn profiles
      → All IsOwn (read_series f target policy update series profiles)
  unfolding read_series
  read_series-IsOwn update keeps series profiles h =
      elim (Option-cases (key_from_metric series.metric)) [
        | inl e ↦ rw (read_series, e) h
        | inr (key, e) ↦
            rw (read_series, e)
              (if_both (All IsOwn) (target_matches key target)
                (λ asked.
                  All-insert IsOwn key
                    (update series (ensure f target policy key series.metric profiles)) profiles
                    (record {
                      namespace = keeps series _ ∙ ensure_own key series.metric profiles h;
                      asked = asked;
                    })
                    h)
                (λ no. h))
      ]

  read_all-IsOwn :
      (update : Series f → ContainerUsageProfile f → ContainerUsageProfile f)
      → Keeps update
      → (series : List (Series f)) (profiles : Profiles f) → All IsOwn profiles
      → All IsOwn (read_all f target policy update series profiles)
  unfolding read_all
  read_all-IsOwn update keeps [] profiles h = h
  read_all-IsOwn update keeps (series ∷ rest) profiles h =
      read_all-IsOwn update keeps rest _ (read_series-IsOwn update keeps series profiles h)

  profiles_of-IsOwn :
      (cpu memory requests_cpu requests_memory limits_cpu limits_memory : List (Series f))
      → All IsOwn (
          profiles_of f target policy cpu memory requests_cpu requests_memory limits_cpu
            limits_memory)
  unfolding profiles_of
  profiles_of-IsOwn cpu memory requests_cpu requests_memory limits_cpu limits_memory =
      read_all-IsOwn (set_memory_limit f) (λ s p. refl) limits_memory _
        (read_all-IsOwn (set_cpu_limit f) (λ s p. refl) limits_cpu _
          (read_all-IsOwn (set_memory_request f) (λ s p. refl) requests_memory _
            (read_all-IsOwn (set_cpu_request f) (λ s p. refl) requests_cpu _
              (read_all-IsOwn (add_memory f) (λ s p. refl) memory _
                (read_all-IsOwn (add_cpu f) (λ s p. refl) cpu [] tt)))))

  recommend_for-IsWanted :
      (entry : SeriesKey × ContainerUsageProfile f)
      → IsOwn entry
      → is_selected f target policy entry ≡ true
      → IsWanted target (recommend_for f target policy entry)
  unfolding recommend_for recommend_resources is_selected target_matches
  recommend_for-IsWanted (key, p) own chosen =
      let (allowed, kind) =
        (and_iff (not (is_empty p.cpu_cores && is_empty p.memory_bytes)) _).0 chosen in
      let (excluded, included) =
        (and_iff (not (contains target.exclude_namespaces key.namespace)) _).0 own.asked in
      let same = own.namespace in
      record {
        not_excluded = rw same (ground (arith, excluded));
        included = rw same included;
        of_kind = workload_kind_matches-IsKind p.workload_kind target.workload_kinds kind;
      }

  All-map_recommend :
      (entries : Profiles f)
      → All (λ entry. IsOwn entry × (is_selected f target policy entry ≡ true)) entries
      → All (IsWanted target) (map (recommend_for f target policy) entries)
  All-map_recommend [] h = tt
  All-map_recommend (entry ∷ entries) ((own, chosen), h) =
      (recommend_for-IsWanted entry own chosen, All-map_recommend entries h)

  selected-IsOwn :
      (profiles : Profiles f)
      → All IsOwn profiles
      → All
          (λ entry. IsOwn entry × (is_selected f target policy entry ≡ true))
          (selected_profiles f target policy profiles)
  unfolding selected_profiles
  selected-IsOwn profiles h =
      All-sort_slice entry_less (λ entry. IsOwn entry × (is_selected f target policy entry ≡ true))
        (filter (is_selected f target policy) profiles)
        (All-filter_both IsOwn (is_selected f target policy) profiles h)

-- Every recommendation of the analysis is for a namespace that the target does not exclude, that the
-- target lists where it lists any. Where the target lists kinds of workloads, the kind of the
-- recommendation's workload is one of them but for the case of letters, or is Pod or empty.
pub analyze_resource_series-IsWanted :
    (f : Float) (target : ResourceTargetSpec) (policy : RecommendationPolicySpec f.F)
    (cpu memory requests_cpu requests_memory limits_cpu limits_memory : List (Series f))
    → All
        (IsWanted target)
        (analyze_resource_series f target policy cpu memory requests_cpu requests_memory limits_cpu
          limits_memory).recommendations
unfolding analyze_resource_series result_of
analyze_resource_series-IsWanted f target policy cpu memory requests_cpu requests_memory limits_cpu
      limits_memory =
    All-map_recommend f target policy _ (
      selected-IsOwn f target policy _ (
        profiles_of-IsOwn f target policy cpu memory requests_cpu requests_memory limits_cpu
          limits_memory))

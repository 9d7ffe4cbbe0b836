-- ===== src/Controller/ResourceLab/Analysis.antt =====
-- `runResourceAnalysis` of internal/controller/resourceanalyzerlab_controller.go: its six queries, in
-- their order, and its reports.
use smtx_lab.Prelude.{◌≡◌, refl, List, [], ◌∷◌, arith, nat_eq, text_eq, Text, lit}
use smtx_lab.Prelude.Int.{ℤ}
use smtx_lab.Prelude.Results.{traverse}
use smtx_lab.Api.Resource.{ResourceAnalyzerLab}
use smtx_lab.Analyzer.Float.{Float}
use smtx_lab.Analyzer.Series.Analyze.{Series, ResourceAnalysisResult, analyze_resource_series}
use smtx_lab.Metrics.{
  Web, container_cpu_usage_query, container_memory_working_set_query, container_cpu_requests_query,
  container_memory_requests_query, container_cpu_limits_query, container_memory_limits_query,
}
use smtx_lab.Controller.Client.{Result, ok, err, Call, ◌>>=◌, ◌>>◌, pure, lift}
use smtx_lab.Controller.Client.Triples.{>>=-returns, lift-returns, carry}
use smtx_lab.Controller.Objects.{ApiServer, Stores}
use smtx_lab.Controller.Objects.Stored.{IsApiServer}
use smtx_lab.Controller.ResourceLab.Run.{Env, default_string, query, export, run_resource_analysis}
use smtx_lab.Controller.ResourceLab.Exported.{ExcelExported, HtmlExported, export-IsExported}

module _ {W S A : Type 0} (k : S → S → S → S → S → S → Call W A) where
  abbrev in_order : Result S → Result S → Result S → Result S → Result S → Result S → Call W A
  in_order r1 r2 r3 r4 r5 r6 = do
    a ← lift r1
    b ← lift r2
    c ← lift r3
    d ← lift r4
    e ← lift r5
    f ← lift r6
    k a b c d e f

  abbrev collected :
      Result S → Result S → Result S → Result S → Result S → Result S → Result (List S)
  collected r1 r2 r3 r4 r5 r6 = traverse (λ r. r) (r1 ∷ r2 ∷ r3 ∷ r4 ∷ r5 ∷ r6 ∷ [])

  first_error :
      (r1 r2 r3 r4 r5 r6 : Result S) (e : Text) (w : W)
      → collected r1 r2 r3 r4 r5 r6 ≡ err e
      → in_order r1 r2 r3 r4 r5 r6 w ≡ (err e, w)
  unfolding traverse
  first_error (err x) r2 r3 r4 r5 r6 e w h = ground arith
  first_error (ok a) (err x) r3 r4 r5 r6 e w h = ground arith
  first_error (ok a) (ok b) (err x) r4 r5 r6 e w h = ground arith
  first_error (ok a) (ok b) (ok c) (err x) r5 r6 e w h = ground arith
  first_error (ok a) (ok b) (ok c) (ok d) (err x) r6 e w h = ground arith
  first_error (ok a) (ok b) (ok c) (ok d) (ok g) (err x) e w h = ground arith
  first_error (ok a) (ok b) (ok c) (ok d) (ok g) (ok l) e w h = cc

  all_returned :
      (r1 r2 r3 r4 r5 r6 : Result S) (w w2 : W) (x : A)
      → in_order r1 r2 r3 r4 r5 r6 w ≡ (ok x, w2)
      → (a b c d e f : S) × (collected r1 r2 r3 r4 r5 r6 ≡ ok (a ∷ b ∷ c ∷ d ∷ e ∷ f ∷ []))
        × (k a b c d e f w ≡ (ok x, w2))
  unfolding traverse
  all_returned (err y) r2 r3 r4 r5 r6 w w2 x h = cc
  all_returned (ok a) (err y) r3 r4 r5 r6 w w2 x h = cc
  all_returned (ok a) (ok b) (err y) r4 r5 r6 w w2 x h = cc
  all_returned (ok a) (ok b) (ok c) (err y) r5 r6 w w2 x h = cc
  all_returned (ok a) (ok b) (ok c) (ok d) (err y) r6 w w2 x h = cc
  all_returned (ok a) (ok b) (ok c) (ok d) (ok g) (err y) w w2 x h = cc
  all_returned (ok a) (ok b) (ok c) (ok d) (ok g) (ok l) w w2 x h = (a, b, c, d, g, l, refl, h)

abbrev pub queries : List Text
queries =
    container_cpu_usage_query ∷ container_memory_working_set_query ∷ container_cpu_requests_query
    ∷ container_memory_requests_query ∷ container_cpu_limits_query ∷ container_memory_limits_query
    ∷ []

module _ (f : Float) (web : Web f.F) (env : Env f)
    (api : ApiServer (ResourceAnalyzerLab f.F env.Conditions)) where
  abbrev Lab : Type 0
  Lab = ResourceAnalyzerLab f.F env.Conditions

  abbrev parsed_step : Lab → Result ℤ
  parsed_step lab = web.parse_duration (default_string lab.spec.metrics.step (lit "5m"))

  abbrev analyzed :
      Lab
      → List (Series f)
      → List (Series f)
      → List (Series f)
      → List (Series f)
      → List (Series f)
      → List (Series f)
      → ResourceAnalysisResult f
  analyzed lab = analyze_resource_series f lab.spec.target lab.spec.recommendation

  abbrev exported :
      Lab
      → List (Series f)
      → List (Series f)
      → List (Series f)
      → List (Series f)
      → List (Series f)
      → List (Series f)
      → Call (Stores Lab api) (ResourceAnalysisResult f)
  exported lab a b c d e g =
      let result = analyzed lab a b c d e g in export f web env api lab result >> pure result

  -- Where the step can be read and the six queries, made in their order, meet an error, the analysis
  -- returns the first one, and nothing that is stored has changed.
  pub run_resource_analysis_first_error :
      (lab : Lab) (base_url : Text) (step : ℤ) (e : Text) (w : Stores Lab api)
      → parsed_step lab ≡ ok step
      → traverse (query f web env api lab base_url step) queries ≡ err e
      → run_resource_analysis f web env api lab base_url w ≡ (err e, w)
  unfolding run_resource_analysis traverse
  run_resource_analysis_first_error lab base_url step e w p h =
      let q = query f web env api lab base_url step in
      rw p (
        first_error (exported lab) (q container_cpu_usage_query)
          (q container_memory_working_set_query) (q container_cpu_requests_query)
          (q container_memory_requests_query) (q container_cpu_limits_query)
          (q container_memory_limits_query) e w h)

  -- What an analysis that returned a result has seen and done.
  pub record IsAnalyzed (s : IsApiServer Lab api) (lab : Lab) (base_url : Text)
      (result : ResourceAnalysisResult f) (w : Stores Lab api) : Type 0 where
    pub step : ℤ
    pub cpu : List (Series f)
    pub memory : List (Series f)
    pub cpu_requests : List (Series f)
    pub memory_requests : List (Series f)
    pub cpu_limits : List (Series f)
    pub memory_limits : List (Series f)
    pub parsed : parsed_step lab ≡ ok step
    pub queried :
        traverse (query f web env api lab base_url step) queries
        ≡ ok (cpu ∷ memory ∷ cpu_requests ∷ memory_requests ∷ cpu_limits ∷ memory_limits ∷ [])
    pub result_is :
        result ≡ analyzed lab cpu memory cpu_requests memory_requests cpu_limits memory_limits
    pub excel : ExcelExported f web env s lab result w
    pub html : HtmlExported f web env s lab result w

  -- An analysis that returns a result has read the step, has got series from all six queries, and
  -- returns what `AnalyzeResourceSeries` makes of them; each report that is enabled was made of that
  -- result and is now the file of its ConfigMap.
  pub run_resource_analysis-IsAnalyzed :
      (s : IsApiServer Lab api) (lab : Lab) (base_url : Text) (result : ResourceAnalysisResult f)
      (w w2 : Stores Lab api)
      → run_resource_analysis f web env api lab base_url w ≡ (ok result, w2)
      → IsAnalyzed s lab base_url result w2
  unfolding run_resource_analysis traverse
  run_resource_analysis-IsAnalyzed s lab base_url result w w2 h =
      let q = query f web env api lab base_url in
      let (step, p, h1) =
        lift-returns (parsed_step lab)
          (λ step.
            in_order (exported lab) (q step container_cpu_usage_query)
              (q step container_memory_working_set_query) (q step container_cpu_requests_query)
              (q step container_memory_requests_query) (q step container_cpu_limits_query)
              (q step container_memory_limits_query))
          w w2 result h in
      let (a, b, c, d, e, g, t, h2) =
        all_returned (exported lab) (q step container_cpu_usage_query)
          (q step container_memory_working_set_query) (q step container_cpu_requests_query)
          (q step container_memory_requests_query) (q step container_cpu_limits_query)
          (q step container_memory_limits_query) w w2 result h1 in
      let made = analyzed lab a b c d e g in
      let (u, w1, x, y) =
        >>=-returns (export f web env api lab made) (λ _. pure made) w w2 result h2 in
      let (is, (excel, html)) =
        carry (λ m v. ExcelExported f web env s lab m v × HtmlExported f web env s lab m v) made
          result w1 w2 y (export-IsExported f web env s lab made w w1 x) in
      record {
        step = step;
        cpu = a;
        memory = b;
        cpu_requests = c;
        memory_requests = d;
        cpu_limits = e;
        memory_limits = g;
        parsed = p;
        queried = t;
        result_is = is;
        excel = excel;
        html = html;
      }

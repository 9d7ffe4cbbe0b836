-- ===== src/Examples/Labs.antt =====
-- The theorems on the ResourceAnalyzerLab reconciler and the metrics client at a concrete lab, a
-- concrete Prometheus and an API server over lists.
use smtx_lab.Prelude.{
  ℕ, ◌≡◌, refl, Bool, true, false, none, List, [], ◌∷◌, if◌then◌else◌, ◌==◌, nat_eq, text_eq,
  filter, any, all, Text, lit, text_beq, is_empty, lookup, value_or,
}
use smtx_lab.Prelude.Int.{ℤ, pos}
use smtx_lab.Prelude.Results.{ok, err, traverse}
use smtx_lab.Api.Network.{LabPhase}
use smtx_lab.Api.Resource.{ResourceAnalyzerSummary, ResourceAnalyzerLab, ResourceAnalyzerLabStatus}
use smtx_lab.Analyzer.Series.Analyze.{ResourceAnalysisResult, analyze_resource_series}
use smtx_lab.Metrics.{
  Web, PromSeries, PromValue, container_cpu_usage_query, container_memory_requests_query,
  query_range, join_url_path, parse_series, parse_prom_sample,
}
use smtx_lab.Metrics.Decoded.{IsQueried, query_range-IsQueried}
use smtx_lab.Controller.Status.{Condition}
use smtx_lab.Controller.Client.{Key, upsert, delete_items, delete_by_labels, has_labels, is_listed}
use smtx_lab.Controller.Objects.{ConfigMap, Stores, ApiServer}
use smtx_lab.Controller.Objects.Stored.{IsApiServer}
use smtx_lab.Controller.Naming.{excel_name, html_name}
use smtx_lab.Controller.Finalizers.{has_finalizer, add_finalizer}
use smtx_lab.Controller.Reports.{
  report_config_map, write_config_map, write_excel_config_map, write_html_config_map,
  resource_report_labels, cleanup_resource_analyzer_artifacts,
}
use smtx_lab.Controller.ResourceLab.{
  resource_analyzer_lab_finalizer, reconcile_lab, release, update_finalizers,
}
use smtx_lab.Controller.ResourceLab.Run.{no_requeue, Env, query, export, run_resource_analysis}
use smtx_lab.Controller.ResourceLab.Next.{next_status}
use smtx_lab.Controller.ResourceLab.Analysis.{
  IsAnalyzed, run_resource_analysis-IsAnalyzed, run_resource_analysis_first_error,
}
use smtx_lab.Controller.ResourceLab.Outcome.{HasOutcome, next_status_outcome}
use smtx_lab.Controller.ResourceLab.Deleted.{is_report, released, reconcile_lab_cleans}
use smtx_lab.Examples.Analyzer.{thousandths, target, policy, series_a}
use smtx_lab.Examples.Server.{list_api, list_api-IsApiServer, nothing, at_key}

abbrev prom_series : PromSeries ℕ
prom_series = record {
  metric =
      (lit "namespace", lit "shop")
      ∷ (lit "pod", lit "cart-1")
      ∷ (lit "container", lit "cart")
      ∷ [];
  values =
      record { timestamp = PromValue.number 1700000000; value = PromValue.string (lit "0.2") } ∷ [];
}

-- A URL is the query that is set in it; the server refuses some queries.
abbrev prometheus : (Text → Bool) → Web ℕ
prometheus refuses = record {
  Url = Text;
  Context = ℤ;
  parse_url = λ base. ok base;
  path = λ url. [];
  with_query = λ url path values. value_or [] (lookup (lit "query") values);
  send = λ ctx url.
      if refuses url
      then err (lit "connection refused")
      else ok (record { status_code = pos 200; body = url });
  decode = λ body. ok (record { status = lit "success"; error = []; result = prom_series ∷ [] });
  parse_float = λ raw. ok 200;
  truncate = λ n. pos n;
  unix = λ ns. ns;
  format_seconds = λ ns. lit "300";
  parse_duration = λ s. ok (pos 300);
  with_timeout = λ ns. ns;
}

abbrev none_refused : Text → Bool
none_refused q = false

abbrev memory_refused : Text → Bool
memory_refused q = q == container_memory_requests_query

abbrev url : Text
url = lit "http://prometheus:9090"

query_range-IsQueried_example :
    IsQueried thousandths
      (prometheus none_refused)
      url
      (pos 30)
      container_cpu_usage_query
      (pos 0)
      (pos 300)
      (pos 300)
      series_a
unfolding query_range parse_series parse_prom_sample join_url_path is_empty traverse lit text_beq
query_range-IsQueried_example =
    query_range-IsQueried thousandths (prometheus none_refused) url (pos 30)
      container_cpu_usage_query (pos 0) (pos 300) (pos 300) series_a refl

abbrev env : Env thousandths
env = record {
  Conditions = List Condition;
  set_condition = λ conditions generation c. c ∷ conditions;
  same_status = λ a b. false;
  now = pos 1700000000;
  namespace = lit "smtx-lab-system";
  missing = λ name. lit "not found";
  write_resource_recommendations = λ recommendations. ok (lit "rows");
  write_resource_html = λ name summary recommendations. ok (lit "page");
}

abbrev Lab : Type 0
Lab = ResourceAnalyzerLab ℕ (List Condition)

abbrev lab_key : Lab → Key
lab_key lab = record { namespace = []; name = lab.name }

abbrev api : ApiServer Lab
api = list_api lab_key

abbrev server : IsApiServer Lab api
server = list_api-IsApiServer lab_key

abbrev empty : Stores Lab api
empty = nothing lab_key

abbrev no_summary : ResourceAnalyzerSummary
no_summary = record {
  analyzed_namespaces = pos 0;
  analyzed_workloads = pos 0;
  analyzed_containers = pos 0;
  recommended_changes = pos 0;
  potential_cpu_request_reduction_millicores = pos 0;
  potential_memory_request_reduction_mib = pos 0;
}

abbrev status : ResourceAnalyzerLabStatus (List Condition)
status = record {
  observed_generation = pos 0;
  phase = LabPhase.pending;
  conditions = [];
  summary = no_summary;
  recommendations = [];
  artifacts = record {
    excel_config_map_name = [];
    html_config_map_name = [];
    raw_snapshot_config_map_names = [];
  };
}

abbrev lab_with : Bool → Bool → Lab
lab_with deleting auto_deploy = record {
  name = lit "shop";
  generation = pos 1;
  deleting = deleting;
  finalizers = resource_analyzer_lab_finalizer ∷ [];
  spec = record {
    target = target;
    metrics = record {
      prometheus_url = url;
      lookback_days = pos 14;
      step = lit "5m";
      timeout_seconds = pos 30;
    };
    recommendation = policy;
    monitoring_stack = record {
      auto_deploy = auto_deploy;
      prometheus = record { enabled = true };
      grafana = record { enabled = false };
    };
    output = record {
      excel = record { enabled = true; config_map_name = [] };
      html = record { enabled = true; config_map_name = lit "page" };
      include_raw_metrics = false;
    };
  };
  status = status;
}

abbrev lab : Lab
lab = lab_with false false

abbrev result : ResourceAnalysisResult thousandths
result =
    analyze_resource_series thousandths target policy series_a series_a series_a series_a series_a
      series_a

abbrev analyzed : Stores Lab api
analyzed = (run_resource_analysis thousandths (prometheus none_refused) env api lab url empty).1

run_resource_analysis-IsAnalyzed_example :
    IsAnalyzed thousandths (prometheus none_refused) env api server lab url result analyzed
unfolding run_resource_analysis query query_range parse_series parse_prom_sample join_url_path
    is_empty traverse lit text_beq export write_excel_config_map write_html_config_map
    write_config_map upsert at_key excel_name html_name
run_resource_analysis-IsAnalyzed_example =
    run_resource_analysis-IsAnalyzed thousandths (prometheus none_refused) env api server lab url
      result empty analyzed refl

run_resource_analysis_first_error_example :
    run_resource_analysis thousandths (prometheus memory_refused) env api lab url empty
    ≡ (err (lit "connection refused"), empty)
unfolding query query_range parse_series parse_prom_sample join_url_path is_empty traverse lit
    text_beq lookup
run_resource_analysis_first_error_example =
    run_resource_analysis_first_error thousandths (prometheus memory_refused) env api lab url
      (pos 300) (lit "connection refused") empty refl refl

next_status_outcome_example :
    HasOutcome thousandths
      (prometheus none_refused)
      env
      api
      (lab_with false true)
      (next_status thousandths (prometheus none_refused) env api (lab_with false true) empty)
next_status_outcome_example =
    next_status_outcome thousandths (prometheus none_refused) env api (lab_with false true) empty

abbrev report_of : Text → Text → ConfigMap
report_of name lab_name =
    report_config_map (lit "smtx-lab-system") name (resource_report_labels lab_name) [] (lit "file")
      (lit "rows")

-- A report of the lab and one of another lab.
abbrev reported : Stores Lab api
reported = record {
  config_maps = report_of (lit "a") (lit "shop") ∷ report_of (lit "b") (lit "bank") ∷ [];
  deployments = [];
  services = [];
  jobs = [];
  labs = lab_with true false ∷ [];
}

abbrev after : Stores Lab api
after =
    (reconcile_lab thousandths (prometheus none_refused) env api (lab_with true false) reported).1

reconcile_lab_cleans_example :
    (api.lab_client.update
        (released thousandths
          (prometheus none_refused)
          env
          {api = api}
          server
          (lab_with true false))
        reported.labs
      ≡ (ok tt, after.labs))
    × ((j : Key)
        → server.config_map_view after.config_maps j ≡ (
            if is_report thousandths
              (prometheus none_refused)
              env
              {api = api}
              server
              (lit "shop")
              j
              (server.config_map_view reported.config_maps j)
            then none
            else server.config_map_view reported.config_maps j))
unfolding reconcile_lab release update_finalizers cleanup_resource_analyzer_artifacts has_finalizer
    add_finalizer delete_by_labels delete_items has_labels is_listed at_key resource_report_labels
    lit text_beq filter any all lookup
reconcile_lab_cleans_example =
    reconcile_lab_cleans thousandths (prometheus none_refused) env {api = api} server
      (lab_with true false) reported after no_requeue refl refl refl

-- ===== src/Metrics/Decoded.antt =====
-- `QueryRange` of internal/metrics/prometheus.go, on the path that returns series.
use smtx_lab.Prelude.{
  ℕ, ◌≡◌, sym, ap, ◌∙◌, inl, inr, true, false, List, [], ◌∷◌, map, arith, eq_iff, nat_eq, text_eq,
  Bool-cases, length, Text, lit, is_empty, Dict,
}
use smtx_lab.Prelude.Int.{ℤ, pos, ltb_ℤ, ◌≤ℤ◌}
use smtx_lab.Prelude.Results.{ok, >>=-ok, traverse, ok_inj, map-traverse, length-traverse}
use smtx_lab.Analyzer.Float.{Float}
use smtx_lab.Analyzer.Series.Analyze.{Series}
use smtx_lab.Metrics.{
  PromSeries, QueryRangeResponse, HttpResponse, Web, check_status, check_success, parse_prom_sample,
  parse_series, query_range, join_url_path,
}
use smtx_lab.Controller.Checks.{sprint}

module _ (f : Float) (web : Web f.F) where
  open f use {F}
  open web use {parse_url, path, with_query, send, decode, unix, format_seconds}

  -- The labels of a series and how many samples it has.
  abbrev outline : Series f → Dict Text Text × ℕ
  outline series = (series.metric, length series.values)

  abbrev response_outline : PromSeries F → Dict Text Text × ℕ
  response_outline item = (item.metric, length item.values)

  outline-parse_series :
      (item : PromSeries F) (series : Series f)
      → parse_series f web item ≡ ok series
      → outline series ≡ response_outline item
  unfolding parse_series
  outline-parse_series item series h =
      let (values, p, q) = >>=-ok (traverse (parse_prom_sample f web) item.values) _ h in
      let same = ok_inj q in
      ap outline (sym same)
      ∙ ap (λ (n : ℕ). (item.metric, n))
          (length-traverse (parse_prom_sample f web) item.values values p)

  check_status_ok :
      (resp : HttpResponse) (body : Text)
      → check_status f web resp ≡ ok body
      → (pos 200 ≤ℤ resp.status_code)
        × (ltb_ℤ resp.status_code (pos 300) ≡ true)
        × (resp.body ≡ body)
  check_status_ok resp body h = ground arith

  check_success_ok :
      (decoded : QueryRangeResponse F) (items : List (PromSeries F))
      → check_success f web decoded ≡ ok items
      → (decoded.status ≡ lit "success") × (decoded.result ≡ items)
  check_success_ok decoded items h = ground (arith, eq_iff decoded.status (lit "success"))

  -- What a range query that returned these series has asked and seen.
  pub record IsQueried (base_url : Text) (ctx : web.Context) (query : Text) (start end step : ℤ)
      (series : List (Series f)) : Type 0 where
    pub url_given : is_empty base_url ≡ false
    pub url : web.Url
    pub parsed : parse_url base_url ≡ ok url
    pub response : HttpResponse
    pub answered :
        send ctx (
          with_query url (join_url_path (path url) (lit "/api/v1/query_range")) (
            (lit "query", query)
            ∷ (lit "start", sprint (unix start))
            ∷ (lit "end", sprint (unix end))
            ∷ (lit "step", format_seconds step)
            ∷ []))
        ≡ ok response
    pub decoded : QueryRangeResponse F
    pub at_least_200 : pos 200 ≤ℤ response.status_code
    pub below_300 : ltb_ℤ response.status_code (pos 300) ≡ true
    pub body : decode response.body ≡ ok decoded
    pub success : decoded.status ≡ lit "success"
    pub outlines : map outline series ≡ map response_outline decoded.result

  -- A range query returns series only for a base URL that is not empty and that can be read, from what
  -- the server answered to the request with the query, the two times and the step: a response with a
  -- status from 200 to 299, whose body decodes to the status "success". There is then one series for
  -- each series of the response, in order, with its labels and as many samples.
  pub query_range-IsQueried :
      (base_url : Text) (ctx : web.Context) (query : Text) (start end step : ℤ)
      (series : List (Series f))
      → query_range f web base_url ctx query start end step ≡ ok series
      → IsQueried base_url ctx query start end step series
  unfolding query_range
  query_range-IsQueried base_url ctx query start end step series h =
      elim (Bool-cases (is_empty base_url)) [
        | inl e ↦ absurd (cc (rw e at h))
        | inr e ↦
            let (u, p1, h1) = >>=-ok (parse_url base_url) _ (rw e at h) in
            let (resp, p2, h2) = >>=-ok (send ctx _) _ h1 in
            let (body, p3, h3) = >>=-ok (check_status f web resp) _ h2 in
            let (answer, p4, h4) = >>=-ok (decode body) _ h3 in
            let (items, p5, h5) = >>=-ok (check_success f web answer) _ h4 in
            let (low, high, same) = check_status_ok resp body p3 in
            let (success, result) = check_success_ok answer items p5 in
            record {
              url_given = e;
              url = u;
              parsed = p1;
              answered = p2;
              response = resp;
              decoded = answer;
              at_least_200 = low;
              below_300 = high;
              body = rw same p4;
              success = success;
              outlines = rw result (
                  map-traverse (parse_series f web) response_outline outline outline-parse_series
                    items series h5);
            }
      ]

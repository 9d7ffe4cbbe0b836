-- ===== src/Metrics.antt =====
-- internal/metrics/prometheus.go: range queries against Prometheus. The URL, the HTTP exchange and the
-- decoding of JSON and of numbers are a parameter.
pub mod Decoded
use smtx_lab.Prelude.{
  ℕ, ◌+◌, ◌-◌, ◌/◌, Bool, false, ◌||◌, List, [], ◌∷◌, ◌++◌, eqb, if◌then◌else◌, ◌==◌, nat_eq,
  text_eq, length, take, Text, lit, is_empty, Dict,
}
use smtx_lab.Prelude.Int.{ℤ, pos, ltb_ℤ, leb_ℤ}
use smtx_lab.Prelude.Results.{Result, ok, err, ◌>>=◌, traverse}
use smtx_lab.Analyzer.Float.{Float}
use smtx_lab.Analyzer.Resource.{SamplePoint}
use smtx_lab.Analyzer.Series.Analyze.{Series}
use smtx_lab.Controller.Checks.{sprint}

-- A JSON value as the code tells it apart; `F` is `float64`.
pub data PromValue (F : Type 0) : Type 0 where
  number : F → PromValue F
  string : Text → PromValue F
  other : PromValue F

-- `promSample`
pub record PromSample (F : Type 0) : Type 0 where
  pub timestamp : PromValue F
  pub value : PromValue F

pub record PromSeries (F : Type 0) : Type 0 where
  pub metric : Dict Text Text
  pub values : List (PromSample F)

pub record QueryRangeResponse (F : Type 0) : Type 0 where
  pub status : Text
  pub error : Text
  pub result : List (PromSeries F)

pub record HttpResponse : Type 0 where
  pub status_code : ℤ
  pub body : Text

-- What the code uses of net/url, net/http, encoding/json, strconv and time. `Context` is what a
-- request is bound to; a time is in nanoseconds, `unix` are its seconds.
pub record Web (F : Type 0) : Type 1 where
  pub Url : Type 0
  pub Context : Type 0
  pub parse_url : Text → Result Url
  pub path : Url → Text
  -- the URL with the path and with these values set in its query
  pub with_query : Url → Text → Dict Text Text → Url
  pub send : Context → Url → Result HttpResponse
  pub decode : Text → Result (QueryRangeResponse F)
  pub parse_float : Text → Result F
  -- `int64(ts)`
  pub truncate : F → ℤ
  pub unix : ℤ → ℤ
  -- `strconv.FormatFloat(step.Seconds(), 'f', -1, 64)`
  pub format_seconds : ℤ → Text
  pub parse_duration : Text → Result ℤ
  -- the context of a query that ends after so many nanoseconds
  pub with_timeout : ℤ → Context

unfoldable pub has_last : ℕ → Text → Bool
has_last c [] = false
has_last c (d ∷ []) = eqb d c
has_last c (d ∷ e ∷ s) = has_last c (e ∷ s)

unfoldable pub join_url_path : Text → Text → Text
unfolding has_last is_empty
join_url_path base suffix =
    if is_empty base || base == lit "/"
    then suffix
    else if has_last b'/' base
    then take (length base - 1) base ++ suffix
    else base ++ suffix

abbrev pub container_cpu_usage_query : Text
container_cpu_usage_query =
    lit
      "sum by (namespace,pod,container) (rate(container_cpu_usage_seconds_total{container!=\"\",image!=\"\"}[5m]))"

abbrev pub container_memory_working_set_query : Text
container_memory_working_set_query =
    lit "container_memory_working_set_bytes{container!=\"\",image!=\"\"}"

abbrev pub container_cpu_requests_query : Text
container_cpu_requests_query = lit "kube_pod_container_resource_requests{resource=\"cpu\"}"

abbrev pub container_memory_requests_query : Text
container_memory_requests_query = lit "kube_pod_container_resource_requests{resource=\"memory\"}"

abbrev pub container_cpu_limits_query : Text
container_cpu_limits_query = lit "kube_pod_container_resource_limits{resource=\"cpu\"}"

abbrev pub container_memory_limits_query : Text
container_memory_limits_query = lit "kube_pod_container_resource_limits{resource=\"memory\"}"

module _ (f : Float) (web : Web f.F) where
  open f use {F}
  open web use {
    parse_url, path, with_query, send, decode, parse_float, truncate, unix, format_seconds,
  }

  abbrev timestamp_of : PromValue F → Result F
  timestamp_of (number ts) = ok ts
  timestamp_of (string s) = err (lit "invalid prometheus timestamp")
  timestamp_of other = err (lit "invalid prometheus timestamp")

  abbrev raw_value_of : PromValue F → Result Text
  raw_value_of (string raw) = ok raw
  raw_value_of (number n) = err (lit "invalid prometheus sample value")
  raw_value_of other = err (lit "invalid prometheus sample value")

  unfoldable pub parse_prom_sample : PromSample F → Result (SamplePoint f)
  parse_prom_sample value = do
    ts ← timestamp_of value.timestamp
    raw ← raw_value_of value.value
    parsed ← parse_float raw
    ok (record { timestamp = truncate ts; value = parsed })

  unfoldable pub parse_series : PromSeries F → Result (Series f)
  parse_series item = do
    values ← traverse parse_prom_sample item.values
    ok (record { metric = item.metric; values = values })

  abbrev check_status : HttpResponse → Result Text
  check_status resp =
      if ltb_ℤ resp.status_code (pos 200) || leb_ℤ (pos 300) resp.status_code
      then err (lit "prometheus query_range returned HTTP " ++ sprint resp.status_code)
      else ok resp.body

  abbrev check_success : QueryRangeResponse F → Result (List (PromSeries F))
  check_success decoded =
      if decoded.status == lit "success"
      then ok decoded.result
      else err (lit "prometheus query_range failed: " ++ decoded.error)

  unfoldable pub query_range : Text → web.Context → Text → ℤ → ℤ → ℤ → Result (List (Series f))
  query_range base_url ctx query start end step =
      if is_empty base_url then err (lit "prometheus base URL is empty") else (do
        u ← parse_url base_url
        resp ← send ctx (
            with_query u (join_url_path (path u) (lit "/api/v1/query_range")) (
              (lit "query", query)
              ∷ (lit "start", sprint (unix start))
              ∷ (lit "end", sprint (unix end))
              ∷ (lit "step", format_seconds step)
              ∷ []))
        body ← check_status resp
        decoded ← decode body
        items ← check_success decoded
        traverse parse_series items)

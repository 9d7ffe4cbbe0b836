-- ===== src/Probe.antt =====
-- cmd/probe/main.go and the types of internal/probe: a probe job runs its checks one after another and
-- reports. The network, the clock and the decoding of the environment are a parameter.
pub mod Checked
use smtx_lab.Prelude.{
  ℕ, zero, suc, ◌+◌, ◌-◌, ◌/◌, ◌<◌, Bool, true, false, ◌||◌, Option, none, some, List, [], ◌∷◌,
  ◌++◌, leb, eqb, if◌then◌else◌, ◌==◌, nat_eq, text_eq, length, get_elem?, Text, lit, is_empty,
  value_or, contains, sort_slice,
}
use smtx_lab.Prelude.Int.{ℤ, pos, pos_part, leb_ℤ}
use smtx_lab.Prelude.Results.{Result, ok, err, ◌>>=◌}
use smtx_lab.Strings.{to_upper, equal_fold}
use smtx_lab.Analyzer.Float.{Float}
use smtx_lab.Controller.Checks.{Check, sprint}

-- `probe.Result`
pub record CheckResult (F : Type 0) : Type 0 where
  pub check_id : Text
  pub source_pod : Text
  pub source_ip : Text
  pub source_node : Text
  pub target_pod : Text
  pub target_node : Text
  pub target_service : Text
  pub protocol : Text
  pub address : Text
  pub port : ℤ
  pub path : Text
  pub target_ip : Text
  pub service_ip : Text
  pub success : Bool
  pub error : Text
  pub latency_ms_p50 : F
  pub latency_ms_p95 : F

-- `probe.Report`
pub record Report (F : Type 0) : Type 0 where
  pub source_node : Text
  pub results : List (CheckResult F)

-- The network as a sequence of exchanges: the `n`th exchange answers so. `timeout` is in nanoseconds.
pub record Network (F : Type 0) : Type 0 where
  -- a GET request, with the status of the response
  pub get : ℕ → Text → ℤ → Result ℤ
  -- `net.DialTimeout(network, target, timeout)`, and what then is written or closed
  pub dial : ℕ → Text → Text → ℤ → Result (Unit {0})
  pub write : ℕ → Text → Result (Unit {0})
  pub close : ℕ → Result (Unit {0})
  -- the milliseconds that it took
  pub latency : ℕ → F

module _ (f : Float) (net : Network f.F) where
  open f use {F, literal, feq, add, sub, mul, of_int, floor_int, lt}

  unfoldable pub target_of : Check → Text
  target_of check = check.address ++ (lit ":" ++ sprint check.port)

  -- An IPv6 address, which `net.JoinHostPort` puts in brackets, has a colon.
  unfoldable pub join_host_port : Check → Text
  unfolding target_of
  join_host_port check =
      if contains check.address b':'
      then lit "[" ++ (check.address ++ (lit "]:" ++ sprint check.port))
      else target_of check

  abbrev scheme_of : Check → Text
  scheme_of check = if equal_fold check.protocol (lit "HTTPS") then lit "https" else lit "http"

  unfoldable pub probe_once : ℕ → Check → ℤ → Result (Unit {0})
  probe_once n check timeout =
      let target = join_host_port check in
      let protocol = to_upper check.protocol in
      if protocol == lit "HTTP" || protocol == lit "HTTPS"
      then (do
        status ← net.get n (scheme_of check ++ (lit "://" ++ target)) timeout
        if leb_ℤ (pos 500) status then err (lit "HTTP status " ++ sprint status) else ok tt)
      else if protocol == lit "UDP"
      then (do _ ← net.dial n (lit "udp") target timeout; net.write n (lit "smtx-lab-probe"))
      else (do _ ← net.dial n (lit "tcp") target timeout; net.close n)

  -- What the loop of `runCheck` ends with: the latencies of the probes that succeeded, the error that
  -- ended it, and the number of the next exchange.
  abbrev pub Rounds : Type 0
  Rounds = List F × Option Text × ℕ

  -- The loop with `rounds` left. The exchanges are numbered from `n`.
  unfoldable pub rounds_from : ℕ → ℕ → Check → ℤ → List F → Rounds
  rounds_from zero n check timeout latencies = (latencies, none, n)
  rounds_from (suc rounds) n check timeout latencies =
      let rest = rounds_from rounds (n + 1) check timeout (latencies ++ net.latency n ∷ []) in
      elim (probe_once n check timeout) [ ok _ ↦ rest | err e ↦ (latencies, some e, n + 1) ]

  -- `copied[i]`, which is in range.
  abbrev at : List F → ℕ → F
  at values i = value_or (literal 0 1) (get_elem? values i)

  unfoldable pub percentile : List F → F → F
  percentile [] p = literal 0 1
  percentile (value ∷ values) p =
      let copied = sort_slice lt (value ∷ values) in
      let rank = mul p (of_int (pos (length copied - 1))) in
      let lower = floor_int rank in
      let above = if feq (of_int lower) rank then pos_part lower else pos_part lower + 1 in
      let upper = if leb (length copied) above then length copied - 1 else above in
      let weight = sub rank (of_int lower) in
      if eqb (length copied) 1
      then at copied 0
      else add (mul (at copied (pos_part lower)) (sub (literal 1 1) weight))
          (mul (at copied upper) weight)

  -- What a check reports, by the latencies and the error of its loop.
  unfoldable pub result_of : Check → List F × Option Text → CheckResult F
  result_of check (latencies, e) = record {
    check_id = check.id;
    source_pod = [];
    source_ip = [];
    source_node = check.source_node;
    target_pod = check.target_pod;
    target_node = check.target_node;
    target_service = check.target_service;
    protocol = to_upper check.protocol;
    address = check.address;
    port = check.port;
    path = check.path;
    target_ip = check.target_ip;
    service_ip = check.service_ip;
    success = elim e [ none ↦ true | some _ ↦ false ];
    error = value_or [] e;
    latency_ms_p50 = percentile latencies (literal 50 100);
    latency_ms_p95 = percentile latencies (literal 95 100);
  }

  -- The result, and the number of the next exchange.
  unfoldable pub run_check : ℕ → Check → ℕ → ℤ → CheckResult F × ℕ
  run_check n check count timeout =
      let (latencies, e, next) = rounds_from count n check timeout [] in
      (result_of check (latencies, e), next)

  -- The exchanges of a check follow those that the one before it made.
  unfoldable pub run_checks : ℕ → List Check → ℕ → ℤ → List (CheckResult F)
  run_checks n [] count timeout = []
  run_checks n (check ∷ checks) count timeout =
      let (result, next) = run_check n check count timeout in
      result ∷ run_checks next checks count timeout

  -- `count <= 0` is one probe.
  unfoldable pub probe_count : ℤ → ℕ
  probe_count count = if leb_ℤ count (pos 0) then 1 else pos_part count

  abbrev default_string : Text → Text → Text
  default_string value fallback = if is_empty value then fallback else value

  -- `main` up to the report; the three decoders read the environment.
  unfoldable pub probe_report :
      (Text → Result (List Check))
      → (Text → Result ℤ)
      → (Text → Result ℤ)
      → Text
      → Text
      → Text
      → Text
      → Result (Report F)
  probe_report unmarshal parse_duration atoi checks_env timeout_env count_env source_node = do
    checks ← unmarshal checks_env
    timeout ← parse_duration (default_string timeout_env (lit "5s"))
    count ← atoi (default_string count_env (lit "1"))
    ok (record {
      source_node = source_node;
      results = run_checks 0 checks (probe_count count) timeout;
    })

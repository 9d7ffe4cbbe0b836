-- ===== src/Analyzer/Iptables/Trace.antt =====
-- The traces of internal/analyzer/network.go: the chains that a packet passes, in order.
use smtx_lab.Prelude.{
  Bool, not, ◌&&◌, ◌||◌, none, some, List, [], ◌∷◌, ◌++◌, if◌then◌else◌, ◌==◌, nat_eq, text_eq, any,
  Text, lit, is_empty,
}
use smtx_lab.Prelude.Int.{is_pos}
use smtx_lab.Strings.{has_prefix, contains_sub, to_lower}
use smtx_lab.Agent.Types.{Snapshot}
use smtx_lab.Analyzer.Iptables.{
  TrafficObservation, IptablesRules, chain_rules, rules_of, parse_iptables, jump_target,
  dnat_action, dispatch_target, workload_interface, endpoint_dnat_matches, find_matching_rule,
  int32_string, iptables_protocol,
}
use smtx_lab.Analyzer.Iptables.Chains.{chain_purpose}

pub record IptablesTraceStep : Type 0 where
  pub stage : Text
  pub table : Text
  pub chain : Text
  pub action : Text
  pub purpose : Text

-- The step that `appendTraceStep` looks for: of the same stage, table and chain.
unfoldable pub same_place : IptablesTraceStep → IptablesTraceStep → Bool
same_place existing step =
    existing.stage == step.stage && (existing.table == step.table && existing.chain == step.chain)

unfoldable pub append_trace_step :
    List IptablesTraceStep → IptablesTraceStep → List IptablesTraceStep
append_trace_step out step =
    if is_empty step.chain
    then out
    else if any (λ existing. same_place existing step) out
    then out
    else out ++ step ∷ []

unfoldable pub append_existing_chain :
    List IptablesTraceStep → IptablesRules → Text → List Text → Text → Text → List IptablesTraceStep
append_existing_chain out rules stage [] chain purpose = out
append_existing_chain out rules stage (table ∷ tables) chain purpose =
    let later = append_existing_chain out rules stage tables chain purpose in
    elim (chain_rules rules table chain) [
      | none ↦ later
      | some lines ↦
          append_trace_step out
            (record { stage = stage; table = table; chain = chain; action = []; purpose = purpose })
    ]

-- The test on the rules of KUBE-SERVICES.
unfoldable pub is_service_entry : TrafficObservation → Text → Bool
is_service_entry traffic line =
    let protocol = iptables_protocol traffic.protocol in
    not (is_empty traffic.service_ip || not (contains_sub line traffic.service_ip))
    && (not (
          is_pos traffic.port
          && not (contains_sub line (lit "--dport " ++ int32_string traffic.port)))
        && (is_empty protocol || contains_sub (to_lower line) (lit "-p " ++ protocol)))

-- The loop over the rules of the service's chain: a rule that names the target ends it, and else the
-- first candidate whose own rules match is taken.
unfoldable pub endpoint_loop : IptablesRules → Text → List Text → Text → Text
endpoint_loop rules target_ip [] endpoint_chain = endpoint_chain
endpoint_loop rules target_ip (line ∷ lines) endpoint_chain =
    let candidate = jump_target line in
    let skipped = endpoint_loop rules target_ip lines endpoint_chain in
    let taken = endpoint_loop rules target_ip lines candidate in
    if not (has_prefix candidate (lit "KUBE-SEP-"))
    then skipped
    else if not (is_empty target_ip) && contains_sub line target_ip
    then candidate
    else if is_empty endpoint_chain
        && endpoint_dnat_matches (rules_of rules (lit "nat") candidate) target_ip
    then taken
    else skipped

-- `out[len(out)-1].Action = action`
unfoldable pub set_last_action : Text → List IptablesTraceStep → List IptablesTraceStep
set_last_action action [] = []
set_last_action action (step ∷ []) = (record step { action = action }) ∷ []
set_last_action action (step ∷ next ∷ rest) = step ∷ set_last_action action (next ∷ rest)

abbrev nat_step : Text → Text → IptablesTraceStep
nat_step chain action = record {
  stage = lit "service-dnat";
  table = lit "nat";
  chain = chain;
  action = action;
  purpose = chain_purpose chain;
}

-- The steps from the service's chain on, and the endpoint's.
unfoldable pub service_steps : Text → List IptablesTraceStep
service_steps service_chain =
    append_trace_step (nat_step (lit "KUBE-SERVICES") (lit "jump " ++ service_chain) ∷ [])
      (nat_step service_chain [])

unfoldable pub endpoint_steps :
    IptablesRules → Text → List IptablesTraceStep → List IptablesTraceStep
endpoint_steps rules endpoint_chain out =
    if is_empty endpoint_chain
    then out
    else append_trace_step (set_last_action (lit "select " ++ endpoint_chain) out)
        (nat_step endpoint_chain (dnat_action (rules_of rules (lit "nat") endpoint_chain)))

unfoldable pub dnat_steps : IptablesRules → TrafficObservation → Text → List IptablesTraceStep
dnat_steps rules traffic service_chain =
    let endpoint_chain =
      endpoint_loop rules traffic.target_ip (rules_of rules (lit "nat") service_chain) [] in
    if is_empty service_chain
    then []
    else endpoint_steps rules endpoint_chain (service_steps service_chain)

unfoldable pub trace_service_dnat : IptablesRules → TrafficObservation → List IptablesTraceStep
trace_service_dnat rules traffic =
    let entry_rule =
      find_matching_rule (rules_of rules (lit "nat") (lit "KUBE-SERVICES"))
        (is_service_entry traffic) in
    dnat_steps rules traffic (jump_target entry_rule)

-- The policy chain of the workload's interface.
unfoldable pub append_endpoint_policy :
    IptablesRules → Text → Text → Text → Text → List IptablesTraceStep → List IptablesTraceStep
append_endpoint_policy rules stage dispatch direction iface out =
    let endpoint_chain = dispatch_target rules (lit "filter") dispatch direction iface in
    if is_empty iface || is_empty endpoint_chain
    then out
    else append_trace_step out (record {
      stage = stage;
      table = lit "filter";
      chain = endpoint_chain;
      action = lit "policy for " ++ iface;
      purpose = chain_purpose endpoint_chain;
    })

unfoldable pub append_service :
    IptablesRules → TrafficObservation → List IptablesTraceStep → List IptablesTraceStep
append_service rules traffic out =
    if is_empty traffic.service_ip then out else out ++ trace_service_dnat rules traffic

-- `appendExistingChain` with the chain's own purpose, in one table.
abbrev pub filter_chain :
    IptablesRules → Text → Text → List IptablesTraceStep → List IptablesTraceStep
filter_chain rules stage chain out =
    append_existing_chain out rules stage (lit "filter" ∷ []) chain (chain_purpose chain)

unfoldable pub trace_source_iptables : Snapshot → TrafficObservation → List IptablesTraceStep
trace_source_iptables snapshot traffic =
    let rules = parse_iptables snapshot.iptables.lines in
    let stage = lit "source-egress" in
    let entered =
      append_existing_chain [] rules stage (lit "raw" ∷ lit "mangle" ∷ lit "nat" ∷ [])
        (lit "cali-PREROUTING")
        (lit "Calico pre-routing hook for traffic leaving the source workload.") in
    let served = append_service rules traffic entered in
    let forwarded = filter_chain rules stage (lit "cali-FORWARD") served in
    let dispatched = filter_chain rules stage (lit "cali-from-wl-dispatch") forwarded in
    let policed =
      append_endpoint_policy rules stage (lit "cali-from-wl-dispatch") (lit "-i")
        (workload_interface snapshot.routes.lines traffic.source_ip) dispatched in
    let permitted = filter_chain rules stage (lit "KUBE-FORWARD") policed in
    append_existing_chain permitted rules stage (lit "mangle" ∷ lit "nat" ∷ [])
      (lit "cali-POSTROUTING")
      (lit "Calico post-routing hook before traffic leaves the source node.")

unfoldable pub trace_target_iptables : Snapshot → TrafficObservation → List IptablesTraceStep
trace_target_iptables snapshot traffic =
    let rules = parse_iptables snapshot.iptables.lines in
    let stage = lit "target-ingress" in
    let entered =
      append_existing_chain [] rules stage (lit "raw" ∷ lit "mangle" ∷ lit "nat" ∷ [])
        (lit "cali-PREROUTING")
        (lit "Calico pre-routing hook for traffic entering the target node.") in
    let forwarded = filter_chain rules stage (lit "cali-FORWARD") entered in
    let dispatched = filter_chain rules stage (lit "cali-to-wl-dispatch") forwarded in
    let policed =
      append_endpoint_policy rules stage (lit "cali-to-wl-dispatch") (lit "-o")
        (workload_interface snapshot.routes.lines traffic.target_ip) dispatched in
    filter_chain rules stage (lit "KUBE-FORWARD") policed

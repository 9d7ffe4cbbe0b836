-- ===== src/Analyzer/Iptables/Steps.antt =====
-- The steps of the traces of internal/analyzer/network.go.
use smtx_lab.Prelude.{
  ◌≡◌, refl, inl, inr, true, false, ◌||◌, List, [], ◌∷◌, ◌++◌, arith, ◌==◌, nat_eq, text_eq,
  Bool-cases, if_both, Option-cases, any, All, All-append, All-mono, Text, lit, text_beq, is_empty,
}
use smtx_lab.Agent.Types.{Snapshot}
use smtx_lab.Analyzer.Iptables.{
  TrafficObservation, IptablesRules, chain_rules, parse_iptables, dispatch_target,
}
use smtx_lab.Analyzer.Iptables.Chains.{chain_purpose}
use smtx_lab.Analyzer.Iptables.Trace.{
  IptablesTraceStep, same_place, append_trace_step, append_existing_chain, set_last_action,
  service_steps, endpoint_steps, trace_service_dnat, dnat_steps, append_endpoint_policy,
  append_service, trace_source_iptables, trace_target_iptables,
}

-- No step is at the place of an earlier one.
abbrev pub NoRepeat : List IptablesTraceStep → Type 0
NoRepeat [] = Unit
NoRepeat (x ∷ xs) = All (λ y. same_place x y ≡ false) xs × NoRepeat xs

abbrev Named : IptablesTraceStep → Type 0
Named step = is_empty step.chain ≡ false

-- A trace: every step names its chain, and none is repeated.
pub record IsTrace (out : List IptablesTraceStep) : Type 0 where
  pub named : All Named out
  pub no_repeat : NoRepeat out

abbrev InStage : Text → List IptablesTraceStep → Type 0
InStage stage out = All (λ step. step.stage ≡ stage) out

NoRepeat-append :
    (xs ys : List IptablesTraceStep)
    → NoRepeat xs
    → NoRepeat ys
    → All (λ x. All (λ y. same_place x y ≡ false) ys) xs
    → NoRepeat (xs ++ ys)
NoRepeat-append [] ys hx hy apart = hy
NoRepeat-append (x ∷ xs) ys (px, hx) hy (p, apart) =
    (All-append (λ y. same_place x y ≡ false) xs ys px p, NoRepeat-append xs ys hx hy apart)

any_none :
    (out : List IptablesTraceStep) (step : IptablesTraceStep)
    → any (λ existing. same_place existing step) out ≡ false
    → All (λ x. All (λ y. same_place x y ≡ false) (step ∷ [])) out
unfolding any
any_none [] step h = tt
any_none (x ∷ out) step h = elim (Bool-cases (same_place x step)) [
  | inl e ↦ absurd (or_not e h)
  | inr e ↦ ((e, tt), any_none out step (rw e at h))
]
  where
    or_not :
        same_place x step ≡ true
        → (same_place x step || any (λ existing. same_place existing step) out) ≡ false
        → ⊥
    or_not e q = ground (arith, e, q)

append_trace_step-IsTrace :
    (out : List IptablesTraceStep) (step : IptablesTraceStep)
    → IsTrace out
    → IsTrace (append_trace_step out step)
unfolding append_trace_step
append_trace_step-IsTrace out step t =
    if_both IsTrace (is_empty step.chain) (λ e. t)
      (λ e.
        if_both IsTrace (any (λ existing. same_place existing step) out) (λ d. t)
          (λ d. record {
            named = All-append Named out (step ∷ []) t.named (e, tt);
            no_repeat = NoRepeat-append out (step ∷ []) t.no_repeat (tt, tt) (any_none out step d);
          }))

append_trace_step-InStage :
    (stage : Text) (out : List IptablesTraceStep) (step : IptablesTraceStep)
    → step.stage ≡ stage
    → InStage stage out
    → InStage stage (append_trace_step out step)
unfolding append_trace_step
append_trace_step-InStage stage out step e h =
    if_both (InStage stage) (is_empty step.chain) (λ p. h)
      (λ p.
        if_both (InStage stage) (any (λ existing. same_place existing step) out) (λ d. h)
          (λ d. All-append (λ s. s.stage ≡ stage) out (step ∷ []) h (e, tt)))

-- What the appending of one step keeps, the search for a chain in several tables keeps.
module _ (P : List IptablesTraceStep → Type 0) (stage chain purpose : Text) where
  append_existing_chain_keeps :
      (out : List IptablesTraceStep) (rules : IptablesRules) (tables : List Text)
      → ((step : IptablesTraceStep) → step.stage ≡ stage → P (append_trace_step out step))
      → P out
      → P (append_existing_chain out rules stage tables chain purpose)
  unfolding append_existing_chain
  append_existing_chain_keeps out rules [] keeps p = p
  append_existing_chain_keeps out rules (table ∷ tables) keeps p =
      elim (Option-cases (chain_rules rules table chain)) [
        | inl e ↦
            rw (append_existing_chain, e) (append_existing_chain_keeps out rules tables keeps p)
        | inr (lines, e) ↦ rw (append_existing_chain, e) (keeps _ refl)
      ]

append_existing_chain-IsTrace :
    (out : List IptablesTraceStep) (rules : IptablesRules) (stage : Text) (tables : List Text)
    (chain purpose : Text)
    → IsTrace out
    → IsTrace (append_existing_chain out rules stage tables chain purpose)
append_existing_chain-IsTrace out rules stage tables chain purpose t =
    append_existing_chain_keeps IsTrace stage chain purpose out rules tables
      (λ step e. append_trace_step-IsTrace out step t) t

append_endpoint_policy-IsTrace :
    (rules : IptablesRules) (stage dispatch direction iface : Text) (out : List IptablesTraceStep)
    → IsTrace out
    → IsTrace (append_endpoint_policy rules stage dispatch direction iface out)
unfolding append_endpoint_policy
append_endpoint_policy-IsTrace rules stage dispatch direction iface out t =
    let endpoint_chain = dispatch_target rules (lit "filter") dispatch direction iface in
    if_both IsTrace (is_empty iface || is_empty endpoint_chain) (λ e. t)
      (λ e.
        append_trace_step-IsTrace out
          (record {
            stage = stage;
            table = lit "filter";
            chain = endpoint_chain;
            action = lit "policy for " ++ iface;
            purpose = chain_purpose endpoint_chain;
          })
          t)

All-set_last_action :
    (P : IptablesTraceStep → Type 0) (action : Text)
    → ((step : IptablesTraceStep) → P step → P (record step { action = action }))
    → (out : List IptablesTraceStep) → All P out
    → All P (set_last_action action out)
unfolding set_last_action
All-set_last_action P action f [] h = tt
All-set_last_action P action f (step ∷ []) (p, h) = (f step p, tt)
All-set_last_action P action f (step ∷ next ∷ rest) (p, h) =
    (p, All-set_last_action P action f (next ∷ rest) h)

NoRepeat-set_last_action :
    (action : Text) (out : List IptablesTraceStep)
    → NoRepeat out
    → NoRepeat (set_last_action action out)
unfolding set_last_action same_place
NoRepeat-set_last_action action [] h = tt
NoRepeat-set_last_action action (step ∷ []) h = (tt, tt)
NoRepeat-set_last_action action (step ∷ next ∷ rest) (p, h) = (
  All-set_last_action (λ y. same_place step y ≡ false) action (λ y q. q) (next ∷ rest) p,
  NoRepeat-set_last_action action (next ∷ rest) h,
)

abbrev dnat : Text
dnat = lit "service-dnat"

-- A trace in one stage.
abbrev IsStageTrace : Text → List IptablesTraceStep → Type 0
IsStageTrace stage out = IsTrace out × InStage stage out

append_step-IsStageTrace :
    (stage : Text) (out : List IptablesTraceStep) (step : IptablesTraceStep)
    → step.stage ≡ stage
    → IsStageTrace stage out
    → IsStageTrace stage (append_trace_step out step)
append_step-IsStageTrace stage out step e (t, s) =
    (append_trace_step-IsTrace out step t, append_trace_step-InStage stage out step e s)

set_last_action-IsStageTrace :
    (stage action : Text) (out : List IptablesTraceStep)
    → IsStageTrace stage out
    → IsStageTrace stage (set_last_action action out)
set_last_action-IsStageTrace stage action out (t, s) = (
  record {
    named = All-set_last_action Named action (λ step p. p) out t.named;
    no_repeat = NoRepeat-set_last_action action out t.no_repeat;
  },
  All-set_last_action (λ step. step.stage ≡ stage) action (λ step p. p) out s,
)

kube_services : is_empty (lit "KUBE-SERVICES") ≡ false
unfolding lit is_empty
kube_services = refl

service_steps-IsStageTrace :
    (service_chain : Text) → IsStageTrace dnat (service_steps service_chain)
unfolding service_steps
service_steps-IsStageTrace service_chain =
    append_step-IsStageTrace dnat _ _ refl
      (record { named = (kube_services, tt); no_repeat = (tt, tt) }, (refl, tt))

endpoint_steps-IsStageTrace :
    (rules : IptablesRules) (endpoint_chain : Text) (out : List IptablesTraceStep)
    → IsStageTrace dnat out
    → IsStageTrace dnat (endpoint_steps rules endpoint_chain out)
unfolding endpoint_steps
endpoint_steps-IsStageTrace rules endpoint_chain out h =
    if_both (IsStageTrace dnat) (is_empty endpoint_chain) (λ e. h)
      (λ e.
        append_step-IsStageTrace dnat (set_last_action (lit "select " ++ endpoint_chain) out) _ refl
          (set_last_action-IsStageTrace dnat (lit "select " ++ endpoint_chain) out h))

dnat_steps-IsStageTrace :
    (rules : IptablesRules) (traffic : TrafficObservation) (service_chain : Text)
    → IsStageTrace dnat (dnat_steps rules traffic service_chain)
unfolding dnat_steps
dnat_steps-IsStageTrace rules traffic service_chain =
    if_both (IsStageTrace dnat) (is_empty service_chain)
      (λ e. (record { named = tt; no_repeat = tt }, tt))
      (λ e. endpoint_steps-IsStageTrace rules _ _ (service_steps-IsStageTrace service_chain))

stages_apart :
    (a b : Text) (xs ys : List IptablesTraceStep)
    → (a == b) ≡ false
    → InStage a xs
    → InStage b ys
    → All (λ x. All (λ y. same_place x y ≡ false) ys) xs
unfolding same_place
stages_apart a b xs ys differ hx hy =
    All-mono (λ x. x.stage ≡ a) (λ x. All (λ y. same_place x y ≡ false) ys)
      (λ x ex.
        All-mono (λ y. y.stage ≡ b) (λ y. same_place x y ≡ false) (λ y ey. rw (ex, ey, differ) refl)
          ys hy)
      xs hx

-- The service's steps are appended to a trace of another stage.
append_service-IsTrace :
    (rules : IptablesRules) (traffic : TrafficObservation) (stage : Text)
    (out : List IptablesTraceStep)
    → (stage == dnat) ≡ false
    → IsStageTrace stage out
    → IsTrace (append_service rules traffic out)
unfolding append_service trace_service_dnat
append_service-IsTrace rules traffic stage out differ (t, s) =
    if_both IsTrace (is_empty traffic.service_ip) (λ e. t)
      (λ e.
        let (u, r) : IsStageTrace dnat (trace_service_dnat rules traffic) =
          dnat_steps-IsStageTrace rules traffic _ in
        record {
          named = All-append Named out (trace_service_dnat rules traffic) t.named u.named;
          no_repeat =
              NoRepeat-append out (trace_service_dnat rules traffic) t.no_repeat u.no_repeat
                (stages_apart stage dnat out (trace_service_dnat rules traffic) differ s r);
        })

egress_differs : (lit "source-egress" == dnat) ≡ false
unfolding lit text_beq
egress_differs = refl

-- Every step of the trace at the source node names its chain, and no two steps have the stage, the
-- table and the chain in common.
pub trace_source_iptables-IsTrace :
    (snapshot : Snapshot) (traffic : TrafficObservation)
    → IsTrace (trace_source_iptables snapshot traffic)
unfolding trace_source_iptables
trace_source_iptables-IsTrace snapshot traffic =
    let rules = parse_iptables snapshot.iptables.lines in
    let stage = lit "source-egress" in
    let entered =
      append_existing_chain_keeps (IsStageTrace stage) stage (lit "cali-PREROUTING") _ [] rules _
        (λ step e.
          append_step-IsStageTrace stage [] step e (record { named = tt; no_repeat = tt }, tt))
        (record { named = tt; no_repeat = tt }, tt) in
    let served = append_service-IsTrace rules traffic stage _ egress_differs entered in
    let forwarded =
      append_existing_chain-IsTrace _ rules stage (lit "filter" ∷ []) (lit "cali-FORWARD") _
        served in
    let dispatched =
      append_existing_chain-IsTrace _ rules stage (lit "filter" ∷ []) (lit "cali-from-wl-dispatch")
        _ forwarded in
    let policed = append_endpoint_policy-IsTrace rules stage _ _ _ _ dispatched in
    let permitted =
      append_existing_chain-IsTrace _ rules stage (lit "filter" ∷ []) (lit "KUBE-FORWARD") _
        policed in
    append_existing_chain-IsTrace _ rules stage _ (lit "cali-POSTROUTING") _ permitted

-- Every step of the trace at the target node names its chain, and no two steps have the stage, the
-- table and the chain in common.
pub trace_target_iptables-IsTrace :
    (snapshot : Snapshot) (traffic : TrafficObservation)
    → IsTrace (trace_target_iptables snapshot traffic)
unfolding trace_target_iptables
trace_target_iptables-IsTrace snapshot traffic =
    let rules = parse_iptables snapshot.iptables.lines in
    let stage = lit "target-ingress" in
    let entered =
      append_existing_chain-IsTrace [] rules stage _ (lit "cali-PREROUTING") _
        (record { named = tt; no_repeat = tt }) in
    let forwarded =
      append_existing_chain-IsTrace _ rules stage (lit "filter" ∷ []) (lit "cali-FORWARD") _
        entered in
    let dispatched =
      append_existing_chain-IsTrace _ rules stage (lit "filter" ∷ []) (lit "cali-to-wl-dispatch") _
        forwarded in
    let policed = append_endpoint_policy-IsTrace rules stage _ _ _ _ dispatched in
    append_existing_chain-IsTrace _ rules stage (lit "filter" ∷ []) (lit "KUBE-FORWARD") _ policed

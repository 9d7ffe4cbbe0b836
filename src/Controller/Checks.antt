-- ===== src/Controller/Checks.antt =====
-- `buildProbeChecks` of internal/controller/networkprobelab_controller.go and what it calls.
pub mod Ports
pub mod CrossNode
pub mod Deadline
pub mod Decimal
use smtx_lab.Prelude.{
  ℕ, zero, suc, ◌+◌, ◌-◌, ◌*◌, ◌/◌, ◌%◌, Bool, not, ◌&&◌, ◌||◌, List, [], ◌∷◌, ◌++◌, map, ltb,
  if◌then◌else◌, ◌==◌, nat_eq, text_eq, take, filter, all, Text, lit, text_lt, is_empty, Dict,
  add_key, sort_slice,
}
use smtx_lab.Prelude.Int.{ℤ, pos, negsuc, ltb_ℤ, is_pos, int_eq, ◌+ℤ◌, ◌*ℤ◌, wrap64}
use smtx_lab.Strings.{to_upper}
use smtx_lab.Crypto.{sha1, hex}
use smtx_lab.Api.Network.{NetworkProbeTrafficSpec}

-- `probe.Check`
pub record Check : Type 0 where
  pub id : Text
  pub source_node : Text
  pub target_pod : Text
  pub target_node : Text
  pub target_service : Text
  pub protocol : Text
  pub address : Text
  pub port : ℤ
  pub path : Text
  pub target_ip : Text
  pub service_ip : Text

-- What is read of a pod; the ports are those of all its containers.
pub record Pod : Type 0 where
  pub namespace : Text
  pub name : Text
  pub phase : Text
  pub pod_ip : Text
  pub node_name : Text
  pub container_ports : List ℤ
  pub labels : Dict Text Text

-- What is read of a service.
pub record Service : Type 0 where
  pub namespace : Text
  pub name : Text
  pub cluster_ip : Text
  pub ports : List ℤ
  pub selector : Dict Text Text

-- A loop that appends what each element gives.
unfoldable pub for_each {ℓ κ} : {A : Type ℓ} {B : Type κ} → List A → (A → List B) → List B
for_each [] body = []
for_each (x ∷ xs) body = body x ++ for_each xs body

-- The digits of a number, on fuel: 20 digits are enough for 64 bits.
unfoldable pub decimal_on : ℕ → ℕ → Text → Text
decimal_on zero value digits = digits
decimal_on (suc fuel) value digits =
    let rest = decimal_on fuel (value / 10) ((b'0' + value % 10) ∷ digits) in
    if ltb value 10 then (b'0' + value) ∷ digits else rest

-- `fmt.Sprint(value)` of an integer
unfoldable pub sprint : ℤ → Text
sprint (pos n) = decimal_on 20 n []
sprint (negsuc n) = lit "-" ++ decimal_on 20 (suc n) []

unfoldable pub join_parts : List Text → Text → Text
join_parts [] out = out
join_parts (part ∷ parts) out =
    join_parts parts (if is_empty out then part else out ++ (lit "|" ++ part))

unfoldable pub check_id : List Text → Text
check_id parts = take 16 (hex (sha1 (join_parts parts [])))

unfoldable pub default_protocols : List Text → List Text
default_protocols protocols =
    if is_empty protocols then lit "TCP" ∷ [] else sort_slice text_lt (map to_upper protocols)

-- The set `ports` with the positive ports of a list.
unfoldable pub add_ports : List ℤ → List ℤ → List ℤ
add_ports [] set = set
add_ports (port ∷ ports) set = add_ports ports (if is_pos port then add_key set port else set)

unfoldable pub port_set : List ℤ → List Pod → List Service → List ℤ
port_set configured pods services =
    let own = add_ports configured [] in
    let of_services = add_ports (for_each services (λ svc. svc.ports)) own in
    let of_pods = add_ports (for_each pods (λ pod. pod.container_ports)) of_services in
    if not (is_empty own)
    then own
    else if not (is_empty of_services)
    then of_services
    else if not (is_empty of_pods)
    then of_pods
    else pos 80 ∷ []

unfoldable pub default_probe_ports : List ℤ → List Pod → List Service → List ℤ
default_probe_ports configured pods services = sort_slice ltb_ℤ (port_set configured pods services)

unfoldable pub service_or_default_ports : Service → List ℤ → List ℤ
service_or_default_ports service fallback =
    if is_empty service.ports then fallback else sort_slice ltb_ℤ (filter is_pos service.ports)

unfoldable pub add_nodes : List Pod → List Text → List Text
add_nodes [] seen = seen
add_nodes (pod ∷ pods) seen =
    add_nodes pods (if is_empty pod.node_name then seen else add_key seen pod.node_name)

unfoldable pub unique_pod_nodes : List Pod → List Text
unique_pod_nodes pods = sort_slice text_lt (add_nodes pods [])

abbrev pub full_name : Text → Text → Text
full_name namespace name = namespace ++ (lit "/" ++ name)

unfoldable pub pod_check : Text → Pod → Text → ℤ → Check
pod_check source_node target protocol port = record {
  id =
      check_id
        (source_node ∷ target.namespace ∷ target.name ∷ protocol ∷ sprint port ∷ lit "podIP" ∷ []);
  source_node = source_node;
  target_pod = full_name target.namespace target.name;
  target_node = target.node_name;
  target_service = [];
  protocol = protocol;
  address = target.pod_ip;
  port = port;
  path = lit "podIP";
  target_ip = target.pod_ip;
  service_ip = [];
}

-- The checks of a service differ in the address and the path: "serviceVIP" or "dns".
unfoldable pub service_check : Text → Service → Text → ℤ → Text → Text → Check
service_check source_node svc protocol port path address = record {
  id = check_id (source_node ∷ svc.namespace ∷ svc.name ∷ protocol ∷ sprint port ∷ path ∷ []);
  source_node = source_node;
  target_pod = [];
  target_node = [];
  target_service = full_name svc.namespace svc.name;
  protocol = protocol;
  address = address;
  port = port;
  path = path;
  target_ip = [];
  service_ip = svc.cluster_ip;
}

module _ (cluster_ip_none : Text) (traffic : NetworkProbeTrafficSpec) where
  abbrev pub wants_pod_ip : Bool
  wants_pod_ip =
      traffic.include_pod_ip
      || not (traffic.include_pod_ip || traffic.include_service_vip || traffic.include_dns)

  abbrev pub wants_vip : Service → Bool
  wants_vip svc =
      traffic.include_service_vip
      && (not (is_empty svc.cluster_ip) && not (svc.cluster_ip == cluster_ip_none))

  module _ (protocols : List Text) (ports : List ℤ) (source_node : Text) where
    unfoldable pub pod_checks : Pod → List Check
    pod_checks target =
        if traffic.cross_node_only && target.node_name == source_node
        then []
        else for_each protocols (λ protocol. map (pod_check source_node target protocol) ports)

    unfoldable pub vip_checks : Service → List Check
    vip_checks svc =
        if wants_vip svc
        then for_each protocols (λ protocol.
          map
            (λ port. service_check source_node svc protocol port (lit "serviceVIP") svc.cluster_ip)
            (service_or_default_ports svc ports))
        else []

    unfoldable pub dns_checks : Service → List Check
    dns_checks svc =
        let dns_name = svc.name ++ (lit "." ++ (svc.namespace ++ lit ".svc")) in
        if traffic.include_dns
        then for_each protocols (λ protocol.
          map (λ port. service_check source_node svc protocol port (lit "dns") dns_name)
            (service_or_default_ports svc ports))
        else []

  unfoldable pub source_checks : List Text → List ℤ → List Pod → List Service → Text → List Check
  source_checks protocols ports pods services source_node =
      (if wants_pod_ip then for_each pods (pod_checks protocols ports source_node) else [])
      ++ for_each services (λ svc.
        vip_checks protocols ports source_node svc ++ dns_checks protocols ports source_node svc)

  unfoldable pub build_probe_checks : List Pod → List Service → List Check
  build_probe_checks pods services =
      let protocols = default_protocols traffic.protocols in
      let ports = default_probe_ports traffic.ports pods services in
      sort_slice (λ (a b : Check). text_lt a.id b.id)
        (for_each (unique_pod_nodes pods) (source_checks protocols ports pods services))

-- `defaultInt32`
unfoldable pub default_int32 : ℤ → ℤ → ℤ
default_int32 value fallback = if is_pos value then value else fallback

unfoldable pub clamp_deadline : ℤ → ℤ
clamp_deadline deadline =
    if ltb_ℤ deadline (pos 120)
    then pos 120
    else if ltb_ℤ (pos 3600) deadline
    then pos 3600
    else deadline

unfoldable pub probe_job_deadline_seconds : NetworkProbeTrafficSpec → ℤ → ℤ
probe_job_deadline_seconds traffic check_count =
    let count = default_int32 traffic.count (pos 1) in
    let timeout = default_int32 traffic.timeout_seconds (pos 5) in
    let checks = if is_pos check_count then check_count else pos 1 in
    clamp_deadline (wrap64 (wrap64 (wrap64 (checks *ℤ count) *ℤ timeout) +ℤ pos 60))

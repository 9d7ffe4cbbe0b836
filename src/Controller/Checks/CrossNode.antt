-- ===== src/Controller/Checks/CrossNode.antt =====
-- The checks that `buildProbeChecks` makes, one by one.
use smtx_lab.Prelude.{
  ◌≡◌, refl, Bool, true, false, not, ◌&&◌, List, [], ◌∷◌, ◌++◌, map, arith, ◌==◌, nat_eq, text_eq,
  if_both, All, All-append, Text, lit, text_lt, is_empty, All-add_key, All-sort_slice, IsSorted,
  sort_slice-IsSorted, text_lt-IsOrder, by_key-IsOrder,
}
use smtx_lab.Prelude.Int.{ℤ, is_pos}
use smtx_lab.Api.Network.{NetworkProbeTrafficSpec}
use smtx_lab.Controller.Checks.{
  default_probe_ports, default_protocols, unique_pod_nodes, build_probe_checks, Check, Pod, Service,
  for_each, add_nodes, pod_check, service_check, pod_checks, vip_checks, dns_checks, source_checks,
  service_or_default_ports, wants_pod_ip, wants_vip,
}
use smtx_lab.Controller.Checks.Ports.{
  default_probe_ports-IsPortList, IsPort, service_or_default_ports_positive,
}

All-for_each :
    {A B : Type 0} (P : A → Type 0) (Q : B → Type 0) (body : A → List B)
    → ((x : A) → P x → All Q (body x))
    → (xs : List A) → All P xs
    → All Q (for_each xs body)
unfolding for_each
All-for_each P Q body f [] h = tt
All-for_each P Q body f (x ∷ xs) (p, h) =
    All-append Q (body x) (for_each xs body) (f x p) (All-for_each P Q body f xs h)

All-map :
    {A B : Type 0} (P : A → Type 0) (Q : B → Type 0) (g : A → B)
    → ((x : A) → P x → Q (g x))
    → (xs : List A) → All P xs
    → All Q (map g xs)
All-map P Q g f [] h = tt
All-map P Q g f (x ∷ xs) (p, h) = (f x p, All-map P Q g f xs h)

trivial : {A : Type 0} (xs : List A) → All (λ (x : A). Unit {0}) xs
trivial [] = tt
trivial (x ∷ xs) = (tt, trivial xs)

-- A check that may run: its port is positive, its source is a node with a name, and where only other
-- nodes are to be probed a pod's check is of a pod on another node.
pub record IsRunnable (traffic : NetworkProbeTrafficSpec) (check : Check) : Type 0 where
  pub has_port : is_pos check.port ≡ true
  pub has_source : is_empty check.source_node ≡ false
  pub crosses :
      (traffic.cross_node_only
        && (not (is_empty check.target_pod) && check.target_node == check.source_node))
      ≡ false

not_pod : (b : Bool) → (b && false) ≡ false
not_pod true = refl
not_pod false = refl

add_nodes_named :
    (pods : List Pod) (seen : List Text)
    → All (λ n. is_empty n ≡ false) seen
    → All (λ n. is_empty n ≡ false) (add_nodes pods seen)
unfolding add_nodes
add_nodes_named [] seen h = h
add_nodes_named (pod ∷ pods) seen h = add_nodes_named pods _ (
    if_both (All (λ n. is_empty n ≡ false)) (is_empty pod.node_name) (λ e. h)
      (λ e. All-add_key (λ n. is_empty n ≡ false) seen pod.node_name e h))

module _ (none_ip : Text) (traffic : NetworkProbeTrafficSpec) (protocols : List Text)
    (ports : List ℤ) (positive : All IsPort ports) (source : Text)
    (named : is_empty source ≡ false) where
  pod_checks-IsRunnable :
      (target : Pod)
      → All (IsRunnable traffic) (pod_checks none_ip traffic protocols ports source target)
  unfolding pod_checks pod_check
  pod_checks-IsRunnable target =
      if_both (All (IsRunnable traffic)) (traffic.cross_node_only && target.node_name == source)
        (λ e. tt)
        (λ e.
          All-for_each (λ p. Unit) (IsRunnable traffic) _
            (λ protocol u.
              All-map IsPort (IsRunnable traffic) (pod_check source target protocol)
                (λ port is_port. record {
                  has_port = is_port;
                  has_source = named;
                  crosses = other _ e;
                })
                ports positive)
            protocols (trivial protocols))
    where
      other :
          (has_pod : Bool)
          → (traffic.cross_node_only && target.node_name == source) ≡ false
          → (traffic.cross_node_only && (has_pod && target.node_name == source)) ≡ false
      other has_pod e = ground (arith, e)

  service_checks-IsRunnable :
      (svc : Service) (path address : Text)
      → All (IsRunnable traffic) (
          for_each protocols (λ protocol.
            map
              (λ port. service_check source svc protocol port path address)
              (service_or_default_ports svc ports)))
  unfolding service_check is_empty
  service_checks-IsRunnable svc path address =
      All-for_each (λ p. Unit) (IsRunnable traffic) _
        (λ protocol u.
          All-map IsPort (IsRunnable traffic)
            (λ port. service_check source svc protocol port path address)
            (λ port is_port. record {
              has_port = is_port;
              has_source = named;
              crosses = not_pod traffic.cross_node_only;
            })
            (service_or_default_ports svc ports)
            (service_or_default_ports_positive svc ports positive))
        protocols (trivial protocols)

  source_checks-IsRunnable :
      (pods : List Pod) (services : List Service)
      → All
          (IsRunnable traffic)
          (source_checks none_ip traffic protocols ports pods services source)
  unfolding source_checks vip_checks dns_checks
  source_checks-IsRunnable pods services =
      All-append (IsRunnable traffic) _ _
        (if_both (All (IsRunnable traffic)) (wants_pod_ip none_ip traffic)
          (λ e.
            All-for_each (λ p. Unit) (IsRunnable traffic) _ (λ pod u. pod_checks-IsRunnable pod)
              pods (trivial pods))
          (λ e. tt))
        (All-for_each (λ s. Unit) (IsRunnable traffic) _
          (λ svc u.
            All-append (IsRunnable traffic) _ _
              (if_both (All (IsRunnable traffic)) (wants_vip none_ip traffic svc)
                (λ e. service_checks-IsRunnable svc (lit "serviceVIP") svc.cluster_ip) (λ e. tt))
              (if_both (All (IsRunnable traffic)) traffic.include_dns
                (λ e.
                  service_checks-IsRunnable svc (lit "dns")
                    (svc.name ++ (lit "." ++ (svc.namespace ++ lit ".svc"))))
                (λ e. tt)))
          services (trivial services))

unique_pod_nodes_named : (pods : List Pod) → All (λ n. is_empty n ≡ false) (unique_pod_nodes pods)
unfolding unique_pod_nodes
unique_pod_nodes_named pods =
    All-sort_slice text_lt (λ n. is_empty n ≡ false) (add_nodes pods [])
      (add_nodes_named pods [] tt)

-- The checks are in the order of their identifiers, and each may run: its port is positive, its source
-- node has a name, and where the spec asks for other nodes only, a check of a pod is of a pod on
-- another node than its source.
pub build_probe_checks-IsRunnable :
    (cluster_ip_none : Text) (traffic : NetworkProbeTrafficSpec) (pods : List Pod)
    (services : List Service)
    → All (IsRunnable traffic) (build_probe_checks cluster_ip_none traffic pods services)
      × IsSorted
          (λ a b. text_lt a.id b.id)
          (build_probe_checks cluster_ip_none traffic pods services)
unfolding build_probe_checks
build_probe_checks-IsRunnable cluster_ip_none traffic pods services =
    let protocols = default_protocols traffic.protocols in
    let ports = default_probe_ports traffic.ports pods services in
    let positive = (default_probe_ports-IsPortList traffic.ports pods services).0.positive in
    let checks =
      for_each (unique_pod_nodes pods)
        (source_checks cluster_ip_none traffic protocols ports pods services) in
    (
      All-sort_slice (λ (a b : Check). text_lt a.id b.id) (IsRunnable traffic) checks
          (All-for_each (λ n. is_empty n ≡ false) (IsRunnable traffic) _
            (λ source named.
              source_checks-IsRunnable cluster_ip_none traffic protocols ports positive source named
                pods services)
            (unique_pod_nodes pods) (unique_pod_nodes_named pods)),
      sort_slice-IsSorted (λ (a b : Check). text_lt a.id b.id)
          (by_key-IsOrder text_lt (λ (c : Check). c.id) text_lt-IsOrder) checks,
    )

-- ===== src/Controller/Checks/Ports.antt =====
-- The ports that `defaultProbePorts` and `serviceOrDefaultPorts` choose.
use smtx_lab.Prelude.{
  ◌≡◌, refl, true, false, not, List, [], ◌∷◌, arith, nat_eq, text_eq, if_both, filter, All,
  All-filter_test, is_empty, All-add_key, sort_slice, sort_slice_not_empty, All-sort_slice,
  IsSorted, IsOrder, sort_slice-IsSorted,
}
use smtx_lab.Prelude.Int.{ℤ, ltb_ℤ, is_pos, int_eq}
use smtx_lab.Controller.Checks.{
  Pod, Service, for_each, add_ports, port_set, default_probe_ports, service_or_default_ports,
}

ltb_ℤ-IsOrder : IsOrder ltb_ℤ
ltb_ℤ-IsOrder = record { asym = λ x y h. ground arith; trans = λ x y z p q. ground arith }

abbrev pub IsPort : ℤ → Type 0
IsPort port = is_pos port ≡ true

-- A list of ports to probe: positive and in ascending order.
pub record IsPortList (ports : List ℤ) : Type 0 where
  pub positive : All IsPort ports
  pub sorted : IsSorted ltb_ℤ ports

sort-IsPortList : (ports : List ℤ) → All IsPort ports → IsPortList (sort_slice ltb_ℤ ports)
sort-IsPortList ports h = record {
  positive = All-sort_slice ltb_ℤ IsPort ports h;
  sorted = sort_slice-IsSorted ltb_ℤ ltb_ℤ-IsOrder ports;
}

add_ports_positive : (ports set : List ℤ) → All IsPort set → All IsPort (add_ports ports set)
unfolding add_ports
add_ports_positive [] set h = h
add_ports_positive (port ∷ ports) set h =
    add_ports_positive ports _
      (if_both (All IsPort) (is_pos port) (λ e. All-add_key IsPort set port e h) (λ e. h))

-- A set of ports to choose from: positive, and not empty.
abbrev IsChoice : List ℤ → Type 0
IsChoice ports = All IsPort ports × (is_empty ports ≡ false)

not_empty : {A : Type 0} (xs : List A) → not (is_empty xs) ≡ true → is_empty xs ≡ false
not_empty xs h = ground (arith, h)

port_set-IsChoice :
    (configured : List ℤ) (pods : List Pod) (services : List Service)
    → IsChoice (port_set configured pods services)
unfolding port_set is_empty
port_set-IsChoice configured pods services =
    let own = add_ports configured [] in
    let of_services = add_ports (for_each services (λ svc. svc.ports)) own in
    let of_pods = add_ports (for_each pods (λ pod. pod.container_ports)) of_services in
    let own_positive = add_ports_positive configured [] tt in
    let services_positive =
      add_ports_positive (for_each services (λ svc. svc.ports)) own own_positive in
    let pods_positive =
      add_ports_positive (for_each pods (λ pod. pod.container_ports)) of_services
        services_positive in
    if_both IsChoice (not (is_empty own)) (λ e. (own_positive, not_empty own e))
      (λ e.
        if_both IsChoice (not (is_empty of_services))
          (λ d. (services_positive, not_empty of_services d))
          (λ d.
            if_both IsChoice (not (is_empty of_pods)) (λ c. (pods_positive, not_empty of_pods c))
              (λ c. ((refl, tt), refl))))

-- The ports to probe where none is listed for a service: there is at least one, all are positive, and
-- they are in ascending order.
pub default_probe_ports-IsPortList :
    (configured : List ℤ) (pods : List Pod) (services : List Service)
    → IsPortList (default_probe_ports configured pods services)
      × (is_empty (default_probe_ports configured pods services) ≡ false)
unfolding default_probe_ports
default_probe_ports-IsPortList configured pods services =
    let (positive, some_port) = port_set-IsChoice configured pods services in
    (
      sort-IsPortList (port_set configured pods services) positive,
      sort_slice_not_empty ltb_ℤ (port_set configured pods services) some_port,
    )

pub service_or_default_ports_positive :
    (service : Service) (fallback : List ℤ)
    → All IsPort fallback
    → All IsPort (service_or_default_ports service fallback)
unfolding service_or_default_ports
service_or_default_ports_positive service fallback h =
    if_both (All IsPort) (is_empty service.ports) (λ e. h)
      (λ e.
        All-sort_slice ltb_ℤ IsPort (filter is_pos service.ports)
          (All-filter_test IsPort is_pos (λ p q. q) service.ports))

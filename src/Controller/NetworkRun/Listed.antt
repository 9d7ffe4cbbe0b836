-- ===== src/Controller/NetworkRun/Listed.antt =====
-- The pods, the services and the nodes that internal/controller/networkprobelab_controller.go lists.
use smtx_lab.Prelude.{
  Bool, true, not, ◌&&◌, Option, none, some, List, [], ◌∷◌, ◌++◌, map, if◌then◌else◌, ◌==◌, nat_eq,
  text_eq, filter, Text, lit, text_lt, is_empty, Dict, insert, contains, add_key, sort_slice,
}
use smtx_lab.Prelude.Results.{Result, ok, ◌>>=◌, traverse}
use smtx_lab.Controller.Checks.{Check, Pod, Service, for_each}

-- `corev1.Node`; an address is a type and a value.
pub record Node : Type 0 where
  pub name : Text
  pub addresses : List (Text × Text)

-- `Selector` stands for `LabelSelectorSpec`.
pub record NetworkProbeTargetSpec : Type 0 where
  pub namespaces : List Text
  pub node_selector : Dict Text Text

-- The answers of the API server: the lists by the selectors of the target, in one namespace or in all,
-- the nodes by a selector, one node, and whether the two selectors can be read.
pub record Listing : Type 0 where
  pub pod_selector : Result (Unit {0})
  pub service_selector : Result (Unit {0})
  pub pods : Option Text → Result (List Pod)
  pub services : Option Text → Result (List Service)
  pub nodes : Dict Text Text → Result (List Node)
  pub node : Text → Result Node

unfoldable pub allowed_node_names : Listing → Dict Text Text → Result (Option (List Text))
allowed_node_names listing [] = ok none
allowed_node_names listing (entry ∷ selector) = do
  nodes ← listing.nodes (entry ∷ selector)
  ok (some (map (λ node. node.name) nodes))

abbrev is_allowed : Option (List Text) → Text → Bool
is_allowed none name = true
is_allowed (some allowed) name = contains allowed name

abbrev pod_ref : Pod → Text
pod_ref pod = pod.namespace ++ (lit "/" ++ pod.name)

unfoldable pub is_runnable : Option (List Text) → Pod → Bool
is_runnable allowed pod =
    pod.phase == lit "Running"
    && not (is_empty pod.pod_ip)
    && not (is_empty pod.node_name)
    && is_allowed allowed pod.node_name

unfoldable pub filter_runnable_pods : List Pod → Option (List Text) → List Pod
filter_runnable_pods pods allowed =
    sort_slice (λ (a b : Pod). text_lt (pod_ref a) (pod_ref b)) (filter (is_runnable allowed) pods)

abbrev concat : {A : Type 0} → List (List A) → List A
concat lists = for_each lists (λ list. list)

unfoldable pub list_probe_pods : Listing → NetworkProbeTargetSpec → Result (List Pod)
list_probe_pods listing target = do
  selected ← listing.pod_selector
  allowed ← allowed_node_names listing target.node_selector
  if is_empty target.namespaces
      then (do pods ← listing.pods none; ok (filter_runnable_pods pods allowed))
      else (do
        lists ←
            traverse
              (λ namespace. (do
                pods ← listing.pods (some namespace)
                ok (filter_runnable_pods pods allowed)))
              target.namespaces
        ok (concat lists))

unfoldable pub list_probe_services : Listing → NetworkProbeTargetSpec → Result (List Service)
list_probe_services listing target = do
  selected ← listing.service_selector
  if is_empty target.namespaces then listing.services none else (do
    lists ← traverse (λ namespace. listing.services (some namespace)) target.namespaces
    ok (concat lists))

-- The names of the nodes of the checks.
unfoldable pub check_nodes : List Check → List Text → List Text
check_nodes [] names = names
check_nodes (check ∷ checks) names =
    let source = if is_empty check.source_node then names else add_key names check.source_node in
    check_nodes checks
      (if is_empty check.target_node then source else add_key source check.target_node)

abbrev node_less : Node → Node → Bool
node_less a b = text_lt a.name b.name

unfoldable pub list_nodes_for_checks : Listing → List Check → Result (List Node)
list_nodes_for_checks listing checks = do
  nodes ← traverse listing.node (check_nodes checks [])
  ok (sort_slice node_less nodes)

unfoldable pub list_observation_nodes : Listing → Dict Text Text → List Check → Result (List Node)
list_observation_nodes listing selector checks = do
  nodes ← listing.nodes selector
  if is_empty nodes then list_nodes_for_checks listing checks else ok (sort_slice node_less nodes)

-- The first address of the type that is not empty.
unfoldable pub address_of : Text → List (Text × Text) → Option Text
address_of type [] = none
address_of type ((other, address) ∷ addresses) =
    let rest = address_of type addresses in
    if other == type && not (is_empty address) then some address else rest

abbrev or_address : Option Text → Text → Text
or_address none other = other
or_address (some address) other = address

unfoldable pub node_address : Node → Text
node_address node = or_address (address_of (lit "InternalIP") node.addresses) (
    or_address (address_of (lit "ExternalIP") node.addresses)
      (or_address (address_of (lit "Hostname") node.addresses) []))

unfoldable pub node_ip_map : List Node → Dict Text Text → Dict Text Text
node_ip_map [] out = out
node_ip_map (node ∷ nodes) out = node_ip_map nodes (insert node.name (node_address node) out)

-- ===== src/Controller/Snapshots/Request.antt =====
-- The request that an agent serves for a spec: what `snapshotRequestFromSpec` sends, decoded onto the
-- agent's defaults.
use smtx_lab.Prelude.{◌≡◌, refl, Bool, true, false, not, ◌||◌, nat_eq, text_eq, or_true}
use smtx_lab.Agent.Collector.{default_request, decode_onto}
use smtx_lab.Api.Network.{NetworkObservabilitySpec}
use smtx_lab.Controller.Snapshots.{snapshot_request_from_spec}

-- Whatever the spec asks for, the agent that is sent its request collects the CNI, the rules of
-- iptables, IPVS and the connections; it collects the routes just where the spec asks for them or asks
-- for nothing at all.
pub served_request_collects :
    (spec : NetworkObservabilitySpec)
    → ((decode_onto default_request (snapshot_request_from_spec spec)).collect_cni ≡ true)
      × ((decode_onto default_request (snapshot_request_from_spec spec)).collect_iptables ≡ true)
      × ((decode_onto default_request (snapshot_request_from_spec spec)).collect_ipvs ≡ true)
      × ((decode_onto default_request (snapshot_request_from_spec spec)).collect_conntrack ≡ true)
      × ((decode_onto default_request (snapshot_request_from_spec spec)).collect_routes ≡ (
          spec.collect_routes
          || not (
              spec.collect_cni || spec.collect_iptables || spec.collect_ipvs
              || spec.collect_conntrack || spec.collect_routes)))
unfolding decode_onto snapshot_request_from_spec
served_request_collects spec = (or_true _, or_true _, or_true _, or_true _, or_false _)
  where
    or_false : (b : Bool) → (b || false) ≡ b
    or_false true = refl
    or_false false = refl

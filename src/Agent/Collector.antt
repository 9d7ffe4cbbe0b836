-- ===== src/Agent/Collector.antt =====
-- internal/agent/collector.go, and the request that the handler of cmd/agent/main.go makes of a body.
pub mod Errors
pub mod Defaults
use smtx_lab.Prelude.Int.{ℤ, pos, beq_ℤ}
use smtx_lab.Agent.Types.{Snapshot, SnapshotRequest, empty_snapshot}
use smtx_lab.Agent.Cni.{Host, detect_cni}
use smtx_lab.Agent.Commands.{
  Exec, collect_iptables, collect_ipvs, collect_conntrack, collect_routes,
}
use smtx_lab.Prelude.{
  zero, ◌+◌, ◌-◌, ◌*◌, ◌/◌, true, false, not, ◌||◌, Option, none, some, List, [], ◌∷◌, ◌++◌,
  if◌then◌else◌, nat_eq, text_eq, Text, lit, is_empty,
}

pub record Collector : Type 0 where
  pub node_name : Text
  pub cni_config_dirs : List Text
  pub proc_root : Text
  pub max_output_bytes : ℤ

-- `if err != nil { snapshot.Errors = append(…) }`
unfoldable pub note_error : Text → Option Text → List Text → List Text
note_error label none errors = errors
note_error label (some e) errors = errors ++ (label ++ (lit ": " ++ e)) ∷ []

-- The node: its files, what its commands print, and its clock.
pub record Node : Type 0 where
  pub host : Host
  pub exec : Exec
  pub now : ℤ

module _ (c : Collector) (node : Node) (req : SnapshotRequest) where
  unfoldable pub add_cni : Snapshot → Snapshot
  unfolding note_error
  add_cni s =
      let (cni, err) = detect_cni node.host c.cni_config_dirs in
      if req.collect_cni
      then record s { errors = note_error (lit "detect cni") err s.errors; cni = cni }
      else s

  unfoldable pub add_iptables : Snapshot → Snapshot
  unfolding note_error
  add_iptables s =
      let (iptables, err) = collect_iptables node.exec c.max_output_bytes req.chain_allowlist in
      if req.collect_iptables
      then record s {
        errors = note_error (lit "collect iptables") err s.errors;
        iptables = iptables;
      }
      else s

  unfoldable pub add_ipvs : Snapshot → Snapshot
  unfolding note_error
  add_ipvs s =
      let (ipvs, err) = collect_ipvs (node.host.read_file) c.proc_root c.max_output_bytes in
      if req.collect_ipvs
      then record s { errors = note_error (lit "collect ipvs") err s.errors; ipvs = ipvs }
      else s

  unfoldable pub add_conntrack : Snapshot → Snapshot
  unfolding note_error
  add_conntrack s =
      let (conntrack, err) = collect_conntrack node.exec c.max_output_bytes req.conntrack_filter in
      if req.collect_conntrack
      then record s {
        errors = note_error (lit "collect conntrack") err s.errors;
        conntrack = conntrack;
      }
      else s

  unfoldable pub add_routes : Snapshot → Snapshot
  unfolding note_error
  add_routes s =
      let (routes, err) = collect_routes node.exec c.max_output_bytes in
      if req.collect_routes
      then record s { errors = note_error (lit "collect routes") err s.errors; routes = routes }
      else s

  unfoldable pub collect : Snapshot
  collect =
      add_routes
        (add_conntrack (add_ipvs (add_iptables (add_cni (empty_snapshot c.node_name node.now)))))

-- The request before the body is decoded onto it.
abbrev pub default_request : SnapshotRequest
default_request = record {
  collect_cni = true;
  collect_iptables = true;
  collect_ipvs = true;
  collect_conntrack = true;
  collect_routes = false;
  chain_allowlist =
      lit "KUBE-*" ∷ lit "CALI-*" ∷ lit "CILIUM_*" ∷ lit "EVEROUTE-*" ∷ lit "FLANNEL-*" ∷ [];
  conntrack_filter = record { protocols = lit "tcp" ∷ lit "udp" ∷ []; max_entries = pos 2000 };
}

-- A field with `omitempty` is left out of the JSON where it is the zero value, and decoding leaves a
-- field that is not there as it was.
abbrev pub sent_list : List Text → List Text → List Text
sent_list old sent = if is_empty sent then old else sent

-- The request that the handler serves for the body `json.Marshal(sent)`.
unfoldable pub decode_onto : SnapshotRequest → SnapshotRequest → SnapshotRequest
unfolding is_empty
decode_onto old sent = record {
  collect_cni = sent.collect_cni || old.collect_cni;
  collect_iptables = sent.collect_iptables || old.collect_iptables;
  collect_ipvs = sent.collect_ipvs || old.collect_ipvs;
  collect_conntrack = sent.collect_conntrack || old.collect_conntrack;
  collect_routes = sent.collect_routes || old.collect_routes;
  chain_allowlist = sent_list old.chain_allowlist sent.chain_allowlist;
  conntrack_filter = record {
    protocols = sent_list old.conntrack_filter.protocols sent.conntrack_filter.protocols;
    max_entries =
        if beq_ℤ sent.conntrack_filter.max_entries (pos 0)
        then old.conntrack_filter.max_entries
        else sent.conntrack_filter.max_entries;
  };
}

-- The methods of a request, and the requests of a `POST` whose body is no JSON.
pub data Method : Type 0 where
  get : Method
  post : Option SnapshotRequest → Method
  other : Method

pub data Response : Type 0 where
  snapshot : Snapshot → Response
  bad_request : Response
  not_allowed : Response

unfoldable pub handle_snapshot : Collector → Node → Method → Response
unfolding collect decode_onto
handle_snapshot c node get = snapshot (collect c node default_request)
handle_snapshot c node (post none) = bad_request
handle_snapshot c node (post (some sent)) =
    snapshot (collect c node (decode_onto default_request sent))
handle_snapshot c node other = not_allowed

-- ===== src/Agent/Collector/Errors.antt =====
-- The parts of the snapshot that `Collect` of internal/agent/collector.go makes.
use smtx_lab.Agent.Types.{Snapshot, SnapshotRequest, empty_snapshot, no_cni, no_command, no_ipvs}
use smtx_lab.Agent.Cni.{detect_cni}
use smtx_lab.Agent.Commands.{collect_iptables, collect_ipvs, collect_conntrack, collect_routes}
use smtx_lab.Agent.Collector.{
  Collector, Node, collect, add_cni, add_iptables, add_ipvs, add_conntrack, add_routes,
}
use smtx_lab.Prelude.{
  ◌≡◌, refl, ap, ◌∙◌, Bool, true, false, List, if◌then◌else◌, nat_eq, text_eq, Text,
}

module _ (c : Collector) (node : Node) (req : SnapshotRequest) where
  add_cni_parts :
      (s : Snapshot)
      → let t = add_cni c node req s in
        (t.cni ≡ (if req.collect_cni then (detect_cni node.host c.cni_config_dirs).0 else s.cni))
        × (t.iptables ≡ s.iptables)
        × (t.ipvs ≡ s.ipvs)
        × (t.conntrack ≡ s.conntrack)
        × (t.routes ≡ s.routes)
  unfolding add_cni
  add_cni_parts s = by_test req.collect_cni _
    where
      by_test :
          (b : Bool) (e : List Text)
          → let t =
              if b
              then record s { errors = e; cni = (detect_cni node.host c.cni_config_dirs).0 }
              else s in
            (t.cni ≡ (if b then (detect_cni node.host c.cni_config_dirs).0 else s.cni))
            × (t.iptables ≡ s.iptables)
            × (t.ipvs ≡ s.ipvs)
            × (t.conntrack ≡ s.conntrack)
            × (t.routes ≡ s.routes)
      by_test true e = (refl, refl, refl, refl, refl)
      by_test false e = (refl, refl, refl, refl, refl)

  add_iptables_parts :
      (s : Snapshot)
      → let t = add_iptables c node req s in
        (t.cni ≡ s.cni)
        × (t.iptables ≡ (
            if req.collect_iptables
            then (collect_iptables node.exec c.max_output_bytes req.chain_allowlist).0
            else s.iptables))
        × (t.ipvs ≡ s.ipvs)
        × (t.conntrack ≡ s.conntrack)
        × (t.routes ≡ s.routes)
  unfolding add_iptables
  add_iptables_parts s = by_test req.collect_iptables _
    where
      by_test :
          (b : Bool) (e : List Text)
          → let t =
              if b
              then record s {
                errors = e;
                iptables = (collect_iptables node.exec c.max_output_bytes req.chain_allowlist).0;
              }
              else s in
            (t.cni ≡ s.cni)
            × (t.iptables ≡ (
                if b
                then (collect_iptables node.exec c.max_output_bytes req.chain_allowlist).0
                else s.iptables))
            × (t.ipvs ≡ s.ipvs)
            × (t.conntrack ≡ s.conntrack)
            × (t.routes ≡ s.routes)
      by_test true e = (refl, refl, refl, refl, refl)
      by_test false e = (refl, refl, refl, refl, refl)

  add_ipvs_parts :
      (s : Snapshot)
      → let t = add_ipvs c node req s in
        (t.cni ≡ s.cni)
        × (t.iptables ≡ s.iptables)
        × (t.ipvs ≡ (
            if req.collect_ipvs
            then (collect_ipvs node.host.read_file c.proc_root c.max_output_bytes).0
            else s.ipvs))
        × (t.conntrack ≡ s.conntrack)
        × (t.routes ≡ s.routes)
  unfolding add_ipvs
  add_ipvs_parts s = by_test req.collect_ipvs _
    where
      by_test :
          (b : Bool) (e : List Text)
          → let t =
              if b
              then record s {
                errors = e;
                ipvs = (collect_ipvs node.host.read_file c.proc_root c.max_output_bytes).0;
              }
              else s in
            (t.cni ≡ s.cni)
            × (t.iptables ≡ s.iptables)
            × (t.ipvs ≡ (
                if b
                then (collect_ipvs node.host.read_file c.proc_root c.max_output_bytes).0
                else s.ipvs))
            × (t.conntrack ≡ s.conntrack)
            × (t.routes ≡ s.routes)
      by_test true e = (refl, refl, refl, refl, refl)
      by_test false e = (refl, refl, refl, refl, refl)

  add_conntrack_parts :
      (s : Snapshot)
      → let t = add_conntrack c node req s in
        (t.cni ≡ s.cni)
        × (t.iptables ≡ s.iptables)
        × (t.ipvs ≡ s.ipvs)
        × (t.conntrack ≡ (
            if req.collect_conntrack
            then (collect_conntrack node.exec c.max_output_bytes req.conntrack_filter).0
            else s.conntrack))
        × (t.routes ≡ s.routes)
  unfolding add_conntrack
  add_conntrack_parts s = by_test req.collect_conntrack _
    where
      by_test :
          (b : Bool) (e : List Text)
          → let t =
              if b
              then record s {
                errors = e;
                conntrack = (collect_conntrack node.exec c.max_output_bytes req.conntrack_filter).0;
              }
              else s in
            (t.cni ≡ s.cni)
            × (t.iptables ≡ s.iptables)
            × (t.ipvs ≡ s.ipvs)
            × (t.conntrack ≡ (
                if b
                then (collect_conntrack node.exec c.max_output_bytes req.conntrack_filter).0
                else s.conntrack))
            × (t.routes ≡ s.routes)
      by_test true e = (refl, refl, refl, refl, refl)
      by_test false e = (refl, refl, refl, refl, refl)

  add_routes_parts :
      (s : Snapshot)
      → let t = add_routes c node req s in
        (t.cni ≡ s.cni)
        × (t.iptables ≡ s.iptables)
        × (t.ipvs ≡ s.ipvs)
        × (t.conntrack ≡ s.conntrack)
        × (t.routes ≡ (
            if req.collect_routes
            then (collect_routes node.exec c.max_output_bytes).0
            else s.routes))
  unfolding add_routes
  add_routes_parts s = by_test req.collect_routes _
    where
      by_test :
          (b : Bool) (e : List Text)
          → let t =
              if b
              then record s { errors = e; routes = (collect_routes node.exec c.max_output_bytes).0 }
              else s in
            (t.cni ≡ s.cni)
            × (t.iptables ≡ s.iptables)
            × (t.ipvs ≡ s.ipvs)
            × (t.conntrack ≡ s.conntrack)
            × (t.routes ≡ (if b then (collect_routes node.exec c.max_output_bytes).0 else s.routes))
      by_test true e = (refl, refl, refl, refl, refl)
      by_test false e = (refl, refl, refl, refl, refl)

  -- Each part of a snapshot is what its collector returns, or the zero value where the request does
  -- not ask for it, whether or not the other collectors fail.
  pub collect_parts :
      let s = collect c node req in
      (s.cni ≡ (if req.collect_cni then (detect_cni node.host c.cni_config_dirs).0 else no_cni))
      × (s.iptables ≡ (
          if req.collect_iptables
          then (collect_iptables node.exec c.max_output_bytes req.chain_allowlist).0
          else no_command))
      × (s.ipvs ≡ (
          if req.collect_ipvs
          then (collect_ipvs node.host.read_file c.proc_root c.max_output_bytes).0
          else no_ipvs))
      × (s.conntrack ≡ (
          if req.collect_conntrack
          then (collect_conntrack node.exec c.max_output_bytes req.conntrack_filter).0
          else no_command))
      × (s.routes ≡ (
          if req.collect_routes
          then (collect_routes node.exec c.max_output_bytes).0
          else no_command))
  unfolding collect
  collect_parts =
      let s0 = empty_snapshot c.node_name node.now in
      let s1 = add_cni c node req s0 in
      let s2 = add_iptables c node req s1 in
      let s3 = add_ipvs c node req s2 in
      let s4 = add_conntrack c node req s3 in
      let h1 = add_cni_parts s0 in
      let h2 = add_iptables_parts s1 in
      let h3 = add_ipvs_parts s2 in
      let h4 = add_conntrack_parts s3 in
      let h5 = add_routes_parts s4 in
      (
        h5.0 ∙ (h4.0 ∙ (h3.0 ∙ (h2.0 ∙ h1.0))),
        h5.1
            ∙ (h4.1
                ∙ (h3.1
                    ∙ (h2.1
                        ∙ ap
                            (λ v.
                              if req.collect_iptables
                              then (collect_iptables node.exec c.max_output_bytes
                                  req.chain_allowlist).0
                              else v)
                            (h1.1)))),
        h5.2
            ∙ (h4.2
                ∙ (h3.2
                    ∙ ap
                        (λ v.
                          if req.collect_ipvs
                          then (collect_ipvs node.host.read_file c.proc_root c.max_output_bytes).0
                          else v)
                        (h2.2 ∙ h1.2))),
        h5.3
            ∙ (h4.3
                ∙ ap
                    (λ v.
                      if req.collect_conntrack
                      then (collect_conntrack node.exec c.max_output_bytes req.conntrack_filter).0
                      else v)
                    (h3.3 ∙ (h2.3 ∙ h1.3))),
        h5.4
            ∙ ap
                (λ v.
                  if req.collect_routes then (collect_routes node.exec c.max_output_bytes).0 else v)
                (h4.4 ∙ (h3.4 ∙ (h2.4 ∙ h1.4))),
      )

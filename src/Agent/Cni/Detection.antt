-- ===== src/Agent/Cni/Detection.antt =====
-- The type and the mode that `DetectCNI` of internal/agent/cni.go reports.
use smtx_lab.Prelude.{
  ◌∙◌, ◌≢◌, arith, if◌then◌else◌, ◌≡◌, refl, ◌⊎◌, inl, inr, false, not, ◌||◌, List, [], ◌∷◌, ◌++◌,
  ◌==◌, nat_eq, text_eq, if_both, Option-cases, Text, lit, text_beq,
}
use smtx_lab.Strings.{contains_sub, has_prefix, to_lower}
use smtx_lab.Agent.Types.{no_cni, CniSnapshot, CalicoSnapshot}
use smtx_lab.Agent.Cni.{
  detect_cni, settle, detect_interfaces, DirEntry, FileRead, contents, failed, Host, set_cni,
  add_calico_config_hints, inspect_cni_content, inspect_interface, inspect_interfaces, inspect_file,
  inspect_entries, inspect_dirs, is_config, join_path,
}

-- The table of types and modes.
abbrev pub IsPlugin : Text → Text → Type 0
IsPlugin t m =
    ((t ≡ lit "calico") × (m ≡ lit "iptables"))
    ⊎ ((t ≡ lit "cilium") × (m ≡ lit "ebpf"))
    ⊎ ((t ≡ lit "everoute") × (m ≡ lit "openvswitch"))
    ⊎ ((t ≡ lit "flannel") × (m ≡ lit "vxlan"))

-- `t` has the type and the mode of `s`.
record SameType (s t : CniSnapshot) : Type 0 where
  type : t.type ≡ s.type
  mode : t.mode ≡ s.mode

-- While the node is inspected: nothing found, or a plugin of the table; the overlay is not set.
pub record IsDetected (s : CniSnapshot) : Type 0 where
  pub shape : ((s.type ≡ []) × (s.mode ≡ [])) ⊎ IsPlugin s.type s.mode
  pub overlay : s.overlay_mode ≡ []

IsPlugin-found : (t m : Text) → IsPlugin t m → (t == [] || t == lit "unknown") ≡ false
unfolding lit text_beq
IsPlugin-found t m (inl p) = rw p.0 refl
IsPlugin-found t m (inr (inl p)) = rw p.0 refl
IsPlugin-found t m (inr (inr (inl p))) = rw p.0 refl
IsPlugin-found t m (inr (inr (inr p))) = rw p.0 refl

set_cni-IsDetected :
    (s : CniSnapshot) (t m : Text) → IsPlugin t m → IsDetected s → IsDetected (set_cni s t m)
unfolding set_cni
set_cni-IsDetected s t m p h =
    if_both IsDetected (s.type == [] || s.type == lit "unknown")
      (λ _. record { shape = inr p; overlay = h.overlay })
      (λ _. record { shape = h.shape; overlay = h.overlay })

module _ (s : CniSnapshot) (h : IsDetected s) where
  calico-IsDetected : IsDetected (set_cni s (lit "calico") (lit "iptables"))
  calico-IsDetected = set_cni-IsDetected s (lit "calico") (lit "iptables") (inl (refl, refl)) h

  cilium-IsDetected : IsDetected (set_cni s (lit "cilium") (lit "ebpf"))
  cilium-IsDetected = set_cni-IsDetected s (lit "cilium") (lit "ebpf") (inr (inl (refl, refl))) h

  everoute-IsDetected : IsDetected (set_cni s (lit "everoute") (lit "openvswitch"))
  everoute-IsDetected =
      set_cni-IsDetected s (lit "everoute") (lit "openvswitch") (inr (inr (inl (refl, refl)))) h

  flannel-IsDetected : IsDetected (set_cni s (lit "flannel") (lit "vxlan"))
  flannel-IsDetected =
      set_cni-IsDetected s (lit "flannel") (lit "vxlan") (inr (inr (inr (refl, refl)))) h

  calico_with :
      (c : CalicoSnapshot)
      → IsDetected (record (set_cni s (lit "calico") (lit "iptables")) { calico = c })
  calico_with c = record { shape = calico-IsDetected.shape; overlay = calico-IsDetected.overlay }

  inspect_cni_content-IsDetected : (b : Text) → IsDetected (inspect_cni_content s b)
  unfolding inspect_cni_content add_calico_config_hints
  inspect_cni_content-IsDetected b =
      if_both IsDetected (contains_sub b (lit "calico")) (λ _. calico_with _)
        λ _.
          if_both IsDetected (contains_sub b (lit "cilium")) (λ _. cilium-IsDetected)
            λ _.
              if_both IsDetected (contains_sub b (lit "everoute")) (λ _. everoute-IsDetected)
                λ _.
                  if_both IsDetected (contains_sub b (lit "flannel")) (λ _. flannel-IsDetected)
                    λ _. h

  inspect_interface-IsDetected : (iface : Text) → IsDetected (inspect_interface s iface)
  unfolding inspect_interface
  inspect_interface-IsDetected iface =
      if_both IsDetected (has_prefix iface (lit "cali")) (λ _. calico_with _)
        λ _.
          if_both IsDetected (iface == lit "tunl0") (λ _. calico_with _)
            λ _.
              if_both IsDetected (iface == lit "vxlan.calico") (λ _. calico_with _)
                λ _.
                  if_both IsDetected (iface == lit "wireguard.cali") (λ _. calico_with _)
                    λ _.
                      if_both IsDetected (iface == lit "cilium_host" || iface == lit "cilium_net")
                        (λ _. cilium-IsDetected)
                        λ _.
                          if_both IsDetected (has_prefix iface (lit "flannel"))
                            (λ _. flannel-IsDetected)
                            λ _.
                              if_both IsDetected (has_prefix iface (lit "everoute"))
                                (λ _. everoute-IsDetected) λ _. h

inspect_interfaces-IsDetected :
    (s : CniSnapshot) (ifaces : List Text) → IsDetected s → IsDetected (inspect_interfaces s ifaces)
unfolding inspect_interfaces
inspect_interfaces-IsDetected s [] h = h
inspect_interfaces-IsDetected s (i ∷ is) h =
    inspect_interfaces-IsDetected (inspect_interface s i) is (inspect_interface-IsDetected s h i)

inspect_file-IsDetected :
    (s : CniSnapshot) (name : Text) (r : FileRead)
    → IsDetected s
    → IsDetected (inspect_file s name r)
unfolding inspect_file
inspect_file-IsDetected s name (failed e m) h = record { shape = h.shape; overlay = h.overlay }
inspect_file-IsDetected s name (contents b) h =
    inspect_cni_content-IsDetected (record s { config_files = s.config_files ++ name ∷ [] })
      (record { shape = h.shape; overlay = h.overlay }) (to_lower b)

inspect_entries-IsDetected :
    (host : Host) (dir : Text) (entries : List DirEntry) (s : CniSnapshot)
    → IsDetected s
    → IsDetected (inspect_entries host dir entries s)
unfolding inspect_entries
inspect_entries-IsDetected host dir [] s h = h
inspect_entries-IsDetected host dir (e ∷ es) s h =
    let name = join_path dir e.name in
    inspect_entries-IsDetected host dir es _ (
      if_both IsDetected e.is_dir (λ _. h)
        λ _.
          if_both IsDetected (not (is_config name)) (λ _. h)
            λ _. inspect_file-IsDetected s name (host.read_file name) h)

inspect_dirs-IsDetected :
    (host : Host) (dirs : List Text) (s : CniSnapshot)
    → IsDetected s
    → IsDetected (inspect_dirs host dirs s)
unfolding inspect_dirs
inspect_dirs-IsDetected host [] s h = h
inspect_dirs-IsDetected host (d ∷ ds) s h = elim (Option-cases (host.read_dir d)) [
  | inl e ↦ rw e (inspect_dirs-IsDetected host ds s h)
  | inr (es, e) ↦ rw e (
      inspect_dirs-IsDetected host ds (inspect_entries host d es s)
        (inspect_entries-IsDetected host d es s h))
]

IsPlugin-nonempty : (t m : Text) → IsPlugin t m → (t == []) ≡ false
IsPlugin-nonempty t m p = ground (arith, IsPlugin-found t m p)

module _ (s : CniSnapshot) where
  settle-type : (settle s).type ≡ (if s.type == [] then lit "unknown" else s.type)
  unfolding settle
  settle-type = ground arith

  settle-mode : (settle s).mode ≡ s.mode
  unfolding settle
  settle-mode = ground arith

no_cni-IsDetected : IsDetected no_cni
no_cni-IsDetected = record { shape = inl (refl, refl); overlay = refl }

module _ (host : Host) (config_dirs : List Text) where
  -- what the files and the interfaces show, before `settle`
  pub from_files : CniSnapshot
  from_files = inspect_dirs host config_dirs no_cni

  pub inspected : CniSnapshot
  unfolding from_files
  inspected =
      inspect_interfaces (record from_files { interfaces = detect_interfaces host })
        (detect_interfaces host)

  from_files-IsDetected : IsDetected from_files
  unfolding from_files
  from_files-IsDetected = inspect_dirs-IsDetected host config_dirs no_cni no_cni-IsDetected

  pub inspected-IsDetected : IsDetected inspected
  unfolding inspected
  inspected-IsDetected =
      inspect_interfaces-IsDetected _ (detect_interfaces host)
        (record { shape = from_files-IsDetected.shape; overlay = from_files-IsDetected.overlay })

  pub detect_cni-eq-settle : (detect_cni host config_dirs).0 ≡ settle inspected
  unfolding detect_cni inspected
  detect_cni-eq-settle = refl

  -- Whatever files and interfaces the node has, the reported type and mode are a pair of the table, or
  -- the type is "unknown" and the mode is empty.
  pub detect_cni-IsPlugin :
      let r = (detect_cni host config_dirs).0 in
      IsPlugin r.type r.mode ⊎ ((r.type ≡ lit "unknown") × (r.mode ≡ []))
  detect_cni-IsPlugin =
      rw (detect_cni-eq-settle, settle-type inspected, settle-mode inspected)
        (by_shape inspected-IsDetected.shape)
    where
      by_shape :
          ((inspected.type ≡ []) × (inspected.mode ≡ [])) ⊎ IsPlugin inspected.type inspected.mode
          → let t = if inspected.type == [] then lit "unknown" else inspected.type in
            IsPlugin t inspected.mode ⊎ ((t ≡ lit "unknown") × (inspected.mode ≡ []))
      by_shape (inl (t, m)) = inr (rw t (unfold text_beq in refl), m)
      by_shape (inr p) = inl (rw (IsPlugin-nonempty inspected.type inspected.mode p) p)

-- Once a plugin is found, nothing that is seen later changes the type or the mode.
module _ (s : CniSnapshot) (known : (s.type == [] || s.type == lit "unknown") ≡ false) where
  set_cni-SameType : (t m : Text) → SameType s (set_cni s t m)
  unfolding set_cni
  set_cni-SameType t m = rw known (record { type = refl; mode = refl })

  calico_same :
      (c : CalicoSnapshot)
      → SameType s (record (set_cni s (lit "calico") (lit "iptables")) { calico = c })
  calico_same c =
      let h = set_cni-SameType (lit "calico") (lit "iptables") in
      record { type = h.type; mode = h.mode }

  inspect_interface-SameType : (iface : Text) → SameType s (inspect_interface s iface)
  unfolding inspect_interface
  inspect_interface-SameType iface =
      if_both (SameType s) (has_prefix iface (lit "cali")) (λ _. calico_same _)
        λ _.
          if_both (SameType s) (iface == lit "tunl0") (λ _. calico_same _)
            λ _.
              if_both (SameType s) (iface == lit "vxlan.calico") (λ _. calico_same _)
                λ _.
                  if_both (SameType s) (iface == lit "wireguard.cali") (λ _. calico_same _)
                    λ _.
                      if_both (SameType s) (iface == lit "cilium_host" || iface == lit "cilium_net")
                        (λ _. set_cni-SameType (lit "cilium") (lit "ebpf"))
                        λ _.
                          if_both (SameType s) (has_prefix iface (lit "flannel"))
                            (λ _. set_cni-SameType (lit "flannel") (lit "vxlan"))
                            λ _.
                              if_both (SameType s) (has_prefix iface (lit "everoute"))
                                (λ _. set_cni-SameType (lit "everoute") (lit "openvswitch"))
                                λ _. record { type = refl; mode = refl }

inspect_interfaces-SameType :
    (s : CniSnapshot) (ifaces : List Text)
    → (s.type == [] || s.type == lit "unknown") ≡ false
    → SameType s (inspect_interfaces s ifaces)
unfolding inspect_interfaces
inspect_interfaces-SameType s [] known = record { type = refl; mode = refl }
inspect_interfaces-SameType s (i ∷ is) known =
    let one = inspect_interface-SameType s known i in
    let rest = inspect_interfaces-SameType (inspect_interface s i) is (rw one.type known) in
    record { type = rest.type ∙ one.type; mode = rest.mode ∙ one.mode }

module _ (host : Host) (config_dirs : List Text) where
  open inspect_dirs host config_dirs no_cni use {type, mode}

  inspected-SameType :
      IsPlugin type mode
      → SameType (inspect_dirs host config_dirs no_cni) (inspected host config_dirs)
  unfolding inspected
  inspected-SameType p =
      let found = inspect_dirs host config_dirs no_cni in
      let h =
        inspect_interfaces-SameType (record found { interfaces = detect_interfaces host })
          (detect_interfaces host) (IsPlugin-found type mode p) in
      record { type = h.type; mode = h.mode }

  files_kept :
      IsPlugin type mode
      → ((detect_cni host config_dirs).0.type ≡ type)
        × ((detect_cni host config_dirs).0.mode ≡ mode)
  files_kept p =
      let h = inspected-SameType p in
      let s = inspected host config_dirs in
      rw
        (
          detect_cni-eq-settle host config_dirs,
          settle-type s,
          settle-mode s,
          h.type,
          h.mode,
          IsPlugin-nonempty type mode p,
        )
        (refl, refl)

  -- The files of the configuration directories come first: where they name a plugin, its type and
  -- mode are the ones reported, whatever interfaces the node has.
  pub detect_cni_files_first :
      type ≢ []
      → ((detect_cni host config_dirs).0.type ≡ type)
        × ((detect_cni host config_dirs).0.mode ≡ mode)
  detect_cni_files_first ne =
      by_shape (inspect_dirs-IsDetected host config_dirs no_cni no_cni-IsDetected).shape
    where
      by_shape :
          ((type ≡ []) × (mode ≡ [])) ⊎ IsPlugin type mode
          → ((detect_cni host config_dirs).0.type ≡ type)
            × ((detect_cni host config_dirs).0.mode ≡ mode)
      by_shape (inl e) = absurd (ne e.0)
      by_shape (inr p) = files_kept p

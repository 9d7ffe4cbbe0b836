-- ===== src/Agent/Cni.antt =====
-- internal/agent/cni.go: which network plugin a node runs. The file system is an argument.
pub mod Detection
pub mod Overlay
use smtx_lab.Prelude.{
  ◌+◌, ◌-◌, ◌/◌, Bool, not, ◌&&◌, ◌||◌, Option, none, some, List, [], ◌∷◌, ◌++◌, map, if◌then◌else◌,
  ◌==◌, nat_eq, text_eq, Text, lit, text_lt, is_empty, contains, sort_slice,
}
use smtx_lab.Strings.{to_lower, has_prefix, has_suffix, contains_sub, join}
use smtx_lab.Agent.Types.{CniSnapshot, CalicoSnapshot, no_cni}

pub record DirEntry : Type 0 where
  pub name : Text
  pub is_dir : Bool

-- What `os.ReadFile` returns: the content, or an error with its text and whether it is
-- `os.ErrNotExist`.
pub data FileRead : Type 0 where
  contents : Text → FileRead
  failed : Text → Bool → FileRead

-- The file system of the node: `none` where `os.ReadDir` fails.
pub record Host : Type 0 where
  pub read_dir : Text → Option (List DirEntry)
  pub read_file : Text → FileRead

unfoldable pub set_cni : CniSnapshot → Text → Text → CniSnapshot
set_cni s cni_type mode =
    let log = s.detection_log ++ (lit "matched " ++ cni_type) ∷ [] in
    if s.type == [] || s.type == lit "unknown"
    then record s { type = cni_type; mode = mode; detection_log = log }
    else record s { detection_log = log }

unfoldable pub add_hints : List Text → Text → List Text → List Text
unfolding contains
add_hints [] content hints = hints
add_hints (hint ∷ rest) content hints =
    add_hints rest content
      (if contains_sub content hint && not (contains hints hint) then hints ++ hint ∷ [] else hints)

abbrev pub calico_hints : List Text
calico_hints = lit "ipip" ∷ lit "vxlan" ∷ lit "bgp" ∷ lit "crosssubnet" ∷ lit "wireguard" ∷ []

unfoldable pub add_calico_config_hints : CniSnapshot → Text → CniSnapshot
unfolding add_hints
add_calico_config_hints s content = record s {
  calico = record (s.calico) {
    config_hints = add_hints calico_hints content s.calico.config_hints;
  };
}

unfoldable pub inspect_cni_content : CniSnapshot → Text → CniSnapshot
unfolding set_cni add_calico_config_hints
inspect_cni_content s content =
    if contains_sub content (lit "calico")
    then add_calico_config_hints (set_cni s (lit "calico") (lit "iptables")) content
    else if contains_sub content (lit "cilium")
    then set_cni s (lit "cilium") (lit "ebpf")
    else if contains_sub content (lit "everoute")
    then set_cni s (lit "everoute") (lit "openvswitch")
    else if contains_sub content (lit "flannel")
    then set_cni s (lit "flannel") (lit "vxlan")
    else s

-- the body of the loop over the interfaces
unfoldable pub inspect_interface : CniSnapshot → Text → CniSnapshot
unfolding set_cni
inspect_interface s iface =
    let calico = set_cni s (lit "calico") (lit "iptables") in
    if has_prefix iface (lit "cali")
    then record calico {
      calico = record (calico.calico) {
        workload_interfaces = calico.calico.workload_interfaces ++ iface ∷ [];
      };
    }
    else if iface == lit "tunl0"
    then record calico { calico = record (calico.calico) { ipip_interface = iface } }
    else if iface == lit "vxlan.calico"
    then record calico { calico = record (calico.calico) { vxlan_interface = iface } }
    else if iface == lit "wireguard.cali"
    then record calico { calico = record (calico.calico) { wire_guard_interface = iface } }
    else if iface == lit "cilium_host" || iface == lit "cilium_net"
    then set_cni s (lit "cilium") (lit "ebpf")
    else if has_prefix iface (lit "flannel")
    then set_cni s (lit "flannel") (lit "vxlan")
    else if has_prefix iface (lit "everoute")
    then set_cni s (lit "everoute") (lit "openvswitch")
    else s

unfoldable pub inspect_interfaces : CniSnapshot → List Text → CniSnapshot
inspect_interfaces s [] = s
inspect_interfaces s (iface ∷ rest) = inspect_interfaces (inspect_interface s iface) rest

unfoldable pub add_mode : Bool → Text → List Text → List Text
add_mode evidence name modes = if evidence then modes ++ name ∷ [] else modes

-- `modes`, before the default
unfoldable pub overlay_modes : CalicoSnapshot → List Text
unfolding contains
overlay_modes c =
    let ipip = not (c.ipip_interface == []) || contains c.config_hints (lit "ipip") in
    let vxlan = not (c.vxlan_interface == []) || contains c.config_hints (lit "vxlan") in
    let wireguard =
      not (c.wire_guard_interface == []) || contains c.config_hints (lit "wireguard") in
    add_mode wireguard (lit "wireguard")
      (add_mode vxlan (lit "vxlan") (add_mode ipip (lit "ipip") []))

unfoldable pub finalize_calico_overlay : CniSnapshot → CniSnapshot
unfolding overlay_modes is_empty
finalize_calico_overlay s =
    let modes = overlay_modes s.calico in
    let overlay = join (if is_empty modes then lit "none-or-bgp" ∷ [] else modes) (lit "+") in
    if not (s.type == lit "calico")
    then s
    else record s { calico = record (s.calico) { overlay_mode = overlay }; overlay_mode = overlay }

unfoldable pub detect_interfaces : Host → List Text
detect_interfaces host = elim (host.read_dir (lit "/sys/class/net")) [
  | none ↦ []
  | some entries ↦ map (λ e. e.name) entries
]

abbrev is_config : Text → Bool
is_config name =
    has_suffix name (lit ".conf")
    || has_suffix name (lit ".conflist")
    || has_suffix name (lit ".json")

unfoldable pub inspect_file : CniSnapshot → Text → FileRead → CniSnapshot
unfolding inspect_cni_content
inspect_file s name (failed err missing) = record s {
  detection_log = s.detection_log ++ (lit "read " ++ (name ++ (lit ": " ++ err))) ∷ [];
}
inspect_file s name (contents b) =
    inspect_cni_content (record s { config_files = s.config_files ++ name ∷ [] }) (to_lower b)

-- `filepath.Join` of a clean directory and a plain name
abbrev pub join_path : Text → Text → Text
join_path dir name = dir ++ (lit "/" ++ name)

-- the loop over the entries of one directory
unfoldable pub inspect_entries : Host → Text → List DirEntry → CniSnapshot → CniSnapshot
inspect_entries host dir [] s = s
inspect_entries host dir (entry ∷ rest) s =
    let name = join_path dir entry.name in
    inspect_entries host dir rest (
      if entry.is_dir
      then s
      else if not (is_config name)
      then s
      else inspect_file s name (host.read_file name))

unfoldable pub inspect_dirs : Host → List Text → CniSnapshot → CniSnapshot
inspect_dirs host [] s = s
inspect_dirs host (dir ∷ rest) s =
    inspect_dirs host rest
      (elim (host.read_dir dir) [ none ↦ s | some entries ↦ inspect_entries host dir entries s ])

-- what follows the two inspections: the default type, the sorts and the overlay
unfoldable pub settle : CniSnapshot → CniSnapshot
unfolding finalize_calico_overlay
settle s = finalize_calico_overlay (record s {
  type = if s.type == [] then lit "unknown" else s.type;
  config_files = sort_slice text_lt s.config_files;
  interfaces = sort_slice text_lt s.interfaces;
  calico = record (s.calico) {
    workload_interfaces = sort_slice text_lt s.calico.workload_interfaces;
    config_hints = sort_slice text_lt s.calico.config_hints;
  };
})

-- The error of `DetectCNI` is always nil.
unfoldable pub detect_cni : Host → List Text → CniSnapshot × Option Text
unfolding inspect_interfaces inspect_dirs settle detect_interfaces
detect_cni host config_dirs =
    let found = inspect_dirs host config_dirs no_cni in
    let interfaces = detect_interfaces host in
    (settle (inspect_interfaces (record found { interfaces = interfaces }) interfaces), none)

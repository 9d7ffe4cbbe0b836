-- ===== src/Examples/Agent.antt =====
-- The theorems on the node agent at a concrete node and concrete requests.
use mathlib.Core.List.{Memᴰ}
use smtx_lab.Strings.{
  trim_prefix, is_space, split_words, fields, to_lower, has_prefix, contains_sub, equal_fold,
  has_suffix,
}
use smtx_lab.Agent.Commands.{
  chain_of_fields, chain_allowed, drop_cr, scan_lines, bounded_data, collect_command, run, Exec,
  collect_iptables, collect_ipvs, collect_conntrack, collect_routes, bounded_lines,
  filter_iptables_lines, filter_conntrack_lines, iptables_chain, max_entries_of, protocol_matches,
}
use smtx_lab.Prelude.{
  ◌≤◌, ◌<◌, ◌≡◌, refl, ◌≢◌, ◌↔◌, ◌⊎◌, true, false, none, some, List, [], ◌∷◌, ◌++◌, map, nat_eq,
  text_eq, length, take, filter, any, All, Text, lit, text_beq, is_empty, sort_slice,
}
use smtx_lab.Prelude.Int.{pos, pos_part}
use smtx_lab.Agent.Types.{SnapshotRequest, ConntrackFilter, no_cni}
use smtx_lab.Agent.Cni.{
  FileRead, Host, detect_cni, inspect_dirs, inspect_entries, inspect_file, inspect_cni_content,
  set_cni, add_calico_config_hints, add_hints,
}
use smtx_lab.Agent.Cni.Detection.{IsPlugin, detect_cni-IsPlugin, detect_cni_files_first}
use smtx_lab.Agent.Cni.Overlay.{detect_cni_overlay}
use smtx_lab.Agent.Commands.Filters.{
  IsAllowed, filter_conntrack_lines-eq-take, filter_iptables_lines_iff,
}
use smtx_lab.Agent.Commands.Bounds.{bounded_lines_fits, total_length, IsNotBreak}
use smtx_lab.Agent.Collector.{
  add_routes, add_conntrack, add_ipvs, add_iptables, add_cni, Collector, Node, collect,
  default_request, decode_onto,
}
use smtx_lab.Agent.Collector.Errors.{collect_parts}
use smtx_lab.Agent.Collector.Defaults.{default_allowlist_drops_calico}
use smtx_lab.Agent.Glob.{path_match}

-- A node with one file of Calico's, two rules and one connection.
abbrev calico_host : Host
calico_host = record {
  read_dir = λ dir. some ((record { name = lit "10-calico.conflist"; is_dir = false }) ∷ []);
  read_file = λ path. FileRead.contents (lit "{ calico, vxlan }");
}

abbrev config_dirs : List Text
config_dirs = lit "/etc/cni/net.d" ∷ []

abbrev rules : List Text
rules = lit "*filter" ∷ lit "-A KUBE-SERVICES -j KUBE-SVC-A" ∷ lit "-A cali-FORWARD -j ACCEPT" ∷ []

abbrev node_exec : Exec
node_exec = λ command. record {
  output = lit "-A KUBE-SERVICES -j KUBE-SVC-A" ++ (10 ∷ lit "-A cali-FORWARD -j ACCEPT");
  err = none;
  stderr = [];
  ctx_err = none;
}

abbrev collector : Collector
collector = record {
  node_name = lit "node-a";
  cni_config_dirs = config_dirs;
  proc_root = lit "/proc";
  max_output_bytes = pos 4096;
}

abbrev node_a : Node
node_a = record { host = calico_host; exec = node_exec; now = pos 1700000000 }

-- What a controller sends that asks for nothing in particular.
abbrev sent_request : SnapshotRequest
sent_request = record {
  collect_cni = true;
  collect_iptables = true;
  collect_ipvs = true;
  collect_conntrack = true;
  collect_routes = true;
  chain_allowlist = [];
  conntrack_filter = record { protocols = []; max_entries = pos 0 };
}

abbrev tcp_filter : ConntrackFilter
tcp_filter = record { protocols = lit "tcp" ∷ []; max_entries = pos 1 }

abbrev connections : List Text
connections = lit "tcp 6 ESTABLISHED" ∷ lit "udp 17 30" ∷ lit "tcp 6 TIME_WAIT" ∷ []

-- The file names Calico.
found_calico : (inspect_dirs calico_host config_dirs no_cni).type ≢ []
unfolding inspect_dirs lit inspect_entries inspect_file inspect_cni_content set_cni contains_sub
    has_prefix to_lower equal_fold has_suffix text_beq sort_slice add_calico_config_hints add_hints
    is_empty
found_calico = λ e. cc

detect_cni-IsPlugin_example :
    let r = (detect_cni calico_host config_dirs).0 in
    IsPlugin r.type r.mode ⊎ ((r.type ≡ lit "unknown") × (r.mode ≡ []))
detect_cni-IsPlugin_example = detect_cni-IsPlugin calico_host config_dirs

detect_cni_files_first_example :
    ((detect_cni calico_host config_dirs).0.type
      ≡ (inspect_dirs calico_host config_dirs no_cni).type)
    × ((detect_cni calico_host config_dirs).0.mode
        ≡ (inspect_dirs calico_host config_dirs no_cni).mode)
detect_cni_files_first_example = detect_cni_files_first calico_host config_dirs found_calico

detect_cni_overlay_example :
    let r = (detect_cni calico_host config_dirs).0 in
    ((r.type ≡ lit "calico") × (r.overlay_mode ≡ r.calico.overlay_mode) × (r.overlay_mode ≢ []))
    ⊎ ((r.type ≢ lit "calico") × (r.overlay_mode ≡ []))
detect_cni_overlay_example = detect_cni_overlay calico_host config_dirs

filter_conntrack_lines-eq-take_example :
    filter_conntrack_lines connections tcp_filter
    ≡ take (max_entries_of tcp_filter) (
        filter
          (λ line. protocol_matches (map to_lower tcp_filter.protocols) (fields line))
          connections)
filter_conntrack_lines-eq-take_example = filter_conntrack_lines-eq-take connections tcp_filter

abbrev allowlist : List Text
allowlist = lit "KUBE-*" ∷ []

not_empty_list : allowlist ≢ []
not_empty_list = λ e. cc

filter_iptables_lines_iff_example : Memᴰ (lit "*filter") (filter_iptables_lines rules allowlist) ↔ (
    Memᴰ (lit "*filter") rules
    × ((iptables_chain (lit "*filter") ≡ [])
        ⊎ IsAllowed (iptables_chain (lit "*filter")) allowlist))
filter_iptables_lines_iff_example =
    filter_iptables_lines_iff rules allowlist (lit "*filter") not_empty_list

bounded_lines_fits_example :
    (total_length (bounded_lines (lit "abcdef") (pos 4)).0 ≤ pos_part (pos 4))
    × (((bounded_lines (lit "abcdef") (pos 4)).1 ≡ true)
        ↔ (pos_part (pos 4) < length (lit "abcdef")))
    × All (All IsNotBreak) (bounded_lines (lit "abcdef") (pos 4)).0
bounded_lines_fits_example = bounded_lines_fits (lit "abcdef") (pos 4) refl

collect_parts_example :
    let s = collect collector node_a sent_request in
    (s.cni ≡ (detect_cni calico_host config_dirs).0)
    × (s.iptables ≡ (collect_iptables node_exec (pos 4096) []).0)
    × (s.ipvs ≡ (collect_ipvs calico_host.read_file (lit "/proc") (pos 4096)).0)
    × (s.conntrack ≡ (collect_conntrack node_exec (pos 4096) sent_request.conntrack_filter).0)
    × (s.routes ≡ (collect_routes node_exec (pos 4096)).0)
collect_parts_example = collect_parts collector node_a sent_request

-- The rule of KUBE-SERVICES is in the snapshot.
kube_rule_kept :
    Memᴰ
      (lit "-A KUBE-SERVICES -j KUBE-SVC-A")
      (collect collector node_a (decode_onto default_request sent_request)).iptables.lines
unfolding collect add_cni add_iptables add_ipvs add_conntrack add_routes decode_onto is_empty
    collect_iptables run collect_command bounded_lines bounded_data scan_lines drop_cr
    filter_iptables_lines filter any chain_allowed path_match iptables_chain chain_of_fields fields
    split_words is_space lit text_beq has_prefix trim_prefix
kube_rule_kept = Memᴰ.head refl

default_allowlist_drops_calico_example :
    has_prefix (iptables_chain (lit "-A KUBE-SERVICES -j KUBE-SVC-A")) (lit "cali-") ≡ false
default_allowlist_drops_calico_example =
    default_allowlist_drops_calico collector node_a sent_request
      (lit "-A KUBE-SERVICES -j KUBE-SVC-A") refl kube_rule_kept

-- ===== src/Agent/Types.antt =====
-- internal/agent/types.go. `int` fields are integers; a time is a number of seconds.
use smtx_lab.Prelude.Int.{ℤ}
use smtx_lab.Prelude.{ℕ, Bool, false, List, [], nat_eq, text_eq, Text}

pub record ConntrackFilter : Type 0 where
  pub protocols : List Text
  pub max_entries : ℤ

pub record SnapshotRequest : Type 0 where
  pub collect_cni : Bool
  pub collect_iptables : Bool
  pub collect_ipvs : Bool
  pub collect_conntrack : Bool
  pub collect_routes : Bool
  pub chain_allowlist : List Text
  pub conntrack_filter : ConntrackFilter

pub record CalicoSnapshot : Type 0 where
  pub overlay_mode : Text
  pub ipip_interface : Text
  pub vxlan_interface : Text
  pub wire_guard_interface : Text
  pub workload_interfaces : List Text
  pub config_hints : List Text

pub record CniSnapshot : Type 0 where
  pub type : Text
  pub mode : Text
  pub overlay_mode : Text
  pub config_files : List Text
  pub interfaces : List Text
  pub detection_log : List Text
  pub calico : CalicoSnapshot

pub record CommandSnapshot : Type 0 where
  pub available : Bool
  pub captured : Bool
  pub truncated : Bool
  pub lines : List Text
  pub line_count : ℕ

pub record IpvsSnapshot : Type 0 where
  pub available : Bool
  pub enabled : Bool
  pub service_count : ℕ
  pub real_server_count : ℕ
  pub lines : List Text

pub record Snapshot : Type 0 where
  pub node_name : Text
  pub time : ℤ
  pub cni : CniSnapshot
  pub iptables : CommandSnapshot
  pub ipvs : IpvsSnapshot
  pub conntrack : CommandSnapshot
  pub routes : CommandSnapshot
  pub errors : List Text

-- The zero values of Go.
abbrev pub no_calico : CalicoSnapshot
no_calico = record {
  overlay_mode = [];
  ipip_interface = [];
  vxlan_interface = [];
  wire_guard_interface = [];
  workload_interfaces = [];
  config_hints = [];
}

abbrev pub no_cni : CniSnapshot
no_cni = record {
  type = [];
  mode = [];
  overlay_mode = [];
  config_files = [];
  interfaces = [];
  detection_log = [];
  calico = no_calico;
}

abbrev pub no_command : CommandSnapshot
no_command = record {
  available = false;
  captured = false;
  truncated = false;
  lines = [];
  line_count = 0;
}

abbrev pub no_ipvs : IpvsSnapshot
no_ipvs = record {
  available = false;
  enabled = false;
  service_count = 0;
  real_server_count = 0;
  lines = [];
}

abbrev pub empty_snapshot : Text → ℤ → Snapshot
empty_snapshot node_name time = record {
  node_name = node_name;
  time = time;
  cni = no_cni;
  iptables = no_command;
  ipvs = no_ipvs;
  conntrack = no_command;
  routes = no_command;
  errors = [];
}

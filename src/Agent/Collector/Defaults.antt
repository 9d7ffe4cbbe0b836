-- ===== src/Agent/Collector/Defaults.antt =====
-- What the defaults of the handler do to the requests of the controller.
use mathlib.Core.Path.{subst}
use mathlib.Core.List.{Memᴰ}
use smtx_lab.Strings.{has_prefix}
use smtx_lab.Agent.Glob.{path_match}
use smtx_lab.Agent.Types.{CommandSnapshot, no_command, SnapshotRequest}
use smtx_lab.Agent.Commands.{
  chain_allowed, filter_iptables_lines, iptables_chain, Exec, Result, ok, err, collect_iptables,
  collect_command, run, bounded_lines,
}
use smtx_lab.Agent.Commands.Filters.{filter_iptables_lines_iff, IsAllowed, IsAllowed-chain_allowed}
use smtx_lab.Agent.Collector.{collect, Node, Collector, default_request, decode_onto}
use smtx_lab.Prelude.{
  ◌≡◌, refl, ap, ◌∙◌, inl, inr, true, false, List, [], ◌∷◌, arith, if◌then◌else◌, nat_eq, text_eq,
  Bool-cases, or_true, Text, lit, text_beq, is_empty,
}
use smtx_lab.Prelude.Int.{ℤ}
use smtx_lab.Agent.Collector.Errors.{collect_parts}

-- No request can switch off what the defaults switch on: a `false` field is not sent.
pub decode_onto_keeps :
    (old sent : SnapshotRequest)
    → let r = decode_onto old sent in
      (old.collect_cni ≡ true → r.collect_cni ≡ true)
      × (old.collect_iptables ≡ true → r.collect_iptables ≡ true)
      × (old.collect_ipvs ≡ true → r.collect_ipvs ≡ true)
      × (old.collect_conntrack ≡ true → r.collect_conntrack ≡ true)
      × (old.collect_routes ≡ true → r.collect_routes ≡ true)
unfolding decode_onto
decode_onto_keeps old sent =
    (λ h. ground arith, λ h. ground arith, λ h. ground arith, λ h. ground arith, λ h. ground arith)

-- A chain whose name begins with a small letter c is not on the default list.
default_denies_c : (s : Text) → chain_allowed (b'c' ∷ s) default_request.chain_allowlist ≡ false
unfolding chain_allowed path_match lit text_beq
default_denies_c s = refl

-- A name that begins in "cali-" begins in a small c.
calico_c : (chain : Text) → has_prefix chain (lit "cali-") ≡ true → (s : Text) × (chain ≡ b'c' ∷ s)
unfolding has_prefix lit
calico_c [] h = cc
calico_c (c ∷ s) h = (s, ground arith)

not-IsAllowed :
    (chain : Text)
    → has_prefix chain (lit "cali-") ≡ true
    → IsAllowed chain default_request.chain_allowlist
    → ⊥
not-IsAllowed chain h a =
    let (s, e) = calico_c chain h in
    cc (IsAllowed-chain_allowed chain default_request.chain_allowlist a, default_denies_c s, e)

keeps_filtered :
    (exec : Exec) (max_output_bytes : ℤ) (allowlist : List Text) (line : Text)
    → Memᴰ line (collect_iptables exec max_output_bytes allowlist).0.lines
    → (lines : List Text) × Memᴰ line (filter_iptables_lines lines allowlist)
unfolding collect_iptables
keeps_filtered exec max_output_bytes allowlist line m =
    by_result (run exec (lit "iptables-save" ∷ [])) m
  where
    by_result :
        (r : Result Text)
        → Memᴰ line
            (collect_command
              (λ lines. filter_iptables_lines lines allowlist)
              max_output_bytes
              r).0.lines
        → (lines : List Text) × Memᴰ line (filter_iptables_lines lines allowlist)
    by_result (err e) m = elim m [ ]
    by_result (ok out) m = ((bounded_lines out max_output_bytes).0, m)

-- The list that is used where the request names none, and that the rules are collected.
listed :
    (sent : SnapshotRequest)
    → sent.chain_allowlist ≡ []
    → (decode_onto default_request sent).chain_allowlist ≡ default_request.chain_allowlist
unfolding decode_onto is_empty
listed sent e = rw e refl

switched_on : (sent : SnapshotRequest) → (decode_onto default_request sent).collect_iptables ≡ true
unfolding decode_onto
switched_on sent = or_true sent.collect_iptables

rules_collected :
    (c : Collector) (node : Node) (sent : SnapshotRequest)
    → sent.chain_allowlist ≡ []
    → (collect c node (decode_onto default_request sent)).iptables
      ≡ (collect_iptables node.exec c.max_output_bytes default_request.chain_allowlist).0
rules_collected c node sent e =
    let request = decode_onto default_request sent in
    (collect_parts c node request).1
    ∙ (ap
          (λ b.
            if b
            then (collect_iptables node.exec c.max_output_bytes request.chain_allowlist).0
            else no_command)
          (switched_on sent)
        ∙ ap (λ l. (collect_iptables node.exec c.max_output_bytes l).0) (listed sent e))

-- For a request that lists no chains, the snapshot holds no line of a chain whose name begins in
-- "cali-", the names of the chains that Calico makes: the default list spells them in capitals.
pub default_allowlist_drops_calico :
    (c : Collector) (node : Node) (sent : SnapshotRequest) (line : Text)
    → sent.chain_allowlist ≡ []
    → Memᴰ line (collect c node (decode_onto default_request sent)).iptables.lines
    → has_prefix (iptables_chain line) (lit "cali-") ≡ false
default_allowlist_drops_calico c node sent line e m =
    let allowlist = default_request.chain_allowlist in
    let m' = subst (λ (s : CommandSnapshot). Memᴰ line s.lines) (rules_collected c node sent e) m in
    let (lines, kept) = keeps_filtered node.exec c.max_output_bytes allowlist line m' in
    let (_, named) = (filter_iptables_lines_iff lines allowlist line (λ p. cc)).0 kept in
    elim (Bool-cases (has_prefix (iptables_chain line) (lit "cali-"))) [
      | inr no_calico ↦ no_calico
      | inl calico ↦ elim named [
        | inl none_named ↦ rw none_named (unfold has_prefix lit in refl)
        | inr allowed ↦ absurd (not-IsAllowed (iptables_chain line) calico allowed)
      ]
    ]

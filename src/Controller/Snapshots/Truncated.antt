-- ===== src/Controller/Snapshots/Truncated.antt =====
-- The cut of a snapshot that is too large for a ConfigMap.
use smtx_lab.Prelude.{
  ℕ, zero, suc, ◌+◌, ◌-◌, ◌≤◌, min, ◌≡◌, refl, ap, List, [], ◌∷◌, ◌++◌, arith, leb, nat_eq, text_eq,
  if_both, length, take, length-append, length-take, Text,
}
use smtx_lab.Agent.Types.{Snapshot}
use smtx_lab.Controller.Snapshots.{
  truncation_note, truncate_lines, truncate_command_snapshot, truncate_snapshot,
}

-- A cut of some lines: at most one line more than the bound, and the lines up to the bound are kept.
pub record IsCut (max_lines : ℕ) (lines cut : List Text) : Type 0 where
  pub fits : length cut ≤ max_lines + 1
  pub keeps : take max_lines cut ≡ take max_lines lines

take_append : (n : ℕ) (xs ys : List Text) → n ≤ length xs → take n (take n xs ++ ys) ≡ take n xs
take_append zero xs ys h = refl
take_append (suc n) [] ys h = absurd (omega arith)
take_append (suc n) (x ∷ xs) ys h = ap (λ r. x ∷ r) (take_append n xs ys (omega arith))

truncate_lines-IsCut :
    (lines : List Text) (max_lines : ℕ) → IsCut max_lines lines (truncate_lines lines max_lines)
unfolding truncate_lines
truncate_lines-IsCut lines max_lines =
    if_both (IsCut max_lines lines) (leb (length lines) max_lines)
      (λ e. record { fits = ground (arith, e); keeps = refl })
      (λ e.
        let long : max_lines ≤ length lines = ground (arith, e) in
        record {
          fits = short (take max_lines lines) (length-take max_lines lines);
          keeps = take_append max_lines lines _ long;
        })
  where
    short :
        (kept : List Text)
        → length kept ≡ min max_lines (length lines)
        → length (kept ++ truncation_note (length lines - max_lines) ∷ []) ≤ max_lines + 1
    short kept e =
        omega (arith, e, length-append kept (truncation_note (length lines - max_lines) ∷ []))

-- The cut of a snapshot keeps the first lines of the rules, of the connections, of IPVS and of the log,
-- up to the bound, and has at most one line more of each; the counts of lines are those of the cut.
pub truncate_snapshot-IsCut :
    (snapshot : Snapshot) (max_lines : ℕ)
    → IsCut max_lines snapshot.iptables.lines (truncate_snapshot snapshot max_lines).iptables.lines
      × IsCut max_lines snapshot.conntrack.lines
          (truncate_snapshot snapshot max_lines).conntrack.lines
      × IsCut max_lines snapshot.ipvs.lines (truncate_snapshot snapshot max_lines).ipvs.lines
      × IsCut max_lines snapshot.cni.detection_log
          (truncate_snapshot snapshot max_lines).cni.detection_log
      × ((truncate_snapshot snapshot max_lines).iptables.line_count
          ≡ length (truncate_snapshot snapshot max_lines).iptables.lines)
      × ((truncate_snapshot snapshot max_lines).conntrack.line_count
          ≡ length (truncate_snapshot snapshot max_lines).conntrack.lines)
unfolding truncate_snapshot truncate_command_snapshot
truncate_snapshot-IsCut snapshot max_lines = (
  truncate_lines-IsCut snapshot.iptables.lines max_lines,
  truncate_lines-IsCut snapshot.conntrack.lines max_lines,
  truncate_lines-IsCut snapshot.ipvs.lines max_lines,
  truncate_lines-IsCut snapshot.cni.detection_log max_lines,
  refl,
  refl,
)

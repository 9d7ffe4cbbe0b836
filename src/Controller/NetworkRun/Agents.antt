-- ===== src/Controller/NetworkRun/Agents.antt =====
-- `collectSnapshot` of internal/controller/networkprobelab_controller.go: the request to the agent of a
-- node. JSON and the HTTP exchange are parameters.
use smtx_lab.Prelude.{◌||◌, ◌++◌, if◌then◌else◌, nat_eq, text_eq, Text, lit, is_empty}
use smtx_lab.Prelude.Int.{ℤ, pos, ltb_ℤ, leb_ℤ, beq_ℤ}
use smtx_lab.Prelude.Results.{Result, ok, err, ◌>>=◌}
use smtx_lab.Agent.Types.{Snapshot, SnapshotRequest}
use smtx_lab.Metrics.{HttpResponse}
use smtx_lab.Controller.Checks.{sprint}
use smtx_lab.Controller.NetworkRun.Listed.{Node, node_address}

pub record AgentClient : Type 0 where
  pub port : ℤ
  pub marshal : SnapshotRequest → Result Text
  -- a POST of the body to the URL
  pub post : Text → Text → Result HttpResponse
  pub decode : Text → Result Snapshot

abbrev checked : Node → HttpResponse → Result Text
checked node resp =
    if ltb_ℤ resp.status_code (pos 200) || leb_ℤ (pos 300) resp.status_code
    then err (
        lit "node-agent snapshot on "
        ++ (node.name ++ (lit " returned HTTP " ++ sprint resp.status_code)))
    else ok resp.body

abbrev agent_url : AgentClient → Node → Text
agent_url agents node =
    let port = if beq_ℤ agents.port (pos 0) then pos 18080 else agents.port in
    lit "http://" ++ (node_address node ++ (lit ":" ++ (sprint port ++ lit "/snapshot")))

unfoldable pub collect_snapshot : AgentClient → Node → SnapshotRequest → Result Snapshot
collect_snapshot agents node req =
    if is_empty (node_address node)
    then err (lit "node " ++ (node.name ++ lit " has no usable address"))
    else (do
      body ← agents.marshal req
      resp ← agents.post (agent_url agents node) body
      answer ← checked node resp
      snapshot ← agents.decode answer
      ok (
          if is_empty snapshot.node_name
          then record snapshot { node_name = node.name }
          else snapshot))

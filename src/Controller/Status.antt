-- ===== src/Controller/Status.antt =====
-- `Reconcile` of internal/controller/networkprobelab_controller.go, from the fetched object on: the
-- finalizer, the status that it computes and writes, and the requeue.
pub mod Phases
use smtx_lab.Prelude.{
  ◌+◌, ◌-◌, ◌/◌, Bool, true, false, not, Option, none, some, List, [], ◌∷◌, ◌++◌, if◌then◌else◌,
  nat_eq, text_eq, Text, lit, is_empty,
}
use smtx_lab.Prelude.Int.{ℤ, is_pos}
use smtx_lab.Api.Network.{LabPhase, NetworkProbeSummary}
use smtx_lab.Controller.Client.{ok, Call, ◌>>=◌, ◌>>◌, pure}
use smtx_lab.Controller.Naming.{excel_name, html_name}
use smtx_lab.Controller.Finalizers.{has_finalizer, add_finalizer, remove_finalizer}

pub data ConditionStatus : Type 0 where
  condition_true : ConditionStatus
  condition_false : ConditionStatus
  condition_unknown : ConditionStatus

-- The arguments of `setCondition`, but for the generation.
pub record Condition : Type 0 where
  pub type : Text
  pub status : ConditionStatus
  pub reason : Text
  pub message : Text

-- `networkRunResult`; `N` and `P` are the results of nodes and of probes.
pub record NetworkRunResult (N P : Type 0) : Type 0 where
  pub pending : Bool
  pub summary : NetworkProbeSummary
  pub node_results : List N
  pub probe_results : List P
  pub raw_snapshot_config_map_names : List Text

-- The parts of the spec that the status depends on; the names are those that are asked for, and may
-- be empty.
pub record OutputSpec : Type 0 where
  pub excel_enabled : Bool
  pub html_enabled : Bool
  pub retain_raw_snapshots : Bool
  pub excel_config_map_name : Text
  pub html_config_map_name : Text

-- What is set of the status, with the conditions in the order in which they are set.
pub record NextStatus (N P : Type 0) : Type 0 where
  pub observed_generation : ℤ
  pub excel_config_map_name : Text
  pub html_config_map_name : Text
  pub phase : LabPhase
  pub conditions : List Condition
  pub summary : NetworkProbeSummary
  pub node_results : List N
  pub probe_results : List P
  pub raw_snapshot_config_map_names : List Text

abbrev pub condition : Text → ConditionStatus → Text → Text → Condition
condition type status reason message = record {
  type = type;
  status = status;
  reason = reason;
  message = message;
}

abbrev accepted : Condition
accepted =
    condition (lit "SpecAccepted") condition_true (lit "SpecAccepted")
      (lit "NetworkProbeLab spec is accepted.")

unfoldable pub failed_conditions : Text → List Condition
failed_conditions err =
    condition (lit "AgentReady") condition_unknown (lit "Skipped")
      (lit "Agent snapshot collection did not complete.")
    ∷ condition (lit "ProbeCompleted") condition_false (lit "Failed") err
    ∷ []

unfoldable pub pending_conditions : List Condition
pending_conditions =
    condition (lit "AgentReady") condition_unknown (lit "PendingProbeJobs")
      (lit "Agent snapshots will be collected after probe jobs complete.")
    ∷ condition (lit "ProbeCompleted") condition_false (lit "ProbeJobsRunning")
        (lit "Probe jobs are running or waiting to be scheduled.")
    ∷ []

unfoldable pub agent_condition : Bool → Condition
agent_condition no_snapshots =
    if no_snapshots
    then condition (lit "AgentReady") condition_false (lit "NoSnapshots")
        (lit "No node-agent snapshots were collected.")
    else condition (lit "AgentReady") condition_true (lit "SnapshotsCollected")
        (lit "Node-agent snapshots were collected.")

unfoldable pub raw_condition : Bool → Condition
raw_condition none_written =
    if none_written
    then condition (lit "RawSnapshotsExported") condition_false (lit "NoSnapshots")
        (lit "No raw node-agent snapshots were available to write.")
    else condition (lit "RawSnapshotsExported") condition_true (lit "ConfigMapsWritten")
        (lit "Raw node-agent snapshots were written to ConfigMaps.")

abbrev pub when : Bool → Condition → List Condition
when test c = if test then c ∷ [] else []

-- `next.Artifacts.ExcelConfigMapName` and `next.Artifacts.HTMLConfigMapName`
abbrev excel_artifact : OutputSpec → Text → Text
excel_artifact output lab_name = excel_name output.excel_config_map_name lab_name (lit "network")

abbrev html_artifact : OutputSpec → Text → Text
html_artifact output lab_name = html_name output.html_config_map_name lab_name (lit "network")

module _ {N P : Type 0} (output : OutputSpec) (lab_name : Text) (generation : ℤ) where
  unfoldable pub completed_conditions : NetworkRunResult N P → List Condition
  completed_conditions run =
      agent_condition (is_empty run.node_results)
      ∷ condition (lit "ProbeCompleted") condition_true (lit "Completed")
          (lit "Probe jobs completed and results were collected.")
      ∷ (when output.excel_enabled (
            condition (lit "ExcelExported") condition_true (lit "ConfigMapWritten") (
              lit "Excel report was written to ConfigMap "
              ++ (excel_artifact output lab_name ++ lit ".")))
          ++ (when output.html_enabled (
                condition (lit "HTMLExported") condition_true (lit "ConfigMapWritten") (
                  lit "HTML report was written to ConfigMap "
                  ++ (html_artifact output lab_name ++ lit ".")))
              ++ when output.retain_raw_snapshots
                  (raw_condition (is_empty run.raw_snapshot_config_map_names))))

  -- What the run's result and its error make of the status.
  abbrev status_with : NetworkRunResult N P → LabPhase → List Condition → NextStatus N P
  status_with run phase conditions = record {
    observed_generation = generation;
    excel_config_map_name = excel_artifact output lab_name;
    html_config_map_name = html_artifact output lab_name;
    phase = phase;
    conditions = accepted ∷ conditions;
    summary = run.summary;
    node_results = run.node_results;
    probe_results = run.probe_results;
    raw_snapshot_config_map_names = run.raw_snapshot_config_map_names;
  }

  unfoldable pub phase_of : NetworkRunResult N P → Option Text → LabPhase
  phase_of run (some err) = LabPhase.failed
  phase_of run none =
      if run.pending
      then LabPhase.running
      else if is_pos run.summary.failed
      then LabPhase.failed
      else LabPhase.succeeded

  unfoldable pub conditions_of : NetworkRunResult N P → Option Text → List Condition
  conditions_of run (some err) = failed_conditions err
  conditions_of run none = if run.pending then pending_conditions else completed_conditions run

  unfoldable pub next_status : NetworkRunResult N P → Option Text → NextStatus N P
  next_status run err = status_with run (phase_of run err) (conditions_of run err)

  -- `requeue`, whether the reconciler is to be called again
  unfoldable pub requeues : NetworkRunResult N P → Option Text → Bool
  requeues run (some err) = false
  requeues run none = run.pending

-- The requeue of a reconciliation that returns no error.
pub data Requeue : Type 0 where
  no_requeue : Requeue
  requeue_after_10s : Requeue

abbrev pub requeue_if : Bool → Requeue
requeue_if true = requeue_after_10s
requeue_if false = no_requeue

-- The end of `Reconcile`: `same_status` is `reflect.DeepEqual(lab.Status, next)` and `update_status`
-- the call of `r.Status().Update` with the status `next`.
unfoldable pub write_status :
    {N P W : Type 0}
    → (NextStatus N P → Bool)
    → (NextStatus N P → Call W (Unit {0}))
    → NextStatus N P
    → Bool
    → Call W Requeue
write_status same_status update_status next requeue w =
    if same_status next
    then (ok (requeue_if requeue), w)
    else (do update_status next; pure (requeue_if requeue)) w

-- What is read of the object.
pub record LabMeta : Type 0 where
  pub deleting : Bool
  pub finalizers : List Text

-- What `Reconcile` does with the object that it fetched.
pub data ReconcileStep : Type 0 where
  -- the clean-up failed, and its error is returned
  cleanup_failed : Text → ReconcileStep
  -- the object is updated with these finalizers
  update : List Text → ReconcileStep
  -- nothing is left to do for an object that is being deleted
  ignore : ReconcileStep
  -- the probes are run and the status is written
  run_probes : ReconcileStep

abbrev pub network_probe_lab_finalizer : Text
network_probe_lab_finalizer = lit "networkprobelabs.lab.smtx.io/finalizer"

-- `cleanup` is the result of `cleanupNetworkProbeArtifacts`.
unfoldable pub reconcile_step : Option Text → LabMeta → ReconcileStep
reconcile_step cleanup lab =
    let (with_finalizer, added) = add_finalizer lab.finalizers network_probe_lab_finalizer in
    if lab.deleting
    then (if has_finalizer lab.finalizers network_probe_lab_finalizer
        then elim cleanup [
          | some err ↦ cleanup_failed err
          | none ↦ update (remove_finalizer lab.finalizers network_probe_lab_finalizer).0
        ]
        else ignore)
    else if added
    then update with_finalizer
    else run_probes

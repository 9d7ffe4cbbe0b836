-- ===== src/Controller/Jobs/Manifest.antt =====
-- `buildProbeJob` and `readProbeJobReport` of internal/controller/networkprobelab_controller.go: the job
-- that runs the checks of a node, and the report that its pod leaves.
use smtx_lab.Prelude.{
  Bool, false, ◌&&◌, Option, none, some, List, [], ◌∷◌, ◌++◌, map, if◌then◌else◌, ◌==◌, nat_eq,
  text_eq, length, any, Text, lit, insert,
}
use smtx_lab.Prelude.Int.{ℤ, pos}
use smtx_lab.Prelude.Results.{Result, ok, err}
use smtx_lab.Api.Network.{NetworkProbeTrafficSpec}
use smtx_lab.Probe.{CheckResult, Report}
use smtx_lab.Controller.Checks.{Check, default_int32, probe_job_deadline_seconds, sprint}
use smtx_lab.Controller.Naming.{short_hash}
use smtx_lab.Controller.Objects.{JobObject}
use smtx_lab.Controller.Reports.{probe_labels}

-- `marshal` is `json.Marshal`, whose error the code drops.
unfoldable pub build_probe_job :
    (List Check → Text)
    → NetworkProbeTrafficSpec
    → Text
    → ℤ
    → Text
    → Text
    → Text
    → List Check
    → Text
    → Text
    → JobObject
build_probe_job marshal traffic lab_name generation namespace name source_node checks hash image =
    let labels =
      insert (lit "lab.smtx.io/source-node-hash") (short_hash source_node)
        (probe_labels lab_name) in
    record {
      deleting = false;
      namespace = namespace;
      name = name;
      labels = labels;
      annotations =
          (lit "lab.smtx.io/source-node", source_node)
          ∷ (lit "lab.smtx.io/checks-hash", hash)
          ∷ (lit "lab.smtx.io/generation", sprint generation)
          ∷ (lit "lab.smtx.io/checks-count", sprint (pos (length checks)))
          ∷ [];
      spec = record {
        backoff_limit = pos 0;
        ttl_seconds_after_finished = pos 3600;
        active_deadline_seconds = probe_job_deadline_seconds traffic (pos (length checks));
        template = record {
          labels = labels;
          spec = record {
            service_account_name = [];
            node_name = source_node;
            restart_policy = lit "Never";
            volumes = [];
            containers =
                (record {
                  name = lit "probe";
                  image = image;
                  image_pull_policy = lit "IfNotPresent";
                  command = lit "/probe" ∷ [];
                  args = [];
                  ports = [];
                  volume_mounts = [];
                  resources = none;
                  env =
                      record { name = lit "SMTX_SOURCE_NODE"; value = source_node }
                      ∷ record { name = lit "SMTX_PROBE_CHECKS"; value = marshal checks }
                      ∷ record {
                        name = lit "SMTX_PROBE_COUNT";
                        value = sprint (default_int32 traffic.count (pos 1));
                      }
                      ∷ record {
                        name = lit "SMTX_PROBE_TIMEOUT";
                        value = sprint (default_int32 traffic.timeout_seconds (pos 5)) ++ lit "s";
                      }
                      ∷ [];
                })
                ∷ [];
          };
        };
      };
    }

-- What is read of the status of a container, and of a pod of a job.
pub record ContainerStatus : Type 0 where
  pub name : Text
  pub terminated : Option Text

pub record OwnerReference : Type 0 where
  pub kind : Text
  pub uid : Text

pub record JobPod : Type 0 where
  pub namespace : Text
  pub name : Text
  pub pod_ip : Text
  pub owners : List OwnerReference
  pub statuses : List ContainerStatus

unfoldable pub owned_by_job : JobPod → Text → Bool
owned_by_job pod uid = any (λ ref. ref.kind == lit "Job" && ref.uid == uid) pod.owners

-- The message of the first container "probe" that has ended.
unfoldable pub probe_message : List ContainerStatus → Option Text
probe_message [] = none
probe_message (status ∷ statuses) =
    let rest = probe_message statuses in
    if status.name == lit "probe"
    then elim status.terminated [ none ↦ rest | some message ↦ some message ]
    else rest

module _ {F : Type 0} (unmarshal : Text → Result (Report F)) (namespace name uid : Text) where
  abbrev with_source : JobPod → CheckResult F → CheckResult F
  with_source pod result = record result {
    source_pod = pod.namespace ++ (lit "/" ++ pod.name);
    source_ip = pod.pod_ip;
  }

  abbrev report_of : JobPod → Result (Report F) → Result (Report F)
  report_of pod (ok report) = ok (record report { results = map (with_source pod) report.results })
  report_of pod (err e) = err (
      lit "parse probe job report from pod "
      ++ (pod.namespace ++ (lit "/" ++ (pod.name ++ (lit ": " ++ e)))))

  unfoldable pub report_of_pods : List JobPod → Result (Report F)
  report_of_pods [] = err (
      lit "probe job "
      ++ (namespace
          ++ (lit "/"
              ++ (name ++ lit " completed without a readable report from current job pod"))))
  report_of_pods (pod ∷ pods) =
      let rest = report_of_pods pods in
      if owned_by_job pod uid
      then elim (probe_message pod.statuses) [
        | none ↦ rest
        | some message ↦ report_of pod (unmarshal message)
      ]
      else rest

  -- `listed` is the list of the pods of the job.
  unfoldable pub read_probe_job_report : Result (List JobPod) → Result (Report F)
  read_probe_job_report (err e) = err e
  read_probe_job_report (ok pods) = report_of_pods pods

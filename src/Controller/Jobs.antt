-- ===== src/Controller/Jobs.antt =====
-- `ensureAndReadProbeJobs` of internal/controller/networkprobelab_controller.go. The API server is a
-- parameter: what it answers for the job of a name.
pub mod Complete
pub mod Manifest
use smtx_lab.Prelude.{
  ◌+◌, ◌-◌, ◌/◌, Bool, true, false, not, ◌&&◌, Option, none, some, List, [], ◌∷◌, ◌++◌,
  if◌then◌else◌, ◌==◌, nat_eq, text_eq, take, filter, Text, lit, text_lt, add_key, sort_slice,
}
use smtx_lab.Prelude.Int.{ℤ, is_pos}
use smtx_lab.Crypto.{sha1, hex}
use smtx_lab.Controller.Naming.{probe_job_name}
use smtx_lab.Controller.Checks.{Check, sprint}
use smtx_lab.Api.Network.{NetworkProbeTrafficSpec}
use smtx_lab.Controller.Objects.{JobObject}
use smtx_lab.Controller.Jobs.Manifest.{build_probe_job}

-- What is read of a job.
pub record Job : Type 0 where
  pub deleting : Bool
  pub checks_hash : Text
  pub generation : Text
  pub succeeded : ℤ
  pub failed : ℤ

pub data GetResult : Type 0 where
  not_found : GetResult
  get_error : Text → GetResult
  found : Job → GetResult

pub data ReadResult (R : Type 0) : Type 0 where
  read_error : Text → ReadResult R
  report : R → ReadResult R

-- What the controller asks of the API server.
pub data Action : Type 0 where
  create_job : JobObject → Action
  delete_job : Text → Action

-- `R` is `probe.Report`; a deletion that finds no job is no error. `marshal` is `json.Marshal`.
pub record Cluster (R : Type 0) : Type 0 where
  pub namespace : Text
  pub get : Text → GetResult
  pub create_error : JobObject → Option Text
  -- `r.probeImage()`
  pub image : Text
  pub delete_error : Text → Option Text
  pub read_report : Text → ReadResult R
  pub source_node : R → Text
  pub marshal : List Check → Text

-- What one pass of the loop does.
pub data Step (R : Type 0) : Type 0 where
  waits : List Action → Step R
  reports : R → Step R
  fails : Text → List Action → Step R

pub record Outcome (R : Type 0) : Type 0 where
  pub read : List R
  pub is_pending : Bool
  pub error : Option Text
  pub actions : List Action

-- The keys of `grouped`, sorted.
unfoldable pub add_sources : List Check → List Text → List Text
add_sources [] nodes = nodes
add_sources (check ∷ checks) nodes = add_sources checks (add_key nodes check.source_node)

unfoldable pub source_nodes : List Check → List Text
source_nodes checks = sort_slice text_lt (add_sources checks [])

-- `grouped[node]`
unfoldable pub node_checks : Text → List Check → List Check
node_checks node checks = filter (λ check. check.source_node == node) checks

module _ {R : Type 0} (cluster : Cluster R) where
  unfoldable pub checks_hash : List Check → Text
  checks_hash checks =
      take 16
        (hex (sha1 (cluster.marshal (sort_slice (λ (a b : Check). text_lt a.id b.id) checks))))

  unfoldable pub step_of_answer : Option Text → Action → Step R
  step_of_answer none action = waits (action ∷ [])
  step_of_answer (some e) action = fails e (action ∷ [])

  unfoldable pub step_of_read : ReadResult R → Step R
  step_of_read (read_error e) = fails e []
  step_of_read (report r) = reports r

  abbrev pub is_current : Text → Text → Job → Bool
  is_current expected generation job = job.checks_hash == expected && job.generation == generation

  abbrev pub job_failed : Text → Text
  job_failed name = lit "probe job " ++ (cluster.namespace ++ (lit "/" ++ (name ++ lit " failed")))

  unfoldable pub step_of_job : Text → Text → Text → Job → Step R
  step_of_job name expected generation job =
      if job.deleting
      then waits []
      else if not (is_current expected generation job)
      then step_of_answer (cluster.delete_error name) (delete_job name)
      else if is_pos job.succeeded
      then step_of_read (cluster.read_report name)
      else if is_pos job.failed
      then fails (job_failed name) []
      else waits []

  -- `desired` is the job that is created where there is none.
  unfoldable pub step_of_get : JobObject → Text → Text → Text → GetResult → Step R
  step_of_get desired name expected generation not_found =
      step_of_answer (cluster.create_error desired) (create_job desired)
  step_of_get desired name expected generation (get_error e) = fails e []
  step_of_get desired name expected generation (found job) =
      step_of_job name expected generation job

  -- `buildProbeJob` of the node.
  abbrev pub job_of_node : NetworkProbeTrafficSpec → Text → ℤ → List Check → Text → JobObject
  job_of_node traffic lab_name generation checks node =
      let of_node = node_checks node checks in
      build_probe_job cluster.marshal traffic lab_name generation cluster.namespace
        (probe_job_name lab_name node) node of_node (checks_hash of_node) cluster.image

  unfoldable pub node_step : NetworkProbeTrafficSpec → Text → ℤ → List Check → Text → Step R
  node_step traffic lab_name generation checks node =
      let name = probe_job_name lab_name node in
      step_of_get (job_of_node traffic lab_name generation checks node) name
        (checks_hash (node_checks node checks)) (sprint generation) (cluster.get name)

  unfoldable pub is_failure : Step R → Bool
  is_failure (waits actions) = false
  is_failure (reports r) = false
  is_failure (fails e actions) = true

  -- What is known after a step.
  unfoldable pub after_step : Step R → Outcome R → Outcome R
  after_step (waits actions) o = record o { is_pending = true; actions = o.actions ++ actions }
  after_step (reports r) o = record o { read = o.read ++ r ∷ [] }
  after_step (fails e actions) o = record o { error = some e; actions = o.actions ++ actions }

  -- The loop over the nodes, which an error ends.
  unfoldable pub run_nodes : (Text → Step R) → List Text → Outcome R → Outcome R
  run_nodes step [] o = o
  run_nodes step (node ∷ nodes) o =
      let rest = run_nodes step nodes (after_step (step node) o) in
      if is_failure (step node) then after_step (step node) o else rest

  abbrev pub report_less : R → R → Bool
  report_less a b = text_lt (cluster.source_node a) (cluster.source_node b)

  -- The reports are sorted where the loop comes to its end.
  unfoldable pub sorted_outcome : Outcome R → Outcome R
  sorted_outcome o = elim o.error [
    | none ↦ record o { read = sort_slice report_less o.read }
    | some e ↦ o
  ]

  abbrev pub start : Outcome R
  start = record { read = []; is_pending = false; error = none; actions = [] }

  unfoldable pub ensure_and_read_probe_jobs :
      NetworkProbeTrafficSpec → Text → ℤ → List Check → Outcome R
  ensure_and_read_probe_jobs traffic lab_name generation checks =
      sorted_outcome
        (run_nodes (node_step traffic lab_name generation checks) (source_nodes checks) start)

-- ===== src/Controller/Jobs/Complete.antt =====
-- The outcome of `ensureAndReadProbeJobs` and the jobs that it rests on.
use smtx_lab.Prelude.{
  ◌≡◌, refl, sym, ap, ◌∙◌, inl, inr, true, false, not, Option, none, some, List, [], ◌∷◌, ◌++◌,
  append-nil, append_assoc, arith, nat_eq, text_eq, Bool-cases, if_both, Option-cases, Text,
  sort_slice,
}
use smtx_lab.Prelude.Int.{ℤ, is_pos}
use smtx_lab.Controller.Naming.{probe_job_name}
use smtx_lab.Controller.Checks.{Check, sprint}
use smtx_lab.Api.Network.{NetworkProbeTrafficSpec}
use smtx_lab.Controller.Objects.{JobObject}
use smtx_lab.Controller.Jobs.{
  job_of_node, start, source_nodes, node_checks, checks_hash, node_step, report_less,
  sorted_outcome, ensure_and_read_probe_jobs, Job, GetResult, ReadResult, Action, Cluster, Step,
  Outcome, step_of_answer, step_of_read, is_current, step_of_job, step_of_get, is_failure,
  after_step, run_nodes,
}

-- The job of a node, with the report that was read of it: it is not being deleted, it was made for
-- these checks and this generation, and it succeeded.
pub record IsDone {R : Type 0} (cluster : Cluster R) (name expected generation : Text) (r : R)
    : Type 0 where
  pub job : Job
  pub is_found : cluster.get name ≡ GetResult.found job
  pub is_kept : job.deleting ≡ false
  pub current : is_current cluster expected generation job ≡ true
  pub done : is_pos job.succeeded ≡ true
  pub is_read : cluster.read_report name ≡ ReadResult.report r

-- Each node with its report.
pub data Reported {R : Type 0} (P : Text → R → Type 0) : List Text → List R → Type 0 where
  no_nodes : Reported P [] []
  next :
      {node : Text} {r : R} {nodes : List Text} {rs : List R}
      → P node r
      → Reported P nodes rs
      → Reported P (node ∷ nodes) (r ∷ rs)

-- What holds of the report of a step that has one.
abbrev OnReport : {R : Type 0} → (R → Type 0) → Step R → Type 0
OnReport P (Step.waits actions) = Unit
OnReport P (Step.reports r) = P r
OnReport P (Step.fails e actions) = Unit

module _ {R : Type 0} (cluster : Cluster R) where
  answer_OnReport :
      (P : R → Type 0) (o : Option Text) (a : Action) → OnReport P (step_of_answer cluster o a)
  unfolding step_of_answer
  answer_OnReport P none a = tt
  answer_OnReport P (some x) a = tt

  module _ (desired : JobObject) (name expected generation : Text) where
    abbrev Done : R → Type 0
    Done r = IsDone cluster name expected generation r

    read_OnReport :
        (job : Job)
        → cluster.get name ≡ GetResult.found job
        → job.deleting ≡ false
        → is_current cluster expected generation job ≡ true
        → is_pos job.succeeded ≡ true
        → (result : ReadResult R) → cluster.read_report name ≡ result
        → OnReport Done (step_of_read cluster result)
    unfolding step_of_read
    read_OnReport job f k c d (ReadResult.read_error x) q = tt
    read_OnReport job f k c d (ReadResult.report r) q = record {
      job = job;
      is_found = f;
      is_kept = k;
      current = c;
      done = d;
      is_read = q;
    }

    job_OnReport :
        (job : Job)
        → cluster.get name ≡ GetResult.found job
        → OnReport Done (step_of_job cluster name expected generation job)
    unfolding step_of_job
    job_OnReport job f =
        if_both (OnReport Done) job.deleting (λ e. tt)
          (λ kept.
            if_both (OnReport Done) (not (is_current cluster expected generation job))
              (λ e. answer_OnReport Done (cluster.delete_error name) (Action.delete_job name))
              (λ stale.
                if_both (OnReport Done) (is_pos job.succeeded)
                  (λ d.
                    read_OnReport job f kept (ground (arith, stale)) d (cluster.read_report name)
                      refl)
                  (λ d. if_both (OnReport Done) (is_pos job.failed) (λ e. tt) (λ e. tt))))

    get_OnReport :
        (result : GetResult)
        → cluster.get name ≡ result
        → OnReport Done (step_of_get cluster desired name expected generation result)
    unfolding step_of_get
    get_OnReport GetResult.not_found q =
        answer_OnReport Done (cluster.create_error desired) (Action.create_job desired)
    get_OnReport (GetResult.get_error x) q = tt
    get_OnReport (GetResult.found job) q = job_OnReport job q

  after_step_pending :
      (s : Step R) (o : Outcome R)
      → o.is_pending ≡ true
      → (after_step cluster s o).is_pending ≡ true
  unfolding after_step
  after_step_pending (Step.waits actions) o h = refl
  after_step_pending (Step.reports r) o h = h
  after_step_pending (Step.fails e actions) o h = h

  failure_has_error :
      (s : Step R) (o : Outcome R)
      → is_failure cluster s ≡ true
      → (after_step cluster s o).error ≡ none
      → ⊥
  unfolding is_failure after_step
  failure_has_error (Step.waits actions) o h q = cc
  failure_has_error (Step.reports r) o h q = cc
  failure_has_error (Step.fails e actions) o h q = cc

  module _ (step : Text → Step R) where
    pending_stays :
        (nodes : List Text) (o : Outcome R)
        → o.is_pending ≡ true
        → (run_nodes cluster step nodes o).is_pending ≡ true
    unfolding run_nodes
    pending_stays [] o h = h
    pending_stays (node ∷ nodes) o h =
        let next = after_step_pending (step node) o h in
        if_both (λ (r : Outcome R). r.is_pending ≡ true) (is_failure cluster (step node))
          (λ e. next) (λ e. pending_stays nodes (after_step cluster (step node) o) next)

    -- The reports of a run that ends without an error and is not pending.
    AllRead : (Text → R → Type 0) → List Text → Outcome R → Outcome R → Type 0
    AllRead P nodes o end = (rs : List R) × (end.read ≡ o.read ++ rs) × Reported P nodes rs

    module _ (P : Text → R → Type 0)
        (reports_hold : (node : Text) → OnReport (P node) (step node)) where
      read_one :
          (node : Text) (nodes : List Text) (o end : Outcome R) (s : Step R)
          → OnReport (P node) s
          → is_failure cluster s ≡ false
          → ((after_step cluster s o).is_pending ≡ true → end.is_pending ≡ true)
          → end.is_pending ≡ false
          → AllRead P nodes (after_step cluster s o) end
          → AllRead P (node ∷ nodes) o end
      unfolding is_failure after_step AllRead
      read_one node nodes o end (Step.waits actions) p h stays k below =
          absurd (differ (stays refl) k)
        where
          differ : end.is_pending ≡ true → end.is_pending ≡ false → ⊥
          differ a b = cc
      read_one node nodes o end (Step.reports r) p h stays k (rs, q, d) =
          (r ∷ rs, q ∙ append_assoc o.read (r ∷ []) rs, Reported.next p d)
      read_one node nodes o end (Step.fails e actions) p h stays k below = cc

      run_nodes_complete :
          (nodes : List Text) (o : Outcome R)
          → (run_nodes cluster step nodes o).error ≡ none
          → (run_nodes cluster step nodes o).is_pending ≡ false
          → AllRead P nodes o (run_nodes cluster step nodes o)
      unfolding run_nodes AllRead
      run_nodes_complete [] o h k = ([], sym (append-nil o.read), Reported.no_nodes)
      run_nodes_complete (node ∷ nodes) o h k = elim (Bool-cases (is_failure cluster (step node))) [
        | inl e ↦ absurd (failure_has_error (step node) o e (rw e at h))
        | inr e ↦
            let next = after_step cluster (step node) o in
            let done = run_nodes_complete nodes next (rw e at h) (rw e at k) in
            rw e (
              read_one node nodes o (run_nodes cluster step nodes next) (step node)
                (reports_hold node) e (pending_stays nodes next) (rw e at k) done)
      ]

  -- Sorting does not change whether there is an error, or whether a job is pending.
  sorted_of :
      (o : Outcome R)
      → (sorted_outcome cluster o).error ≡ none
      → (sorted_outcome cluster o).is_pending ≡ false
      → (o.error ≡ none)
        × (o.is_pending ≡ false)
        × ((sorted_outcome cluster o).read ≡ sort_slice (report_less cluster) o.read)
  unfolding sorted_outcome
  sorted_of o h k = elim (Option-cases o.error) [
    | inl e ↦ (e, still e, sorted e)
    | inr (x, e) ↦ absurd (failed x e)
  ]
    where
      still : o.error ≡ none → o.is_pending ≡ false
      still e = rw (sorted_outcome, e) at k

      sorted :
          o.error ≡ none → (sorted_outcome cluster o).read ≡ sort_slice (report_less cluster) o.read
      sorted e = rw (sorted_outcome, e) refl

      failed : (x : Text) → o.error ≡ some x → ⊥
      failed x e = let q : some x ≡ none = rw e at h in cc

-- Where `ensureAndReadProbeJobs` returns no error and nothing is pending, the reports are, sorted by
-- source node, one for each source node of the checks: read from a job that is not being deleted, that
-- succeeded, and that was made for just these checks and this generation of the lab.
pub ensure_and_read_probe_jobs_complete :
    {R : Type 0} (cluster : Cluster R) (traffic : NetworkProbeTrafficSpec) (lab_name : Text)
    (generation : ℤ) (checks : List Check)
    → (ensure_and_read_probe_jobs cluster traffic lab_name generation checks).error ≡ none
    → (ensure_and_read_probe_jobs cluster traffic lab_name generation checks).is_pending ≡ false
    → (rs : List R) × ((ensure_and_read_probe_jobs cluster traffic lab_name generation checks).read
        ≡ sort_slice (report_less cluster) rs)
      × Reported
          (λ node.
            IsDone cluster
              (probe_job_name lab_name node)
              (checks_hash cluster (node_checks node checks))
              (sprint generation))
          (source_nodes checks)
          rs
unfolding ensure_and_read_probe_jobs AllRead node_step
ensure_and_read_probe_jobs_complete cluster traffic lab_name generation checks h k =
    let step = node_step cluster traffic lab_name generation checks in
    let o = run_nodes cluster step (source_nodes checks) (start cluster) in
    let (e, still, sorted) = sorted_of cluster o h k in
    let (rs, q, d) =
      run_nodes_complete cluster step
        (λ node.
          IsDone cluster (probe_job_name lab_name node)
            (checks_hash cluster (node_checks node checks)) (sprint generation))
        (λ node.
          get_OnReport cluster (job_of_node cluster traffic lab_name generation checks node)
            (probe_job_name lab_name node) (checks_hash cluster (node_checks node checks))
            (sprint generation) _ refl)
        (source_nodes checks) (start cluster) e still in
    (rs, sorted ∙ ap (sort_slice (report_less cluster)) q, d)

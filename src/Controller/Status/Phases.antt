-- ===== src/Controller/Status/Phases.antt =====
-- What the phase, the requeue and the finalizer tell of a reconciliation.
use smtx_lab.Prelude.{
  ◌≡◌, refl, sym, ap, ◌∙◌, ◌↔◌, Bool, true, false, Option, none, some, arith, if◌then◌else◌, nat_eq,
  text_eq, Text,
}
use smtx_lab.Prelude.Int.{ℤ, is_pos}
use smtx_lab.Api.Network.{LabPhase}
use smtx_lab.Controller.Finalizers.{has_finalizer, add_finalizer}
use smtx_lab.Controller.Status.{
  phase_of, NetworkRunResult, OutputSpec, next_status, requeues, LabMeta, ReconcileStep,
  reconcile_step, network_probe_lab_finalizer,
}

-- What it takes for a lab to succeed.
abbrev pub HasSucceeded : {N P : Type 0} → NetworkRunResult N P → Option Text → Type 0
HasSucceeded run err = (err ≡ none) × (run.pending ≡ false) × (is_pos run.summary.failed ≡ false)

abbrev is_succeeded : LabPhase → Bool
is_succeeded LabPhase.pending = false
is_succeeded LabPhase.running = false
is_succeeded LabPhase.succeeded = true
is_succeeded LabPhase.failed = false

abbrev is_running : LabPhase → Bool
is_running LabPhase.pending = false
is_running LabPhase.running = true
is_running LabPhase.succeeded = false
is_running LabPhase.failed = false

abbrev phase_of_tests : Bool → Bool → LabPhase
phase_of_tests waiting failing =
    if waiting then LabPhase.running else if failing then LabPhase.failed else LabPhase.succeeded

tests_succeeded :
    (waiting failing : Bool)
    → is_succeeded (phase_of_tests waiting failing) ≡ true
    → (waiting ≡ false) × (failing ≡ false)
tests_succeeded true failing h = cc
tests_succeeded false true h = cc
tests_succeeded false false h = (refl, refl)

tests_running : (waiting failing : Bool) → is_running (phase_of_tests waiting failing) ≡ waiting
tests_running true failing = refl
tests_running false true = refl
tests_running false false = refl

waiting_runs :
    (waiting failing : Bool) → waiting ≡ true → phase_of_tests waiting failing ≡ LabPhase.running
waiting_runs waiting failing h = rw h refl

-- A lab's phase is `Succeeded` just where the run returned no error, waits for no job, and counts no
-- failed check.
pub next_status_succeeded_iff :
    {N P : Type 0} (output : OutputSpec) (lab_name : Text) (generation : ℤ)
    (run : NetworkRunResult N P) (err : Option Text)
    → ((next_status output lab_name generation run err).phase ≡ LabPhase.succeeded)
      ↔ HasSucceeded run err
unfolding next_status phase_of
next_status_succeeded_iff output lab_name generation run none = (
  λ h.
      let t = tests_succeeded run.pending (is_pos run.summary.failed) (ap is_succeeded h) in
      (refl, t.0, t.1),
  λ h. rw (h.1, h.2) refl,
)
next_status_succeeded_iff output lab_name generation run (some e) =
    (λ h. absurd (differ (ap is_succeeded h)), λ h. absurd (some_error h.0))
  where
    differ : false ≡ true → ⊥
    differ h = cc

    some_error : some e ≡ none → ⊥
    some_error h = cc

-- The reconciler asks to be called again just where the phase that it writes is `Running`.
pub requeues_iff_running :
    {N P : Type 0} (output : OutputSpec) (lab_name : Text) (generation : ℤ)
    (run : NetworkRunResult N P) (err : Option Text)
    → (requeues output lab_name generation run err ≡ true)
      ↔ ((next_status output lab_name generation run err).phase ≡ LabPhase.running)
unfolding next_status phase_of requeues
requeues_iff_running output lab_name generation run none = (
  waiting_runs run.pending (is_pos run.summary.failed),
  λ h. sym (tests_running run.pending (is_pos run.summary.failed)) ∙ ap is_running h,
)
requeues_iff_running output lab_name generation run (some e) =
    (λ h. absurd (differ h), λ h. ap is_running h)
  where
    differ : false ≡ true → ⊥
    differ h = cc

-- The probes are run just for an object that is not being deleted and that has the finalizer already,
-- whatever a clean-up would give.
pub reconcile_step_runs_iff :
    (cleanup : Option Text) (lab : LabMeta)
    → (reconcile_step cleanup lab ≡ ReconcileStep.run_probes)
      ↔ ((lab.deleting ≡ false) × (has_finalizer lab.finalizers network_probe_lab_finalizer ≡ true))
unfolding reconcile_step add_finalizer
reconcile_step_runs_iff cleanup lab = ground arith

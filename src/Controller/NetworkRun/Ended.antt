-- ===== src/Controller/NetworkRun/Ended.antt =====
-- The end of `Reconcile` of internal/controller/networkprobelab_controller.go: what is written of the
-- status, and the requeue.
use smtx_lab.Prelude.{
  ◌≡◌, refl, sym, ◌∙◌, ◌⊎◌, inl, inr, ◌↔◌, Bool, true, false, arith, nat_eq, text_eq, Bool-cases,
}
use smtx_lab.Api.Network.{LabPhase, NetworkNodeResult, NetworkProbeResult}
use smtx_lab.Controller.Client.{Result, ok, err, Call}
use smtx_lab.Controller.Objects.{ApiServer, Stores}
use smtx_lab.Controller.Status.{
  NextStatus, Requeue, no_requeue, requeue_after_10s, requeue_if, next_status, requeues,
  write_status,
}
use smtx_lab.Controller.Status.Phases.{requeues_iff_running}
use smtx_lab.Controller.NetworkRun.Listed.{Listing}
use smtx_lab.Controller.NetworkRun.{NetworkProbeLab, RunEnv, run_network_probe, reconcile_run}

requeue_if_iff : (test : Bool) → (requeue_if test ≡ requeue_after_10s) ↔ (test ≡ true)
requeue_if_iff true = (λ h. refl, λ h. refl)
requeue_if_iff false = (λ h. absurd (differ h), λ h. cc)
  where
    after_10s : Requeue → Bool
    after_10s no_requeue = false
    after_10s requeue_after_10s = true

    differ : no_requeue ≡ requeue_after_10s → ⊥
    differ h = cc

module _ {N P W : Type 0} (same_status : NextStatus N P → Bool)
    (update_status : NextStatus N P → Call W (Unit {0})) where
  -- The status is there already, or it has been written.
  abbrev pub IsLeft : NextStatus N P → W → W → Type 0
  IsLeft next before after =
      ((same_status next ≡ true) × (after ≡ before))
      ⊎ ((same_status next ≡ false) × (update_status next before ≡ (ok tt, after)))

  by_answer :
      (next : NextStatus N P) (requeue : Bool) (w : W) (answer : Result (Unit {0}) × W)
      (r : Requeue) (w2 : W)
      → same_status next ≡ false
      → update_status next w ≡ answer
      → write_status same_status update_status next requeue w ≡ (ok r, w2)
      → (r ≡ requeue_if requeue) × IsLeft next w w2
  unfolding write_status
  by_answer next requeue w (ok tt, after) r w2 p q h = ground arith
  by_answer next requeue w (err e, after) r w2 p q h = ground arith

  write_status_ends :
      (next : NextStatus N P) (requeue : Bool) (w : W) (r : Requeue) (w2 : W)
      → write_status same_status update_status next requeue w ≡ (ok r, w2)
      → (r ≡ requeue_if requeue) × IsLeft next w w2
  unfolding write_status
  write_status_ends next requeue w r w2 h = elim (Bool-cases (same_status next)) [
    | inl p ↦ ground arith
    | inr p ↦ by_answer next requeue w (update_status next w) r w2 p refl h
  ]

module _ {F : Type 0} (listing : Listing) (env : RunEnv F) {Lab : Type 0} (api : ApiServer Lab)
    (lab : NetworkProbeLab) where
  abbrev pub Status : Type 0
  Status = NextStatus NetworkNodeResult (NetworkProbeResult F)

  -- Where the reconciliation returns no error, the status that the run gives is the one that the lab
  -- has, and nothing more is stored than by the run, or the status update of it succeeded. The
  -- reconciler asks to be called again after 10 seconds just where the phase of that status is
  -- `Running`.
  pub reconcile_run_ends :
      (same_status : Status → Bool) (update_status : Status → Call (Stores Lab api) (Unit {0}))
      (w w2 : Stores Lab api) (r : Requeue)
      → reconcile_run listing env api lab same_status update_status w ≡ (ok r, w2)
      → (next : Status) × (next
          ≡ next_status lab.output lab.name lab.generation
              (run_network_probe listing env api lab w).0.0
              (run_network_probe listing env api lab w).0.1)
        × IsLeft same_status update_status next (run_network_probe listing env api lab w).1 w2
        × ((r ≡ requeue_after_10s) ↔ (next.phase ≡ LabPhase.running))
  unfolding reconcile_run
  reconcile_run_ends same_status update_status w w2 r h =
      let ((run, e), w1) = run_network_probe listing env api lab w in
      let next = next_status lab.output lab.name lab.generation run e in
      let requeue = requeues lab.output lab.name lab.generation run e in
      let (p, left) = write_status_ends same_status update_status next requeue w1 r w2 h in
      let (to, from) = requeue_if_iff requeue in
      let (runs, waits) = requeues_iff_running lab.output lab.name lab.generation run e in
      (next, refl, left, (λ q. runs (to (sym p ∙ q)), λ q. p ∙ from (waits q)))

-- ===== src/Controller/NetworkRun/Counted.antt =====
-- `runNetworkProbe` of internal/controller/networkprobelab_controller.go, by its counts.
use mathlib.Core.Path.{subst}
use smtx_lab.Prelude.{
  ℕ, ◌+◌, ◌^◌, ◌<◌, ◌≡◌, refl, ap, ◌∙◌, ◌⊎◌, inl, inr, true, false, Option, none, some, List, [],
  ◌∷◌, arith, if◌then◌else◌, nat_eq, text_eq, Bool-cases, if_both, length, All, Text, is_empty,
  Dict,
}
use smtx_lab.Prelude.Int.{pos, ◌+ℤ◌, wrap32}
use smtx_lab.Api.Network.{LabPhase, NetworkProbeSummary, NetworkProbeResult, NetworkNodeResult}
use smtx_lab.Agent.Types.{Snapshot}
use smtx_lab.Probe.{Report}
use smtx_lab.Controller.Client.{Result, ok, err}
use smtx_lab.Controller.Objects.{ApiServer, Stores}
use smtx_lab.Controller.Checks.{Check, Pod, Service, build_probe_checks}
use smtx_lab.Controller.Jobs.{Outcome}
use smtx_lab.Controller.Status.{NetworkRunResult, OutputSpec, next_status}
use smtx_lab.Controller.Status.Phases.{HasSucceeded, next_status_succeeded_iff}
use smtx_lab.Controller.NetworkRun.Listed.{
  Node, Listing, list_probe_pods, list_probe_services, list_observation_nodes,
}
use smtx_lab.Controller.NetworkRun.{
  NetworkProbeLab, RunEnv, count_result, count_results, with_results, finish_run, after_raw,
  observe_nodes, after_jobs, run_listed, run_network_probe, counted_checks,
}

plus_one : (a : ℕ) → a + 1 < 2 ^ 31 → wrap32 (pos a +ℤ pos 1) ≡ pos (a + 1)
unfolding wrap32 ◌+ℤ◌
plus_one a h = ground arith

module _ {F : Type 0} where
  abbrev pub successes : List (NetworkProbeResult F) → ℕ
  successes [] = 0
  successes (r ∷ rs) = (if r.success then 1 else 0) + successes rs

  abbrev pub failures : List (NetworkProbeResult F) → ℕ
  failures [] = 0
  failures (r ∷ rs) = (if r.success then 0 else 1) + failures rs

  no_failures :
      (rs : List (NetworkProbeResult F)) → failures rs ≡ 0 → All (λ r. r.success ≡ true) rs
  no_failures [] h = tt
  no_failures (r ∷ rs) h = ground (arith, no_failures rs)

  all_succeed : (rs : List (NetworkProbeResult F)) → failures rs ≡ 0 → successes rs ≡ length rs
  all_succeed [] h = refl
  all_succeed (r ∷ rs) h = ground (arith, all_succeed rs)

  counted_success :
      (r : NetworkProbeResult F) (s : NetworkProbeSummary) (a b : ℕ)
      → r.success ≡ true
      → s.succeeded ≡ pos a
      → s.failed ≡ pos b
      → a + 1 < 2 ^ 31
      → ((count_result r s).succeeded ≡ pos (a + 1)) × ((count_result r s).failed ≡ pos b)
  unfolding count_result
  counted_success r s a b e p q h = rw e (rw p (plus_one a h), q)

  counted_failure :
      (r : NetworkProbeResult F) (s : NetworkProbeSummary) (a b : ℕ)
      → r.success ≡ false
      → s.succeeded ≡ pos a
      → s.failed ≡ pos b
      → b + 1 < 2 ^ 31
      → ((count_result r s).succeeded ≡ pos a) × ((count_result r s).failed ≡ pos (b + 1))
  unfolding count_result
  counted_failure r s a b e p q h = rw e (p, rw q (plus_one b h))

  -- What the loop counts, from a number of successes and of failures.
  counts :
      (rs : List (NetworkProbeResult F)) (s : NetworkProbeSummary) (a b : ℕ)
      → s.succeeded ≡ pos a
      → s.failed ≡ pos b
      → a + b + length rs < 2 ^ 31
      → ((count_results rs s).succeeded ≡ pos (a + successes rs))
        × ((count_results rs s).failed ≡ pos (b + failures rs))
  unfolding count_results
  counts [] s a b p q h = (p ∙ ap pos (omega arith), q ∙ ap pos (omega arith))
  counts (r ∷ rs) s a b p q h = elim (Bool-cases r.success) [
    | inl e ↦
        let (u, v) = counted_success r s a b e p q (omega arith) in
        let (x, y) = counts rs (count_result r s) (a + 1) b u v (omega arith) in
        (x ∙ ap pos (rw e (omega arith)), y ∙ ap pos (rw e (omega arith)))
    | inr e ↦
        let (u, v) = counted_failure r s a b e p q (omega arith) in
        let (x, y) = counts rs (count_result r s) a (b + 1) u v (omega arith) in
        (x ∙ ap pos (rw e (omega arith)), y ∙ ap pos (rw e (omega arith)))
  ]

  -- The summary of a run that ended, or that waits for its jobs.
  abbrev IsCounted : NetworkRunResult NetworkNodeResult (NetworkProbeResult F) → Type 0
  IsCounted run =
      (run.pending ≡ true)
      ⊎ ((s : NetworkProbeSummary) × (s.succeeded ≡ pos 0)
          × (s.failed ≡ pos 0)
          × (run.summary.succeeded ≡ (count_results run.probe_results s).succeeded)
          × (run.summary.failed ≡ (count_results run.probe_results s).failed))

  abbrev EndsCounted :
      {W : Type 0}
      → (NetworkRunResult NetworkNodeResult (NetworkProbeResult F) × Option Text) × W
      → Type 0
  EndsCounted ((run, some e), w) = Unit
  EndsCounted ((run, none), w) = IsCounted run

  module _ (listing : Listing) (env : RunEnv F) {Lab : Type 0} (api : ApiServer Lab)
      (lab : NetworkProbeLab) where
    abbrev Run : Type 0
    Run = NetworkRunResult NetworkNodeResult (NetworkProbeResult F)

    abbrev Uncounted : Run → Type 0
    Uncounted run = (run.summary.succeeded ≡ pos 0) × (run.summary.failed ≡ pos 0)

    ends_counted :
        (run : Run) (e : Option Text) (w : Stores Lab api)
        → IsCounted run
        → EndsCounted ((run, e), w)
    ends_counted run none w h = h
    ends_counted run (some e) w h = tt

    finish_run_counted :
        (pods : List Pod) (services : List Service) (nodes : List Node) (snapshots : List Snapshot)
        (reports : List (Report F)) (run : Run) (refs : Dict Text Text) (w : Stores Lab api)
        → Uncounted run
        → EndsCounted
            (finish_run listing env api lab pods services nodes snapshots reports run refs w)
    unfolding finish_run with_results
    finish_run_counted pods services nodes snapshots reports run refs w (p, q) =
        let done =
          finish_run listing env api lab pods services nodes snapshots reports run refs w in
        ends_counted done.0.0 done.0.1 done.1 (inr (run.summary, p, q, refl, refl))

    after_raw_counted :
        (pods : List Pod) (services : List Service) (nodes : List Node) (snapshots : List Snapshot)
        (reports : List (Report F)) (run : Run)
        (r : Result (Dict Text Text × List Text) × Stores Lab api)
        → Uncounted run
        → EndsCounted (after_raw listing env api lab pods services nodes snapshots reports run r)
    unfolding after_raw
    after_raw_counted pods services nodes snapshots reports run (ok (refs, names), w) u =
        finish_run_counted pods services nodes snapshots reports _ refs w u
    after_raw_counted pods services nodes snapshots reports run (err e, w) u = tt

    observe_nodes_counted :
        (pods : List Pod) (services : List Service) (reports : List (Report F)) (run : Run)
        (nodes : Result (List Node)) (w : Stores Lab api)
        → Uncounted run
        → EndsCounted (observe_nodes listing env api lab pods services reports run nodes w)
    unfolding observe_nodes
    observe_nodes_counted pods services reports run (err e) w u = tt
    observe_nodes_counted pods services reports run (ok nodes) w u =
        if_both EndsCounted lab.output.retain_raw_snapshots
          (λ e. after_raw_counted pods services nodes _ reports run _ u)
          (λ e. finish_run_counted pods services nodes _ reports run [] w u)

    after_jobs_counted :
        (pods : List Pod) (services : List Service) (checks : List Check) (o : Outcome (Report F))
        (w : Stores Lab api)
        → EndsCounted (after_jobs listing env api lab pods services checks o w)
    unfolding after_jobs
    after_jobs_counted pods services checks o w = by_error o.error
      where
        by_error :
            (error : Option Text)
            → EndsCounted (elim error as (λ x. (Run × Option Text) × Stores Lab api) [
              | some e ↦ (
                (
                  record (counted_checks listing env api lab checks) { pending = o.is_pending },
                  some e,
                ),
                w,
              )
              | none ↦
                  if o.is_pending
                  then (
                    (record (counted_checks listing env api lab checks) { pending = true }, none),
                    w,
                  )
                  else observe_nodes listing env api lab pods services o.read
                      (counted_checks listing env api lab checks)
                      (list_observation_nodes listing lab.target.node_selector checks)
                      w
            ])
        by_error (some e) = tt
        by_error none =
            if_both EndsCounted o.is_pending (λ e. inl refl)
              (λ e. observe_nodes_counted pods services o.read _ _ w (refl, refl))

    run_listed_counted :
        (pods : Result (List Pod)) (services : Result (List Service)) (w : Stores Lab api)
        → EndsCounted (run_listed listing env api lab pods services w)
    unfolding run_listed
    run_listed_counted (err e) services w = tt
    run_listed_counted (ok pods) (err e) w = tt
    run_listed_counted (ok pods) (ok services) w =
        if_both EndsCounted (is_empty pods) (λ e. tt)
          λ e.
            if_both EndsCounted
              (is_empty (build_probe_checks env.cluster_ip_none lab.traffic pods services))
              (λ q. tt) (λ q. after_jobs_counted pods services _ _ w)

    succeeded_counts :
        (output : OutputSpec) (run : Run)
        → IsCounted run
        → HasSucceeded run none
        → length run.probe_results < 2 ^ 31
        → All (λ r. r.success ≡ true) run.probe_results
          × (run.summary.succeeded ≡ pos (length run.probe_results))
    succeeded_counts output run (inl p) (n, q, z) h = cc
    succeeded_counts output run (inr (s, a, b, c, d)) (n, q, z) h =
        let (x, y) = counts run.probe_results s 0 0 a b (omega arith) in
        let none_failed : failures run.probe_results ≡ 0 = ground (arith, d, y, z) in
        (
          no_failures run.probe_results none_failed,
          c ∙ (x ∙ ap pos (ground (arith, all_succeed run.probe_results none_failed))),
        )

    -- Where the status of a NetworkProbeLab becomes Succeeded, by a run with fewer than 2 ^ 31 probe
    -- results, every probe result reports success, and they are as many as the summary says.
    pub run_network_probe_succeeded :
        (output : OutputSpec) (run : Run) (e : Option Text) (w w2 : Stores Lab api)
        → run_network_probe listing env api lab w ≡ ((run, e), w2)
        → (next_status output lab.name lab.generation run e).phase ≡ LabPhase.succeeded
        → length run.probe_results < 2 ^ 31
        → All (λ r. r.success ≡ true) run.probe_results
          × (run.summary.succeeded ≡ pos (length run.probe_results))
    unfolding run_network_probe
    run_network_probe_succeeded output run (some m) w w2 h p l = absurd (not_failed p)
      where
        not_failed :
            (next_status output lab.name lab.generation run (some m)).phase ≡ LabPhase.succeeded → ⊥
        not_failed q =
            let (n, x, y) =
              (next_status_succeeded_iff output lab.name lab.generation run (some m)).0 q in
            cc
    run_network_probe_succeeded output run none w w2 h p l =
        succeeded_counts output run
          (subst EndsCounted h (
            run_listed_counted (list_probe_pods listing lab.target)
              (list_probe_services listing lab.target) w))
          ((next_status_succeeded_iff output lab.name lab.generation run none).0 p) l

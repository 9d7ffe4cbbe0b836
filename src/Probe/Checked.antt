-- ===== src/Probe/Checked.antt =====
-- `runCheck` of cmd/probe/main.go: its loop.
use smtx_lab.Prelude.{
  ℕ, zero, suc, ◌+◌, ◌<◌, ◌≡◌, refl, sym, ap, ◌∙◌, ◌⊎◌, inl, inr, true, false, Option, none, some,
  List, [], ◌∷◌, ◌++◌, append-nil, append_assoc, arith, nat_eq, text_eq, all, Text,
}
use mathlib.Core.Path.{subst}
use smtx_lab.Prelude.Int.{ℤ}
use smtx_lab.Prelude.Results.{Result, ok, err}
use smtx_lab.Analyzer.Float.{Float}
use smtx_lab.Controller.Checks.{Check}
use smtx_lab.Probe.{
  Network, CheckResult, probe_once, Rounds, rounds_from, percentile, result_of, run_check,
}

module _ (f : Float) (net : Network f.F) (check : Check) (timeout : ℤ) where
  -- The exchanges from `n` on up to a number of them, which all succeeded.
  abbrev pub AllOk : ℕ → ℕ → Type 0
  AllOk zero n = Unit
  AllOk (suc rounds) n = (probe_once f net n check timeout ≡ ok tt) × AllOk rounds (n + 1)

  -- The latencies of as many exchanges from `n` on.
  abbrev pub latencies_from : ℕ → ℕ → List f.F
  latencies_from zero n = []
  latencies_from (suc rounds) n = net.latency n ∷ latencies_from rounds (n + 1)

  -- How a loop over `count` exchanges from `n` on ends, after `made` that succeeded: it made them all,
  -- or the next one failed and was the last.
  abbrev pub HasEnded : ℕ → ℕ → ℕ → Option Text → ℕ → Type 0
  HasEnded count n made none next = (made ≡ count) × (next ≡ n + count)
  HasEnded count n made (some e) next =
      (made < count) × (probe_once f net (n + made) check timeout ≡ err e) × (next ≡ n + made + 1)

  -- The outcome of a check, and the number of the exchange after its last.
  pub record IsChecked (count n : ℕ) (result : CheckResult f.F) (next : ℕ) : Type 0 where
    pub made : ℕ
    pub succeeded : AllOk made n
    pub ended :
        ((result.success ≡ true) × (result.error ≡ []) × HasEnded count n made none next)
        ⊎ ((result.success ≡ false) × HasEnded count n made (some result.error) next)
    pub p50 : result.latency_ms_p50 ≡ percentile f net (latencies_from made n) (f.literal 50 100)
    pub p95 : result.latency_ms_p95 ≡ percentile f net (latencies_from made n) (f.literal 95 100)

  -- What the loop ends with, where `before` are the latencies so far.
  abbrev Ended : ℕ → ℕ → List f.F → Rounds f net → Type 0
  Ended rounds n before (latencies, e, next) =
      (made : ℕ) × AllOk made n
      × HasEnded rounds n made e next
      × (latencies ≡ before ++ latencies_from made n)

  HasEnded-suc :
      (rounds n made : ℕ) (o : Option Text) (next : ℕ)
      → HasEnded rounds (n + 1) made o next
      → HasEnded (suc rounds) n (suc made) o next
  HasEnded-suc rounds n made none next (p, q) = (omega arith, omega arith)
  HasEnded-suc rounds n made (some e) next (l, p, q) = (
    omega arith,
    subst (λ m. probe_once f net m check timeout ≡ err e) (omega arith) p,
    omega arith,
  )

  step_Ended :
      (rounds n : ℕ) (before : List f.F) (rest : Rounds f net)
      → probe_once f net n check timeout ≡ ok tt
      → Ended rounds (n + 1) (before ++ net.latency n ∷ []) rest
      → Ended (suc rounds) n before rest
  step_Ended rounds n before (latencies, e, next) p (made, all, h, same) = (
    suc made,
    (p, all),
    HasEnded-suc rounds n made e next h,
    same ∙ append_assoc before (net.latency n ∷ []) (latencies_from made (n + 1)),
  )

  failed_Ended :
      (rounds n : ℕ) (before : List f.F) (e : Text)
      → probe_once f net n check timeout ≡ err e
      → Ended (suc rounds) n before (before, some e, n + 1)
  failed_Ended rounds n before e p = (
    0,
    tt,
    (
      omega arith,
      subst (λ m. probe_once f net m check timeout ≡ err e) (omega arith) p,
      omega arith,
    ),
    sym (append-nil before),
  )

  by_exchange :
      (rounds n : ℕ) (before : List f.F) (rest : Rounds f net) (r : Result (Unit {0}))
      → probe_once f net n check timeout ≡ r
      → Ended rounds (n + 1) (before ++ net.latency n ∷ []) rest
      → Ended
          (suc rounds)
          n
          before
          (elim r as (λ x. Rounds f net) [ ok _ ↦ rest | err e ↦ (before, some e, n + 1) ])
  by_exchange rounds n before rest (ok tt) p h = step_Ended rounds n before rest p h
  by_exchange rounds n before rest (err e) p h = failed_Ended rounds n before e p

  rounds_from-Ended :
      (rounds n : ℕ) (before : List f.F)
      → Ended rounds n before (rounds_from f net rounds n check timeout before)
  unfolding rounds_from
  rounds_from-Ended zero n before = (0, tt, (refl, omega arith), sym (append-nil before))
  rounds_from-Ended (suc rounds) n before =
      by_exchange rounds n before _ (probe_once f net n check timeout) refl
        (rounds_from-Ended rounds (n + 1) (before ++ net.latency n ∷ []))

  result_of-IsChecked :
      (count n : ℕ) (latencies : List f.F) (o : Option Text) (next : ℕ)
      → Ended count n [] (latencies, o, next)
      → IsChecked count n (result_of f net check (latencies, o)) next
  unfolding result_of
  result_of-IsChecked count n latencies none next (made, all, h, same) = record {
    made = made;
    succeeded = all;
    ended = inl (refl, refl, h);
    p50 = ap (λ l. percentile f net l (f.literal 50 100)) same;
    p95 = ap (λ l. percentile f net l (f.literal 95 100)) same;
  }
  result_of-IsChecked count n latencies (some e) next (made, all, h, same) = record {
    made = made;
    succeeded = all;
    ended = inr (refl, h);
    p50 = ap (λ l. percentile f net l (f.literal 50 100)) same;
    p95 = ap (λ l. percentile f net l (f.literal 95 100)) same;
  }

  -- A check makes either all its exchanges, which all succeed, and reports success with no error; or
  -- it makes fewer that succeed and one that fails, no other after that, and reports failure with its
  -- error. The two latencies are the percentiles of the latencies of just those that succeeded.
  pub run_check-IsChecked :
      (count n : ℕ)
      → IsChecked count n
          (run_check f net n check count timeout).0
          (run_check f net n check count timeout).1
  unfolding run_check
  run_check-IsChecked count n =
      let rounds = rounds_from f net count n check timeout [] in
      result_of-IsChecked count n rounds.0 rounds.1 rounds.2 (rounds_from-Ended count n [])

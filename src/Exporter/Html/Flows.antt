-- ===== src/Exporter/Html/Flows.antt =====
-- `representativeNetworkFlows` of internal/exporter/html.go: the results that its flows stand for.
use smtx_lab.Prelude.{
  sort_slice-Memᴰ, ◌≡◌, refl, sym, ap, ◌∙◌, inl, inr, true, not, ◌&&◌, ◌||◌, Option, none, some,
  List, [], ◌∷◌, map, arith, if◌then◌else◌, ◌==◌, eq_iff, eq_refl, nat_eq, text_eq, Bool-cases,
  if_both, filter, All, All-mono, Text, Dict, lookup, insert, lookup-insert,
}
use mathlib.Core.List.{Memᴰ}
use smtx_lab.Api.Network.{NetworkProbeResult}
use smtx_lab.Exporter.Html.{
  topology_key, is_tcp, replaces, by_topology, flow_less, representative_network_flows,
}

-- The flow has the topology of the result, and is a TCP flow where the result is one.
pub record StandsFor (F : Type 0) (result flow : NetworkProbeResult F) : Type 0 where
  pub topology : topology_key flow ≡ topology_key result
  pub tcp : (not (is_tcp result) || is_tcp flow) ≡ true

some_inj : {A : Type 0} {a b : A} → some a ≡ some b → a ≡ b
some_inj h = cc

none-ne-some :
    {F : Type 0} (k : Text) (flow : NetworkProbeResult F)
    → lookup {V = NetworkProbeResult F} k [] ≡ some flow
    → topology_key flow ≡ k
unfolding lookup
none-ne-some k flow h = cc

module _ {F : Type 0} where
  -- A flow that is kept stands for the result.
  abbrev Covered : Dict Text (NetworkProbeResult F) → NetworkProbeResult F → Type 0
  Covered flows result =
      (flow : NetworkProbeResult F) × (lookup (topology_key result) flows ≡ some flow)
      × StandsFor F result flow

  abbrev Keyed : Dict Text (NetworkProbeResult F) → Type 0
  Keyed flows =
      (k : Text) (flow : NetworkProbeResult F) → lookup k flows ≡ some flow → topology_key flow ≡ k

  self : (result : NetworkProbeResult F) → StandsFor F result result
  self result = record { topology = refl; tcp = ground arith }

  -- What is kept after the next result of the path.
  abbrev kept_after :
      NetworkProbeResult F → Dict Text (NetworkProbeResult F) → Dict Text (NetworkProbeResult F)
  kept_after result flows =
      if replaces result (lookup (topology_key result) flows)
      then insert (topology_key result) result flows
      else flows

  module _ (result : NetworkProbeResult F) (flows : Dict Text (NetworkProbeResult F))
      (keyed : Keyed flows) where
    inserted_Keyed : Keyed (insert (topology_key result) result flows)
    inserted_Keyed k flow h = elim (Bool-cases (topology_key result == k)) [
      | inl e ↦
          let same : result ≡ flow =
            some_inj (rw e at (sym (lookup-insert (topology_key result) k result flows) ∙ h)) in
          ap topology_key (sym same) ∙ (eq_iff (topology_key result) k).0 e
      | inr e ↦
          keyed k flow (rw e at (sym (lookup-insert (topology_key result) k result flows) ∙ h))
    ]

    kept_after-Keyed : Keyed (kept_after result flows)
    kept_after-Keyed =
        if_both Keyed (replaces result (lookup (topology_key result) flows)) (λ e. inserted_Keyed)
          (λ e. keyed)

    inserted_own : Covered (insert (topology_key result) result flows) result
    inserted_own = (
      result,
      lookup-insert (topology_key result) (topology_key result) result flows
          ∙ rw (eq_refl (topology_key result)) refl,
      self result,
    )

    covers_own : Covered (kept_after result flows) result
    unfolding replaces
    covers_own = by_lookup (lookup (topology_key result) flows) refl
      where
        by_lookup :
            (o : Option (NetworkProbeResult F))
            → lookup (topology_key result) flows ≡ o
            → Covered
                (if replaces result o then insert (topology_key result) result flows else flows)
                result
        by_lookup none h = inserted_own
        by_lookup (some e) h =
            if_both (λ kept. Covered kept result) (not (is_tcp e) && is_tcp result)
              (λ q. inserted_own)
              (λ q.
                (e, h, record { topology = keyed (topology_key result) e h; tcp = ground arith }))

    covers_other :
        (other : NetworkProbeResult F)
        → Covered flows other
        → Covered (kept_after result flows) other
    unfolding replaces
    covers_other other (flow, h, c) =
        elim (Bool-cases (topology_key result == topology_key other)) [
          | inl e ↦ same_topology e
          | inr e ↦
              if_both (λ kept. Covered kept other)
                (replaces result (lookup (topology_key result) flows))
                (λ q. (
                  flow,
                  lookup-insert (topology_key result) (topology_key other) result flows
                      ∙ (rw e refl ∙ h),
                  c,
                ))
                (λ q. (flow, h, c))
        ]
      where
        same_topology :
            (topology_key result == topology_key other) ≡ true
            → Covered (kept_after result flows) other
        same_topology e =
            let same : topology_key result ≡ topology_key other =
              (eq_iff (topology_key result) (topology_key other)).0 e in
            let own : lookup (topology_key result) flows ≡ some flow = rw same h in
            rw own (
              if_both (λ kept. Covered kept other) (not (is_tcp flow) && is_tcp result)
                (λ q. (
                  result,
                  lookup-insert (topology_key result) (topology_key other) result flows ∙ rw e refl,
                  record { topology = same; tcp = ground arith },
                ))
                (λ q. (flow, h, c)))

  module _ (path : Text) where
    -- The results of the path.
    abbrev pub on_path : List (NetworkProbeResult F) → List (NetworkProbeResult F)
    on_path = filter (λ result. result.path == path)

    by_topology-covers :
        (results seen : List (NetworkProbeResult F)) (flows : Dict Text (NetworkProbeResult F))
        → Keyed flows
        → All (Covered flows) seen
        → All (Covered (by_topology results path flows)) (on_path results)
          × All (Covered (by_topology results path flows)) seen
    unfolding by_topology filter
    by_topology-covers [] seen flows k h = (tt, h)
    by_topology-covers (result ∷ results) seen flows k h = elim (Bool-cases (result.path == path)) [
      | inl e ↦
          let own = covers_own result flows k in
          let others =
            All-mono (Covered flows) (Covered (kept_after result flows))
              (λ other. covers_other result flows k other) seen h in
          let (later, (this, before)) =
            by_topology-covers results (result ∷ seen) (kept_after result flows)
              (kept_after-Keyed result flows k) (own, others) in
          rw e ((this, later), before)
      | inr e ↦ rw e (by_topology-covers results seen flows k h)
    ]

    lookup-Memᴰ :
        (k : Text) (flows : Dict Text (NetworkProbeResult F)) (flow : NetworkProbeResult F)
        → lookup k flows ≡ some flow
        → Memᴰ flow (map (λ entry. entry.1) flows)
    unfolding lookup
    lookup-Memᴰ k [] flow h = cc
    lookup-Memᴰ k ((j, f) ∷ flows) flow h = elim (Bool-cases (j == k)) [
      | inl e ↦ Memᴰ.head (sym (some_inj (rw e at h)))
      | inr e ↦ Memᴰ.tail (lookup-Memᴰ k flows flow (rw e at h))
    ]

    -- Every result of the path is represented: among the flows is one of its topology, which is a TCP
    -- flow where the result is one.
    pub representative_network_flows_cover :
        (results : List (NetworkProbeResult F))
        → All
            (λ result.
              (flow : NetworkProbeResult F) × Memᴰ flow (representative_network_flows results path)
              × StandsFor F result flow)
            (on_path results)
    unfolding representative_network_flows
    representative_network_flows_cover results =
        let flows = by_topology results path [] in
        All-mono (Covered flows) _
          (λ result (flow, h, c). (
            flow,
            sort_slice-Memᴰ flow_less flow (map (λ entry. entry.1) flows)
                (lookup-Memᴰ (topology_key result) flows flow h),
            c,
          ))
          (on_path results)
          (by_topology-covers results [] [] (λ k flow h. none-ne-some k flow h) tt).0

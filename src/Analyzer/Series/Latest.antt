-- ===== src/Analyzer/Series/Latest.antt =====
-- `latestSample` of internal/analyzer/resource_series.go.
use mathlib.Core.List.{Memᴰ}
use smtx_lab.Prelude.{
  ◌≡◌, refl, ◌⊎◌, inl, inr, none, some, List, [], ◌∷◌, arith, nat_eq, text_eq, if_both, All,
}
use smtx_lab.Prelude.Int.{leb_ℤ, ◌≤ℤ◌}
use smtx_lab.Analyzer.Float.{Float}
use smtx_lab.Analyzer.Resource.{SamplePoint}
use smtx_lab.Analyzer.Series.Usage.{later_sample, latest_sample}

-- The latest of some samples: one of them, with no sample of a later time.
pub record IsLatest (f : Float) (samples : List (SamplePoint f)) (s : SamplePoint f) : Type 0 where
  pub is_one : Memᴰ s samples
  pub is_last : All (λ t. t.timestamp ≤ℤ s.timestamp) samples

-- What the loop makes of `latest` and the samples that are left.
record IsLater (f : Float) (latest : SamplePoint f) (samples : List (SamplePoint f))
    (r : SamplePoint f) : Type 0 where
  found : (r ≡ latest) ⊎ Memᴰ r samples
  not_before : latest.timestamp ≤ℤ r.timestamp
  last : All (λ t. t.timestamp ≤ℤ r.timestamp) samples

later_sample-IsLater :
    (f : Float) (latest : SamplePoint f) (samples : List (SamplePoint f))
    → IsLater f latest samples (later_sample f latest samples)
unfolding later_sample
later_sample-IsLater f latest [] = record { found = inl refl; not_before = omega arith; last = tt }
later_sample-IsLater f latest (sample ∷ samples) =
    if_both (λ v. IsLater f latest (sample ∷ samples) (later_sample f v samples))
      (leb_ℤ latest.timestamp sample.timestamp)
      (λ e.
        let below = later_sample-IsLater f sample samples in
        let older : latest.timestamp ≤ℤ sample.timestamp = ground (arith, e) in
        record {
          found = inr (newer below.found);
          not_before = omega (arith, below.not_before, older);
          last = (below.not_before, below.last);
        })
      (λ e.
        let below = later_sample-IsLater f latest samples in
        let older : sample.timestamp ≤ℤ latest.timestamp = ground (arith, e) in
        record {
          found = kept below.found;
          not_before = below.not_before;
          last = (omega (arith, below.not_before, older), below.last);
        })
  where
    newer : {r : SamplePoint f} → (r ≡ sample) ⊎ Memᴰ r samples → Memᴰ r (sample ∷ samples)
    newer (inl q) = Memᴰ.head q
    newer (inr m) = Memᴰ.tail m

    kept :
        {r : SamplePoint f}
        → (r ≡ latest) ⊎ Memᴰ r samples
        → (r ≡ latest) ⊎ Memᴰ r (sample ∷ samples)
    kept (inl q) = inl q
    kept (inr m) = inr (Memᴰ.tail m)

-- `latestSample` finds nothing only where there is no sample, and else a sample of the list that no
-- sample of the list is later than.
pub latest_sample-IsLatest :
    (f : Float) (samples : List (SamplePoint f))
    → ((samples ≡ []) × (latest_sample f samples ≡ none))
      ⊎ ((s : SamplePoint f) × (latest_sample f samples ≡ some s) × IsLatest f samples s)
unfolding latest_sample
latest_sample-IsLatest f [] = inl (refl, refl)
latest_sample-IsLatest f (sample ∷ samples) =
    let r = later_sample-IsLater f sample samples in
    inr (
      later_sample f sample samples,
      refl,
      record { is_one = one r.found; is_last = (r.not_before, r.last) },
    )
  where
    one : {r : SamplePoint f} → (r ≡ sample) ⊎ Memᴰ r samples → Memᴰ r (sample ∷ samples)
    one (inl q) = Memᴰ.head q
    one (inr m) = Memᴰ.tail m

-- ===== src/Analyzer/Resource/Limits.antt =====
-- The requests and the limits of `RecommendResources` of internal/analyzer/resource.go.
use smtx_lab.Prelude.{
  ℕ, zero, suc, ◌+◌, ◌^◌, ◌≤◌, ◌<◌, ◌≡◌, refl, ap, ◌⊎◌, inl, inr, false, arith, if◌then◌else◌,
  nat_eq, text_eq, Bool-cases, Text,
}
use smtx_lab.Prelude.Int.{ℤ, pos, negsuc, pos_part, neg_part, ltb_ℤ, is_pos, ◌≤ℤ◌}
use smtx_lab.Api.Resource.{RecommendationPolicySpec}
use smtx_lab.Analyzer.Float.{Float}
use smtx_lab.Analyzer.Resource.{
  min_millicores, min_mib, raise_limit, apply_headroom, ContainerUsageProfile, round_millicores,
  round_mib,
}
use smtx_lab.Analyzer.Resource.Rounding.{round_millicores-IsRoundedUp, round_mib-IsRoundedUp}
use smtx_lab.Analyzer.Resource.Recommend.{
  recommend_resources, cpu_request_of, memory_request_of, language_of_profile,
}

-- A limit that is not set, or that covers its request.
abbrev pub IsLimitOf : ℤ → ℤ → Type 0
IsLimitOf request limit = (is_pos limit ≡ false) ⊎ (request ≤ℤ limit)

raise_limit-IsLimitOf : (request limit : ℤ) → IsLimitOf request (raise_limit request limit)
unfolding raise_limit
raise_limit-IsLimitOf request limit = elim (Bool-cases (is_pos limit)) [
  | inl e ↦ inr (ground (arith, e))
  | inr e ↦ inl (ground (arith, e))
]

-- For the processor and for the memory, the recommended limit is not above zero, which sets no limit,
-- or it is at least the recommended request.
pub recommend_resources_limits :
    (f : Float) (profile : ContainerUsageProfile f) (policy : RecommendationPolicySpec f.F)
    → let r = (recommend_resources f profile policy).recommended in
      IsLimitOf r.cpu_request_millicores r.cpu_limit_millicores
      × IsLimitOf r.memory_request_mib r.memory_limit_mib
unfolding recommend_resources
recommend_resources_limits f profile policy = (raise_limit-IsLimitOf _ _, raise_limit-IsLimitOf _ _)

floor_covers : (out min_value : ℤ) → min_value ≤ℤ (if ltb_ℤ out min_value then min_value else out)
floor_covers out min_value = ground arith

apply_headroom_covers :
    (f : Float) (value : ℤ) (ratio : f.F) (min_value : ℤ)
    → min_value ≤ℤ apply_headroom f value ratio min_value
unfolding apply_headroom
apply_headroom_covers f value ratio min_value =
    let ratio' = if f.le ratio (f.literal 0 1) then f.literal 1 1 else ratio in
    floor_covers (f.ceil_int (f.mul (f.of_int value) ratio')) min_value

min_millicores_pos : (v : ℤ) → (k : ℕ) × (min_millicores v ≡ pos (suc k))
unfolding min_millicores
min_millicores_pos (pos zero) = (49, refl)
min_millicores_pos (pos (suc n)) = (n, ground arith)
min_millicores_pos (negsuc n) = (49, ground arith)

min_mib_pos : (v : ℤ) → (k : ℕ) × (min_mib v ≡ pos (suc k))
unfolding min_mib
min_mib_pos (pos zero) = (63, refl)
min_mib_pos (pos (suc n)) = (n, ground arith)
min_mib_pos (negsuc n) = (63, ground arith)

-- A rounding that covers what is positive and fits covers what is at least a positive minimum.
round_covers :
    (round : ℤ → ℤ) (room : ℕ)
    → ((n : ℕ) → 0 < n → n + room < 2 ^ 63 → (m : ℕ) × (round (pos n) ≡ pos m) × (n ≤ m))
    → (v min_value : ℤ) (k : ℕ) → min_value ≡ pos (suc k)
    → min_value ≤ℤ v
    → pos_part v + room < 2 ^ 63
    → (min_value ≤ℤ round v) × (v ≤ℤ round v)
round_covers round room covers (pos n) min_value k e h fits =
    let p : pos_part min_value ≡ suc k = ap pos_part e in
    let z : neg_part min_value ≡ 0 = ap neg_part e in
    let (m, q, low) = covers n (omega arith) fits in rw q (omega arith, omega arith)
round_covers round room covers (negsuc n) min_value k e h fits =
    let z : neg_part min_value ≡ 0 = ap neg_part e in absurd (omega arith)

cpu_request_floor :
    (f : Float) (profile : ContainerUsageProfile f) (policy : RecommendationPolicySpec f.F)
    → min_millicores policy.cpu.min_request_millicores ≤ℤ cpu_request_of f profile policy
unfolding cpu_request_of
cpu_request_floor f profile policy = apply_headroom_covers f _ _ _

memory_request_floor :
    (f : Float) (profile : ContainerUsageProfile f) (policy : RecommendationPolicySpec f.F)
    (language : Text)
    → min_mib policy.memory.min_request_mib ≤ℤ memory_request_of f profile policy language
unfolding memory_request_of
memory_request_floor f profile policy language = apply_headroom_covers f _ _ _

-- Where the request with its headroom leaves room for a rounding step below 2^63, the recommended
-- request for the processor is at least the policy's minimum, 50 millicores where the policy names
-- none, and at least the request before rounding.
pub recommend_resources_cpu_request :
    (f : Float) (profile : ContainerUsageProfile f) (policy : RecommendationPolicySpec f.F)
    → pos_part (cpu_request_of f profile policy) + 50 < 2 ^ 63
    → (min_millicores policy.cpu.min_request_millicores
        ≤ℤ (recommend_resources f profile policy).recommended.cpu_request_millicores)
      × (cpu_request_of f profile policy
          ≤ℤ (recommend_resources f profile policy).recommended.cpu_request_millicores)
unfolding recommend_resources
recommend_resources_cpu_request f profile policy fits =
    let (k, e) = min_millicores_pos policy.cpu.min_request_millicores in
    round_covers round_millicores 50
      (λ n h b. let (m, q, r) = round_millicores-IsRoundedUp n h b in (m, q, r.covers))
      (cpu_request_of f profile policy) _ k e (cpu_request_floor f profile policy) fits

-- Where the request with its headroom leaves room for a rounding step below 2^63, the recommended
-- request for the memory is at least the policy's minimum, 64 MiB where the policy names none, and at
-- least the request before rounding.
pub recommend_resources_memory_request :
    (f : Float) (profile : ContainerUsageProfile f) (policy : RecommendationPolicySpec f.F)
    → pos_part (memory_request_of f profile policy (language_of_profile f profile policy)) + 128
      < 2 ^ 63
    → (min_mib policy.memory.min_request_mib
        ≤ℤ (recommend_resources f profile policy).recommended.memory_request_mib)
      × (memory_request_of f profile policy (language_of_profile f profile policy)
          ≤ℤ (recommend_resources f profile policy).recommended.memory_request_mib)
unfolding recommend_resources
recommend_resources_memory_request f profile policy fits =
    let (k, e) = min_mib_pos policy.memory.min_request_mib in
    round_covers round_mib 128
      (λ n h b. let (m, q, r) = round_mib-IsRoundedUp n h b in (m, q, r.covers))
      (memory_request_of f profile policy (language_of_profile f profile policy)) _ k e
      (memory_request_floor f profile policy (language_of_profile f profile policy)) fits

-- ===== src/Analyzer/Resource.antt =====
-- internal/analyzer/resource.go: the request and the limit that a container should have.
pub mod Rounding
pub mod Limits
pub mod Recommend
use smtx_lab.Prelude.{
  ℕ, zero, suc, ◌+◌, ◌-◌, ◌*◌, ◌/◌, not, ◌&&◌, ◌||◌, List, [], ◌∷◌, eqb, if◌then◌else◌, ◌==◌,
  nat_eq, text_eq, length, get_elem?, Text, lit, value_or, sort_slice,
}
use smtx_lab.Prelude.Int.{
  beq_ℤ, ℤ, pos, negsuc, pos_part, ltb_ℤ, leb_ℤ, is_pos, ◌+ℤ◌, ◌-ℤ◌, ◌*ℤ◌, wrap64,
}
use smtx_lab.Strings.{to_lower, trim_space}
use smtx_lab.Api.Resource.{ContainerResourceValues, ResourceUsageWindows}
use smtx_lab.Analyzer.Float.{Float}

unfoldable pub max_int64 : ℤ → ℤ → ℤ
max_int64 a b = if ltb_ℤ b a then a else b

unfoldable pub min_millicores : ℤ → ℤ
min_millicores value = if leb_ℤ value (pos 0) then pos 50 else value

unfoldable pub min_mib : ℤ → ℤ
min_mib value = if leb_ℤ value (pos 0) then pos 64 else value

-- Go's `/` on integers, which truncates, for a positive divisor.
unfoldable pub quot_int : ℤ → ℕ → ℤ
quot_int (pos n) d = pos (n / d)
quot_int (negsuc n) d = if eqb (suc n / d) 0 then pos 0 else negsuc (suc n / d - 1)

unfoldable pub round_up : ℤ → ℕ → ℤ
unfolding quot_int
round_up value step =
    if leb_ℤ value (pos 0)
    then pos 0
    else wrap64 (quot_int (wrap64 (wrap64 (value +ℤ pos step) -ℤ pos 1)) step *ℤ pos step)

unfoldable pub round_millicores : ℤ → ℤ
round_millicores value = if leb_ℤ value (pos 100) then round_up value 10 else round_up value 50

unfoldable pub round_mib : ℤ → ℤ
round_mib value = if leb_ℤ value (pos 512) then round_up value 32 else round_up value 128

-- the request and the limit of one resource, rounded, and the limit raised to the request
unfoldable pub raise_limit : ℤ → ℤ → ℤ
raise_limit request limit = if is_pos limit && ltb_ℤ limit request then request else limit

module _ (f : Float) where
  open f use {F, literal, lt, le, add, sub, mul, div, of_int, ceil_int, floor_int}

  unfoldable pub max_float : F → F → F
  max_float a b = if lt b a then a else b

  unfoldable pub cores_to_millicores : F → ℤ
  cores_to_millicores cores = ceil_int (mul cores (literal 1000 1))

  unfoldable pub bytes_to_mib : F → ℤ
  bytes_to_mib bytes = ceil_int (div (div bytes (literal 1024 1)) (literal 1024 1))

  unfoldable pub apply_headroom : ℤ → F → ℤ → ℤ
  apply_headroom value ratio min_value =
      let ratio' = if le ratio (literal 0 1) then literal 1 1 else ratio in
      let out = ceil_int (mul (of_int value) ratio') in
      if ltb_ℤ out min_value then min_value else out

  -- `strings.ToLower(language)` is compared with the names of two languages.
  unfoldable pub by_language : Text → F → F → F → F
  unfolding to_lower
  by_language language java python default =
      if to_lower language == lit "java"
      then java
      else if to_lower language == lit "python"
      then python
      else default

  unfoldable pub language_cpu_limit_headroom : Text → F → F
  unfolding by_language max_float
  language_cpu_limit_headroom language configured =
      by_language language (max_float configured (literal 15 10))
        (max_float configured (literal 14 10)) (max_float configured (literal 12 10))

  unfoldable pub language_memory_request_headroom : Text → F → F
  unfolding by_language max_float
  language_memory_request_headroom language configured =
      by_language language (max_float configured (literal 125 100))
        (max_float configured (literal 12 10)) (max_float configured (literal 11 10))

  unfoldable pub language_memory_limit_headroom : Text → F → F
  unfolding by_language max_float
  language_memory_limit_headroom language configured =
      by_language language (max_float configured (literal 15 10))
        (max_float configured (literal 135 100)) (max_float configured (literal 125 100))

  -- `percentileName`: the recursion goes to the fallback, and from there to "p95", so a fuel of three
  -- calls is enough; the last resort is not reached.
  unfoldable pub percentile_name_on : ℕ → Text → Text → F
  unfolding to_lower trim_space
  percentile_name_on zero name fallback = literal 95 100
  percentile_name_on (suc fuel) name fallback =
      let word = to_lower (trim_space name) in
      let again = percentile_name_on fuel fallback (lit "p95") in
      if word == lit "p50"
      then literal 50 100
      else if word == lit "p90"
      then literal 90 100
      else if word == lit "p95" || word == []
      then (if name == [] then again else literal 95 100)
      else if word == lit "p99"
      then literal 99 100
      else again

  unfoldable pub percentile_name : Text → Text → F
  unfolding percentile_name_on
  percentile_name = percentile_name_on 3

  abbrev at_index : List F → ℤ → F
  at_index values i = value_or (literal 0 1) (get_elem? values (pos_part i))

  -- The last step, on the sorted copy.
  unfoldable pub interpolate : List F → F → F
  interpolate copied p =
      let rank = mul p (of_int (pos (length copied - 1))) in
      let lower = floor_int rank in
      let upper = ceil_int rank in
      let weight = sub rank (of_int lower) in
      if beq_ℤ lower upper
      then at_index copied lower
      else add (mul (at_index copied lower) (sub (literal 1 1) weight))
          (mul (at_index copied upper) weight)

  unfoldable pub percentile : List F → F → F
  unfolding interpolate
  percentile [] p = literal 0 1
  percentile (v ∷ []) p = v
  percentile (v ∷ w ∷ values) p =
      let low = if le p (literal 0 1) then literal 0 1 else p in
      let clamped = if le (literal 1 1) low then literal 1 1 else low in
      interpolate (sort_slice lt (v ∷ w ∷ values)) clamped

  pub record SamplePoint : Type 0 where
    pub timestamp : ℤ
    pub value : F

  pub record ContainerUsageProfile : Type 0 where
    pub namespace : Text
    pub workload_kind : Text
    pub workload_name : Text
    pub pod : Text
    pub container : Text
    pub language : Text
    pub cpu_cores : List F
    pub memory_bytes : List F
    pub cpu_samples : List SamplePoint
    pub memory_samples : List SamplePoint
    pub usage : ResourceUsageWindows
    pub current : ContainerResourceValues

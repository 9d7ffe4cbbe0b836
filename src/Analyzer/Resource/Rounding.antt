-- ===== src/Analyzer/Resource/Rounding.antt =====
-- `roundUp`, `roundMillicores` and `roundMiB` of internal/analyzer/resource.go.
use native.Mathlib.Omega.{div_fact, mod_fact}
use native.Mathlib.Nat.{mul_comm}
use smtx_lab.Prelude.{
  ℕ, suc, ◌+◌, ◌*◌, ◌/◌, ◌^◌, ◌≤◌, ◌<◌, ◌≡◌, refl, ap, ◌∙◌, inl, inr, false, arith, leb,
  if◌then◌else◌, nat_eq, text_eq, Bool-cases,
}
use smtx_lab.Prelude.Int.{pos, leb_ℤ, ◌+ℤ◌, ◌-ℤ◌, ◌*ℤ◌, wrap64, wrap64_fits, eq_of_parts, int_laws}
use smtx_lab.Analyzer.Resource.{quot_int, round_up, round_millicores, round_mib}

-- What rounding up to a multiple of `step` is to be, of a value that is not negative.
pub record IsRoundedUp (step : ℕ) (n m : ℕ) : Type 0 where
  pub quotient : ℕ
  pub is_multiple : m ≡ quotient * step
  pub covers : n ≤ m
  pub is_least : m < n + step

pub pos*ℤpos : (a b : ℕ) → pos a *ℤ pos b ≡ pos (a * b)
unfolding ◌*ℤ◌
pos*ℤpos a b = ground arith

-- A division by `suc k` and its remainder.
quotient_fits : (a k : ℕ) → (a / suc k * suc k ≤ a) × (a < a / suc k * suc k + suc k)
quotient_fits a k =
    let d = div_fact a k in
    let m = mod_fact a k in let c = mul_comm (suc k) (a / suc k) in (omega arith, omega arith)

-- The division that the code does, where the additions do not wrap.
round_up_pos :
    (n k : ℕ)
    → 0 < n
    → n + suc k < 2 ^ 63
    → round_up (pos n) (suc k) ≡ pos ((n + k) / suc k * suc k)
unfolding round_up quot_int
round_up_pos n k h b =
    let fits = (quotient_fits (n + k) k).0 in
    let added : wrap64 (pos n +ℤ pos (suc k)) ≡ pos (n + suc k) =
      ap wrap64 (eq_of_parts (pos n +ℤ pos (suc k)) (pos (n + suc k)) (omega int_laws))
      ∙ wrap64_fits (pos (n + suc k)) b (omega arith) in
    let less : wrap64 (pos (n + suc k) -ℤ pos 1) ≡ pos (n + k) =
      ap wrap64 (eq_of_parts (pos (n + suc k) -ℤ pos 1) (pos (n + k)) (omega int_laws))
      ∙ wrap64_fits (pos (n + k)) (omega arith) (omega arith) in
    let times : wrap64 (pos ((n + k) / suc k) *ℤ pos (suc k)) ≡ pos ((n + k) / suc k * suc k) =
      ap wrap64 (pos*ℤpos ((n + k) / suc k) (suc k))
      ∙ wrap64_fits (pos ((n + k) / suc k * suc k)) (omega arith) (omega arith) in
    let not_neg : leb_ℤ (pos n) (pos 0) ≡ false = ground arith in
    rw not_neg (rw (added, less) times)

-- `roundUp` gives a positive value its least multiple of the step that is not below it, where the
-- value plus the step is less than 2^63.
pub round_up-IsRoundedUp :
    (n k : ℕ)
    → 0 < n
    → n + suc k < 2 ^ 63
    → (m : ℕ) × (round_up (pos n) (suc k) ≡ pos m) × IsRoundedUp (suc k) n m
round_up-IsRoundedUp n k h b =
    let (low, high) = quotient_fits (n + k) k in
    (
      (n + k) / suc k * suc k,
      round_up_pos n k h b,
      record {
        quotient = (n + k) / suc k;
        is_multiple = refl;
        covers = omega arith;
        is_least = omega arith;
      },
    )

-- The steps of `roundMillicores`: 10 up to 100 millicores, and 50 above.
abbrev pub step_of_millicores : ℕ → ℕ
step_of_millicores n = if leb n 100 then 10 else 50

-- The steps of `roundMiB`: 32 up to 512 MiB, and 128 above.
abbrev pub step_of_mib : ℕ → ℕ
step_of_mib n = if leb n 512 then 32 else 128

-- A positive number of millicores below 2^63 - 50 is rounded up to the least multiple of 10 that is
-- not below it, of 50 where it is above 100.
pub round_millicores-IsRoundedUp :
    (n : ℕ)
    → 0 < n
    → n + 50 < 2 ^ 63
    → (m : ℕ) × (round_millicores (pos n) ≡ pos m) × IsRoundedUp (step_of_millicores n) n m
unfolding round_millicores
round_millicores-IsRoundedUp n h b = elim (Bool-cases (leb n 100)) [
  | inl e ↦
      let same : round_millicores (pos n) ≡ round_up (pos n) 10 = ground arith in
      rw (same, e) (round_up-IsRoundedUp n 9 h (omega arith))
  | inr e ↦
      let same : round_millicores (pos n) ≡ round_up (pos n) 50 = ground arith in
      rw (same, e) (round_up-IsRoundedUp n 49 h (omega arith))
]

-- A positive number of MiB below 2^63 - 128 is rounded up to the least multiple of 32 that is not
-- below it, of 128 where it is above 512.
pub round_mib-IsRoundedUp :
    (n : ℕ)
    → 0 < n
    → n + 128 < 2 ^ 63
    → (m : ℕ) × (round_mib (pos n) ≡ pos m) × IsRoundedUp (step_of_mib n) n m
unfolding round_mib
round_mib-IsRoundedUp n h b = elim (Bool-cases (leb n 512)) [
  | inl e ↦
      let same : round_mib (pos n) ≡ round_up (pos n) 32 = ground arith in
      rw (same, e) (round_up-IsRoundedUp n 31 h (omega arith))
  | inr e ↦
      let same : round_mib (pos n) ≡ round_up (pos n) 128 = ground arith in
      rw (same, e) (round_up-IsRoundedUp n 127 h (omega arith))
]

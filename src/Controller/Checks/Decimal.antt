-- ===== src/Controller/Checks/Decimal.antt =====
-- `fmt.Sprint` of an integer as the model computes it, on fuel, and what is read back of it.
use smtx_lab.Prelude.{
  ℕ, zero, suc, ◌/◌, ◌^◌, ◌<◌, ◌≡◌, ap, ◌∙◌, inl, inr, false, [], arith, ltb, nat_eq, text_eq,
  Bool-cases, Text,
}
use smtx_lab.Prelude.Int.{pos}
use smtx_lab.Prelude.Decimal.{read_from, power_of_ten}
use smtx_lab.Controller.Checks.{decimal_on, sprint}

fuel_left : (fuel value : ℕ) → value < power_of_ten (suc fuel) → ltb value 10 ≡ false → 0 < fuel
fuel_left zero value h e = ground arith
fuel_left (suc fuel) value h e = omega arith

read-decimal_on :
    (fuel value : ℕ) (digits : Text)
    → value < power_of_ten fuel
    → 0 < fuel
    → read_from 0 (decimal_on fuel value digits) ≡ read_from value digits
unfolding decimal_on
read-decimal_on zero value digits h p = absurd (omega arith)
read-decimal_on (suc fuel) value digits h p = elim (Bool-cases (ltb value 10)) [
  | inl e ↦ rw e (ap (λ v. read_from v digits) (omega arith))
  | inr e ↦ rw e (
      read-decimal_on fuel (value / 10) _ (omega arith) (fuel_left fuel value h e)
      ∙ ap (λ v. read_from v digits) (omega arith))
]

-- What `fmt.Sprint` writes of a number below 10 ^ 20 reads back as the number: the fuel is enough.
pub read-sprint : (n : ℕ) → n < 10 ^ 20 → read_from 0 (sprint (pos n)) ≡ n
unfolding sprint
read-sprint n h = read-decimal_on 20 n [] (omega arith) (omega arith)

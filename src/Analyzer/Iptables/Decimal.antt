-- ===== src/Analyzer/Iptables/Decimal.antt =====
-- `int32String` of internal/analyzer/network.go.
use smtx_lab.Prelude.{
  ℕ, zero, suc, ◌+◌, ◌/◌, ◌%◌, ◌^◌, ◌≤◌, ◌<◌, ◌≡◌, refl, ap, ◌∙◌, inl, inr, [], ◌∷◌, arith, eqb,
  nat_eq, text_eq, Bool-cases, length, Text, lit,
}
use smtx_lab.Prelude.Int.{pos}
use smtx_lab.Prelude.Decimal.{read_from, power_of_ten}
use smtx_lab.Analyzer.Iptables.{digits_on, int32_string}

read-digits_on :
    (fuel value : ℕ) (digits : Text)
    → value < power_of_ten fuel
    → read_from 0 (digits_on fuel value digits) ≡ read_from value digits
unfolding digits_on
read-digits_on zero value digits h = ap (λ v. read_from v digits) (omega arith)
read-digits_on (suc fuel) value digits h = elim (Bool-cases (eqb value 0)) [
  | inl e ↦ rw e (ap (λ v. read_from v digits) (ground arith))
  | inr e ↦ rw e (
      read-digits_on fuel (value / 10) _ (omega arith) ∙ ap (λ v. read_from v digits) (omega arith))
]

length-digits_on :
    (fuel places value : ℕ) (digits : Text)
    → value < power_of_ten places
    → length (digits_on fuel value digits) ≤ places + length digits
unfolding digits_on
length-digits_on zero places value digits h = omega arith
length-digits_on (suc fuel) zero value digits h = elim (Bool-cases (eqb value 0)) [
  | inl e ↦ rw e (omega arith)
  | inr e ↦ absurd (ground arith)
]
length-digits_on (suc fuel) (suc places) value digits h = elim (Bool-cases (eqb value 0)) [
  | inl e ↦ rw e (omega arith)
  | inr e ↦
      let rest =
        length-digits_on fuel places (value / 10) ((b'0' + value % 10) ∷ digits) (omega arith) in
      rw e (omega arith)
]

-- The decimal digits that the code writes of a number of 32 bits that is not negative read back as
-- the number, and are at most 10, fewer than the 11 bytes that it has for them.
pub int32_string-reads :
    (n : ℕ)
    → n < 2 ^ 31
    → (read_from 0 (int32_string (pos n)) ≡ n) × (length (int32_string (pos n)) ≤ 10)
unfolding int32_string lit
int32_string-reads zero h = (refl, omega arith)
int32_string-reads (suc n) h =
    (read-digits_on 11 (suc n) [] (omega arith), length-digits_on 11 10 (suc n) [] (omega arith))

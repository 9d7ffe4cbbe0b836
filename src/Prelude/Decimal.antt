-- ===== src/Prelude/Decimal.antt =====
-- Decimal numbers: a reader of digits, and powers of ten.
use Prim.Native.Nat.{ℕ, zero, suc, ◌+◌, ◌-◌, ◌*◌}
use mathlib.Core.List.{[], ◌∷◌}
use smtx_lab.Prelude.Texts.{Text}

-- The number that decimal digits write, after `acc`.
abbrev pub read_from : ℕ → Text → ℕ
read_from acc [] = acc
read_from acc (digit ∷ digits) = read_from (acc * 10 + (digit - 48)) digits

abbrev pub power_of_ten : ℕ → ℕ
power_of_ten zero = 1
power_of_ten (suc n) = 10 * power_of_ten n

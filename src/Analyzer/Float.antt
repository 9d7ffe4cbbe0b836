-- ===== src/Analyzer/Float.antt =====
-- `float64`: the type and the operations that the analyzer uses are a parameter.
use smtx_lab.Prelude.{ℕ, Bool, nat_eq, text_eq}
use smtx_lab.Prelude.Int.{ℤ}

pub record Float : Type 1 where
  pub F : Type 0
  -- the literal n / d
  pub literal : ℕ → ℕ → F
  pub lt : F → F → Bool
  pub le : F → F → Bool
  pub feq : F → F → Bool
  pub add : F → F → F
  pub sub : F → F → F
  pub mul : F → F → F
  pub div : F → F → F
  pub of_int : ℤ → F
  -- `int64(math.Ceil(x))`, `int(math.Floor(x))` and `int(math.Ceil(x))`
  pub ceil_int : F → ℤ
  pub floor_int : F → ℤ
  pub inf : F
  pub neg_inf : F

-- ===== src/Strings/Words.antt =====
-- What trimming keeps: every byte that is left was there, and the text does not grow.
use smtx_lab.Prelude.{
  ℕ, ◌≤◌, inl, inr, Bool, ◌&&◌, [], ◌∷◌, arith, nat_eq, text_eq, Bool-cases, length, All, Text,
  is_empty,
}
use smtx_lab.Strings.{trim_left, trim_right}

module _ (cut : ℕ → Bool) where
  pub length-trim_right : (s : Text) → length (trim_right cut s) ≤ length s
  unfolding trim_right
  length-trim_right [] = omega arith
  length-trim_right (c ∷ s) = ground (arith, length-trim_right s)

  module _ {κ} (P : ℕ → Type κ) where
    pub All-trim_right : (s : Text) → All P s → All P (trim_right cut s)
    unfolding trim_right
    All-trim_right [] h = tt
    All-trim_right (c ∷ s) (pc, h) = elim (Bool-cases (is_empty (trim_right cut s) && cut c)) [
      | inl e ↦ rw e tt
      | inr e ↦ rw e (pc, All-trim_right s h)
    ]

    pub All-trim_left : (s : Text) → All P s → All P (trim_left cut s)
    unfolding trim_left
    All-trim_left [] h = tt
    All-trim_left (c ∷ s) (pc, h) = elim (Bool-cases (cut c)) [
      | inl e ↦ rw e (All-trim_left s h)
      | inr e ↦ rw e (pc, h)
    ]

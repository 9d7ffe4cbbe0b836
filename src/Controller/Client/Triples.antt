-- ===== src/Controller/Client/Triples.antt =====
-- Calls that return no error, by what holds before and after them.
use smtx_lab.Prelude.{◌≡◌, refl, sym, ap, Bool, true, false, nat_eq, text_eq, Text}
use mathlib.Core.Path.{subst}
use smtx_lab.Prelude.Results.{ok_inj}
use smtx_lab.Controller.Client.{Result, ok, err, Call, ◌>>=◌, call_if, lift}

-- Where `P` holds before the call and the call returns no error, `Q` holds of its result.
abbrev pub Triple : {W A : Type 0} → (W → Type 0) → Call W A → (A → W → Type 0) → Type 0
Triple {W} {A} P m Q = (w w2 : W) (a : A) → P w → m w ≡ (ok a, w2) → Q a w2

err-ne-ok :
    {W A : Type 0} (e : Text) (w w2 : W) (a : A) → ◌≡◌ {A = Result A × W} (err e, w) (ok a, w2) → ⊥
err-ne-ok e w w2 a h = cc

module _ {W A B : Type 0} {P : W → Type 0} (m : Call W A) (f : A → Call W B) (Q : A → W → Type 0)
    (R : B → W → Type 0) (first : Triple P m Q) (later : (a : A) → Triple (Q a) (f a) R) where
  by_result :
      (w w2 : W) (b : B) (r : Result A) (w1 : W)
      → P w
      → m w ≡ (r, w1)
      → elim r [ ok a ↦ f a w1 | err e ↦ (err e, w1) ] ≡ (ok b, w2)
      → R b w2
  by_result w w2 b (ok a) w1 p g h = later a w1 w2 b (first w w1 a p g) h
  by_result w w2 b (err e) w1 p g h = absurd (err-ne-ok e w1 w2 b h)

  pub Triple->>= : Triple P (m >>= f) R
  Triple->>= w w2 b p h = by_result w w2 b (m w).0 (m w).1 p refl h

pub Triple-call_if :
    {W : Type 0} {P Q : W → Type 0} (test : Bool) (m : Call W (Unit {0}))
    → (test ≡ true → Triple P m (λ _. Q))
    → (test ≡ false → (w : W) → P w → Q w)
    → Triple P (call_if test m) (λ _. Q)
Triple-call_if true m f g w w2 a p h = f refl w w2 a p h
Triple-call_if {W} {P} {Q} false m f g w w2 a p h = subst Q (ap (λ r. r.1) h) (g refl w p)

-- A sequence that returns no error, taken apart.
pub >>=-returns :
    {W A B : Type 0} (m : Call W A) (f : A → Call W B) (w w2 : W) (b : B)
    → (m >>= f) w ≡ (ok b, w2)
    → (a : A) × (w1 : W) × (m w ≡ (ok a, w1)) × (f a w1 ≡ (ok b, w2))
>>=-returns {W} {A} {B} m f w w2 b h = by_case (m w).0 (m w).1 refl h
  where
    by_case :
        (r : Result A) (w1 : W)
        → m w ≡ (r, w1)
        → elim r [ ok a ↦ f a w1 | err e ↦ (err e, w1) ] ≡ (ok b, w2)
        → (a : A) × (v : W) × (m w ≡ (ok a, v)) × (f a v ≡ (ok b, w2))
    by_case (ok a) w1 g k = (a, w1, g, k)
    by_case (err e) w1 g k = absurd (err-ne-ok e w1 w2 b k)

-- The same where the first call changes nothing.
pub lift-returns :
    {W A B : Type 0} (r : Result A) (f : A → Call W B) (w w2 : W) (b : B)
    → (lift r >>= f) w ≡ (ok b, w2)
    → (a : A) × (r ≡ ok a) × (f a w ≡ (ok b, w2))
lift-returns (ok a) f w w2 b h = (a, refl, h)
lift-returns (err e) f w w2 b h = absurd (err-ne-ok e w w2 b h)

-- What holds of a returned value and of the state holds of those that it equals.
pub carry :
    {W A : Type 0} (P : A → W → Type 0) (made a : A) (w w2 : W)
    → ◌≡◌ {A = Result A × W} (ok made, w) (ok a, w2)
    → P made w
    → (a ≡ made) × P a w2
carry P made a w w2 h p =
    let same : made ≡ a = ok_inj (ap (λ r. r.0) h) in
    (sym same, subst (λ x. P x w2) same (subst (P made) (ap (λ r. r.1) h) p))

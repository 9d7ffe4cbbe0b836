-- ===== src/Prelude/Results.antt =====
-- Go's pairs of a value and an error: one of the two.
use mathlib.Core.Path.{◌≡◌, refl, ap, sym}
use mathlib.Core.List.{List, [], ◌∷◌, map}
use native.Mathlib.Omega.{arith}
use smtx_lab.Prelude.Texts.{Text}
use smtx_lab.Prelude.Lists.{length}

pub data Result (A : Type 0) : Type 0 where
  ok : (value : A) → Result A
  err : (message : Text) → Result A

infixl 5 ◌>>=◌
abbrev pub ◌>>=◌ : {A B : Type 0} → Result A → (A → Result B) → Result B
err message >>= next = err message
ok value >>= next = next value

-- A loop that appends what each element gives, and returns the first error.
unfoldable pub traverse : {A B : Type 0} → (A → Result B) → List A → Result (List B)
traverse f [] = ok []
traverse f (x ∷ xs) = do y ← f x; ys ← traverse f xs; ok (y ∷ ys)

pub ok_inj : {A : Type 0} {a b : A} → ok a ≡ ok b → a ≡ b
ok_inj h = cc

-- A chain that returns a value returned one at each step.
pub >>=-ok :
    {A B : Type 0} (first : Result A) (next : A → Result B) {result : B}
    → (first >>= next) ≡ ok result
    → (value : A) × (first ≡ ok value) × (next value ≡ ok result)
>>=-ok (err message) next h = cc
>>=-ok (ok value) next h = (value, refl, h)

module _ {A B C : Type 0} (f : A → Result B) (g : A → C) (h : B → C)
    (each : (x : A) (y : B) → f x ≡ ok y → h y ≡ g x) where
  pub map-traverse : (xs : List A) (ys : List B) → traverse f xs ≡ ok ys → map h ys ≡ map g xs
  unfolding traverse
  map-traverse [] ys e = ap (map h) (sym (ok_inj e))
  map-traverse (x ∷ xs) ys e =
      let (y, p, q) = >>=-ok (f x) (λ y. traverse f xs >>= λ zs. ok (y ∷ zs)) e in
      let (zs, r, s) = >>=-ok (traverse f xs) (λ zs. ok (y ∷ zs)) q in
      ground (arith, ok_inj s, each x y p, map-traverse xs zs r)

pub length-traverse :
    {A B : Type 0} (f : A → Result B) (xs : List A) (ys : List B)
    → traverse f xs ≡ ok ys
    → length ys ≡ length xs
unfolding traverse
length-traverse f [] ys e = ap length (sym (ok_inj e))
length-traverse f (x ∷ xs) ys e =
    let (y, p, q) = >>=-ok (f x) (λ y. traverse f xs >>= λ zs. ok (y ∷ zs)) e in
    let (zs, r, s) = >>=-ok (traverse f xs) (λ zs. ok (y ∷ zs)) q in
    ground (arith, ok_inj s, length-traverse f xs zs r)

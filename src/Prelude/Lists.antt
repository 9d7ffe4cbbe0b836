-- ===== src/Prelude/Lists.antt =====
-- Lists measured by native numbers, Boolean searches and filters, and predicates by recursion.
use Prim.Native.Nat.{ℕ, zero, suc, ◌+◌, ◌≤◌, min}
use mathlib.Core.Path.{◌≡◌, refl, ap, sym, subst}
use mathlib.Core.Logic.{inl, inr, ◌↔◌}
use mathlib.Core.Bool.{Bool, true, false, ◌&&◌, ◌||◌}
use mathlib.Core.List.{List, [], ◌∷◌, ◌++◌, Memᴰ, Sublistᴰ}
use mathlib.Core.Option.{Option, none, some}
use native.Mathlib.Omega.{arith}
use smtx_lab.Prelude.Tests.{if◌then◌else◌, Bool-cases}

module _ {ℓ} {A : Type ℓ} where
  abbrev pub length : List A → ℕ
  length [] = 0
  length (x ∷ xs) = suc (length xs)

  abbrev pub get_elem? : List A → ℕ → Option A
  get_elem? [] i = none
  get_elem? (x ∷ xs) zero = some x
  get_elem? (x ∷ xs) (suc i) = get_elem? xs i

  abbrev pub take : ℕ → List A → List A
  take zero xs = []
  take (suc n) [] = []
  take (suc n) (x ∷ xs) = x ∷ take n xs

  abbrev pub drop : ℕ → List A → List A
  drop zero xs = xs
  drop (suc n) [] = []
  drop (suc n) (x ∷ xs) = drop n xs

  abbrev pub replicate : ℕ → A → List A
  replicate zero a = []
  replicate (suc n) a = a ∷ replicate n a

  -- `range` loops with an `if … { continue }`: the elements that pass, in order.
  unfoldable pub filter : (A → Bool) → List A → List A
  filter p [] = []
  filter p (x ∷ xs) = let rest = filter p xs in if p x then x ∷ rest else rest

  unfoldable pub any : (A → Bool) → List A → Bool
  any p [] = false
  any p (x ∷ xs) = p x || any p xs

  unfoldable pub all : (A → Bool) → List A → Bool
  all p [] = true
  all p (x ∷ xs) = p x && all p xs

  pub length-append : (xs ys : List A) → length (xs ++ ys) ≡ length xs + length ys
  length-append [] ys = omega arith
  length-append (x ∷ xs) ys = omega (arith, length-append xs ys)

  pub length-take : (n : ℕ) (xs : List A) → length (take n xs) ≡ min n (length xs)
  length-take zero xs = omega arith
  length-take (suc n) [] = omega arith
  length-take (suc n) (x ∷ xs) = omega (arith, length-take n xs)

  pub take-append-drop : (n : ℕ) (xs : List A) → take n xs ++ drop n xs ≡ xs
  take-append-drop zero xs = refl
  take-append-drop (suc n) [] = refl
  take-append-drop (suc n) (x ∷ xs) = ap (λ r. x ∷ r) (take-append-drop n xs)

  pub take_all : (n : ℕ) (xs : List A) → length xs ≤ n → take n xs ≡ xs
  take_all zero [] h = refl
  take_all zero (x ∷ xs) h = absurd (omega arith)
  take_all (suc n) [] h = refl
  take_all (suc n) (x ∷ xs) h = ap (λ r. x ∷ r) (take_all n xs (omega arith))

module _ {ℓ κ} {A : Type ℓ} (P : A → Type κ) where
  -- Every element satisfies `P`.
  abbrev pub All : List A → Type κ
  All [] = Unit
  All (x ∷ xs) = P x × All xs

  -- Every element satisfies `P` and passes the test.
  abbrev pub All-and : (A → Bool) → List A → Type κ
  All-and p [] = Unit
  All-and p (x ∷ xs) = (P x × (p x ≡ true)) × All-and p xs

  pub All-append : (xs ys : List A) → All xs → All ys → All (xs ++ ys)
  All-append [] ys hx hy = hy
  All-append (x ∷ xs) ys (px, hx) hy = (px, All-append xs ys hx hy)

  pub All-filter : (p : A → Bool) (xs : List A) → All xs → All (filter p xs)
  unfolding filter
  All-filter p [] h = tt
  All-filter p (x ∷ xs) (px, h) = elim (Bool-cases (p x)) [
    | inl e ↦ rw e (px, All-filter p xs h)
    | inr e ↦ rw e (All-filter p xs h)
  ]

  -- What is kept by a filter passed its test, besides what held before.
  pub All-filter_both : (p : A → Bool) (xs : List A) → All xs → All-and p (filter p xs)
  unfolding filter
  All-filter_both p [] h = tt
  All-filter_both p (x ∷ xs) (px, h) = elim (Bool-cases (p x)) [
    | inl e ↦ rw e ((px, e), All-filter_both p xs h)
    | inr e ↦ rw e (All-filter_both p xs h)
  ]

  pub All-take : (n : ℕ) (xs : List A) → All xs → All (take n xs)
  All-take zero xs h = tt
  All-take (suc n) [] h = tt
  All-take (suc n) (x ∷ xs) (px, h) = (px, All-take n xs h)

  -- What the filter's test implies holds of every element that is kept.
  pub All-filter_test :
      (p : A → Bool) → ((x : A) → p x ≡ true → P x) → (xs : List A) → All (filter p xs)
  unfolding filter
  All-filter_test p f [] = tt
  All-filter_test p f (x ∷ xs) = elim (Bool-cases (p x)) [
    | inl e ↦ rw e (f x e, All-filter_test p f xs)
    | inr e ↦ rw e (All-filter_test p f xs)
  ]

  pub All-Memᴰ : {a : A} (xs : List A) → All xs → Memᴰ a xs → P a
  All-Memᴰ [] h m = elim m [ ]
  All-Memᴰ (x ∷ xs) (px, h) (Memᴰ.head e) = subst P (sym e) px
  All-Memᴰ (x ∷ xs) (px, h) (Memᴰ.tail m) = All-Memᴰ xs h m

module _ {ℓ κ μ} {A : Type ℓ} (P : A → Type κ) (Q : A → Type μ) where
  pub All-mono : ((x : A) → P x → Q x) → (xs : List A) → All P xs → All Q xs
  All-mono f [] h = tt
  All-mono f (x ∷ xs) (px, h) = (f x px, All-mono f xs h)

module _ {ℓ} {A : Type ℓ} where
  pub filter-Sublistᴰ : (p : A → Bool) (xs : List A) → Sublistᴰ (filter p xs) xs
  unfolding filter
  filter-Sublistᴰ p [] = Sublistᴰ.slnil
  filter-Sublistᴰ p (x ∷ xs) = elim (Bool-cases (p x)) [
    | inl e ↦ rw e (Sublistᴰ.cons-cons refl (filter-Sublistᴰ p xs))
    | inr e ↦ rw e (Sublistᴰ.cons (filter-Sublistᴰ p xs))
  ]

  pub filter-append :
      (p : A → Bool) (xs ys : List A) → filter p (xs ++ ys) ≡ filter p xs ++ filter p ys
  unfolding filter
  filter-append p [] ys = refl
  filter-append p (x ∷ xs) ys = ground (arith, filter-append p xs ys)

  pub any-true : (p : A → Bool) (xs : List A) → any p xs ≡ true → (a : A) × Memᴰ a xs × (p a ≡ true)
  unfolding any
  any-true p [] h = cc
  any-true p (x ∷ xs) h = elim (Bool-cases (p x)) [
    | inl e ↦ (x, Memᴰ.head refl, e)
    | inr e ↦ let (a, m, q) = any-true p xs (ground arith) in (a, Memᴰ.tail m, q)
  ]

  pub any-Memᴰ : (p : A → Bool) (xs : List A) {a : A} → Memᴰ a xs → p a ≡ true → any p xs ≡ true
  unfolding any
  any-Memᴰ p [] m e = elim m [ ]
  any-Memᴰ p (x ∷ xs) (Memᴰ.head q) e = rw (← q, e) refl
  any-Memᴰ p (x ∷ xs) (Memᴰ.tail m) e = rw (any-Memᴰ p xs m e) (ground arith)

  -- The loop `for … { if p(x) { return true } }; return false` finds an element that passes.
  pub any_iff :
      (p : A → Bool) (xs : List A) → (any p xs ≡ true) ↔ ((a : A) × Memᴰ a xs × (p a ≡ true))
  any_iff p xs = (any-true p xs, λ w. any-Memᴰ p xs w.1 w.2)

  pub filter-Memᴰ :
      (p : A → Bool) (xs : List A) {a : A} → Memᴰ a xs → p a ≡ true → Memᴰ a (filter p xs)
  unfolding filter
  filter-Memᴰ p [] m e = elim m [ ]
  filter-Memᴰ p (x ∷ xs) (Memᴰ.head q) e = let px : p x ≡ true = rw (← q) e in rw px (Memᴰ.head q)
  filter-Memᴰ p (x ∷ xs) (Memᴰ.tail m) e = elim (Bool-cases (p x)) [
    | inl px ↦ rw px (Memᴰ.tail (filter-Memᴰ p xs m e))
    | inr px ↦ rw px (filter-Memᴰ p xs m e)
  ]

  pub Memᴰ-filter :
      (p : A → Bool) (xs : List A) {a : A} → Memᴰ a (filter p xs) → Memᴰ a xs × (p a ≡ true)
  unfolding filter
  Memᴰ-filter p [] m = elim m [ ]
  Memᴰ-filter p (x ∷ xs) {a} m = elim (Bool-cases (p x)) [
    | inl px ↦ kept px (Memᴰ-filter p xs) (rw px at m)
    | inr px ↦ let (n, e) = Memᴰ-filter p xs (rw px at m) in (Memᴰ.tail n, e)
  ]
    where
      kept :
          p x ≡ true
          → (Memᴰ a (filter p xs) → Memᴰ a xs × (p a ≡ true))
          → Memᴰ a (x ∷ filter p xs)
          → Memᴰ a (x ∷ xs) × (p a ≡ true)
      kept px below (Memᴰ.head q) = (Memᴰ.head q, rw q px)
      kept px below (Memᴰ.tail n) = let (n', e) = below n in (Memᴰ.tail n', e)

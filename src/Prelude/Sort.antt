-- ===== src/Prelude/Sort.antt =====
-- `sort.Slice` and `sort.Strings` as insertion sort: the result is a permutation in which no element
-- is less than an earlier one. Go leaves the order of equivalent elements open; here they stay in
-- the order of the input.
use mathlib.Core.Path.{◌≡◌, refl}
use mathlib.Core.Logic.{inl, inr}
use mathlib.Core.Bool.{Bool, true, false, ◌||◌}
use mathlib.Core.List.{List, [], ◌∷◌, Perm, Memᴰ}
use mathlib.Core.List.Perm
use native.Mathlib.Omega.{arith}
use smtx_lab.Prelude.Tests.{if◌then◌else◌, Bool-cases, if_both, ltb}
use smtx_lab.Prelude.Lists.{any, All, All-mono}
use smtx_lab.Prelude.Texts.{Text, text_lt, is_empty}

module _ {ℓ} {A : Type ℓ} (less : A → A → Bool) where
  unfoldable pub insert_sorted : A → List A → List A
  insert_sorted x [] = x ∷ []
  insert_sorted x (y ∷ ys) =
      let rest = insert_sorted x ys in if less y x then y ∷ rest else x ∷ y ∷ ys

  unfoldable pub sort_slice : List A → List A
  unfolding insert_sorted
  sort_slice [] = []
  sort_slice (x ∷ xs) = insert_sorted x (sort_slice xs)

  pub insert_sorted-perm : (x : A) (ys : List A) → Perm (insert_sorted x ys) (x ∷ ys)
  unfolding insert_sorted
  insert_sorted-perm x [] = Perm.refl (x ∷ [])
  insert_sorted-perm x (y ∷ ys) = elim (Bool-cases (less y x)) [
    | inl e ↦ rw e (Perm.trans (Perm.cons y (insert_sorted-perm x ys)) (Perm.swap x y ys))
    | inr e ↦ rw e (Perm.refl (x ∷ y ∷ ys))
  ]

  pub sort_slice-perm : (xs : List A) → Perm (sort_slice xs) xs
  unfolding sort_slice
  sort_slice-perm [] = Perm.refl []
  sort_slice-perm (x ∷ xs) =
      Perm.trans (insert_sorted-perm x (sort_slice xs)) (Perm.cons x (sort_slice-perm xs))

  insert_sorted_not_empty : (x : A) (ys : List A) → is_empty (insert_sorted x ys) ≡ false
  unfolding insert_sorted is_empty
  insert_sorted_not_empty x [] = refl
  insert_sorted_not_empty x (y ∷ ys) =
      if_both (λ (zs : List A). is_empty zs ≡ false) (less y x) (λ e. refl) (λ e. refl)

  pub sort_slice_not_empty : (xs : List A) → is_empty xs ≡ false → is_empty (sort_slice xs) ≡ false
  unfolding sort_slice is_empty
  sort_slice_not_empty [] h = h
  sort_slice_not_empty (x ∷ xs) h = insert_sorted_not_empty x (sort_slice xs)

  module _ {κ} (P : A → Type κ) where
    pub All-insert_sorted : (x : A) (ys : List A) → P x → All P ys → All P (insert_sorted x ys)
    unfolding insert_sorted
    All-insert_sorted x [] px h = (px, tt)
    All-insert_sorted x (y ∷ ys) px (py, h) = elim (Bool-cases (less y x)) [
      | inl e ↦ rw e (py, All-insert_sorted x ys px h)
      | inr e ↦ rw e (px, (py, h))
    ]

    pub All-sort_slice : (xs : List A) → All P xs → All P (sort_slice xs)
    unfolding sort_slice
    All-sort_slice [] h = tt
    All-sort_slice (x ∷ xs) (px, h) = All-insert_sorted x (sort_slice xs) px (All-sort_slice xs h)

  -- No element is less than one before it.
  abbrev pub IsSorted : List A → Type ℓ
  IsSorted [] = Unit
  IsSorted (x ∷ xs) = All (λ y. less y x ≡ false) xs × IsSorted xs

-- What `less` must satisfy for a sort to have a meaning.
pub record IsOrder {ℓ} {A : Type ℓ} (less : A → A → Bool) : Type ℓ where
  pub asym : (x y : A) → less y x ≡ true → less x y ≡ false
  pub trans : (x y z : A) → less y x ≡ false → less z y ≡ false → less z x ≡ false

module _ {ℓ} {A : Type ℓ} (less : A → A → Bool) (o : IsOrder less) where
  insert_sorted-IsSorted :
      (x : A) (ys : List A) → IsSorted less ys → IsSorted less (insert_sorted less x ys)
  unfolding insert_sorted
  insert_sorted-IsSorted x [] s = (tt, tt)
  insert_sorted-IsSorted x (y ∷ ys) (h, s) = elim (Bool-cases (less y x)) [
    | inl e ↦ rw e (
      All-insert_sorted less (λ z. less z y ≡ false) x ys (o.asym x y e) h,
      insert_sorted-IsSorted x ys s,
    )
    | inr e ↦ rw e (
      (e, All-mono (λ z. less z y ≡ false) (λ z. less z x ≡ false) (λ z q. o.trans x y z e q) ys h),
      (h, s),
    )
  ]

  pub sort_slice-IsSorted : (xs : List A) → IsSorted less (sort_slice less xs)
  unfolding sort_slice
  sort_slice-IsSorted [] = tt
  sort_slice-IsSorted (x ∷ xs) =
      insert_sorted-IsSorted x (sort_slice less xs) (sort_slice-IsSorted xs)

module _ {ℓ} {A : Type ℓ} (less : A → A → Bool) where
  insert_sorted-Memᴰ : (a x : A) (ys : List A) → Memᴰ a (x ∷ ys) → Memᴰ a (insert_sorted less x ys)
  unfolding insert_sorted
  insert_sorted-Memᴰ a x [] m = m
  insert_sorted-Memᴰ a x (y ∷ ys) m = elim (Bool-cases (less y x)) [
    | inl e ↦ rw e (after y ys (λ k. insert_sorted-Memᴰ a x ys k) m)
    | inr e ↦ rw e m
  ]
    where
      after :
          (y : A) (ys : List A)
          → (Memᴰ a (x ∷ ys) → Memᴰ a (insert_sorted less x ys))
          → Memᴰ a (x ∷ y ∷ ys)
          → Memᴰ a (y ∷ insert_sorted less x ys)
      after y ys f (Memᴰ.head e) = Memᴰ.tail (f (Memᴰ.head e))
      after y ys f (Memᴰ.tail (Memᴰ.head e)) = Memᴰ.head e
      after y ys f (Memᴰ.tail (Memᴰ.tail k)) = Memᴰ.tail (f (Memᴰ.tail k))

  -- Sorting loses nothing.
  pub sort_slice-Memᴰ : (a : A) (xs : List A) → Memᴰ a xs → Memᴰ a (sort_slice less xs)
  unfolding sort_slice
  sort_slice-Memᴰ a [] m = m
  sort_slice-Memᴰ a (x ∷ xs) (Memᴰ.head e) =
      insert_sorted-Memᴰ a x (sort_slice less xs) (Memᴰ.head e)
  sort_slice-Memᴰ a (x ∷ xs) (Memᴰ.tail m) =
      insert_sorted-Memᴰ a x (sort_slice less xs) (Memᴰ.tail (sort_slice-Memᴰ a xs m))

text_lt_asym : (s t : Text) → text_lt t s ≡ true → text_lt s t ≡ false
unfolding text_lt
text_lt_asym [] t h = cc
text_lt_asym (c ∷ s) [] h = refl
text_lt_asym (c ∷ s) (d ∷ t) h = ground (arith, text_lt_asym s t)

text_lt_trans : (s t u : Text) → text_lt t s ≡ false → text_lt u t ≡ false → text_lt u s ≡ false
unfolding text_lt
text_lt_trans [] t u p q = refl
text_lt_trans (c ∷ s) [] u p q = cc
text_lt_trans (c ∷ s) (d ∷ t) [] p q = cc
text_lt_trans (c ∷ s) (d ∷ t) (e ∷ u) p q = ground (arith, text_lt_trans s t u)

-- Neither of two texts is less than the other only where they are equal.
pub text_lt_total : (s t : Text) → text_lt s t ≡ false → text_lt t s ≡ false → s ≡ t
unfolding text_lt
text_lt_total [] [] p q = refl
text_lt_total [] (d ∷ t) p q = cc
text_lt_total (c ∷ s) [] p q = cc
text_lt_total (c ∷ s) (d ∷ t) p q = ground (arith, text_lt_total s t)

pub text_lt-IsOrder : IsOrder text_lt
text_lt-IsOrder = record { asym = text_lt_asym; trans = text_lt_trans }

pub ltb-IsOrder : IsOrder ltb
ltb-IsOrder = record { asym = λ x y h. ground arith; trans = λ x y z p q. ground arith }

-- Sorting by a key.
pub by_key-IsOrder {ℓ κ} :
    {A : Type ℓ} {K : Type κ} (less : K → K → Bool) (key : A → K)
    → IsOrder less
    → IsOrder (λ (x y : A). less (key x) (key y))
by_key-IsOrder less key o = record {
  asym = λ x y. o.asym (key x) (key y);
  trans = λ x y z. o.trans (key x) (key y) (key z);
}

module _ {A : Type 0} (less : A → A → Bool) (test : A → Bool) where
  any-insert_sorted :
      (x : A) (ys : List A) → any test (insert_sorted less x ys) ≡ (test x || any test ys)
  unfolding insert_sorted any
  any-insert_sorted x [] = refl
  any-insert_sorted x (y ∷ ys) = ground (arith, any-insert_sorted x ys)

  pub any-sort_slice : (xs : List A) → any test (sort_slice less xs) ≡ any test xs
  unfolding sort_slice any
  any-sort_slice [] = refl
  any-sort_slice (x ∷ xs) =
      ground (arith, any-insert_sorted x (sort_slice less xs), any-sort_slice xs)

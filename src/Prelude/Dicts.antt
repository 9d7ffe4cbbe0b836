-- ===== src/Prelude/Dicts.antt =====
-- Go maps as association lists with distinct keys. Where the code ranges over a map it sorts what it
-- collects, so the order of the list does not show.
use mathlib.Core.Path.{◌≡◌, refl, subst}
use mathlib.Core.Logic.{inl, inr, ◌↔◌, ◌≢◌}
use mathlib.Core.Bool.{Bool, true, false}
use mathlib.Core.List.{List, [], ◌∷◌, Memᴰ}
use mathlib.Core.Option.{Option, none, some}
use native.Mathlib.Omega.{arith}
use smtx_lab.Prelude.Tests.{if◌then◌else◌, Bool-cases, Eq, ◌==◌, eq_iff, eq_refl}
use smtx_lab.Prelude.Lists.{All, any, any_iff, any-Memᴰ}

abbrev pub Dict {ℓ κ} : Type ℓ → Type κ → Type (ℓ ⊔ κ)
Dict K V = List (K × V)

module _ {ℓ κ} {K : Type ℓ} {V : Type κ} ⦃e : Eq K⦄ where
  -- `v, ok := m[k]`
  unfoldable pub lookup : K → Dict K V → Option V
  lookup key [] = none
  lookup key ((other, value) ∷ rest) =
      let later = lookup key rest in if other == key then some value else later

  -- `m[k] = v`
  unfoldable pub insert : K → V → Dict K V → Dict K V
  insert key value [] = (key, value) ∷ []
  insert key value ((other, old) ∷ rest) =
      let later = insert key value rest in
      if other == key then (other, value) ∷ rest else (other, old) ∷ later

  pub lookup-insert :
      (key asked : K) (value : V) (entries : Dict K V)
      → lookup asked (insert key value entries)
        ≡ (if key == asked then some value else lookup asked entries)
  unfolding lookup insert
  lookup-insert key asked value [] = refl
  lookup-insert key asked value ((other, old) ∷ rest) =
      let later = lookup-insert key asked value rest in
      ground (arith, later, eq_iff other asked, eq_iff other key, eq_iff key asked)

-- `m[k]` with the zero value for a missing key.
abbrev pub value_or {ℓ} : {V : Type ℓ} → V → Option V → V
value_or d none = d
value_or d (some v) = v

module _ {ℓ} {K : Type ℓ} ⦃e : Eq K⦄ where
  -- `slices.Contains`, which the code writes as a loop of its own
  unfoldable pub contains : List K → K → Bool
  unfolding any
  contains xs a = any (λ x. x == a) xs

  -- `set[k] = struct{}{}`
  unfoldable pub add_key : List K → K → List K
  add_key ks k = if contains ks k then ks else k ∷ ks

  -- All elements differ.
  abbrev pub IsDistinct : List K → Type ℓ
  IsDistinct [] = Unit
  IsDistinct (x ∷ xs) = All (λ y. x ≢ y) xs × IsDistinct xs

  pub contains_iff : (xs : List K) (a : K) → (contains xs a ≡ true) ↔ Memᴰ a xs
  unfolding contains
  contains_iff xs a = (
    λ h.
        let (b, m, q) = (any_iff (λ x. x == a) xs).0 h in
        subst (λ z. Memᴰ z xs) ((eq_iff b a).0 q) m,
    λ m. any-Memᴰ (λ x. x == a) xs m (eq_refl a),
  )

  All-contains : (xs : List K) (a : K) → contains xs a ≡ false → All (λ y. a ≢ y) xs
  unfolding contains
  All-contains [] a h = tt
  All-contains (x ∷ xs) a h = (λ q. ground (arith, eq_iff x a), All-contains xs a (ground arith))

  pub add_key-IsDistinct : (ks : List K) (k : K) → IsDistinct ks → IsDistinct (add_key ks k)
  unfolding add_key
  add_key-IsDistinct ks k d = elim (Bool-cases (contains ks k)) [
    | inl old ↦ rw old d
    | inr new ↦ rw new (All-contains ks k new, d)
  ]

  pub All-add_key {μ} :
      (P : K → Type μ) (ks : List K) (k : K) → P k → All P ks → All P (add_key ks k)
  unfolding add_key
  All-add_key P ks k p h = elim (Bool-cases (contains ks k)) [
    | inl old ↦ rw old h
    | inr new ↦ rw new (p, h)
  ]

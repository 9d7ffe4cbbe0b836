-- ===== src/Prelude/DictKeys.antt =====
-- The keys of a map are distinct, and what holds of every entry.
use mathlib.Core.Path.{◌≡◌, refl, subst, sym}
use mathlib.Core.Logic.{inl, inr, ◌≢◌}
use mathlib.Core.List.{List, [], ◌∷◌, map}
use mathlib.Core.Option.{some}
use native.Mathlib.Omega.{arith}
use smtx_lab.Prelude.Tests.{Bool-cases, Eq, ◌==◌, eq_iff, eq_refl}
use smtx_lab.Prelude.Lists.{All}
use smtx_lab.Prelude.Dicts.{Dict, lookup, insert, IsDistinct}

module _ {ℓ κ} {K : Type ℓ} {V : Type κ} ⦃e : Eq K⦄ where
  abbrev pub keys : Dict K V → List K
  keys = map (λ entry. entry.0)

  abbrev pub IsDict : Dict K V → Type ℓ
  IsDict m = IsDistinct (keys m)

  pub All-insert {μ} :
      (P : K × V → Type μ) (k : K) (v : V) (m : Dict K V)
      → P (k, v)
      → All P m
      → All P (insert k v m)
  unfolding insert
  All-insert P k v [] p h = (p, tt)
  All-insert P k v ((j, w) ∷ m) p (q, h) = elim (Bool-cases (j == k)) [
    | inl d ↦ rw d (subst (λ i. P (i, v)) (sym ((eq_iff j k).0 d)) p, h)
    | inr d ↦ rw d (q, All-insert P k v m p h)
  ]

  keys_apart :
      (i k : K) (v : V) (m : Dict K V)
      → i ≢ k
      → All (λ y. i ≢ y) (keys m)
      → All (λ y. i ≢ y) (keys (insert k v m))
  unfolding insert
  keys_apart i k v [] p h = (p, tt)
  keys_apart i k v ((j, w) ∷ m) p (q, h) = elim (Bool-cases (j == k)) [
    | inl d ↦ rw d (q, h)
    | inr d ↦ rw d (q, keys_apart i k v m p h)
  ]

  pub insert-IsDict : (k : K) (v : V) (m : Dict K V) → IsDict m → IsDict (insert k v m)
  unfolding insert
  insert-IsDict k v [] h = (tt, tt)
  insert-IsDict k v ((j, w) ∷ m) (p, h) = elim (Bool-cases (j == k)) [
    | inl d ↦ rw d (p, h)
    | inr d ↦
        rw d
          (keys_apart j k v m (λ q. ground (arith, d, (eq_iff j k).1 q)) p, insert-IsDict k v m h)
  ]

  -- An entry of a map is what `lookup` finds under its key.
  pub All-lookup : (m : Dict K V) → IsDict m → All (λ entry. lookup entry.0 m ≡ some entry.1) m
  unfolding lookup
  All-lookup [] h = tt
  All-lookup ((j, v) ∷ m) (p, h) = (rw (eq_refl j) refl, past m p (All-lookup m h))
    where
      past :
          (rest : Dict K V)
          → All (λ y. j ≢ y) (keys rest)
          → All (λ entry. lookup entry.0 m ≡ some entry.1) rest
          → All (λ entry. lookup entry.0 ((j, v) ∷ m) ≡ some entry.1) rest
      past [] q r = tt
      past ((i, w) ∷ rest) (q, qs) (r, rs) = (
        elim (Bool-cases (j == i)) [ inl d ↦ absurd (q ((eq_iff j i).0 d)) | inr d ↦ rw d r ],
        past rest qs rs,
      )

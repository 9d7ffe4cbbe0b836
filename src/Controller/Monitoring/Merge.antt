-- ===== src/Controller/Monitoring/Merge.antt =====
-- `mergeStringMap` of internal/controller/monitoring_stack.go, read by `lookup`.
use smtx_lab.Prelude.{
  ◌≡◌, refl, sym, ◌≢◌, inl, inr, Option, none, some, [], ◌∷◌, ◌==◌, eq_iff, nat_eq, text_eq,
  Bool-cases, All, Text, Dict, lookup, insert, lookup-insert,
}
use smtx_lab.Prelude.DictKeys.{keys, IsDict}
use smtx_lab.Controller.Monitoring.Manifests.{set_all, merge_string_map}

-- The first that is there.
abbrev pub or_else {ℓ} : {A : Type ℓ} → Option A → Option A → Option A
or_else none other = other
or_else (some a) other = some a

lookup-none : (k : Text) (m : Dict Text Text) → All (λ j. k ≢ j) (keys m) → lookup k m ≡ none
unfolding lookup
lookup-none k [] h = refl
lookup-none k ((j, v) ∷ m) (p, h) = elim (Bool-cases (j == k)) [
  | inl e ↦ absurd (p (sym ((eq_iff j k).0 e)))
  | inr e ↦ rw e (lookup-none k m h)
]

pub lookup-set_all :
    (k : Text) (m out : Dict Text Text)
    → IsDict m
    → lookup k (set_all m out) ≡ or_else (lookup k m) (lookup k out)
unfolding set_all lookup
lookup-set_all k [] out h = refl
lookup-set_all k ((j, v) ∷ m) out (p, h) = elim (Bool-cases (j == k)) [
  | inl e ↦
      let q : j ≡ k = (eq_iff j k).0 e in
      rw
        (
          lookup-set_all k m (insert j v out) h,
          lookup-insert j k v out,
          e,
          lookup-none k m (rw q at p),
        )
        refl
  | inr e ↦ rw (lookup-set_all k m (insert j v out) h, lookup-insert j k v out, e) refl
]

or_else-none {ℓ} : {A : Type ℓ} (o : Option A) → or_else o none ≡ o
or_else-none none = refl
or_else-none (some a) = refl

-- The merged map has under every key the desired value, and where none is desired the existing one.
pub lookup-merge_string_map :
    (k : Text) (existing desired : Dict Text Text)
    → IsDict existing
    → IsDict desired
    → lookup k (merge_string_map existing desired) ≡ or_else (lookup k desired) (lookup k existing)
unfolding merge_string_map lookup
lookup-merge_string_map k existing desired h d =
    rw
      (
        lookup-set_all k desired (set_all existing []) d,
        lookup-set_all k existing [] h,
        or_else-none (lookup k existing),
      )
      refl

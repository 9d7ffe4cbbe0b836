-- ===== src/Controller/Finalizers.antt =====
-- `hasFinalizer`, `addFinalizer` and `removeFinalizer` of internal/controller/finalizers.go: the
-- finalizers after the call, and what it returns.
use smtx_lab.Prelude.{
  ◌≡◌, refl, sym, ap, inl, inr, Bool, true, false, not, ◌||◌, List, [], ◌∷◌, ◌++◌, append-nil,
  append_assoc, arith, if◌then◌else◌, ◌==◌, eq_refl, nat_eq, text_eq, Bool-cases, or_true, filter,
  any, filter-append, Text,
}

unfoldable pub has_finalizer : List Text → Text → Bool
has_finalizer finalizers finalizer = any (λ item. item == finalizer) finalizers

unfoldable pub add_finalizer : List Text → Text → List Text × Bool
add_finalizer finalizers finalizer =
    if has_finalizer finalizers finalizer
    then (finalizers, false)
    else (finalizers ++ finalizer ∷ [], true)

-- The loop, with the list it has kept and whether it left one out.
unfoldable pub remove_loop : List Text → Text → List Text × Bool → List Text × Bool
remove_loop [] finalizer state = state
remove_loop (item ∷ items) finalizer (next, removed) =
    remove_loop items finalizer
      (if item == finalizer then (next, true) else (next ++ item ∷ [], removed))

unfoldable pub remove_finalizer : List Text → Text → List Text × Bool
remove_finalizer finalizers finalizer =
    let (next, removed) = remove_loop finalizers finalizer ([], false) in
    (if removed then next else finalizers, removed)

remove_loop-eq :
    (items : List Text) (finalizer : Text) (next : List Text) (removed : Bool)
    → remove_loop items finalizer (next, removed) ≡ (
      next ++ filter (λ item. not (item == finalizer)) items,
      removed || has_finalizer items finalizer,
    )
unfolding remove_loop filter has_finalizer any
remove_loop-eq [] finalizer next removed = ground (arith, append-nil next)
remove_loop-eq (item ∷ items) finalizer next removed = elim (Bool-cases (item == finalizer)) [
  | inl e ↦
      rw (e, remove_loop-eq items finalizer next true)
        (ap (λ b. (next ++ filter (λ i. not (i == finalizer)) items, b)) (sym (or_true removed)))
  | inr e ↦
      rw (e, remove_loop-eq items finalizer (next ++ item ∷ []) removed)
        (ap (λ l. (l, removed || has_finalizer items finalizer))
          (append_assoc next (item ∷ []) (filter (λ i. not (i == finalizer)) items)))
]

filter_none :
    (items : List Text) (finalizer : Text)
    → has_finalizer items finalizer ≡ false
    → filter (λ item. not (item == finalizer)) items ≡ items
unfolding has_finalizer any filter
filter_none [] finalizer h = refl
filter_none (item ∷ items) finalizer h = elim (Bool-cases (item == finalizer)) [
  | inl e ↦ absurd (not_any e h)
  | inr e ↦ rw e (ap (λ l. item ∷ l) (filter_none items finalizer (rw e at h)))
]
  where
    not_any :
        (item == finalizer) ≡ true
        → ((item == finalizer) || has_finalizer items finalizer) ≡ false
        → ⊥
    not_any e q = ground (arith, e, q)

-- `removeFinalizer` leaves the finalizers that differ from the one to remove, in their order, and tells
-- whether that one was there.
pub remove_finalizer-eq-filter :
    (finalizers : List Text) (finalizer : Text)
    → remove_finalizer finalizers finalizer
      ≡ (filter (λ item. not (item == finalizer)) finalizers, has_finalizer finalizers finalizer)
unfolding remove_finalizer
remove_finalizer-eq-filter finalizers finalizer =
    elim (Bool-cases (has_finalizer finalizers finalizer)) [
      | inl e ↦ rw (remove_loop-eq finalizers finalizer [] false, e) refl
      | inr e ↦
          rw (remove_loop-eq finalizers finalizer [] false, e, filter_none finalizers finalizer e)
            refl
    ]

any_last :
    (items : List Text) (finalizer : Text)
    → has_finalizer (items ++ finalizer ∷ []) finalizer ≡ true
unfolding has_finalizer any
any_last [] finalizer = rw (eq_refl finalizer) refl
any_last (item ∷ items) finalizer = rw (any_last items finalizer) (or_true (item == finalizer))

-- What `addFinalizer` adds to finalizers that lack it, `removeFinalizer` finds and takes off again.
pub remove_finalizer-add_finalizer :
    (finalizers : List Text) (finalizer : Text)
    → has_finalizer finalizers finalizer ≡ false
    → remove_finalizer (add_finalizer finalizers finalizer).0 finalizer ≡ (finalizers, true)
unfolding add_finalizer filter
remove_finalizer-add_finalizer finalizers finalizer h =
    rw
      (
        h,
        remove_finalizer-eq-filter (finalizers ++ finalizer ∷ []) finalizer,
        filter-append (λ item. not (item == finalizer)) finalizers (finalizer ∷ []),
        filter_none finalizers finalizer h,
        any_last finalizers finalizer,
        eq_refl finalizer,
      )
      (ap (λ l. (l, true)) (append-nil finalizers))

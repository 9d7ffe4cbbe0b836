-- ===== src/Controller/Client/Cleanup.antt =====
-- `delete_by_labels` against a server that stores objects under keys.
use mathlib.Core.Path.{subst}
use smtx_lab.Prelude.{
  ◌≡◌, refl, sym, ap, ◌∙◌, ◌⊎◌, inl, inr, Bool, true, false, ◌||◌, Option, none, List, [], ◌∷◌,
  if◌then◌else◌, ◌==◌, nat_eq, text_eq, any, Text, Dict,
}
use smtx_lab.Controller.Client.{
  Result, ok, err, ◌>>=◌, lift, Key, key_eq, Deletion, deleted, gone, refused, Client, delete_items,
  delete_by_labels, is_listed, IsServer, Removed,
}

Removed-trans :
    {O : Type 0} (Gone : Option O → Type 0) (a b : Bool) (x y z : Option O)
    → Removed Gone a x y
    → Removed Gone b y z
    → Removed Gone (a || b) x z
Removed-trans Gone true true x y z h k = k
Removed-trans Gone true false x y z h k = subst Gone (sym k) h
Removed-trans Gone false true x y z h k = k
Removed-trans Gone false false x y z h k = k ∙ h

-- Where a removal leaves nothing.
pub Removed-none :
    {O : Type 0} (b : Bool) (x y : Option O)
    → Removed (λ after. after ≡ none) b x y
    → y ≡ (if b then none else x)
Removed-none true x y h = h
Removed-none false x y h = h

module _ {W O : Type 0} {c : Client W O} {view : W → Key → Option O} {Stored : O → O → Type 0}
    {Gone : Option O → Type 0} (s : IsServer W O c view Stored Gone) where
  after_delete :
      (item : O) (items : List O) (w w1 w2 : W)
      → ((c.delete item w ≡ (deleted, w1)) ⊎ (c.delete item w ≡ (gone, w1)))
      → ((j : Key) → Removed Gone (any (λ o. c.key o == j) items) (view w1 j) (view w2 j))
      → (j : Key) → Removed Gone (any (λ o. c.key o == j) (item ∷ items)) (view w j) (view w2 j)
  unfolding any
  after_delete item items w w1 w2 d h j =
      Removed-trans Gone (c.key item == j) (any (λ o. c.key o == j) items) (view w j) (view w1 j)
        (view w2 j) (s.removed item w w1 d j) (h j)

  by_answer :
      (item : O) (items : List O) (w w2 : W) (answer : Deletion) (w1 : W)
      → c.delete item w ≡ (answer, w1)
      → elim answer [
        | deleted ↦ delete_items c items w1
        | gone ↦ delete_items c items w1
        | refused e ↦ (err e, w1)
      ]
        ≡ (ok tt, w2)
      → (delete_items c items w1 ≡ (ok tt, w2)
          → (j : Key) → Removed Gone (any (λ o. c.key o == j) items) (view w1 j) (view w2 j))
      → (j : Key) → Removed Gone (any (λ o. c.key o == j) (item ∷ items)) (view w j) (view w2 j)
  by_answer item items w w2 deleted w1 d h later = after_delete item items w w1 w2 (inl d) (later h)
  by_answer item items w w2 gone w1 d h later = after_delete item items w w1 w2 (inr d) (later h)
  by_answer item items w w2 (refused e) w1 d h later = absurd (not_ok h)
    where
      not_ok : ◌≡◌ {A = Result (Unit {0}) × W} (err e, w1) (ok tt, w2) → ⊥
      not_ok q = cc

  delete_items_lem :
      (items : List O) (w w2 : W)
      → delete_items c items w ≡ (ok tt, w2)
      → (j : Key) → Removed Gone (any (λ o. c.key o == j) items) (view w j) (view w2 j)
  unfolding delete_items any
  delete_items_lem [] w w2 h j = ap (λ v. view v j) (ap (λ p. p.1) (sym h))
  delete_items_lem (item ∷ items) w w2 h j =
      by_answer item items w w2 (c.delete item w).0 (c.delete item w).1 refl h
        (delete_items_lem items (c.delete item w).1 w2) j

  by_list :
      (namespace : Text) (match : Dict Text Text) (w w2 : W) (r : Result (List O))
      → c.list namespace match w ≡ r
      → (lift r >>= delete_items c) w ≡ (ok tt, w2)
      → (j : Key)
      → Removed Gone (is_listed c.labels namespace match j (view w j)) (view w j) (view w2 j)
  by_list namespace match w w2 (ok items) l h j =
      subst (λ (b : Bool). Removed Gone b (view w j) (view w2 j))
        (s.listed namespace match items w l j) (delete_items_lem items w w2 h j)
  by_list namespace match w w2 (err e) l h j = absurd (not_ok h)
    where
      not_ok : ◌≡◌ {A = Result (Unit {0}) × W} (err e, w) (ok tt, w2) → ⊥
      not_ok q = cc

  -- A clean-up that returns no error removes the objects of the namespace that carry the labels, and
  -- leaves every other object.
  pub delete_by_labels_lem :
      (namespace : Text) (match : Dict Text Text) (w w2 : W)
      → delete_by_labels c namespace match w ≡ (ok tt, w2)
      → (j : Key)
      → Removed Gone (is_listed c.labels namespace match j (view w j)) (view w j) (view w2 j)
  unfolding delete_by_labels
  delete_by_labels_lem namespace match w w2 h =
      by_list namespace match w w2 (c.list namespace match w) refl h

-- ===== src/Controller/Client/Held.antt =====
-- The objects that are stored as they are desired, through a sequence of `upsert`s.
use mathlib.Core.Path.{subst}
use smtx_lab.Prelude.{
  ◌≡◌, refl, sym, ◌∙◌, false, Option, some, List, [], ◌∷◌, if◌then◌else◌, ◌==◌, eq_refl, nat_eq,
  text_eq, All,
}
use smtx_lab.Controller.Client.{ok, Key, key_eq, Client, upsert, IsServer}
use smtx_lab.Controller.Client.Upsert.{sent, upsert_lem}

module _ {W O : Type 0} {c : Client W O} {view : W → Key → Option O} {Stored : O → O → Type 0}
    {Gone : Option O → Type 0} (s : IsServer W O c view Stored Gone) (key_of : O → Key)
    (key_lem : (o : O) → c.key o ≡ key_of o) (adopt : O → O → O) (desired : O)
    (adopt_key : (e : O) → key_of (adopt e desired) ≡ key_of e) where
  abbrev UpsertedAt : W → W → Key → Type 0
  UpsertedAt w w2 k =
      (kept : O) × Stored (sent adopt desired (view w k)) kept
      × ((j : Key) → view w2 j ≡ (if k == j then some kept else view w j))

  -- `upsert_lem` by the keys that the code writes.
  pub upsert_at :
      (w w2 : W) → upsert c adopt desired w ≡ (ok tt, w2) → UpsertedAt w w2 (key_of desired)
  upsert_at w w2 h =
      let same : (e : O) → c.key e ≡ c.key desired → c.key (adopt e desired) ≡ c.key desired =
        λ e q. key_lem (adopt e desired) ∙ (adopt_key e ∙ (sym (key_lem e) ∙ q)) in
      subst (λ k. UpsertedAt w w2 k) (key_lem desired) (upsert_lem s adopt desired same w w2 h)

module _ {W O : Type 0} {c : Client W O} {view : W → Key → Option O} {Stored : O → O → Type 0}
    {Gone : Option O → Type 0} (s : IsServer W O c view Stored Gone) (key_of : O → Key)
    (key_lem : (o : O) → c.key o ≡ key_of o) (Good : O → O → Type 0) where
  -- What is stored under the key of the desired object is good for it.
  abbrev pub Held : O → W → Type 0
  Held desired w = (kept : O) × (view w (key_of desired) ≡ some kept) × Good desired kept

  pub Held-frame :
      (o : O) (w w2 : W) → view w2 (key_of o) ≡ view w (key_of o) → Held o w → Held o w2
  Held-frame o w w2 v (kept, h, g) = (kept, v ∙ h, g)

  module _ (adopt : O → O → O) (desired : O)
      (adopt_key : (e : O) → key_of (adopt e desired) ≡ key_of e)
      (good : (before : Option O) (kept : O)
        → Stored (sent adopt desired before) kept
        → Good desired kept) where
    upsert_parts :
        (w w2 : W)
        → upsert c adopt desired w ≡ (ok tt, w2)
        → (kept : O) × Good desired kept
          × ((j : Key) → view w2 j ≡ (if key_of desired == j then some kept else view w j))
    upsert_parts w w2 h =
        let (kept, k, v) = upsert_at s key_of key_lem adopt desired adopt_key w w2 h in
        (kept, good (view w (key_of desired)) kept k, v)

    pub upsert-Held :
        (os : List O) (w w2 : W)
        → upsert c adopt desired w ≡ (ok tt, w2)
        → All (λ o. (key_of desired == key_of o) ≡ false) os
        → All (λ o. Held o w) os
        → All (λ o. Held o w2) (desired ∷ os)
    upsert-Held os w w2 h apart held =
        let (kept, g, v) = upsert_parts w w2 h in
        (
          (kept, v (key_of desired) ∙ rw (eq_refl (key_of desired)) refl, g),
          others kept v os apart held,
        )
      where
        others :
            (kept : O)
            → ((j : Key) → view w2 j ≡ (if key_of desired == j then some kept else view w j))
            → (rest : List O) → All (λ o. (key_of desired == key_of o) ≡ false) rest
            → All (λ o. Held o w) rest
            → All (λ o. Held o w2) rest
        others kept v [] a q = tt
        others kept v (o ∷ rest) (e, a) (q, qs) =
            (Held-frame o w w2 (v (key_of o) ∙ rw e refl) q, others kept v rest a qs)

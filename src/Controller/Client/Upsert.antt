-- ===== src/Controller/Client/Upsert.antt =====
-- `upsert` against a server that stores objects under keys.
use smtx_lab.Prelude.{◌≡◌, refl, Option, none, some, if◌then◌else◌, ◌==◌, nat_eq, text_eq}
use smtx_lab.Controller.Client.{
  Result, ok, err, Key, key_eq, Answer, found, not_found, failed, Client, upsert, IsServer,
}

-- What is sent for the desired object, by what is stored under its key.
abbrev pub sent : {O : Type 0} → (O → O → O) → O → Option O → O
sent adopt desired none = desired
sent adopt desired (some existing) = adopt existing desired

module _ {W O : Type 0} {c : Client W O} {view : W → Key → Option O} {Stored : O → O → Type 0}
    {Gone : Option O → Type 0} (s : IsServer W O c view Stored Gone) (adopt : O → O → O)
    (desired : O)
    (adopt-key : (existing : O)
      → c.key existing ≡ c.key desired
      → c.key (adopt existing desired) ≡ c.key desired) where
  abbrev Upserted : W → W → Type 0
  Upserted w w2 =
      (kept : O) × Stored (sent adopt desired (view w (c.key desired))) kept
      × ((j : Key) → view w2 j ≡ (if c.key desired == j then some kept else view w j))

  by_answer :
      (w w2 : W) (answer : Answer O)
      → c.get (c.key desired) w ≡ answer
      → elim answer [
        | found existing ↦ c.update (adopt existing desired) w
        | not_found ↦ c.create desired w
        | failed e ↦ (err e, w)
      ]
        ≡ (ok tt, w2)
      → Upserted w w2
  by_answer w w2 (found existing) g h =
      let (stored, same) = s.got (c.key desired) existing w g in
      let (kept, k, v) = s.updated (adopt existing desired) w w2 h in
      (kept, rw stored k, rw (adopt-key existing same) at v)
  by_answer w w2 not_found g h =
      let (kept, k, v) = s.created desired w w2 h in (kept, rw (s.missed (c.key desired) w g) k, v)
  by_answer w w2 (failed e) g h = absurd (not_ok h)
    where
      not_ok : ◌≡◌ {A = Result (Unit {0}) × W} (err e, w) (ok tt, w2) → ⊥
      not_ok q = cc

  -- An upsert that returns no error stores under the object's key what is sent for it, which is the
  -- object itself, or what the code adopts of it into an existing one, and leaves every other key.
  pub upsert_lem : (w w2 : W) → upsert c adopt desired w ≡ (ok tt, w2) → Upserted w w2
  unfolding upsert
  upsert_lem w w2 h = by_answer w w2 (c.get (c.key desired) w) refl h

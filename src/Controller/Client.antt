-- ===== src/Controller/Client.antt =====
-- The client of the API server as internal/controller uses it (`client.Client` of controller-runtime
-- is a parameter), and the two ways in which the controllers change objects: they get an object and
-- create or update it, and they list objects by labels and delete them.
pub mod Upsert
pub mod Cleanup
pub mod Triples
pub mod Held
use smtx_lab.Prelude.{
  ◌-◌, ◌/◌, ◌≡◌, ◌↔◌, ◌⊎◌, Bool, true, false, ◌&&◌, Option, none, some, List, [], ◌∷◌, arith,
  if◌then◌else◌, Eq, ◌==◌, eq_iff, nat_eq, text_eq, any, all, Text, Dict, lookup,
}
pub use smtx_lab.Prelude.Results.{Result, ok, err}

-- A call may change what is stored, also when it fails.
abbrev pub Call : Type 0 → Type 0 → Type 0
Call W A = W → Result A × W

infixl 5 ◌>>=◌ ◌>>◌
abbrev pub ◌>>=◌ : {W A B : Type 0} → Call W A → (A → Call W B) → Call W B
◌>>=◌ m f w = let (r, w') = m w in elim r [ ok a ↦ f a w' | err e ↦ (err e, w') ]

abbrev pub ◌>>◌ : {W A B : Type 0} → Call W A → Call W B → Call W B
m >> k = m >>= λ _. k

abbrev pub pure : {W A : Type 0} → A → Call W A
pure a w = (ok a, w)

abbrev pub lift : {W A : Type 0} → Result A → Call W A
lift r w = (r, w)

-- `if test { err := call; if err != nil { return err } }`
abbrev pub call_if : {W : Type 0} → Bool → Call W (Unit {0}) → Call W (Unit {0})
call_if test call w = if test then call w else (ok tt, w)

pub record Key : Type 0 where
  pub namespace : Text
  pub name : Text

abbrev pub same_key : Key → Key → Bool
same_key a b = a.namespace == b.namespace && a.name == b.name

pub same_key_iff : (a b : Key) → (same_key a b ≡ true) ↔ (a ≡ b)
same_key_iff a b = ground (arith, eq_iff a.namespace b.namespace, eq_iff a.name b.name)

instance abbrev pub key_eq : Eq Key
key_eq = record { same = same_key; same_iff = same_key_iff }

-- What `Get` answers: the object, the error that `IsNotFound` tells, or another error.
pub data Answer (O : Type 0) : Type 0 where
  found : O → Answer O
  not_found : Answer O
  failed : Text → Answer O

-- What `Delete` answers.
pub data Deletion : Type 0 where
  deleted : Deletion
  gone : Deletion
  refused : Text → Deletion

-- The calls for the objects of one kind. `W` is what the server stores, which a call returns changed.
pub record Client (W O : Type 0) : Type 0 where
  pub key : O → Key
  pub labels : O → Dict Text Text
  pub get : Key → W → Answer O
  pub create : O → Call W (Unit {0})
  pub update : O → Call W (Unit {0})
  pub list : Text → Dict Text Text → W → Result (List O)
  pub delete : O → W → Deletion × W

module _ {W O : Type 0} (c : Client W O) where
  -- `adopt existing desired` is the object to update.
  unfoldable pub upsert : (O → O → O) → O → Call W (Unit {0})
  upsert adopt desired w = elim (c.get (c.key desired) w) [
    | found existing ↦ c.update (adopt existing desired) w
    | not_found ↦ c.create desired w
    | failed e ↦ (err e, w)
  ]

  -- The loop of `deleteConfigMapsByLabels` and of `deleteJobsByLabels`; a missing object is no error.
  unfoldable pub delete_items : List O → Call W (Unit {0})
  delete_items [] w = (ok tt, w)
  delete_items (item ∷ items) w =
      let (answer, w') = c.delete item w in
      let rest = delete_items items w' in
      elim answer [ deleted ↦ rest | gone ↦ rest | refused e ↦ (err e, w') ]

  unfoldable pub delete_by_labels : Text → Dict Text Text → Call W (Unit {0})
  delete_by_labels namespace match w =
      (do items ← lift (c.list namespace match w); delete_items items) w

-- Every pair of the selector is among the labels.
abbrev pub is_value : Text → Option Text → Bool
is_value value none = false
is_value value (some other) = other == value

unfoldable pub has_labels : Dict Text Text → Dict Text Text → Bool
has_labels match labels = all (λ entry. is_value entry.1 (lookup entry.0 labels)) match

-- The object under a key is one that `List` answers.
unfoldable pub is_listed :
    {O : Type 0} → (O → Dict Text Text) → Text → Dict Text Text → Key → Option O → Bool
is_listed labels namespace match key none = false
is_listed labels namespace match key (some o) =
    key.namespace == namespace && has_labels match (labels o)

-- What is under a key before and after, where it is removed or else left as it is: `Gone` tells what
-- may be there after a removal.
abbrev pub Removed : {O : Type 0} → (Option O → Type 0) → Bool → Option O → Option O → Type 0
Removed Gone true before after = Gone after
Removed Gone false before after = after ≡ before

-- What the code relies on of the server: `view` is what is stored under a key, `Stored sent kept`
-- relates an object that was sent to what is kept of it, with the fields that the server fills in, and
-- `Gone` is what a deletion may leave.
pub record IsServer (W O : Type 0) (c : Client W O) (view : W → Key → Option O)
    (Stored : O → O → Type 0) (Gone : Option O → Type 0) : Type 0 where
  pub got : (k : Key) (o : O) (w : W) → c.get k w ≡ found o → (view w k ≡ some o) × (c.key o ≡ k)
  pub missed : (k : Key) (w : W) → c.get k w ≡ not_found → view w k ≡ none
  pub created :
      (o : O) (w w' : W)
      → c.create o w ≡ (ok tt, w')
      → (kept : O) × Stored o kept
        × ((j : Key) → view w' j ≡ (if c.key o == j then some kept else view w j))
  pub updated :
      (o : O) (w w' : W)
      → c.update o w ≡ (ok tt, w')
      → (kept : O) × Stored o kept
        × ((j : Key) → view w' j ≡ (if c.key o == j then some kept else view w j))
  pub listed :
      (namespace : Text) (match : Dict Text Text) (items : List O) (w : W)
      → c.list namespace match w ≡ ok items
      → (j : Key) → any (λ o. c.key o == j) items ≡ is_listed c.labels namespace match j (view w j)
  pub removed :
      (o : O) (w w' : W)
      → ((c.delete o w ≡ (deleted, w')) ⊎ (c.delete o w ≡ (gone, w')))
      → (j : Key) → Removed Gone (c.key o == j) (view w j) (view w' j)

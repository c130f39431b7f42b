-- ===== src/Json/Canonical/Normal.antt =====
-- A JSON value with the keys of its objects in order, at every depth: what the canonical bytes
-- (src/artifact.rs) stand for.
use rig_veh.Prelude.{
  List, [], ◌∷◌, Option, none, some, ◌≡◌, Text, ◌==◌, ==_refl, Bool-cases, inl, inr, All,
}
use rig_veh.Prelude.HashMap
use rig_veh.Prelude.HashMap.{HashMap}
use rig_veh.Prelude.Order.{sort}
use rig_veh.Prelude.Order.Laws.{All-sort}
use rig_veh.Json.{
  Value, null, bool, number, string, array, object, Items, nil, cons, Fields, end, field,
}
use rig_veh.Json.Canonical.{keys}

module _ {N : Type 0} where
  abbrev pub entry : Text → Option (Value N) → Fields N → Fields N
  entry k none fs = fs
  entry k (some v) fs = field k v fs

  -- The entries under these keys, in the order of the keys.
  unfoldable pub gather : HashMap (Value N) → List Text → Fields N
  gather m [] = end
  gather m (k ∷ ks) = entry k (HashMap.get m k) (gather m ks)

  unfoldable mutual
    unfolding gather sort HashMap.get

    pub normal : Value N → Value N
    normal null = null
    normal (bool b) = bool b
    normal (number n) = number n
    normal (string s) = string s
    normal (array xs) = array (normal_items xs)
    normal (object fs) = object (gather (normal_fields fs) (sort (keys (normal_fields fs))))

    pub normal_items : Items N → Items N
    normal_items nil = nil
    normal_items (cons x xs) = cons (normal x) (normal_items xs)

    -- Each field's value, beside its key.
    pub normal_fields : Fields N → HashMap (Value N)
    normal_fields end = []
    normal_fields (field k v fs) = (k, normal v) ∷ normal_fields fs

-- The map has an entry under this key.
abbrev pub Stored : {V : Type 0} → HashMap V → Text → Type 0
Stored {V} m k = (v : V) × (HashMap.get m k ≡ some v)

module _ {V : Type 0} where
  Stored-cons : (j k : Text) (v : V) (m : HashMap V) → Stored m k → Stored ((j, v) ∷ m) k
  unfolding HashMap.get
  Stored-cons j k v m h = elim (Bool-cases (j == k)) [ inl q ↦ (v, rw q) | inr q ↦ (h.0, rw q h.1) ]

  All-Stored-cons :
      (j : Text) (v : V) (m : HashMap V) (ks : List Text)
      → All (Stored m) ks
      → All (Stored ((j, v) ∷ m)) ks
  All-Stored-cons j v m [] h = tt
  All-Stored-cons j v m (k ∷ ks) h = (Stored-cons j k v m h.0, All-Stored-cons j v m ks h.1)

  keys-Stored : (m : HashMap V) → All (Stored m) (keys m)
  unfolding HashMap.get
  keys-Stored [] = tt
  keys-Stored ((k, v) ∷ m) = ((v, rw (==_refl k)), All-Stored-cons k v m (keys m) (keys-Stored m))

  pub sort-Stored : (m : HashMap V) → All (Stored m) (sort (keys m))
  sort-Stored m = All-sort (Stored m) (keys m) (keys-Stored m)

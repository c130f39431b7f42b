-- ===== src/Json/Canonical/Lookup.antt =====
-- Putting keys in order keeps what stands under each key.
use rig_veh.Prelude.{
  true, List, [], ◌∷◌, some, ◌≡◌, ◌∙◌, ap, Text, ◌==◌, ==_iff, any, arith, Bool-cases, inl, inr,
  Option-cases,
}
use rig_veh.Prelude.HashMap
use rig_veh.Prelude.HashMap.{HashMap}
use rig_veh.Prelude.Order.{sort}
use rig_veh.Prelude.Order.Laws.{any-sort}
use rig_veh.Json.{Value, object, Fields, end, field, get_field, get}
use rig_veh.Json.Canonical.{keys}
use rig_veh.Json.Canonical.Normal.{gather, normal, normal_fields}

any-keys :
    {V : Type 0} (m : HashMap V) (k : Text) (v : V)
    → HashMap.get m k ≡ some v
    → any (λ j. j == k) (keys m) ≡ true
unfolding HashMap.get
any-keys [] k v h = cc h
any-keys ((j, w) ∷ m) k v h = ground (arith, any-keys m k v)

module _ {N : Type 0} where
  get_field-gather :
      (m : HashMap (Value N)) (ks : List Text) (k : Text) (v : Value N)
      → any (λ j. j == k) ks ≡ true
      → HashMap.get m k ≡ some v
      → get_field (gather m ks) k ≡ some v
  unfolding gather get_field
  get_field-gather m [] k v h p = cc h
  get_field-gather m (j ∷ ks) k v h p = elim (Bool-cases (j == k)) [
    | inl q ↦
        let found : HashMap.get m j ≡ some v = ap (HashMap.get m) ((==_iff j k).0 q) ∙ p in
        rw (found, q)
    | inr q ↦
        let rest = get_field-gather m ks k v (rw q at h) p in
        elim (Option-cases (HashMap.get m j)) [
          | inl none_there ↦ rw none_there rest
          | inr (w, there) ↦ rw (there, q) rest
        ]
  ]

  get-normal_fields :
      (fs : Fields N) (k : Text) (v : Value N)
      → get_field fs k ≡ some v
      → HashMap.get (normal_fields fs) k ≡ some (normal v)
  unfolding get_field normal HashMap.get
  get-normal_fields end k v h = cc h
  get-normal_fields (field j w fs) k v h = elim (Bool-cases (j == k)) [
    | inl q ↦ let same : w ≡ v = cc (rw q at h) in rw (q, same)
    | inr q ↦ rw q (get-normal_fields fs k v (rw q at h))
  ]

  -- What `get` finds in a value, it finds in the one with its keys in order, with its own keys in
  -- order.
  pub get-normal :
      (fs : Fields N) (k : Text) (v : Value N)
      → get_field fs k ≡ some v
      → get (normal (object fs)) k ≡ some (normal v)
  unfolding normal get
  get-normal fs k v h =
      let p = get-normal_fields fs k v h in
      let m = normal_fields fs in
      get_field-gather m (sort (keys m)) k (normal v)
        (any-sort (λ j. j == k) (keys m) ∙ any-keys m k (normal v) p) p

  -- Two objects that are the same with their keys in order have the same under each key.
  pub normal-field :
      (fs gs : Fields N) (k : Text) (v w : Value N)
      → normal (object fs) ≡ normal (object gs)
      → get_field fs k ≡ some v
      → get_field gs k ≡ some w
      → normal v ≡ normal w
  normal-field fs gs k v w h p q =
      cc (get-normal fs k v p, ap (λ o. get o k) h, get-normal gs k w q)

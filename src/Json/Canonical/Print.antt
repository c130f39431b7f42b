-- ===== src/Json/Canonical/Print.antt =====
-- `write_canonical` prints the value with its keys in order (src/artifact.rs).
use rig_veh.Prelude.{
  Bool, true, false, List, [], ◌∷◌, ◌++◌, some, ◌≡◌, refl, Text, Bytes, text, Result, ok, All,
  if◌then◌else◌, Bool-cases, ◌==◌, inl, inr,
}
use rig_veh.Prelude.HashMap
use rig_veh.Prelude.HashMap.{HashMap}
use rig_veh.Prelude.Order.{sort}
use rig_veh.Json.{
  Value, null, bool, number, string, array, object, Items, nil, cons, Fields, end, field,
}
use rig_veh.Json.Canonical.{
  always, keys, separator, write_sorted, write_canonical, write_items, write_fields,
}
use rig_veh.Json.Canonical.Normal.{gather, normal, normal_items, normal_fields, Stored, sort-Stored}

module _ {N : Type 0} (escape : Text → Bytes) (show : N → Bytes) where
  -- The bytes of a value in the order in which it stands.
  unfoldable mutual
    pub print : Value N → Bytes
    print null = text "null"
    print (bool b) = if b then text "true" else text "false"
    print (number n) = show n
    print (string s) = escape s
    print (array xs) = text "[" ++ print_items xs true ++ text "]"
    print (object fs) = text "{" ++ print_fields fs true ++ text "}"

    pub print_items : Items N → Bool → Bytes
    print_items nil first = []
    print_items (cons x xs) first = separator first ++ print x ++ print_items xs false

    pub print_fields : Fields N → Bool → Bytes
    print_fields end first = []
    print_fields (field k v fs) first =
        separator first ++ escape k ++ text ":" ++ print v ++ print_fields fs false

  -- What each value prints, beside its key.
  abbrev outputs : HashMap (Value N) → HashMap (Result Text Bytes)
  outputs [] = []
  outputs ((k, v) ∷ m) = (k, ok (print v)) ∷ outputs m

  keys-outputs : (m : HashMap (Value N)) → keys (outputs m) ≡ keys m
  keys-outputs [] = refl
  keys-outputs ((k, v) ∷ m) = λ i. k ∷ keys-outputs m i

  get-outputs :
      (m : HashMap (Value N)) (k : Text) (v : Value N)
      → HashMap.get m k ≡ some v
      → HashMap.get (outputs m) k ≡ some (ok (print v))
  unfolding HashMap.get
  get-outputs [] k v h = cc h
  get-outputs ((j, w) ∷ m) k v h = elim (Bool-cases (j == k)) [
    | inl q ↦ rw q (cc (rw q at h))
    | inr q ↦ rw q (get-outputs m k v (rw q at h))
  ]

  write_sorted-outputs :
      (m : HashMap (Value N)) (ks : List Text) (first : Bool)
      → All (Stored m) ks
      → write_sorted (always escape) (outputs m) ks first ≡ ok (print_fields (gather m ks) first)
  unfolding write_sorted gather print
  write_sorted-outputs m [] first h = refl
  write_sorted-outputs m (k ∷ ks) first h =
      let (v, p) = h.0 in rw (get-outputs m k v p, p, write_sorted-outputs m ks false h.1)

  mutual
    unfolding write_canonical normal print

    -- What `write_canonical` returns, for every value.
    pub write_canonical_lem :
        (v : Value N) → write_canonical (always escape) show v ≡ ok (print (normal v))
    write_canonical_lem null = refl
    write_canonical_lem (bool b) = refl
    write_canonical_lem (number n) = refl
    write_canonical_lem (string s) = refl
    write_canonical_lem (array xs) = rw (write_items_lem xs true)
    write_canonical_lem (object fs) =
        let m = normal_fields fs in
        rw (
          write_fields_lem fs,
          keys-outputs m,
          write_sorted-outputs m (sort (keys m)) true (sort-Stored m),
        )

    write_items_lem :
        (xs : Items N) (first : Bool)
        → write_items (always escape) show xs first ≡ ok (print_items (normal_items xs) first)
    write_items_lem nil first = refl
    write_items_lem (cons x xs) first = rw (write_canonical_lem x, write_items_lem xs false)

    write_fields_lem :
        (fs : Fields N) → write_fields (always escape) show fs ≡ outputs (normal_fields fs)
    write_fields_lem end = refl
    write_fields_lem (field k v fs) = rw (write_canonical_lem v, write_fields_lem fs)

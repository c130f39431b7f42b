-- ===== src/Json/Canonical/KeyOrder.antt =====
-- `canonical_json` does not see the order in which an object's keys were inserted
-- (src/artifact.rs).
use rig_veh.Prelude.{
  Bool, true, false, List, [], ◌∷◌, ◌≡◌, refl, ◌≢◌, ◌∙◌, Text, Bytes, ==_iff, Result, arith,
}
use rig_veh.Prelude.HashMap
use rig_veh.Prelude.HashMap.{HashMap}
use rig_veh.Prelude.Order.{sort}
use rig_veh.Prelude.Order.Laws.{insert_sorted_comm}
use rig_veh.Json.{Value, array, object, Items, nil, cons, Fields, end, field}
use rig_veh.Json.Canonical.{keys, write_sorted, write_canonical, write_items, write_fields}

-- The same value, up to the order of the keys of its objects at every depth.
mutual
  pub data Reordered (N : Type 0) : Value N → Value N → Type 0 where
    same : (v : Value N) → Reordered N v v
    in_array : {xs ys : Items N} → ReorderedItems N xs ys → Reordered N (array xs) (array ys)
    in_object : {fs gs : Fields N} → ReorderedFields N fs gs → Reordered N (object fs) (object gs)

  pub data ReorderedItems (N : Type 0) : Items N → Items N → Type 0 where
    no_items : ReorderedItems N nil nil
    item :
        {v w : Value N} {xs ys : Items N}
        → Reordered N v w
        → ReorderedItems N xs ys
        → ReorderedItems N (cons v xs) (cons w ys)

  pub data ReorderedFields (N : Type 0) : Fields N → Fields N → Type 0 where
    no_fields : ReorderedFields N end end
    member :
        {v w : Value N} {fs gs : Fields N} (k : Text)
        → Reordered N v w
        → ReorderedFields N fs gs
        → ReorderedFields N (field k v fs) (field k w gs)
    swap :
        (j k : Text) (v w : Value N) (fs : Fields N)
        → j ≢ k
        → ReorderedFields N (field j v (field k w fs)) (field k w (field j v fs))
    trans :
        {fs gs hs : Fields N}
        → ReorderedFields N fs gs
        → ReorderedFields N gs hs
        → ReorderedFields N fs hs

-- Two maps of written values with the same keys and the same entries.
record SameOutput (m n : HashMap (Result Text Bytes)) : Type 0 where
  sorted : sort (keys m) ≡ sort (keys n)
  entries : (k : Text) → HashMap.get m k ≡ HashMap.get n k

write_sorted-ext :
    (to_string : Text → Result Text Bytes) (m n : HashMap (Result Text Bytes)) (ks : List Text)
    (first : Bool)
    → ((k : Text) → HashMap.get m k ≡ HashMap.get n k)
    → write_sorted to_string m ks first ≡ write_sorted to_string n ks first
unfolding write_sorted
write_sorted-ext to_string m n [] first h = refl
write_sorted-ext to_string m n (k ∷ ks) first h =
    rw (h k, write_sorted-ext to_string m n ks false h)

-- One more entry, with the same output, at the front of both.
SameOutput-cons :
    (k : Text) (r : Result Text Bytes) {m n : HashMap (Result Text Bytes)}
    → SameOutput m n
    → SameOutput ((k, r) ∷ m) ((k, r) ∷ n)
unfolding sort HashMap.get
SameOutput-cons k r h = record { sorted = rw h.sorted; entries = λ j. rw (h.entries j) }

SameOutput-swap :
    (j k : Text) (r s : Result Text Bytes) (m : HashMap (Result Text Bytes))
    → j ≢ k
    → SameOutput ((j, r) ∷ (k, s) ∷ m) ((k, s) ∷ (j, r) ∷ m)
unfolding sort HashMap.get
SameOutput-swap j k r s m ne = record {
  sorted = insert_sorted_comm j k (sort (keys m));
  entries = λ i. ground (arith, ==_iff j i, ==_iff k i);
}

SameOutput-trans :
    {m n o : HashMap (Result Text Bytes)} → SameOutput m n → SameOutput n o → SameOutput m o
SameOutput-trans h k = record {
  sorted = h.sorted ∙ k.sorted;
  entries = λ i. h.entries i ∙ k.entries i;
}

module _ {N : Type 0} (to_string : Text → Result Text Bytes) (show : N → Bytes) where
  mutual
    unfolding write_canonical

    pub write-Reordered :
        {v w : Value N}
        → Reordered N v w
        → write_canonical to_string show v ≡ write_canonical to_string show w
    write-Reordered (same v) = refl
    write-Reordered (in_array h) = rw (write_items-Reordered h true)
    write-Reordered (in_object {fs} {gs} h) =
        let s = write_fields-Reordered h in
        rw (s.sorted, write_sorted-ext to_string _ _ _ true s.entries)

    write_items-Reordered :
        {xs ys : Items N}
        → ReorderedItems N xs ys
        → (first : Bool) → write_items to_string show xs first ≡ write_items to_string show ys first
    write_items-Reordered no_items first = refl
    write_items-Reordered (item h hs) first = rw (write-Reordered h, write_items-Reordered hs false)

    write_fields-Reordered :
        {fs gs : Fields N}
        → ReorderedFields N fs gs
        → SameOutput (write_fields to_string show fs) (write_fields to_string show gs)
    write_fields-Reordered no_fields = record { sorted = refl; entries = λ k. refl }
    write_fields-Reordered (member {w} k h hs) =
        rw (write-Reordered h)
          (SameOutput-cons k (write_canonical to_string show w) (write_fields-Reordered hs))
    write_fields-Reordered (swap j k v w fs ne) = SameOutput-swap j k _ _ _ ne
    write_fields-Reordered (trans h k) =
        SameOutput-trans (write_fields-Reordered h) (write_fields-Reordered k)

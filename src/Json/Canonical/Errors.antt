-- ===== src/Json/Canonical/Errors.antt =====
-- The errors of `write_canonical` (src/artifact.rs).
use rig_veh.Prelude.{
  Bool, true, false, List, [], ◌∷◌, some, Text, Bytes, Result, ok, err, ◌>>=◌, ◌≡◌, refl, inl, inr,
  Bool-cases, ◌==◌, ==_iff, sym,
}
use rig_veh.Prelude.Member.{In, here, there, In-cons}
use rig_veh.Prelude.Order.{sort}
use rig_veh.Prelude.Order.Members.{In-sort_of}
use rig_veh.Prelude.HashMap
use rig_veh.Prelude.HashMap.{HashMap}
use rig_veh.Json.{
  Value, null, bool, number, string, array, object, Items, nil, cons, Fields, end, field,
}
use rig_veh.Json.Canonical.{keys, write_sorted, write_canonical, write_items, write_fields}

module _ (to_string : Text → Result Text Bytes) where
  -- An error of this result is one that `to_string` gives for some text.
  abbrev pub Blames : Result Text Bytes → Type 0
  Blames r = (why : Text) → r ≡ err why → (s : Text) × (to_string s ≡ err why)

  -- The output of every key is there.
  abbrev Blamed : HashMap (Result Text Bytes) → Text → Type 0
  Blamed out k = (r : Result Text Bytes) × (HashMap.get out k ≡ some r) × Blames r

  then-Blames :
      (r : Result Text Bytes) (f : Bytes → Result Text Bytes)
      → Blames r
      → ((b : Bytes) → Blames (f b))
      → Blames (r >>= f)
  then-Blames (ok b) f h k = k b
  then-Blames (err x) f h k = h

  ok-Blames : (b : Bytes) → Blames (ok b)
  ok-Blames b why h = cc h

  write_sorted-Blames :
      (out : HashMap (Result Text Bytes)) (ks : List Text) (first : Bool)
      → ((k : Text) → In k ks → Blamed out k)
      → Blames (write_sorted to_string out ks first)
  unfolding write_sorted
  write_sorted-Blames out [] first h = ok-Blames []
  write_sorted-Blames out (k ∷ ks) first h =
      let (r, found, blames) = h k (here ks) in
      then-Blames (to_string k) _ (λ why p. (k, p))
        λ key. rw found (
          then-Blames r _ blames λ value.
            then-Blames (write_sorted to_string out ks false) _
              (write_sorted-Blames out ks false λ j m. h j (there k m)) λ rest. ok-Blames _)

  Blamed-cons :
      (k : Text) (r : Result Text Bytes) (out : HashMap (Result Text Bytes))
      → Blames r
      → ((j : Text) → In j (keys out) → Blamed out j)
      → (j : Text) → In j (k ∷ keys out)
      → Blamed ((k, r) ∷ out) j
  unfolding HashMap.get
  Blamed-cons k r out blames h j m = elim (Bool-cases (k == j)) [
    | inl t ↦ (r, rw t refl, blames)
    | inr t ↦ elim (In-cons m) [
      | inl p ↦ cc (t, (==_iff k j).1 (sym p))
      | inr l ↦ let (s, found, b) = h j l in (s, rw t found, b)
    ]
  ]

module _ {N : Type 0} (to_string : Text → Result Text Bytes) (show : N → Bytes) where
  mutual
    unfolding write_canonical

    write_canonical-Blames : (v : Value N) → Blames to_string (write_canonical to_string show v)
    write_canonical-Blames null = ok-Blames to_string _
    write_canonical-Blames (bool b) = ok-Blames to_string _
    write_canonical-Blames (number n) = ok-Blames to_string _
    write_canonical-Blames (string s) = λ why p. (s, p)
    write_canonical-Blames (array xs) =
        then-Blames to_string (write_items to_string show xs true) _ (write_items-Blames xs true)
          λ inner. ok-Blames to_string _
    write_canonical-Blames (object fs) =
        let out = write_fields to_string show fs in
        then-Blames to_string (write_sorted to_string out (sort (keys out)) true) _
          (write_sorted-Blames to_string out (sort (keys out)) true
            λ k m. write_fields-Blamed fs k (In-sort_of k (keys out) m))
          λ inner. ok-Blames to_string _

    write_items-Blames :
        (xs : Items N) (first : Bool) → Blames to_string (write_items to_string show xs first)
    write_items-Blames nil first = ok-Blames to_string _
    write_items-Blames (cons x xs) first =
        then-Blames to_string (write_canonical to_string show x) _ (write_canonical-Blames x)
          λ item.
            then-Blames to_string (write_items to_string show xs false) _
              (write_items-Blames xs false) λ rest. ok-Blames to_string _

    write_fields-Blamed :
        (fs : Fields N) (k : Text)
        → In k (keys (write_fields to_string show fs))
        → Blamed to_string (write_fields to_string show fs) k
    write_fields-Blamed end k m = elim m [ ]
    write_fields-Blamed (field j v fs) k m =
        Blamed-cons to_string j (write_canonical to_string show v) (write_fields to_string show fs)
          (write_canonical-Blames v) (write_fields-Blamed fs) k m

  -- `write_canonical` fails only with an error that `to_string` gives for some text: the key that
  -- it looks up for each sorted entry is always there.
  pub write_canonical-eq_err :
      (v : Value N) (why : Text)
      → write_canonical to_string show v ≡ err why
      → (s : Text) × (to_string s ≡ err why)
  write_canonical-eq_err v why h = write_canonical-Blames v why h

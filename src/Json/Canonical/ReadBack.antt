-- ===== src/Json/Canonical/ReadBack.antt =====
-- Canonical bytes read back, so two values that print alike are the same (src/artifact.rs).
use rig_veh.Prelude.{
  ℕ, zero, suc, ◌+◌, ◌≤◌, ◌<◌, Bool, true, false, [], ◌++◌, append_assoc, append-nil, some, ◌≡◌,
  Text, Bytes, text, arith,
}
use rig_veh.Json.{
  Value, null, bool, number, string, array, object, Items, nil, cons, Fields, end, field,
}
use rig_veh.Json.Canonical.{separator}
use rig_veh.Json.Canonical.Print.{print, print_items, print_fields}
use rig_veh.Json.Canonical.Tokens.{
  IsTokenFormat, Stops, span-append, skip_colon_lem, head_of-show, head_of-escape, Stops-items,
  Stops-fields, skip-separator, starts-item, starts-field,
}
use rig_veh.Json.Canonical.Reader.Steps.{
  read-null, read-true, read-false, read-number, read-string, read-array, read-object,
  read_items-cons, read_items-nil, read_fields-field, read_fields-end,
}
use rig_veh.Json.Canonical.Reader.{read, read_items, read_fields}

-- Every call of the reader costs one.
mutual
  pub size : {N : Type 0} → Value N → ℕ
  size (array xs) = suc (size_items xs)
  size (object fs) = suc (size_fields fs)
  size _ = 1

  pub size_items : {N : Type 0} → Items N → ℕ
  size_items nil = 1
  size_items (cons x xs) = suc (size x + size_items xs)

  pub size_fields : {N : Type 0} → Fields N → ℕ
  size_fields end = 1
  size_fields (field k v fs) = suc (size v + size_fields fs)

size_pos : {N : Type 0} (v : Value N) → 0 < size v
unfolding size
size_pos (array xs) = omega arith
size_pos (object fs) = omega arith
size_pos _ = omega arith

size_items_pos : {N : Type 0} (xs : Items N) → 0 < size_items xs
unfolding size
size_items_pos nil = omega arith
size_items_pos (cons x xs) = omega arith

size_fields_pos : {N : Type 0} (fs : Fields N) → 0 < size_fields fs
unfolding size
size_fields_pos end = omega arith
size_fields_pos (field k v fs) = omega arith

module _ {N : Type 0} {escape : Text → Bytes} {show : N → Bytes}
    (f : IsTokenFormat escape show) where
  items_assoc :
      (first : Bool) (x xs rest : Bytes)
      → (separator first ++ x ++ xs) ++ rest ≡ separator first ++ (x ++ (xs ++ rest))
  items_assoc first x xs rest = simp append_assoc

  fields_assoc :
      (first : Bool) (k : Text) (v fs rest : Bytes)
      → (separator first ++ escape k ++ text ":" ++ v ++ fs) ++ rest
        ≡ separator first ++ (escape k ++ (text ":" ++ (v ++ (fs ++ rest))))
  fields_assoc first k v fs rest = simp append_assoc

  mutual
    unfolding print size

    -- With fuel enough the reader takes a printed value off the front of any input that does not
    -- go on with a number.
    read-print :
        (v : Value N) (n : ℕ) (rest : Bytes)
        → size v ≤ n
        → Stops rest
        → read f.read_string f.parse_number n (print escape show v ++ rest) ≡ some (v, rest)
    read-print v zero rest h stop = absurd (omega (arith, size_pos v))
    read-print null (suc n) rest h stop = read-null f.read_string f.parse_number n rest
    read-print (bool true) (suc n) rest h stop = read-true f.read_string f.parse_number n rest
    read-print (bool false) (suc n) rest h stop = read-false f.read_string f.parse_number n rest
    read-print (number x) (suc n) rest h stop =
        let e = span-append (show x) rest (f.show_bytes x) stop in
        read-number f.read_string f.parse_number n rest (show x ++ rest) x (head_of-show f x rest)
          (rw e (f.parse_show x)) (rw e)
    read-print (string s) (suc n) rest h stop =
        read-string f.read_string f.parse_number n rest (escape s ++ rest) s
          (head_of-escape f s rest) (f.read_escape s rest)
    read-print (array xs) (suc n) rest h stop =
        let inner = print_items escape show xs true in
        rw (append_assoc inner (text "]") rest) (
          read-array f.read_string f.parse_number n rest (inner ++ (text "]" ++ rest)) xs
            (read_items-print xs true n rest (omega arith)))
    read-print (object fs) (suc n) rest h stop =
        let inner = print_fields escape show fs true in
        rw (append_assoc inner (text "}") rest) (
          read-object f.read_string f.parse_number n rest (inner ++ (text "}" ++ rest)) fs
            (read_fields-print fs true n rest (omega arith)))

    read_items-print :
        (xs : Items N) (first : Bool) (n : ℕ) (rest : Bytes)
        → size_items xs ≤ n
        → read_items f.read_string f.parse_number n first
            (print_items escape show xs first ++ (text "]" ++ rest))
          ≡ some (xs, rest)
    read_items-print xs first zero rest h = absurd (omega (arith, size_items_pos xs))
    read_items-print nil first (suc n) rest h =
        read_items-nil f.read_string f.parse_number n first rest
    read_items-print (cons x xs) first (suc n) rest h =
        let more = print_items escape show xs false ++ (text "]" ++ rest) in
        let value = print escape show x ++ more in
        rw
          (items_assoc first (print escape show x) (print_items escape show xs false)
            (text "]" ++ rest))
          (read_items-cons f.read_string f.parse_number n rest (separator first ++ value) first
            value more x xs (starts-item f first x more) (skip-separator first value)
            (read-print x n more (omega arith) (Stops-items f xs rest))
            (read_items-print xs false n rest (omega arith)))

    read_fields-print :
        (fs : Fields N) (first : Bool) (n : ℕ) (rest : Bytes)
        → size_fields fs ≤ n
        → read_fields f.read_string f.parse_number n first
            (print_fields escape show fs first ++ (text "}" ++ rest))
          ≡ some (fs, rest)
    read_fields-print fs first zero rest h = absurd (omega (arith, size_fields_pos fs))
    read_fields-print end first (suc n) rest h =
        read_fields-end f.read_string f.parse_number n first rest
    read_fields-print (field k v fs) first (suc n) rest h =
        let more = print_fields escape show fs false ++ (text "}" ++ rest) in
        let value = print escape show v ++ more in
        let named = escape k ++ (text ":" ++ value) in
        rw
          (fields_assoc first k (print escape show v) (print_fields escape show fs false)
            (text "}" ++ rest))
          (read_fields-field f.read_string f.parse_number n rest (separator first ++ named) first
            value more k v fs named (text ":" ++ value) (starts-field f first k (text ":" ++ value))
            (skip-separator first named) (f.read_escape k (text ":" ++ value))
            (skip_colon_lem value) (read-print v n more (omega arith) (Stops-fields f fs rest))
            (read_fields-print fs false n rest (omega arith)))

  -- No two values print alike.
  pub print-injective : (v w : Value N) → print escape show v ≡ print escape show w → v ≡ w
  print-injective v w p =
      let n = size v + size w in
      let r = read-print v n [] (omega arith) tt in
      let s = read-print w n [] (omega arith) tt in cc (rw (append-nil, p) at r, rw append-nil at s)

-- ===== src/Json/Canonical/Reader/Steps.antt =====
-- One step of the reader for each thing that it can meet.
use rig_veh.Prelude.{ℕ, suc, Bool, true, false, ◌++◌, Option, some, ◌≡◌, refl, Text, Bytes, text}
use rig_veh.Json.{
  Value, null, bool, number, string, array, object, Items, nil, cons, Fields, end, field,
}
use rig_veh.Json.Canonical.Reader.{
  head_of, digit, quote, starts, span, skip, skip_colon, read_word, read, read_items, read_fields,
}

module _ {N : Type 0} (read_string : Bytes → Option (Text × Bytes))
    (parse_number : Bytes → Option N) (n : ℕ) (rest : Bytes) where
  pub read-null : read read_string parse_number (suc n) (text "null" ++ rest) ≡ some (null, rest)
  unfolding read head_of read_word
  read-null = refl

  pub read-true :
      read read_string parse_number (suc n) (text "true" ++ rest) ≡ some (bool true, rest)
  unfolding read head_of read_word
  read-true = refl

  pub read-false :
      read read_string parse_number (suc n) (text "false" ++ rest) ≡ some (bool false, rest)
  unfolding read head_of read_word
  read-false = refl

  module _ (bs : Bytes) where
    pub read-number :
        (x : N)
        → head_of bs ≡ digit
        → parse_number (span bs).0 ≡ some x
        → (span bs).1 ≡ rest
        → read read_string parse_number (suc n) bs ≡ some (number x, rest)
    unfolding read
    read-number x h p r = rw (h, read) (rw (p, r))

    pub read-string :
        (s : Text)
        → head_of bs ≡ quote
        → read_string bs ≡ some (s, rest)
        → read read_string parse_number (suc n) bs ≡ some (string s, rest)
    unfolding read
    read-string s h p = rw (h, read) (rw p)

    pub read-array :
        (xs : Items N)
        → read_items read_string parse_number n true bs ≡ some (xs, rest)
        → read read_string parse_number (suc n) (text "[" ++ bs) ≡ some (array xs, rest)
    unfolding read head_of
    read-array xs p = rw p

    pub read-object :
        (fs : Fields N)
        → read_fields read_string parse_number n true bs ≡ some (fs, rest)
        → read read_string parse_number (suc n) (text "{" ++ bs) ≡ some (object fs, rest)
    unfolding read head_of
    read-object fs p = rw p

    module _ (first : Bool) (cs ds : Bytes) where
      pub read_items-cons :
          (x : Value N) (xs : Items N)
          → starts (text "]") bs ≡ false
          → skip first bs ≡ some cs
          → read read_string parse_number n cs ≡ some (x, ds)
          → read_items read_string parse_number n false ds ≡ some (xs, rest)
          → read_items read_string parse_number (suc n) first bs ≡ some (cons x xs, rest)
      unfolding read starts
      read_items-cons x xs h s p q = rw (h, s, p, q)

      pub read_fields-field :
          (k : Text) (v : Value N) (fs : Fields N) (es gs : Bytes)
          → starts (text "}") bs ≡ false
          → skip first bs ≡ some es
          → read_string es ≡ some (k, gs)
          → skip_colon gs ≡ some cs
          → read read_string parse_number n cs ≡ some (v, ds)
          → read_fields read_string parse_number n false ds ≡ some (fs, rest)
          → read_fields read_string parse_number (suc n) first bs ≡ some (field k v fs, rest)
      unfolding read starts
      read_fields-field k v fs es gs h s t c p q = rw (h, s, t, c, p, q)

pub read_items-nil :
    {N : Type 0} (read_string : Bytes → Option (Text × Bytes)) (parse_number : Bytes → Option N)
    (n : ℕ) (first : Bool) (rest : Bytes)
    → read_items read_string parse_number (suc n) first (text "]" ++ rest) ≡ some (nil, rest)
unfolding read starts
read_items-nil read_string parse_number n first rest = refl

pub read_fields-end :
    {N : Type 0} (read_string : Bytes → Option (Text × Bytes)) (parse_number : Bytes → Option N)
    (n : ℕ) (first : Bool) (rest : Bytes)
    → read_fields read_string parse_number (suc n) first (text "}" ++ rest) ≡ some (end, rest)
unfolding read starts
read_fields-end read_string parse_number n first rest = refl

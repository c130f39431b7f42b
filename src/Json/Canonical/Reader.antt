-- ===== src/Json/Canonical/Reader.antt =====
-- A reader of canonical bytes, by which the proofs tell two of them apart. It is given a reader of
-- escaped texts and a parser of numbers.
pub mod Steps
use rig_veh.Prelude.{
  ℕ, zero, suc, Bool, true, false, List, [], ◌∷◌, Option, none, some, Text, Bytes, text, eqb, ltb,
  ◌&&◌, ◌||◌, if◌then◌else◌, drop,
}
use rig_veh.Json.{
  Value, null, bool, number, string, array, object, Items, nil, cons, Fields, end, field,
}

-- The bytes that the text of a JSON number is made of.
unfoldable pub is_number_byte : ℕ → Bool
is_number_byte c =
    (ltb 47 c && ltb c 58)
    || (eqb c b'-' || (eqb c b'+' || (eqb c b'.' || (eqb c b'e' || eqb c b'E'))))

infixl 5 ◌>>=◌
abbrev pub ◌>>=◌ : {A B : Type 0} → Option A → (A → Option B) → Option B
none >>= f = none
some a >>= f = f a

-- What the first byte announces.
pub data Head : Type 0 where
  digit quote opens_array opens_object word : Head

unfoldable pub classify : ℕ → Head
unfolding is_number_byte
classify c =
    if is_number_byte c
    then digit
    else if eqb c b'"'
    then quote
    else if eqb c b'['
    then opens_array
    else if eqb c b'{'
    then opens_object
    else word

unfoldable pub head_of : Bytes → Head
unfolding classify
head_of [] = word
head_of (c ∷ bs) = classify c

unfoldable pub starts : Text → Bytes → Bool
starts [] bs = true
starts (c ∷ t) [] = false
starts (c ∷ t) (b ∷ bs) = eqb c b && starts t bs

-- The longest run of number bytes, and what follows it.
unfoldable pub span : Bytes → Bytes × Bytes
unfolding is_number_byte
span [] = ([], [])
span (c ∷ bs) =
    let (ds, rest) = span bs in if is_number_byte c then (c ∷ ds, rest) else ([], c ∷ bs)

unfoldable pub skip : Bool → Bytes → Option Bytes
unfolding starts
skip true bs = some bs
skip false bs = if starts (text ",") bs then some (drop 1 bs) else none

unfoldable pub skip_colon : Bytes → Option Bytes
unfolding starts
skip_colon bs = if starts (text ":") bs then some (drop 1 bs) else none

module _ {N : Type 0} where
  unfoldable pub read_word : Bytes → Option (Value N × Bytes)
  unfolding starts
  read_word bs =
      if starts (text "null") bs
      then some (null, drop 4 bs)
      else if starts (text "true") bs
      then some (bool true, drop 4 bs)
      else if starts (text "false") bs
      then some (bool false, drop 5 bs)
      else none

module _ {N : Type 0} (read_string : Bytes → Option (Text × Bytes))
    (parse_number : Bytes → Option N) where
  unfoldable mutual
    pub read : ℕ → Bytes → Option (Value N × Bytes)
    read zero bs = none
    read (suc n) bs = elim (head_of bs) [
      | digit ↦ parse_number (span bs).0 >>= λ x. some (number x, (span bs).1)
      | quote ↦ read_string bs >>= λ s. some (string s.0, s.1)
      | opens_array ↦ read_items n true (drop 1 bs) >>= λ xs. some (array xs.0, xs.1)
      | opens_object ↦ read_fields n true (drop 1 bs) >>= λ fs. some (object fs.0, fs.1)
      | word ↦ read_word bs
    ]

    pub read_items : ℕ → Bool → Bytes → Option (Items N × Bytes)
    read_items zero first bs = none
    read_items (suc n) first bs = elim (starts (text "]") bs) [
      | true ↦ some (nil, drop 1 bs)
      | false ↦ do
        bs ← skip first bs
        x ← read n bs
        xs ← read_items n false x.1
        some (cons x.0 xs.0, xs.1)
    ]

    pub read_fields : ℕ → Bool → Bytes → Option (Fields N × Bytes)
    read_fields zero first bs = none
    read_fields (suc n) first bs = elim (starts (text "}") bs) [
      | true ↦ some (end, drop 1 bs)
      | false ↦ do
        bs ← skip first bs
        k ← read_string bs
        bs ← skip_colon k.1
        v ← read n bs
        fs ← read_fields n false v.1
        some (field k.0 v.0 fs.0, fs.1)
    ]

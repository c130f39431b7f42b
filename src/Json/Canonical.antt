-- ===== src/Json/Canonical.antt =====
-- `canonical_json` and `write_canonical` of src/artifact.rs, over the two encoders of `serde_json`
-- that they call: `to_string` of a text, which may fail,
-- and the text of a number.
pub mod KeyOrder
pub mod Normal
pub mod Print
pub mod Lookup
pub mod Reader
pub mod Tokens
pub mod ReadBack
pub mod Errors
use rig_veh.Prelude.{
  Bool, true, false, List, [], ◌∷◌, ◌++◌, map, ◌≡◌, refl, Text, Bytes, text, Result, ok, err, ok_or,
  ◌>>=◌, if◌then◌else◌,
}
use rig_veh.Prelude.HashMap
use rig_veh.Prelude.HashMap.{HashMap}
use rig_veh.Prelude.Order.{sort}
use rig_veh.Json.{
  Value, null, bool, number, string, array, object, Items, nil, cons, Fields, end, field,
}

-- `to_string` of serde_json where it writes every text.
abbrev pub always : (Text → Bytes) → Text → Result Text Bytes
always escape s = ok (escape s)

-- `if idx > 0 { out.write_all(b",") }`
abbrev pub separator : Bool → Bytes
separator true = []
separator false = text ","

abbrev pub keys {ℓ} : {V : Type ℓ} → HashMap V → List Text
keys [] = []
keys ((k, v) ∷ m) = k ∷ keys m

module _ (to_string : Text → Result Text Bytes) where
  -- The fields in the order of `sorted`; `first` is `idx == 0`. `out` is what the values write.
  unfoldable pub write_sorted : HashMap (Result Text Bytes) → List Text → Bool → Result Text Bytes
  write_sorted out [] first = ok []
  write_sorted out (k ∷ sorted) first = do
    key ← to_string k
    written ← ok_or (text "canonical_json: key vanished mid-iteration") (HashMap.get out k)
    value ← written
    rest ← write_sorted out sorted false
    ok (separator first ++ key ++ text ":" ++ value ++ rest)

module _ {N : Type 0} (to_string : Text → Result Text Bytes) (show : N → Bytes) where
  unfoldable mutual
    unfolding write_sorted sort HashMap.get

    pub write_canonical : Value N → Result Text Bytes
    write_canonical null = ok (text "null")
    write_canonical (bool b) = ok (if b then text "true" else text "false")
    write_canonical (number n) = ok (show n)
    write_canonical (string s) = to_string s
    write_canonical (array xs) = do inner ← write_items xs true; ok (text "[" ++ inner ++ text "]")
    write_canonical (object fs) = do
      inner ← write_sorted to_string (write_fields fs) (sort (keys (write_fields fs))) true
      ok (text "{" ++ inner ++ text "}")

    pub write_items : Items N → Bool → Result Text Bytes
    write_items nil first = ok []
    write_items (cons x xs) first = do
      item ← write_canonical x
      rest ← write_items xs false
      ok (separator first ++ item ++ rest)

    -- What each field's value writes, beside its key.
    pub write_fields : Fields N → HashMap (Result Text Bytes)
    write_fields end = []
    write_fields (field k v fs) = (k, write_canonical v) ∷ write_fields fs

-- ===== src/Json.antt =====
-- `serde_json::Value` and `serde_json::Map`, which the program builds and takes apart. `N` is the
-- type of JSON numbers. A map is read by key, so its iteration order matters to nothing but
-- `write_canonical`.
pub mod Canonical
use rig_veh.Prelude.{ℕ, Bool, List, [], ◌∷◌, Option, none, some, Text, ◌==◌, if◌then◌else◌}

mutual
  pub data Value (N : Type 0) : Type 0 where
    null : Value N
    bool : Bool → Value N
    number : N → Value N
    string : Text → Value N
    array : Items N → Value N
    object : Fields N → Value N

  pub data Items (N : Type 0) : Type 0 where
    nil : Items N
    cons : Value N → Items N → Items N

  pub data Fields (N : Type 0) : Type 0 where
    end : Fields N
    field : Text → Value N → Fields N → Fields N

module _ {N : Type 0} where
  -- `Map::get`
  unfoldable pub get_field : Fields N → Text → Option (Value N)
  get_field end k = none
  get_field (field j v fs) k = if j == k then some v else get_field fs k

  -- `Map::insert`
  unfoldable pub insert_field : Fields N → Text → Value N → Fields N
  insert_field end k v = field k v end
  insert_field (field j w fs) k v = if j == k then field k v fs else field j w (insert_field fs k v)

  -- `Value::get` with a text index
  unfoldable pub get : Value N → Text → Option (Value N)
  unfolding get_field ◌==◌
  get (object fs) k = get_field fs k
  get _ k = none

  unfoldable pub as_str : Value N → Option Text
  as_str (string s) = some s
  as_str _ = none

  -- The array of a `Vec`.
  unfoldable pub items : List (Value N) → Items N
  items [] = nil
  items (v ∷ vs) = cons v (items vs)

  unfoldable pub texts : List Text → Items N
  texts [] = nil
  texts (s ∷ ss) = cons (string s) (texts ss)

-- ===== src/Examples/Tokens.antt =====
-- The tokens of the demo read back.
use rig_veh.Prelude.{
  ℕ, zero, suc, ◌-◌, Bool, true, false, [], ◌∷◌, ◌++◌, Option, none, some, ◌≡◌, refl, Text, Bytes,
  All, length, eqb, if◌then◌else◌, arith,
}
use rig_veh.Host.{IsU32Number}
use rig_veh.Json.Canonical.Reader.{is_number_byte}
use rig_veh.Json.Canonical.Tokens.{IsTokenFormat}
use rig_veh.Examples.Demo.{demo, escape_rest, tally}

-- One more byte in front of what was read.
abbrev prepend : ℕ → Option (Text × Bytes) → Option (Text × Bytes)
prepend c none = none
prepend c (some (s, rest)) = some (c ∷ s, rest)

-- The last argument says that the byte before was a backslash.
read_rest : Bytes → Bool → Option (Text × Bytes)
read_rest [] escaped = none
read_rest (c ∷ bs) true = prepend c (read_rest bs false)
read_rest (c ∷ bs) false =
    let after = read_rest bs true in
    let more = prepend c (read_rest bs false) in
    if eqb c b'"' then some ([], bs) else if eqb c b'\\' then after else more

abbrev read_token : Bytes → Option (Text × Bytes)
read_token [] = none
read_token (c ∷ bs) = read_rest bs false

read_rest-escape_rest :
    (s : Text) (rest : Bytes) → read_rest (escape_rest s ++ rest) false ≡ some (s, rest)
unfolding read_rest
read_rest-escape_rest [] rest = refl
read_rest-escape_rest (c ∷ s) rest = ground (arith, read_rest-escape_rest s rest)

tally-bytes : (n : ℕ) → All (λ c. is_number_byte c ≡ true) (tally n)
unfolding is_number_byte
tally-bytes zero = (refl, tt)
tally-bytes (suc n) = (refl, tally-bytes n)

tally-cons : (n : ℕ) → (c : ℕ) × (t : Bytes) × (tally n ≡ c ∷ t)
tally-cons zero = (_, _, refl)
tally-cons (suc n) = (_, _, refl)

length-tally : (n : ℕ) → length (tally n) ≡ suc n
length-tally zero = refl
length-tally (suc n) = λ i. suc (length-tally n i)

pub demo-IsTokenFormat : IsTokenFormat demo.escape demo.number_display
demo-IsTokenFormat = record {
  read_string = read_token;
  parse_number = λ bs. some (length bs - 1);
  escape_quote = λ s. (escape_rest s, refl);
  read_escape = read_rest-escape_rest;
  show_ne_nil = tally-cons;
  show_bytes = tally-bytes;
  parse_show = λ n i. some (back n i);
}
  where
    back : (n : ℕ) → length (tally n) - 1 ≡ n
    back n = omega (arith, length-tally n)

pub demo-IsU32Number : IsU32Number
demo-IsU32Number = record { read_back = λ g h. refl }

-- ===== src/Json/Canonical/Tokens.antt =====
-- What the texts of JSON tokens keep, and the first bytes by which the reader tells printed values
-- apart (src/artifact.rs).
use rig_veh.Prelude.{
  ℕ, Bool, true, false, [], ◌∷◌, ◌++◌, Option, ◌&&◌, some, ◌≡◌, refl, Text, Bytes, text, All, arith,
  eqb,
}
use rig_veh.Json.{
  Value, null, bool, number, string, array, object, Items, nil, cons, Fields, end, field,
}
use rig_veh.Json.Canonical.{separator}
use rig_veh.Json.Canonical.Print.{print, print_items, print_fields}
use rig_veh.Json.Canonical.Reader.{
  is_number_byte, head_of, digit, quote, starts, span, skip, skip_colon,
}

-- What serde_json's texts of strings and numbers keep: a string token starts with a quote and ends
-- where it says, and a number is written with number bytes and parses back.
pub record IsTokenFormat {N : Type 0} (escape : Text → Bytes) (show : N → Bytes) : Type 0 where
  pub read_string : Bytes → Option (Text × Bytes)
  pub parse_number : Bytes → Option N
  pub escape_quote : (s : Text) → (t : Bytes) × (escape s ≡ b'"' ∷ t)
  pub read_escape : (s : Text) (rest : Bytes) → read_string (escape s ++ rest) ≡ some (s, rest)
  pub show_ne_nil : (n : N) → (c : ℕ) × (t : Bytes) × (show n ≡ c ∷ t)
  pub show_bytes : (n : N) → All (λ c. is_number_byte c ≡ true) (show n)
  pub parse_show : (n : N) → parse_number (show n) ≡ some n

-- The next byte, if there is one, does not go on with a number.
abbrev pub Stops : Bytes → Type 0
Stops [] = Unit
Stops (c ∷ bs) = is_number_byte c ≡ false

pub span-append :
    (ds rest : Bytes)
    → All (λ c. is_number_byte c ≡ true) ds
    → Stops rest
    → span (ds ++ rest) ≡ (ds, rest)
unfolding span
span-append [] [] h stop = refl
span-append [] (c ∷ rest) h stop = rw stop
span-append (d ∷ ds) rest h stop = rw (h.0, span-append ds rest h.1 stop)

pub skip_colon_lem : (bs : Bytes) → skip_colon (text ":" ++ bs) ≡ some bs
unfolding skip_colon
skip_colon_lem bs = refl

pub skip-separator : (first : Bool) (bs : Bytes) → skip first (separator first ++ bs) ≡ some bs
unfolding skip
skip-separator true bs = refl
skip-separator false bs = refl

module _ {N : Type 0} {escape : Text → Bytes} {show : N → Bytes}
    (f : IsTokenFormat escape show) where
  pub head_of-show : (n : N) (rest : Bytes) → head_of (show n ++ rest) ≡ digit
  unfolding head_of
  head_of-show n rest =
      let (c, t, p) = f.show_ne_nil n in
      let h : All (λ c. is_number_byte c ≡ true) (c ∷ t) = rw p at (f.show_bytes n) in rw (p, h.0)

  pub head_of-escape : (s : Text) (rest : Bytes) → head_of (escape s ++ rest) ≡ quote
  unfolding head_of
  head_of-escape s rest = let (t, p) = f.escape_quote s in rw p

  -- Neither a value nor a key looks like a closing bracket.
  starts-print :
      (v : Value N) (rest : Bytes) → starts (text "]") (print escape show v ++ rest) ≡ false
  unfolding print starts
  starts-print null rest = refl
  starts-print (bool true) rest = refl
  starts-print (bool false) rest = refl
  starts-print (number n) rest =
      let (c, t, p) = f.show_ne_nil n in
      let h : All (λ c. is_number_byte c ≡ true) (c ∷ t) = rw p at (f.show_bytes n) in
      rw p (no_bracket c h.0)
    where
      no_bracket : (c : ℕ) → is_number_byte c ≡ true → (eqb b']' c && true) ≡ false
      no_bracket c h = unfold is_number_byte in ground arith
  starts-print (string s) rest = let (t, p) = f.escape_quote s in rw p
  starts-print (array xs) rest = refl
  starts-print (object fs) rest = refl

  starts-escape : (s : Text) (rest : Bytes) → starts (text "}") (escape s ++ rest) ≡ false
  unfolding starts
  starts-escape s rest = let (t, p) = f.escape_quote s in rw p

  -- What follows a value in an array or an object.
  pub Stops-items :
      (xs : Items N) (rest : Bytes) → Stops (print_items escape show xs false ++ (text "]" ++ rest))
  unfolding print is_number_byte
  Stops-items nil rest = refl
  Stops-items (cons x xs) rest = refl

  pub Stops-fields :
      (fs : Fields N) (rest : Bytes)
      → Stops (print_fields escape show fs false ++ (text "}" ++ rest))
  unfolding print is_number_byte
  Stops-fields end rest = refl
  Stops-fields (field k v fs) rest = refl

  pub starts-item :
      (first : Bool) (v : Value N) (rest : Bytes)
      → starts (text "]") (separator first ++ (print escape show v ++ rest)) ≡ false
  unfolding starts
  starts-item true v rest = starts-print v rest
  starts-item false v rest = refl

  pub starts-field :
      (first : Bool) (k : Text) (rest : Bytes)
      → starts (text "}") (separator first ++ (escape k ++ rest)) ≡ false
  unfolding starts
  starts-field true k rest = starts-escape k rest
  starts-field false k rest = refl

-- ===== src/Host.antt =====
-- What the program uses and does not implement: floating point, the crates that it depends on, and
-- the hasher of the standard library. Every other module takes this record as an instance.
use rig_veh.Prelude.{
  ℕ, ◌<◌, ◌^◌, Bool, List, Option, Text, Bytes, Result, ok, ◌≡◌, All, length, true, false, some,
}
use rig_veh.Json.{Value}

-- `rig_compose::ToolSpec`
pub data ToolSpec : Type 0 where
  local : Text → ToolSpec

-- One write into a `Hasher`.
pub data HashInput : Type 0 where
  hash_u64 : ℕ → HashInput
  hash_u128 : ℕ → HashInput
  hash_text : Text → HashInput

pub record Env : Type 1 where
  -- `f64`: comparison, arithmetic, conversions and `Display`
  pub F64 : Type 0
  pub f64_zero : F64
  pub f64_one : F64
  pub f64_le : F64 → F64 → Bool
  pub f64_max : F64 → F64 → F64
  pub f64_add : F64 → F64 → F64
  pub f64_mul : F64 → F64 → F64
  pub f64_div : F64 → F64 → F64
  pub f64_from : ℕ → F64
  pub f64_display : F64 → Text
  -- serde_json: numbers, and the text of a string with its quotes and escapes
  pub Number : Type 0
  pub number_from : ℕ → Number
  pub number_as_f64 : Number → Option F64
  pub number_as_u64 : Number → Option ℕ
  pub number_display : Number → Text
  pub f64_to_value : F64 → Value Number
  pub escape : Text → Text
  -- rig_compose::AgentManifest: the names of its servers and delegates, and its serialisation
  pub Manifest : Type 0
  pub tools : Manifest → List ToolSpec
  pub mcp_servers : Manifest → List Text
  pub delegates : Manifest → List Text
  pub manifest_to_value : Manifest → Result Text (Value Number)
  -- ed25519_dalek, sha2 and hex; a signature is its 64 bytes
  pub SigningKey : Type 0
  pub VerifyingKey : Type 0
  pub verifying_key : SigningKey → VerifyingKey
  pub sign : SigningKey → Bytes → Bytes
  pub key_to_bytes : VerifyingKey → Bytes
  pub key_from_bytes : Bytes → Result Text VerifyingKey
  pub verify : VerifyingKey → Bytes → Bytes → Result Text (Unit {0})
  pub sha256 : Bytes → Bytes
  pub hex_encode : Bytes → Text
  pub hex_decode : Text → Result Text Bytes
  -- similar: the unified diff of two texts, with the header that src/diff.rs asks for
  pub unified_diff : Text → Text → Text
  -- std::collections::hash_map::DefaultHasher: `finish` after these writes
  pub hash_finish : List HashInput → ℕ

abbrev pub IsBytes : Bytes → Type 0
IsBytes = All (λ b. b < 256)

module _ ⦃e : Env⦄ where
  abbrev pub Json : Type 0
  Json = Value e.Number

  -- What Ed25519, SHA-256 and the hex codec promise.
  pub record IsCrypto : Type 0 where
    pub hex_round_trip : (b : Bytes) → IsBytes b → e.hex_decode (e.hex_encode b) ≡ ok b
    pub sha256_bytes : (b : Bytes) → IsBytes (e.sha256 b)
    pub sign_bytes : (k : e.SigningKey) (m : Bytes) → IsBytes (e.sign k m)
    pub sign_length : (k : e.SigningKey) (m : Bytes) → length (e.sign k m) ≡ 64
    pub key_bytes : (v : e.VerifyingKey) → IsBytes (e.key_to_bytes v)
    pub key_length : (v : e.VerifyingKey) → length (e.key_to_bytes v) ≡ 32
    pub key_round_trip : (v : e.VerifyingKey) → e.key_from_bytes (e.key_to_bytes v) ≡ ok v
    pub verify_sign :
        (k : e.SigningKey) (m : Bytes) → e.verify (e.verifying_key k) m (e.sign k m) ≡ ok tt

  -- What serde_json promises of the number of a u32.
  pub record IsU32Number : Type 0 where
    pub read_back : (g : ℕ) → g < 2 ^ 32 → e.number_as_u64 (e.number_from g) ≡ some g

  -- What IEEE comparison gives away from NaN, and serde_json for its numbers, which are finite.
  pub record IsScoreOrder : Type 1 where
    pub IsNumber : e.F64 → Type 0
    pub zero_IsNumber : IsNumber e.f64_zero
    pub read_IsNumber : (n : e.Number) (x : e.F64) → e.number_as_f64 n ≡ some x → IsNumber x
    pub le_refl : (x : e.F64) → IsNumber x → e.f64_le x x ≡ true
    pub le_total :
        (x y : e.F64) → IsNumber x → IsNumber y → e.f64_le x y ≡ false → e.f64_le y x ≡ true
    pub le_trans :
        (x y z : e.F64)
        → IsNumber x
        → IsNumber y
        → IsNumber z
        → e.f64_le x y ≡ true
        → e.f64_le y z ≡ true
        → e.f64_le x z ≡ true

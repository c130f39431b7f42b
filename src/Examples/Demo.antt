-- ===== src/Examples/Demo.antt =====
-- A small environment that keeps the promises of `IsCrypto`: numbers for floats, a toy signature of
-- 64 bytes and a one-byte digest.
use rig_veh.Prelude.{
  ℕ, zero, suc, ◌+◌, ◌%◌, ◌*◌, ◌/◌, Bool, true, false, List, [], ◌∷◌, ◌++◌, map, some, Text, Bytes,
  text, ok, err, Result, ltb, eqb, if◌then◌else◌, ◌==◌, ==_refl, display, ◌≡◌, refl, arith, not,
  ◌||◌,
}
use rig_veh.Host.{Env, IsCrypto, IsBytes, local}
use rig_veh.Json.{Value, null, number, string, array, object, end, field, texts}
use rig_veh.Artifact.{AgentArtifact}
use rig_veh.Intent.{AllowedScope}
use rig_veh.Evaluator.{Evaluator, continue}

pub record DemoManifest : Type 0 where
  pub name : Text
  pub tools : List Text
  pub mcp_servers : List Text
  pub delegates : List Text

abbrev pub manifest_value : DemoManifest → Value ℕ
manifest_value m =
    object (field (text "name") (string m.name) (field (text "tools") (array (texts m.tools)) end))

-- A string token with its closing quote, and a number in unary.
abbrev pub escape_rest : Text → Bytes
escape_rest [] = b'"' ∷ []
escape_rest (c ∷ s) =
    if eqb c b'"' || eqb c b'\\' then b'\\' ∷ c ∷ escape_rest s else c ∷ escape_rest s

abbrev pub tally : ℕ → Bytes
tally zero = b'0' ∷ []
tally (suc n) = b'1' ∷ tally n

abbrev pub checksum : Bytes → ℕ
checksum [] = 0
checksum (b ∷ bs) = (b + checksum bs) % 256

abbrev pub zeros : ℕ → Bytes → Bytes
zeros zero rest = rest
zeros (suc n) rest = 0 ∷ zeros n rest

abbrev pub key_byte : Bool → ℕ
key_byte true = 1
key_byte false = 0

abbrev pub demo_sign : Bool → Bytes → Bytes
demo_sign key m = key_byte key ∷ zeros 62 (checksum m % 256 ∷ [])

abbrev pub demo_key_from : Bytes → Result Text Bool
demo_key_from [] = err (text "empty")
demo_key_from (b ∷ bs) = ok (eqb b 1)

instance abbrev pub demo : Env
demo = record {
  F64 = ℕ;
  f64_zero = 0;
  f64_one = 1;
  f64_le = λ a b. not (ltb b a);
  f64_max = λ a b. if ltb a b then b else a;
  f64_add = λ a b. a + b;
  f64_mul = λ a b. a * b;
  f64_div = λ a b. a / b;
  f64_from = λ n. n;
  f64_display = display;
  Number = ℕ;
  number_from = λ n. n;
  number_as_f64 = some;
  number_as_u64 = some;
  number_display = tally;
  f64_to_value = number;
  escape = λ s. b'"' ∷ escape_rest s;
  Manifest = DemoManifest;
  tools = λ m. map local m.tools;
  mcp_servers = λ m. m.mcp_servers;
  delegates = λ m. m.delegates;
  manifest_to_value = λ m. ok (manifest_value m);
  SigningKey = Bool;
  VerifyingKey = Bool;
  verifying_key = λ k. k;
  sign = demo_sign;
  key_to_bytes = λ v. key_byte v ∷ zeros 31 [];
  key_from_bytes = demo_key_from;
  verify = λ v m s. if s == demo_sign v m then ok tt else err (text "bad signature");
  sha256 = λ b. checksum b % 256 ∷ [];
  hex_encode = λ b. b;
  hex_decode = ok;
  unified_diff = λ a b. a ++ b;
  hash_finish = λ w. 0;
}

key_round : (v : Bool) → demo_key_from (key_byte v ∷ zeros 31 []) ≡ ok v
key_round true = refl
key_round false = refl

sign_small : (k : Bool) (m : Bytes) → IsBytes (demo_sign k m)
sign_small true m = omega arith
sign_small false m = omega arith

key_small : (v : Bool) → IsBytes (key_byte v ∷ zeros 31 [])
key_small true = omega arith
key_small false = omega arith

pub demo-IsCrypto : IsCrypto
demo-IsCrypto = record {
  hex_round_trip = λ b h. refl;
  sha256_bytes = λ b. omega arith;
  sign_bytes = sign_small;
  sign_length = λ k m. refl;
  key_bytes = key_small;
  key_length = λ v. refl;
  key_round_trip = key_round;
  verify_sign = λ k m. rw (==_refl (demo_sign k m)) refl;
}

-- An agent, a scope and an evaluator.
abbrev pub agent : Text → List Text → AgentArtifact
agent name tools = record {
  manifest = record { name = name; tools = tools; mcp_servers = []; delegates = [] };
}

abbrev pub scope : AllowedScope
scope = record {
  allowed_tools = text "search" ∷ [];
  allowed_mcp_servers = [];
  allowed_delegates = [];
  max_generation = some 3;
  gated_capabilities = text "tool:trade" ∷ [];
}

abbrev pub scoring : ℕ → Evaluator
scoring score = record {
  evaluate = λ a. ok (record { score = score; details = null });
  evaluate_staged =
      λ a i. ok (record { result = record { score = score; details = null }; decision = continue });
}

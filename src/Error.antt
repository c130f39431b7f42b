-- ===== src/Error.antt =====
-- src/error.rs. The errors of `serde_json` and `std::io` are kept by their messages.
use rig_veh.Prelude.{Text, Result}

pub data Error : Type 0 where
  canonical : Text → Error
  hash_mismatch : Text → Text → Error
  signature_invalid : Text → Error
  invalid_key : Text → Error
  policy_denied : Text → Error
  evaluator : Text → Error
  ledger : Text → Error
  not_found : Text → Error
  missing_parent : Error
  json : Text → Error
  io : Text → Error

-- `crate::error::Result`
abbrev pub Outcome {ℓ} : Type ℓ → Type ℓ
Outcome A = Result Error A

-- How code that can panic fails: with an error, or with a panic and its message.
pub data Fault : Type 0 where
  raised : Error → Fault
  panicked : Text → Fault

abbrev pub Attempt {ℓ} : Type ℓ → Type ℓ
Attempt A = Result Fault A

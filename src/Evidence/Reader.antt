-- ===== src/Evidence/Reader.antt =====
-- How the derived `Deserialize` of the evidence bundle reads the objects that the derived
-- `Serialize` writes (src/evidence.rs): a required field must be there, a field with a default
-- may be absent, and null is no `Option`.
use rig_veh.Prelude.{
  ℕ, ltb, List, [], ◌∷◌, Option, none, some, Text, text, Result, ok, err, ok_or, ◌>>=◌, ◌≡◌, ◌==◌,
  ◌^◌, if◌then◌else◌,
}
use rig_veh.Host.{Env, Json}
use rig_veh.Json.{Items, nil, cons, Fields, null, string, number, array, object, get_field}
use rig_veh.Evidence.{
  PolicyVerdict, approved, denied, requires_approval, OperatorApproval, EvidenceBundle,
}

module _ ⦃e : Env⦄ where
  abbrev pub required : Text → Option Json → Result Text Json
  required name = ok_or name

  abbrev pub read_text : Json → Result Text Text
  read_text (string s) = ok s
  read_text _ = err (text "expected a string")

  abbrev in_range : ℕ → Result Text ℕ
  in_range g = if ltb g (2 ^ 32) then ok g else err (text "expected a u32")

  abbrev pub read_u32 : Json → Result Text ℕ
  read_u32 (number n) = do g ← ok_or (text "expected an integer") (e.number_as_u64 n); in_range g
  read_u32 _ = err (text "expected a number")

  -- The variant that the tag names.
  unfoldable pub read_variant : Text → Text → Result Text PolicyVerdict
  unfolding ◌==◌
  read_variant tag reason =
      if tag == text "approved"
      then ok (approved reason)
      else if tag == text "denied"
      then ok (denied reason)
      else if tag == text "requires_approval"
      then ok (requires_approval reason)
      else err (text "unknown variant")

  unfoldable pub read_verdict : Json → Result Text PolicyVerdict
  unfolding read_variant get_field ◌==◌
  read_verdict (object fs) = do
    tag ← required (text "outcome") (get_field fs (text "outcome"))
    tag ← read_text tag
    reason ← required (text "reason") (get_field fs (text "reason"))
    reason ← read_text reason
    read_variant tag reason
  read_verdict _ = err (text "expected an object")

  unfoldable pub read_approval : Json → Result Text OperatorApproval
  unfolding get_field ◌==◌
  read_approval (object fs) = do
    operator ← required (text "operator") (get_field fs (text "operator"))
    operator ← read_text operator
    note ← required (text "note") (get_field fs (text "note"))
    note ← read_text note
    ok (record { operator = operator; note = note })
  read_approval _ = err (text "expected an object")

  -- An `Option<Value>` with a default.
  abbrev pub read_option : Option Json → Option Json
  read_option (some null) = none
  read_option v = v

  -- A `Vec` with a default.
  unfoldable pub read_items :
      {A : Type 0} → (Json → Result Text A) → Items e.Number → Result Text (List A)
  read_items read nil = ok []
  read_items read (cons v vs) = do a ← read v; rest ← read_items read vs; ok (a ∷ rest)

  unfoldable pub read_vec :
      {A : Type 0} → (Json → Result Text A) → Option Json → Result Text (List A)
  unfolding read_items
  read_vec read none = ok []
  read_vec read (some (array vs)) = read_items read vs
  read_vec read (some _) = err (text "expected an array")

  unfoldable pub read_bundle : Fields e.Number → Result Text EvidenceBundle
  unfolding read_verdict read_approval read_vec get_field ◌==◌
  read_bundle fs = do
    version ← required (text "version") (get_field fs (text "version"))
    version ← read_u32 version
    policy ← required (text "policy") (get_field fs (text "policy"))
    policy ← read_verdict policy
    context ← read_vec ok (get_field fs (text "context_items"))
    approvals ← read_vec read_approval (get_field fs (text "operator_approvals"))
    ok (record {
      version = version;
      policy = policy;
      evaluator_report = read_option (get_field fs (text "evaluator_report"));
      context_items = context;
      operator_approvals = approvals;
    })

  -- What the derived `Deserialize` promises: it takes the objects that this reading takes. It may
  -- take more, such rest structs that are written as arrays, and its errors have other texts.
  pub record ReadsFields (parse : Json → Result Text EvidenceBundle) : Type 0 where
    pub reads :
        (fs : Fields e.Number) (b : EvidenceBundle)
        → read_bundle fs ≡ ok b
        → parse (object fs) ≡ ok b

-- ===== src/Evidence/RoundTrip.antt =====
-- Evidence bundles that are written to JSON and read back (src/evidence.rs).
use rig_veh.Prelude.{
  ℕ, Bool, ltb, List, [], ◌∷◌, map, Option, none, some, Text, text, Result, ok, ◌≡◌, refl, ◌∙◌,
  arith, ◌==◌, ◌<◌, ◌^◌, ap,
}
use rig_veh.Host.{Env, Json, IsU32Number}
use rig_veh.Json.{Fields, field, end, object, items, number, get_field}
use rig_veh.Node.{AgentNode}
use rig_veh.Identity.{verify_node}
use rig_veh.Evidence.{
  PolicyVerdict, approved, denied, requires_approval, OperatorApproval, EvidenceBundle, AuditRecord,
  verdict_to_value, approval_to_value, bundle_to_value, from_value, from_node, unless_none,
  unless_empty, evidence_of, succeeds,
}
use rig_veh.Evidence.Reader.{
  read_variant, read_verdict, read_approval, read_option, read_items, read_vec, read_u32,
  read_bundle, ReadsFields,
}

ltb_lt : (a b : ℕ) → a < b → ltb a b ≡ Bool.true
ltb_lt a b h = ground arith

module _ ⦃e : Env⦄ where
  read_verdict-verdict_to_value : (v : PolicyVerdict) → read_verdict (verdict_to_value v) ≡ ok v
  unfolding read_verdict verdict_to_value read_variant get_field ◌==◌
  read_verdict-verdict_to_value (approved why) = refl
  read_verdict-verdict_to_value (denied why) = refl
  read_verdict-verdict_to_value (requires_approval why) = refl

  read_approval-approval_to_value :
      (a : OperatorApproval) → read_approval (approval_to_value a) ≡ ok a
  unfolding read_approval approval_to_value get_field ◌==◌
  read_approval-approval_to_value a = refl

  read_items-items : (vs : List Json) → read_items ok (items vs) ≡ ok vs
  unfolding read_items items
  read_items-items [] = refl
  read_items-items (v ∷ vs) = rw (read_items-items vs) refl

  read_approvals :
      (rest : List OperatorApproval)
      → read_items read_approval (items (map approval_to_value rest)) ≡ ok rest
  unfolding read_items items
  read_approvals [] = refl
  read_approvals (a ∷ rest) = rw (read_approval-approval_to_value a, read_approvals rest) refl

  read_u32-number_from :
      (u : IsU32Number) (g : ℕ) → g < 2 ^ 32 → read_u32 (number (e.number_from g)) ≡ ok g
  read_u32-number_from u g h = rw (u.read_back g h, ltb_lt g (2 ^ 32) h) refl

  skip_none :
      (j k : Text) (v : Option Json) (fs : Fields e.Number)
      → (j == k) ≡ Bool.false
      → get_field (unless_none j v fs) k ≡ get_field fs k
  unfolding get_field
  skip_none j k none fs h = refl
  skip_none j k (some v) fs h = rw h refl

  skip_empty :
      (j k : Text) (vs : List Json) (fs : Fields e.Number)
      → (j == k) ≡ Bool.false
      → get_field (unless_empty j vs fs) k ≡ get_field fs k
  unfolding get_field
  skip_empty j k [] fs h = refl
  skip_empty j k (v ∷ vs) fs h = rw h refl

  -- The fields that may be absent, from the back.
  abbrev approvals_field : List OperatorApproval → Fields e.Number
  approvals_field given = unless_empty (text "operator_approvals") (map approval_to_value given) end

  abbrev context_field : List Json → List OperatorApproval → Fields e.Number
  context_field context given = unless_empty (text "context_items") context (approvals_field given)

  abbrev optional_fields : Option Json → List Json → List OperatorApproval → Fields e.Number
  optional_fields report context given =
      unless_none (text "evaluator_report") report (context_field context given)

  read_approvals_field :
      (given : List OperatorApproval)
      → read_vec read_approval (get_field (approvals_field given) (text "operator_approvals"))
        ≡ ok given
  unfolding read_vec get_field ◌==◌
  read_approvals_field [] = refl
  read_approvals_field (a ∷ given) = read_approvals (a ∷ given)

  read_context_field :
      (context : List Json) (given : List OperatorApproval)
      → read_vec ok (get_field (context_field context given) (text "context_items")) ≡ ok context
  unfolding read_vec get_field ◌==◌
  read_context_field [] given =
      ap (read_vec ok) (skip_empty _ (text "context_items") (map approval_to_value given) end refl)
  read_context_field (v ∷ vs) given = read_items-items (v ∷ vs)

  report_field :
      (report : Option Json) (context : List Json) (given : List OperatorApproval)
      → get_field (optional_fields report context given) (text "evaluator_report") ≡ report
  unfolding get_field ◌==◌
  report_field (some v) context given = refl
  report_field none context given =
      skip_empty _ (text "evaluator_report") context (approvals_field given) refl
      ∙ skip_empty _ (text "evaluator_report") (map approval_to_value given) end refl

  -- The bundle as it is read back: a report that is null counts as none.
  abbrev pub as_read : EvidenceBundle → EvidenceBundle
  as_read b = record b { evaluator_report = read_option b.evaluator_report }

  read_bundle-bundle_to_value :
      (u : IsU32Number) (b : EvidenceBundle)
      → b.version < 2 ^ 32
      → (fs : Fields e.Number) × (bundle_to_value b ≡ ok (object fs))
        × (read_bundle fs ≡ ok (as_read b))
  unfolding read_bundle bundle_to_value read_vec get_field ◌==◌
  read_bundle-bundle_to_value u b h =
      let tail = optional_fields b.evaluator_report b.context_items b.operator_approvals in
      let approvals =
        ap (read_vec read_approval) (
          skip_none (text "evaluator_report") (text "operator_approvals") b.evaluator_report
            (context_field b.context_items b.operator_approvals) refl
          ∙ skip_empty (text "context_items") (text "operator_approvals") b.context_items
              (approvals_field b.operator_approvals) refl)
        ∙ read_approvals_field b.operator_approvals in
      let context =
        ap (read_vec ok) (
          skip_none (text "evaluator_report") (text "context_items") b.evaluator_report
            (context_field b.context_items b.operator_approvals) refl)
        ∙ read_context_field b.context_items b.operator_approvals in
      let report = report_field b.evaluator_report b.context_items b.operator_approvals in
      (
        field (text "version") (number (e.number_from b.version))
            (field (text "policy") (verdict_to_value b.policy) tail),
        refl,
        rw
            (
              read_u32-number_from u b.version h,
              read_verdict-verdict_to_value b.policy,
              context,
              approvals,
              report,
            )
            refl,
      )

  audited :
      (parse : Json → Result Text EvidenceBundle) (n : AgentNode) (evidence : EvidenceBundle)
      → evidence_of parse n.eval_results ≡ ok evidence
      → (r : AuditRecord) × (from_node parse n ≡ ok r) × (r.evidence ≡ evidence)
  unfolding from_node
  audited parse n evidence h = (
    record {
      agent_id = n.agent_id;
      parent_id = n.parent_id;
      timestamp = n.created_at;
      mutation_intent = n.mutation_intent;
      mutation_diff = n.mutation_diff;
      evidence = evidence;
      signer_public_key = n.signer_public_key;
      signature = n.signature;
      verification_valid = succeeds parse (verify_node n);
    },
    rw h refl,
    refl,
  )

  -- Where the derived `Deserialize` reads the objects that the derived `Serialize` writes, and
  -- serde_json reads a u32 back, every bundle whose version is a u32 is written, and `from_value`
  -- reads it back with every field as it was, but that a report which is null is none; and a node
  -- that carries the written bundle is audited with that evidence.
  pub from_value-bundle_to_value :
      (parse : Json → Result Text EvidenceBundle) (d : ReadsFields parse) (u : IsU32Number)
      (b : EvidenceBundle) (n : AgentNode)
      → b.version < 2 ^ 32
      → (v : Json) × (r : AuditRecord) × (bundle_to_value b ≡ ok v)
        × (from_value parse v ≡ ok (as_read b))
        × (from_node parse (record n { eval_results = some v }) ≡ ok r)
        × (r.evidence ≡ as_read b)
  unfolding from_value from_node
  from_value-bundle_to_value parse d u b n h =
      let (fs, p, q) = read_bundle-bundle_to_value u b h in
      let read = d.reads fs (as_read b) q in
      let back : from_value parse (object fs) ≡ ok (as_read b) = rw read refl in
      let (r, given, same) =
        audited parse (record n { eval_results = some (object fs) }) (as_read b) back in
      (object fs, r, p, back, given, same)

-- ===== src/Identity/Payload.antt =====
-- A signing payload determines the inputs that it was made from (src/identity.rs).
use rig_veh.Prelude.{
  ◌≡◌, refl, ◌⊎◌, inl, inr, ◌∙◌, sym, Bytes, text, ok, >>=-eq-ok, ◌==◌, map_err-eq-ok,
}
use rig_veh.Host.{Env, Json, IsCrypto, IsU32Number}
use rig_veh.Json.{object, get_field}
use rig_veh.Json.Canonical.Lookup.{normal-field}
use rig_veh.Json.Canonical.Tokens.{IsTokenFormat}
use rig_veh.Artifact.{canonical_json}
use rig_veh.Artifact.Canonical.{canonical_json_iff}
use rig_veh.Node.{AgentNode}
use rig_veh.Identity.{CommitInputs, payload_fields, signing_payload, inputs_of, verify_node}
use rig_veh.Identity.Binding.{Collision, same_id, verify_node_iff}
use rig_veh.Identity.Content.{
  SameJson, SameInputs, IsU32Inputs, same_string, same_bool, same_parent, same_status, same_texts,
  same_stage, same_number, same_scope, same_intent,
}

module _ ⦃e : Env⦄ where
  -- A payload is the canonical text of the fields and the manifest.
  signing_payload-eq_ok :
      (a : CommitInputs) (p : Bytes)
      → signing_payload a ≡ ok p
      → (manifest : Json) × (e.manifest_to_value a.artifact.manifest ≡ ok manifest)
        × (canonical_json (object (payload_fields a manifest)) ≡ ok p)
  unfolding signing_payload
  signing_payload-eq_ok a p h =
      let (manifest, q, k) = >>=-eq-ok _ _ h in (manifest, map_err-eq-ok _ _ q, k)

  same_fields :
      (u : IsU32Number) (a b : CommitInputs) (x y : Json)
      → IsU32Inputs a
      → IsU32Inputs b
      → e.manifest_to_value a.artifact.manifest ≡ ok x
      → e.manifest_to_value b.artifact.manifest ≡ ok y
      → SameJson (object (payload_fields a x)) (object (payload_fields b y))
      → SameInputs a b
  unfolding payload_fields get_field ◌==◌
  same_fields u a b x y ha hb mx my h = record {
    parent_id = same_parent _ _ (normal-field _ _ (text "parent_id") _ _ h refl refl);
    generation = same_number u _ _ ha.0 hb.0 (normal-field _ _ (text "generation") _ _ h refl refl);
    created_at = same_string _ _ (normal-field _ _ (text "created_at") _ _ h refl refl);
    mutation_intent = same_intent _ _ (normal-field _ _ (text "mutation_intent") _ _ h refl refl);
    mutation_diff = same_string _ _ (normal-field _ _ (text "mutation_diff") _ _ h refl refl);
    allowed_scope =
        same_scope u _ _ ha.1 hb.1 (normal-field _ _ (text "allowed_scope") _ _ h refl refl);
    eval_results = normal-field _ _ (text "eval_results") _ _ h refl refl;
    capability_sbom = same_texts _ _ (normal-field _ _ (text "capability_sbom") _ _ h refl refl);
    manifest = (x, y, mx, my, normal-field _ _ (text "manifest") _ _ h refl refl);
    status = same_status _ _ (normal-field _ _ (text "status") _ _ h refl refl);
    parent_agent_success =
        same_bool _ _ (normal-field _ _ (text "parent_agent_success") _ _ h refl refl);
    valid_parent = same_bool _ _ (normal-field _ _ (text "valid_parent") _ _ h refl refl);
    eval_stage = same_stage _ _ (normal-field _ _ (text "eval_stage") _ _ h refl refl);
  }

  module _ (f : IsTokenFormat e.escape e.number_display) (u : IsU32Number) where
    -- Inputs with one payload are the same inputs.
    pub signing_payload-injective :
        (a b : CommitInputs) (p : Bytes)
        → IsU32Inputs a
        → IsU32Inputs b
        → signing_payload a ≡ ok p
        → signing_payload b ≡ ok p
        → SameInputs a b
    signing_payload-injective a b p ha hb h k =
        let (x, mx, cx) = signing_payload-eq_ok a p h in
        let (y, my, cy) = signing_payload-eq_ok b p k in
        same_fields u a b x y ha hb mx my ((canonical_json_iff f _ _).0 (cx ∙ sym cy))

    -- Where serde_json's tokens and u32 numbers read back, and with what the cryptography promises,
    -- two verified nodes under one identifier, whose numbers are u32, agree in every signed field
    -- and carry one signature: the JSON that they hold agrees up to the order of keys, with `None`
    -- and NaN as null. Or they exhibit two texts with the same digest.
    pub same_content :
        IsCrypto
        → (n m : AgentNode) → IsU32Inputs (inputs_of n)
        → IsU32Inputs (inputs_of m)
        → verify_node n ≡ ok tt
        → verify_node m ≡ ok tt
        → n.agent_id ≡ m.agent_id
        → SameInputs (inputs_of n) (inputs_of m)
            × (e.hex_decode n.signature ≡ e.hex_decode m.signature)
          ⊎ Collision
    same_content c n m hn hm vn vm same = elim (same_id c n m vn vm same) [
      | inl (p, q) ↦
          let v = (verify_node_iff n).0 vn in
          inl (
            signing_payload-injective (inputs_of n) (inputs_of m) v.payload hn hm v.payload_eq
                (sym p ∙ v.payload_eq),
            q,
          )
      | inr collision ↦ inr collision
    ]

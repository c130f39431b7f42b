-- ===== src/Identity/RoundTrip.antt =====
-- `sign_node` against `verify_node` (src/identity.rs).
use rig_veh.Prelude.{
  ◌≡◌, refl, Text, Bytes, ok, Result-cases, inl, inr, ap, ◌>>=◌, ==_refl, length, eqb_iff,
}
use rig_veh.Host.{Env, Json, IsCrypto, IsBytes}
use rig_veh.Error
use rig_veh.Json.{object}
use rig_veh.Node.{AgentNode}
use rig_veh.Artifact.Canonical.{canonical_json-ok}
use rig_veh.Identity.{
  CommitInputs, payload_fields, signing_payload, compute_agent_id, seal, sign_node, inputs_of,
  decode_array, verify_node,
}

module _ ⦃e : Env⦄ (c : IsCrypto) where
  -- Decoding what was encoded, at its own length.
  decode_array-encode :
      (failed : Text → Error.Error) (wrong : Text) (n : _) (b : Bytes)
      → IsBytes b
      → length b ≡ n
      → decode_array failed wrong n (e.hex_encode b) ≡ ok b
  unfolding decode_array
  decode_array-encode failed wrong n b h l = rw (c.hex_round_trip b h, l, (eqb_iff n n).1 refl)

  verify-seal :
      (inputs : CommitInputs) (key : e.SigningKey) (payload : Bytes)
      → signing_payload inputs ≡ ok payload
      → verify_node (seal inputs key payload) ≡ ok tt
  unfolding verify_node seal inputs_of
  verify-seal inputs key payload p = rw (
    p,
    decode_array-encode _ _ 64 _ (c.sign_bytes key payload) (c.sign_length key payload),
    ==_refl (compute_agent_id payload (e.sign key payload)),
    decode_array-encode _ _ 32 _ (c.key_bytes (e.verifying_key key))
        (c.key_length (e.verifying_key key)),
    c.key_round_trip (e.verifying_key key),
    c.verify_sign key payload,
  )

module _ ⦃e : Env⦄ (inputs : CommitInputs) (key : e.SigningKey) where
  -- A signed node is the seal over its payload.
  pub sign_node-eq_ok :
      (n : AgentNode)
      → sign_node inputs key ≡ ok n
      → (payload : Bytes) × (signing_payload inputs ≡ ok payload) × (n ≡ seal inputs key payload)
  unfolding sign_node
  sign_node-eq_ok n h = elim (Result-cases (signing_payload inputs)) [
    | inl (payload, p) ↦ (payload, p, cc (h, ap (λ r. r >>= λ b. ok (seal inputs key b)) p))
    | inr (why, p) ↦ cc (h, ap (λ r. r >>= λ b. ok (seal inputs key b)) p)
  ]

  -- Signing fails only where the manifest does not serialise.
  pub sign_node-ok :
      (manifest : Json)
      → e.manifest_to_value inputs.artifact.manifest ≡ ok manifest
      → (n : AgentNode) × (sign_node inputs key ≡ ok n)
  unfolding sign_node signing_payload
  sign_node-ok manifest h =
      let (payload, p) = canonical_json-ok (object (payload_fields inputs manifest)) in
      (seal inputs key payload, rw (h, p))

module _ ⦃e : Env⦄ (c : IsCrypto) where
  -- With what the cryptography promises, `verify_node` accepts whatever `sign_node` returns.
  pub verify-sign_node :
      (inputs : CommitInputs) (key : e.SigningKey) (n : AgentNode)
      → sign_node inputs key ≡ ok n
      → verify_node n ≡ ok tt
  verify-sign_node inputs key n h =
      let (payload, p, s) = sign_node-eq_ok inputs key n h in
      rw s (verify-seal c inputs key payload p)

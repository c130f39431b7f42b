-- ===== src/Identity/Binding.antt =====
-- What `verify_node` accepts, and what an identifier binds (src/identity.rs).
use rig_veh.Prelude.{
  ◌≡◌, refl, ◌≢◌, ◌↔◌, ◌⊎◌, inl, inr, ap, sym, false≢true, ◌∙◌, Text, Bytes, text, ok, ◌>>=◌,
  >>=-eq-ok, map_err, map_err-eq-ok, ok-injective, Bool-cases, ◌==◌, ==_iff, ==_refl, length,
  eqb_iff, ◌++◌, append_inj_right, arith,
}
use rig_veh.Error
use rig_veh.Host.{Env, IsCrypto, IsBytes}
use rig_veh.Node.{AgentNode}
use rig_veh.Identity.{signing_payload, compute_agent_id, inputs_of, decode_array, verify_node}

module _ ⦃e : Env⦄ where
  -- The recorded signature and key decode to their lengths, the key is a key, the identifier is
  -- the hash of the payload and the signature, and the signature is that key's on the payload.
  pub record IsVerified (n : AgentNode) : Type 0 where
    pub payload : Bytes
    pub signature : Bytes
    pub public : Bytes
    pub verifying : e.VerifyingKey
    pub payload_eq : signing_payload (inputs_of n) ≡ ok payload
    pub signature_eq : e.hex_decode n.signature ≡ ok signature
    pub signature_length : length signature ≡ 64
    pub id_eq : compute_agent_id payload signature ≡ n.agent_id
    pub public_eq : e.hex_decode n.signer_public_key ≡ ok public
    pub public_length : length public ≡ 32
    pub verifying_eq : e.key_from_bytes public ≡ ok verifying
    pub verify_eq : e.verify verifying payload signature ≡ ok tt

  decode_array-eq_ok :
      (failed : Text → Error.Error) (wrong : Text) (n : _) (s : Text) (b : Bytes)
      → decode_array failed wrong n s ≡ ok b
      → (e.hex_decode s ≡ ok b) × (length b ≡ n)
  unfolding decode_array
  decode_array-eq_ok failed wrong n s b h = ground arith

  decode_array-ok :
      (failed : Text → Error.Error) (wrong : Text) (n : _) (s : Text) (b : Bytes)
      → e.hex_decode s ≡ ok b
      → length b ≡ n
      → decode_array failed wrong n s ≡ ok b
  unfolding decode_array
  decode_array-ok failed wrong n s b p l = rw (p, l, (eqb_iff n n).1 refl)

  module _ (n : AgentNode) (payload signature : Bytes) where
    after_key :
        signing_payload (inputs_of n) ≡ ok payload
        → (e.hex_decode n.signature ≡ ok signature) × (length signature ≡ 64)
        → compute_agent_id payload signature ≡ n.agent_id
        → (do
          public ← decode_array Error.invalid_key (text "wrong key length") 32 n.signer_public_key
          verifying ← map_err Error.invalid_key (e.key_from_bytes public)
          map_err Error.signature_invalid (e.verify verifying payload signature))
          ≡ ok tt
        → IsVerified n
    after_key p q i h =
        let (public, r, h₁) = >>=-eq-ok _ _ h in
        let (verifying, k, h₂) = >>=-eq-ok _ _ h₁ in
        let (d, l) = decode_array-eq_ok _ _ 32 n.signer_public_key public r in
        record {
          payload = payload;
          signature = signature;
          public = public;
          verifying = verifying;
          payload_eq = p;
          signature_eq = q.0;
          signature_length = q.1;
          id_eq = i;
          public_eq = d;
          public_length = l;
          verifying_eq = map_err-eq-ok _ _ k;
          verify_eq = map_err-eq-ok _ _ h₂;
        }

  -- `verify_node` accepts exactly the nodes whose signature and key decode to 64 and 32 bytes,
  -- whose identifier is the hash of the recomputed payload with the signature, and whose
  -- signature is valid for that payload under that key.
  pub verify_node_iff : (n : AgentNode) → (verify_node n ≡ ok tt) ↔ IsVerified n
  unfolding verify_node
  verify_node_iff n = (forth, back)
    where
      back : IsVerified n → verify_node n ≡ ok tt
      back v = rw (
        v.payload_eq,
        decode_array-ok Error.signature_invalid (text "wrong signature length") 64 n.signature
            v.signature v.signature_eq v.signature_length,
        v.id_eq,
        ==_refl n.agent_id,
        decode_array-ok Error.invalid_key (text "wrong key length") 32 n.signer_public_key v.public
            v.public_eq v.public_length,
        v.verifying_eq,
        v.verify_eq,
      )

      forth : verify_node n ≡ ok tt → IsVerified n
      forth h =
          let (payload, p, h₁) = >>=-eq-ok _ _ h in
          let (signature, q, h₂) = >>=-eq-ok _ _ h₁ in
          let decoded = decode_array-eq_ok _ _ 64 n.signature signature q in
          elim (Bool-cases (compute_agent_id payload signature == n.agent_id)) [
            | inl t ↦ after_key n payload signature p decoded ((==_iff _ _).0 t) (rw t at h₂)
            | inr t ↦ cc (rw t at h₂)
          ]

  -- Two different texts with the same SHA-256 digest.
  abbrev pub Collision : Type 0
  Collision = (x y : Bytes) × (x ≢ y) × (e.sha256 x ≡ e.sha256 y)

module _ ⦃e : Env⦄ (c : IsCrypto) where
  hex_encode-injective :
      (x y : Bytes) → IsBytes x → IsBytes y → e.hex_encode x ≡ e.hex_encode y → x ≡ y
  hex_encode-injective x y hx hy h =
      ok-injective (sym (c.hex_round_trip x hx) ∙ ap e.hex_decode h ∙ c.hex_round_trip y hy)

  -- With what the cryptography promises, two nodes that verify under one identifier were signed
  -- over one payload with one signature, or they exhibit two texts with the same digest.
  pub same_id :
      (n m : AgentNode)
      → verify_node n ≡ ok tt
      → verify_node m ≡ ok tt
      → n.agent_id ≡ m.agent_id
      → (signing_payload (inputs_of n) ≡ signing_payload (inputs_of m))
          × (e.hex_decode n.signature ≡ e.hex_decode m.signature)
        ⊎ Collision
  unfolding compute_agent_id
  same_id n m hn hm same =
      let v = (verify_node_iff n).0 hn in
      let w = (verify_node_iff m).0 hm in
      let digests =
        hex_encode-injective _ _ (c.sha256_bytes (v.payload ++ v.signature))
          (c.sha256_bytes (w.payload ++ w.signature)) (v.id_eq ∙ same ∙ sym w.id_eq) in
      elim (Bool-cases (v.payload ++ v.signature == w.payload ++ w.signature)) [
        | inl t ↦
            let (p, q) =
              append_inj_right v.payload v.signature w.payload w.signature
                (v.signature_length ∙ sym w.signature_length) ((==_iff _ _).0 t) in
            inl (
              v.payload_eq ∙ ap ok p ∙ sym w.payload_eq,
              v.signature_eq ∙ ap ok q ∙ sym w.signature_eq,
            )
        | inr t ↦ inr (_, _, (λ p. false≢true (sym t ∙ (==_iff _ _).1 p)), digests)
      ]

-- ===== src/Policy/Decision.antt =====
-- When the default gate approves, denies or asks for approval (src/policy.rs).
use rig_veh.Prelude.{
  ℕ, ◌<◌, List, Option, none, some, Text, Bool, true, false, not, any, find, ltb, ◌≡◌, refl, ◌⊎◌,
  inl, inr, arith, Bool-cases, Option-cases, ◌==◌,
}
use rig_veh.Prelude.Member.{In, any-==_iff, find-none_iff, find-eq_some, In-filter}
use rig_veh.Host.{Env}
use rig_veh.Intent.{MutationIntent}
use rig_veh.Node.{AgentNode, next_generation}
use rig_veh.Policy.{
  approve, deny, require_approval, capability_in_scope, exceeds, added, uses_gated, depth_reason,
  scope_reason, gated_reason, evaluate,
}
use rig_veh.Policy.Scope.{InScope, capability_in_scope_iff}

not_both : {b : Bool} → not b ≡ true → b ≡ true → ⊥
not_both h k = ground arith

depth_cases :
    (max : Option ℕ) (g : ℕ)
    → ((m : ℕ) × (exceeds max g ≡ some m) × ((k : ℕ) × (max ≡ some k) × (k < next_generation g)))
      ⊎ (exceeds max g ≡ none) × ¬ ((k : ℕ) × (max ≡ some k) × (k < next_generation g))
depth_cases none g = inr (refl, λ (k, p, q). cc p)
depth_cases (some m) g = elim (Bool-cases (ltb m (next_generation g))) [
  | inl t ↦ inl (m, rw t, (m, refl, ground arith))
  | inr t ↦ inr (rw t, λ (k, p, q). ground arith)
]

not_of : (b : Bool) → ¬ (b ≡ true) → not b ≡ true
not_of true h = absurd (h refl)
not_of false h = refl

of_not : (b : Bool) → not b ≡ false → b ≡ true
of_not b h = ground arith

module _ ⦃e : Env⦄ (parent : AgentNode) (intent : MutationIntent) (sbom : List Text) where
  -- The child would be deeper than the scope allows.
  abbrev pub TooDeep : Type 0
  TooDeep =
      (m : ℕ) × (parent.allowed_scope.max_generation ≡ some m)
      × (m < next_generation parent.generation)

  -- Some capability is neither the parent's nor in scope.
  abbrev pub Widens : Type 0
  Widens =
      (cap : Text) × In cap sbom
      × ¬ In cap parent.capability_sbom
      × ¬ InScope parent.allowed_scope cap

  -- Some gated capability is present, or named by a constraint of the intent.
  abbrev pub Gated : Type 0
  Gated =
      (g : Text) × In g parent.allowed_scope.gated_capabilities
      × (In g sbom ⊎ In g intent.constraints)

  abbrev held : Text → Bool
  held s = any (λ p. p == s) parent.capability_sbom

  abbrev outside : Text → Bool
  outside cap = not (capability_in_scope cap parent.allowed_scope)

  abbrev gated : List Text
  gated = parent.allowed_scope.gated_capabilities

  widens_of : (cap : Text) → find outside (added parent sbom) ≡ some cap → Widens
  widens_of cap p =
      let (m, out) = find-eq_some outside (added parent sbom) cap p in
      let (k, new) = (In-filter (λ s. not (held s)) cap sbom).0 m in
      (
        cap,
        k,
        (λ i. not_both new ((any-==_iff cap parent.capability_sbom).1 i)),
        (λ i. not_both out ((capability_in_scope_iff parent.allowed_scope cap).1 i)),
      )

  not_widens : find outside (added parent sbom) ≡ none → ¬ Widens
  not_widens p (c, m, new, out) =
      let fresh = not_of (held c) (λ h. new ((any-==_iff c parent.capability_sbom).0 h)) in
      let k = (In-filter (λ s. not (held s)) c sbom).1 (m, fresh) in
      let inside = (find-none_iff outside (added parent sbom)).0 p c k in
      out ((capability_in_scope_iff parent.allowed_scope c).0 (of_not _ inside))

  used_of : (g : Text) → uses_gated intent sbom g ≡ true → In g sbom ⊎ In g intent.constraints
  used_of g h = elim (Bool-cases (any (λ c. c == g) sbom)) [
    | inl t ↦ inl ((any-==_iff g sbom).0 t)
    | inr t ↦ inr ((any-==_iff g intent.constraints).0 (rw t at h))
  ]

  uses_of : (g : Text) → In g sbom ⊎ In g intent.constraints → uses_gated intent sbom g ≡ true
  uses_of g (inl m) = rw ((any-==_iff g sbom).1 m)
  uses_of g (inr m) = let t = (any-==_iff g intent.constraints).1 m in ground arith

  gated_of : (g : Text) → find (uses_gated intent sbom) gated ≡ some g → Gated
  gated_of g p =
      let (m, used) = find-eq_some (uses_gated intent sbom) gated g p in (g, m, used_of g used)

  not_gated : find (uses_gated intent sbom) gated ≡ none → ¬ Gated
  not_gated p (g, m, used) =
      not_both (rw ((find-none_iff (uses_gated intent sbom) gated).0 p g m) refl) (uses_of g used)

  -- The gate denies exactly where the child would be too deep. Otherwise it asks for approval
  -- where the candidate widens the capabilities beyond the scope or touches a gated one, and
  -- approves where it does neither.
  pub evaluate_cases :
      ((r : Text) × (evaluate parent intent sbom ≡ deny r) × TooDeep)
      ⊎ ((r : Text) × (evaluate parent intent sbom ≡ require_approval r)
          × ¬ TooDeep
          × (Widens ⊎ Gated))
      ⊎ (evaluate parent intent sbom ≡ approve) × ¬ TooDeep × ¬ Widens × ¬ Gated
  unfolding evaluate
  evaluate_cases = elim (depth_cases parent.allowed_scope.max_generation parent.generation) [
    | inl (m, p, deep) ↦ inl (depth_reason m parent.generation, rw (p, evaluate) refl, deep)
    | inr (p, shallow) ↦ elim (Option-cases (find outside (added parent sbom))) [
      | inr (cap, q) ↦
          inr (inl (scope_reason cap, rw (p, q, evaluate) refl, shallow, inl (widens_of cap q)))
      | inl q ↦ elim (Option-cases (find (uses_gated intent sbom) gated)) [
        | inr (g, r) ↦
            inr (inl (gated_reason g, rw (p, q, r, evaluate) refl, shallow, inr (gated_of g r)))
        | inl r ↦ inr (inr (rw (p, q, r, evaluate) refl, shallow, not_widens q, not_gated r))
      ]
    ]
  ]

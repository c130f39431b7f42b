-- ===== src/Policy/Scope.antt =====
-- What `capability_in_scope` means (src/policy.rs).
use rig_veh.Prelude.{
  [], ◌∷◌, ◌++◌, Option, some, Text, text, true, ◌==◌, ==_iff, split_once, eqb, eqb_iff, ◌≡◌, ◌↔◌,
  inl, inr, ap, arith, Bool-cases, Option-cases, ℕ,
}
use mathlib.Core.Option.{some-injective}
use rig_veh.Prelude.Member.{In, any-==_iff}
use rig_veh.Intent.{AllowedScope}
use rig_veh.Policy.{capability_in_scope, parts_in_scope}

-- A tool, an MCP server or a delegate whose name is on the scope's list for its kind.
pub data InScope (scope : AllowedScope) : Text → Type 0 where
  tool : (name : Text) → In name scope.allowed_tools → InScope scope (text "tool:" ++ name)
  mcp : (name : Text) → In name scope.allowed_mcp_servers → InScope scope (text "mcp:" ++ name)
  delegate :
      (name : Text) → In name scope.allowed_delegates → InScope scope (text "delegate:" ++ name)

some_pair {ℓ} :
    {A B : Type ℓ} {a c : A} {b d : B}
    → ◌≡◌ {A = Option (A × B)} (some (a, b)) (some (c, d))
    → (a ≡ c) × (b ≡ d)
some_pair h = let p = some-injective _ _ h in (ap (λ x. x.0) p, ap (λ x. x.1) p)

-- What `split_once` returns, put together again.
pub split_once-append : (sep : ℕ) (s k n : Text) → split_once sep s ≡ some (k, n) → s ≡ k ++ sep ∷ n
unfolding split_once
split_once-append sep [] k n h = ground arith
split_once-append sep (c ∷ s) k n h = elim (Bool-cases (eqb c sep)) [
  | inl t ↦ let (p, q) = some_pair (rw t at h) in rw (← p, ← q, (eqb_iff c sep).0 t)
  | inr t ↦ elim (Option-cases (split_once sep s)) [
    | inl u ↦ ground arith
    | inr ((j, m), u) ↦
        let (p, q) = some_pair {a = c ∷ j} {c = k} {b = m} {d = n} (ground arith) in
        rw (← p, ← q, split_once-append sep s j m u)
  ]
]

InScope-of :
    (scope : AllowedScope) {cap : Text} → InScope scope cap → capability_in_scope cap scope ≡ true
unfolding capability_in_scope split_once ◌==◌
InScope-of scope (tool name m) = (any-==_iff name scope.allowed_tools).1 m
InScope-of scope (mcp name m) = (any-==_iff name scope.allowed_mcp_servers).1 m
InScope-of scope (delegate name m) = (any-==_iff name scope.allowed_delegates).1 m

of_parts :
    (scope : AllowedScope) (kind name : Text)
    → parts_in_scope scope (some (kind, name)) ≡ true
    → InScope scope (kind ++ b':' ∷ name)
of_parts scope kind name h = elim (Bool-cases (kind == text "tool")) [
  | inl t ↦ rw ((==_iff kind (text "tool")).0 t) (tool name ((any-==_iff name _).0 (rw t at h)))
  | inr t ↦ elim (Bool-cases (kind == text "mcp")) [
    | inl u ↦
        rw ((==_iff kind (text "mcp")).0 u) (mcp name ((any-==_iff name _).0 (rw (t, u) at h)))
    | inr u ↦ elim (Bool-cases (kind == text "delegate")) [
      | inl w ↦
          rw ((==_iff kind (text "delegate")).0 w)
            (delegate name ((any-==_iff name _).0 (rw (t, u, w) at h)))
      | inr w ↦ cc (rw (t, u, w) at h)
    ]
  ]
]

of_InScope :
    (scope : AllowedScope) (cap : Text) → capability_in_scope cap scope ≡ true → InScope scope cap
unfolding capability_in_scope
of_InScope scope cap h = elim (Option-cases (split_once b':' cap)) [
  | inl p ↦ cc (rw p at h)
  | inr ((kind, name), p) ↦
      rw (split_once-append b':' cap kind name p) (of_parts scope kind name (rw p at h))
]

-- `capability_in_scope` holds of exactly the capabilities that are in scope: the kind before the
-- first colon picks the list, the rest is a name on it, and nothing else is in scope.
pub capability_in_scope_iff :
    (scope : AllowedScope) (cap : Text) → (capability_in_scope cap scope ≡ true) ↔ InScope scope cap
capability_in_scope_iff scope cap = (of_InScope scope cap, InScope-of scope)

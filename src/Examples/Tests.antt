-- ===== src/Examples/Tests.antt =====
-- Tests of the definitions on small inputs.
use rig_veh.Prelude.{
  true, false, [], ◌∷◌, some, none, text, ok, ◌≡◌, refl, display, split_once, ◌==◌, ◌++◌,
}
use rig_veh.Prelude.Lines.{lines, is_blank}
use rig_veh.Json.{object, field, end, number, array, cons, nil, string, null}
use rig_veh.Artifact.{canonical_json, capability_sbom}
use rig_veh.Policy.{capability_in_scope}
use rig_veh.Intent.{rollback, rollback_target, new_intent}
use rig_veh.Ledger.Dot.{take_chars}
use rig_veh.Examples.Demo.{demo, agent, scope}

display_digits : display 1203 ≡ text "1203"
unfolding display
display_digits = refl

lines_crlf : lines (97 ∷ b'\r' ∷ b'\n' ∷ b'\n' ∷ 98 ∷ []) ≡ text "a" ∷ [] ∷ text "b" ∷ []
unfolding lines
lines_crlf = refl

lines_end : lines (97 ∷ b'\n' ∷ []) ≡ text "a" ∷ []
unfolding lines
lines_end = refl

-- A tab and a no-break space.
blank_line : is_blank (9 ∷ 194 ∷ 160 ∷ []) ≡ true
unfolding is_blank
blank_line = refl

visible_line : is_blank (32 ∷ 194 ∷ 161 ∷ []) ≡ false
unfolding is_blank
visible_line = refl

-- Two characters, the first of two bytes.
chars_taken : take_chars 2 (195 ∷ 169 ∷ 97 ∷ 98 ∷ []) ≡ 195 ∷ 169 ∷ 97 ∷ []
unfolding take_chars
chars_taken = refl

split_first : split_once b':' (text "mcp:a:b") ≡ some (text "mcp", text "a:b")
unfolding split_once
split_first = refl

sbom_sorted :
    capability_sbom (agent (text "x") (text "b" ∷ text "a" ∷ text "b" ∷ []))
    ≡ text "tool:a" ∷ text "tool:b" ∷ []
unfolding capability_sbom
sbom_sorted = refl

canonical_nested :
    canonical_json (
      object (
        field
          (text "b")
          (array (cons (number 0) (cons null nil)))
          (field (text "a") (string (text "x")) end)))
    ≡ ok (
        123 ∷ 34 ∷ 97 ∷ 34 ∷ 58 ∷ 34 ∷ 120 ∷ 34 ∷ 44 ∷ 34 ∷ 98 ∷ 34 ∷ 58 ∷ text "[0,null]"
        ++ text "}")
unfolding canonical_json display ◌==◌
canonical_nested = refl

scope_rejects_prefix : capability_in_scope (text "tool:search_web") scope ≡ false
unfolding capability_in_scope split_once ◌==◌
scope_rejects_prefix = refl

rollback_named : rollback_target (rollback (text "id")) ≡ some (text "id")
unfolding rollback rollback_target
rollback_named = refl

rollback_unnamed : rollback_target (new_intent (text "improve")) ≡ none
unfolding rollback_target new_intent
rollback_unnamed = refl

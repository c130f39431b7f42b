-- ===== src/Examples/Encoder.antt =====
-- The theorem on the errors of `write_canonical` at a concrete encoder.
use rig_veh.Prelude.{ℕ, [], ◌∷◌, Text, text, Bytes, Result, ok, err, ◌==◌, ◌≡◌, refl, if◌then◌else◌}
use rig_veh.Json.{Value, null, array, object, field, end, texts}
use rig_veh.Json.Canonical.{write_canonical}
use rig_veh.Json.Canonical.Errors.{write_canonical-eq_err}

-- An encoder that rejects one text.
abbrev strict : Text → Result Text Bytes
strict s = if s == text "bad" then err (text "rejected") else ok s

abbrev tally : ℕ → Bytes
tally n = n ∷ []

abbrev spoilt : Value ℕ
spoilt =
    object
      (field (text "b") (array (texts (text "c" ∷ text "bad" ∷ []))) (field (text "a") null end))

write_canonical-eq_err_example : (s : Text) × (strict s ≡ err (text "rejected"))
unfolding write_canonical ◌==◌ texts
write_canonical-eq_err_example = write_canonical-eq_err strict tally spoilt (text "rejected") refl

-- ===== src/Artifact/Canonical.antt =====
-- `canonical_json` returns bytes for every value, the same for every order of the keys
-- (src/artifact.rs).
use rig_veh.Prelude.{◌≡◌, ok, Bytes, ap, map_err, ◌↔◌, ok-injective}
use rig_veh.Error
use rig_veh.Host.{Env, Json}
use rig_veh.Json.Canonical.KeyOrder.{Reordered, write-Reordered}
use rig_veh.Json.Canonical.Normal.{normal}
use rig_veh.Json.Canonical.Print.{print, write_canonical_lem}
use rig_veh.Json.Canonical.Tokens.{IsTokenFormat}
use rig_veh.Json.Canonical.ReadBack.{print-injective}
use rig_veh.Json.Canonical.{always}
use rig_veh.Artifact.{canonical_json}

module _ ⦃e : Env⦄ where
  -- Every value has canonical bytes, as serde_json writes every text: the key that is looked up
  -- for each sorted entry is always there.
  pub canonical_json-ok : (v : Json) → (b : Bytes) × (canonical_json v ≡ ok b)
  unfolding canonical_json
  canonical_json-ok v = (
    print e.escape e.number_display (normal v),
    rw (write_canonical_lem e.escape e.number_display v),
  )

  -- Two values that differ only in the order of the keys of their objects, at any depth, have the
  -- same canonical bytes.
  pub canonical_json-Reordered :
      {v w : Json} → Reordered e.Number v w → canonical_json v ≡ canonical_json w
  unfolding canonical_json
  canonical_json-Reordered r =
      ap (map_err Error.canonical) (write-Reordered (always e.escape) e.number_display r)

  -- Where the texts of strings and numbers read back, two values have the same canonical bytes
  -- exactly if they are the same once the keys of their objects are in order, at every depth.
  pub canonical_json_iff :
      IsTokenFormat e.escape e.number_display
      → (v w : Json) → (canonical_json v ≡ canonical_json w) ↔ (normal v ≡ normal w)
  unfolding canonical_json
  canonical_json_iff f v w = (forth, back)
    where
      forth : canonical_json v ≡ canonical_json w → normal v ≡ normal w
      forth h =
          let p = write_canonical_lem e.escape e.number_display v in
          let q = write_canonical_lem e.escape e.number_display w in
          print-injective f (normal v) (normal w) (ok-injective (rw (p, q) at h))

      back : normal v ≡ normal w → canonical_json v ≡ canonical_json w
      back h = rw (
        write_canonical_lem e.escape e.number_display v,
        write_canonical_lem e.escape e.number_display w,
        h,
      )

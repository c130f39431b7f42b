-- ===== src/Prelude/Exec.antt =====
-- Methods that change a store and may fail. What was written before an error stays written, so the
-- state comes back beside the error too.
use rig_veh.Prelude.Outcome.{Result, ok, err}

abbrev pub Exec {ℓ κ μ} : Type ℓ → Type κ → Type μ → Type (ℓ ⊔ κ ⊔ μ)
Exec S E A = S → Result E A × S

module _ {ℓ κ μ} {S : Type ℓ} {E : Type κ} {A : Type μ} where
  abbrev pub pure : A → Exec S E A
  pure a s = (ok a, s)

  -- A step that does not touch the store.
  abbrev pub lift : Result E A → Exec S E A
  lift r s = (r, s)

  -- A method that only reads the store.
  abbrev pub reads : (S → Result E A) → Exec S E A
  reads f s = (f s, s)

module _ {ℓ κ μ ν} {S : Type ℓ} {E : Type κ} {A : Type μ} {B : Type ν} where
  -- What follows a step with this result.
  abbrev pub proceed : Result E A → (A → Exec S E B) → Exec S E B
  proceed (ok a) f s = f a s
  proceed (err x) f s = (err x, s)

  infixl 5 ◌>>=◌ ◌>>◌
  -- `?` and `.await?`
  abbrev pub ◌>>=◌ : Exec S E A → (A → Exec S E B) → Exec S E B
  ◌>>=◌ m f s = proceed (m s).0 f (m s).1

  abbrev pub ◌>>◌ : Exec S E A → Exec S E B → Exec S E B
  m >> k = m >>= λ _. k

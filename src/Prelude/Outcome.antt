-- ===== src/Prelude/Outcome.antt =====
-- What a call of a repository returns: `anyhow::Result`, of which only the success carries data.
use mathlib.Core.Path.{◌≡◌, refl}
use mathlib.Core.Logic.{◌⊎◌, inl, inr}

pub data DbResult {ℓ} (A : Type ℓ) : Type ℓ where
  ok : A → DbResult A
  failed : DbResult A

-- To split on a computed result and keep the equation.
pub DbResult-cases {ℓ} : {A : Type ℓ} (r : DbResult A) → (r ≡ failed) ⊎ ((a : A) × (r ≡ ok a))
DbResult-cases failed = inl refl
DbResult-cases (ok a) = inr (a, refl)

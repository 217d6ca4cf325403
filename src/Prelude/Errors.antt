-- ===== src/Prelude/Errors.antt =====
-- The errors of internal/run by the sentinel that `errors.Is` finds in them; their texts are not
-- kept. `internal` is any error with no sentinel.

use mathlib.Core.Path.{◌≡◌, refl}
use mathlib.Core.Logic.{◌⊎◌, inl, inr}

pub data Error : Type 0 where
  not_found bad_request lease_held lease_superseded busy internal : Error

-- A result and a nil error, or an error.
pub data Result {ℓ} (T : Type ℓ) : Type ℓ where
  ok : T → Result T
  err : Error → Result T

pub Result-cases {ℓ} :
    {A : Type ℓ} (r : Result A) → ((e : Error) × (r ≡ err e)) ⊎ ((a : A) × (r ≡ ok a))
Result-cases (err e) = inl (e, refl)
Result-cases (ok a) = inr (a, refl)

-- ===== src/Common/Results.antt =====
-- A Go call that returns a value or an error. Errors are their texts.
use Prim.Native.String
use Prim.Native.String.{String}

pub data Result {ℓ} (A : Type ℓ) : Type ℓ where
  ok : A → Result A
  err : String → Result A

-- fmt.Errorf("label: %w", err)
abbrev pub wrap {ℓ} : {A : Type ℓ} → String → Result A → Result A
wrap label (ok a) = ok a
wrap label (err e) = err (String.◌++◌ label e)

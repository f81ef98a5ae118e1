-- ===== src/Common/Exec.antt =====
-- Actions on a state that may fail. What was written before a failure stays written, so the state
-- comes back beside the error too.
use Prim.Native.String.{String}
use mathlib.Core.Bool.{Bool, true, false}
use harbor_hook.Common.Results.{Result, ok, err}

abbrev pub Exec {ℓ} : Type ℓ → Type ℓ → Type ℓ
Exec S A = S → Result A × S

module _ {ℓ} {S A : Type ℓ} where
  unfoldable pub pure : A → Exec S A
  pure a s = (ok a, s)

  unfoldable pub raise : String → Exec S A
  raise e s = (err e, s)

  -- an `if` between two actions
  unfoldable pub branch : Bool → Exec S A → Exec S A → Exec S A
  branch true m n = m
  branch false m n = n

module _ {ℓ} {S A B : Type ℓ} where
  abbrev pub continue : Result A → (A → Exec S B) → Exec S B
  continue (ok a) f s = f a s
  continue (err e) f s = (err e, s)

  infixl 10 ◌>>=◌ ◌>>◌
  -- opening this opens `pure`, `raise` and `branch` too
  unfoldable pub ◌>>=◌ : Exec S A → (A → Exec S B) → Exec S B
  unfolding pure raise branch
  ◌>>=◌ m f s = let (r, s') = m s in continue r f s'

  abbrev pub ◌>>◌ : Exec S A → Exec S B → Exec S B
  m >> n = m >>= λ _. n

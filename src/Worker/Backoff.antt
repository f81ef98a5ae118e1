-- ===== src/Worker/Backoff.antt =====
-- computeDelay of cmd/worker/main.go. A duration is its number of nanoseconds, which is not negative in
-- a schedule; float64 arithmetic is a parameter.
pub mod Index
use harbor_hook.Common.{
  ℕ, zero, suc, ◌-◌, List, [], ◌∷◌, length, Option, none, some, Bool, leb, if◌then◌else◌,
}

-- Go's operations on float64, and the conversions from and to time.Duration
pub record Floats (F : Type 0) : Type 0 where
  pub one : F
  pub two : F
  pub tenth : F
  pub add : F → F → F
  pub sub : F → F → F
  pub mul : F → F → F
  pub less : F → F → Bool
  pub of_duration : ℕ → F
  pub to_duration : F → ℕ

-- schedule[i]; `none` is the panic of an index out of range
unfoldable pub get_elem? {ℓ} : {A : Type ℓ} → List A → ℕ → Option A
get_elem? [] i = none
get_elem? (x ∷ xs) zero = some x
get_elem? (x ∷ xs) (suc i) = get_elem? xs i

-- attempt - 1, raised to 0 and lowered to the last index; `none` is the index -1 of an empty schedule
unfoldable pub schedule_index : ℕ → ℕ → Option ℕ
schedule_index attempt zero = none
schedule_index attempt (suc n) = some (if leb (suc n) (attempt - 1) then n else attempt - 1)

module _ {F : Type 0} (fl : Floats F) where
  -- 1 + (rand.Float64()*2-1)*jitterPct, at least 0.1
  unfoldable pub jitter_factor : F → F → F
  jitter_factor draw jitter =
      let j = fl.add fl.one (fl.mul (fl.sub (fl.mul draw fl.two) fl.one) jitter) in
      if fl.less j fl.tenth then fl.tenth else j

  abbrev scaled : F → Option ℕ → Option ℕ
  scaled j none = none
  scaled j (some base) = some (fl.to_duration (fl.mul (fl.of_duration base) j))

  -- computeDelay; `none` is a panic
  unfoldable pub compute_delay : F → ℕ → List ℕ → F → Option ℕ
  unfolding schedule_index get_elem? jitter_factor
  compute_delay draw attempt schedule jitter = elim (schedule_index attempt (length schedule)) [
    | none ↦ none
    | some i ↦ scaled (jitter_factor draw jitter) (get_elem? schedule i)
  ]

-- ===== src/Worker/Backoff/Index.antt =====
-- The index into the schedule that computeDelay of cmd/worker/main.go takes.
use harbor_hook.Common.{
  ℕ, zero, suc, ◌-◌, ◌≤◌, ◌<◌, List, [], ◌∷◌, length, some, leb, ◌≡◌, refl, arith, Bool-cases, inl,
  inr,
}
use harbor_hook.Worker.Backoff.{Floats, get_elem?, schedule_index, jitter_factor, compute_delay}

get_elem?_defined :
    {A : Type 0} (xs : List A) (i : ℕ) → i < length xs → (a : A) × (get_elem? xs i ≡ some a)
unfolding get_elem?
get_elem?_defined [] i h = absurd (omega arith)
get_elem?_defined (x ∷ xs) zero h = (x, refl)
get_elem?_defined (x ∷ xs) (suc i) h = get_elem?_defined xs i (omega arith)

schedule_index-lt :
    (attempt n : ℕ)
    → 0 < n
    → (i : ℕ) × (schedule_index attempt n ≡ some i)
      × (i < n)
      × (i ≤ attempt - 1)
      × ((attempt ≤ n) → i ≡ attempt - 1)
unfolding schedule_index
schedule_index-lt attempt zero h = absurd (omega arith)
schedule_index-lt attempt (suc n) h = elim (Bool-cases (leb (suc n) (attempt - 1))) [
  | inl e ↦ (n, rw e refl, omega arith, ground arith, λ k. ground arith)
  | inr e ↦ (attempt - 1, rw e refl, ground arith, omega arith, λ k. refl)
]

-- With a schedule that is not empty, computeDelay returns: it scales the entry at attempt - 1, or the
-- last entry for a later attempt, by the jitter.
pub compute_delay_defined :
    {F : Type 0} (fl : Floats F) (draw jitter : F) (attempt : ℕ) (schedule : List ℕ)
    → 0 < length schedule
    → (i base : ℕ) × (get_elem? schedule i ≡ some base)
      × (i < length schedule)
      × (i ≤ attempt - 1)
      × (attempt ≤ length schedule → i ≡ attempt - 1)
      × (compute_delay fl draw attempt schedule jitter
          ≡ some (fl.to_duration (fl.mul (fl.of_duration base) (jitter_factor fl draw jitter))))
unfolding compute_delay
compute_delay_defined fl draw jitter attempt schedule h =
    let (i, at, inside, low, exact) = schedule_index-lt attempt (length schedule) h in
    let (base, found) = get_elem?_defined schedule i inside in
    (i, base, found, inside, low, exact, rw (compute_delay, at, found) refl)

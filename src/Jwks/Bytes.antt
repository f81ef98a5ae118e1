-- ===== src/Jwks/Bytes.antt =====
-- The bytes of intToBytes of cmd/jwks-server/main.go, read big-endian.
use harbor_hook.Common.{
  ℕ, zero, suc, ◌+◌, ◌*◌, ◌/◌, ◌%◌, ◌<◌, List, [], ◌∷◌, All, ltb, Bool-cases, inl, inr, ◌≡◌, refl,
  arith,
}
use harbor_hook.Jwks.{bytes_before, int_to_bytes}

-- the number with these big-endian bytes, behind those of `n`
abbrev pub value_of : List ℕ → ℕ → ℕ
value_of [] n = n
value_of (b ∷ bytes) n = value_of bytes (n * 256 + b)

bytes_before-value :
    (fuel i : ℕ) (acc : List ℕ) → i < fuel → value_of (bytes_before fuel i acc) 0 ≡ value_of acc i
unfolding bytes_before
bytes_before-value zero i acc h = absurd (omega arith)
bytes_before-value (suc fuel) i acc h = elim (Bool-cases (ltb 0 i)) [
  | inl e ↦
      let positive : 0 < i = ground arith in
      let back : i / 256 * 256 + i % 256 ≡ i = omega arith in
      rw (e, bytes_before-value fuel (i / 256) (i % 256 ∷ acc) (omega arith), back) refl
  | inr e ↦ let none_left : 0 ≡ i = ground arith in rw (e, none_left) refl
]

bytes_before-All :
    (fuel i : ℕ) (acc : List ℕ)
    → All (λ b. b < 256) acc
    → All (λ b. b < 256) (bytes_before fuel i acc)
unfolding bytes_before
bytes_before-All zero i acc h = h
bytes_before-All (suc fuel) i acc h = elim (Bool-cases (ltb 0 i)) [
  | inl e ↦ rw e (bytes_before-All fuel (i / 256) (i % 256 ∷ acc) (omega arith, h))
  | inr e ↦ rw e h
]

-- The result of intToBytes consists of numbers below 256, and reads big-endian as the number it was
-- made from.
pub int_to_bytes-value :
    (i : ℕ) → All (λ b. b < 256) (int_to_bytes i) × (value_of (int_to_bytes i) 0 ≡ i)
unfolding int_to_bytes
int_to_bytes-value zero = ((omega arith, tt), refl)
int_to_bytes-value (suc i) = (
  bytes_before-All (suc (suc i)) (suc i) [] tt,
  bytes_before-value (suc (suc i)) (suc i) [] (omega arith),
)

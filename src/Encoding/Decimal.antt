-- ===== src/Encoding/Decimal.antt =====
-- strconv.Itoa and FormatInt of numbers that are not negative, and strconv.ParseInt(s, 10, 64).
use Prim.Native.String.{String, [], ◌∷◌, char_at}
use Prim.Native.Char.{Char, code}
use text.Mathlib.TextLemmas.{cons-ne-nil}
use harbor_hook.Common.{
  ℕ, zero, suc, ◌+◌, ◌-◌, ◌*◌, ◌/◌, ◌%◌, ◌^◌, ◌≤◌, ◌<◌, ◌≡◌, refl, arith, true, false, ◌&&◌, Option,
  none, some, Result, ok, err, leb, ltb, Bool-cases, Below_at, ap, sym, eq_false, ◌∙◌, ◌==◌, eqb,
  if◌then◌else◌, inl, inr,
}
use harbor_hook.Common.Int.{ℤ, pos, negsuc}

abbrev pub digit : ℕ → Char
digit d = char_at "0123456789" d

-- The digits of `n` in front of a text; `fuel` above `n` is enough.
unfoldable digits : ℕ → ℕ → String → String
digits zero n acc = acc
digits (suc fuel) n acc =
    let rest = digits fuel (n / 10) (digit (n % 10) ∷ acc) in
    if ltb n 10 then digit n ∷ acc else rest

-- strconv.Itoa
unfoldable pub decimal : ℕ → String
unfolding digits
decimal n = digits (suc n) n ""

value : Char → Option ℕ
value c = if leb 48 (code c) && leb (code c) 57 then some (code c - 48) else none

-- reads digits behind those that make up the number `n`
unfoldable scan : String → ℕ → Option ℕ
unfolding value
scan [] n = some n
scan (c ∷ s) n = elim (value c) [ none ↦ none | some d ↦ scan s (n * 10 + d) ]

abbrev unsigned : String → Option ℕ
unsigned [] = none
unsigned (c ∷ s) = scan (c ∷ s) 0

abbrev positive : Option ℕ → Result ℤ
positive none = err "invalid syntax"
positive (some n) = if ltb n (2 ^ 63) then ok (pos n) else err "value out of range"

abbrev negative : Option ℕ → Result ℤ
negative none = err "invalid syntax"
negative (some zero) = ok (pos 0)
negative (some (suc n)) = if ltb n (2 ^ 63) then ok (negsuc n) else err "value out of range"

abbrev minus : ℕ
minus = 45

abbrev plus : ℕ
plus = 43

-- strconv.ParseInt(s, 10, 64)
unfoldable pub parse_int : String → Result ℤ
unfolding scan
parse_int [] = err "invalid syntax"
parse_int (c ∷ s) =
    if eqb (code c) minus
    then negative (unsigned s)
    else if eqb (code c) plus
    then positive (unsigned s)
    else positive (scan (c ∷ s) 0)

value-digit : (d : ℕ) → d < 10 → value (digit d) ≡ some d
unfolding value
value-digit =
    Below_at 10 (λ d. value (digit d) ≡ some d)
      (refl, (refl, (refl, (refl, (refl, (refl, (refl, (refl, (refl, (refl, tt))))))))))

digits_last :
    (fuel n : ℕ) (acc : String) → ltb n 10 ≡ true → digits (suc fuel) n acc ≡ digit n ∷ acc
unfolding digits
digits_last fuel n acc h = rw h refl

digits_more :
    (fuel n : ℕ) (acc : String)
    → ltb n 10 ≡ false
    → digits (suc fuel) n acc ≡ digits fuel (n / 10) (digit (n % 10) ∷ acc)
unfolding digits
digits_more fuel n acc h = rw h refl

scan-digit :
    (c : Char) (s : String) (n d : ℕ) → value c ≡ some d → scan (c ∷ s) n ≡ scan s (n * 10 + d)
unfolding scan
scan-digit c s n d h = rw (scan, h) refl

scan-digits : (fuel n : ℕ) (acc : String) → n < fuel → scan (digits fuel n acc) 0 ≡ scan acc n
scan-digits zero n acc h = absurd (omega arith)
scan-digits (suc fuel) n acc h = elim (Bool-cases (ltb n 10)) [
  | inl e ↦
      let small : n < 10 = ground arith in
      let same : 0 * 10 + n ≡ n = omega arith in
      rw (digits_last fuel n acc e, scan-digit (digit n) acc 0 n (value-digit n small), same) refl
  | inr e ↦
      let back : n / 10 * 10 + n % 10 ≡ n = omega arith in
      let large : 10 ≤ n = ground arith in
      let next =
        scan-digit (digit (n % 10)) acc (n / 10) (n % 10) (value-digit (n % 10) (omega arith)) in
      rw
        (
          digits_more fuel n acc e,
          scan-digits fuel (n / 10) (digit (n % 10) ∷ acc) (omega arith),
          next,
          back,
        )
        refl
]

code-digit : (d : ℕ) → d < 10 → leb 48 (code (digit d)) ≡ true
code-digit =
    Below_at 10 (λ d. leb 48 (code (digit d)) ≡ true)
      (refl, (refl, (refl, (refl, (refl, (refl, (refl, (refl, (refl, (refl, tt))))))))))

digits-first :
    (fuel n : ℕ) (acc : String)
    → n < fuel
    → (c : Char) × (s : String) × (digits fuel n acc ≡ c ∷ s) × (leb 48 (code c) ≡ true)
digits-first zero n acc h = absurd (omega arith)
digits-first (suc fuel) n acc h = elim (Bool-cases (ltb n 10)) [
  | inl e ↦
      let small : n < 10 = ground arith in
      (digit n, acc, digits_last fuel n acc e, code-digit n small)
  | inr e ↦
      let large : 10 ≤ n = ground arith in
      let (c, s, same, low) = digits-first fuel (n / 10) (digit (n % 10) ∷ acc) (omega arith) in
      (c, s, digits_more fuel n acc e ∙ same, low)
]

parse_int_digits :
    (c : Char) (s : String) (n : ℕ)
    → leb 48 (code c) ≡ true
    → scan (c ∷ s) 0 ≡ some n
    → n < 2 ^ 63
    → parse_int (c ∷ s) ≡ ok (pos n)
unfolding parse_int
parse_int_digits c s n low read small =
    let no_minus : eqb (code c) 45 ≡ false = ground arith in
    let no_plus : eqb (code c) 43 ≡ false = ground arith in
    let fits : ltb n (2 ^ 63) ≡ true = ground arith in rw (no_minus, no_plus, read, fits) refl

-- Reading a number from its decimal text gives the number, within int64.
pub parse_int-decimal : (n : ℕ) → n < 2 ^ 63 → parse_int (decimal n) ≡ ok (pos n)
unfolding decimal scan
parse_int-decimal n h =
    let (c, s, same, low) = digits-first (suc n) n "" (omega arith) in
    let read = ap (λ t. scan t 0) (sym same) ∙ scan-digits (suc n) n "" (omega arith) in
    ap parse_int same ∙ parse_int_digits c s n low read h

pub decimal-ne-nil : (n : ℕ) → (decimal n == "") ≡ false
unfolding decimal
decimal-ne-nil n =
    let (c, s, same, low) = digits-first (suc n) n "" (omega arith) in
    eq_false (decimal n) "" λ e. cons-ne-nil c s (sym same ∙ e)

tests :
    (decimal 0 ≡ "0")
    × (decimal 1_700_000_305 ≡ "1700000305")
    × (parse_int "-12" ≡ ok (negsuc 11))
    × (parse_int "+7" ≡ ok (pos 7))
    × (parse_int "7 " ≡ err "invalid syntax")
    × (parse_int "-9223372036854775808" ≡ ok (negsuc 9_223_372_036_854_775_807))
    × (parse_int "9223372036854775808" ≡ err "value out of range")
unfolding parse_int decimal
tests = (refl, refl, refl, refl, refl, refl, refl)

positive-bound : (o : Option ℕ) (n : ℕ) → positive o ≡ ok (pos n) → n < 2 ^ 63
positive-bound none n e = absurd (cc e)
positive-bound (some m) n e = ground arith

negative-bound : (o : Option ℕ) (n : ℕ) → negative o ≡ ok (pos n) → n < 2 ^ 63
negative-bound none n e = absurd (cc e)
negative-bound (some zero) n e = ground arith
negative-bound (some (suc m)) n e = ground arith

pub parse_int-bound : (s : String) (n : ℕ) → parse_int s ≡ ok (pos n) → n < 2 ^ 63
unfolding parse_int
parse_int-bound [] n e = absurd (cc e)
parse_int-bound (c ∷ s) n e = elim (Bool-cases (eqb (code c) minus)) [
  | inl h ↦ negative-bound (unsigned s) n (rw h at e)
  | inr h ↦ elim (Bool-cases (eqb (code c) plus)) [
    | inl k ↦ positive-bound (unsigned s) n (rw (h, k) at e)
    | inr k ↦ positive-bound (scan (c ∷ s) 0) n (rw (h, k) at e)
  ]
]

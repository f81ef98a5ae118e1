-- ===== src/Common/Lists.antt =====
-- Lists over the native numbers, and the predicate that every entry satisfies.
use Prim.Native.Nat.{ℕ, zero, suc, ◌+◌, ◌≤◌, ◌<◌}
use mathlib.Core.Path.{◌≡◌, refl, ap, subst, ◌∙◌}
use mathlib.Core.Logic.{◌⊎◌, inl, inr}
use mathlib.Core.Bool.{Bool, true, false}
use mathlib.Core.Option.{Option, none, some}
use mathlib.Core.List.{List, [], ◌∷◌, ◌++◌}
use native.Mathlib.Omega.{arith}
use harbor_hook.Common.Tests.{if◌then◌else◌, Bool-cases}

module _ {ℓ} {A : Type ℓ} where
  abbrev pub length : List A → ℕ
  length [] = 0
  length (x ∷ xs) = suc (length xs)

  abbrev pub take : ℕ → List A → List A
  take zero xs = []
  take (suc n) [] = []
  take (suc n) (x ∷ xs) = x ∷ take n xs

  abbrev pub filter : (A → Bool) → List A → List A
  filter p [] = []
  filter p (x ∷ xs) = if p x then x ∷ filter p xs else filter p xs

  abbrev pub any : (A → Bool) → List A → Bool
  any p [] = false
  any p (x ∷ xs) = if p x then true else any p xs

  abbrev pub find : (A → Bool) → List A → Option A
  find p [] = none
  find p (x ∷ xs) = if p x then some x else find p xs

  abbrev pub All {κ} : (A → Type κ) → List A → Type κ
  All P [] = Unit
  All P (x ∷ xs) = P x × All P xs

  pub length-append : (xs ys : List A) → length (xs ++ ys) ≡ length xs + length ys
  length-append [] ys = omega arith
  length-append (x ∷ xs) ys = omega (arith, length-append xs ys)

  pub length-take-le : (n : ℕ) (xs : List A) → length (take n xs) ≤ n
  length-take-le zero xs = omega arith
  length-take-le (suc n) [] = omega arith
  length-take-le (suc n) (x ∷ xs) = omega (arith, length-take-le n xs)

  pub All-append {κ} : (P : A → Type κ) (xs ys : List A) → All P xs → All P ys → All P (xs ++ ys)
  All-append P [] ys hx hy = hy
  All-append P (x ∷ xs) ys hx hy = (hx.0, All-append P xs ys hx.1 hy)

  pub All-take {κ} : (P : A → Type κ) (n : ℕ) (xs : List A) → All P xs → All P (take n xs)
  All-take P zero xs h = tt
  All-take P (suc n) [] h = tt
  All-take P (suc n) (x ∷ xs) h = (h.0, All-take P n xs h.1)

  pub All-mono {κ ι} :
      (P : A → Type κ) (Q : A → Type ι) (xs : List A) → ((a : A) → P a → Q a) → All P xs → All Q xs
  All-mono P Q [] f h = tt
  All-mono P Q (x ∷ xs) f h = (f x h.0, All-mono P Q xs f h.1)

  pub any-append : (p : A → Bool) (xs ys : List A) → any p xs ≡ true → any p (xs ++ ys) ≡ true
  any-append p [] ys h = cc
  any-append p (x ∷ xs) ys h = ground (arith, any-append p xs ys)

  pub find-append :
      (p : A → Bool) (xs ys : List A) (a : A) → find p xs ≡ some a → find p (xs ++ ys) ≡ some a
  find-append p [] ys a h = cc
  find-append p (x ∷ xs) ys a h = ground (arith, find-append p xs ys a)

  pub All-find {κ} :
      (P : A → Type κ) (p : A → Bool) (xs : List A) (a : A) → All P xs → find p xs ≡ some a → P a
  All-find P p (x ∷ xs) a (h, hs) e = elim (Bool-cases (p x)) [
    | inl yes_x ↦ subst P (ground arith) h
    | inr no_x ↦ All-find P p xs a hs (ground arith)
  ]
  All-find P p [] a h e = absurd (cc e)

  pub find_holds : (p : A → Bool) (xs : List A) (a : A) → find p xs ≡ some a → p a ≡ true
  find_holds p [] a e = cc
  find_holds p (x ∷ xs) a e = ground (arith, find_holds p xs a)

  -- the first entry that satisfies the test, where only the last one does
  pub find-snoc :
      (p : A → Bool) (xs : List A) (a : A)
      → any p xs ≡ false
      → p a ≡ true
      → find p (xs ++ a ∷ []) ≡ some a
  find-snoc p [] a h t = ground arith
  find-snoc p (x ∷ xs) a h t = ground (arith, find-snoc p xs a)

  pub any_of_find :
      (p q : A → Bool) (xs : List A) (a : A) → find p xs ≡ some a → q a ≡ true → any q xs ≡ true
  any_of_find p q [] a e t = cc
  any_of_find p q (x ∷ xs) a e t = ground (arith, any_of_find p q xs a)

  pub any-snoc :
      (q : A → Bool) (xs : List A) (a : A)
      → any q xs ≡ false
      → q a ≡ false
      → any q (xs ++ a ∷ []) ≡ false
  any-snoc q [] a h t = ground arith
  any-snoc q (x ∷ xs) a h t = ground (arith, any-snoc q xs a)

  pub filter-pos :
      (p : A → Bool) (xs ys : List A) (a : A) → p a ≡ true → 0 < length (filter p (xs ++ a ∷ ys))
  filter-pos p [] ys a h = ground arith
  filter-pos p (x ∷ xs) ys a h = ground (arith, filter-pos p xs ys a h)

-- an entry of a list
abbrev pub In : {A : Type 0} → A → List A → Type 0
In a [] = ⊥
In a (x ∷ xs) = (x ≡ a) ⊎ In a xs

pub filter-In :
    {A : Type 0} (p : A → Bool) (xs : List A) (a : A) → In a xs → p a ≡ true → In a (filter p xs)
filter-In p [] a m h = absurd m
filter-In p (x ∷ xs) a (inl same) h = rw (ap p same ∙ h) (inl same)
filter-In p (x ∷ xs) a (inr later) h = elim (Bool-cases (p x)) [
  | inl e ↦ rw e (inr (filter-In p xs a later h))
  | inr e ↦ rw e (filter-In p xs a later h)
]

pub All-In : {A : Type 0} (P : A → Type 0) (xs : List A) (a : A) → All P xs → In a xs → P a
All-In P [] a h m = absurd m
All-In P (x ∷ xs) a (h, hs) (inl same) = subst P same h
All-In P (x ∷ xs) a (h, hs) (inr later) = All-In P xs a hs later

pub filter-All :
    {A : Type 0} (P : A → Type 0) (p : A → Bool) (xs : List A)
    → All P xs
    → All (λ x. P x × (p x ≡ true)) (filter p xs)
filter-All P p [] h = tt
filter-All {A} P p (x ∷ xs) (h, hs) = go (p x) refl (filter-All P p xs hs)
  where
    go :
        (b : Bool)
        → p x ≡ b
        → All (λ y. P y × (p y ≡ true)) (filter p xs)
        → All (λ y. P y × (p y ≡ true)) (if b then x ∷ filter p xs else filter p xs)
    go true e rest = ((h, e), rest)
    go false e rest = rest

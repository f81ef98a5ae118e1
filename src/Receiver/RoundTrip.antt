-- ===== src/Receiver/RoundTrip.antt =====
-- The receiver of cmd/fake-receiver/main.go and the requests that cmd/worker/main.go signs.
use Prim.Native.String.{[], ◌∷◌, ◌++◌, char_at}
use Prim.Native.Char.{Char, code}
use text.Mathlib.TextLemmas.{cons-append, nil-append, append_assoc, cons-ne-nil}
use harbor_hook.Common.{
  ℕ, ◌+◌, ◌-◌, ◌^◌, ◌≤◌, ◌<◌, String, List, [], ◌∷◌, Bool, true, false, not, not, ◌&&◌, ◌==◌, leb,
  ltb, eqb, All, some, ◌≡◌, refl, sym, ap, ◌∙◌, arith, Bool-cases, inl, inr, eq_false,
}
use harbor_hook.Common.Int.{pos}
use harbor_hook.Encoding.Decimal.{decimal, parse_int-decimal, decimal-ne-nil}
use harbor_hook.Encoding.Hex.{encode, decode-encode}
use harbor_hook.Receiver.Signature.{
  valid, subtract, abs64, exceeds, split_once, same_bytes, verify_signature,
}

abbrev equals : Char
equals = char_at "=" 0

abbrev no_equals : String → Bool
no_equals [] = true
no_equals (c ∷ s) = not (eqb (code c) 61) && no_equals s

split_once-cons :
    (c : Char) (s a b : String)
    → eqb (code c) 61 ≡ false
    → split_once s ≡ some (a, b)
    → split_once (c ∷ s) ≡ some (c ∷ a, b)
unfolding split_once
split_once-cons c s a b h found = rw (split_once, h, found) refl

split_once-prefix : (p x : String) → no_equals p ≡ true → split_once (p ++ "=" ++ x) ≡ some (p, x)
unfolding split_once
split_once-prefix [] x h =
    let opened = cons-append equals [] x ∙ ap (λ s. equals ∷ s) (nil-append x) in
    ap split_once (nil-append ("=" ++ x) ∙ opened) ∙ refl
split_once-prefix (c ∷ p) x h =
    let plain : eqb (code c) 61 ≡ false = ground arith in
    let rest : no_equals p ≡ true = ground arith in
    ap split_once (cons-append c p ("=" ++ x))
    ∙ split_once-cons c (p ++ "=" ++ x) p x plain (split_once-prefix p x rest)

same_bytes_refl : (bytes : List ℕ) → same_bytes bytes bytes ≡ true
unfolding same_bytes
same_bytes_refl [] = refl
same_bytes_refl (b ∷ bytes) = rw (same_bytes_refl bytes) ground arith

-- A clock within the leeway of the signer's.
within_leeway :
    (now unix leeway : ℕ)
    → now ≤ unix + leeway
    → unix ≤ now + leeway
    → now < 2 ^ 63
    → unix < 2 ^ 63
    → exceeds (abs64 (subtract now (pos unix))) leeway ≡ false
unfolding abs64 subtract
within_leeway now unix leeway late early a b = elim (Bool-cases (leb unix now)) [
  | inl e ↦ let small : ltb leeway (now - unix) ≡ false = ground arith in rw (e, small) refl
  | inr e ↦
      let inner : eqb (unix - now - 1 + 1) (2 ^ 63) ≡ false = ground arith in
      let small : ltb leeway (unix - now - 1 + 1) ≡ false = ground arith in
      rw (e, inner, small) refl
]

module _ (hmac : String → String → List ℕ) (secret body : String) (unix now leeway : ℕ)
    (bytes : (key text : String) → All (λ b. b < 256) (hmac key text)) (late : now ≤ unix + leeway)
    (early : unix ≤ now + leeway) (representable : unix < 2 ^ 63) (clock : now < 2 ^ 63) where
  abbrev signature : String
  signature = "sha256=" ++ encode (hmac secret (body ++ decimal unix))

  pub verify_signature-signature :
      verify_signature hmac secret body (decimal unix) signature leeway now ≡ valid
  unfolding verify_signature
  verify_signature-signature =
      let mac = hmac secret (body ++ decimal unix) in
      let some_text : (signature == "") ≡ false = eq_false signature "" λ e.
        cons-ne-nil (char_at "s" 0) ("ha256=" ++ encode mac)
          (sym (cons-append (char_at "s" 0) "ha256=" (encode mac)) ∙ e) in
      let parts : split_once signature ≡ some ("sha256", encode mac) =
        ap split_once (append_assoc "sha256" "=" (encode mac))
        ∙ split_once-prefix "sha256" (encode mac) refl in
      rw
        (
          decimal-ne-nil unix,
          some_text,
          parse_int-decimal unix representable,
          within_leeway now unix leeway late early clock representable,
          parts,
          decode-encode mac (bytes secret (body ++ decimal unix)),
          same_bytes_refl mac,
        )
        refl

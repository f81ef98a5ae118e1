-- ===== src/Receiver/Soundness.antt =====
-- What a signature that verifySignature of cmd/fake-receiver/main.go accepts must be.
use Prim.Native.String.{◌++◌}
use harbor_hook.Common.{
  ℕ, String, List, [], ◌∷◌, Bool, true, false, ◌||◌, ◌==◌, if◌then◌else◌, Option, none, some,
  Result, ok, err, ◌≡◌, refl, ap, arith, eq_iff,
}
use harbor_hook.Common.Int.{ℤ}
use harbor_hook.Encoding.Decimal.{parse_int}
use harbor_hook.Encoding.Hex.{decode}
use harbor_hook.Receiver.Signature.{
  Verdict, valid, invalid, subtract, abs64, exceeds, split_once, same_bytes, compared,
  scheme_checked, time_checked, verify_signature,
}

then_valid :
    (b : Bool) (v : Verdict) (msg : String)
    → (if b then v else invalid msg) ≡ valid
    → (b ≡ true) × (v ≡ valid)
then_valid true v msg h = (refl, h)
then_valid false v msg h = absurd (cc h)

else_valid :
    (b : Bool) (v : Verdict) (msg : String)
    → (if b then invalid msg else v) ≡ valid
    → (b ≡ false) × (v ≡ valid)
else_valid true v msg h = absurd (cc h)
else_valid false v msg h = (refl, h)

same_bytes_sound : (xs ys : List ℕ) → same_bytes xs ys ≡ true → xs ≡ ys
unfolding same_bytes
same_bytes_sound [] [] h = refl
same_bytes_sound [] (y ∷ ys) h = absurd (cc h)
same_bytes_sound (x ∷ xs) [] h = absurd (cc h)
same_bytes_sound (x ∷ xs) (y ∷ ys) h =
    let first : x ≡ y = ground arith in
    let rest : same_bytes xs ys ≡ true = ground arith in cc (first, same_bytes_sound xs ys rest)

compared_sound : (want : List ℕ) (o : Option (List ℕ)) → compared want o ≡ valid → o ≡ some want
compared_sound want none h = absurd (cc h)
compared_sound want (some got) h =
    ap some (same_bytes_sound got want (then_valid (same_bytes got want) valid "sig mismatch" h).0)

scheme_sound :
    (want : List ℕ) (o : Option (String × String))
    → scheme_checked want o ≡ valid
    → (digits : String) × (o ≡ some ("sha256", digits)) × (decode digits ≡ some want)
scheme_sound want none h = absurd (cc h)
scheme_sound want (some (scheme, digits)) h =
    let (is_scheme, compares) =
      then_valid (scheme == "sha256") (compared want (decode digits)) "bad signature scheme" h in
    (
      digits,
      ap (λ s. some (s, digits)) ((eq_iff scheme "sha256").0 is_scheme),
      compared_sound want (decode digits) compares,
    )

time_sound :
    (now leeway : ℕ) (r : Result ℤ) (v : Verdict)
    → time_checked now leeway r v ≡ valid
    → (unix : ℤ) × (r ≡ ok unix)
      × (exceeds (abs64 (subtract now unix)) leeway ≡ false)
      × (v ≡ valid)
time_sound now leeway (err e) v h = absurd (cc h)
time_sound now leeway (ok unix) v h =
    let (close, rest) =
      else_valid (exceeds (abs64 (subtract now unix)) leeway) v "timestamp outside leeway" h in
    (unix, refl, close, rest)

-- A signature is accepted only if the timestamp is a number whose computed distance from the clock
-- does not exceed the leeway, and the signature header is sha256= followed by hexadecimal digits of
-- the HMAC, under the secret, of the body followed by the timestamp.
pub verify_signature_sound :
    (hmac : String → String → List ℕ) (secret body ts sig : String) (leeway now : ℕ)
    → verify_signature hmac secret body ts sig leeway now ≡ valid
    → (unix : ℤ) × (digits : String) × (parse_int ts ≡ ok unix)
      × (exceeds (abs64 (subtract now unix)) leeway ≡ false)
      × (split_once sig ≡ some ("sha256", digits))
      × (decode digits ≡ some (hmac secret (body ++ ts)))
unfolding verify_signature
verify_signature_sound hmac secret body ts sig leeway now h =
    let want = hmac secret (body ++ ts) in
    let rest = scheme_checked want (split_once sig) in
    let (_, timed) =
      else_valid (ts == "" || sig == "") (time_checked now leeway (parse_int ts) rest)
        "missing headers" h in
    let (unix, parsed, close, schemed) = time_sound now leeway (parse_int ts) rest timed in
    let (digits, split, decoded) = scheme_sound want (split_once sig) schemed in
    (unix, digits, parsed, close, split, decoded)

-- ===== src/Receiver/Signature.antt =====
-- verifySignature and abs64 of cmd/fake-receiver/main.go. An int64 is the integer that it stands for, and
-- wraps round where Go's does.
use Prim.Native.String.{[], ◌∷◌, ◌++◌}
use Prim.Native.Char.{code}
use harbor_hook.Common.{
  ℕ, ◌+◌, ◌-◌, ◌^◌, String, List, [], ◌∷◌, Bool, true, false, ◌&&◌, ◌||◌, ◌==◌, ltb, eqb,
  if◌then◌else◌, Option, none, some, Result, ok, err,
}
use harbor_hook.Common.Int.{ℤ, pos, negsuc, sub_ℕ}
use harbor_hook.Encoding.Decimal.{parse_int}
use harbor_hook.Encoding.Hex.{decode}

pub data Verdict : Type 0 where
  valid : Verdict
  invalid : String → Verdict

-- time.Now().Unix() - unix, in int64
unfoldable pub subtract : ℕ → ℤ → ℤ
subtract now (pos u) = sub_ℕ now u
subtract now (negsuc m) =
    let d = now + m + 1 in if ltb d (2 ^ 63) then pos d else negsuc (2 ^ 64 - d - 1)

-- abs64; the least int64 is its own negation
unfoldable pub abs64 : ℤ → ℤ
abs64 (pos n) = pos n
abs64 (negsuc n) = if eqb (n + 1) (2 ^ 63) then negsuc n else pos (n + 1)

abbrev pub exceeds : ℤ → ℕ → Bool
exceeds (pos n) leeway = ltb leeway n
exceeds (negsuc n) leeway = false

-- strings.SplitN(s, "=", 2), where it has two parts
unfoldable pub split_once : String → Option (String × String)
split_once [] = none
split_once (c ∷ s) =
    let rest = split_once s in
    if eqb (code c) 61
    then some ([], s)
    else elim rest [ none ↦ none | some (a, b) ↦ some (c ∷ a, b) ]

-- len(gotSig) == len(want) and subtle.ConstantTimeCompare
unfoldable pub same_bytes : List ℕ → List ℕ → Bool
same_bytes [] [] = true
same_bytes [] (b ∷ bs) = false
same_bytes (a ∷ rest) [] = false
same_bytes (a ∷ rest) (b ∷ bs) = eqb a b && same_bytes rest bs

abbrev pub compared : List ℕ → Option (List ℕ) → Verdict
compared want none = invalid "signature not hex"
compared want (some got) = if same_bytes got want then valid else invalid "sig mismatch"

abbrev pub scheme_checked : List ℕ → Option (String × String) → Verdict
scheme_checked want none = invalid "bad signature scheme"
scheme_checked want (some (scheme, sig)) =
    if scheme == "sha256" then compared want (decode sig) else invalid "bad signature scheme"

abbrev pub time_checked : ℕ → ℕ → Result ℤ → Verdict → Verdict
time_checked now leeway (err e) rest = invalid "invalid timestamp"
time_checked now leeway (ok unix) rest =
    if exceeds (abs64 (subtract now unix)) leeway then invalid "timestamp outside leeway" else rest

-- verifySignature; `hmac` is HMAC-SHA256 of a key and a text
unfoldable pub verify_signature :
    (String → String → List ℕ) → String → String → String → String → ℕ → ℕ → Verdict
unfolding parse_int decode subtract abs64 split_once same_bytes
verify_signature hmac secret body ts sig leeway now =
    if ts == "" || sig == ""
    then invalid "missing headers"
    else time_checked now leeway (parse_int ts)
        (scheme_checked (hmac secret (body ++ ts)) (split_once sig))

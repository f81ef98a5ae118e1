-- ===== src/Encoding/Hex.antt =====
-- encoding/hex: EncodeToString and DecodeString. A byte is a number below 256.
use Prim.Native.String.{String, [], ◌∷◌, char_at}
use Prim.Native.Char.{Char, code}
use harbor_hook.Common.{
  ℕ, ◌+◌, ◌-◌, ◌*◌, ◌/◌, ◌%◌, ◌<◌, ◌≡◌, refl, arith, ◌&&◌, Option, none, some, List, [], ◌∷◌, All,
  leb, Below_at, if◌then◌else◌,
}

abbrev nibble : ℕ → Char
nibble n = char_at "0123456789abcdef" n

-- hex.EncodeToString
unfoldable pub encode : List ℕ → String
encode [] = ""
encode (b ∷ bytes) = nibble (b / 16) ∷ nibble (b % 16) ∷ encode bytes

value : Char → Option ℕ
value c =
    if leb 48 (code c) && leb (code c) 57
    then some (code c - 48)
    else if leb 97 (code c) && leb (code c) 102
    then some (code c - 87)
    else if leb 65 (code c) && leb (code c) 70
    then some (code c - 55)
    else none

abbrev pair : Option ℕ → Option ℕ → Option (List ℕ) → Option (List ℕ)
pair (some a) (some b) (some bytes) = some ((a * 16 + b) ∷ bytes)
pair _ _ _ = none

-- hex.DecodeString; an odd length or a character that is no digit is an error
unfoldable pub decode : String → Option (List ℕ)
unfolding value
decode [] = some []
decode (c ∷ []) = none
decode (c ∷ d ∷ s) = pair (value c) (value d) (decode s)

value-nibble : (n : ℕ) → n < 16 → value (nibble n) ≡ some n
unfolding value
value-nibble =
    Below_at 16 (λ n. value (nibble n) ≡ some n)
      (
        refl,
        (
          refl,
          (
            refl,
            (
              refl,
              (
                refl,
                (
                  refl,
                  (
                    refl,
                    (refl, (refl, (refl, (refl, (refl, (refl, (refl, (refl, (refl, tt))))))))),
                  ),
                ),
              ),
            ),
          ),
        ),
      )

-- Decoding inverts encoding, for bytes below 256.
pub decode-encode : (bytes : List ℕ) → All (λ b. b < 256) bytes → decode (encode bytes) ≡ some bytes
unfolding decode encode
decode-encode [] h = refl
decode-encode (b ∷ bytes) (small, rest) =
    let back : b / 16 * 16 + b % 16 ≡ b = omega arith in
    rw
      (
        value-nibble (b / 16) (omega arith),
        value-nibble (b % 16) (omega arith),
        decode-encode bytes rest,
        back,
      )
      refl

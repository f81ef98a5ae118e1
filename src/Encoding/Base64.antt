-- ===== src/Encoding/Base64.antt =====
-- base64.RawURLEncoding.EncodeToString, for generateSecret of internal/ingest/service.go and
-- base64UrlEncode of cmd/jwks-server/main.go.
use Prim.Native.String.{String, [], ◌∷◌, char_at}
use harbor_hook.Common.{ℕ, ◌+◌, ◌*◌, ◌/◌, ◌%◌, List, [], ◌∷◌, ◌≡◌, refl}

-- The 6-bit groups of the bytes; a last group that is not full is filled with zeros.
unfoldable pub sextets : List ℕ → List ℕ
sextets [] = []
sextets (a ∷ []) = (a / 4) ∷ (a % 4 * 16) ∷ []
sextets (a ∷ b ∷ []) = (a / 4) ∷ (a % 4 * 16 + b / 16) ∷ (b % 16 * 4) ∷ []
sextets (a ∷ b ∷ c ∷ rest) =
    (a / 4) ∷ (a % 4 * 16 + b / 16) ∷ (b % 16 * 4 + c / 64) ∷ (c % 64) ∷ sextets rest

abbrev alphabet : String
alphabet = "ABCDEFGHIJKLMNOPQRSTUVWXYZabcdefghijklmnopqrstuvwxyz0123456789-_"

letters : List ℕ → String
letters [] = ""
letters (s ∷ rest) = char_at alphabet s ∷ letters rest

unfoldable pub raw_url_encode : List ℕ → String
unfolding letters sextets
raw_url_encode bytes = letters (sextets bytes)

encode_test : raw_url_encode (1 ∷ 0 ∷ 1 ∷ []) ≡ "AQAB"
unfolding raw_url_encode
encode_test = refl

-- ===== src/Jwks.antt =====
-- cmd/jwks-server/main.go: the claims and the refusals of createTokenHandler, the key set, and intToBytes. Signing is
-- a parameter.
pub mod Bytes
pub mod Tokens
use harbor_hook.Common.{
  List, Result, String, [], err, if◌then◌else◌, ltb, none, ok, some, suc, zero, ℕ, ◌%◌, ◌*◌, ◌+◌,
  ◌-◌, ◌/◌, ◌==◌, ◌^◌, ◌∷◌,
}
use harbor_hook.Auth.{Claims, other, word}
use harbor_hook.Common.Int.{negsuc, pos, ℤ}
use harbor_hook.Encoding.Base64.{raw_url_encode}
use harbor_hook.Harborctl.Traffic.Phase.{modulus}

-- the bytes of `i` in front of others; `fuel` above `i` is enough
unfoldable pub bytes_before : ℕ → ℕ → List ℕ → List ℕ
bytes_before zero i acc = acc
bytes_before (suc fuel) i acc =
    let rest = bytes_before fuel (i / 256) (i % 256 ∷ acc) in if ltb 0 i then rest else acc

-- intToBytes of an exponent, which is not negative
unfoldable pub int_to_bytes : ℕ → List ℕ
unfolding bytes_before
int_to_bytes zero = 0 ∷ []
int_to_bytes (suc i) = bytes_before (suc (suc i)) (suc i) []

-- the request of createTokenHandler
pub record TokenRequest : Type 0 where
  pub tenant_id : String
  pub ttl : ℤ

abbrev pub ttl_of : ℤ → ℤ
ttl_of (pos zero) = pos 3600
ttl_of t = t

abbrev signed : ℕ → ℤ
signed x = if ltb x (2 ^ 63) then pos x else negsuc (2 ^ 64 - x - 1)

-- time.Duration(ttl) * time.Second, in an int64 of nanoseconds
abbrev pub lifetime : ℤ → ℤ
lifetime (pos n) = signed (n * 10 ^ 9 % 2 ^ 64)
lifetime (negsuc n) = signed ((2 ^ 64 - (n + 1) * 10 ^ 9 % 2 ^ 64) % 2 ^ 64)

-- iat and exp are numbers
abbrev pub token_claims : String → Claims
token_claims tenant name =
    if name == "iss"
    then some (word "harborhook")
    else if name == "aud"
    then some (word "harborhook-api")
    else if name == "sub"
    then some (word tenant)
    else if name == "tenant_id"
    then some (word tenant)
    else if name == "iat"
    then some other
    else if name == "exp"
    then some other
    else none

-- the response of createTokenHandler: the token with its ttl, or a status code
pub data TokenReply : Type 0 where
  issued : String → ℤ → TokenReply
  bad_request : String → TokenReply
  internal_error : TokenReply

abbrev pub issued_as : ℤ → Result String → TokenReply
issued_as ttl (ok token) = issued token ttl
issued_as ttl (err e) = internal_error

-- createTokenHandler; `sign` gives the RS256 token with these claims, the iat of which is the time and the
-- exp the time after this duration
unfoldable pub create_token : (Claims → ℤ → Result String) → Result TokenRequest → TokenReply
create_token sign (err e) = bad_request "Invalid JSON"
create_token sign (ok req) =
    if req.tenant_id == ""
    then bad_request "tenant_id is required"
    else issued_as (ttl_of req.ttl) (sign (token_claims req.tenant_id) (lifetime (ttl_of req.ttl)))

-- JWK, the key type and the use of which are RSA and sig
pub record Jwk : Type 0 where
  pub kid : String
  pub n : String
  pub e : String

-- the key set of jwksHandler: a modulus in bytes and an exponent under the identifier of the key
unfoldable pub jwks_response : String → List ℕ → ℕ → List Jwk
unfolding raw_url_encode int_to_bytes
jwks_response key_id modulus exponent =
    record { kid = key_id; n = raw_url_encode modulus; e = raw_url_encode (int_to_bytes exponent) }
    ∷ []

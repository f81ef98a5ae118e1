-- ===== src/Jwks/Tokens.antt =====
-- Tokens of cmd/jwks-server/main.go under the validator of internal/auth/jwt.go.
use harbor_hook.Common.{ℕ, ◌^◌, ◌≤◌, String, ◌≡◌, refl, ◌≢◌, some, Result, ok, true, eq_false}
use harbor_hook.Common.Int.{ℤ, pos}
use harbor_hook.Auth.{Claims, Parser, Validator, key_for, validate_token}
use harbor_hook.Jwks.{TokenRequest, issued, token_claims, ttl_of, lifetime, create_token}

-- the validator of the ingest service's defaults
abbrev pub validator : {K : Type 0} → K → Validator K
validator key = record { public_key = key; issuer = "harborhook"; audience = "harborhook-api" }

module _ {K : Type 0} (parse : Parser K) (key : K) (sign : Claims → ℤ → Result String) where
  -- Where the tokens that are signed to live for at least a second parse, under the key, as valid
  -- tokens with the claims that were signed: a token request with a tenant, whose time to live is at
  -- least a second as an int64 of nanoseconds, one hour where it is 0, and whose signing succeeds,
  -- is answered with that token and its time to live, and the validator of the ingest service's
  -- defaults returns the tenant for it.
  pub validate_token-create_token :
      (req : TokenRequest) (text : String) (d : ℕ)
      → ((tenant : String) (t : ℕ) (signed : String)
          → 10 ^ 9 ≤ t
          → sign (token_claims tenant) (pos t) ≡ ok signed
          → parse (key_for (validator key)) signed
            ≡ ok (record { is_valid = true; claims = some (token_claims tenant) }))
      → req.tenant_id ≢ ""
      → lifetime (ttl_of req.ttl) ≡ pos d
      → 10 ^ 9 ≤ d
      → sign (token_claims req.tenant_id) (pos d) ≡ ok text
      → (create_token sign (ok req) ≡ issued text (ttl_of req.ttl))
        × (validate_token parse (validator key) text ≡ ok req.tenant_id)
  unfolding create_token validate_token
  validate_token-create_token req text d verifies given lives long signed =
      let parsed = verifies req.tenant_id d text long signed in
      (
        rw (eq_false req.tenant_id "" given, lives, signed) refl,
        rw (parsed, eq_false req.tenant_id "" given) refl,
      )

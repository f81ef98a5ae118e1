-- ===== src/Auth.antt =====
-- internal/auth/jwt.go: ValidateToken, HTTPMiddleware and GRPCInterceptor, and in Keys what makes a validator.
-- jwt.Parse is a parameter.
pub mod Tokens
pub mod Gates
pub mod Keys
use Prim.Native.String.{len, slice, ◌++◌}
use text.Mathlib.Text.{starts_with}
use harbor_hook.Common.{
  ℕ, String, List, [], ◌∷◌, Bool, true, false, not, ◌||◌, ◌==◌, if◌then◌else◌, Option, none, some,
  Result, ok, err, wrap,
}
use harbor_hook.Http.{Headers, get_header}
use harbor_hook.Encoding.Words.{contains}

-- a claim of jwt.MapClaims: a text, or a value of another type
pub data Claim : Type 0 where
  word : String → Claim
  other : Claim

abbrev pub Claims : Type 0
Claims = String → Option Claim

-- token.Method
pub data Method : Type 0 where
  rsa : Method
  unexpected : String → Method

-- what jwt.Parse returns; `claims` is none for claims of another type than MapClaims
pub record Token : Type 0 where
  pub is_valid : Bool
  pub claims : Option Claims

-- jwt.Parse of a text, with the function that gives the key for a method
abbrev pub Parser : Type 0 → Type 0
Parser K = (Method → Result K) → String → Result Token

-- JWTValidator
pub record Validator (K : Type 0) : Type 0 where
  pub public_key : K
  pub issuer : String
  pub audience : String

-- claims[name].(string)
abbrev pub text_claim : Option Claim → Option String
text_claim none = none
text_claim (some (word s)) = some s
text_claim (some other) = none

abbrev pub equals : Option String → String → Bool
equals none s = false
equals (some t) s = t == s

abbrev pub tenant_of : Option String → Result String
tenant_of none = err "missing or invalid tenant_id claim"
tenant_of (some t) = if t == "" then err "missing or invalid tenant_id claim" else ok t

-- why a request is refused, with status 401 or the code Unauthenticated
pub data Refusal : Type 0 where
  missing_metadata missing_header bad_format : Refusal
  invalid_token : String → Refusal

-- the next handler with the tenant of its context, or a refusal
pub data Access : Type 0 where
  passed : Option String → Access
  refused : Refusal → Access

abbrev pub access_of : Result String → Access
access_of (ok t) = passed (some t)
access_of (err e) = refused (invalid_token e)

module _ {K : Type 0} (v : Validator K) where
  abbrev pub key_for : Method → Result K
  key_for rsa = ok v.public_key
  key_for (unexpected alg) = err ("unexpected signing method: " ++ alg)

  abbrev pub claims_checked : Option Claims → Result String
  claims_checked none = err "invalid claims"
  claims_checked (some claims) =
      if not (equals (text_claim (claims "iss")) v.issuer)
      then err "invalid issuer"
      else if not (equals (text_claim (claims "aud")) v.audience)
      then err "invalid audience"
      else tenant_of (text_claim (claims "tenant_id"))

  abbrev pub token_checked : Result Token → Result String
  token_checked (err e) = err ("failed to parse token: " ++ e)
  token_checked (ok t) = if t.is_valid then claims_checked t.claims else err "invalid token"

module _ {K : Type 0} (parse : Parser K) (v : Validator K) where
  -- ValidateToken
  unfoldable pub validate_token : String → Result String
  validate_token s = token_checked v (parse (key_for v) s)

  -- strings.TrimPrefix(header, "Bearer "), and the token that it leaves
  abbrev pub bearer : String → Access
  bearer header =
      if starts_with header "Bearer "
      then access_of (validate_token (slice header 7 (len header)))
      else refused bad_format

  -- HTTPMiddleware
  unfoldable pub http_middleware : String → Headers → Access
  http_middleware path headers =
      let tenant = get_header "x-tenant-id" headers in
      let authorization = get_header "Authorization" headers in
      if path == "/healthz" || path == "/v1/ping"
      then passed none
      else if not (tenant == "")
      then passed (some tenant)
      else if authorization == ""
      then refused missing_header
      else bearer authorization

  abbrev pub authorized : List String → Access
  authorized [] = refused missing_header
  authorized (header ∷ rest) = bearer header

  abbrev pub identified : List String → List String → Access
  identified [] authorizations = authorized authorizations
  identified (tenant ∷ rest) authorizations = passed (some tenant)

  abbrev pub with_metadata : Option (String → List String) → Access
  with_metadata none = refused missing_metadata
  with_metadata (some md) = identified (md "x-tenant-id") (md "authorization")

  -- GRPCInterceptor
  unfoldable pub grpc_interceptor : String → Option (String → List String) → Access
  grpc_interceptor full_method md =
      if contains full_method "Health" then passed none else with_metadata md

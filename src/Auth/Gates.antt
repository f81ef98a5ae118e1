-- ===== src/Auth/Gates.antt =====
-- The tenant that HTTPMiddleware and GRPCInterceptor of internal/auth/jwt.go pass on.
use Prim.Native.String.{len, slice}
use text.Mathlib.Text.{starts_with}
use harbor_hook.Common.{
  String, List, [], ◌∷◌, Bool, true, false, not, ◌||◌, ◌==◌, if◌then◌else◌, none, some, Result, ok,
  err, ◌≡◌, refl, ◌≢◌, ◌⊎◌, inl, inr, ap, ◌∙◌, eq_iff,
}
use harbor_hook.Http.{Headers, get_header}
use harbor_hook.Encoding.Words.{contains}
use harbor_hook.Auth.{
  Parser, Validator, passed, refused, missing_header, bad_format, access_of, validate_token, bearer,
  http_middleware, identified, grpc_interceptor,
}
use harbor_hook.Auth.Tokens.{Vouches, validate_token_sound}

module _ {K : Type 0} (parse : Parser K) (v : Validator K) where
  -- A token that the validator accepts vouches for the tenant.
  abbrev pub Authentic : String → Type 0
  Authentic t = (s : String) × Vouches parse v s t

  access_sound :
      (s t : String) (r : Result String)
      → validate_token parse v s ≡ r
      → access_of r ≡ passed (some t)
      → Authentic t
  access_sound s t (ok u) e h =
      let same : u ≡ t = cc h in (s, validate_token_sound parse v s t (e ∙ ap ok same))
  access_sound s t (err x) e h = absurd (cc h)

  bearer_sound : (header t : String) → bearer parse v header ≡ passed (some t) → Authentic t
  bearer_sound header t h = go (starts_with header "Bearer ") h
    where
      s : String
      s = slice header 7 (len header)

      go :
          (b : Bool)
          → (if b then access_of (validate_token parse v s) else refused bad_format)
            ≡ passed (some t)
          → Authentic t
      go true k = access_sound s t (validate_token parse v s) refl k
      go false k = absurd (cc k)

  -- A tenant that HTTPMiddleware passes on is either the value of the header x-tenant-id and not
  -- empty, or the tenant of a bearer token that jwt.Parse found valid under the validator's key,
  -- whose claims name the validator's issuer and audience.
  pub http_middleware_sound :
      (path : String) (headers : Headers) (t : String)
      → http_middleware parse v path headers ≡ passed (some t)
      → ((get_header "x-tenant-id" headers ≡ t) × (t ≢ "")) ⊎ Authentic t
  unfolding http_middleware
  http_middleware_sound path headers t h =
      go (path == "/healthz" || path == "/v1/ping") (get_header "x-tenant-id" headers == "")
        (get_header "Authorization" headers == "") refl h
    where
      tenant : String
      tenant = get_header "x-tenant-id" headers

      go :
          (a b c : Bool)
          → (tenant == "") ≡ b
          → (if a
              then passed none
              else if not b
              then passed (some tenant)
              else if c
              then refused missing_header
              else bearer parse v (get_header "Authorization" headers))
            ≡ passed (some t)
          → ((tenant ≡ t) × (t ≢ "")) ⊎ Authentic t
      go true b c e k = absurd (cc k)
      go false false c e k =
          let same : tenant ≡ t = cc k in
          inl (same, λ empty. cc ((eq_iff tenant "").1 (same ∙ empty), e))
      go false true true e k = absurd (cc k)
      go false true false e k = inr (bearer_sound (get_header "Authorization" headers) t k)

  identified_sound :
      (tenants authorizations : List String) (t : String)
      → identified parse v tenants authorizations ≡ passed (some t)
      → ((rest : List String) × (tenants ≡ t ∷ rest)) ⊎ Authentic t
  identified_sound [] [] t h = absurd (cc h)
  identified_sound [] (header ∷ rest) t h = inr (bearer_sound header t h)
  identified_sound (u ∷ rest) authorizations t h =
      let same : u ≡ t = cc h in inl (rest, ap (λ x. x ∷ rest) same)

  -- A tenant that GRPCInterceptor passes on is either the first value of the metadata x-tenant-id,
  -- or the tenant of a bearer token that jwt.Parse found valid under the validator's key, whose
  -- claims name the validator's issuer and audience.
  pub grpc_interceptor_sound :
      (full_method : String) (md : String → List String) (t : String)
      → grpc_interceptor parse v full_method (some md) ≡ passed (some t)
      → ((rest : List String) × (md "x-tenant-id" ≡ t ∷ rest)) ⊎ Authentic t
  unfolding grpc_interceptor
  grpc_interceptor_sound full_method md t h = go (contains full_method "Health") h
    where
      go :
          (b : Bool)
          → (if b then passed none else identified parse v (md "x-tenant-id") (md "authorization"))
            ≡ passed (some t)
          → ((rest : List String) × (md "x-tenant-id" ≡ t ∷ rest)) ⊎ Authentic t
      go true k = absurd (cc k)
      go false k = identified_sound (md "x-tenant-id") (md "authorization") t k

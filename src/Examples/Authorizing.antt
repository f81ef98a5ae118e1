-- ===== src/Examples/Authorizing.antt =====
-- The theorems on tokens, with a parser that reads the tenant of the token server's claims.
use harbor_hook.Common.{
  Bool-cases, List, Option, Result, String, [], arith, err, false, if◌then◌else◌, inl, inr, ltb,
  ne_of_eq_false, none, ok, refl, some, subst, true, ℕ, ◌*◌, ◌==◌, ◌^◌, ◌∷◌, ◌≡◌, ◌≢◌, ◌≤◌, ◌⊎◌,
}
use harbor_hook.Auth.{
  Claims, Method, key_for, Parser, grpc_interceptor, http_middleware, text_claim, validate_token,
}
use harbor_hook.Auth.Gates.{Authentic, grpc_interceptor_sound, http_middleware_sound}
use harbor_hook.Common.Int.{negsuc, pos, ℤ}
use harbor_hook.Encoding.Words.{contains, to_lower}
use harbor_hook.Http.{get_header}
use harbor_hook.Jwks.{create_token, issued, token_claims}
use harbor_hook.Jwks.Tokens.{validate_token-create_token, validator}

-- A token is the text of its tenant, or "expired" where it lives for less than a second.
abbrev named : Option String → Result String
named none = err "no tenant"
named (some t) = if t == "expired" then err "reserved" else ok t

abbrev sign : Claims → ℤ → Result String
sign claims (pos t) =
    if ltb t (10 ^ 9) then ok "expired" else named (text_claim (claims "tenant_id"))
sign claims (negsuc t) = ok "expired"

abbrev parse : Parser ℕ
parse key s =
    if s == "expired"
    then err "token is expired"
    else ok (record { is_valid = true; claims = some (token_claims s) })

sign-parse :
    (key : Method → Result ℕ) (tenant : String) (t : ℕ) (signed : String)
    → 10 ^ 9 ≤ t
    → sign (token_claims tenant) (pos t) ≡ ok signed
    → parse key signed ≡ ok (record { is_valid = true; claims = some (token_claims tenant) })
sign-parse key tenant t signed long e =
    let late : ltb t (10 ^ 9) ≡ false = ground arith in
    elim (Bool-cases (tenant == "expired")) [
      | inl reserved ↦
          let bad : Path (Result String) (err "reserved") (ok signed) = rw (late, reserved) at e in
          cc bad
      | inr free ↦
          let same : Path (Result String) (ok tenant) (ok signed) = rw (late, free) at e in
          let name : tenant ≡ signed = cc same in
          subst
            (λ s.
              parse key s ≡ ok (record { is_valid = true; claims = some (token_claims tenant) }))
            name (rw free refl)
    ]

validate_token-create_token_example :
    (create_token sign (ok (record { tenant_id = "acme"; ttl = pos 60 })) ≡ issued "acme" (pos 60))
    × (validate_token parse (validator 3) "acme" ≡ ok "acme")
validate_token-create_token_example =
    validate_token-create_token parse 3 sign (record { tenant_id = "acme"; ttl = pos 60 }) "acme"
      (60 * 10 ^ 9) (sign-parse (key_for (validator 3))) (ne_of_eq_false "acme" "" refl) refl
      (omega arith) refl

http_middleware_sound_example :
    ((get_header "x-tenant-id" (("Authorization", "Bearer acme") ∷ []) ≡ "acme")
      × (◌≢◌ {A = String} "acme" ""))
    ⊎ Authentic parse (validator 3) "acme"
unfolding http_middleware get_header to_lower validate_token
http_middleware_sound_example =
    http_middleware_sound parse (validator 3) "/v1/events" (("Authorization", "Bearer acme") ∷ [])
      "acme" refl

grpc_interceptor_sound_example :
    ((rest : List String) × ("globex" ∷ [] ≡ "globex" ∷ rest))
    ⊎ Authentic parse (validator 3) "globex"
unfolding grpc_interceptor contains
grpc_interceptor_sound_example =
    grpc_interceptor_sound parse (validator 3) "/Webhook/Publish"
      (λ name. if name == "x-tenant-id" then "globex" ∷ [] else []) "globex" refl

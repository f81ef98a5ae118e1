-- ===== src/Auth/Tokens.antt =====
-- What ValidateToken and the two gates of internal/auth/jwt.go let pass.
use harbor_hook.Common.{
  String, Bool, true, false, not, ◌==◌, if◌then◌else◌, Option, none, some, Result, ok, err, ◌≡◌,
  refl, ◌≢◌, ap, ◌∙◌, eq_iff,
}
use harbor_hook.Auth.{
  Claim, word, other, Claims, Token, Parser, Validator, text_claim, equals, tenant_of, key_for,
  claims_checked, token_checked, validate_token,
}

-- The claims name the issuer and the audience of the validator, and this tenant, which is not "".
pub record Names {K : Type 0} (v : Validator K) (claims : Claims) (tenant : String) : Type 0 where
  pub issuer : claims "iss" ≡ some (word v.issuer)
  pub audience : claims "aud" ≡ some (word v.audience)
  pub tenant_id : claims "tenant_id" ≡ some (word tenant)
  pub given : tenant ≢ ""

equals_sound : (o : Option Claim) (s : String) → equals (text_claim o) s ≡ true → o ≡ some (word s)
equals_sound none s h = absurd (cc h)
equals_sound (some (word t)) s h = ap (λ x. some (word x)) ((eq_iff t s).0 h)
equals_sound (some other) s h = absurd (cc h)

tenant_sound :
    (o : Option Claim) (t : String)
    → tenant_of (text_claim o) ≡ ok t
    → (o ≡ some (word t)) × (t ≢ "")
tenant_sound none t h = absurd (cc h)
tenant_sound (some other) t h = absurd (cc h)
tenant_sound (some (word s)) t h = go (s == "") refl h
  where
    go :
        (b : Bool)
        → (s == "") ≡ b
        → (if b then err "missing or invalid tenant_id claim" else ok s) ≡ ok t
        → (some (word s) ≡ some (word t)) × (t ≢ "")
    go true e k = absurd (cc k)
    go false e k =
        let same : s ≡ t = cc k in
        (ap (λ x. some (word x)) same, λ empty. cc ((eq_iff s "").1 (same ∙ empty), e))

module _ {K : Type 0} (parse : Parser K) (v : Validator K) where
  claims_sound :
      (o : Option Claims) (t : String)
      → claims_checked v o ≡ ok t
      → (claims : Claims) × (o ≡ some claims) × Names v claims t
  claims_sound none t h = absurd (cc h)
  claims_sound (some c) t h =
      go (equals (text_claim (c "iss")) v.issuer) (equals (text_claim (c "aud")) v.audience) refl
        refl h
    where
      go :
          (a b : Bool)
          → equals (text_claim (c "iss")) v.issuer ≡ a
          → equals (text_claim (c "aud")) v.audience ≡ b
          → (if not a
              then err "invalid issuer"
              else if not b
              then err "invalid audience"
              else tenant_of (text_claim (c "tenant_id")))
            ≡ ok t
          → (claims : Claims) × (some c ≡ some claims) × Names v claims t
      go false b ea eb k = absurd (cc k)
      go true false ea eb k = absurd (cc k)
      go true true ea eb k =
          let (named, given) = tenant_sound (c "tenant_id") t k in
          (
            c,
            refl,
            record {
              issuer = equals_sound (c "iss") v.issuer ea;
              audience = equals_sound (c "aud") v.audience eb;
              tenant_id = named;
              given = given;
            },
          )

  -- jwt.Parse found the text valid under the validator's RSA key, and its claims name the tenant.
  pub record Vouches (s tenant : String) : Type 0 where
    pub token : Token
    pub claims : Claims
    pub parsed : parse (key_for v) s ≡ ok token
    pub is_valid : token.is_valid ≡ true
    pub has_claims : token.claims ≡ some claims
    pub names : Names v claims tenant

  -- A tenant that ValidateToken returns is not empty, and is the tenant_id of a token that jwt.Parse
  -- found valid under the validator's RSA key and whose claims name the validator's issuer and
  -- audience.
  pub validate_token_sound :
      (s tenant : String) → validate_token parse v s ≡ ok tenant → Vouches s tenant
  unfolding validate_token
  validate_token_sound s tenant h = go (parse (key_for v) s) refl h
    where
      checked :
          (t : Token) (b : Bool)
          → parse (key_for v) s ≡ ok t
          → t.is_valid ≡ b
          → (if b then claims_checked v t.claims else err "invalid token") ≡ ok tenant
          → Vouches s tenant
      checked t false p e k = absurd (cc k)
      checked t true p e k =
          let (c, has, names) = claims_sound t.claims tenant k in
          record {
            token = t;
            claims = c;
            parsed = p;
            is_valid = e;
            has_claims = has;
            names = names;
          }

      go :
          (r : Result Token)
          → parse (key_for v) s ≡ r
          → token_checked v r ≡ ok tenant
          → Vouches s tenant
      go (err e) p k = absurd (cc k)
      go (ok t) p k = checked t t.is_valid p refl k

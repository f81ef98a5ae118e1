-- ===== src/Auth/Keys.antt =====
-- NewJWTValidator and FetchJWKS of internal/auth/jwt.go. The decoders of PEM and of keys are parameters.
use Prim.Native.String.{◌++◌}
use harbor_hook.Common.{
  ℕ, String, List, [], ◌∷◌, eqb, Option, none, some, Result, ok, err, if◌then◌else◌, ◌≡◌, ◌≢◌, refl,
  Bool-cases, inl, inr, ap, ◌∙◌, sym, ◌⊎◌,
}
use harbor_hook.Encoding.Decimal.{decimal}
use harbor_hook.Auth.{Validator}

-- pem.Decode, x509.ParsePKCS1PublicKey, and x509.ParsePKIXPublicKey, whose key may be none of RSA
pub record KeyFormats (B K : Type 0) : Type 0 where
  pub decode_pem : String → Option B
  pub parse_pkcs1 : B → Result K
  pub parse_pkix : B → Result (Option K)

abbrev rsa_key : {K : Type 0} → Result (Option K) → Result K
rsa_key (err e) = err ("failed to parse public key: " ++ e)
rsa_key (ok none) = err "public key is not RSA"
rsa_key (ok (some key)) = ok key

abbrev or_pkix : {K : Type 0} → Result K → Result (Option K) → Result K
or_pkix (ok key) other = ok key
or_pkix (err e) other = rsa_key other

abbrev block_key : {B K : Type 0} → KeyFormats B K → Option B → Result K
block_key f none = err "failed to decode PEM block"
block_key f (some block) = or_pkix (f.parse_pkcs1 block) (f.parse_pkix block)

abbrev validator_of : {K : Type 0} → String → String → Result K → Result (Validator K)
validator_of issuer audience (err e) = err e
validator_of issuer audience (ok key) =
    ok (record { public_key = key; issuer = issuer; audience = audience })

-- NewJWTValidator
unfoldable pub new_jwt_validator :
    {B K : Type 0} → KeyFormats B K → String → String → String → Result (Validator K)
new_jwt_validator f pem issuer audience =
    validator_of issuer audience (block_key f (f.decode_pem pem))

-- http.Get with the decoder: the status code, and the keys of the set
pub record KeySetAnswer (J : Type 0) : Type 0 where
  pub status_code : ℕ
  pub keys : Result (List J)

abbrev first_key : {J K : Type 0} → Result (List J) → Result K
first_key (err e) = err ("failed to decode JWKS: " ++ e)
first_key (ok []) = err "no keys found in JWKS"
first_key (ok (key ∷ more)) = err "JWKS parsing not fully implemented - use direct public key"

abbrev key_of_answer : {J K : Type 0} → Result (KeySetAnswer J) → Result K
key_of_answer (err e) = err ("failed to fetch JWKS: " ++ e)
key_of_answer (ok a) =
    if eqb a.status_code 200
    then first_key a.keys
    else err ("JWKS endpoint returned status " ++ decimal a.status_code)

-- FetchJWKS
unfoldable pub fetch_jwks : {J K : Type 0} → Result (KeySetAnswer J) → Result K
fetch_jwks answer = key_of_answer answer

-- How the key of a validator was found: by PKCS #1, or else by PKIX.
abbrev pub KeyOf : {B K : Type 0} → KeyFormats B K → B → K → Type 0
KeyOf f block key =
    (f.parse_pkcs1 block ≡ ok key)
    ⊎ ((e : String) × (f.parse_pkcs1 block ≡ err e) × (f.parse_pkix block ≡ ok (some key)))

module _ {B K : Type 0} (f : KeyFormats B K) where
  rsa_key-ok : (o : Result (Option K)) (key : K) → rsa_key o ≡ ok key → o ≡ ok (some key)
  rsa_key-ok (err e) key h = absurd (cc h)
  rsa_key-ok (ok none) key h = absurd (cc h)
  rsa_key-ok (ok (some k)) key h = cc h

  or_pkix-KeyOf :
      (block : B) (o : Result K) (key : K)
      → f.parse_pkcs1 block ≡ o
      → or_pkix o (f.parse_pkix block) ≡ ok key
      → KeyOf f block key
  or_pkix-KeyOf block (ok k) key read h = inl (read ∙ h)
  or_pkix-KeyOf block (err e) key read h = inr (e, read, rsa_key-ok (f.parse_pkix block) key h)

  -- what a new validator is made of
  abbrev pub Made : String → String → String → Validator K → Type 0
  Made pem issuer audience v =
      ((block : B) × (f.decode_pem pem ≡ some block) × KeyOf f block v.public_key)
      × (v.issuer ≡ issuer)
      × (v.audience ≡ audience)

  block_key-KeyOf :
      (o : Option B) (key : K)
      → block_key f o ≡ ok key
      → (block : B) × (o ≡ some block) × KeyOf f block key
  block_key-KeyOf none key h = absurd (cc h)
  block_key-KeyOf (some block) key h =
      (block, refl, or_pkix-KeyOf block (f.parse_pkcs1 block) key refl h)

  validator_of-eq :
      (issuer audience : String) (o : Result K) (v : Validator K)
      → validator_of issuer audience o ≡ ok v
      → (o ≡ ok v.public_key) × (v.issuer ≡ issuer) × (v.audience ≡ audience)
  validator_of-eq issuer audience (err e) v h = absurd (cc h)
  validator_of-eq issuer audience (ok key) v h =
      let same : record { public_key = key; issuer = issuer; audience = audience } ≡ v = cc h in
      (
        ap (λ (x : Validator K). ok x.public_key) same,
        sym (ap (λ x. x.issuer) same),
        sym (ap (λ x. x.audience) same),
      )

  new_jwt_validator-Made :
      (pem issuer audience : String) (v : Validator K)
      → new_jwt_validator f pem issuer audience ≡ ok v
      → Made pem issuer audience v
  unfolding new_jwt_validator
  new_jwt_validator-Made pem issuer audience v h =
      let (key, by, to) = validator_of-eq issuer audience (block_key f (f.decode_pem pem)) v h in
      (block_key-KeyOf (f.decode_pem pem) v.public_key key, by, to)

no_first : {J K : Type 0} (o : Result (List J)) (key : K) → first_key o ≡ ok key → ⊥
no_first (err e) key h = absurd (cc h)
no_first (ok []) key h = absurd (cc h)
no_first (ok (k ∷ more)) key h = absurd (cc h)

-- FetchJWKS has no result but an error.
fetch_jwks-ne-ok :
    {J K : Type 0} (answer : Result (KeySetAnswer J)) (key : K) → fetch_jwks answer ≢ ok key
unfolding fetch_jwks
fetch_jwks-ne-ok (err e) key h = absurd (cc h)
fetch_jwks-ne-ok (ok a) key h = elim (Bool-cases (eqb a.status_code 200)) [
  | inl e ↦ no_first a.keys key (rw e at h)
  | inr e ↦ absurd (cc (rw e at h))
]

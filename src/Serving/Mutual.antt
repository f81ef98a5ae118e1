-- ===== src/Serving/Mutual.antt =====
-- What the TLS set-up of cmd/ingest/main.go demands of the clients of its servers, the gateway of the same
-- process among them.
use harbor_hook.Common.{
  [], Bool, true, false, String, ◌==◌, ◌||◌, Option, none, some, Result, ok, err, ◌≡◌, ◌≢◌, refl,
  Bool-cases, inl, inr, eq_iff, sym, subst, ap, ◌∙◌,
}
use harbor_hook.Config.{Environment}
use harbor_hook.Serving.{
  require_and_verify_client_cert, no_client_cert, TlsConfig, CertFiles, ServerTls, ClientTls,
  dial_tls, appended, authorities, both, with_ca, certified, setup_tls,
}

-- whether a server and a client shake hands
abbrev pub Handshake : Type 0 → Type 0 → Type 0
Handshake C P = TlsConfig C P → ClientTls C → Bool

-- RequireAndVerifyClientCert of crypto/tls: a client that sends no certificate is refused.
abbrev pub IsDemanding : {C P : Type 0} → Handshake C P → Type 0
IsDemanding {C} {P} shakes =
    (s : TlsConfig C P) (c : ClientTls C)
    → s.client_auth ≡ require_and_verify_client_cert
    → c.certificates ≡ []
    → shakes s c ≡ false

module _ {C P : Type 0} (files : CertFiles C P) where
  -- What TLS demands of its clients: gRPC a certificate, of the given authorities if there are any, and
  -- HTTP none; both have the certificate of the files.
  pub record IsMutual (env : Environment) (s : ServerTls C P) : Type 0 where
    pub loaded :
        files.load_key_pair (env "TLS_CERT_PATH") (env "TLS_KEY_PATH") ≡ ok s.grpc.certificate
    pub demands : s.grpc.client_auth ≡ require_and_verify_client_cert
    pub open_http : s.http.client_auth ≡ no_client_cert
    pub same_certificate : s.http.certificate ≡ s.grpc.certificate
    pub ca_given :
        env "CA_CERT_PATH" ≢ ""
        → (pem : String) × (pool : P) × (files.read_file (env "CA_CERT_PATH") ≡ ok pem)
          × (files.cert_pool pem ≡ some pool)
          × (s.grpc.client_cas ≡ some pool)

  -- what holds of the configuration behind the authorities
  abbrev Given : String → TlsConfig C P → TlsConfig C P → Type 0
  Given ca t u =
      (u.certificate ≡ t.certificate)
      × (u.client_auth ≡ t.client_auth)
      × (ca ≢ ""
          → (pem : String) × (pool : P) × (files.read_file ca ≡ ok pem)
            × (files.cert_pool pem ≡ some pool)
            × (u.client_cas ≡ some pool))

  appended-Given :
      (ca pem : String) (t u : TlsConfig C P) (o : Option P)
      → files.read_file ca ≡ ok pem
      → files.cert_pool pem ≡ o
      → appended files t o ≡ ok u
      → Given ca t u
  appended-Given ca pem t u none read made e = absurd (cc e)
  appended-Given ca pem t u (some pool) read made e =
      let same : record t { client_cas = some pool } ≡ u = cc e in
      subst (Given ca t) same (refl, refl, λ _. (pem, pool, read, made, refl))

  authorities-Given :
      (ca : String) (t u : TlsConfig C P) (o : Result String)
      → files.read_file ca ≡ o
      → authorities files t o ≡ ok u
      → Given ca t u
  authorities-Given ca t u (err x) read e = absurd (cc e)
  authorities-Given ca t u (ok pem) read e =
      appended-Given ca pem t u (files.cert_pool pem) read refl e

  with_ca-Given : (ca : String) (t u : TlsConfig C P) → with_ca files ca t ≡ ok u → Given ca t u
  with_ca-Given ca t u e = elim (Bool-cases (ca == "")) [
    | inl h ↦
        let same : t ≡ u = cc (rw h at e) in
        subst (Given ca t) same (refl, refl, λ given. absurd (given ((eq_iff ca "").0 h)))
    | inr h ↦ authorities-Given ca t u (files.read_file ca) refl (rw h at e)
  ]

  both-Given :
      (ca : String) (t : TlsConfig C P) (o : Result (TlsConfig C P)) (s : ServerTls C P)
      → with_ca files ca t ≡ o
      → both files o ≡ ok (some s)
      → Given ca t s.grpc
        × (s.http.client_auth ≡ no_client_cert)
        × (s.http.certificate ≡ s.grpc.certificate)
  both-Given ca t (err x) s made e = absurd (cc e)
  both-Given ca t (ok u) s made e =
      let same : u ≡ s.grpc = cc e in
      let http : record u { client_auth = no_client_cert } ≡ s.http = cc e in
      (
        subst (Given ca t) same (with_ca-Given ca t u made),
        sym (ap (λ x. x.client_auth) http),
        sym (ap (λ x. x.certificate) http) ∙ ap (λ x. x.certificate) same,
      )

  certified-IsMutual :
      (env : Environment) (o : Result C) (s : ServerTls C P)
      → files.load_key_pair (env "TLS_CERT_PATH") (env "TLS_KEY_PATH") ≡ o
      → certified files (env "CA_CERT_PATH") o ≡ ok (some s)
      → IsMutual env s
  certified-IsMutual env (err x) s load e = absurd (cc e)
  certified-IsMutual env (ok cert) s load e =
      let t : TlsConfig C P = record {
        certificate = cert;
        client_auth = require_and_verify_client_cert;
        client_cas = none;
      } in
      let (given, unasked, same) =
        both-Given (env "CA_CERT_PATH") t (with_ca files (env "CA_CERT_PATH") t) s refl e in
      record {
        loaded = load ∙ ap ok (sym given.0);
        demands = given.1;
        open_http = unasked;
        same_certificate = same;
        ca_given = given.2;
      }

  server_tls-IsMutual :
      (env : Environment) (s : ServerTls C P)
      → setup_tls files env ≡ ok (some s)
      → (env "ENABLE_TLS" ≡ "true") × IsMutual env s
  unfolding setup_tls
  server_tls-IsMutual env s e = elim (Bool-cases (env "ENABLE_TLS" == "true")) [
    | inr h ↦ absurd (cc (rw h at e))
    | inl h ↦ elim (Bool-cases (env "TLS_CERT_PATH" == "" || env "TLS_KEY_PATH" == "")) [
      | inl k ↦ absurd (cc (rw (h, k) at e))
      | inr k ↦ (
        (eq_iff (env "ENABLE_TLS") "true").0 h,
        certified-IsMutual env (files.load_key_pair (env "TLS_CERT_PATH") (env "TLS_KEY_PATH")) s
            refl (rw (h, k) at e),
      )
    ]
  ]

  -- Where the set-up of the ingest server yields TLS, ENABLE_TLS is true, the certificate of both
  -- servers is the one that the paths load, gRPC demands a client certificate that verifies and HTTP
  -- demands none, and a CA path that is given was read and its pool is the one that gRPC verifies
  -- by. The gateway of the same process then calls the gRPC server with TLS and without a
  -- certificate, and any handshake that refuses clients without a certificate where one is demanded
  -- refuses it.
  pub setup_tls-IsMutual :
      (shakes : Handshake C P) (env : Environment) (s : ServerTls C P)
      → IsDemanding shakes
      → setup_tls files env ≡ ok (some s)
      → (env "ENABLE_TLS" ≡ "true")
        × IsMutual env s
        × ((c : ClientTls C) × (dial_tls (some s) ≡ some c) × (shakes s.grpc c ≡ false))
  unfolding dial_tls
  setup_tls-IsMutual shakes env s demanding e =
      let (on, held) = server_tls-IsMutual env s e in
      let client : ClientTls C = record { certificates = []; skips = true } in
      (on, held, (client, refl, demanding s.grpc client held.demands refl))

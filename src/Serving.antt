-- ===== src/Serving.antt =====
-- The TLS set-up of cmd/ingest/main.go, which runs before the servers start. An error is the message with
-- which the process ends.
pub mod Mutual
pub mod Mux
use harbor_hook.Common.{
  List, [], Bool, true, false, String, ◌==◌, ◌||◌, Option, none, some, Result, ok, err, ◌≡◌, ◌≢◌,
  refl, if◌then◌else◌, Bool-cases, inl, inr, eq_iff, sym, subst, ap, ◌∙◌,
}
use harbor_hook.Config.{Environment}

pub data ClientAuth : Type 0 where
  require_and_verify_client_cert no_client_cert : ClientAuth

-- tls.Config; the authorities are the pool ClientCAs, if it is set
pub record TlsConfig (C P : Type 0) : Type 0 where
  pub certificate : C
  pub client_auth : ClientAuth
  pub client_cas : Option P

-- tls.LoadX509KeyPair and os.ReadFile with AppendCertsFromPEM (none if there is no certificate)
pub record CertFiles (C P : Type 0) : Type 0 where
  pub load_key_pair : String → String → Result C
  pub read_file : String → Result String
  pub cert_pool : String → Option P

-- the credentials of gRPC, and httpTLSConfig
pub record ServerTls (C P : Type 0) : Type 0 where
  pub grpc : TlsConfig C P
  pub http : TlsConfig C P

-- the TLS of a client; `skips` is InsecureSkipVerify
pub record ClientTls (C : Type 0) : Type 0 where
  pub certificates : List C
  pub skips : Bool

-- dialOpts of the gateway, which calls the gRPC server of the same process; none is no TLS
unfoldable pub dial_tls : {C P : Type 0} → Option (ServerTls C P) → Option (ClientTls C)
dial_tls none = none
dial_tls (some s) = some (record { certificates = []; skips = true })

module _ {C P : Type 0} (files : CertFiles C P) where
  abbrev pub appended : TlsConfig C P → Option P → Result (TlsConfig C P)
  appended t none = err "Failed to append CA certificate"
  appended t (some pool) = ok (record t { client_cas = some pool })

  abbrev pub authorities : TlsConfig C P → Result String → Result (TlsConfig C P)
  authorities t (err e) = err "Failed to read CA certificate"
  authorities t (ok pem) = appended t (files.cert_pool pem)

  abbrev pub both : Result (TlsConfig C P) → Result (Option (ServerTls C P))
  both (err e) = err e
  both (ok t) = ok (some (record { grpc = t; http = record t { client_auth = no_client_cert } }))

  abbrev pub with_ca : String → TlsConfig C P → Result (TlsConfig C P)
  with_ca ca t = if ca == "" then ok t else authorities t (files.read_file ca)

  abbrev pub certified : String → Result C → Result (Option (ServerTls C P))
  certified ca (err e) = err "Failed to load server certificate"
  certified ca (ok cert) = both (
      with_ca ca (record {
        certificate = cert;
        client_auth = require_and_verify_client_cert;
        client_cas = none;
      }))

  -- the part of main from ENABLE_TLS to httpTLSConfig; none is no TLS
  unfoldable pub setup_tls : Environment → Result (Option (ServerTls C P))
  setup_tls env =
      if env "ENABLE_TLS" == "true"
      then (if env "TLS_CERT_PATH" == "" || env "TLS_KEY_PATH" == ""
          then err "TLS enabled but cert/key paths not provided"
          else certified (env "CA_CERT_PATH")
              (files.load_key_pair (env "TLS_CERT_PATH") (env "TLS_KEY_PATH")))
      else ok none

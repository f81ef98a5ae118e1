-- ===== src/Examples/Starting.antt =====
-- The theorems on what the servers set up and report: TLS of cmd/ingest/main.go, internal/db/db.go and
-- internal/health/health.go.
use harbor_hook.Common.{
  Bool, List, String, [], err, false, if◌then◌else◌, ok, refl, some, true, ◌==◌, ◌∷◌, ◌≡◌,
}
use harbor_hook.Config.{Environment}
use harbor_hook.Database.{Driver, Outcome, connect, connect-Outcome}
use harbor_hook.Encoding.Words.{to_lower}
use harbor_hook.Examples.{acme_world, context}
use harbor_hook.Examples.Commanding.{kit, links, options, runtime}
use harbor_hook.Harborctl.Commands.{health_command}
use harbor_hook.Harborctl.Gateway.Modes.{over_grpc, over_http}
use harbor_hook.Harborctl.Output.{lines}
use harbor_hook.Health.{HealthStatus, Sent, http_handler, http_handler-Sent, new_writer}
use harbor_hook.Http.{get_header}
use harbor_hook.Serving.{
  CertFiles, ClientAuth, ClientTls, ServerTls, dial_tls, no_client_cert,
  require_and_verify_client_cert, setup_tls,
}
use harbor_hook.Serving.Mutual.{Handshake, IsMutual, setup_tls-IsMutual}
use harbor_hook.Serving.Mux.{HttpServer, health_command_modes, served}

-- paths and file contents are what they name
abbrev files : CertFiles String String
files = record {
  load_key_pair = λ cert key. ok cert;
  read_file = λ path. ok path;
  cert_pool = λ pem. some pem;
}

abbrev environment : Environment
environment name = if name == "ENABLE_TLS" then "true" else name

abbrev server_tls : ServerTls String String
server_tls = record {
  grpc = record {
    certificate = "TLS_CERT_PATH";
    client_auth = require_and_verify_client_cert;
    client_cas = some "CA_CERT_PATH";
  };
  http = record {
    certificate = "TLS_CERT_PATH";
    client_auth = no_client_cert;
    client_cas = some "CA_CERT_PATH";
  };
}

-- a client that must send a certificate is let in if it sends any
abbrev let_in : ClientAuth → List String → Bool
let_in require_and_verify_client_cert [] = false
let_in _ _ = true

abbrev shakes : Handshake String String
shakes s c = let_in s.client_auth c.certificates

setup_tls-IsMutual_example :
    (environment "ENABLE_TLS" ≡ "true")
    × IsMutual files environment server_tls
    × ((c : ClientTls String) × (dial_tls (some server_tls) ≡ some c)
        × (shakes server_tls.grpc c ≡ false))
unfolding setup_tls
setup_tls-IsMutual_example =
    setup_tls-IsMutual files shakes environment server_tls
      (λ s c auth unsent. rw (auth, unsent) refl) refl

-- the server does not answer
abbrev silent : Driver String
silent = record {
  parse_config = λ dsn. ok dsn;
  new_error = λ config n. ok tt;
  ping = λ pool. err "timeout";
}

connect-Outcome_example : Outcome silent "postgres://db" [] (connect silent "postgres://db" [])
connect-Outcome_example = connect-Outcome silent "postgres://db" []

-- a JSON text
abbrev plain_text : HealthStatus → String
plain_text st = "text/plain; charset=utf-8"

http_handler-Sent_example :
    Sent
      (http_handler plain_text (some (err "timeout")) new_writer)
      503
      false
      "text/plain; charset=utf-8"
unfolding get_header to_lower
http_handler-Sent_example = http_handler-Sent plain_text (some (err "timeout")) new_writer refl

-- the path of the one URL that is asked for
abbrev http_server : HttpServer
http_server = record {
  path_of_url = λ url. if url == "https://localhost:8443/healthz" then "/healthz" else "/";
  detect_content_type = plain_text;
  metrics_page = λ w. record { status_code = 200; status = "200 OK"; document = err "no JSON" };
}

health_command_modes_example :
    (health_command
        (served http_server runtime context (some (err "timeout")) links)
        kit
        (over_http options)
        acme_world
      ≡ (ok (lines ("✗ Service is unhealthy (HTTP 503)" ∷ [])), acme_world))
    × (health_command
          (served http_server runtime context (some (err "timeout")) links)
          kit
          (over_grpc options)
          acme_world
        ≡ (ok (lines ("✓ Service is healthy" ∷ [])), acme_world))
health_command_modes_example =
    health_command_modes http_server runtime context (some (err "timeout")) kit links links options
      options acme_world refl refl refl

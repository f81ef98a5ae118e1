-- ===== src/Serving/Mux.antt =====
-- The HTTP server of cmd/ingest/main.go: its mux, with the health check and the gateway behind it, for clean
-- paths; and what harborctl health finds there.
use Prim.Native.String.{◌++◌}
use harbor_hook.Common.{
  Bool, Option, Result, String, [], err, false, if◌then◌else◌, none, ok, refl, some, true, ℕ, ◌==◌,
  ◌∷◌, ◌≡◌,
}
use harbor_hook.Common.Exec.{Exec, branch, pure, ◌>>=◌, ◌>>◌}
use harbor_hook.Encoding.Decimal.{decimal}
use harbor_hook.Harborctl.{
  HttpRequest, HttpResponse, Kit, Remote, given, build_request, explained, make_http_request,
}
use harbor_hook.Harborctl.Commands.{health_command}
use harbor_hook.Harborctl.Gateway.{Links, Runtime, gateway, service}
use harbor_hook.Harborctl.Gateway.Modes.{over_grpc, over_http}
use harbor_hook.Harborctl.Json.{Fields, bool, end, field, optional}
use harbor_hook.Harborctl.Output.{Output, lines}
use harbor_hook.Harborctl.Settings.{Options}
use harbor_hook.Health.{HealthStatus, ResponseWriter, http_handler, is_healthy, new_writer}
use harbor_hook.Http.{Headers}
use harbor_hook.Ingest.{Context}
use harbor_hook.World.{World}

-- the path of a URL, the page of the metrics, and http.DetectContentType of an encoded document
pub record HttpServer : Type 0 where
  pub path_of_url : String → String
  pub metrics_page : World → HttpResponse
  pub detect_content_type : HealthStatus → String

-- the fields of a HealthStatus that are not omitted
abbrev pub health_document : HealthStatus → Fields
health_document st =
    field "ok" (bool st.ok) (
      optional "message" st.message (if st.database then field "database" (bool true) end else end))

abbrev code_of : Option (ℕ × Headers) → ℕ
code_of none = 200
code_of (some (code, h)) = code

abbrev document_of : Option HealthStatus → Fields
document_of none = end
document_of (some st) = health_document st

abbrev pub written : ResponseWriter → HttpResponse
written w = record {
  status_code = code_of w.sent;
  status = decimal (code_of w.sent);
  document = ok (document_of w.body);
}

module _ (server : HttpServer) (rt : Runtime) (c : Context)
    (ping : Option (Result (Unit {0}))) where
  -- the handler of a request; `ping` is what a ping of the pool gives
  unfoldable pub http_mux : HttpRequest → Exec World HttpResponse
  unfolding http_handler gateway
  http_mux req w =
      if server.path_of_url req.url == "/healthz"
      then (ok (written (http_handler server.detect_content_type ping new_writer)), w)
      else if server.path_of_url req.url == "/metrics"
      then (ok (server.metrics_page w), w)
      else gateway rt c req w

  -- the webhook service behind the links of a run, over gRPC, and over HTTP behind the mux
  abbrev pub served : Links → Remote World
  served l = record (service rt c l) { send = λ req. given (l.https req.url) >> http_mux req }

-- what harborctl health prints over HTTP
abbrev pub health_line : Bool → String
health_line true = "✓ Service is healthy (HTTP)"
health_line false = "✗ Service is unhealthy (HTTP 503)"

-- what harborctl health prints over gRPC, by the dial and the call of Ping
abbrev pub link_line : Result (Unit {0}) → Result (Unit {0}) → Result Output
link_line (err e) call = err ("failed to connect: " ++ ("failed to connect: " ++ e))
link_line (ok u) (ok v) = ok (lines ("✓ Service is healthy" ∷ []))
link_line (ok u) (err e) = ok (lines (("✗ Service is unhealthy: " ++ e) ∷ []))

health_over_grpc :
    (server : HttpServer) (rt : Runtime) (c : Context) (ping : Option (Result (Unit {0}))) (k : Kit)
    (l : Links) (g : Options) (w : World) (dial call : Result (Unit {0}))
    → l.dial ≡ dial
    → l.plaintext "Ping" ≡ call
    → health_command (served server rt c ping l) k (over_grpc g) w ≡ (link_line dial call, w)
unfolding health_command branch explained pure ◌>>=◌
health_over_grpc server rt c ping k l g w (err e) call dialled called = rw dialled refl
health_over_grpc server rt c ping k l g w (ok u) (ok v) dialled called = rw (dialled, called) refl
health_over_grpc server rt c ping k l g w (ok u) (err e) dialled called = rw (dialled, called) refl

-- Where the request for /healthz can be made, reaches the server over TLS, and its path is /healthz:
-- harborctl health with --http prints that the service is healthy if and only if there is no pool or
-- its ping succeeds, and otherwise that it is unhealthy with status 503. Without --http, what it
-- prints depends on the network alone, and not on the ping of the pool: it fails where the dial
-- fails, prints that the service is healthy where the plaintext call of Ping reaches the service,
-- and otherwise that it is unhealthy with the error of that call. Neither changes anything.
pub health_command_modes :
    (server : HttpServer) (rt : Runtime) (c : Context) (ping : Option (Result (Unit {0}))) (k : Kit)
    (l l' : Links) (g g' : Options) (w : World)
    → k.new_request_error ("https://" ++ g.server_addr ++ "/healthz") ≡ none
    → l.https ("https://" ++ g.server_addr ++ "/healthz") ≡ ok tt
    → server.path_of_url ("https://" ++ g.server_addr ++ "/healthz") ≡ "/healthz"
    → (health_command (served server rt c ping l) k (over_http g) w
        ≡ (ok (lines (health_line (is_healthy ping) ∷ [])), w))
      × (health_command (served server rt c ping l') k (over_grpc g') w
          ≡ (link_line l'.dial (l'.plaintext "Ping"), w))
unfolding health_command http_mux http_handler make_http_request build_request branch explained pure
    ◌>>=◌ decimal
health_command_modes server rt c none k l l' g g' w made reached path = (
  rw (made, reached, path) refl,
  health_over_grpc server rt c none k l' g' w l'.dial (l'.plaintext "Ping") refl refl,
)
health_command_modes server rt c (some (ok u)) k l l' g g' w made reached path = (
  rw (made, reached, path) refl,
  health_over_grpc server rt c (some (ok u)) k l' g' w l'.dial (l'.plaintext "Ping") refl refl,
)
health_command_modes server rt c (some (err e)) k l l' g g' w made reached path = (
  rw (made, reached, path) refl,
  health_over_grpc server rt c (some (err e)) k l' g' w l'.dial (l'.plaintext "Ping") refl refl,
)

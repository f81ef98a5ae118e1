-- ===== src/Harborctl/Commands.antt =====
-- The commands ping, health, endpoint create, subscription create, event publish, and delivery status,
-- replay and dlq of cmd/harborctl/cmd, each over gRPC or, with --http, over the gateway.
use Prim.Native.String.{◌++◌}
use harbor_hook.Common.{
  ℕ, String, List, [], ◌∷◌, ◌==◌, eqb, Option, none, some, Result, ok, err, wrap, if◌then◌else◌,
}
use harbor_hook.Common.Exec.{Exec, pure, raise, branch, ◌>>=◌, ◌>>◌}
use harbor_hook.Encoding.Decimal.{decimal}
use harbor_hook.Ingest.Attempts.{DeliveryAttempt}
use harbor_hook.Harborctl.{
  Remote, Kit, given, caught, explained, make_http_request, get_client, parse_json, parse_timestamp,
  parse_int32,
}
use harbor_hook.Harborctl.Json.{Fields, end, field, str, document, optional}
use harbor_hook.Harborctl.Settings.{Options}
use harbor_hook.Harborctl.Output.{
  pong, endpoint, subscription, published, attempts, replayed, Output, shows_map, lines,
}
use harbor_hook.Harborctl.Lines.{
  reported, endpoint_lines, subscription_lines, published_lines, replayed_lines, attempt_lines,
  entry_lines, listing,
}

-- the query of an optional parameter
abbrev pub parameter : String → String → List (String × String) → List (String × String)
parameter key s rest = if s == "" then rest else (key, s) ∷ rest

abbrev pub with_query : Kit → String → List (String × String) → String
with_query k path [] = path
with_query k path (p ∷ ps) = path ++ "?" ++ k.encode_values (p ∷ ps)

-- the arguments of the command status
pub record StatusFlags : Type 0 where
  pub event_id : String
  pub endpoint_id : String
  pub from : String
  pub to : String
  pub limit : String

module _ {S : Type 0} (r : Remote S) (k : Kit) (g : Options) where
  abbrev decoded : Result Fields → Exec S Output
  decoded (ok fs) = pure (shows_map fs)
  decoded (err e) = raise ("failed to decode response: " ++ e)

  -- the way of every command with --http that prints the answer
  unfoldable pub http_command : String → String → Option Fields → Exec S Output
  unfolding make_http_request explained
  http_command method path body = do
    resp ← explained "HTTP request failed: " (make_http_request r k g method path body)
    branch (eqb resp.status_code 200) (decoded resp.document)
        (raise ("HTTP error: " ++ resp.status))

  -- pingCmd
  unfoldable pub ping_command : Exec S Output
  unfolding make_http_request explained
  ping_command =
      branch g.use_http
        (do
          resp ← explained "HTTP request failed: " (make_http_request r k g "GET" "/v1/ping" none)
          branch (eqb resp.status_code 200) (pure (lines ("Pong! Service is running (HTTP)" ∷ [])))
              (raise ("HTTP error: " ++ resp.status)))
        do
          get_client r
          message ← explained "ping failed: " r.call_ping
          pure (reported g (pong message) (("Pong! Service is running: " ++ message) ∷ []))

  abbrev health_of : Result String → List String
  health_of (ok message) = "✓ Service is healthy" ∷ []
  health_of (err e) = ("✗ Service is unhealthy: " ++ e) ∷ []

  abbrev health_status : ℕ → List String
  health_status code =
      if eqb code 200
      then "✓ Service is healthy (HTTP)" ∷ []
      else ("✗ Service is unhealthy (HTTP " ++ decimal code ++ ")") ∷ []

  -- healthCmd
  unfoldable pub health_command : Exec S Output
  unfolding make_http_request explained
  health_command =
      branch g.use_http
        (do
          resp ←
              explained "HTTP health check failed: " (make_http_request r k g "GET" "/healthz" none)
          pure (lines (health_status resp.status_code)))
        do get_client r; result ← caught r.call_ping; pure (lines (health_of result))

  -- createEndpointCmd
  unfoldable pub create_endpoint_command : String → String → String → Exec S Output
  unfolding http_command explained endpoint_lines
  create_endpoint_command tenant_id url secret =
      branch g.use_http
        (http_command "POST" ("/v1/tenants/" ++ tenant_id ++ "/endpoints")
          (some (field "url" (str url) (optional "secret" secret end))))
        do
          get_client r
          resp ← explained "failed to create endpoint: " (
              r.call_create_endpoint (record { tenant_id = tenant_id; url = url; secret = secret }))
          pure (reported g (endpoint resp) (endpoint_lines k resp))

  -- createSubscriptionCmd
  unfoldable pub create_subscription_command : String → String → String → Exec S Output
  unfolding http_command explained subscription_lines
  create_subscription_command tenant_id endpoint_id event_type =
      branch g.use_http
        (http_command "POST" ("/v1/tenants/" ++ tenant_id ++ "/subscriptions")
          (some (field "endpointId" (str endpoint_id) (field "eventType" (str event_type) end))))
        do
          get_client r
          resp ← explained "failed to create subscription: " (
              r.call_create_subscription (record {
                tenant_id = tenant_id;
                event_type = event_type;
                endpoint_id = endpoint_id;
              }))
          pure (reported g (subscription resp) (subscription_lines k resp))

  -- publishCmd
  unfoldable pub publish_command : String → String → String → String → Exec S Output
  unfolding http_command explained parse_json published_lines
  publish_command tenant_id event_type payload_json idempotency_key = do
    payload ← given (wrap "invalid payload JSON: " (parse_json k payload_json))
    branch g.use_http
        (http_command "POST" ("/v1/tenants/" ++ tenant_id ++ "/events:publish") (
          some (
            field "eventType" (str event_type) (
              field "payload" (document payload) (optional "idempotencyKey" idempotency_key end)))))
        do
          get_client r
          resp ← explained "failed to publish event: " (
              r.call_publish_event (record {
                tenant_id = tenant_id;
                event_type = event_type;
                payload = some payload;
                idempotency_key = idempotency_key;
              }))
          pure (reported g (published resp) (published_lines resp))

  -- statusCmd
  unfoldable pub status_command : StatusFlags → Exec S Output
  unfolding http_command explained parse_timestamp parse_int32 attempt_lines
  status_command f = do
    from ← given (wrap "invalid 'from' timestamp: " (parse_timestamp k f.from))
    to ← given (wrap "invalid 'to' timestamp: " (parse_timestamp k f.to))
    limit ← given (wrap "invalid limit: " (parse_int32 f.limit))
    branch g.use_http
        (http_command "GET"
          (with_query k ("/v1/events/" ++ f.event_id ++ "/deliveries") (
            parameter "endpointId" f.endpoint_id
              (parameter "from" f.from (parameter "to" f.to (parameter "limit" f.limit [])))))
          none)
        do
          get_client r
          found ← explained "failed to get delivery status: " (
              r.call_get_delivery_status (record {
                event_id = f.event_id;
                endpoint_id = f.endpoint_id;
                from = from;
                to = to;
                limit = limit;
              }))
          pure (
              reported g (attempts found) (
                listing (attempt_lines k) ("Delivery attempts for event " ++ f.event_id ++ ":")
                  "  No delivery attempts found" found))

  -- replayCmd
  unfoldable pub replay_command : String → String → Exec S Output
  unfolding http_command explained replayed_lines
  replay_command delivery_id reason =
      branch g.use_http
        (http_command "POST" ("/v1/deliveries/" ++ delivery_id ++ ":replay")
          (some (optional "reason" reason end)))
        do
          get_client r
          attempt ←
              explained "failed to replay delivery: "
                (r.call_replay_delivery (record { delivery_id = delivery_id; reason = reason }))
          pure (reported g (replayed attempt) (replayed_lines attempt))

  -- dlqHTTPRequest
  unfoldable pub dlq_http_request : String → String → Exec S Output
  unfolding http_command
  dlq_http_request endpoint_id limit =
      http_command "GET"
        (with_query k "/v1/dlq" (parameter "endpointId" endpoint_id (parameter "limit" limit [])))
        none

  -- an error sends the command to HTTP
  abbrev or_http : String → String → Result (List DeliveryAttempt) → Exec S Output
  or_http endpoint_id limit (err e) = dlq_http_request endpoint_id limit
  or_http endpoint_id limit (ok dead) = pure (
      reported g (attempts dead)
        (listing (entry_lines k) "Dead Letter Queue entries:" "  No entries found" dead))

  -- dlqCmd
  unfoldable pub dlq_command : String → String → Exec S Output
  unfolding dlq_http_request parse_int32 explained entry_lines
  dlq_command endpoint_id limit = do
    n ← given (wrap "invalid limit: " (parse_int32 limit))
    branch g.use_http (dlq_http_request endpoint_id limit) do
      dead ←
          caught (get_client r >> r.call_list_dlq (record { endpoint_id = endpoint_id; limit = n }))
      or_http endpoint_id limit dead

-- ===== src/Ingest/Endpoints.antt =====
-- Ping, generateSecret, CreateEndpoint and CreateSubscription of internal/ingest/service.go.
use Prim.Native.String.{◌++◌ as text_append}
use harbor_hook.Common.{
  ℕ, String, List, Option, none, some, ◌||◌, ◌==◌, Result, ok, err, if◌then◌else◌,
}
use harbor_hook.Common.Exec.{Exec, pure, raise, branch, ◌>>=◌}
use harbor_hook.Encoding.Base64.{raw_url_encode}
use harbor_hook.Store.Inserts.{insert_endpoint, insert_subscription}
use harbor_hook.Store.Queries.{endpoint_exists}
use harbor_hook.World.{World, run, query}
use harbor_hook.Ingest.{
  Context, CreateEndpointRequest, EndpointReply, CreateSubscriptionRequest, SubscriptionReply,
}

-- Server.Ping
abbrev pub ping : String
ping = "pong"

abbrev encoded : Result (List ℕ) → Result String
encoded (ok bytes) = ok (raw_url_encode bytes)
encoded (err e) = err e

unfoldable pub generate_secret : Context → ℕ → Result String
unfolding raw_url_encode
generate_secret c n = encoded (c.rand_read n)

-- the caller's secret, or a generated one of 32 bytes
abbrev pub secret_for : Context → String → Result String
secret_for c secret = if secret == "" then generate_secret c 32 else ok secret

abbrev pub store_endpoint :
    Context → CreateEndpointRequest → Result String → Exec World EndpointReply
store_endpoint c req (err e) = raise e
store_endpoint c req (ok secret) = do
  (id, created_at) ← run (insert_endpoint c.now req.tenant_id req.url secret)
  pure (record { id = id; tenant_id = req.tenant_id; url = req.url; created_at = created_at })

abbrev pub with_valid_url :
    Context → CreateEndpointRequest → Option String → Exec World EndpointReply
with_valid_url c req (some e) = raise (text_append "invalid url: " e)
with_valid_url c req none = store_endpoint c req (secret_for c req.secret)

unfoldable pub create_endpoint : Context → CreateEndpointRequest → Exec World EndpointReply
unfolding generate_secret
create_endpoint c req =
    branch (req.tenant_id == "" || req.url == "") (raise "tenant_id and url are required")
      (with_valid_url c req (c.parse_request_uri req.url))

abbrev not_found : CreateSubscriptionRequest → String
not_found req =
    text_append "endpoint "
      (text_append req.endpoint_id (text_append " not found for tenant " req.tenant_id))

unfoldable pub create_subscription :
    Context → CreateSubscriptionRequest → Exec World SubscriptionReply
create_subscription c req =
    branch (req.tenant_id == "" || (req.event_type == "" || req.endpoint_id == ""))
      (raise "tenant_id, event_type, and endpoint_id are required")
      do
        exists ← query (λ db. ok (endpoint_exists req.endpoint_id req.tenant_id db))
        branch exists
            (do
              (id, created_at) ←
                  run (insert_subscription c.now req.tenant_id req.event_type req.endpoint_id)
              pure (record {
                id = id;
                tenant_id = req.tenant_id;
                event_type = req.event_type;
                endpoint_id = req.endpoint_id;
                created_at = created_at;
              }))
            (raise (not_found req))

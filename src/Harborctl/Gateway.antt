-- ===== src/Harborctl/Gateway.antt =====
-- protogen/go/api/webhook/v1/service.pb.gw.go: the gateway through which HTTP requests reach the webhook
-- service, and the service as harborctl sees it. The mux, the decoders and the encoders of the
-- gateway's runtime are parameters.
pub mod Modes
use Prim.Native.String.{◌++◌}
use harbor_hook.Common.{
  ℕ, String, List, [], ◌∷◌, Bool, Option, none, some, Result, ok, err, ◌==◌, if◌then◌else◌,
}
use harbor_hook.Common.Exec.{Exec, pure, raise, ◌>>=◌, ◌>>◌}
use harbor_hook.Common.Int.{pos}
use harbor_hook.World.{World}
use harbor_hook.Ingest.{Context}
use harbor_hook.Ingest.Endpoints.{ping, create_endpoint, create_subscription}
use harbor_hook.Ingest.Publish.{publish_event}
use harbor_hook.Ingest.Replay.{replay_delivery}
use harbor_hook.Ingest.Attempts.Listing.{GetDeliveryStatusRequest, get_delivery_status}
use harbor_hook.Ingest.Attempts.DeadLetters.{ListDlqRequest, list_dlq}
use harbor_hook.Harborctl.{HttpRequest, HttpResponse, Remote, given}
use harbor_hook.Harborctl.Json.{Fields, end}
use harbor_hook.Harborctl.Output.{
  Message, pong, endpoint, subscription, published, attempts, replayed,
}

-- the handlers that the mux has, in the order of their registration
pub data Route : Type 0 where
  pings creates_endpoint creates_subscription publishes : Route
  gets_status replays lists_dlq : Route

-- a component of a pattern: a literal, or the one variable
pub data Component : Type 0 where
  lit : String → Component
  var : Component

pub record Pattern : Type 0 where
  pub method : String
  pub components : List Component
  pub verb : String

-- the patterns pattern_WebhookService_…_0
unfoldable pub pattern_of : Route → Pattern
pattern_of pings = record { method = "GET"; components = lit "v1" ∷ lit "ping" ∷ []; verb = "" }
pattern_of creates_endpoint = record {
  method = "POST";
  components = lit "v1" ∷ lit "tenants" ∷ var ∷ lit "endpoints" ∷ [];
  verb = "";
}
pattern_of creates_subscription = record {
  method = "POST";
  components = lit "v1" ∷ lit "tenants" ∷ var ∷ lit "subscriptions" ∷ [];
  verb = "";
}
pattern_of publishes = record {
  method = "POST";
  components = lit "v1" ∷ lit "tenants" ∷ var ∷ lit "events" ∷ [];
  verb = "publish";
}
pattern_of gets_status = record {
  method = "GET";
  components = lit "v1" ∷ lit "events" ∷ var ∷ lit "deliveries" ∷ [];
  verb = "";
}
pattern_of replays = record {
  method = "POST";
  components = lit "v1" ∷ lit "deliveries" ∷ var ∷ [];
  verb = "replay";
}
pattern_of lists_dlq = record { method = "GET"; components = lit "v1" ∷ lit "dlq" ∷ []; verb = "" }

abbrev component_text : String → Component → String
component_text value (lit s) = s
component_text value var = value

abbrev pub expand : String → List Component → String → String
expand value [] verb = if verb == "" then "" else ":" ++ verb
expand value (c ∷ cs) verb = "/" ++ component_text value c ++ expand value cs verb

-- the path that a pattern matches with a value of its variable
abbrev pub path_of : Pattern → String → String
path_of p value = expand value p.components p.verb

-- The runtime of the gateway: the route of a method and a URL, with the value of its variable; the string
-- of a field of a message by its JSON name, "" where there is none, and the JSON text of a field; the error
-- of decoding a body; PopulateQueryParameters for the two messages that have a query; the document of a
-- reply, and the status of an error.
pub record Runtime : Type 0 where
  pub route : String → String → Option (Route × String)
  pub read : Fields → String → String
  pub read_struct : Fields → String → Option String
  pub decode_error : Fields → Option String
  pub populate_status : String → Result GetDeliveryStatusRequest
  pub populate_dlq : String → Result ListDlqRequest
  pub document_of : Message → Fields
  pub error_status : String → ℕ

-- What the network gives a run of harborctl at the address of its server: the dial of getClient, the
-- error of a call by its method over the plaintext connection, if it does not reach the service, and that of
-- a request to a URL over TLS, if it does not reach the gateway. TLS, the proxy in front of them and what the
-- proxy refuses for the lack of a token are among them.
pub record Links : Type 0 where
  pub dial : Result (Unit {0})
  pub plaintext : String → Result (Unit {0})
  pub https : String → Result (Unit {0})

abbrev body_of : Option Fields → Fields
body_of none = end
body_of (some fs) = fs

abbrev answered : {A : Type 0} → Runtime → (A → Message) → Result A → HttpResponse
answered rt message (ok a) = record {
  status_code = 200;
  status = "200 OK";
  document = ok (rt.document_of (message a));
}
answered rt message (err e) = record {
  status_code = rt.error_status e;
  status = e;
  document = ok end;
}

-- the handlers of RegisterWebhookServiceHandlerClient behind the request: HTTPError or
-- ForwardResponseMessage
unfoldable pub forwarded :
    {A : Type 0} → Runtime → (A → Message) → Exec World A → Exec World HttpResponse
forwarded rt message m w = let (r, w') = m w in (ok (answered rt message r), w')

abbrev pub unless_failed : {A : Type 0} → Option String → Exec World A → Exec World A
unless_failed none m = m
unless_failed (some e) m = raise e

abbrev pub with_body :
    {A : Type 0} → Runtime → Option Fields → (Fields → Exec World A) → Exec World A
with_body rt body f = unless_failed (rt.decode_error (body_of body)) (f (body_of body))

abbrev with_query : {A B : Type 0} → Result A → (A → Exec World B) → Exec World B
with_query (ok a) f = f a
with_query (err e) f = raise e

module _ (rt : Runtime) (c : Context) where
  -- request_WebhookService_CreateEndpoint_0
  unfoldable pub request_create_endpoint : String → Option Fields → Exec World HttpResponse
  unfolding forwarded
  request_create_endpoint tenant body = forwarded rt endpoint (
      with_body rt body λ fs.
        create_endpoint c
          (record { tenant_id = tenant; url = rt.read fs "url"; secret = rt.read fs "secret" }))

  -- request_WebhookService_CreateSubscription_0
  unfoldable pub request_create_subscription : String → Option Fields → Exec World HttpResponse
  unfolding forwarded
  request_create_subscription tenant body = forwarded rt subscription (
      with_body rt body λ fs. create_subscription c (record {
        tenant_id = tenant;
        event_type = rt.read fs "eventType";
        endpoint_id = rt.read fs "endpointId";
      }))

  -- request_WebhookService_PublishEvent_0
  unfoldable pub request_publish_event : String → Option Fields → Exec World HttpResponse
  unfolding forwarded
  request_publish_event tenant body = forwarded rt published (
      with_body rt body λ fs. publish_event c (record {
        tenant_id = tenant;
        event_type = rt.read fs "eventType";
        payload = rt.read_struct fs "payload";
        idempotency_key = rt.read fs "idempotencyKey";
      }))

  -- request_WebhookService_ReplayDelivery_0
  unfoldable pub request_replay_delivery : String → Option Fields → Exec World HttpResponse
  unfolding forwarded
  request_replay_delivery delivery body = forwarded rt replayed (
      with_body rt body
        λ fs. replay_delivery c (record { delivery_id = delivery; reason = rt.read fs "reason" }))

  -- request_WebhookService_GetDeliveryStatus_0: the query, with the event of the path
  unfoldable pub request_get_delivery_status : String → String → Exec World HttpResponse
  unfolding forwarded
  request_get_delivery_status event url = forwarded rt attempts (
      with_query (rt.populate_status url)
        λ req. get_delivery_status (record req { event_id = event }))

  -- request_WebhookService_ListDLQ_0
  unfoldable pub request_list_dlq : String → Exec World HttpResponse
  unfolding forwarded
  request_list_dlq url = forwarded rt attempts (with_query (rt.populate_dlq url) list_dlq)

  abbrev dispatched : HttpRequest → Option (Route × String) → Exec World HttpResponse
  dispatched req none =
      pure (record { status_code = 404; status = "404 Not Found"; document = ok end })
  dispatched req (some (pings, v)) = forwarded rt pong (pure ping)
  dispatched req (some (creates_endpoint, v)) = request_create_endpoint v req.body
  dispatched req (some (creates_subscription, v)) = request_create_subscription v req.body
  dispatched req (some (publishes, v)) = request_publish_event v req.body
  dispatched req (some (gets_status, v)) = request_get_delivery_status v req.url
  dispatched req (some (replays, v)) = request_replay_delivery v req.body
  dispatched req (some (lists_dlq, v)) = request_list_dlq req.url

  -- RegisterWebhookServiceHandlerClient: the handler of the route of a request
  unfoldable pub gateway : HttpRequest → Exec World HttpResponse
  unfolding forwarded request_create_endpoint request_create_subscription request_publish_event
      request_replay_delivery request_get_delivery_status request_list_dlq
  gateway req = dispatched req (rt.route req.method req.url)

  -- the webhook service behind the links of a run, over gRPC and behind the gateway
  abbrev pub service : Links → Remote World
  service l = record {
    dial = given l.dial;
    call_ping = given (l.plaintext "Ping") >> pure ping;
    call_create_endpoint = λ req. given (l.plaintext "CreateEndpoint") >> create_endpoint c req;
    call_create_subscription =
        λ req. given (l.plaintext "CreateSubscription") >> create_subscription c req;
    call_publish_event = λ req. given (l.plaintext "PublishEvent") >> publish_event c req;
    call_get_delivery_status =
        λ req. given (l.plaintext "GetDeliveryStatus") >> get_delivery_status req;
    call_replay_delivery = λ req. given (l.plaintext "ReplayDelivery") >> replay_delivery c req;
    call_list_dlq = λ req. given (l.plaintext "ListDLQ") >> list_dlq req;
    send = λ req. given (l.https req.url) >> gateway req;
  }

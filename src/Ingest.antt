-- ===== src/Ingest.antt =====
-- internal/ingest/service.go: the requests and responses of the webhook service, and what a handler
-- takes from outside. The handlers stand in Endpoints, Publish, Replay and Attempts; what is proved of
-- them in the modules below those and in Isolation.
pub mod Endpoints
pub mod Publish
pub mod Replay
pub mod Attempts
pub mod Calls
pub mod Isolation
use harbor_hook.Common.{ℕ, String, Option, List, Result}

-- The clock as a number and as RFC 3339 text, the trace context of the request, the random source of
-- generateSecret, url.ParseRequestURI (the text of its error, or none) and json.Marshal of a payload.
pub record Context : Type 0 where
  pub now : ℕ
  pub stamp : String
  pub trace_headers : List (String × String)
  pub rand_read : ℕ → Result (List ℕ)
  pub parse_request_uri : String → Option String
  pub marshal : String → Result String

pub record CreateEndpointRequest : Type 0 where
  pub tenant_id : String
  pub url : String
  pub secret : String

pub record EndpointReply : Type 0 where
  pub id : String
  pub tenant_id : String
  pub url : String
  pub created_at : ℕ

pub record CreateSubscriptionRequest : Type 0 where
  pub tenant_id : String
  pub event_type : String
  pub endpoint_id : String

pub record SubscriptionReply : Type 0 where
  pub id : String
  pub tenant_id : String
  pub event_type : String
  pub endpoint_id : String
  pub created_at : ℕ

-- The payload is none where the message has no payload field.
pub record PublishEventRequest : Type 0 where
  pub tenant_id : String
  pub event_type : String
  pub payload : Option String
  pub idempotency_key : String

-- An int32 in the source; the fan-out of one event is taken to stay below 2 ^ 31.
pub record PublishEventReply : Type 0 where
  pub event_id : String
  pub fanout_count : ℕ

pub record ReplayDeliveryRequest : Type 0 where
  pub delivery_id : String
  pub reason : String

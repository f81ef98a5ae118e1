-- ===== src/Ingest/Attempts.antt =====
-- The messages of GetDeliveryStatus and ListDLQ of internal/ingest/service.go, and the helpers nullStr,
-- nullI32, toTS and mapStatus. The handlers stand in Listing and DeadLetters.
pub mod Listing
pub mod DeadLetters
pub mod Selection
pub mod Labels
use harbor_hook.Common.{
  ℕ, String, Option, none, some, ◌==◌, ◌||◌, if◌then◌else◌, ◌≡◌, refl, ◌≢◌, List,
}
use harbor_hook.Common.Int.{ℤ, pos, negsuc}
use harbor_hook.Store.{Status, Delivery}

-- DeliveryAttemptStatus of the service's protocol
pub data AttemptStatus : Type 0 where
  unspecified queued in_flight delivered failed dead_lettered : AttemptStatus

pub record DeliveryAttempt : Type 0 where
  pub delivery_id : String
  pub event_id : String
  pub endpoint_id : String
  pub replay_of : String
  pub status : AttemptStatus
  pub http_status : ℕ
  pub error_reason : String
  pub enqueued_at : Option ℕ
  pub dequeued_at : Option ℕ
  pub sent_at : Option ℕ
  pub delivered_at : Option ℕ
  pub failed_at : Option ℕ
  pub dlq_at : Option ℕ

-- the message with no field set
abbrev pub no_attempt : DeliveryAttempt
no_attempt = record {
  delivery_id = "";
  event_id = "";
  endpoint_id = "";
  replay_of = "";
  status = AttemptStatus.unspecified;
  http_status = 0;
  error_reason = "";
  enqueued_at = none;
  dequeued_at = none;
  sent_at = none;
  delivered_at = none;
  failed_at = none;
  dlq_at = none;
}

-- nullStr
abbrev pub null_str : Option String → String
null_str none = ""
null_str (some s) = s

-- nullI32
abbrev pub null_i32 : Option ℕ → ℕ
null_i32 none = 0
null_i32 (some n) = n

-- mapStatus
unfoldable pub map_status : String → AttemptStatus
map_status s =
    if s == "queued" || s == "pending"
    then AttemptStatus.queued
    else if s == "inflight"
    then AttemptStatus.in_flight
    else if s == "delivered" || s == "ok"
    then AttemptStatus.delivered
    else if s == "failed"
    then AttemptStatus.failed
    else if s == "dead"
    then AttemptStatus.dead_lettered
    else AttemptStatus.unspecified

-- the text of a value of the enum delivery_status
abbrev pub status_text : Status → String
status_text Status.pending = "pending"
status_text Status.ok = "ok"
status_text Status.failed = "failed"
status_text Status.queued = "queued"
status_text Status.inflight = "inflight"
status_text Status.delivered = "delivered"
status_text Status.dead = "dead"

-- COALESCE(d.error_reason, d.last_error)
abbrev coalesce : Option String → Option String → Option String
coalesce none b = b
coalesce (some a) b = some a

-- a row of the result as a message
unfoldable pub to_attempt : Delivery → DeliveryAttempt
unfolding map_status
to_attempt d = record {
  delivery_id = d.id;
  event_id = d.event_id;
  endpoint_id = d.endpoint_id;
  replay_of = null_str d.replay_of;
  status = map_status (status_text d.status);
  http_status = null_i32 d.http_status;
  error_reason = null_str (coalesce d.error_reason d.last_error);
  enqueued_at = d.enqueued_at;
  dequeued_at = d.dequeued_at;
  sent_at = d.sent_at;
  delivered_at = d.delivered_at;
  failed_at = d.failed_at;
  dlq_at = d.dlq_at;
}

-- `limit := int32(10); if req.GetLimit() > 0 { limit = req.GetLimit() }`
abbrev pub limit_of : ℤ → ℕ
limit_of (pos ℕ.zero) = 10
limit_of (pos (ℕ.suc n)) = ℕ.suc n
limit_of (negsuc n) = 10

-- ===== src/Delivery.antt =====
-- internal/delivery/task.go and dlq.go: the message of the deliveries topic, and the envelope of the
-- dead-letter topic. JSON encoding is left out: a message is the value that it encodes, and a payload
-- is its JSON text.
use harbor_hook.Common.{ℕ, String, List}

pub record Task : Type 0 where
  pub delivery_id : String
  pub event_id : String
  pub tenant_id : String
  pub endpoint_id : String
  pub endpoint_url : String
  pub event_type : String
  pub payload : String
  pub attempt : ℕ
  pub published_at : String
  pub trace_headers : List (String × String)

abbrev pub dlq_type : String
dlq_type = "delivery.dlq"

pub record DeadLetter : Type 0 where
  pub type_name : String
  pub version : String
  pub at : String
  pub reason : String
  pub attempt : ℕ
  pub http_status : ℕ
  pub last_error : String
  pub task : Task

-- NewDeadLetter; `stamp` is the time as text
unfoldable pub new_dead_letter : String → Task → ℕ → ℕ → String → String → DeadLetter
new_dead_letter stamp t attempt http_status last_err reason = record {
  type_name = dlq_type;
  version = "v1";
  at = stamp;
  reason = reason;
  attempt = attempt;
  http_status = http_status;
  last_error = last_err;
  task = t;
}

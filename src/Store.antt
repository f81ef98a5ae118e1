-- ===== src/Store.antt =====
-- The tables of deploy/docker/postgres/init/01_init.sql to 04_phase3.sql, as far as the Go code
-- reads or writes their columns. A table is the list of its rows, oldest first. Identifiers are
-- drawn from a stream of texts, as gen_random_uuid() draws them; the clock is an argument.
pub mod Inserts
pub mod Updates
pub mod Queries
pub mod Keys
pub mod Effects
pub mod Rows
use harbor_hook.Common.{ℕ, String, Option, List, [], Result}

pub data Status : Type 0 where
  pending ok failed queued inflight delivered dead : Status

-- harborhook.endpoints
pub record Endpoint : Type 0 where
  pub id : String
  pub tenant_id : String
  pub url : String
  pub secret : Option String
  pub created_at : ℕ

-- harborhook.subscriptions
pub record Subscription : Type 0 where
  pub id : String
  pub tenant_id : String
  pub event_type : String
  pub endpoint_id : String
  pub created_at : ℕ

-- harborhook.events; a payload is its JSON text
pub record Event : Type 0 where
  pub id : String
  pub tenant_id : String
  pub event_type : String
  pub payload : String
  pub idempotency_key : Option String
  pub created_at : ℕ

-- harborhook.deliveries
pub record Delivery : Type 0 where
  pub id : String
  pub event_id : String
  pub endpoint_id : String
  pub status : Status
  pub attempt : ℕ
  pub http_status : Option ℕ
  pub latency_ms : Option ℕ
  pub last_error : Option String
  pub error_reason : Option String
  pub replay_of : Option String
  pub replay_reason : Option String
  pub enqueued_at : Option ℕ
  pub dequeued_at : Option ℕ
  pub sent_at : Option ℕ
  pub delivered_at : Option ℕ
  pub failed_at : Option ℕ
  pub dlq_at : Option ℕ
  pub updated_at : ℕ

-- harborhook.dlq
pub record DlqEntry : Type 0 where
  pub id : String
  pub delivery_id : String
  pub reason : String
  pub created_at : ℕ

pub record Db : Type 0 where
  pub endpoints : List Endpoint
  pub subscriptions : List Subscription
  pub events : List Event
  pub deliveries : List Delivery
  pub dlq : List DlqEntry
  pub uuid : ℕ → String
  pub drawn : ℕ

-- A statement fails without a trace, or returns rows and the changed tables.
abbrev pub Statement : Type 0 → Type 0
Statement A = Db → Result (A × Db)

abbrev pub empty_db : (ℕ → String) → Db
empty_db uuid = record {
  endpoints = [];
  subscriptions = [];
  events = [];
  deliveries = [];
  dlq = [];
  uuid = uuid;
  drawn = 0;
}

-- ===== src/Examples.antt =====
-- Concrete tables, requests and surroundings, on which the children apply the theorems and run the code.
pub mod Working
pub mod Publishing
pub mod Receiving
pub mod Authorizing
pub mod Observing
pub mod Running
pub mod Commanding
pub mod Generating
pub mod Starting
use Prim.Native.String.{◌∷◌, char_at}
use harbor_hook.Common.{
  if◌then◌else◌, ◌==◌, ℕ, zero, suc, ◌+◌, ◌-◌, ◌*◌, ◌/◌, String, List, [], ◌∷◌, Option, none, some,
  Bool, true, false, ltb, Result, ok, err,
}
use harbor_hook.Store.{Status, Endpoint, Subscription, Event, Delivery, DlqEntry, Db}
use harbor_hook.Store.Inserts.{delivery_row, event_row}
use harbor_hook.Delivery.{Task}
use harbor_hook.Metrics.{no_metrics}
use harbor_hook.World.{World}
use harbor_hook.Ingest.{Context, PublishEventRequest}
use harbor_hook.Worker.{Settings, Surroundings, Answer, replied, failed}
use harbor_hook.Worker.Backoff.{Floats}

-- fresh identifiers
abbrev pub ids : ℕ → String
ids zero = "u"
ids (suc n) = char_at "u" 0 ∷ ids n

abbrev pub orders_endpoint : Endpoint
orders_endpoint = record {
  id = "e1";
  tenant_id = "acme";
  url = "http://acme.test/hook";
  secret = some "s3cret";
  created_at = 1;
}

abbrev pub orders_subscription : Subscription
orders_subscription = record {
  id = "s1";
  tenant_id = "acme";
  event_type = "order.paid";
  endpoint_id = "e1";
  created_at = 2;
}

abbrev pub paid_event : Event
paid_event = event_row 3 "v1" "acme" "order.paid" "{}" (some "k1")

abbrev pub paid_delivery : Delivery
paid_delivery = delivery_row 3 "d1" "v1" "e1" none none

-- one endpoint, one subscription, one event under the key k1 and its delivery
abbrev pub acme_db : Db
acme_db = record {
  endpoints = orders_endpoint ∷ [];
  subscriptions = orders_subscription ∷ [];
  events = paid_event ∷ [];
  deliveries = paid_delivery ∷ [];
  dlq = [];
  uuid = ids;
  drawn = 0;
}

abbrev pub acme_world : World
acme_world = record {
  db = acme_db;
  queue = [];
  dlq_topic = [];
  metrics = no_metrics;
  outcomes = [];
}

abbrev pub context : Context
context = record {
  now = 9;
  stamp = "2024-01-01T00:00:00Z";
  trace_headers = [];
  rand_read = λ n. ok (1 ∷ 2 ∷ 3 ∷ []);
  parse_request_uri = λ url. none;
  marshal = λ text. ok text;
}

abbrev pub publish_request : String → PublishEventRequest
publish_request key = record {
  tenant_id = "acme";
  event_type = "order.paid";
  payload = some "{}";
  idempotency_key = key;
}

abbrev pub paid_task : Task
paid_task = record {
  delivery_id = "d1";
  event_id = "v1";
  tenant_id = "acme";
  endpoint_id = "e1";
  endpoint_url = "http://acme.test/hook";
  event_type = "order.paid";
  payload = "{}";
  attempt = 0;
  published_at = "2024-01-01T00:00:00Z";
  trace_headers = [];
}

-- tenths of a number in the place of float64
abbrev pub tenths : Floats ℕ
tenths = record {
  one = 10;
  two = 20;
  tenth = 1;
  add = λ a b. a + b;
  sub = λ a b. a - b;
  mul = λ a b. a * b / 10;
  less = ltb;
  of_duration = λ d. d * 10;
  to_duration = λ f. f / 10;
}

abbrev pub settings : ℕ → Settings ℕ
settings max = record {
  max_attempts = max;
  backoff_schedule = 100 ∷ 400 ∷ [];
  jitter_percent = 0;
  publish_dlq = true;
  timestamp_header = "X-HarborHook-Timestamp";
  signature_header = "X-HarborHook-Signature";
}

-- the endpoint answers each request alike
abbrev pub surroundings : ℕ → Answer → Surroundings ℕ
surroundings max a = record {
  settings = settings max;
  floats = tenths;
  now = 20;
  unix = 1_700_000_000;
  stamp = "2024-01-01T00:00:20Z";
  trace_id = "t1";
  hmac_sha256 = λ key text. 7 ∷ 255 ∷ 16 ∷ [];
  takes_url = λ url. if url == "//a:b" then false else true;
  send = λ r. a;
  latency = 12;
  draw = 5;
}

-- ===== src/Store/Queries.antt =====
-- The SELECT statements of internal/ingest/service.go and cmd/worker/main.go, and the look-ups in
-- which they are written.
use harbor_hook.Common.{
  ℕ, String, Option, none, some, List, [], ◌∷◌, Bool, ◌&&◌, ◌==◌, filter, find, length,
}
use harbor_hook.Store.{Endpoint, Subscription, Event, Delivery, Db}

abbrev pub endpoint_at : String → List Endpoint → Option Endpoint
endpoint_at id = find λ e. e.id == id

abbrev pub event_at : String → List Event → Option Event
event_at id = find λ e. e.id == id

abbrev pub delivery_at : String → List Delivery → Option Delivery
delivery_at id = find λ d. d.id == id

abbrev pub owned_by : String → Option Endpoint → Bool
owned_by tenant none = Bool.false
owned_by tenant (some e) = e.tenant_id == tenant

-- SELECT EXISTS(SELECT 1 FROM endpoints WHERE id = $1 AND tenant_id = $2); `id` is the primary key
unfoldable pub endpoint_exists : String → String → Db → Bool
endpoint_exists id tenant db = owned_by tenant (endpoint_at id db.endpoints)

abbrev pub same_key : String → Option String → Bool
same_key key none = Bool.false
same_key key (some k) = k == key

-- SELECT id FROM events WHERE tenant_id = $1 AND idempotency_key = $2 LIMIT 1
abbrev pub event_by_key : String → String → List Event → Option Event
event_by_key tenant key = find λ e. e.tenant_id == tenant && same_key key e.idempotency_key

-- SELECT COUNT(*) FROM deliveries WHERE event_id = $1
unfoldable pub count_deliveries : String → Db → ℕ
count_deliveries event_id db = length (filter (λ d. d.event_id == event_id) db.deliveries)

abbrev pub is_for : String → String → Subscription → Bool
is_for tenant event_type s = s.tenant_id == tenant && s.event_type == event_type

-- the join of the matching subscriptions with their endpoints
abbrev pub join_endpoint : Option Endpoint → List (String × String) → List (String × String)
join_endpoint none rest = rest
join_endpoint (some e) rest = (e.id, e.url) ∷ rest

unfoldable pub join_endpoints : List Endpoint → List Subscription → List (String × String)
join_endpoints eps [] = []
join_endpoints eps (s ∷ subs) =
    join_endpoint (endpoint_at s.endpoint_id eps) (join_endpoints eps subs)

-- SELECT e.id, e.url FROM subscriptions s JOIN endpoints e ON e.id = s.endpoint_id
-- WHERE s.tenant_id = $1 AND s.event_type = $2
unfoldable pub subscribers : String → String → Db → List (String × String)
unfolding join_endpoints
subscribers tenant event_type db =
    join_endpoints db.endpoints (filter (is_for tenant event_type) db.subscriptions)

-- the columns of the replay query
pub record ReplaySource : Type 0 where
  pub event_id : String
  pub endpoint_id : String
  pub tenant_id : String
  pub event_type : String
  pub payload : String
  pub endpoint_url : String

abbrev pub join_source : Delivery → Option Event → Option Endpoint → Option ReplaySource
join_source d none ep = none
join_source d (some ev) none = none
join_source d (some ev) (some ep) = some (record {
  event_id = d.event_id;
  endpoint_id = d.endpoint_id;
  tenant_id = ev.tenant_id;
  event_type = ev.event_type;
  payload = ev.payload;
  endpoint_url = ep.url;
})

-- SELECT … FROM deliveries d JOIN events ev … JOIN endpoints ep … WHERE d.id = $1
unfoldable pub replay_source : String → Db → Option ReplaySource
replay_source id db = elim (delivery_at id db.deliveries) [
  | none ↦ none
  | some d ↦ join_source d (event_at d.event_id db.events) (endpoint_at d.endpoint_id db.endpoints)
]

-- SELECT secret FROM endpoints WHERE id = $1; the outer option is the row
unfoldable pub endpoint_secret : String → Db → Option (Option String)
endpoint_secret id db = elim (endpoint_at id db.endpoints) [ none ↦ none | some e ↦ some e.secret ]

-- SELECT attempt FROM deliveries WHERE id = $1
unfoldable pub delivery_attempt : String → Db → Option ℕ
delivery_attempt id db = elim (delivery_at id db.deliveries) [
  | none ↦ none
  | some d ↦ some d.attempt
]

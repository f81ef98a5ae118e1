-- ===== src/Ingest/Isolation.antt =====
-- Tenant isolation: subscriptions, deliveries and enqueued tasks refer to endpoints of their own
-- tenant. `Isolated` is the invariant; Statements has it for each INSERT, Handlers for each handler of
-- internal/ingest/service.go, and History for each call.
pub mod Statements
pub mod Handlers
pub mod Fanout
pub mod Publishing
pub mod Replays
pub mod History
use harbor_hook.Common.{String, List, some, All, ◌≡◌}
use harbor_hook.Store.{Endpoint, Subscription, Event, Delivery, Db}
use harbor_hook.Store.Keys.{HasUniqueIds}
use harbor_hook.Store.Queries.{endpoint_at, event_at}
use harbor_hook.Delivery.{Task}

-- The endpoint exists and belongs to the tenant.
abbrev pub Owns : List Endpoint → String → String → Type 0
Owns eps tenant id = (e : Endpoint) × (endpoint_at id eps ≡ some e) × (e.tenant_id ≡ tenant)

abbrev pub EventOf : List Event → String → String → Type 0
EventOf evs tenant id = (ev : Event) × (event_at id evs ≡ some ev) × (ev.tenant_id ≡ tenant)

abbrev pub SubscriptionOwned : List Endpoint → Subscription → Type 0
SubscriptionOwned eps s = Owns eps s.tenant_id s.endpoint_id

-- A delivery goes to an endpoint of the tenant that published its event.
abbrev pub DeliveryOwned : List Endpoint → List Event → Delivery → Type 0
DeliveryOwned eps evs d =
    (tenant : String) × EventOf evs tenant d.event_id × Owns eps tenant d.endpoint_id

-- A task names an endpoint of its tenant, and is sent to that endpoint's URL.
abbrev pub TaskOwned : List Endpoint → Task → Type 0
TaskOwned eps t =
    (e : Endpoint) × (endpoint_at t.endpoint_id eps ≡ some e)
    × (e.tenant_id ≡ t.tenant_id)
    × (e.url ≡ t.endpoint_url)

pub record Isolated (db : Db) (queue : List Task) : Type 0 where
  pub event_ids : HasUniqueIds db.events
  pub subscriptions : All (SubscriptionOwned db.endpoints) db.subscriptions
  pub deliveries : All (DeliveryOwned db.endpoints db.events) db.deliveries
  pub tasks : All (TaskOwned db.endpoints) queue

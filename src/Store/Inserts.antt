-- ===== src/Store/Inserts.antt =====
-- The INSERT statements of internal/ingest/service.go and cmd/worker/main.go, with the primary keys,
-- foreign keys and unique constraints of the schema, and the trigger set_initial_timestamps.
use harbor_hook.Common.{
  ℕ, ◌+◌, String, Option, none, some, List, [], ◌∷◌, ◌++◌, Bool, true, false, ◌&&◌, ◌==◌, any, ok,
  err, if◌then◌else◌,
}
use harbor_hook.Store.{Status, Endpoint, Subscription, Event, Delivery, DlqEntry, Statement}
use harbor_hook.Store.Queries.{same_key}

-- INSERT INTO endpoints(tenant_id, url, secret) VALUES … RETURNING id, created_at
unfoldable pub insert_endpoint : ℕ → String → String → String → Statement (String × ℕ)
insert_endpoint now tenant url secret db =
    let id = db.uuid db.drawn in
    let row : Endpoint = record {
      id = id;
      tenant_id = tenant;
      url = url;
      secret = some secret;
      created_at = now;
    } in
    if any (λ e. e.id == id) db.endpoints
    then err "duplicate key: endpoints_pkey"
    else ok ((id, now), record db { endpoints = db.endpoints ++ row ∷ []; drawn = db.drawn + 1 })

-- INSERT INTO subscriptions(tenant_id, event_type, endpoint_id) VALUES … RETURNING id, created_at
unfoldable pub insert_subscription : ℕ → String → String → String → Statement (String × ℕ)
insert_subscription now tenant event_type endpoint_id db =
    let id = db.uuid db.drawn in
    let row : Subscription = record {
      id = id;
      tenant_id = tenant;
      event_type = event_type;
      endpoint_id = endpoint_id;
      created_at = now;
    } in
    if any (λ s. s.id == id) db.subscriptions
    then err "duplicate key: subscriptions_pkey"
    else if any (λ e. e.id == endpoint_id) db.endpoints
    then ok (
      (id, now),
      record db { subscriptions = db.subscriptions ++ row ∷ []; drawn = db.drawn + 1 },
    )
    else err "foreign key: subscriptions_endpoint_id_fkey"

abbrev pub event_row : ℕ → String → String → String → String → Option String → Event
event_row now id tenant event_type payload key = record {
  id = id;
  tenant_id = tenant;
  event_type = event_type;
  payload = payload;
  idempotency_key = key;
  created_at = now;
}

-- uq_events_tenant_idem on (tenant_id, idempotency_key)
abbrev pub key_taken : String → String → List Event → Bool
key_taken tenant key = any λ e. e.tenant_id == tenant && same_key key e.idempotency_key

-- INSERT INTO events(…, idempotency_key) … ON CONFLICT ON CONSTRAINT … DO NOTHING; the rows affected
unfoldable pub insert_event_once : ℕ → String → String → String → String → Statement ℕ
insert_event_once now tenant event_type payload key db =
    let id = db.uuid db.drawn in
    if key_taken tenant key db.events
    then ok (0, db)
    else if any (λ e. e.id == id) db.events
    then err "duplicate key: events_pkey"
    else ok (
      1,
      record db {
        events = db.events ++ event_row now id tenant event_type payload (some key) ∷ [];
        drawn = db.drawn + 1;
      },
    )

-- INSERT INTO events(tenant_id, event_type, payload) … RETURNING id
unfoldable pub insert_event : ℕ → String → String → String → Statement String
insert_event now tenant event_type payload db =
    let id = db.uuid db.drawn in
    if any (λ e. e.id == id) db.events
    then err "duplicate key: events_pkey"
    else ok (
      id,
      record db {
        events = db.events ++ event_row now id tenant event_type payload none ∷ [];
        drawn = db.drawn + 1;
      },
    )

-- the statuses of the partial index uq_single_pending_replay
abbrev pub is_pending : Status → Bool
is_pending Status.queued = true
is_pending Status.inflight = true
is_pending _ = false

abbrev pub replays : String → Delivery → Bool
replays source d = same_key source d.replay_of && is_pending d.status

-- uq_single_pending_replay would be violated by one more pending replay of the source
abbrev pub replay_pending : Option String → List Delivery → Bool
replay_pending none ds = false
replay_pending (some source) ds = any (replays source) ds

abbrev known_source : Option String → List Delivery → Bool
known_source none ds = true
known_source (some source) ds = any (λ d. d.id == source) ds

-- a new row with the defaults of its columns; the trigger sets enqueued_at
abbrev pub delivery_row : ℕ → String → String → String → Option String → Option String → Delivery
delivery_row now id event_id endpoint_id replay_of reason = record {
  id = id;
  event_id = event_id;
  endpoint_id = endpoint_id;
  status = Status.queued;
  attempt = 0;
  http_status = none;
  latency_ms = none;
  last_error = none;
  error_reason = none;
  replay_of = replay_of;
  replay_reason = reason;
  enqueued_at = some now;
  dequeued_at = none;
  sent_at = none;
  delivered_at = none;
  failed_at = none;
  dlq_at = none;
  updated_at = now;
}

-- INSERT INTO deliveries(event_id, endpoint_id, status[, replay_of, replay_reason])
-- VALUES (…, 'queued', …) RETURNING id
unfoldable pub insert_delivery :
    ℕ → String → String → Option String → Option String → Statement String
insert_delivery now event_id endpoint_id replay_of reason db =
    let id = db.uuid db.drawn in
    let row = delivery_row now id event_id endpoint_id replay_of reason in
    if any (λ d. d.id == id) db.deliveries
    then err "duplicate key: deliveries_pkey"
    else if replay_pending replay_of db.deliveries
    then err "duplicate key: uq_single_pending_replay"
    else if any (λ e. e.id == event_id) db.events
        && any (λ e. e.id == endpoint_id) db.endpoints
        && known_source replay_of db.deliveries
    then ok (id, record db { deliveries = db.deliveries ++ row ∷ []; drawn = db.drawn + 1 })
    else err "foreign key: deliveries"

-- INSERT INTO dlq(delivery_id, reason)
unfoldable pub insert_dlq : ℕ → String → String → Statement (Unit {0})
insert_dlq now delivery_id reason db =
    let id = db.uuid db.drawn in
    let row : DlqEntry = record {
      id = id;
      delivery_id = delivery_id;
      reason = reason;
      created_at = now;
    } in
    if any (λ q. q.id == id) db.dlq
    then err "duplicate key: dlq_pkey"
    else if any (λ d. d.id == delivery_id) db.deliveries
    then ok (tt, record db { dlq = db.dlq ++ row ∷ []; drawn = db.drawn + 1 })
    else err "foreign key: dlq_delivery_id_fkey"

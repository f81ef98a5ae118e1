-- ===== src/Examples/Publishing.antt =====
-- The theorems on internal/ingest/service.go on the tables of the tenant acme.
use harbor_hook.Common.{
  All, In, List, Option, String, [], arith, err, filter, inl, inr, length, none, ok, refl, some,
  take, true, ◌<◌, ◌∷◌, ◌≡◌, ◌≢◌, ◌≤◌, ◌⊎◌,
}
use harbor_hook.Common.Int.{pos}
use harbor_hook.Examples.{
  acme_db, acme_world, context, ids, paid_delivery, paid_event, publish_request,
}
use harbor_hook.Ingest.{ReplayDeliveryRequest}
use harbor_hook.Ingest.Attempts.{AttemptStatus, no_attempt}
use harbor_hook.Ingest.Attempts.DeadLetters.{ListDlqRequest, dead_rows, wanted}
use harbor_hook.Ingest.Attempts.DeadLetters.Ordered.{
  Descending, IsListed, IsServed, dead_rows-IsListed,
}
use harbor_hook.Ingest.Attempts.Listing.{GetDeliveryStatusRequest, run_status_query, status_query}
use harbor_hook.Ingest.Attempts.Listing.Selected.{run_status_query-status_query, selects}
use harbor_hook.Ingest.Attempts.Selection.{sort_by_enqueued}
use harbor_hook.Ingest.Publish.{insert_batch, publish_event}
use harbor_hook.Ingest.Publish.Fanout.{new_rows, new_tasks, publish_new}
use harbor_hook.Ingest.Publish.Idempotency.{IsAcceptable, calm, publish_duplicate}
use harbor_hook.Ingest.Publish.Retry.{broken_publish, retry_enqueues_nothing}
use harbor_hook.Ingest.Replay.{replay_delivery, replay_task}
use harbor_hook.Ingest.Replay.Single.{replay_delivery-queued, replay_delivery-replay_pending}
use harbor_hook.Metrics.{record_event_published}
use harbor_hook.Store.{Db, Delivery, DlqEntry}
use harbor_hook.Store.Inserts.{
  delivery_row, event_row, insert_delivery, insert_event, insert_event_once,
}
use harbor_hook.Store.Queries.{
  ReplaySource, count_deliveries, delivery_at, replay_source, subscribers,
}

nonempty : (s : String) → (s ≡ "acme") ⊎ (s ≡ "order.paid") → s ≢ ""
nonempty s (inl e) k = cc (e, k)
nonempty s (inr e) k = cc (e, k)

pub acceptable : (key : String) → IsAcceptable context (publish_request key) "{}"
acceptable key = record {
  tenant = nonempty "acme" (inl refl);
  event_type = nonempty "order.paid" (inr refl);
  text = "{}";
  given = refl;
  marshalled = refl;
}

abbrev status_request : GetDeliveryStatusRequest
status_request = record {
  event_id = "v1";
  endpoint_id = "";
  from = some (record { seconds = 0; nanos = 5 });
  to = some (record { seconds = 9; nanos = 0 });
  limit = pos 1;
}

publish_duplicate_example :
    publish_event context (publish_request "k1") (calm acme_world)
    ≡ (ok (record { event_id = "v1"; fanout_count = 0 }), calm acme_world)
unfolding count_deliveries
publish_duplicate_example =
    publish_duplicate context (publish_request "k1") "{}" acme_world paid_event (acceptable "k1")
      (λ e. cc e) refl (omega arith)

-- the tables behind the insert of an event without a key, and behind its one delivery
abbrev pub with_event : Option String → Db
with_event key = record acme_db {
  events = paid_event ∷ event_row 9 "u" "acme" "order.paid" "{}" key ∷ [];
  drawn = 1;
}

abbrev pub with_delivery : Option String → Db
with_delivery key = record (with_event key) {
  deliveries = paid_delivery ∷ delivery_row 9 "uu" "u" "e1" none none ∷ [];
  drawn = 2;
}

abbrev targets : List (String × String)
targets = ("e1", "http://acme.test/hook") ∷ []

publish_new_example :
    (publish_event context (publish_request "") (calm acme_world) ≡ (
      ok (record { event_id = "u"; fanout_count = 1 }),
      record (calm acme_world) {
        db = with_delivery none;
        queue = new_tasks context (publish_request "") "{}" "u" ids 1 targets;
        metrics = record_event_published "acme" acme_world.metrics;
      },
    ))
    × ((with_delivery none).deliveries ≡ paid_delivery ∷ new_rows 9 "u" ids 1 targets)
unfolding insert_event insert_batch insert_delivery subscribers
publish_new_example =
    publish_new context (publish_request "") "{}" "u" acme_world (with_event none)
      (with_delivery none) (acceptable "") refl refl refl

retry_enqueues_nothing_example :
    (publish_event context (publish_request "k2") (broken_publish "down" acme_world)
      ≡ (err "nsq publish: down", record (calm acme_world) { db = with_delivery (some "k2") }))
    × (publish_event context
          (publish_request "k2")
          (record (calm acme_world) { db = with_delivery (some "k2") })
        ≡ (
          ok (record { event_id = "u"; fanout_count = 0 }),
          record (calm acme_world) { db = with_delivery (some "k2") },
        ))
    × (0 < count_deliveries "u" (with_delivery (some "k2")))
unfolding insert_event_once insert_batch insert_delivery subscribers
retry_enqueues_nothing_example =
    retry_enqueues_nothing context (publish_request "k2") "{}" "down" acme_world
      (with_event (some "k2")) (with_delivery (some "k2")) ("e1", "http://acme.test/hook") []
      (acceptable "k2") (λ e. cc e) refl refl refl context "{}" (acceptable "k2")

run_status_query-status_query_example :
    run_status_query (status_query status_request) acme_db
    ≡ ok (take 1 (sort_by_enqueued (filter (selects status_request) acme_db.deliveries)))
run_status_query-status_query_example = run_status_query-status_query status_request acme_db

abbrev replay_request : ReplayDeliveryRequest
replay_request = record { delivery_id = "d1"; reason = "again" }

abbrev paid_source : ReplaySource
paid_source = record {
  event_id = "v1";
  endpoint_id = "e1";
  tenant_id = "acme";
  event_type = "order.paid";
  payload = "{}";
  endpoint_url = "http://acme.test/hook";
}

abbrev replay_row : Delivery
replay_row = delivery_row 9 "u" "v1" "e1" (some "d1") (some "again")

abbrev replayed_db : Db
replayed_db = record acme_db { deliveries = paid_delivery ∷ replay_row ∷ []; drawn = 1 }

replay_delivery-queued_example : replay_delivery context replay_request (calm acme_world) ≡ (
  ok (record no_attempt {
    delivery_id = "u";
    event_id = "v1";
    endpoint_id = "e1";
    replay_of = "d1";
    status = AttemptStatus.queued;
  }),
  record (calm acme_world) { db = replayed_db; queue = replay_task context paid_source "u" ∷ [] },
)
unfolding insert_delivery replay_source
replay_delivery-queued_example =
    replay_delivery-queued context replay_request acme_world paid_source (λ e. cc e) refl "u"
      replayed_db refl

replay_delivery-replay_pending_example :
    (e : String) × (replay_delivery context replay_request
        (calm (record acme_world { db = replayed_db }))
      ≡ (err e, calm (record acme_world { db = replayed_db })))
unfolding replay_source
replay_delivery-replay_pending_example =
    replay_delivery-replay_pending context replay_request (record acme_world { db = replayed_db })
      paid_source (λ e. cc e) refl refl

abbrev dead_db : Db
dead_db = record acme_db {
  dlq =
      record { id = "q1"; delivery_id = "d1"; reason = "max"; created_at = 4 }
      ∷ record { id = "q2"; delivery_id = "d1"; reason = "max"; created_at = 6 }
      ∷ [];
}

abbrev list_request : ListDlqRequest
list_request = record { endpoint_id = "e1"; limit = pos 0 }

dead_rows-IsListed_example :
    (length (dead_rows list_request dead_db) ≤ 10)
    × Descending (dead_rows list_request dead_db)
    × All (IsListed list_request dead_db) (dead_rows list_request dead_db)
    × ((q : DlqEntry) (d : Delivery)
        → In q dead_db.dlq
        → delivery_at q.delivery_id dead_db.deliveries ≡ some d
        → wanted list_request.endpoint_id (q, d) ≡ true
        → IsServed 10 (dead_rows list_request dead_db) (q, d))
dead_rows-IsListed_example = dead_rows-IsListed list_request dead_db

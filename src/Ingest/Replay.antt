-- ===== src/Ingest/Replay.antt =====
-- ReplayDelivery of internal/ingest/service.go.
pub mod Single
use harbor_hook.Common.{String, [], Option, none, some, ◌==◌, Result, ok, err}
use harbor_hook.Common.Exec.{Exec, pure, raise, branch, ◌>>=◌, ◌>>◌}
use harbor_hook.Store.Inserts.{insert_delivery}
use harbor_hook.Store.Queries.{ReplaySource, replay_source}
use harbor_hook.Delivery.{Task}
use harbor_hook.World.{World, run, query, publish_task, labelled}
use harbor_hook.Ingest.{Context, ReplayDeliveryRequest}
use harbor_hook.Ingest.Attempts.{DeliveryAttempt, AttemptStatus, no_attempt}

abbrev pub found : Option ReplaySource → Result ReplaySource
found none = err "no rows in result set"
found (some s) = ok s

abbrev pub replay_task : Context → ReplaySource → String → Task
replay_task c s new_id = record {
  delivery_id = new_id;
  event_id = s.event_id;
  tenant_id = s.tenant_id;
  endpoint_id = s.endpoint_id;
  endpoint_url = s.endpoint_url;
  event_type = s.event_type;
  payload = s.payload;
  attempt = 0;
  published_at = c.stamp;
  trace_headers = [];
}

unfoldable pub replay_delivery : Context → ReplayDeliveryRequest → Exec World DeliveryAttempt
replay_delivery c req = branch (req.delivery_id == "") (raise "delivery_id is required") do
  s ← labelled "source delivery not found: " (query λ db. found (replay_source req.delivery_id db))
  new_id ← labelled "insert replay: " (
      run (insert_delivery c.now s.event_id s.endpoint_id (some req.delivery_id) (some req.reason)))
  labelled "nsq publish: " (publish_task (replay_task c s new_id))
  pure (record no_attempt {
    delivery_id = new_id;
    event_id = s.event_id;
    endpoint_id = s.endpoint_id;
    replay_of = req.delivery_id;
    status = AttemptStatus.queued;
  })

-- ===== src/Ingest/Calls.antt =====
-- The calls of the webhook service that change its state.
use harbor_hook.World.{World}
use harbor_hook.Ingest.{
  Context, CreateEndpointRequest, CreateSubscriptionRequest, PublishEventRequest,
  ReplayDeliveryRequest,
}
use harbor_hook.Ingest.Endpoints.{create_endpoint, create_subscription}
use harbor_hook.Ingest.Publish.{publish_event}
use harbor_hook.Ingest.Replay.{replay_delivery}

pub data Call : Type 0 where
  creates_endpoint : CreateEndpointRequest → Call
  creates_subscription : CreateSubscriptionRequest → Call
  publishes : PublishEventRequest → Call
  replays : ReplayDeliveryRequest → Call

-- The world behind a call, whether it succeeded or not.
unfoldable pub serve : Context → Call → World → World
serve c (creates_endpoint req) w = (create_endpoint c req w).1
serve c (creates_subscription req) w = (create_subscription c req w).1
serve c (publishes req) w = (publish_event c req w).1
serve c (replays req) w = (replay_delivery c req w).1

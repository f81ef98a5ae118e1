-- ===== src/Ingest/Isolation/History.antt =====
-- `Isolated` under each call of the webhook service.
use harbor_hook.Common.{Result, ok, err}
use harbor_hook.World.{World}
use harbor_hook.World.Invariants.{Kept}
use harbor_hook.Ingest.{Context}
use harbor_hook.Ingest.Calls.{
  Call, creates_endpoint, creates_subscription, publishes, replays, serve,
}
use harbor_hook.Ingest.Isolation.{Isolated}
use harbor_hook.Ingest.Isolation.Handlers.{
  Anything, create_endpoint-Isolated, create_subscription-Isolated,
}
use harbor_hook.Ingest.Isolation.Publishing.{publish_event-Isolated}
use harbor_hook.Ingest.Isolation.Replays.{replay_delivery-Isolated}

Kept-Isolated :
    {A : Type 0} (r : Result A × World)
    → Kept Isolated (λ (_ : A) w. Anything w) r
    → Isolated r.1.db r.1.queue
Kept-Isolated (ok a, w) (i, _) = i
Kept-Isolated (err e, w) i = i

-- Each call keeps subscriptions, deliveries and tasks within their tenants, whatever external calls
-- fail and whether it succeeds.
pub serve-Isolated :
    (c : Context) (call : Call) (w : World)
    → Isolated w.db w.queue
    → Isolated (serve c call w).db (serve c call w).queue
unfolding serve
serve-Isolated c (creates_endpoint req) w i =
    Kept-Isolated _ ((create_endpoint-Isolated c req).at w i tt)
serve-Isolated c (creates_subscription req) w i =
    Kept-Isolated _ ((create_subscription-Isolated c req).at w i tt)
serve-Isolated c (publishes req) w i = Kept-Isolated _ ((publish_event-Isolated c req).at w i tt)
serve-Isolated c (replays req) w i = Kept-Isolated _ ((replay_delivery-Isolated c req).at w i tt)

-- ===== src/Ingest/Replay/Single.antt =====
-- What ReplayDelivery of internal/ingest/service.go does where every external call succeeds, and how the
-- index uq_single_pending_replay keeps it to one pending replay of a delivery.
use Prim.Native.String.{◌++◌ as text_append}
use harbor_hook.Common.{
  String, [], ◌∷◌, ◌++◌, some, true, any, ◌==◌, ok, err, ◌≡◌, refl, ◌≢◌, eq_false, Bool-cases, inl,
  inr,
}
use harbor_hook.Common.Exec.{◌>>=◌}
use harbor_hook.Store.{Db}
use harbor_hook.Store.Inserts.{insert_delivery, replay_pending}
use harbor_hook.Store.Queries.{ReplaySource, replay_source}
use harbor_hook.World.{World, run, query, labelled, publish_task}
use harbor_hook.Ingest.{Context, ReplayDeliveryRequest}
use harbor_hook.Ingest.Attempts.{AttemptStatus, no_attempt}
use harbor_hook.Ingest.Replay.{replay_task, replay_delivery}
use harbor_hook.Ingest.Publish.Idempotency.{calm}

module _ (c : Context) (req : ReplayDeliveryRequest) (w : World) (s : ReplaySource)
    (given : req.delivery_id ≢ "") (source : replay_source req.delivery_id w.db ≡ some s) where
  -- A replay of a delivery whose event and endpoint exist, when every external call succeeds and the
  -- tables take the new row: it answers with a queued attempt that names the delivery, the tables
  -- are those behind the insert, and one task is enqueued, with the event, the payload and the
  -- endpoint of the delivery, under the identifier of the new row.
  pub replay_delivery-queued :
      (id : String) (db : Db)
      → insert_delivery c.now s.event_id s.endpoint_id (some req.delivery_id) (some req.reason) w.db
        ≡ ok (id, db)
      → replay_delivery c req (calm w) ≡ (
        ok (record no_attempt {
          delivery_id = id;
          event_id = s.event_id;
          endpoint_id = s.endpoint_id;
          replay_of = req.delivery_id;
          status = AttemptStatus.queued;
        }),
        record (calm w) { db = db; queue = w.queue ++ replay_task c s id ∷ [] },
      )
  unfolding replay_delivery ◌>>=◌ query run labelled publish_task
  replay_delivery-queued id db inserted =
      rw (eq_false req.delivery_id "" given, source, inserted) refl

  refused_insert :
      (text : String)
      → insert_delivery c.now s.event_id s.endpoint_id (some req.delivery_id) (some req.reason) w.db
        ≡ err text
      → replay_delivery c req (calm w) ≡ (err (text_append "insert replay: " text), calm w)
  unfolding replay_delivery ◌>>=◌ query run labelled
  refused_insert text failed = rw (eq_false req.delivery_id "" given, source, failed) refl

  -- While a replay of the delivery is queued or in flight, a further replay of it fails and changes
  -- nothing, when every external call succeeds and the delivery's event and endpoint exist.
  pub replay_delivery-replay_pending :
      replay_pending (some req.delivery_id) w.db.deliveries ≡ true
      → (e : String) × (replay_delivery c req (calm w) ≡ (err e, calm w))
  unfolding insert_delivery
  replay_delivery-replay_pending pending =
      elim (Bool-cases (any (λ d. d.id == w.db.uuid w.db.drawn) w.db.deliveries)) [
        | inl taken ↦ (_, refused_insert "duplicate key: deliveries_pkey" (rw taken refl))
        | inr free ↦
            (_, refused_insert "duplicate key: uq_single_pending_replay" (rw (free, pending) refl))
      ]

-- ===== src/Ingest/Publish/Idempotency.antt =====
-- PublishEvent with an idempotency key that is in use.
use harbor_hook.Common.{
  ℕ, ◌<◌, String, [], some, true, ◌&&◌, ok, ◌≡◌, refl, ◌≢◌, arith, ◌==◌, eq_false, any_of_find,
  find_holds,
}
use harbor_hook.Common.Exec.{◌>>=◌}
use harbor_hook.Store.{Event, Db}
use harbor_hook.Store.Inserts.{insert_event_once, key_taken}
use harbor_hook.Store.Queries.{event_by_key, count_deliveries, same_key}
use harbor_hook.World.{World, run, query, labelled}
use harbor_hook.Ingest.{Context, PublishEventRequest}
use harbor_hook.Ingest.Publish.{duplicate, resolve_event, fan_out, publish_event}

-- The world in which every external call succeeds from here on.
abbrev pub calm : World → World
calm w = record w { outcomes = [] }

-- A request that passes the checks of PublishEvent, with its payload as JSON text.
pub record IsAcceptable (c : Context) (req : PublishEventRequest) (payload : String) : Type 0 where
  pub tenant : req.tenant_id ≢ ""
  pub event_type : req.event_type ≢ ""
  pub text : String
  pub given : req.payload ≡ some text
  pub marshalled : c.marshal text ≡ ok payload

-- An acceptable request goes on to the event and the fan-out.
pub publish_event-eq :
    (c : Context) (req : PublishEventRequest) (payload : String) (w : World)
    → IsAcceptable c req payload
    → publish_event c req w ≡ (resolve_event c req payload >>= fan_out c req payload) w
unfolding publish_event ◌>>=◌
publish_event-eq c req payload w a =
    rw
      (
        eq_false req.tenant_id "" a.tenant,
        eq_false req.event_type "" a.event_type,
        a.given,
        a.marshalled,
      )
      refl

insert_event_once_taken :
    (now : ℕ) (tenant event_type payload key : String) (db : Db)
    → key_taken tenant key db.events ≡ true
    → insert_event_once now tenant event_type payload key db ≡ ok (0, db)
unfolding insert_event_once
insert_event_once_taken now tenant event_type payload key db h = rw h refl

resolve_duplicate :
    (c : Context) (req : PublishEventRequest) (payload : String) (w : World) (e : Event)
    → req.idempotency_key ≢ ""
    → event_by_key req.tenant_id req.idempotency_key w.db.events ≡ some e
    → 0 < count_deliveries e.id w.db
    → resolve_event c req payload (calm w) ≡ (ok (duplicate e.id), calm w)
unfolding resolve_event query run labelled ◌>>=◌
resolve_duplicate c req payload w e key found busy =
    let p = λ (x : Event).
      x.tenant_id == req.tenant_id && same_key req.idempotency_key x.idempotency_key in
    let taken = any_of_find p p w.db.events e found (find_holds p w.db.events e found) in
    rw
      (
        eq_false req.idempotency_key "" key,
        insert_event_once_taken c.now req.tenant_id req.event_type payload req.idempotency_key w.db
            taken,
        found,
      )
      (ground arith)

-- An acceptable publish under a key that is in use, whose event has deliveries, when every external
-- call succeeds, returns that event with a fan-out of 0 and changes nothing, whatever event type and
-- payload it carries.
pub publish_duplicate :
    (c : Context) (req : PublishEventRequest) (payload : String) (w : World) (e : Event)
    → IsAcceptable c req payload
    → req.idempotency_key ≢ ""
    → event_by_key req.tenant_id req.idempotency_key w.db.events ≡ some e
    → 0 < count_deliveries e.id w.db
    → publish_event c req (calm w) ≡ (ok (record { event_id = e.id; fanout_count = 0 }), calm w)
unfolding ◌>>=◌ fan_out
publish_duplicate c req payload w e a key found busy =
    rw
      (
        publish_event-eq c req payload (calm w) a,
        resolve_duplicate c req payload w e key found busy,
      )
      refl

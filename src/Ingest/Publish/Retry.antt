-- ===== src/Ingest/Publish/Retry.antt =====
-- A publish that failed while its tasks were being enqueued, and its retry.
use harbor_hook.Common.{
  ℕ, ◌<◌, String, List, [], ◌∷◌, some, ◌&&◌, ok, err, ◌≡◌, refl, ◌≢◌, ap, sym, subst, arith, ◌==◌,
  eq_refl, eq_false, inl, inr, find-snoc, filter-pos, filter, length,
}
use harbor_hook.Common.Exec.{◌>>=◌}
use harbor_hook.Store.{Event, Delivery, Db}
use harbor_hook.Store.Inserts.{insert_event_once, event_row}
use harbor_hook.Store.Effects.{insert_event_once-eq}
use harbor_hook.Store.Queries.{event_by_key, count_deliveries, same_key, subscribers}
use harbor_hook.World.{World, fine, refused, run, query, labelled, publish_task}
use harbor_hook.Ingest.{Context, PublishEventRequest}
use harbor_hook.Ingest.Publish.{
  insert_batch, send_batch, publish_targets, resolve_event, fan_out, publish_event,
}
use harbor_hook.Ingest.Publish.Idempotency.{calm, IsAcceptable, publish_event-eq, publish_duplicate}
use harbor_hook.Ingest.Publish.Fanout.{insert_batch-eq}
use Prim.Native.String.{◌++◌ as text_append}

-- The calls of the first attempt: everything succeeds until NSQ refuses the first task.
abbrev pub broken_publish : String → World → World
broken_publish m w = record w { outcomes = fine ∷ fine ∷ fine ∷ fine ∷ fine ∷ refused m ∷ [] }

new_event_by_key :
    (now : ℕ) (tenant event_type payload key : String) (db db' : Db)
    → insert_event_once now tenant event_type payload key db ≡ ok (1, db')
    → event_by_key tenant key db'.events
      ≡ some (event_row now (db.uuid db.drawn) tenant event_type payload (some key))
new_event_by_key now tenant event_type payload key db db' e =
    elim (insert_event_once-eq now db db' tenant event_type payload key 1 e) [
      | inl (one, _, _) ↦ absurd (omega arith)
      | inr (_, free, _, same) ↦
          subst
            (λ (v : Db).
              event_by_key tenant key v.events
              ≡ some (event_row now (db.uuid db.drawn) tenant event_type payload (some key)))
            (sym same)
            (find-snoc (λ (x : Event). x.tenant_id == tenant && same_key key x.idempotency_key)
              db.events (event_row now (db.uuid db.drawn) tenant event_type payload (some key)) free
              (rw (eq_refl tenant, eq_refl key) refl))
    ]

batch-busy :
    (now : ℕ) (id : String) (t : String × String) (targets : List (String × String)) (db db' : Db)
    → (insert_batch now id (t ∷ targets) db).1 ≡ some db'
    → (db'.events ≡ db.events) × (0 < count_deliveries id db')
unfolding count_deliveries
batch-busy now id t targets db db' e =
    let (_, same) = insert_batch-eq now id (t ∷ targets) db db' e in
    (
      ap (λ (x : Db). x.events) same,
      subst (λ (l : List Delivery). 0 < length (filter (λ d. d.event_id == id) l))
          (sym (ap (λ (x : Db). x.deliveries) same))
          (filter-pos (λ d. d.event_id == id) db.deliveries _ _ (eq_refl id)),
    )

module _ (c : Context) (req : PublishEventRequest) (payload m : String) (w : World) (db db' : Db)
    (t : String × String) (targets : List (String × String))
    (acceptable : IsAcceptable c req payload) (keyed : req.idempotency_key ≢ "")
    (inserted : insert_event_once c.now req.tenant_id req.event_type payload req.idempotency_key
        w.db
      ≡ ok (1, db))
    (subscribed : subscribers req.tenant_id req.event_type db ≡ t ∷ targets)
    (batched : (insert_batch c.now (w.db.uuid w.db.drawn) (t ∷ targets) db).1 ≡ some db') where
  first_attempt :
      publish_event c req (broken_publish m w)
      ≡ (err (text_append "nsq publish: " m), record (calm w) { db = db' })
  unfolding ◌>>=◌ resolve_event run labelled query fan_out send_batch publish_targets publish_task
  first_attempt =
      rw
        (
          publish_event-eq c req payload (broken_publish m w) acceptable,
          eq_false req.idempotency_key "" keyed,
          inserted,
          new_event_by_key c.now req.tenant_id req.event_type payload req.idempotency_key w.db db
              inserted,
          subscribed,
        )
        (rw ((insert_batch-eq c.now (w.db.uuid w.db.drawn) (t ∷ targets) db db' batched).0, batched)
          refl)

  -- The tasks of a publish that failed at its first task are lost. With a key, an event that is new
  -- and at least one subscriber, where the tables take the event and the batch and NSQ refuses the
  -- first task: the publish reports the error of NSQ; and its retry under the same key, when every
  -- external call succeeds, reports success with a fan-out of 0. Neither has enqueued a task, and
  -- the tables of the first attempt stay, with its queued deliveries.
  pub retry_enqueues_nothing :
      (c' : Context) (payload' : String)
      → IsAcceptable c' req payload'
      → (publish_event c req (broken_publish m w)
          ≡ (err (text_append "nsq publish: " m), record (calm w) { db = db' }))
        × (publish_event c' req (record (calm w) { db = db' }) ≡ (
          ok (record { event_id = w.db.uuid w.db.drawn; fanout_count = 0 }),
          record (calm w) { db = db' },
        ))
        × (0 < count_deliveries (w.db.uuid w.db.drawn) db')
  retry_enqueues_nothing c' payload' acceptable' =
      let (events, busy) = batch-busy c.now (w.db.uuid w.db.drawn) t targets db db' batched in
      let key = req.idempotency_key in
      let stored : event_by_key req.tenant_id key db'.events
          ≡ some (
              event_row c.now (w.db.uuid w.db.drawn) req.tenant_id req.event_type payload
                (some key)) =
        subst
          (λ (l : List Event).
            event_by_key req.tenant_id key l
            ≡ some (
                event_row c.now (w.db.uuid w.db.drawn) req.tenant_id req.event_type payload
                  (some key)))
          (sym events)
          (new_event_by_key c.now req.tenant_id req.event_type payload key w.db db inserted) in
      (
        first_attempt,
        publish_duplicate c' req payload' (record w { db = db' }) _ acceptable' keyed stored busy,
        busy,
      )

-- ===== src/Ingest/Publish/Fanout.antt =====
-- The fan-out of PublishEvent when every external call succeeds: one queued delivery and one task for
-- each subscriber, in the order of the query.
use mathlib.Core.List.{append_assoc, append-nil}
use native.Mathlib.Nat.{add-zero, zero-add}
use harbor_hook.Common.{
  ℕ, suc, ◌+◌, String, List, [], ◌∷◌, ◌++◌, none, some, Result, ok, err, ◌≡◌, refl, ap, ◌∙◌, arith,
  length, eq_iff,
}
use harbor_hook.Common.Exec.{◌>>=◌}
use harbor_hook.Store.{Delivery, Db}
use harbor_hook.Store.Inserts.{insert_delivery, insert_event, delivery_row}
use harbor_hook.Store.Effects.{insert_delivery-eq}
use harbor_hook.Store.Queries.{subscribers}
use harbor_hook.Delivery.{Task}
use harbor_hook.Metrics.{record_event_published}
use harbor_hook.World.{World, run, query, labelled, publish_task, observe}
use harbor_hook.Ingest.{Context, PublishEventRequest}
use harbor_hook.Ingest.Publish.{
  fresh, batch_step, insert_batch, send_batch, task_for, publish_targets, enqueue, resolve_event,
  fan_out, publish_event,
}
use harbor_hook.Ingest.Publish.Idempotency.{calm, IsAcceptable, publish_event-eq}

-- The rows, answers and tasks for the targets, when identifiers are drawn from the k-th on.
abbrev pub new_rows : ℕ → String → (ℕ → String) → ℕ → List (String × String) → List Delivery
new_rows now event_id uuid k [] = []
new_rows now event_id uuid k (t ∷ targets) =
    delivery_row now (uuid k) event_id t.0 none none ∷ new_rows now event_id uuid (k + 1) targets

abbrev pub new_answers : (ℕ → String) → ℕ → List (String × String) → List (Result String)
new_answers uuid k [] = []
new_answers uuid k (t ∷ targets) = ok (uuid k) ∷ new_answers uuid (k + 1) targets

abbrev pub new_tasks :
    Context
    → PublishEventRequest
    → String
    → String
    → (ℕ → String)
    → ℕ
    → List (String × String)
    → List Task
new_tasks c req payload event_id uuid k [] = []
new_tasks c req payload event_id uuid k (t ∷ targets) =
    task_for c req payload event_id t (uuid k)
    ∷ new_tasks c req payload event_id uuid (k + 1) targets

-- A batch that went through answered every insert and appended one row for each target.
pub insert_batch-eq :
    (now : ℕ) (id : String) (targets : List (String × String)) (db db' : Db)
    → (insert_batch now id targets db).1 ≡ some db'
    → ((insert_batch now id targets db).0 ≡ new_answers db.uuid db.drawn targets)
      × (db' ≡ record db {
        deliveries = db.deliveries ++ new_rows now id db.uuid db.drawn targets;
        drawn = db.drawn + length targets;
      })
unfolding insert_batch
insert_batch-eq now id [] db db' e = (refl, rw (append-nil db.deliveries, add-zero) (cc e))
insert_batch-eq now id (t ∷ targets) db db' e =
    go (insert_batch-eq now id targets) (insert_delivery now id t.0 none none db) refl e
  where
    go :
        ((v v' : Db)
          → (insert_batch now id targets v).1 ≡ some v'
          → ((insert_batch now id targets v).0 ≡ new_answers v.uuid v.drawn targets)
            × (v' ≡ record v {
              deliveries = v.deliveries ++ new_rows now id v.uuid v.drawn targets;
              drawn = v.drawn + length targets;
            }))
        → (r : Result (String × Db)) → insert_delivery now id t.0 none none db ≡ r
        → (batch_step r (insert_batch now id targets)).1 ≡ some db'
        → ((batch_step r (insert_batch now id targets)).0
            ≡ new_answers db.uuid db.drawn (t ∷ targets))
          × (db' ≡ record db {
            deliveries = db.deliveries ++ new_rows now id db.uuid db.drawn (t ∷ targets);
            drawn = db.drawn + length (t ∷ targets);
          })
    go ih (err m) made h = absurd (cc h)
    go ih (ok (new, v)) made h =
        let (drew, _, _, same) = insert_delivery-eq now db v id t.0 none none new made in
        let (answers, rows) = ih v db' h in
        (
          ap (λ (l : List (Result String)). ok new ∷ l) (answers ∙ ap answers_at same)
              ∙ ap (λ (x : String). ok x ∷ new_answers db.uuid (db.drawn + 1) targets) drew,
          rows ∙ ap more same ∙ (rw (drew, append_assoc, one_more) refl),
        )
      where
        answers_at : Db → List (Result String)
        answers_at x = new_answers x.uuid x.drawn targets

        more : Db → Db
        more x = record x {
          deliveries = x.deliveries ++ new_rows now id x.uuid x.drawn targets;
          drawn = x.drawn + length targets;
        }

        one_more : db.drawn + 1 + length targets ≡ db.drawn + suc (length targets)
        one_more = omega arith

-- The loop publishes one task for each target.
publish_targets-eq :
    (c : Context) (req : PublishEventRequest) (payload id : String) (uuid : ℕ → String) (k n : ℕ)
    (targets : List (String × String)) (w : World)
    → publish_targets c req payload id targets (new_answers uuid k targets) n (calm w) ≡ (
      ok (n + length targets),
      record (calm w) { queue = w.queue ++ new_tasks c req payload id uuid k targets },
    )
unfolding publish_targets ◌>>=◌ query run publish_task labelled
publish_targets-eq c req payload id uuid k n [] w = rw (append-nil w.queue, add-zero) refl
publish_targets-eq c req payload id uuid k n (t ∷ targets) w =
    publish_targets-eq c req payload id uuid (k + 1) (n + 1) targets
      (record w { queue = w.queue ++ task_for c req payload id t (uuid k) ∷ [] })
    ∙ (rw (append_assoc, one_more) refl)
  where
    one_more : n + 1 + length targets ≡ n + suc (length targets)
    one_more = omega arith

enqueue-eq :
    (c : Context) (req : PublishEventRequest) (payload id : String)
    (targets : List (String × String)) (w : World) (db : Db)
    → (insert_batch c.now id targets w.db).1 ≡ some db
    → enqueue c req payload id targets (calm w) ≡ (
      ok (length targets),
      record (calm w) {
        db = db;
        queue = w.queue ++ new_tasks c req payload id w.db.uuid w.db.drawn targets;
      },
    )
unfolding ◌>>=◌ send_batch
enqueue-eq c req payload id [] w db e =
    rw (append-nil w.queue) (ap (λ (d : Db). (ok 0, record (calm w) { db = d })) same)
  where
    same : w.db ≡ db
    same = unfold insert_batch in cc e
enqueue-eq c req payload id (t ∷ targets) w db e =
    rw ((insert_batch-eq c.now id (t ∷ targets) w.db db e).0, e)
      (publish_targets-eq c req payload id w.db.uuid w.db.drawn 0 (t ∷ targets)
          (record w { db = db })
        ∙ (rw zero-add refl))

fan_out-eq :
    (c : Context) (req : PublishEventRequest) (payload id : String) (w : World) (db : Db)
    → let targets = subscribers req.tenant_id req.event_type w.db in
      (insert_batch c.now id targets w.db).1 ≡ some db
      → fan_out c req payload (fresh id) (calm w) ≡ (
        ok (record { event_id = id; fanout_count = length targets }),
        record (calm w) {
          db = db;
          queue = w.queue ++ new_tasks c req payload id w.db.uuid w.db.drawn targets;
          metrics = record_event_published req.tenant_id w.metrics;
        },
      )
unfolding ◌>>=◌ fan_out query run observe
fan_out-eq c req payload id w db e =
    rw (enqueue-eq c req payload id (subscribers req.tenant_id req.event_type w.db) w db e) refl

-- A publish with no idempotency key, when every external call succeeds: it answers with the new
-- event and the number of its subscribers, appends one queued delivery for each of them, and
-- enqueues one task for each, in the order of the subscriber query, under the identifier of its
-- delivery.
pub publish_new :
    (c : Context) (req : PublishEventRequest) (payload id : String) (w : World) (db db' : Db)
    → IsAcceptable c req payload
    → req.idempotency_key ≡ ""
    → insert_event c.now req.tenant_id req.event_type payload w.db ≡ ok (id, db)
    → (insert_batch c.now id (subscribers req.tenant_id req.event_type db) db).1 ≡ some db'
    → let targets = subscribers req.tenant_id req.event_type db in
      (publish_event c req (calm w) ≡ (
        ok (record { event_id = id; fanout_count = length targets }),
        record (calm w) {
          db = db';
          queue = w.queue ++ new_tasks c req payload id db.uuid db.drawn targets;
          metrics = record_event_published req.tenant_id w.metrics;
        },
      ))
      × (db'.deliveries ≡ db.deliveries ++ new_rows c.now id db.uuid db.drawn targets)
unfolding ◌>>=◌ resolve_event run labelled
publish_new c req payload id w db db' a key inserted batch = (
  rw (publish_event-eq c req payload (calm w) a, (eq_iff req.idempotency_key "").1 key, inserted)
      (fan_out-eq c req payload id (record w { db = db }) db' batch),
  ap (λ (x : Db). x.deliveries)
      (insert_batch-eq c.now id (subscribers req.tenant_id req.event_type db) db db' batch).1,
)

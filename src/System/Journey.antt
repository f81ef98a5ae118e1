-- ===== src/System/Journey.antt =====
-- An event on its way from internal/ingest/service.go to cmd/worker/main.go: what a publish wrote is what the
-- handling of its tasks finds.
use harbor_hook.Common.{
  ℕ, suc, ◌+◌, String, List, [], ◌∷◌, ◌++◌, length, Option, none, some, true, ◌==◌, Result, ok, err,
  ◌≡◌, ◌≢◌, refl, sym, subst, ap, ◌∙◌, arith, find-snoc, find-append, eq_refl,
}
use harbor_hook.Store.{Delivery, Db}
use harbor_hook.Store.Inserts.{insert_delivery, insert_event, delivery_row}
use harbor_hook.Store.Effects.{insert_delivery-eq}
use harbor_hook.Store.Queries.{delivery_at, subscribers, endpoint_secret}
use harbor_hook.Delivery.{Task}
use harbor_hook.World.{World}
use harbor_hook.Ingest.{Context, PublishEventRequest}
use harbor_hook.Ingest.Publish.{batch_step, insert_batch, task_for, publish_event}
use harbor_hook.Ingest.Publish.Idempotency.{calm, IsAcceptable}
use harbor_hook.Ingest.Publish.Fanout.{new_rows, new_tasks, insert_batch-eq, publish_new}
use harbor_hook.Worker.{Surroundings, status_of, succeeded}
use harbor_hook.Worker.Tracking.{Frame, Tracked}
use harbor_hook.Worker.Outcomes.{HasAttempt, IsDelivered, answered}
use harbor_hook.Worker.Verdicts.{FinishedWith, delivers}

step-eq-some :
    (r : Result (String × Db)) (rest : Db → List (Result String) × Option Db) (db' : Db)
    → (batch_step r rest).1 ≡ some db'
    → (new : String) × (v : Db) × (r ≡ ok (new, v)) × ((rest v).1 ≡ some db')
step-eq-some (err e) rest db' h = absurd (cc h)
step-eq-some (ok (new, v)) rest db' h = (new, v, refl, h)

module _ (now : ℕ) (id : String) where
  -- The first delivery with the identifier is the new row for the target.
  abbrev Found : (String × String) → String → Db → Type 0
  Found t i db' = delivery_at i db'.deliveries ≡ some (delivery_row now i id t.0 none none)

  -- The row of each target of a batch is the first one with its identifier.
  insert_batch-Found :
      (before : List (String × String)) (t : String × String) (after : List (String × String))
      (db db' : Db)
      → (insert_batch now id (before ++ t ∷ after) db).1 ≡ some db'
      → Found t (db.uuid (db.drawn + length before)) db'
  unfolding insert_batch
  insert_batch-Found [] t after db db' h =
      let (new, v, made, rest) =
        step-eq-some (insert_delivery now id t.0 none none db) (insert_batch now id after) db' h in
      let (drew, unused, _, same) = insert_delivery-eq now db v id t.0 none none new made in
      let (_, rows) = insert_batch-eq now id after v db' rest in
      let row = delivery_row now new id t.0 none none in
      let p = λ (d : Delivery). d.id == new in
      let first = find-snoc p db.deliveries row unused (eq_refl new) in
      let still =
        find-append p (db.deliveries ++ row ∷ []) (new_rows now id v.uuid v.drawn after) row
          first in
      let there : Found t new db' =
        ap (λ (x : Db). delivery_at new x.deliveries) rows
        ∙ (ap (λ (x : Db). delivery_at new (x.deliveries ++ new_rows now id v.uuid v.drawn after))
              same
            ∙ still) in
      let place : db.drawn + 0 ≡ db.drawn = omega arith in
      subst (λ i. Found t i db') (drew ∙ ap db.uuid (sym place)) there
  insert_batch-Found (b ∷ before) t after db db' h =
      let (new, v, made, rest) =
        step-eq-some (insert_delivery now id b.0 none none db)
          (insert_batch now id (before ++ t ∷ after)) db' h in
      let (drew, unused, _, same) = insert_delivery-eq now db v id b.0 none none new made in
      let place : db.drawn + 1 + length before ≡ db.drawn + suc (length before) = omega arith in
      subst (λ i. Found t i db')
        (ap (λ (x : Db). x.uuid (x.drawn + length before)) same ∙ ap db.uuid place)
        (insert_batch-Found before t after v db' rest)

-- the tasks of the targets around one of them
new_tasks-split :
    (c : Context) (req : PublishEventRequest) (payload id : String) (uuid : ℕ → String) (k : ℕ)
    (before : List (String × String)) (t : String × String) (after : List (String × String))
    → (first : List Task) × (rest : List Task) × (new_tasks c req payload id uuid k
          (before ++ t ∷ after)
        ≡ first ++ task_for c req payload id t (uuid (k + length before)) ∷ rest)
new_tasks-split c req payload id uuid k [] t after =
    let place : k + 0 ≡ k = omega arith in
    ([], new_tasks c req payload id uuid (k + 1) after, rw place refl)
new_tasks-split c req payload id uuid k (b ∷ before) t after =
    let (first, rest, same) = new_tasks-split c req payload id uuid (k + 1) before t after in
    let place : k + 1 + length before ≡ k + suc (length before) = omega arith in
    (
      task_for c req payload id b (uuid k) ∷ first,
      rest,
      ap (λ l. task_for c req payload id b (uuid k) ∷ l) same
          ∙ ap
              (λ i.
                task_for c req payload id b (uuid k)
                ∷ (first ++ task_for c req payload id t (uuid i) ∷ rest))
              place,
    )

-- the frame of the row of a target in the tables behind a publish
abbrev pub frame_of : String × String → String → World → Db → Frame
frame_of target secret w db = record {
  endpoint_id = target.0;
  secret = some (some secret);
  dlq = db.dlq;
  topic = w.dlq_topic;
  uuid = db.uuid;
  drawn = db.drawn;
}

module _ (c : Context) (req : PublishEventRequest) (payload id : String) (w : World)
    (db db' : Db) where
  -- the task of a target that stands behind others
  abbrev pub task_of : List (String × String) → String × String → Task
  task_of before target = task_for c req payload id target (db.uuid (db.drawn + length before))

  -- the world that the publish leaves
  abbrev pub published : World
  published = (publish_event c req (calm w)).1

  module _ {F : Type 0} where
    -- What a publish writes is what a worker needs. A publish with no idempotency key, when every
    -- external call succeeds, enqueues a task for each target of its event; and where the endpoint
    -- of a target has a secret that is not empty, its URL makes a request, and the worker's signed
    -- request is answered with a 2xx status, the handling of that target's task, on what the publish
    -- left and when no call fails, finishes the message with the target's delivery delivered after
    -- one attempt.
    pub published_delivers :
        (before : List (String × String)) (target : String × String)
        (after : List (String × String)) (s : Surroundings F) (secret : String)
        → IsAcceptable c req payload
        → req.idempotency_key ≡ ""
        → insert_event c.now req.tenant_id req.event_type payload w.db ≡ ok (id, db)
        → subscribers req.tenant_id req.event_type db ≡ before ++ target ∷ after
        → (insert_batch c.now id (before ++ target ∷ after) db).1 ≡ some db'
        → endpoint_secret target.0 db ≡ some (some secret)
        → secret ≢ ""
        → s.takes_url target.1 ≡ true
        → succeeded (answered s (task_of before target) secret) ≡ true
        → ((first : List Task) × (rest : List Task) × (published.queue
              ≡ w.queue ++ (first ++ task_of before target ∷ rest)))
          × FinishedWith s
              (task_of before target)
              (frame_of target secret w db')
              (IsDelivered 1 (status_of (answered s (task_of before target) secret)))
              published
    unfolding endpoint_secret
    published_delivers before target after s secret a key inserted wanted batch known given takes
          good =
        let batched : (insert_batch c.now id (subscribers req.tenant_id req.event_type db) db).1
            ≡ some db' =
          subst (λ ts. (insert_batch c.now id ts db).1 ≡ some db') (sym wanted) batch in
        let left = ap (λ p. p.1) (publish_new c req payload id w db db' a key inserted batched).0 in
        let (first, rest, split) =
          new_tasks-split c req payload id db.uuid db.drawn before target after in
        let tasks = ap (new_tasks c req payload id db.uuid db.drawn) wanted ∙ split in
        let queued : published.queue ≡ w.queue ++ (first ++ task_of before target ∷ rest) =
          ap (λ (x : World). x.queue) left ∙ ap (λ ts. w.queue ++ ts) tasks in
        let same = (insert_batch-eq c.now id (before ++ target ∷ after) db db' batch).1 in
        let task = task_of before target in
        let frame = frame_of target secret w db' in
        let there : Tracked task.delivery_id frame (HasAttempt 0) published =
          subst (Tracked task.delivery_id frame (HasAttempt 0)) (sym left) (record {
            calm = refl;
            row = delivery_row c.now task.delivery_id id target.0 none none;
            found = insert_batch-Found c.now id before target after db db' batch;
            holds = refl;
            secret = ap (λ (x : Db). endpoint_secret target.0 x) same ∙ known;
            dlq = refl;
            topic = refl;
            uuid = refl;
            drawn = refl;
          }) in
        (
          (first, rest, queued),
          delivers s task frame secret 0 refl refl given takes published good there,
        )

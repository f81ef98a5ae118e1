-- ===== src/Ingest/Publish.antt =====
-- PublishEvent of internal/ingest/service.go.
pub mod Idempotency
pub mod Fanout
pub mod Retry
use Prim.Native.String.{◌++◌ as text_append}
use harbor_hook.Common.{
  ℕ, ◌+◌, String, List, [], ◌∷◌, Option, none, some, ◌||◌, ◌==◌, Result, ok, err, eqb, ltb,
  if◌then◌else◌,
}
use harbor_hook.Common.Exec.{Exec, pure, raise, branch, ◌>>=◌, ◌>>◌}
use harbor_hook.Store.{Db, Event}
use harbor_hook.Store.Inserts.{insert_event_once, insert_event, insert_delivery}
use harbor_hook.Store.Queries.{event_by_key, count_deliveries, subscribers}
use harbor_hook.Delivery.{Task}
use harbor_hook.Metrics.{record_event_published}
use harbor_hook.World.{
  Outcome, fine, refused, lost, World, first, spent, run, query, publish_task, observe, labelled,
}
use harbor_hook.Ingest.{Context, PublishEventRequest, PublishEventReply}

-- A publish that found deliveries of its event, or the event that is to be fanned out.
pub data Resolved : Type 0 where
  duplicate fresh : String → Resolved

abbrev pub found_id : Option Event → Result String
found_id none = err "no rows in result set"
found_id (some e) = ok e.id

-- An insert that did nothing is a duplicate if the event has deliveries.
unfoldable pub check_duplicate : ℕ → String → Exec World Resolved
check_duplicate affected id =
    branch (eqb affected 0)
      (do
        n ← labelled "count existing deliveries: " (query λ db. ok (count_deliveries id db))
        pure (if ltb 0 n then duplicate id else fresh id))
      (pure (fresh id))

-- No key: every publish makes a new event.
abbrev pub resolve_new : Context → PublishEventRequest → String → Exec World Resolved
resolve_new c req payload = do
  id ←
      labelled "insert events (no-idem): "
        (run (insert_event c.now req.tenant_id req.event_type payload))
  pure (fresh id)

-- Insert or ignore, fetch the identifier, look for deliveries if nothing was inserted.
abbrev pub resolve_once : Context → PublishEventRequest → String → Exec World Resolved
resolve_once c req payload = do
  affected ←
      labelled "insert events (idempotent): "
        (run (insert_event_once c.now req.tenant_id req.event_type payload req.idempotency_key))
  id ←
      labelled "select event id (idempotent): "
        (query λ db. found_id (event_by_key req.tenant_id req.idempotency_key db.events))
  check_duplicate affected id

-- the part of PublishEvent that inserts the event
unfoldable pub resolve_event : Context → PublishEventRequest → String → Exec World Resolved
unfolding check_duplicate
resolve_event c req payload =
    branch (req.idempotency_key == "") (resolve_new c req payload) (resolve_once c req payload)

abbrev pub batch_step :
    Result (String × Db)
    → (Db → List (Result String) × Option Db)
    → List (Result String) × Option Db
batch_step (err e) rest = (err e ∷ [], none)
batch_step (ok (id, db)) rest = let (answers, tables) = rest db in (ok id ∷ answers, tables)

-- The inserts of a batch run in one implicit transaction: the answers up to the first failure, and
-- the tables if there was none.
unfoldable pub insert_batch :
    ℕ → String → List (String × String) → Db → List (Result String) × Option Db
insert_batch now event_id [] db = ([], some db)
insert_batch now event_id (t ∷ targets) db =
    batch_step (insert_delivery now event_id t.0 none none db) (insert_batch now event_id targets)

abbrev pub or_same : World → Option Db → World
or_same w none = w
or_same w (some db) = record w { db = db }

abbrev pub sent_batch :
    Outcome → World → List (Result String) × Option Db → Result (List (Result String)) × World
sent_batch fine w (answers, tables) = (ok answers, or_same w tables)
sent_batch (refused e) w (answers, tables) = (ok (err e ∷ []), w)
sent_batch (lost e) w (answers, tables) = (ok (err e ∷ []), or_same w tables)

-- pool.SendBatch: what the reads will see
unfoldable pub send_batch : ℕ → String → List (String × String) → Exec World (List (Result String))
send_batch now event_id targets w =
    sent_batch (first w.outcomes) (spent w) (insert_batch now event_id targets (spent w).db)

abbrev pub head_answer : List (Result String) → Result String
head_answer [] = err "no result"
head_answer (r ∷ rs) = r

abbrev pub later_answers : List (Result String) → List (Result String)
later_answers [] = []
later_answers (r ∷ rs) = rs

-- br.QueryRow().Scan(&deliveryID)
abbrev pub read_answer : List (Result String) → Exec World String
read_answer answers = query λ db. head_answer answers

abbrev pub task_for :
    Context → PublishEventRequest → String → String → String × String → String → Task
task_for c req payload event_id target delivery_id = record {
  delivery_id = delivery_id;
  event_id = event_id;
  tenant_id = req.tenant_id;
  endpoint_id = target.0;
  endpoint_url = target.1;
  event_type = req.event_type;
  payload = payload;
  attempt = 0;
  published_at = c.stamp;
  trace_headers = c.trace_headers;
}

-- the loop over the targets; `fanout` counts the published tasks
unfoldable pub publish_targets :
    Context
    → PublishEventRequest
    → String
    → String
    → List (String × String)
    → List (Result String)
    → ℕ
    → Exec World ℕ
publish_targets c req payload event_id [] answers fanout = pure fanout
publish_targets c req payload event_id (t ∷ targets) answers fanout = do
  delivery_id ← read_answer answers
  labelled "nsq publish: " (publish_task (task_for c req payload event_id t delivery_id))
  publish_targets c req payload event_id targets (later_answers answers) (fanout + 1)

-- no batch is sent for no targets
abbrev pub enqueue :
    Context → PublishEventRequest → String → String → List (String × String) → Exec World ℕ
enqueue c req payload event_id [] = pure 0
enqueue c req payload event_id (t ∷ targets) = do
  answers ← send_batch c.now event_id (t ∷ targets)
  publish_targets c req payload event_id (t ∷ targets) answers 0

unfoldable pub fan_out :
    Context → PublishEventRequest → String → Resolved → Exec World PublishEventReply
unfolding send_batch publish_targets
fan_out c req payload (duplicate id) = pure (record { event_id = id; fanout_count = 0 })
fan_out c req payload (fresh id) = do
  targets ← query (λ db. ok (subscribers req.tenant_id req.event_type db))
  fanout ← enqueue c req payload id targets
  observe (record_event_published req.tenant_id)
  pure (record { event_id = id; fanout_count = fanout })

abbrev pub with_payload :
    Context → PublishEventRequest → Result String → Exec World PublishEventReply
with_payload c req (err e) = raise (text_append "invalid payload: " e)
with_payload c req (ok payload) = do
  resolved ← resolve_event c req payload
  fan_out c req payload resolved

abbrev pub present : Context → PublishEventRequest → Option String → Exec World PublishEventReply
present c req none = raise "tenant_id, event_type, and payload are required"
present c req (some payload) = with_payload c req (c.marshal payload)

unfoldable pub publish_event : Context → PublishEventRequest → Exec World PublishEventReply
unfolding resolve_event fan_out
publish_event c req =
    branch (req.tenant_id == "" || req.event_type == "")
      (raise "tenant_id, event_type, and payload are required") (present c req req.payload)

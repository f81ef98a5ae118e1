-- ===== src/Worker/Isolation.antt =====
-- `Isolated` under the handler of cmd/worker/main.go.
use harbor_hook.Common.{
  ℕ, ◌+◌, ◌++◌, any, String, Option, none, some, List, [], ◌∷◌, Bool, true, false, ◌==◌, Result, ok,
  err, ◌≡◌, refl, sym, ◌∙◌, subst, inl, inr, All, All-find, if◌then◌else◌,
}
use harbor_hook.Common.Exec.{Exec, pure, ◌>>=◌}
use harbor_hook.Store.{Delivery, DlqEntry, Db}
use harbor_hook.Store.Inserts.{insert_dlq}
use harbor_hook.Store.Updates.{update_delivery, replace}
use harbor_hook.Store.Rows.{update_delivery-eq_ok}
use harbor_hook.Delivery.{Task}
use harbor_hook.Metrics.{Metrics}
use harbor_hook.World.{World, run, query, observe, attempted}
use harbor_hook.World.Invariants.{
  Kept, Ensures, Ensures-run, Ensures-query, Ensures-pure, Ensures-branch, Ensures-bind,
  Ensures-observe, Ensures-attempted, Ensures-publish_dead,
}
use harbor_hook.Ingest.Isolation.{Owns, EventOf, DeliveryOwned, Isolated}
use harbor_hook.Worker.{Request, Surroundings, Answer, Response, status_of, err_string}
use harbor_hook.Worker.Statements.{
  inflight_row, secretless_row, sent_row, delivered_row, failed_row, dead_row,
}
use harbor_hook.Worker.Handler.{
  usable, sign_request, send_request, with_secret, handle_task, bad_payload, attempt_or, on_success,
  on_failure, after_failure, dead_letter, requeue, deliver, without_secret, handle,
}

abbrev Anything : World → Type 0
Anything w = Unit {0}

abbrev Whatever : {A : Type 0} → A → World → Type 0
Whatever a w = Unit {0}

All-replace :
    (P : Delivery → Type 0) (id : String) (new : Delivery) (ds : List Delivery)
    → P new
    → All P ds
    → All P (replace id new ds)
All-replace P id new [] h all = tt
All-replace P id new (d ∷ ds) h (here, rest) = go (d.id == id) (All-replace P id new ds h rest)
  where
    go :
        (b : Bool)
        → All P (replace id new ds)
        → All P (if b then new ∷ ds else d ∷ replace id new ds)
    go true later = (h, rest)
    go false later = (here, later)

module _ (now : ℕ) (id : String) (set : Delivery → Delivery)
    (event_id : (d : Delivery) → (set d).event_id ≡ d.event_id)
    (endpoint_id : (d : Delivery) → (set d).endpoint_id ≡ d.endpoint_id) where
  update_delivery-Isolated :
      (db db' : Db) (queue : List Task)
      → Isolated db queue
      → update_delivery now id set db ≡ ok (tt, db')
      → Isolated db' queue
  update_delivery-Isolated db db' queue i e = elim (update_delivery-eq_ok now id set db db' e) [
    | inl same ↦ subst (λ (v : Db). Isolated v queue) (sym same) i
    | inr (d, new, found, alike, same) ↦
        let (tenant, event, endpoint) =
          All-find (DeliveryOwned db.endpoints db.events) (λ x. x.id == id) db.deliveries d
            i.deliveries found in
        let owned : DeliveryOwned db.endpoints db.events new = (
          tenant,
          subst (λ x. EventOf db.events tenant x) (sym (alike.event_id ∙ event_id d)) event,
          subst (λ x. Owns db.endpoints tenant x) (sym (alike.endpoint_id ∙ endpoint_id d))
              endpoint,
        ) in
        subst (λ (v : Db). Isolated v queue) (sym same)
          (record {
            event_ids = i.event_ids;
            subscriptions = i.subscriptions;
            deliveries =
                All-replace (DeliveryOwned db.endpoints db.events) id new db.deliveries owned
                  i.deliveries;
            tasks = i.tasks;
          })
  ]

  updates : Ensures Isolated Anything (attempted (run (update_delivery now id set))) Whatever
  updates = Ensures-attempted Isolated Anything _ (
      Ensures-run Isolated Anything Whatever _
        λ w a db i _ e. (update_delivery-Isolated w.db db w.queue i e, tt))

bury-Isolated :
    (now : ℕ) (id reason : String) (db db' : Db) (queue : List Task)
    → Isolated db queue
    → insert_dlq now id reason db ≡ ok (tt, db')
    → Isolated db' queue
unfolding insert_dlq
bury-Isolated now id reason db db' queue i e =
    go (any (λ q. q.id == db.uuid db.drawn) db.dlq) (any (λ d. d.id == id) db.deliveries) e
  where
    row : DlqEntry
    row = record { id = db.uuid db.drawn; delivery_id = id; reason = reason; created_at = now }

    go :
        (a b : Bool)
        → Path
            (Result (Unit {0} × Db))
            (if a
              then err "duplicate key: dlq_pkey"
              else if b
              then ok (tt, record db { dlq = db.dlq ++ row ∷ []; drawn = db.drawn + 1 })
              else err "foreign key: dlq_delivery_id_fkey")
            (ok (tt, db'))
        → Isolated db' queue
    go true b k = absurd (cc k)
    go false false k = absurd (cc k)
    go false true k =
        let same : record db { dlq = db.dlq ++ row ∷ []; drawn = db.drawn + 1 } ≡ db' = cc k in
        subst (λ (v : Db). Isolated v queue) same
          (record {
            event_ids = i.event_ids;
            subscriptions = i.subscriptions;
            deliveries = i.deliveries;
            tasks = i.tasks;
          })

module _ {F : Type 0} (s : Surroundings F) (t : Task) where
  abbrev Keeps : {A : Type 0} → Exec World A → Type 0
  Keeps m = Ensures Isolated Anything m Whatever

  then-Keeps :
      {A B : Type 0} (m : Exec World A) (f : A → Exec World B)
      → Keeps m
      → ((a : A) → Keeps (f a))
      → Keeps (m >>= f)
  then-Keeps m f km kf = Ensures-bind Isolated Anything Whatever Whatever m f km kf

  pure-Keeps : {A : Type 0} (a : A) → Keeps (pure a)
  pure-Keeps a = Ensures-pure Isolated Anything Whatever a λ w p. tt

  read-Keeps : {A : Type 0} (read : Db → Result A) → Keeps (attempted (query read))
  read-Keeps read =
      Ensures-attempted Isolated Anything _
        (Ensures-query Isolated Anything Whatever read λ w a i p e. tt)

  measure-Keeps : (f : Metrics → Metrics) → Keeps (observe f)
  measure-Keeps f = Ensures-observe Isolated Anything f

  without_secret-Isolated : Keeps (without_secret s t)
  unfolding without_secret
  without_secret-Isolated =
      then-Keeps _ _ (updates s.now t.delivery_id (secretless_row s.now) (λ d. refl) (λ d. refl))
        λ _. then-Keeps _ _ (measure-Keeps _) λ _. pure-Keeps _

  on_success-Isolated : (a : Answer) → Keeps (on_success s t a)
  unfolding on_success
  on_success-Isolated a =
      then-Keeps _ _
        (updates s.now t.delivery_id (delivered_row s.now (status_of a) s.latency) (λ d. refl)
          (λ d. refl))
        λ _.
          then-Keeps _ _ (measure-Keeps _) λ _. then-Keeps _ _ (measure-Keeps _) λ _. pure-Keeps _

  dead_letter-Isolated : (a : Answer) (n : ℕ) → Keeps (dead_letter s t a n)
  unfolding dead_letter
  dead_letter-Isolated a n =
      then-Keeps _ _
        (Ensures-attempted Isolated Anything _ (
          Ensures-run Isolated Anything Whatever _
            λ w x db i _ e. (bury-Isolated s.now t.delivery_id _ w.db db w.queue i e, tt)))
        λ _. then-Keeps _ _ (updates s.now t.delivery_id dead_row (λ d. refl) (λ d. refl)) λ _.
          then-Keeps _ _
            (Ensures-branch Isolated Anything Whatever _ _ _
              (λ _.
                Ensures-attempted Isolated Anything _ (Ensures-publish_dead Isolated Anything _))
              λ _. pure-Keeps _)
            λ _. then-Keeps _ _ (measure-Keeps _) λ _. pure-Keeps _

  on_failure-Isolated : (a : Answer) → Keeps (on_failure s t a)
  unfolding on_failure after_failure requeue
  on_failure-Isolated a =
      then-Keeps _ _
        (updates s.now t.delivery_id (failed_row s.now (status_of a) s.latency (err_string a))
          (λ d. refl) (λ d. refl))
        λ _. then-Keeps _ _ (read-Keeps _) λ r. then-Keeps _ _ (measure-Keeps _) λ _.
          then-Keeps _ _ (measure-Keeps _) λ _.
            then-Keeps _ _
              (Ensures-branch Isolated Anything Whatever _ _ _ (λ _. measure-Keeps _)
                λ _. pure-Keeps _)
              λ _.
                Ensures-branch Isolated Anything Whatever _ _ _
                  (λ _. dead_letter-Isolated a (attempt_or s.settings.max_attempts r))
                  λ _. pure-Keeps _

  send_request-Isolated : (o : Option Request) → Keeps (send_request s t o)
  unfolding send_request
  send_request-Isolated none = pure-Keeps _
  send_request-Isolated (some r) =
      then-Keeps _ _ (updates s.now t.delivery_id (sent_row s.now) (λ d. refl) (λ d. refl)) λ _.
        Ensures-branch Isolated Anything Whatever _ _ _ (λ _. on_success-Isolated (s.send r))
          λ _. on_failure-Isolated (s.send r)

  with_secret-Isolated : (secret : Option String) → Keeps (with_secret s t secret)
  unfolding deliver
  with_secret-Isolated none = without_secret-Isolated
  with_secret-Isolated (some secret) = send_request-Isolated (sign_request s t secret)

  handle_task-Isolated : Keeps (handle_task s t)
  unfolding handle_task
  handle_task-Isolated =
      then-Keeps _ _ (updates s.now t.delivery_id (inflight_row s.now) (λ d. refl) (λ d. refl))
        λ _. then-Keeps _ _ (read-Keeps _) λ r. with_secret-Isolated (usable r)

pub handle-Isolated :
    {F : Type 0} (s : Surroundings F) (body : Result Task) (w : World)
    → Isolated w.db w.queue
    → Isolated (handle s body w).1.db (handle s body w).1.queue
unfolding handle bad_payload observe pure ◌>>=◌
handle-Isolated s (err e) w i = i
handle-Isolated s (ok t) w i = go (handle_task s t w) ((handle_task-Isolated s t).at w i tt)
  where
    go : (r : Result Response × World) → Kept Isolated Whatever r → Isolated r.1.db r.1.queue
    go (ok a, v) (k, _) = k
    go (err e, v) k = k

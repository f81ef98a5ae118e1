-- ===== src/Ingest/Isolation/Fanout.antt =====
-- `Isolated` under PublishEvent of internal/ingest/service.go.
use harbor_hook.Common.{
  ℕ, ◌+◌, String, List, [], ◌∷◌, Option, none, some, Bool, true, false, Result, ok, err, ◌≡◌, refl,
  subst, sym, ◌∙◌, arith, ◌==◌, eq_iff, All, find_holds, filter, if◌then◌else◌,
}
use harbor_hook.Store.{Endpoint, Subscription, Event, Db}
use harbor_hook.Store.Inserts.{insert_delivery}
use harbor_hook.Store.Queries.{endpoint_at, is_for, join_endpoint, join_endpoints, subscribers}
use harbor_hook.Delivery.{Task}
use harbor_hook.World.{World, Outcome, fine, refused, lost, first, spent}
use harbor_hook.World.Invariants.{
  Kept, Ensures, Ensures-query, Ensures-pure, Ensures-bind, Ensures-labelled, Ensures-publish,
  Ensures-observe,
}
use harbor_hook.Ingest.{Context, PublishEventRequest}
use harbor_hook.Ingest.Publish.{
  fresh, batch_step, insert_batch, or_same, sent_batch, send_batch, later_answers, publish_targets,
  enqueue, fan_out,
}
use harbor_hook.Ingest.Isolation.{Owns, EventOf, SubscriptionOwned, Isolated}
use harbor_hook.Ingest.Isolation.Statements.{insert_delivery-Isolated, add_task}
use harbor_hook.Ingest.Isolation.Handlers.{Anything}

-- A row of the subscriber query: an endpoint of the tenant, with its URL.
abbrev TargetOwned : List Endpoint → String → String × String → Type 0
TargetOwned eps tenant t =
    (e : Endpoint) × (endpoint_at t.0 eps ≡ some e) × (e.tenant_id ≡ tenant) × (e.url ≡ t.1)

join_endpoint-owned :
    (eps : List Endpoint) (tenant id : String) (rest : List (String × String))
    → Owns eps tenant id
    → All (TargetOwned eps tenant) rest
    → All (TargetOwned eps tenant) (join_endpoint (endpoint_at id eps) rest)
join_endpoint-owned eps tenant id rest (e, found, same) h =
    let here : e.id ≡ id =
      (eq_iff e.id id).0 (find_holds (λ (x : Endpoint). x.id == id) eps e found) in
    subst (λ (o : Option Endpoint). All (TargetOwned eps tenant) (join_endpoint o rest)) (sym found)
      ((e, subst (λ (k : String). endpoint_at k eps ≡ some e) (sym here) found, same, refl), h)

join_endpoints-owned :
    (eps : List Endpoint) (tenant event_type : String) (subs : List Subscription)
    → All (SubscriptionOwned eps) subs
    → All (TargetOwned eps tenant) (join_endpoints eps (filter (is_for tenant event_type) subs))
unfolding join_endpoints
join_endpoints-owned eps tenant event_type [] h = tt
join_endpoints-owned eps tenant event_type (s ∷ subs) (o, h) =
    go (join_endpoints-owned eps tenant event_type subs h) (is_for tenant event_type s) refl
  where
    go :
        All (TargetOwned eps tenant) (join_endpoints eps (filter (is_for tenant event_type) subs))
        → (b : Bool) → is_for tenant event_type s ≡ b
        → All (TargetOwned eps tenant) (
            join_endpoints eps (
              if b
              then s ∷ filter (is_for tenant event_type) subs
              else filter (is_for tenant event_type) subs))
    go rest true e =
        let same : s.tenant_id ≡ tenant = ground (arith, eq_iff s.tenant_id tenant) in
        join_endpoint-owned eps tenant s.endpoint_id _
          (subst (λ (t : String). Owns eps t s.endpoint_id) same o) rest
    go rest false e = rest

-- The event, and the targets that were read for it.
abbrev Targets : PublishEventRequest → String → List (String × String) → Db → Type 0
Targets req id targets db =
    EventOf db.events req.tenant_id id × All (TargetOwned db.endpoints req.tenant_id) targets

insert_batch-Isolated :
    (now : ℕ) (req : PublishEventRequest) (id : String) (targets : List (String × String)) (db : Db)
    (queue : List Task) (db' : Db)
    → Isolated db queue
    → Targets req id targets db
    → (insert_batch now id targets db).1 ≡ some db'
    → Isolated db' queue × (db'.endpoints ≡ db.endpoints) × (db'.events ≡ db.events)
unfolding insert_batch
insert_batch-Isolated now req id [] db queue db' i t e =
    subst (λ (v : Db). Isolated v queue × (v.endpoints ≡ db.endpoints) × (v.events ≡ db.events))
      (cc e) (i, refl, refl)
insert_batch-Isolated now req id (t ∷ targets) db queue db' i (ev, ((x, found, same, url), os)) e =
    go (insert_batch-Isolated now req id targets) (insert_delivery now id t.0 none none db) refl e
  where
    go :
        ((v : Db) (q : List Task) (v' : Db)
          → Isolated v q
          → Targets req id targets v
          → (insert_batch now id targets v).1 ≡ some v'
          → Isolated v' q × (v'.endpoints ≡ v.endpoints) × (v'.events ≡ v.events))
        → (r : Result (String × Db)) → insert_delivery now id t.0 none none db ≡ r
        → (batch_step r (insert_batch now id targets)).1 ≡ some db'
        → Isolated db' queue × (db'.endpoints ≡ db.endpoints) × (db'.events ≡ db.events)
    go ih (err m) made h = absurd (cc h)
    go ih (ok (new, v)) made h =
        let (j, eps, evs) =
          insert_delivery-Isolated db queue i now id t.0 req.tenant_id none none new v ev
            (x, found, same) made in
        let known : Targets req id targets v = (
          subst (λ (l : List Event). EventOf l req.tenant_id id) (sym evs) ev,
          subst (λ (l : List Endpoint). All (TargetOwned l req.tenant_id) targets) (sym eps) os,
        ) in
        let (k, eps', evs') = ih v queue db' j known h in (k, eps' ∙ eps, evs' ∙ evs)

or_same-Isolated :
    (now : ℕ) (req : PublishEventRequest) (id : String) (targets : List (String × String))
    (w : World) (tables : Option Db)
    → Isolated w.db w.queue
    → Targets req id targets w.db
    → (insert_batch now id targets w.db).1 ≡ tables
    → Isolated (or_same w tables).db (or_same w tables).queue
      × Targets req id targets (or_same w tables).db
or_same-Isolated now req id targets w none i t e = (i, t)
or_same-Isolated now req id targets w (some db) i (ev, os) e =
    let (j, eps, evs) = insert_batch-Isolated now req id targets w.db w.queue db i (ev, os) e in
    (
      j,
      (
        subst (λ (l : List Event). EventOf l req.tenant_id id) (sym evs) ev,
        subst (λ (l : List Endpoint). All (TargetOwned l req.tenant_id) targets) (sym eps) os,
      ),
    )

send_batch-Isolated :
    (now : ℕ) (req : PublishEventRequest) (id : String) (targets : List (String × String))
    → Ensures Isolated
        (λ w. Targets req id targets w.db)
        (send_batch now id targets)
        (λ _ w. Targets req id targets w.db)
unfolding send_batch
send_batch-Isolated now req id targets = record {
  at = λ w i t. go (first w.outcomes) (spent w) i t;
}
  where
    go :
        (o : Outcome) (w : World)
        → Isolated w.db w.queue
        → Targets req id targets w.db
        → Kept Isolated
            (λ _ v. Targets req id targets v.db)
            (sent_batch o w (insert_batch now id targets w.db))
    go fine w i t = or_same-Isolated now req id targets w _ i t refl
    go (refused e) w i t = (i, t)
    go (lost e) w i t = or_same-Isolated now req id targets w _ i t refl

publish_targets-Isolated :
    (c : Context) (req : PublishEventRequest) (payload id : String)
    (targets : List (String × String)) (answers : List (Result String)) (n : ℕ)
    → Ensures Isolated
        (λ w. Targets req id targets w.db)
        (publish_targets c req payload id targets answers n)
        (λ _ w. Anything w)
unfolding publish_targets
publish_targets-Isolated c req payload id [] answers n =
    Ensures-pure Isolated _ (λ _ w. Anything w) n (λ w p. tt)
publish_targets-Isolated c req payload id (t ∷ targets) answers n =
    let P = λ (w : World). Targets req id (t ∷ targets) w.db in
    Ensures-bind Isolated P (λ _. P) (λ _ w. Anything w) _ _
      (Ensures-query Isolated P (λ _. P) _ (λ w a i p e. p))
      λ new.
        Ensures-bind Isolated P (λ _ w. Targets req id targets w.db) (λ _ w. Anything w) _ _
          (Ensures-labelled Isolated P _ _ _ (
            Ensures-publish Isolated P (Targets req id targets) _
              λ w i (ev, (o, os)). (add_task w.db w.queue i _ o, (ev, os))))
          λ _. publish_targets-Isolated c req payload id targets (later_answers answers) (n + 1)

enqueue-Isolated :
    (c : Context) (req : PublishEventRequest) (payload id : String)
    (targets : List (String × String))
    → Ensures Isolated
        (λ w. Targets req id targets w.db)
        (enqueue c req payload id targets)
        (λ _ w. Anything w)
enqueue-Isolated c req payload id [] = Ensures-pure Isolated _ (λ _ w. Anything w) 0 (λ w p. tt)
enqueue-Isolated c req payload id (t ∷ targets) =
    let P = λ (w : World). Targets req id (t ∷ targets) w.db in
    Ensures-bind Isolated P (λ _. P) (λ _ w. Anything w) _ _
      (send_batch-Isolated c.now req id (t ∷ targets))
      λ answers. publish_targets-Isolated c req payload id (t ∷ targets) answers 0

-- From a stored event of the tenant of the request.
pub fan_out-Isolated :
    (c : Context) (req : PublishEventRequest) (payload id : String)
    → Ensures Isolated
        (λ w. EventOf w.db.events req.tenant_id id)
        (fan_out c req payload (fresh id))
        (λ _ w. Anything w)
unfolding fan_out subscribers
fan_out-Isolated c req payload id =
    let P = λ (w : World). EventOf w.db.events req.tenant_id id in
    Ensures-bind Isolated P (λ targets w. Targets req id targets w.db) (λ _ w. Anything w) _ _
      (Ensures-query Isolated P (λ targets w. Targets req id targets w.db) _
        λ w a i ev e. (
          ev,
          subst (λ (l : List (String × String)). All (TargetOwned w.db.endpoints req.tenant_id) l)
              (cc e)
              (join_endpoints-owned w.db.endpoints req.tenant_id req.event_type w.db.subscriptions
                i.subscriptions),
        ))
      λ targets.
        let T = λ (w : World). Targets req id targets w.db in
        Ensures-bind Isolated T (λ _ w. Anything w) (λ _ w. Anything w) _ _
          (enqueue-Isolated c req payload id targets)
          λ n.
            Ensures-bind Isolated Anything (λ _ w. Anything w) (λ _ w. Anything w) _ _
              (Ensures-observe Isolated Anything _)
              λ _. Ensures-pure Isolated Anything (λ _ w. Anything w) _ (λ w p. tt)

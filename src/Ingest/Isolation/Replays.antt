-- ===== src/Ingest/Isolation/Replays.antt =====
-- `Isolated` under ReplayDelivery of internal/ingest/service.go.
use harbor_hook.Common.{String, List, Option, none, some, ok, ◌≡◌, refl, subst, sym, All, All-find}
use harbor_hook.Store.{Endpoint, Event, Delivery, Db}
use harbor_hook.Store.Queries.{
  ReplaySource, replay_source, join_source, event_at, endpoint_at, delivery_at,
}
use harbor_hook.World.{World}
use harbor_hook.World.Invariants.{
  Ensures, Ensures-run, Ensures-query, Ensures-pure, Ensures-raise, Ensures-branch, Ensures-bind,
  Ensures-labelled, Ensures-publish,
}
use harbor_hook.Ingest.{Context, ReplayDeliveryRequest}
use harbor_hook.Ingest.Replay.{found, replay_delivery}
use harbor_hook.Ingest.Isolation.{EventOf, DeliveryOwned, Isolated}
use harbor_hook.Ingest.Isolation.Statements.{insert_delivery-Isolated, add_task}
use harbor_hook.Ingest.Isolation.Handlers.{Anything}

-- What the query found: the event is the tenant's, and so is the endpoint, at that URL.
abbrev Sourced : ReplaySource → Db → Type 0
Sourced s db =
    EventOf db.events s.tenant_id s.event_id
    × ((e : Endpoint) × (endpoint_at s.endpoint_id db.endpoints ≡ some e)
        × (e.tenant_id ≡ s.tenant_id)
        × (e.url ≡ s.endpoint_url))

join_source-Sourced :
    (db : Db) (d : Delivery) (s : ReplaySource) (ev : Option Event) (ep : Option Endpoint)
    → DeliveryOwned db.endpoints db.events d
    → event_at d.event_id db.events ≡ ev
    → endpoint_at d.endpoint_id db.endpoints ≡ ep
    → join_source d ev ep ≡ some s
    → Sourced s db
join_source-Sourced db d s none ep o fe fp e = absurd (cc e)
join_source-Sourced db d s (some ev) none o fe fp e = absurd (cc e)
join_source-Sourced db d s (some ev) (some ep) (tenant, (ev', fe', te), (ep', fp', tp)) fe fp e =
    let whole : join_source d (some ev) (some ep) ≡ some s = e in
    let ep_is : ep' ≡ ep = cc (fp, fp') in
    let ev_is : ev' ≡ ev = cc (fe, fe') in
    let tenants : ep.tenant_id ≡ ev.tenant_id = cc (te, tp, ep_is, ev_is) in
    subst (λ (o : ReplaySource). Sourced o db) (some_eq whole)
      ((ev, fe, refl), (ep, fp, tenants, refl))
  where
    some_eq : {a b : ReplaySource} → ◌≡◌ {A = Option ReplaySource} (some a) (some b) → a ≡ b
    some_eq h = cc h

found-Sourced :
    (db : Db) (id : String) (s : ReplaySource)
    → All (DeliveryOwned db.endpoints db.events) db.deliveries
    → found (replay_source id db) ≡ ok s
    → Sourced s db
unfolding replay_source
found-Sourced db id s owned e = go (delivery_at id db.deliveries) refl e
  where
    joined : Delivery → Option ReplaySource
    joined d =
        join_source d (event_at d.event_id db.events) (endpoint_at d.endpoint_id db.endpoints)

    found_some : (o : Option ReplaySource) → found o ≡ ok s → o ≡ some s
    found_some none h = absurd (cc h)
    found_some (some x) h = cc h

    go :
        (o : Option Delivery)
        → delivery_at id db.deliveries ≡ o
        → found (elim o [ none ↦ none | some d ↦ joined d ]) ≡ ok s
        → Sourced s db
    go none f h = absurd (cc h)
    go (some d) f h =
        join_source-Sourced db d s _ _
          (All-find (DeliveryOwned db.endpoints db.events) _ db.deliveries d owned f) refl refl
          (found_some (joined d) h)

pub replay_delivery-Isolated :
    (c : Context) (req : ReplayDeliveryRequest)
    → Ensures Isolated Anything (replay_delivery c req) (λ _ w. Anything w)
unfolding replay_delivery
replay_delivery-Isolated c req =
    let S = λ (s : ReplaySource) (w : World). Sourced s w.db in
    Ensures-branch Isolated Anything (λ _ w. Anything w) _ _ _
      (λ _. Ensures-raise Isolated Anything (λ _ w. Anything w) _)
      λ _.
        Ensures-bind Isolated Anything S (λ _ w. Anything w) _ _
          (Ensures-labelled Isolated Anything S _ _ (
            Ensures-query Isolated Anything S _
              λ w s i _ e. found-Sourced w.db req.delivery_id s i.deliveries e))
          λ s.
            Ensures-bind Isolated (S s) (λ _. S s) (λ _ w. Anything w) _ _
              (Ensures-labelled Isolated (S s) (λ _. S s) _ _
                (Ensures-run Isolated (S s) (λ _. S s) _
                  λ w new db i (ev, o) e.
                    let (x, at_id, same, url) = o in
                    let (j, eps, evs) =
                      insert_delivery-Isolated w.db w.queue i c.now s.event_id s.endpoint_id
                        s.tenant_id (some req.delivery_id) (some req.reason) new db ev
                        (x, at_id, same) e in
                    (
                      j,
                      (
                        subst (λ (l : List Event). EventOf l s.tenant_id s.event_id) (sym evs) ev,
                        (x, eps_at db w.db eps s.endpoint_id x at_id, same, url),
                      ),
                    )))
              λ new.
                Ensures-bind Isolated (S s) (λ _ w. Anything w) (λ _ w. Anything w) _ _
                  (Ensures-labelled Isolated (S s) (λ _ w. Anything w) _ _
                    (Ensures-publish Isolated (S s) (λ _. Unit {0}) _
                      λ w i (ev, o). (add_task w.db w.queue i _ o, tt)))
                  λ _. Ensures-pure Isolated Anything (λ _ w. Anything w) _ (λ w p. tt)
  where
    eps_at :
        (db old : Db)
        → db.endpoints ≡ old.endpoints
        → (id : String) (x : Endpoint) → endpoint_at id old.endpoints ≡ some x
        → endpoint_at id db.endpoints ≡ some x
    eps_at db old same id x f =
        subst (λ (l : List Endpoint). endpoint_at id l ≡ some x) (sym same) f

-- ===== src/Ingest/Isolation/Publishing.antt =====
-- `Isolated` under PublishEvent of internal/ingest/service.go.
use harbor_hook.Common.{
  ℕ, String, List, Option, none, some, Bool, true, false, Result, ok, err, ◌≡◌, refl, subst, ◌&&◌,
  ◌==◌, arith, eq_iff, find_holds, ltb, if◌then◌else◌,
}
use harbor_hook.Store.{Event}
use harbor_hook.Store.Queries.{event_by_key, same_key}
use harbor_hook.Store.Keys.{HasUniqueIds, event_at_of_find}
use harbor_hook.World.{World}
use harbor_hook.World.Invariants.{
  Ensures, Ensures-run, Ensures-query, Ensures-pure, Ensures-raise, Ensures-branch, Ensures-bind,
  Ensures-labelled,
}
use harbor_hook.Ingest.{Context, PublishEventRequest}
use harbor_hook.Ingest.Publish.{
  Resolved, duplicate, fresh, found_id, check_duplicate, resolve_new, resolve_once, resolve_event,
  fan_out, with_payload, present, publish_event,
}
use harbor_hook.Ingest.Isolation.{EventOf, Isolated}
use harbor_hook.Ingest.Isolation.Statements.{insert_event-Isolated, insert_event_once-Isolated}
use harbor_hook.Ingest.Isolation.Handlers.{Anything}
use harbor_hook.Ingest.Isolation.Fanout.{fan_out-Isolated}

abbrev event_id_of : Resolved → String
event_id_of (duplicate id) = id
event_id_of (fresh id) = id

-- What is known once the event is stored: it belongs to the tenant of the request.
abbrev Stored : PublishEventRequest → String → World → Type 0
Stored req id w = EventOf w.db.events req.tenant_id id

abbrev StoredAs : PublishEventRequest → Resolved → World → Type 0
StoredAs req r w = Stored req (event_id_of r) w

check_duplicate-Isolated :
    (req : PublishEventRequest) (affected : ℕ) (id : String)
    → Ensures Isolated (Stored req id) (check_duplicate affected id) (StoredAs req)
unfolding check_duplicate
check_duplicate-Isolated req affected id =
    let P = Stored req id in
    Ensures-branch Isolated P (StoredAs req) _ _ _
      (λ _.
        Ensures-bind Isolated P (λ _. P) (StoredAs req) _ _
          (Ensures-labelled Isolated P (λ _. P) _ _
            (Ensures-query Isolated P (λ _. P) _ (λ w a i p e. p)))
          λ n. Ensures-pure Isolated P (StoredAs req) _ λ w p. either (ltb 0 n) w p)
      λ _. Ensures-pure Isolated P (StoredAs req) (fresh id) (λ w p. p)
  where
    either :
        (b : Bool) (w : World)
        → Stored req id w
        → StoredAs req (if b then duplicate id else fresh id) w
    either true w p = p
    either false w p = p

-- The row of a key belongs to the tenant for which it was looked up.
found_id-EventOf :
    (tenant key id : String) (es : List Event) (o : Option Event)
    → HasUniqueIds es
    → event_by_key tenant key es ≡ o
    → found_id o ≡ ok id
    → EventOf es tenant id
found_id-EventOf tenant key id es none u f e = absurd (cc e)
found_id-EventOf tenant key id es (some ev) u f e =
    let p = λ (x : Event). x.tenant_id == tenant && same_key key x.idempotency_key in
    let same : ev.id ≡ id = cc e in
    let holds = find_holds p es ev f in
    subst (λ (k : String). EventOf es tenant k) same
      (ev, event_at_of_find p es ev u f, ground (arith, eq_iff ev.tenant_id tenant))

resolve_once-Isolated :
    (c : Context) (req : PublishEventRequest) (payload : String)
    → Ensures Isolated Anything (resolve_once c req payload) (StoredAs req)
resolve_once-Isolated c req payload =
    let A = λ (n : ℕ) (w : World). Anything w in
    Ensures-bind Isolated Anything A (StoredAs req) _ _
      (Ensures-labelled Isolated Anything A _ _ (
        Ensures-run Isolated Anything A _ λ w n db i _ e. (
          insert_event_once-Isolated w.db w.queue i c.now req.tenant_id req.event_type payload
              req.idempotency_key n db e,
          tt,
        )))
      λ affected.
        Ensures-bind Isolated Anything (Stored req) (StoredAs req) _ _
          (Ensures-labelled Isolated Anything (Stored req) _ _ (
            Ensures-query Isolated Anything (Stored req) _ λ w id i _ e.
              found_id-EventOf req.tenant_id req.idempotency_key id w.db.events _ i.event_ids refl
                e))
          λ id. check_duplicate-Isolated req affected id

resolve_new-Isolated :
    (c : Context) (req : PublishEventRequest) (payload : String)
    → Ensures Isolated Anything (resolve_new c req payload) (StoredAs req)
resolve_new-Isolated c req payload =
    Ensures-bind Isolated Anything (Stored req) (StoredAs req) _ _
      (Ensures-labelled Isolated Anything (Stored req) _ _ (
        Ensures-run Isolated Anything (Stored req) _ λ w id db i _ e.
          insert_event-Isolated w.db w.queue i c.now req.tenant_id req.event_type payload id db e))
      λ id. Ensures-pure Isolated (Stored req id) (StoredAs req) (fresh id) (λ w p. p)

resolve_event-Isolated :
    (c : Context) (req : PublishEventRequest) (payload : String)
    → Ensures Isolated Anything (resolve_event c req payload) (StoredAs req)
unfolding resolve_event
resolve_event-Isolated c req payload =
    Ensures-branch Isolated Anything (StoredAs req) _ _ _ (λ _. resolve_new-Isolated c req payload)
      λ _. resolve_once-Isolated c req payload

answer-Isolated :
    (c : Context) (req : PublishEventRequest) (payload : String) (r : Resolved)
    → Ensures Isolated (StoredAs req r) (fan_out c req payload r) (λ _ w. Anything w)
unfolding fan_out
answer-Isolated c req payload (duplicate id) =
    Ensures-pure Isolated (Stored req id) (λ _ w. Anything w) _ (λ w p. tt)
answer-Isolated c req payload (fresh id) = fan_out-Isolated c req payload id

with_payload-Isolated :
    (c : Context) (req : PublishEventRequest) (r : Result String)
    → Ensures Isolated Anything (with_payload c req r) (λ _ w. Anything w)
with_payload-Isolated c req (err e) = Ensures-raise Isolated Anything (λ _ w. Anything w) _
with_payload-Isolated c req (ok payload) =
    Ensures-bind Isolated Anything (StoredAs req) (λ _ w. Anything w) _ _
      (resolve_event-Isolated c req payload) λ r. answer-Isolated c req payload r

present-Isolated :
    (c : Context) (req : PublishEventRequest) (o : Option String)
    → Ensures Isolated Anything (present c req o) (λ _ w. Anything w)
present-Isolated c req none = Ensures-raise Isolated Anything (λ _ w. Anything w) _
present-Isolated c req (some payload) = with_payload-Isolated c req (c.marshal payload)

pub publish_event-Isolated :
    (c : Context) (req : PublishEventRequest)
    → Ensures Isolated Anything (publish_event c req) (λ _ w. Anything w)
unfolding publish_event
publish_event-Isolated c req =
    Ensures-branch Isolated Anything (λ _ w. Anything w) _ _ _
      (λ _. Ensures-raise Isolated Anything (λ _ w. Anything w) _)
      λ _. present-Isolated c req req.payload

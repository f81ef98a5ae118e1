-- ===== src/Ingest/Isolation/Statements.antt =====
-- `Isolated` under the INSERT statements.
use harbor_hook.Common.{
  ℕ, String, List, [], ◌∷◌, ◌++◌, Option, none, ok, ◌≡◌, refl, subst, sym, ap, false, find-snoc,
  eq_refl, ◌==◌, All-append, All-mono, find-append, inl, inr,
}
use harbor_hook.Store.{Endpoint, Subscription, Event, Delivery, Db}
use harbor_hook.Store.Inserts.{
  insert_endpoint, insert_subscription, insert_event_once, insert_event, insert_delivery, event_row,
}
use harbor_hook.Store.Effects.{
  insert_endpoint-eq, insert_subscription-eq, insert_event-eq, insert_event_once-eq,
  insert_delivery-eq,
}
use harbor_hook.Store.Keys.{has_event, HasUniqueIds-snoc}
use harbor_hook.Delivery.{Task}
use harbor_hook.Ingest.Isolation.{
  Owns, EventOf, SubscriptionOwned, DeliveryOwned, TaskOwned, Isolated,
}

module _ (eps new : List Endpoint) where
  Owns-append : (tenant id : String) → Owns eps tenant id → Owns (eps ++ new) tenant id
  Owns-append tenant id (e, found, same) = (e, find-append _ eps new e found, same)

  TaskOwned-append : (t : Task) → TaskOwned eps t → TaskOwned (eps ++ new) t
  TaskOwned-append t (e, found, same, url) = (e, find-append _ eps new e found, same, url)

-- More endpoints and events, and one more subscription, delivery or task, each owned.
module _ (db : Db) (queue : List Task) (i : Isolated db queue) where
  add_endpoints :
      (new : List Endpoint) (n : ℕ)
      → Isolated (record db { endpoints = db.endpoints ++ new; drawn = n }) queue
  add_endpoints new n = record {
    event_ids = i.event_ids;
    subscriptions =
        All-mono (SubscriptionOwned db.endpoints) (SubscriptionOwned (db.endpoints ++ new))
          db.subscriptions (λ s. Owns-append db.endpoints new s.tenant_id s.endpoint_id)
          i.subscriptions;
    deliveries =
        All-mono (DeliveryOwned db.endpoints db.events)
          (DeliveryOwned (db.endpoints ++ new) db.events) db.deliveries
          (λ d (tenant, ev, o). (tenant, ev, Owns-append db.endpoints new tenant d.endpoint_id o))
          i.deliveries;
    tasks =
        All-mono (TaskOwned db.endpoints) (TaskOwned (db.endpoints ++ new)) queue
          (TaskOwned-append db.endpoints new) i.tasks;
  }

  add_event :
      (new : Event) (n : ℕ)
      → has_event new.id db.events ≡ false
      → Isolated (record db { events = db.events ++ new ∷ []; drawn = n }) queue
  add_event new n unused = record {
    event_ids = HasUniqueIds-snoc db.events new i.event_ids unused;
    subscriptions = i.subscriptions;
    deliveries =
        All-mono (DeliveryOwned db.endpoints db.events)
          (DeliveryOwned db.endpoints (db.events ++ new ∷ [])) db.deliveries
          (λ d (tenant, (ev, found, same), o).
            (tenant, (ev, find-append _ db.events (new ∷ []) ev found, same), o))
          i.deliveries;
    tasks = i.tasks;
  }

  add_subscription :
      (s : Subscription) (n : ℕ)
      → SubscriptionOwned db.endpoints s
      → Isolated (record db { subscriptions = db.subscriptions ++ s ∷ []; drawn = n }) queue
  add_subscription s n o = record {
    event_ids = i.event_ids;
    subscriptions =
        All-append (SubscriptionOwned db.endpoints) db.subscriptions _ i.subscriptions (o, tt);
    deliveries = i.deliveries;
    tasks = i.tasks;
  }

  add_delivery :
      (d : Delivery) (n : ℕ)
      → DeliveryOwned db.endpoints db.events d
      → Isolated (record db { deliveries = db.deliveries ++ d ∷ []; drawn = n }) queue
  add_delivery d n o = record {
    event_ids = i.event_ids;
    subscriptions = i.subscriptions;
    deliveries =
        All-append (DeliveryOwned db.endpoints db.events) db.deliveries _ i.deliveries (o, tt);
    tasks = i.tasks;
  }

  pub add_task : (t : Task) → TaskOwned db.endpoints t → Isolated db (queue ++ t ∷ [])
  add_task t o = record {
    event_ids = i.event_ids;
    subscriptions = i.subscriptions;
    deliveries = i.deliveries;
    tasks = All-append (TaskOwned db.endpoints) queue _ i.tasks (o, tt);
  }

  pub insert_endpoint-Isolated :
      (now : ℕ) (tenant url secret : String) (a : String × ℕ) (db' : Db)
      → insert_endpoint now tenant url secret db ≡ ok (a, db')
      → Isolated db' queue
  insert_endpoint-Isolated now tenant url secret a db' e =
      subst (λ (v : Db). Isolated v queue)
        (sym (insert_endpoint-eq now db db' tenant url secret a e)) (add_endpoints _ _)

  pub insert_subscription-Isolated :
      (now : ℕ) (tenant event_type endpoint_id : String) (a : String × ℕ) (db' : Db)
      → Owns db.endpoints tenant endpoint_id
      → insert_subscription now tenant event_type endpoint_id db ≡ ok (a, db')
      → Isolated db' queue
  insert_subscription-Isolated now tenant event_type endpoint_id a db' o e =
      subst (λ (v : Db). Isolated v queue)
        (sym (insert_subscription-eq now db db' tenant event_type endpoint_id a e))
        (add_subscription _ _ o)

  pub insert_delivery-Isolated :
      (now : ℕ) (event_id endpoint_id tenant : String) (replay_of reason : Option String)
      (a : String) (db' : Db)
      → EventOf db.events tenant event_id
      → Owns db.endpoints tenant endpoint_id
      → insert_delivery now event_id endpoint_id replay_of reason db ≡ ok (a, db')
      → Isolated db' queue × (db'.endpoints ≡ db.endpoints) × (db'.events ≡ db.events)
  insert_delivery-Isolated now event_id endpoint_id tenant replay_of reason a db' ev o e =
      let (_, _, _, same) =
        insert_delivery-eq now db db' event_id endpoint_id replay_of reason a e in
      (
        subst (λ (v : Db). Isolated v queue) (sym same) (add_delivery _ _ (tenant, ev, o)),
        ap (λ (v : Db). v.endpoints) same,
        ap (λ (v : Db). v.events) same,
      )

  pub insert_event-Isolated :
      (now : ℕ) (tenant event_type payload a : String) (db' : Db)
      → insert_event now tenant event_type payload db ≡ ok (a, db')
      → Isolated db' queue × EventOf db'.events tenant a
  insert_event-Isolated now tenant event_type payload a db' e =
      let (_, unused, same) = insert_event-eq now db db' tenant event_type payload a e in
      let row = event_row now a tenant event_type payload none in
      let found = find-snoc (λ (x : Event). x.id == a) db.events row unused (eq_refl a) in
      subst (λ (v : Db). Isolated v queue × EventOf v.events tenant a) (sym same)
        (add_event row _ unused, (row, found, refl))

  pub insert_event_once-Isolated :
      (now : ℕ) (tenant event_type payload key : String) (n : ℕ) (db' : Db)
      → insert_event_once now tenant event_type payload key db ≡ ok (n, db')
      → Isolated db' queue
  insert_event_once-Isolated now tenant event_type payload key n db' e =
      elim (insert_event_once-eq now db db' tenant event_type payload key n e) [
        | inl (_, _, same) ↦ subst (λ (v : Db). Isolated v queue) (sym same) i
        | inr (_, _, unused, same) ↦
            subst (λ (v : Db). Isolated v queue) (sym same) (add_event _ _ unused)
      ]

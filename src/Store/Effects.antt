-- ===== src/Store/Effects.antt =====
-- What a successful INSERT has checked, returned and changed.
use harbor_hook.Common.{
  ℕ, ◌+◌, String, [], ◌∷◌, ◌++◌, Option, none, some, true, false, ok, ◌≡◌, arith, ◌==◌, any, ◌⊎◌,
}
use harbor_hook.Store.{Db}
use harbor_hook.Store.Inserts.{
  insert_endpoint, insert_subscription, insert_event_once, insert_event, insert_delivery, event_row,
  delivery_row, key_taken, replay_pending,
}

module _ (now : ℕ) (db db' : Db) where
  pub insert_endpoint-eq :
      (tenant url secret : String) (a : String × ℕ)
      → insert_endpoint now tenant url secret db ≡ ok (a, db')
      → db' ≡ record db {
        endpoints =
            db.endpoints
            ++ record {
              id = db.uuid db.drawn;
              tenant_id = tenant;
              url = url;
              secret = some secret;
              created_at = now;
            }
              ∷ [];
        drawn = db.drawn + 1;
      }
  unfolding insert_endpoint
  insert_endpoint-eq tenant url secret a e = ground arith

  pub insert_endpoint-fresh :
      (tenant url secret : String) (a : String × ℕ)
      → insert_endpoint now tenant url secret db ≡ ok (a, db')
      → (a.0 ≡ db.uuid db.drawn) × (any (λ e. e.id == db.uuid db.drawn) db.endpoints ≡ false)
  unfolding insert_endpoint
  insert_endpoint-fresh tenant url secret a e = ground arith

  pub insert_subscription-eq :
      (tenant event_type endpoint_id : String) (a : String × ℕ)
      → insert_subscription now tenant event_type endpoint_id db ≡ ok (a, db')
      → db' ≡ record db {
        subscriptions =
            db.subscriptions
            ++ record {
              id = db.uuid db.drawn;
              tenant_id = tenant;
              event_type = event_type;
              endpoint_id = endpoint_id;
              created_at = now;
            }
              ∷ [];
        drawn = db.drawn + 1;
      }
  unfolding insert_subscription
  insert_subscription-eq tenant event_type endpoint_id a e = ground arith

  pub insert_event-eq :
      (tenant event_type payload a : String)
      → insert_event now tenant event_type payload db ≡ ok (a, db')
      → (a ≡ db.uuid db.drawn)
        × (any (λ e. e.id == a) db.events ≡ false)
        × (db' ≡ record db {
          events = db.events ++ event_row now a tenant event_type payload none ∷ [];
          drawn = db.drawn + 1;
        })
  unfolding insert_event
  insert_event-eq tenant event_type payload a e = ground arith

  -- Either the key was taken and nothing changed, or the event is new.
  pub insert_event_once-eq :
      (tenant event_type payload key : String) (n : ℕ)
      → insert_event_once now tenant event_type payload key db ≡ ok (n, db')
      → ((n ≡ 0) × (key_taken tenant key db.events ≡ true) × (db' ≡ db))
        ⊎ ((n ≡ 1)
            × (key_taken tenant key db.events ≡ false)
            × (any (λ e. e.id == db.uuid db.drawn) db.events ≡ false)
            × (db' ≡ record db {
              events =
                  db.events
                  ++ event_row now (db.uuid db.drawn) tenant event_type payload (some key) ∷ [];
              drawn = db.drawn + 1;
            }))
  unfolding insert_event_once
  insert_event_once-eq tenant event_type payload key n e = ground arith

  pub insert_delivery-eq :
      (event_id endpoint_id : String) (replay_of reason : Option String) (a : String)
      → insert_delivery now event_id endpoint_id replay_of reason db ≡ ok (a, db')
      → (a ≡ db.uuid db.drawn)
        × (any (λ d. d.id == a) db.deliveries ≡ false)
        × (replay_pending replay_of db.deliveries ≡ false)
        × (db' ≡ record db {
          deliveries =
              db.deliveries ++ delivery_row now a event_id endpoint_id replay_of reason ∷ [];
          drawn = db.drawn + 1;
        })
  unfolding insert_delivery
  insert_delivery-eq event_id endpoint_id replay_of reason a e = ground arith

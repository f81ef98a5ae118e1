-- ===== src/Worker/Tracking.antt =====
-- Rules for the UPDATE statements of the worker, about the row of one delivery, where every call of the
-- database and of NSQ succeeds unless a constraint or the trigger forbids it.
use harbor_hook.Common.{
  ℕ, String, Option, some, List, [], true, ◌==◌, Result, ok, err, ◌≡◌, refl, sym, subst, ◌∙◌, inl,
  inr, find_holds,
}
use harbor_hook.Store.{Delivery, DlqEntry, Db}
use harbor_hook.Metrics.{Metrics}
use harbor_hook.Store.Queries.{delivery_at, endpoint_secret}
use harbor_hook.Store.Updates.{update_delivery}
use harbor_hook.Store.Rows.{
  Same, IsSettled, delivery_at-replace, written, update_delivery-cases, update_delivery_settled,
}
use harbor_hook.Delivery.{DeadLetter}
use harbor_hook.World.{World, run, query, observe, attempted, spent}
use harbor_hook.World.Totality.{
  Achieves, Achieves-attempted, spent_calm, run_ok, run_err, query_reads, Achieves-observe,
}

-- the parts of the world beside the row: the endpoint with its secret, the rows of the table dlq, and
-- what is on the dead-letter topic, and the identifiers that are drawn next
pub record Frame : Type 0 where
  pub endpoint_id : String
  pub secret : Option (Option String)
  pub dlq : List DlqEntry
  pub topic : List DeadLetter
  pub uuid : ℕ → String
  pub drawn : ℕ

-- No call fails from here on, the row of `id` satisfies `P`, and the frame is as given.
pub record Tracked (id : String) (fr : Frame) (P : Delivery → Type 0) (w : World) : Type 0 where
  pub calm : w.outcomes ≡ []
  pub row : Delivery
  pub found : delivery_at id w.db.deliveries ≡ some row
  pub holds : P row
  pub secret : endpoint_secret fr.endpoint_id w.db ≡ fr.secret
  pub dlq : w.db.dlq ≡ fr.dlq
  pub topic : w.dlq_topic ≡ fr.topic
  pub uuid : w.db.uuid ≡ fr.uuid
  pub drawn : w.db.drawn ≡ fr.drawn

module _ (now : ℕ) (id : String) (set : Delivery → Delivery) (fr : Frame) (P Q : Delivery → Type 0)
    (keeps_id : (d : Delivery) → (set d).id ≡ d.id) where
  after_write :
      (w : World) (t : Tracked id fr P w) (new : Delivery)
      → update_delivery now id set w.db ≡ ok (tt, written now id set w.db t.row t.found new)
      → Same new (set t.row)
      → Q new
      → Tracked id fr Q (run (update_delivery now id set) w).1
  unfolding endpoint_secret
  after_write w t new made alike q =
      let named : (new.id == id) ≡ true =
        subst (λ (i : String). (i == id) ≡ true) (sym (alike.id ∙ keeps_id t.row))
          (find_holds (λ d. d.id == id) w.db.deliveries t.row t.found) in
      let v = record (spent w) { db = written now id set w.db t.row t.found new } in
      let there : Tracked id fr Q v = record {
        calm = spent_calm w t.calm;
        row = new;
        found = delivery_at-replace id t.row new w.db.deliveries t.found named;
        holds = q;
        secret = t.secret;
        uuid = t.uuid;
        drawn = t.drawn;
        dlq = t.dlq;
        topic = t.topic;
      } in
      let reached = run_ok (update_delivery now id set) w t.calm tt v.db made in
      subst (λ (u : Result (Unit {0}) × World). Tracked id fr Q u.1) (sym reached) there

  after_refusal :
      (w : World) (t : Tracked id fr P w) (e : String)
      → update_delivery now id set w.db ≡ err e
      → Q t.row
      → Tracked id fr Q (run (update_delivery now id set) w).1
  after_refusal w t e made q =
      let there : Tracked id fr Q (spent w) = record {
        calm = spent_calm w t.calm;
        row = t.row;
        found = t.found;
        holds = q;
        secret = t.secret;
        uuid = t.uuid;
        drawn = t.drawn;
        dlq = t.dlq;
        topic = t.topic;
      } in
      let reached = run_err (update_delivery now id set) w t.calm e made in
      subst (λ (u : Result (Unit {0}) × World). Tracked id fr Q u.1) (sym reached) there

  -- A statement that sets a settled status takes effect.
  pub Achieves-settled :
      ((d : Delivery) → P d → IsSettled (set d).status)
      → ((d new : Delivery) → P d → Same new (set d) → Q new)
      → Achieves
          (Tracked id fr P)
          (attempted (run (update_delivery now id set)))
          (λ _. Tracked id fr Q)
  Achieves-settled settled next =
      Achieves-attempted (Tracked id fr P) (λ _. Tracked id fr Q) (run (update_delivery now id set))
        λ w t.
          let (new, made, alike) =
            update_delivery_settled now id set w.db t.row t.found (settled t.row t.holds) in
          after_write w t new made alike (next t.row new t.holds alike)

  -- A statement whose failure and whose effect both keep to `Q`.
  pub Achieves-possible :
      ((d : Delivery) → P d → Q d)
      → ((d new : Delivery) → P d → Same new (set d) → Q new)
      → Achieves
          (Tracked id fr P)
          (attempted (run (update_delivery now id set)))
          (λ _. Tracked id fr Q)
  Achieves-possible stay next =
      Achieves-attempted (Tracked id fr P) (λ _. Tracked id fr Q) (run (update_delivery now id set))
        λ w t. elim (update_delivery-cases now id set w.db t.row t.found) [
          | inl (e, made) ↦ after_refusal w t e made (stay t.row t.holds)
          | inr (new, made, alike) ↦ after_write w t new made alike (next t.row new t.holds alike)
        ]

module _ (id : String) (fr : Frame) (P : Delivery → Type 0) where
  abbrev seen : (w : World) → Tracked id fr P w → Tracked id fr P (spent w)
  seen w t = record {
    calm = spent_calm w t.calm;
    row = t.row;
    found = t.found;
    holds = t.holds;
    secret = t.secret;
    dlq = t.dlq;
    topic = t.topic;
    uuid = t.uuid;
    drawn = t.drawn;
  }

  -- A SELECT of which the tracked parts decide the value.
  pub Achieves-read :
      {A : Type 0} (read : Db → Result A) (r : Result A)
      → ((w : World) → Tracked id fr P w → read w.db ≡ r)
      → Achieves (Tracked id fr P) (attempted (query read)) (λ x w. (x ≡ r) × Tracked id fr P w)
  Achieves-read {A} read r k =
      Achieves-attempted (Tracked id fr P) (λ x w. (x ≡ r) × Tracked id fr P w) (query read)
        λ w t.
          subst (λ (u : Result A × World). (u.0 ≡ r) × Tracked id fr P u.1)
            (sym (query_reads read w t.calm r (k w t))) (refl, seen w t)

  pub Achieves-measure :
      (f : Metrics → Metrics) → Achieves (Tracked id fr P) (observe f) (λ _. Tracked id fr P)
  Achieves-measure f = Achieves-observe (Tracked id fr P) (Tracked id fr P) f λ w t. record {
    calm = t.calm;
    row = t.row;
    found = t.found;
    holds = t.holds;
    secret = t.secret;
    dlq = t.dlq;
    topic = t.topic;
    uuid = t.uuid;
    drawn = t.drawn;
  }

pub Tracked-mono :
    {id : String} {fr : Frame} {P Q : Delivery → Type 0} {w : World}
    → ((d : Delivery) → P d → Q d)
    → Tracked id fr P w
    → Tracked id fr Q w
Tracked-mono k t = record {
  calm = t.calm;
  row = t.row;
  found = t.found;
  holds = k t.row t.holds;
  secret = t.secret;
  dlq = t.dlq;
  topic = t.topic;
  uuid = t.uuid;
  drawn = t.drawn;
}

-- ===== src/Worker/Letters.antt =====
-- Rules for the rows of the table dlq and for the dead-letter topic, beside those of Tracking.
use harbor_hook.Common.{
  ℕ, ◌+◌, ◌++◌, any, any_of_find, String, [], ◌∷◌, Bool, true, false, ◌==◌, Result, ok, ◌≡◌, refl,
  sym, subst, find_holds, if◌then◌else◌,
}
use harbor_hook.Common.Exec.{branch, pure}
use harbor_hook.Store.{Delivery, DlqEntry}
use harbor_hook.Store.Inserts.{insert_dlq}
use harbor_hook.Delivery.{DeadLetter}
use harbor_hook.World.{World, run, publish_dead, attempted, spent}
use harbor_hook.World.Totality.{Achieves, Achieves-pure, Achieves-attempted, spent_calm, run_ok}
use harbor_hook.Worker.Tracking.{Frame, Tracked}

module _ (id : String) (fr : Frame) (P : Delivery → Type 0) where
  abbrev pub entry : (ℕ → String) → ℕ → ℕ → String → DlqEntry
  entry uuid drawn now reason = record {
    id = uuid drawn;
    delivery_id = id;
    reason = reason;
    created_at = now;
  }

  -- the frame with one more row in the table dlq
  abbrev pub buried : ℕ → String → Frame
  buried now reason = record fr {
    dlq =
        fr.dlq
        ++ record { id = fr.uuid fr.drawn; delivery_id = id; reason = reason; created_at = now }
          ∷ [];
    drawn = fr.drawn + 1;
  }

  pub Achieves-bury :
      (now : ℕ) (reason : String)
      → any (λ q. q.id == fr.uuid fr.drawn) fr.dlq ≡ false
      → Achieves
          (Tracked id fr P)
          (attempted (run (insert_dlq now id reason)))
          (λ _. Tracked id (buried now reason) P)
  unfolding insert_dlq harbor_hook.Store.Queries.endpoint_secret
  Achieves-bury now reason fresh =
      Achieves-attempted (Tracked id fr P) (λ _. Tracked id (buried now reason) P)
        (run (insert_dlq now id reason))
        λ w t.
          let free : any (λ q. q.id == w.db.uuid w.db.drawn) w.db.dlq ≡ false =
            rw (t.uuid, t.drawn, t.dlq) fresh in
          let known : any (λ d. d.id == id) w.db.deliveries ≡ true =
            any_of_find (λ d. d.id == id) (λ d. d.id == id) w.db.deliveries t.row t.found
              (find_holds (λ d. d.id == id) w.db.deliveries t.row t.found) in
          let db = record w.db {
            dlq = w.db.dlq ++ entry w.db.uuid w.db.drawn now reason ∷ [];
            drawn = w.db.drawn + 1;
          } in
          let made : insert_dlq now id reason w.db ≡ ok (tt, db) = rw (free, known) refl in
          let there : Tracked id (buried now reason) P (record (spent w) { db = db }) = record {
            calm = spent_calm w t.calm;
            row = t.row;
            found = t.found;
            holds = t.holds;
            secret = t.secret;
            dlq = rw (t.dlq, t.uuid, t.drawn) refl;
            topic = t.topic;
            uuid = t.uuid;
            drawn = rw t.drawn refl;
          } in
          let reached = run_ok (insert_dlq now id reason) w t.calm tt db made in
          subst (λ (u : Result (Unit {0}) × World). Tracked id (buried now reason) P u.1)
            (sym reached) there

  -- the frame with one more message on the dead-letter topic
  abbrev pub announced : DeadLetter → Frame
  announced l = record fr { topic = fr.topic ++ l ∷ [] }

  pub Achieves-announce :
      (l : DeadLetter)
      → Achieves (Tracked id fr P) (attempted (publish_dead l)) (λ _. Tracked id (announced l) P)
  unfolding publish_dead
  Achieves-announce l =
      Achieves-attempted (Tracked id fr P) (λ _. Tracked id (announced l) P) (publish_dead l)
        λ w t.
          let there : Tracked id (announced l) P
              (record (spent w) { dlq_topic = w.dlq_topic ++ l ∷ [] }) =
            record {
              calm = spent_calm w t.calm;
              row = t.row;
              found = t.found;
              holds = t.holds;
              secret = t.secret;
              dlq = t.dlq;
              topic = rw t.topic refl;
              uuid = t.uuid;
              drawn = t.drawn;
            } in
          let v = record (spent w) { dlq_topic = w.dlq_topic ++ l ∷ [] } in
          let reached : publish_dead l w ≡ (ok tt, v) = rw t.calm refl in
          subst (λ (u : Result (Unit {0}) × World). Tracked id (announced l) P u.1) (sym reached)
            there

  pub Achieves-optional :
      (b : Bool) (l : DeadLetter)
      → Achieves
          (Tracked id fr P)
          (branch b (attempted (publish_dead l)) (pure (ok tt)))
          (λ _. Tracked id (if b then announced l else fr) P)
  unfolding branch pure
  Achieves-optional true l = Achieves-announce l
  Achieves-optional false l = Achieves-pure _ _ (ok tt) λ w p. p

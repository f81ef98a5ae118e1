-- ===== src/World/Invariants.antt =====
-- Rules by which an invariant `I` of the tables and of the deliveries topic is proved of an action.
-- `Ensures P m Q`: from a world with `I` and `P`, the action leaves `I` whatever its result, and a
-- value that it returns satisfies `Q` in the world that it leaves.
use harbor_hook.Common.{
  List, [], ◌∷◌, ◌++◌, Result, ok, err, wrap, ◌≡◌, refl, sym, subst, String, Bool, true, false,
}
use harbor_hook.Common.Exec.{Exec, pure, raise, branch, continue, ◌>>=◌}
use harbor_hook.Store.{Db, Statement}
use harbor_hook.Delivery.{Task, DeadLetter}
use harbor_hook.Metrics.{Metrics}
use harbor_hook.World.{
  Outcome, fine, refused, lost, World, first, settle, committed, spent, answer, run, query,
  publish_task, publish_dead, labelled, observe, attempted,
}

module _ (I : Db → List Task → Type 0) where
  abbrev pub Kept : {A : Type 0} → (A → World → Type 0) → Result A × World → Type 0
  Kept Q (ok a, w) = I w.db w.queue × Q a w
  Kept Q (err e, w) = I w.db w.queue

  pub record Ensures {A : Type 0} (P : World → Type 0) (m : Exec World A) (Q : A → World → Type 0)
      : Type 0 where
    pub at : (w : World) → I w.db w.queue → P w → Kept Q (m w)

  module _ {A : Type 0} (Q : A → World → Type 0) where
    settle-Kept :
        (o : Outcome) (r : Result (A × World)) (w : World)
        → I w.db w.queue
        → ((a : A) (w' : World) → r ≡ ok (a, w') → I w'.db w'.queue × Q a w')
        → Kept Q (settle o r w)
    settle-Kept fine (ok (a, w')) w h k = k a w' refl
    settle-Kept fine (err e) w h k = h
    settle-Kept (refused e) r w h k = h
    settle-Kept (lost e) (ok (a, w')) w h k = (k a w' refl).0
    settle-Kept (lost e) (err x) w h k = h

    committed-ok :
        (w : World) (r : Result (A × Db)) (a : A) (w' : World)
        → committed w r ≡ ok (a, w')
        → (db : Db) × (r ≡ ok (a, db)) × (w' ≡ record w { db = db })
    committed-ok w (ok (b, db)) a w' e = (db, cc e, cc e)
    committed-ok w (err x) a w' e = absurd (cc e)

    answer-ok :
        (db : Db) (r : Result A) (a : A) (db' : Db)
        → answer db r ≡ ok (a, db')
        → (db' ≡ db) × (r ≡ ok a)
    answer-ok db (ok b) a db' e = (cc e, cc e)
    answer-ok db (err x) a db' e = absurd (cc e)

    run-Kept :
        (st : Statement A) (w : World)
        → I w.db w.queue
        → ((a : A) (db : Db)
            → st w.db ≡ ok (a, db)
            → I db w.queue × Q a (record (spent w) { db = db }))
        → Kept Q (run st w)
    unfolding run
    run-Kept st w h k =
        settle-Kept (first w.outcomes) (committed (spent w) (st w.db)) (spent w) h λ a w' e.
          let (db, made, same) = committed-ok (spent w) (st w.db) a w' e in
          subst (λ v. I v.db v.queue × Q a v) (sym same) (k a db made)

  module _ {A : Type 0} (P : World → Type 0) (Q : A → World → Type 0) where
    pub Ensures-run :
        (st : Statement A)
        → ((w : World) (a : A) (db : Db)
            → I w.db w.queue
            → P w
            → st w.db ≡ ok (a, db)
            → I db w.queue × Q a (record (spent w) { db = db }))
        → Ensures P (run st) Q
    Ensures-run st k = record { at = λ w i p. run-Kept Q st w i λ a db e. k w a db i p e }

    -- A SELECT leaves the tables alone, and its value is that of the tables as they are.
    pub Ensures-query :
        (read : Db → Result A)
        → ((w : World) (a : A) → I w.db w.queue → P w → read w.db ≡ ok a → Q a (spent w))
        → Ensures P (query read) Q
    unfolding query
    Ensures-query read k = record {
      at = λ w i p.
          run-Kept Q (λ db. answer db (read db)) w i
            λ a db e.
              let (same, found) = answer-ok Q w.db (read w.db) a db e in
              subst (λ (v : Db). I v w.queue × Q a (record (spent w) { db = v })) (sym same)
                (i, k w a i p found);
    }

    pub Ensures-pure : (a : A) → ((w : World) → P w → Q a w) → Ensures P (pure a) Q
    unfolding pure
    Ensures-pure a k = record { at = λ w i p. (i, k w p) }

    pub Ensures-raise : (e : String) → Ensures P (raise e) Q
    unfolding raise
    Ensures-raise e = record { at = λ w i p. i }

    pub Ensures-labelled :
        (label : String) (m : Exec World A) → Ensures P m Q → Ensures P (labelled label m) Q
    unfolding labelled
    Ensures-labelled label m k = record { at = λ w i p. go (m w) (k.at w i p) }
      where
        go : (r : Result A × World) → Kept Q r → Kept Q (wrap label r.0, r.1)
        go (ok a, w') h = h
        go (err e, w') h = h

    pub Ensures-branch :
        (b : Bool) (m n : Exec World A)
        → (b ≡ true → Ensures P m Q)
        → (b ≡ false → Ensures P n Q)
        → Ensures P (branch b m n) Q
    unfolding branch
    Ensures-branch true m n km kn = km refl
    Ensures-branch false m n km kn = kn refl

    pub Ensures-bind :
        {B : Type 0} (R : B → World → Type 0) (m : Exec World A) (f : A → Exec World B)
        → Ensures P m Q
        → ((a : A) → Ensures (Q a) (f a) R)
        → Ensures P (m >>= f) R
    unfolding ◌>>=◌
    Ensures-bind {B} R m f km kf = record { at = λ w i p. go (m w) (km.at w i p) }
      where
        go : (r : Result A × World) → Kept Q r → Kept R (continue r.0 f r.1)
        go (ok a, w') (i, q) = (kf a).at w' i q
        go (err e, w') i = i

  module _ (P : World → Type 0) where
    pub Ensures-observe : (f : Metrics → Metrics) → Ensures P (observe f) (λ _ _. Unit {0})
    unfolding observe
    Ensures-observe f = record { at = λ w i p. (i, tt) }

    -- What is known of the tables still holds behind a publish.
    pub Ensures-publish :
        (Q : Db → Type 0) (t : Task)
        → ((w : World) → I w.db w.queue → P w → I w.db (w.queue ++ t ∷ []) × Q w.db)
        → Ensures P (publish_task t) (λ _ w. Q w.db)
    unfolding publish_task
    Ensures-publish Q t k = record {
      at = λ w i p.
          settle-Kept (λ _ w'. Q w'.db) (first w.outcomes) _ (spent w) i
            λ a w' e.
              let same : record (spent w) { queue = w.queue ++ t ∷ [] } ≡ w' = cc e in
              subst (λ (v : World). I v.db v.queue × Q v.db) same (k w i p);
    }

  module _ {A : Type 0} (P : World → Type 0) where
    -- A call whose error is dropped.
    pub Ensures-attempted :
        (m : Exec World A)
        → Ensures P m (λ _ _. Unit {0})
        → Ensures P (attempted m) (λ _ _. Unit {0})
    unfolding attempted
    Ensures-attempted m k = record { at = λ w i p. go (m w) (k.at w i p) }
      where
        go : (r : Result A × World) → Kept (λ _ _. Unit {0}) r → I r.1.db r.1.queue × Unit {0}
        go (ok a, w') h = h
        go (err e, w') h = (h, tt)

  -- A dead letter leaves the tables and the deliveries topic alone.
  pub Ensures-publish_dead :
      (P : World → Type 0) (l : DeadLetter) → Ensures P (publish_dead l) (λ _ _. Unit {0})
  unfolding publish_dead
  Ensures-publish_dead P l = record {
    at = λ w i p.
        settle-Kept (λ _ _. Unit {0}) (first w.outcomes) _ (spent w) i
          λ a w' e.
            let same : record (spent w) { dlq_topic = w.dlq_topic ++ l ∷ [] } ≡ w' = cc e in
            subst (λ (v : World). I v.db v.queue × Unit {0}) same (i, tt);
  }

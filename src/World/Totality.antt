-- ===== src/World/Totality.antt =====
-- Rules by which an action is shown to return. `Achieves P m Q`: from a world with `P`, the action
-- returns a value that satisfies `Q` in the world that it leaves.
use harbor_hook.Common.{String, [], Result, ok, err, ◌≡◌, refl, Bool, true, false}
use harbor_hook.Common.Exec.{Exec, pure, branch, continue, ◌>>=◌}
use harbor_hook.Metrics.{Metrics}
use harbor_hook.Store.{Db, Statement}
use harbor_hook.World.{World, run, query, spent, observe, attempted}

pub record Achieves {A : Type 0} (P : World → Type 0) (m : Exec World A) (Q : A → World → Type 0)
    : Type 0 where
  pub at : (w : World) → P w → (a : A) × (v : World) × (m w ≡ (ok a, v)) × Q a v

module _ {A : Type 0} (P : World → Type 0) (Q : A → World → Type 0) where
  pub Achieves-pure : (a : A) → ((w : World) → P w → Q a w) → Achieves P (pure a) Q
  unfolding pure
  Achieves-pure a k = record { at = λ w p. (a, w, refl, k w p) }

  pub Achieves-branch :
      (b : Bool) (m n : Exec World A)
      → (b ≡ true → Achieves P m Q)
      → (b ≡ false → Achieves P n Q)
      → Achieves P (branch b m n) Q
  unfolding branch
  Achieves-branch true m n km kn = km refl
  Achieves-branch false m n km kn = kn refl

  pub Achieves-bind :
      {B : Type 0} (R : B → World → Type 0) (m : Exec World A) (f : A → Exec World B)
      → Achieves P m Q
      → ((a : A) → Achieves (Q a) (f a) R)
      → Achieves P (m >>= f) R
  unfolding ◌>>=◌
  Achieves-bind {B} R m f km kf = record { at = λ w p. go (m w) (km.at w p) }
    where
      go :
          (r : Result A × World)
          → (a : A) × (v : World) × (r ≡ (ok a, v)) × Q a v
          → (b : B) × (v : World) × (continue r.0 f r.1 ≡ (ok b, v)) × R b v
      go r (a, v, same, q) = let (b, u, made, done) = (kf a).at v q in (b, u, rw same made, done)

module _ {A : Type 0} (P : World → Type 0) (Q : Result A → World → Type 0) where
  -- An action whose error is caught returns; what holds of its result and world holds.
  pub Achieves-attempted :
      (m : Exec World A) → ((w : World) → P w → Q (m w).0 (m w).1) → Achieves P (attempted m) Q
  unfolding attempted
  Achieves-attempted m k = record { at = λ w p. ((m w).0, (m w).1, refl, k w p) }

module _ (P Q : World → Type 0) where
  pub Achieves-observe :
      (f : Metrics → Metrics)
      → ((w : World) → P w → Q (record w { metrics = f w.metrics }))
      → Achieves P (observe f) (λ _ w. Q w)
  unfolding observe
  Achieves-observe f k = record {
    at = λ w p. (tt, record w { metrics = f w.metrics }, refl, k w p);
  }

-- In a world in which no call fails, the outcomes stay as they are, and a statement decides its result.
pub spent_calm : (w : World) → w.outcomes ≡ [] → (spent w).outcomes ≡ []
spent_calm w h = rw h refl

module _ {A : Type 0} (st : Statement A) (w : World) (calm : w.outcomes ≡ []) where
  pub run_ok :
      (a : A) (db : Db) → st w.db ≡ ok (a, db) → run st w ≡ (ok a, record (spent w) { db = db })
  unfolding run
  run_ok a db h = rw (calm, h) refl

  pub run_err : (e : String) → st w.db ≡ err e → run st w ≡ (err e, spent w)
  unfolding run
  run_err e h = rw (calm, h) refl

module _ {A : Type 0} (read : Db → Result A) (w : World) (calm : w.outcomes ≡ []) where
  pub query_reads : (r : Result A) → read w.db ≡ r → query read w ≡ (r, spent w)
  unfolding query run
  query_reads (ok a) h = rw (calm, h) refl
  query_reads (err e) h = rw (calm, h) refl

-- A fact that does not depend on the world is a hypothesis.
pub Achieves-given :
    {A X : Type 0} (P : World → Type 0) (m : Exec World A) (Q : A → World → Type 0)
    → (X → Achieves P m Q)
    → Achieves (λ w. X × P w) m Q
Achieves-given P m Q k = record { at = λ w (x, p). (k x).at w p }

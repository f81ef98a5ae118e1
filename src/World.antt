-- ===== src/World.antt =====
-- What the services act on: the database, the deliveries topic, the dead-letter topic and the
-- metrics. Every call of the database or of NSQ takes the next outcome of the list, so that theorems
-- range over all the ways in which calls may fail; a call behind the end of the list succeeds.
pub mod Invariants
pub mod Totality
use harbor_hook.Common.{ℕ, String, List, [], ◌∷◌, ◌++◌, Result, ok, err, wrap}
use harbor_hook.Common.Exec.{Exec}
use harbor_hook.Store.{Db, Statement, empty_db}
use harbor_hook.Delivery.{Task, DeadLetter}
use harbor_hook.Metrics.{Metrics, no_metrics}

-- `refused e`: the call reports `e` and had no effect. `lost e`: the call took effect, and the caller
-- is told `e`, as when a connection breaks before the answer.
pub data Outcome : Type 0 where
  fine : Outcome
  refused lost : String → Outcome

pub record World : Type 0 where
  pub db : Db
  pub queue : List Task
  pub dlq_topic : List DeadLetter
  pub metrics : Metrics
  pub outcomes : List Outcome

abbrev pub empty_world : (ℕ → String) → World
empty_world uuid = record {
  db = empty_db uuid;
  queue = [];
  dlq_topic = [];
  metrics = no_metrics;
  outcomes = [];
}

abbrev pub first : List Outcome → Outcome
first [] = fine
first (o ∷ os) = o

abbrev others : List Outcome → List Outcome
others [] = []
others (o ∷ os) = os

abbrev pub settle {ℓ} : {A : Type ℓ} → Outcome → Result (A × World) → World → Result A × World
settle fine (ok (a, w')) w = (ok a, w')
settle fine (err e) w = (err e, w)
settle (refused e) r w = (err e, w)
settle (lost e) (ok (a, w')) w = (err e, w')
settle (lost e) (err _) w = (err e, w)

abbrev pub committed : {A : Type 0} → World → Result (A × Db) → Result (A × World)
committed w (ok (a, db)) = ok (a, record w { db = db })
committed w (err e) = err e

abbrev pub spent : World → World
spent w = record w { outcomes = others w.outcomes }

-- pool.Exec, pool.QueryRow
unfoldable pub run : {A : Type 0} → Statement A → Exec World A
run st w = let w' = spent w in settle (first w.outcomes) (committed w' (st w'.db)) w'

-- the value of a SELECT, beside the tables as they are
abbrev pub answer : {A : Type 0} → Db → Result A → Result (A × Db)
answer db (ok a) = ok (a, db)
answer db (err e) = err e

-- a SELECT
unfoldable pub query : {A : Type 0} → (Db → Result A) → Exec World A
unfolding run
query read = run λ db. answer db (read db)

-- prod.Publish(deliveriesTopic, …)
unfoldable pub publish_task : Task → Exec World (Unit {0})
publish_task t w =
    let w' = spent w in
    settle (first w.outcomes) (ok (tt, record w' { queue = w'.queue ++ t ∷ [] })) w'

-- dlqProducer.Publish(cfg.NSQ.DLQTopic, …)
unfoldable pub publish_dead : DeadLetter → Exec World (Unit {0})
publish_dead d w =
    let w' = spent w in
    settle (first w.outcomes) (ok (tt, record w' { dlq_topic = w'.dlq_topic ++ d ∷ [] })) w'

-- a metrics helper, which cannot fail
unfoldable pub observe : (Metrics → Metrics) → Exec World (Unit {0})
observe f w = (ok tt, record w { metrics = f w.metrics })

-- fmt.Errorf("label: %w", err) round the error of a call
unfoldable pub labelled : {A : Type 0} → String → Exec World A → Exec World A
labelled label m w = let (r, w') = m w in (wrap label r, w')

-- a call whose error the caller handles or drops
unfoldable pub attempted : {A : Type 0} → Exec World A → Exec World (Result A)
attempted m w = let (r, w') = m w in (ok r, w')

-- ===== src/System.antt =====
-- The webhook service and any number of workers on the same tables and topics: the calls of
-- internal/ingest/service.go and the messages that cmd/worker/main.go handles, in any order. A worker may
-- receive any message, whether it was enqueued, requeued or neither.
pub mod Journey
pub mod Onboarding
use harbor_hook.Common.{ℕ, String, List, [], ◌∷◌, Result}
use harbor_hook.Delivery.{Task}
use harbor_hook.World.{Outcome, World, empty_world}
use harbor_hook.Ingest.{Context}
use harbor_hook.Ingest.Calls.{Call, serve}
use harbor_hook.Ingest.Isolation.{Isolated}
use harbor_hook.Ingest.Isolation.History.{serve-Isolated}
use harbor_hook.Worker.{Surroundings}
use harbor_hook.Worker.Handler.{handle}
use harbor_hook.Worker.Isolation.{handle-Isolated}

pub data Step (F : Type 0) : Type 0 where
  serves : Context → Call → Step F
  works : Surroundings F → Result Task → Step F

module _ {F : Type 0} where
  -- the world behind a step
  unfoldable pub step : Step F → World → World
  unfolding serve handle
  step (serves c call) w = serve c call w
  step (works s body) w = (handle s body w).1

  -- Each step comes with the outcomes of the external calls that it will make.
  unfoldable pub steps : List (List Outcome × Step F) → World → World
  unfolding step
  steps [] w = w
  steps ((outcomes, st) ∷ more) w = steps more (step st (record w { outcomes = outcomes }))

  step-Isolated :
      (st : Step F) (w : World) → Isolated w.db w.queue → Isolated (step st w).db (step st w).queue
  unfolding step
  step-Isolated (serves c call) w i = serve-Isolated c call w i
  step-Isolated (works s body) w i = handle-Isolated s body w i

  steps_keep :
      (sts : List (List Outcome × Step F)) (w : World)
      → Isolated w.db w.queue
      → Isolated (steps sts w).db (steps sts w).queue
  unfolding steps
  steps_keep [] w i = i
  steps_keep ((outcomes, st) ∷ more) w i =
      steps_keep more (step st (record w { outcomes = outcomes }))
        (step-Isolated st (record w { outcomes = outcomes }) i)

  -- After any sequence of calls of the webhook service and of messages handled by workers, on empty
  -- tables, with any failures of the database and of NSQ: every subscription names an endpoint of
  -- its own tenant, every delivery goes to an endpoint of the tenant of its event, and every
  -- enqueued task carries the URL of an endpoint of its tenant.
  pub steps-Isolated :
      (uuid : ℕ → String) (sts : List (List Outcome × Step F))
      → Isolated (steps sts (empty_world uuid)).db (steps sts (empty_world uuid)).queue
  steps-Isolated uuid sts =
      steps_keep sts (empty_world uuid)
        (record { event_ids = tt; subscriptions = tt; deliveries = tt; tasks = tt })

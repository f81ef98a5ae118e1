-- ===== src/Worker/Lives.antt =====
-- The life of one message in the worker's channel. go-nsq calls the handler for each receipt of a
-- message, unless the receipts exceed the limit of the consumer's configuration: then it finishes
-- the message itself. The worker sets MaxInFlight and no other field of that configuration.
pub mod Exhaustion
pub mod Limits
use harbor_hook.Common.{
  ℕ, zero, suc, ◌+◌, List, [], ◌∷◌, Bool, true, false, Result, ok, err, if◌then◌else◌,
}
use harbor_hook.Delivery.{Task}
use harbor_hook.World.{World}
use harbor_hook.Worker.{Surroundings, Response, finished, requeued, panicked}
use harbor_hook.Worker.Handler.{handle}

-- The later receipts, if the message is received again. Requeue sends the identifier of the message and the
-- delay alone, so the body is the one that was received, whatever m.Body was set to.
abbrev next : Result Response → (World → World) → World → World
next (ok (requeued delay t)) later w = later w
next (ok finished) later w = w
next (ok panicked) later w = w
next (err e) later w = w

module _ {F : Type 0} where
  -- The receipts of a message, the first of them the one with this number; each has its surroundings.
  unfoldable pub live : (ℕ → Bool) → List (Surroundings F) → ℕ → Task → World → World
  unfolding handle
  live gives_up [] receipt t w = w
  live gives_up (s ∷ later) receipt t w =
      let (r, w') = handle s (ok t) w in
      let rest = live gives_up later (receipt + 1) t in
      if gives_up receipt then w else next r rest w'

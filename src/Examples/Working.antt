-- ===== src/Examples/Working.antt =====
-- The worker's theorems on the delivery d1.
use harbor_hook.Common.{none, ℕ, String, [], ◌∷◌, some, ok, ◌≡◌, refl, ◌≢◌, ltb, arith}
use harbor_hook.Store.Queries.{endpoint_secret}
use harbor_hook.World.{World}
use harbor_hook.Worker.{replied, failed, Response, requeued}
use harbor_hook.Worker.Backoff.{compute_delay}
use harbor_hook.Worker.Handler.{handle}
use harbor_hook.Worker.Tracking.{Frame, Tracked}
use harbor_hook.Worker.Outcomes.{HasAttempt, IsDelivered, IsFailed}
use harbor_hook.Worker.Verdicts.{FinishedWith, IsDead, mourned, delivers, retries, buries}
use harbor_hook.Worker.Answers.{IsAnswer, handle_Answers}
use harbor_hook.Worker.Lives.{live}
use harbor_hook.Worker.Lives.Exhaustion.{Fails, Dead, exhausts}
use harbor_hook.Worker.Lives.Limits.{IsAlive, IsAliveWithin, abandons}
use harbor_hook.Worker.Unsigned.{IsUnsigned, leaves-IsUnsigned}
use harbor_hook.Worker.Reason.{classify_reason}
use harbor_hook.Worker.Reason.Labels.{Explains, classify_reason-Explains}
use harbor_hook.Examples.{
  orders_endpoint, acme_db, acme_world, ids, paid_delivery, paid_task, surroundings,
}

abbrev frame : Frame
frame = record {
  endpoint_id = "e1";
  secret = some (some "s3cret");
  dlq = [];
  topic = [];
  uuid = ids;
  drawn = 0;
}

tracked : Tracked "d1" frame (HasAttempt 0) acme_world
unfolding endpoint_secret
tracked = record {
  calm = refl;
  row = paid_delivery;
  found = refl;
  holds = refl;
  secret = refl;
  dlq = refl;
  topic = refl;
  uuid = refl;
  drawn = refl;
}

alive : Tracked "d1" frame (IsAlive 0) acme_world
unfolding endpoint_secret
alive = record {
  calm = refl;
  row = paid_delivery;
  found = refl;
  holds = (λ e. cc e, refl);
  secret = refl;
  dlq = refl;
  topic = refl;
  uuid = refl;
  drawn = refl;
}

given : ◌≢◌ {A = String} "s3cret" ""
given e = cc e

fails : (max : ℕ) → Fails max (surroundings max (replied 503))
fails max = record { attempts = refl; nonempty = omega arith; down = λ r. refl }

delivers_example :
    FinishedWith (surroundings 6 (replied 204)) paid_task frame (IsDelivered 1 204) acme_world
delivers_example =
    delivers (surroundings 6 (replied 204)) paid_task frame "s3cret" 0 refl refl given refl
      acme_world refl tracked

retries_example :
    (v : World) × (handle (surroundings 6 (replied 503)) (ok paid_task) acme_world
      ≡ (ok (requeued 100 (record paid_task { attempt = 1 })), v))
    × Tracked "d1" frame (IsFailed 1 (replied 503)) v
unfolding compute_delay
retries_example =
    retries (surroundings 6 (replied 503)) paid_task frame "s3cret" 0 refl refl given refl 100
      acme_world refl (omega arith) refl tracked

buries_example :
    FinishedWith
      (surroundings 1 (failed "timeout"))
      paid_task
      (mourned (surroundings 1 (failed "timeout")) paid_task frame "s3cret" 0)
      (IsDead 1 (failed "timeout"))
      acme_world
buries_example =
    buries (surroundings 1 (failed "timeout")) paid_task frame "s3cret" 0 refl refl given refl
      acme_world refl (omega arith) refl tracked

handle_Answers_example :
    (r : Response) × (v : World) × (handle (surroundings 6 (replied 503)) (ok paid_task) acme_world
      ≡ (ok r, v))
    × IsAnswer (surroundings 6 (replied 503)) paid_task r v
handle_Answers_example =
    handle_Answers (surroundings 6 (replied 503)) paid_task (omega arith) acme_world

exhausts_example : Dead frame 2 paid_task (
    live
      (ltb 2)
      (surroundings 2 (replied 503) ∷ surroundings 2 (replied 503) ∷ [])
      1
      paid_task
      acme_world)
exhausts_example =
    exhausts "s3cret" given 2 frame refl (ltb 2)
      (surroundings 2 (replied 503) ∷ surroundings 2 (replied 503) ∷ []) 1 0 paid_task acme_world
      (fails 2, (fails 2, tt)) (refl, (refl, tt)) refl (omega arith) (omega arith)
      (λ k h. ground arith) refl tracked

abandons_example : Tracked "d1" frame (IsAliveWithin 5) (
    live
      (ltb 5)
      (surroundings 6 (replied 503) ∷ surroundings 6 (replied 503) ∷ [])
      1
      paid_task
      acme_world)
abandons_example =
    abandons "s3cret" given 6 5 frame refl (omega arith) (ltb 5)
      (surroundings 6 (replied 503) ∷ surroundings 6 (replied 503) ∷ []) 0 paid_task acme_world
      (λ k. refl) (fails 6, (fails 6, tt)) refl (omega arith) alive

abbrev secretless_world : World
secretless_world = record acme_world {
  db = record acme_db { endpoints = record orders_endpoint { secret = none } ∷ [] };
}

secretless : Tracked "d1" (record frame { secret = some none }) (HasAttempt 0) secretless_world
unfolding endpoint_secret
secretless = record {
  calm = refl;
  row = paid_delivery;
  found = refl;
  holds = refl;
  secret = refl;
  dlq = refl;
  topic = refl;
  uuid = refl;
  drawn = refl;
}

leaves-IsUnsigned_example :
    FinishedWith
      (surroundings 6 (replied 204))
      paid_task
      (record frame { secret = some none })
      (IsUnsigned 1)
      secretless_world
leaves-IsUnsigned_example =
    leaves-IsUnsigned (surroundings 6 (replied 204)) paid_task (record frame { secret = some none })
      0 refl refl secretless_world secretless

classify_reason-Explains_example : Explains (classify_reason (replied 429)) (replied 429)
classify_reason-Explains_example = classify_reason-Explains (replied 429)

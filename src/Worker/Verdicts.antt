-- ===== src/Worker/Verdicts.antt =====
-- The three ends of the handling of a message in cmd/worker/main.go, where no call of the database or
-- of NSQ fails: delivered, requeued, or dead.
use harbor_hook.Common.{
  ℕ, ◌+◌, ◌≤◌, ◌<◌, any, String, some, true, false, ◌==◌, ok, ◌≡◌, refl, ◌≢◌, ap, ◌∙◌, arith,
  if◌then◌else◌,
}
use harbor_hook.Store.{Status, Delivery}
use harbor_hook.Delivery.{Task, new_dead_letter}
use harbor_hook.World.{World}
use harbor_hook.World.Totality.{Achieves, Achieves-pure, Achieves-bind, Achieves-branch}
use harbor_hook.Worker.{
  Answer, Surroundings, Response, finished, requeued, status_of, err_string, succeeded,
}
use harbor_hook.Worker.Backoff.{compute_delay}
use harbor_hook.Worker.Statements.{dead_row}
use harbor_hook.Worker.Handler.{dead_letter, requeue, handle, dlq_reason, envelope_reason}
use harbor_hook.Worker.Tracking.{Frame, Tracked, Achieves-settled, Achieves-measure}
use harbor_hook.Worker.Letters.{buried, announced, Achieves-bury, Achieves-optional}
use harbor_hook.Worker.Outcomes.{
  HasAttempt, IsDelivered, IsFailed, answered, success_Achieves, failure_Achieves, handle_Achieves,
}

-- a dead row, with what the last attempt left
abbrev pub IsDead : ℕ → Answer → Delivery → Type 0
IsDead n a d =
    (d.status ≡ Status.dead)
    × (d.attempt ≡ n)
    × (d.http_status ≡ some (status_of a))
    × (d.last_error ≡ some (err_string a))

-- finished, with what is then tracked of the world
abbrev pub FinishedWith :
    {F : Type 0} → Surroundings F → Task → Frame → (Delivery → Type 0) → World → Type 0
FinishedWith s t fr' Q w =
    (v : World) × (handle s (ok t) w ≡ (ok finished, v)) × Tracked t.delivery_id fr' Q v

module _ {F : Type 0} (s : Surroundings F) (t : Task) (fr : Frame) (secret : String) (n : ℕ) where
  abbrev answer : Answer
  answer = answered s t secret

  -- the frame with the rows and messages of a dead letter
  abbrev pub mourned : Frame
  mourned =
      let fr' = buried t.delivery_id fr (HasAttempt n) s.now (dlq_reason s (n + 1) answer) in
      if s.settings.publish_dlq
      then announced t.delivery_id fr' (HasAttempt n) (
          new_dead_letter s.stamp t (n + 1) (status_of answer) (err_string answer)
            (envelope_reason s (n + 1)))
      else fr'

module _ {F : Type 0} (s : Surroundings F) (t : Task) (fr : Frame) (secret : String) (n : ℕ)
    (known : fr.endpoint_id ≡ t.endpoint_id) (set : fr.secret ≡ some (some secret))
    (given : secret ≢ "") (made : s.takes_url t.endpoint_url ≡ true) where
  delivers_Achieves :
      succeeded (answered s t secret) ≡ true
      → Achieves (Tracked t.delivery_id fr (HasAttempt n)) (handle s (ok t)) (λ r w.
        (r ≡ finished)
        × Tracked t.delivery_id fr (IsDelivered (n + 1) (status_of (answered s t secret))) w)
  delivers_Achieves good =
      handle_Achieves s t fr secret n known set given _
        (Achieves-branch _ _ _ _ _ (λ _. success_Achieves s t fr secret n (answered s t secret))
          λ bad. absurd (cc (good, bad)))
        made

  retries_Achieves :
      (delay : ℕ)
      → succeeded (answered s t secret) ≡ false
      → n + 1 < s.settings.max_attempts
      → compute_delay s.floats s.draw (n + 1) s.settings.backoff_schedule s.settings.jitter_percent
        ≡ some delay
      → Achieves (Tracked t.delivery_id fr (HasAttempt n)) (handle s (ok t)) (λ r w.
        (r ≡ requeued delay (record t { attempt = n + 1 }))
        × Tracked t.delivery_id fr (IsFailed (n + 1) (answered s t secret)) w)
  unfolding requeue
  retries_Achieves delay bad more d =
      handle_Achieves s t fr secret n known set given _
        (Achieves-branch _ _ _ _ _ (λ good. absurd (cc (good, bad)))
          λ _. failure_Achieves s t fr secret n (answered s t secret) _ (
            Achieves-branch _ _ _ _ _ (λ e. absurd (ground arith))
              λ _. Achieves-pure _ _ _ λ w p. (rw d refl, p)))
        made

  buries_Achieves :
      succeeded (answered s t secret) ≡ false
      → s.settings.max_attempts ≤ n + 1
      → any (λ q. q.id == fr.uuid fr.drawn) fr.dlq ≡ false
      → Achieves (Tracked t.delivery_id fr (HasAttempt n)) (handle s (ok t)) (λ r w.
        (r ≡ finished)
        × Tracked t.delivery_id (mourned s t fr secret n) (IsDead (n + 1) (answered s t secret)) w)
  unfolding dead_letter
  buries_Achieves bad last fresh =
      handle_Achieves s t fr secret n known set given _
        (Achieves-branch _ _ _ _ _ (λ good. absurd (cc (good, bad)))
          λ _. failure_Achieves s t fr secret n (answered s t secret) _ (
            Achieves-branch _ _ _ _ _
              (λ _. Achieves-bind _ _ _ _ _ (Achieves-bury t.delivery_id fr _ s.now _ fresh) λ _.
                Achieves-bind _ _ _ _ _
                  (Achieves-settled s.now t.delivery_id dead_row _
                    (IsFailed (n + 1) (answered s t secret)) (IsDead (n + 1) (answered s t secret))
                    (λ d. refl) (λ d p. tt)
                    λ d new p alike. (
                      alike.status,
                      alike.attempt ∙ p.1,
                      alike.http_status ∙ p.2,
                      alike.last_error ∙ p.3,
                    ))
                  λ _.
                    Achieves-bind _
                      (λ _.
                        Tracked t.delivery_id (mourned s t fr secret n)
                          (IsDead (n + 1) (answered s t secret)))
                      _ _ _
                      (Achieves-optional t.delivery_id _ (IsDead (n + 1) (answered s t secret))
                        s.settings.publish_dlq _)
                      λ _.
                        Achieves-bind _ _ _ _ _
                          (Achieves-measure t.delivery_id (mourned s t fr secret n) _ _)
                          λ _. Achieves-pure _ _ finished λ w p. (refl, p))
              λ e. absurd (ground arith)))
        made

  as_finished :
      (fr' : Frame) (Q : Delivery → Type 0) (w : World)
      → (r : Response) × (v : World) × (handle s (ok t) w ≡ (ok r, v))
        × ((r ≡ finished) × Tracked t.delivery_id fr' Q v)
      → FinishedWith s t fr' Q w
  as_finished fr' Q w (r, v, ran, (same, k)) = (v, ran ∙ ap (λ x. (ok x, v)) same, k)

  -- Where no call of the database or of NSQ fails, the endpoint has a secret, the URL of the task
  -- makes a request, and the signed request is answered with a 2xx status: the handler finishes the
  -- message, the row is delivered with one attempt more, the status code and no error, and the table
  -- dlq and the dead-letter topic stay as they were.
  pub delivers :
      (w : World)
      → succeeded (answered s t secret) ≡ true
      → Tracked t.delivery_id fr (HasAttempt n) w
      → FinishedWith s t fr (IsDelivered (n + 1) (status_of (answered s t secret))) w
  delivers w good k = as_finished fr _ w ((delivers_Achieves good).at w k)

  -- Where no call of the database or of NSQ fails, the endpoint has a secret, the URL of the task
  -- makes a request, and the signed request is not answered with a 2xx status, below the last
  -- attempt, and computeDelay returns: the handler puts the task with the new count of attempts in
  -- the message's body and requeues the message with the delay of computeDelay for it, the row is
  -- failed with that count, the status code and the error, and the table dlq and the dead-letter
  -- topic stay as they were.
  pub retries :
      (delay : ℕ) (w : World)
      → succeeded (answered s t secret) ≡ false
      → n + 1 < s.settings.max_attempts
      → compute_delay s.floats s.draw (n + 1) s.settings.backoff_schedule s.settings.jitter_percent
        ≡ some delay
      → Tracked t.delivery_id fr (HasAttempt n) w
      → (v : World) × (handle s (ok t) w ≡ (ok (requeued delay (record t { attempt = n + 1 })), v))
        × Tracked t.delivery_id fr (IsFailed (n + 1) (answered s t secret)) v
  retries delay w bad more d k =
      let (r, v, ran, (same, k')) = (retries_Achieves delay bad more d).at w k in
      (v, ran ∙ ap (λ x. (ok x, v)) same, k')

  -- Where no call of the database or of NSQ fails, the endpoint has a secret, the URL of the task
  -- makes a request, and the signed request is not answered with a 2xx status, at or past the last
  -- attempt, and the next identifier is new in the table dlq: the handler finishes the message, the
  -- row is dead with one attempt more and what the last attempt left, the table dlq has one more row
  -- with the reason, and the dead-letter topic has one more envelope if and only if the publication
  -- is switched on.
  pub buries :
      (w : World)
      → succeeded (answered s t secret) ≡ false
      → s.settings.max_attempts ≤ n + 1
      → any (λ q. q.id == fr.uuid fr.drawn) fr.dlq ≡ false
      → Tracked t.delivery_id fr (HasAttempt n) w
      → FinishedWith s t (mourned s t fr secret n) (IsDead (n + 1) (answered s t secret)) w
  buries w bad last fresh k =
      as_finished (mourned s t fr secret n) _ w ((buries_Achieves bad last fresh).at w k)

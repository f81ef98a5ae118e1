-- ===== src/Worker/Answers.antt =====
-- The answers of the handler of cmd/worker/main.go, under any failures.
use harbor_hook.Common.{
  refl, Bool-cases, inl, inr, ℕ, ◌<◌, String, Option, none, some, length, false, ok, ◌≡◌, arith,
  leb,
}
use harbor_hook.Common.Exec.{Exec}
use harbor_hook.Metrics.{Metrics}
use harbor_hook.Delivery.{Task}
use harbor_hook.World.{World, attempted, observe}
use harbor_hook.World.Totality.{
  Achieves, Achieves-pure, Achieves-bind, Achieves-branch, Achieves-attempted, Achieves-observe,
}
use harbor_hook.Worker.{Request, Answer, Surroundings, Response, finished, requeued, panicked}
use harbor_hook.Worker.Backoff.{compute_delay}
use harbor_hook.Worker.Backoff.Index.{compute_delay_defined}
use harbor_hook.Worker.Handler.{
  usable, sign_request, send_request, with_secret, handle_task, on_success, on_failure,
  after_failure, dead_letter, requeue, deliver, without_secret, handle,
}

abbrev Anything : World → Type 0
Anything w = Unit {0}

abbrev Returned : {A : Type 0} → A → World → Type 0
Returned a w = Unit {0}

caught : {A : Type 0} (m : Exec World A) → Achieves Anything (attempted m) Returned
caught m = Achieves-attempted Anything Returned m λ w p. tt

measured : (f : Metrics → Metrics) → Achieves Anything (observe f) Returned
measured f = Achieves-observe Anything Anything f λ w p. tt

sign_request-none :
    {F : Type 0} (s : Surroundings F) (t : Task) (secret : String)
    → sign_request s t secret ≡ none
    → s.takes_url t.endpoint_url ≡ false
unfolding sign_request
sign_request-none s t secret e = elim (Bool-cases (s.takes_url t.endpoint_url)) [
  | inl h ↦ absurd (cc (rw h at e))
  | inr h ↦ h
]

leb-false : {m n : ℕ} → leb m n ≡ false → n < m
leb-false {m} {n} e = ground arith

module _ {F : Type 0} (s : Surroundings F) where
  -- The message is finished; or it is requeued with nothing but the attempt changed, below the limit, and
  -- with the delay of computeDelay; or the handler panics, at a URL for which there is no request.
  pub data IsAnswer (t : Task) : Response → World → Type 0 where
    done : {w : World} → IsAnswer t finished w
    again :
        {w : World} (n delay : ℕ)
        → n < s.settings.max_attempts
        → compute_delay s.floats s.draw n s.settings.backoff_schedule s.settings.jitter_percent
          ≡ some delay
        → IsAnswer t (requeued delay (record t { attempt = n })) w
    broken : {w : World} → s.takes_url t.endpoint_url ≡ false → IsAnswer t panicked w

  module _ (t : Task) (nonempty : 0 < length s.settings.backoff_schedule) where
    without_secret_Answers : Achieves Anything (without_secret s t) (IsAnswer t)
    unfolding without_secret
    without_secret_Answers =
        Achieves-bind _ _ _ _ _ (caught _)
          λ _. Achieves-bind _ _ _ _ _ (measured _) λ _. Achieves-pure _ _ finished λ w p. done

    on_success_Answers : (a : Answer) → Achieves Anything (on_success s t a) (IsAnswer t)
    unfolding on_success
    on_success_Answers a = Achieves-bind _ _ _ _ _ (caught _) λ _.
        Achieves-bind _ _ _ _ _ (measured _)
          λ _. Achieves-bind _ _ _ _ _ (measured _) λ _. Achieves-pure _ _ finished λ w p. done

    dead_letter_Answers :
        (a : Answer) (n : ℕ) → Achieves Anything (dead_letter s t a n) (IsAnswer t)
    unfolding dead_letter
    dead_letter_Answers a n = Achieves-bind _ _ _ _ _ (caught _) λ _.
        Achieves-bind _ _ _ _ _ (caught _) λ _.
          Achieves-bind _ _ _ _ _
            (Achieves-branch _ _ _ _ _ (λ _. caught _) λ _. Achieves-pure _ _ _ λ w p. tt)
            λ _. Achieves-bind _ _ _ _ _ (measured _) λ _. Achieves-pure _ _ finished λ w p. done

    requeue_Answers :
        (n : ℕ) → n < s.settings.max_attempts → Achieves Anything (requeue s t n) (IsAnswer t)
    unfolding requeue
    requeue_Answers n h =
        let (i, base, _, _, _, _, made) =
          compute_delay_defined s.floats s.draw s.settings.jitter_percent n
            s.settings.backoff_schedule nonempty in
        Achieves-pure _ _ _ λ w p. rw made (again n _ h made)

    on_failure_Answers : (a : Answer) → Achieves Anything (on_failure s t a) (IsAnswer t)
    unfolding on_failure after_failure
    on_failure_Answers a = Achieves-bind _ _ _ _ _ (caught _) λ _.
        Achieves-bind _ _ _ _ _ (caught _) λ r. Achieves-bind _ _ _ _ _ (measured _) λ _.
          Achieves-bind _ _ _ _ _ (measured _) λ _.
            Achieves-bind _ _ _ _ _
              (Achieves-branch _ _ _ _ _ (λ _. measured _) λ _. Achieves-pure _ _ _ λ w p. tt)
              λ _.
                Achieves-branch _ _ _ _ _ (λ _. dead_letter_Answers a _)
                  λ e. requeue_Answers _ (leb-false e)

    send_request_Answers :
        (o : Option Request)
        → (o ≡ none → s.takes_url t.endpoint_url ≡ false)
        → Achieves Anything (send_request s t o) (IsAnswer t)
    unfolding send_request
    send_request_Answers none bad = Achieves-pure _ _ panicked λ w p. broken (bad refl)
    send_request_Answers (some r) bad = Achieves-bind _ _ _ _ _ (caught _) λ _.
        Achieves-branch _ _ _ _ _ (λ _. on_success_Answers (s.send r))
          λ _. on_failure_Answers (s.send r)

    with_secret_Answers :
        (secret : Option String) → Achieves Anything (with_secret s t secret) (IsAnswer t)
    unfolding deliver
    with_secret_Answers none = without_secret_Answers
    with_secret_Answers (some secret) =
        send_request_Answers (sign_request s t secret) (sign_request-none s t secret)

    handled_Answers : Achieves Anything (handle s (ok t)) (IsAnswer t)
    unfolding handle handle_task
    handled_Answers =
        Achieves-bind _ _ _ _ _ (caught _)
          λ _. Achieves-bind _ _ _ _ _ (caught _) λ r. with_secret_Answers (usable r)

    -- With a schedule that is not empty and whatever calls fail, the handling of a task returns an
    -- answer: the message is finished, or it is requeued with the delay of computeDelay for a count
    -- of attempts below MaxAttempts, its body changed in that count alone, or the handler panics,
    -- which it does only where the URL of the task makes no request.
    pub handle_Answers :
        (w : World)
        → (r : Response) × (v : World) × (handle s (ok t) w ≡ (ok r, v)) × IsAnswer t r v
    handle_Answers w = handled_Answers.at w tt

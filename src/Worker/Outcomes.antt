-- ===== src/Worker/Outcomes.antt =====
-- What the handler of cmd/worker/main.go makes of a delivery, where no call of the database or of NSQ
-- fails: it is delivered, failed and requeued, or dead.
use harbor_hook.Common.{
  true, ℕ, ◌+◌, String, Option, none, some, Result, ok, ◌≡◌, refl, ◌≢◌, sym, ap, ◌∙◌, subst, leb,
  eq_false,
}
use harbor_hook.Common.Exec.{branch}
use harbor_hook.Store.{Status, Delivery}
use harbor_hook.Store.Queries.{endpoint_secret, delivery_attempt}
use harbor_hook.Delivery.{Task}
use harbor_hook.Store.Rows.{Same}
use harbor_hook.World.{World, attempted, query}
use harbor_hook.World.Totality.{
  Achieves, Achieves-pure, Achieves-bind, Achieves-branch, Achieves-given,
}
use harbor_hook.Worker.{Answer, Surroundings, Response, finished, status_of, err_string, succeeded}
use harbor_hook.Worker.Statements.{inflight_row, sent_row, delivered_row, failed_row}
use harbor_hook.Worker.Handler.{
  scanned, usable, attempt_or, with_secret, update, handle_task, signed_request, sign_request,
  send_request, on_success, on_failure, after_failure, dead_letter, requeue, deliver, handle,
}
use harbor_hook.Worker.Tracking.{
  Frame, Tracked, Achieves-settled, Achieves-possible, Achieves-read, Achieves-measure,
}

-- a row with this count of attempts
abbrev pub HasAttempt : ℕ → Delivery → Type 0
HasAttempt n d = d.attempt ≡ n

-- a delivered row, with the status code of the response
abbrev pub IsDelivered : ℕ → ℕ → Delivery → Type 0
IsDelivered n code d =
    (d.status ≡ Status.delivered)
    × (d.attempt ≡ n)
    × (d.http_status ≡ some code)
    × (d.last_error ≡ none)

-- a failed row, with the status code and the error of the last attempt
abbrev pub IsFailed : ℕ → Answer → Delivery → Type 0
IsFailed n a d =
    (d.status ≡ Status.failed)
    × (d.attempt ≡ n)
    × (d.http_status ≡ some (status_of a))
    × (d.last_error ≡ some (err_string a))

-- the answer to the signed request
abbrev pub answered : {F : Type 0} → Surroundings F → Task → String → Answer
answered s t secret = s.send (signed_request s t secret)

module _ {F : Type 0} (s : Surroundings F) (t : Task) (fr : Frame) (secret : String) (n : ℕ) where
  abbrev Known : (Delivery → Type 0) → World → Type 0
  Known = Tracked t.delivery_id fr

  pub success_Achieves :
      (a : Answer)
      → Achieves
          (Known (HasAttempt n))
          (on_success s t a)
          (λ r w. (r ≡ finished) × Known (IsDelivered (n + 1) (status_of a)) w)
  unfolding on_success
  success_Achieves a =
      Achieves-bind _ _ _ _ _
        (Achieves-settled s.now t.delivery_id (delivered_row s.now (status_of a) s.latency) fr
          (HasAttempt n) (IsDelivered (n + 1) (status_of a)) (λ d. refl) (λ d p. tt)
          λ d new p alike.
            (alike.status, alike.attempt ∙ ap (λ k. k + 1) p, alike.http_status, alike.last_error))
        λ _. Achieves-bind _ _ _ _ _ (Achieves-measure t.delivery_id fr _ _) λ _.
          Achieves-bind _ _ _ _ _ (Achieves-measure t.delivery_id fr _ _)
            λ _. Achieves-pure _ _ finished λ w p. (refl, p)

  update-IsFailed :
      (a : Answer)
      → Achieves
          (Known (HasAttempt n))
          (update s t (failed_row s.now (status_of a) s.latency (err_string a)))
          (λ _. Known (IsFailed (n + 1) a))
  update-IsFailed a =
      Achieves-settled s.now t.delivery_id (failed_row s.now (status_of a) s.latency (err_string a))
        fr (HasAttempt n) (IsFailed (n + 1) a) (λ d. refl) (λ d p. tt)
        λ d new p alike.
          (alike.status, alike.attempt ∙ ap (λ k. k + 1) p, alike.http_status, alike.last_error)

  read_attempt :
      (a : Answer)
      → Achieves
          (Known (IsFailed (n + 1) a))
          (attempted (query λ db. scanned (delivery_attempt t.delivery_id db)))
          (λ r w. (r ≡ ok (n + 1)) × Known (IsFailed (n + 1) a) w)
  unfolding delivery_attempt
  read_attempt a =
      Achieves-read t.delivery_id fr (IsFailed (n + 1) a)
        (λ db. scanned (delivery_attempt t.delivery_id db)) (ok (n + 1))
        λ w k. rw (delivery_attempt, k.found, k.holds.1) refl

  module _ (a : Answer) (R : Response → World → Type 0) where
    abbrev Failing : World → Type 0
    Failing = Known (IsFailed (n + 1) a)

    -- A failure goes on with the row failed, one attempt more, to the dead letter or to the requeue.
    pub failure_Achieves :
        Achieves Failing
          (branch
            (leb s.settings.max_attempts (n + 1))
            (dead_letter s t a (n + 1))
            (requeue s t (n + 1)))
          R
        → Achieves (Known (HasAttempt n)) (on_failure s t a) R
    unfolding on_failure after_failure
    failure_Achieves last = Achieves-bind _ _ _ _ _ (update-IsFailed a) λ _.
        Achieves-bind _ _ _ _ _ (read_attempt a) λ r. Achieves-given _ _ _ λ e.
          subst
            (λ (x : Result ℕ).
              Achieves Failing (after_failure s t a (attempt_or s.settings.max_attempts x)) R)
            (sym e)
            (Achieves-bind _ _ _ _ _ (Achieves-measure t.delivery_id fr _ _) λ _.
              Achieves-bind _ _ _ _ _ (Achieves-measure t.delivery_id fr _ _) λ _.
                Achieves-bind _ _ _ _ _
                  (Achieves-branch _ _ _ _ _ (λ _. Achieves-measure t.delivery_id fr _ _)
                    (λ _. Achieves-pure _ _ tt λ w p. p))
                  λ _. last)

  module _ (known : fr.endpoint_id ≡ t.endpoint_id) (set : fr.secret ≡ some (some secret))
      (given : secret ≢ "") (R : Response → World → Type 0) where
    -- The handler comes to the request with what the row keeps in flight.
    pub requested_Achieves :
        (P : Delivery → Type 0)
        → ((d new : Delivery) → P d → Same new (inflight_row s.now d) → P new)
        → Achieves (Known P) (send_request s t (sign_request s t secret)) R
        → Achieves (Known P) (handle s (ok t)) R
    unfolding handle handle_task deliver
    requested_Achieves P stays call =
        Achieves-bind _ _ _ _ _
          (Achieves-possible s.now t.delivery_id (inflight_row s.now) fr P P (λ d. refl) (λ d p. p)
            stays)
          λ _.
            Achieves-bind _ _ _ _ _
              (Achieves-read t.delivery_id fr P (λ db. scanned (endpoint_secret t.endpoint_id db))
                (ok (some secret))
                λ w k.
                  let found =
                    subst (λ x. endpoint_secret x w.db ≡ some (some secret)) known
                      (k.secret ∙ set) in
                  rw found refl)
              λ r. Achieves-given _ _ _ λ e.
                subst (λ (x : Option String). Achieves (Known P) (with_secret s t x) R)
                  (sym (usable_secret r e)) call
      where
        usable_secret : (r : Result (Option String)) → r ≡ ok (some secret) → usable r ≡ some secret
        usable_secret r e = rw (e, eq_false secret "" given) refl

    sign_request-some :
        s.takes_url t.endpoint_url ≡ true
        → sign_request s t secret ≡ some (signed_request s t secret)
    unfolding sign_request
    sign_request-some h = rw h refl

    -- The handler comes to the HTTP call with the row's attempts as they were.
    pub handle_Achieves :
        Achieves
          (Known (HasAttempt n))
          (branch
            (succeeded (answered s t secret))
            (on_success s t (answered s t secret))
            (on_failure s t (answered s t secret)))
          R
        → s.takes_url t.endpoint_url ≡ true
        → Achieves (Known (HasAttempt n)) (handle s (ok t)) R
    unfolding send_request
    handle_Achieves call made =
        requested_Achieves (HasAttempt n) (λ d new p alike. alike.attempt ∙ p)
          (subst (λ o. Achieves (Known (HasAttempt n)) (send_request s t o) R)
            (sym (sign_request-some made))
            (Achieves-bind _ _ _ _ _
              (Achieves-possible s.now t.delivery_id (sent_row s.now) fr (HasAttempt n)
                (HasAttempt n) (λ d. refl) (λ d p. p) λ d new p alike. alike.attempt ∙ p)
              λ _. call))

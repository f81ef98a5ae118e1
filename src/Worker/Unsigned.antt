-- ===== src/Worker/Unsigned.antt =====
-- The handling of a task whose endpoint has no secret, in cmd/worker/main.go.
use harbor_hook.Common.{ℕ, ◌+◌, String, Option, none, some, ok, ◌≡◌, refl, sym, ap, ◌∙◌, subst}
use harbor_hook.Store.{Status, Delivery}
use harbor_hook.Store.Queries.{endpoint_secret}
use harbor_hook.Delivery.{Task}
use harbor_hook.World.{World}
use harbor_hook.World.Totality.{Achieves, Achieves-pure, Achieves-bind, Achieves-given}
use harbor_hook.Worker.{Surroundings, finished}
use harbor_hook.Worker.Statements.{inflight_row, secretless_row}
use harbor_hook.Worker.Handler.{scanned, usable, with_secret, handle, handle_task, without_secret}
use harbor_hook.Worker.Tracking.{
  Frame, Tracked, Achieves-settled, Achieves-possible, Achieves-read, Achieves-measure,
}
use harbor_hook.Worker.Outcomes.{HasAttempt}
use harbor_hook.Worker.Verdicts.{FinishedWith}

-- a failed row whose request was never sent
abbrev pub IsUnsigned : ℕ → Delivery → Type 0
IsUnsigned n d =
    (d.status ≡ Status.failed) × (d.attempt ≡ n) × (d.last_error ≡ some "endpoint_secret_missing")

module _ {F : Type 0} (s : Surroundings F) (t : Task) (fr : Frame) (n : ℕ)
    (known : fr.endpoint_id ≡ t.endpoint_id) (missing : usable (scanned fr.secret) ≡ none) where
  without_secret_Achieves :
      Achieves
        (Tracked t.delivery_id fr (HasAttempt n))
        (without_secret s t)
        (λ r w. (r ≡ finished) × Tracked t.delivery_id fr (IsUnsigned (n + 1)) w)
  unfolding without_secret
  without_secret_Achieves =
      Achieves-bind _ _ _ _ _
        (Achieves-settled s.now t.delivery_id (secretless_row s.now) fr (HasAttempt n)
          (IsUnsigned (n + 1)) (λ d. refl) (λ d p. tt)
          λ d new p alike. (alike.status, alike.attempt ∙ ap (λ k. k + 1) p, alike.last_error))
        λ _.
          Achieves-bind _ _ _ _ _ (Achieves-measure t.delivery_id fr _ _)
            λ _. Achieves-pure _ _ finished λ w p. (refl, p)

  IsUnsigned-Achieves :
      Achieves
        (Tracked t.delivery_id fr (HasAttempt n))
        (handle s (ok t))
        (λ r w. (r ≡ finished) × Tracked t.delivery_id fr (IsUnsigned (n + 1)) w)
  unfolding handle handle_task
  IsUnsigned-Achieves =
      Achieves-bind _ _ _ _ _
        (Achieves-possible s.now t.delivery_id (inflight_row s.now) fr (HasAttempt n) (HasAttempt n)
          (λ d. refl) (λ d p. p) λ d new p alike. alike.attempt ∙ p)
        λ _.
          Achieves-bind _ _ _ _ _
            (Achieves-read t.delivery_id fr (HasAttempt n)
              (λ db. scanned (endpoint_secret t.endpoint_id db)) (scanned fr.secret)
              λ w k. ap scanned (subst (λ x. endpoint_secret x w.db ≡ fr.secret) known k.secret))
            λ r. Achieves-given _ _ _ λ e.
              subst
                (λ (x : Option String).
                  Achieves (Tracked t.delivery_id fr (HasAttempt n)) (with_secret s t x)
                    (λ r w. (r ≡ finished) × Tracked t.delivery_id fr (IsUnsigned (n + 1)) w))
                (sym (ap usable e ∙ missing)) without_secret_Achieves

  -- Where no call of the database or of NSQ fails, and the endpoint is missing or its secret is NULL
  -- or empty: the handler finishes the message, the row is failed with one attempt more and the
  -- error endpoint_secret_missing, and the table dlq and the dead-letter topic stay as they were.
  pub leaves-IsUnsigned :
      (w : World)
      → Tracked t.delivery_id fr (HasAttempt n) w
      → FinishedWith s t fr (IsUnsigned (n + 1)) w
  leaves-IsUnsigned w k =
      let (r, v, ran, (same, k')) = IsUnsigned-Achieves.at w k in
      (v, ran ∙ ap (λ x. (ok x, v)) same, k')

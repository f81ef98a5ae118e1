-- ===== src/Worker/Lives/Limits.antt =====
-- A message whose endpoint fails each time, in a channel whose limit lies below MaxAttempts. The limit of
-- go-nsq is 5 unless its configuration says otherwise, and MaxAttempts is 6 unless the environment does.
use harbor_hook.Common.{
  All, Bool, Bool-cases, List, String, [], arith, false, inl, inr, ltb, refl, some, subst, sym,
  true, ℕ, ◌+◌, ◌<◌, ◌∙◌, ◌∷◌, ◌≡◌, ◌≢◌, ◌≤◌,
}
use harbor_hook.Delivery.{Task}
use harbor_hook.Harborctl.ConfigFile.{set}
use harbor_hook.Store.{Delivery, Status}
use harbor_hook.Worker.{Surroundings, panicked}
use harbor_hook.Worker.Handler.{send_request, sign_request}
use harbor_hook.Worker.Lives.{live}
use harbor_hook.Worker.Lives.Exhaustion.{Fails, live_step}
use harbor_hook.Worker.Outcomes.{HasAttempt, requested_Achieves}
use harbor_hook.Worker.Tracking.{Frame, Tracked, Tracked-mono}
use harbor_hook.World.{World}
use harbor_hook.World.Totality.{Achieves-pure}

-- a row that is not dead, with a count of attempts
abbrev pub IsAlive : ℕ → Delivery → Type 0
IsAlive n d = (d.status ≢ Status.dead) × HasAttempt n d

-- a row that is not dead, with at most so many attempts
abbrev pub IsAliveWithin : ℕ → Delivery → Type 0
IsAliveWithin limit d = (d.status ≢ Status.dead) × (d.attempt ≤ limit)

live_abandoned :
    {F : Type 0} (gives_up : ℕ → Bool) (pool : List (Surroundings F)) (receipt : ℕ) (t : Task)
    (w : World)
    → gives_up receipt ≡ true
    → live gives_up pool receipt t w ≡ w
unfolding live
live_abandoned gives_up [] receipt t w h = refl
live_abandoned gives_up (s ∷ later) receipt t w h = rw h refl

-- A handler that panics leaves the row in flight, and the message is finished.
live_broken :
    {F : Type 0} (secret : String) (given : secret ≢ "") (fr : Frame)
    (set : fr.secret ≡ some (some secret)) (gives_up : ℕ → Bool) (s : Surroundings F)
    (later : List (Surroundings F)) (receipt n : ℕ) (t : Task) (w : World)
    → fr.endpoint_id ≡ t.endpoint_id
    → s.takes_url t.endpoint_url ≡ false
    → gives_up receipt ≡ false
    → Tracked t.delivery_id fr (IsAlive n) w
    → (v : World) × (live gives_up (s ∷ later) receipt t w ≡ v)
      × Tracked t.delivery_id fr (IsAlive n) v
unfolding live sign_request send_request
live_broken secret given fr set gives_up s later receipt n t w known bad go_on k =
    let (r, v, ran, (same, k')) =
      (requested_Achieves s t fr secret n known set given
          (λ r. λ v. (r ≡ panicked) × Tracked t.delivery_id fr (IsAlive n) v) (IsAlive n)
          (λ d new p alike. (λ dead. cc (alike.status, dead), alike.attempt ∙ p.1))
          (rw bad (Achieves-pure _ _ panicked λ v p. (refl, p)))).at
        w k in
    (v, rw (go_on, ran, same) refl, k')

module _ {F : Type 0} (secret : String) (given : secret ≢ "") (max limit : ℕ) (fr : Frame)
    (set : fr.secret ≡ some (some secret)) (low : limit < max) where
  -- A message whose endpoint has a secret and answers no request with success, while no call of the
  -- database or of NSQ fails and the schedule is not empty, in a channel that gives a message up
  -- exactly when its receipts exceed a limit below MaxAttempts: where the delivery is not dead, has
  -- at most as many attempts as the limit and the number of the next receipt is one more than that
  -- of its attempts, however many receipts there are, the delivery is never dead, its attempts stay
  -- within that limit, and the table dlq and the dead-letter topic stay as they were.
  pub abandons :
      (gives_up : ℕ → Bool) (pool : List (Surroundings F)) (n : ℕ) (t : Task) (w : World)
      → ((k : ℕ) → gives_up k ≡ ltb limit k)
      → All (Fails max) pool
      → fr.endpoint_id ≡ t.endpoint_id
      → n ≤ limit
      → Tracked t.delivery_id fr (IsAlive n) w
      → Tracked t.delivery_id fr (IsAliveWithin limit) (live gives_up pool (n + 1) t w)
  unfolding live
  abandons gives_up [] n t w rule fails known small k =
      Tracked-mono (λ d p. (p.0, subst (λ a. a ≤ limit) (sym p.1) small)) k
  abandons gives_up (s ∷ later) n t w rule (f, fails) known small k =
      elim (Bool-cases (ltb limit (n + 1))) [
        | inl e ↦
            subst (λ (v : World). Tracked t.delivery_id fr (IsAliveWithin limit) v)
              (sym (live_abandoned gives_up (s ∷ later) (n + 1) t w (rule (n + 1) ∙ e)))
              (Tracked-mono (λ d p. (p.0, subst (λ a. a ≤ limit) (sym p.1) small)) k)
        | inr e ↦ elim (Bool-cases (s.takes_url t.endpoint_url)) [
          | inr bad ↦
              let (v, same, k') =
                live_broken secret given fr set gives_up s later (n + 1) n t w known bad
                  (rule (n + 1) ∙ e) k in
              subst (λ (u : World). Tracked t.delivery_id fr (IsAliveWithin limit) u) (sym same)
                (Tracked-mono (λ d p. (p.0, subst (λ a. a ≤ limit) (sym p.1) small)) k')
          | inl url ↦
              let (v, same, k') =
                live_step secret given max fr set gives_up s later (n + 1) n t w f url known
                  (ground arith) (rule (n + 1) ∙ e) (Tracked-mono (λ d p. p.1) k) in
              let alive : Tracked t.delivery_id fr (IsAlive (n + 1)) v =
                Tracked-mono (λ d p. (λ dead. cc (p.0, dead), p.1)) k' in
              let rest =
                abandons gives_up later (n + 1) t v rule fails known (ground arith) alive in
              subst (λ (v : World). Tracked t.delivery_id fr (IsAliveWithin limit) v) (sym same)
                rest
        ]
      ]

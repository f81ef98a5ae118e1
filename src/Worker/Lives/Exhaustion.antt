-- ===== src/Worker/Lives/Exhaustion.antt =====
-- A message whose endpoint fails each time, in a channel whose limit is not met.
use harbor_hook.Common.{
  ℕ, ◌+◌, ◌≤◌, ◌<◌, ◌++◌, any, length, String, some, List, [], ◌∷◌, Bool, All, false, ◌==◌, ◌≡◌,
  true, refl, ◌≢◌, sym, ◌∙◌, subst, arith, Bool-cases, ltb, inl, inr,
}
use harbor_hook.Store.{Status}
use harbor_hook.Delivery.{Task}
use harbor_hook.World.{World}
use harbor_hook.Worker.{Request, Surroundings, succeeded}
use harbor_hook.Worker.Backoff.Index.{compute_delay_defined}
use harbor_hook.Worker.Handler.{dlq_reason}
use harbor_hook.Worker.Tracking.{Frame, Tracked, Tracked-mono}
use harbor_hook.Worker.Outcomes.{HasAttempt, answered}
use harbor_hook.Worker.Verdicts.{retries, buries, mourned}
use harbor_hook.Worker.Lives.{live}

-- The endpoint answers no request with success, under these settings for the attempts and the delays.
pub record Fails {F : Type 0} (max : ℕ) (s : Surroundings F) : Type 0 where
  pub attempts : s.settings.max_attempts ≡ max
  pub nonempty : 0 < length s.settings.backoff_schedule
  pub down : (r : Request) → succeeded (s.send r) ≡ false

-- A request can be made for the URL.
abbrev pub Takes : {F : Type 0} → String → Surroundings F → Type 0
Takes url s = s.takes_url url ≡ true

-- one more row of the table dlq than in the frame, for this delivery
abbrev pub WithEntry : Frame → String → Frame → Type 0
WithEntry fr id fr' =
    (reason : String) × (now : ℕ) × (fr'.dlq
      ≡ fr.dlq
        ++ record { id = fr.uuid fr.drawn; delivery_id = id; reason = reason; created_at = now }
          ∷ [])

-- the state behind the last attempt
abbrev pub Dead : Frame → ℕ → Task → World → Type 0
Dead fr max t v =
    (fr' : Frame) × WithEntry fr t.delivery_id fr'
    × Tracked t.delivery_id fr' (λ d. (d.status ≡ Status.dead) × HasAttempt max d) v

module _ {F : Type 0} (secret : String) (given : secret ≢ "") (max : ℕ) (fr : Frame)
    (set : fr.secret ≡ some (some secret)) where
  -- One receipt below the last attempt leads to the next, with one attempt more and the frame as it was.
  pub live_step :
      (gives_up : ℕ → Bool) (s : Surroundings F) (later : List (Surroundings F)) (receipt n : ℕ)
      (t : Task) (w : World)
      → Fails max s
      → Takes t.endpoint_url s
      → fr.endpoint_id ≡ t.endpoint_id
      → n + 1 < max
      → gives_up receipt ≡ false
      → Tracked t.delivery_id fr (HasAttempt n) w
      → (v : World) × (live gives_up (s ∷ later) receipt t w
          ≡ live gives_up later (receipt + 1) t v)
        × Tracked t.delivery_id fr (λ d. (d.status ≡ Status.failed) × HasAttempt (n + 1) d) v
  unfolding live
  live_step gives_up s later receipt n t w f takes known more go_on k =
      let (_, _, _, _, _, _, made) =
        compute_delay_defined s.floats s.draw s.settings.jitter_percent (n + 1)
          s.settings.backoff_schedule f.nonempty in
      let more' = subst (λ m. n + 1 < m) (sym f.attempts) more in
      let (v, ran, k') =
        retries s t fr secret n known set given takes _ w (f.down _) more' made k in
      (v, rw (go_on, ran) refl, Tracked-mono (λ d p. (p.0, p.1)) k')

  mourned-WithEntry :
      (s : Surroundings F) (t : Task) (n : ℕ) (known : fr.endpoint_id ≡ t.endpoint_id)
      → WithEntry fr t.delivery_id (mourned s t fr secret n)
  mourned-WithEntry s t n known = elim (Bool-cases s.settings.publish_dlq) [
    | inl e ↦ (dlq_reason s (n + 1) (answered s t secret), s.now, rw e refl)
    | inr e ↦ (dlq_reason s (n + 1) (answered s t secret), s.now, rw e refl)
  ]

  live_last :
      (gives_up : ℕ → Bool) (s : Surroundings F) (later : List (Surroundings F)) (receipt n : ℕ)
      (t : Task) (w : World)
      → Fails max s
      → Takes t.endpoint_url s
      → fr.endpoint_id ≡ t.endpoint_id
      → n + 1 ≡ max
      → gives_up receipt ≡ false
      → any (λ q. q.id == fr.uuid fr.drawn) fr.dlq ≡ false
      → Tracked t.delivery_id fr (HasAttempt n) w
      → Dead fr max t (live gives_up (s ∷ later) receipt t w)
  unfolding live
  live_last gives_up s later receipt n t w f takes known last go_on fresh k =
      let enough : s.settings.max_attempts ≤ n + 1 = rw (f.attempts, last) omega arith in
      let (v, ran, k') = buries s t fr secret n known set given takes w (f.down _) enough fresh k in
      let ended : live gives_up (s ∷ later) receipt t w ≡ v = rw (go_on, ran) refl in
      subst (Dead fr max t) (sym ended) (
        mourned s t fr secret n,
        mourned-WithEntry s t n known,
        Tracked-mono (λ d p. (p.0, p.1 ∙ last)) k',
      )

  -- A message whose endpoint has a secret, whose URL makes a request, and whose requests are
  -- answered with no success, while no call of the database or of NSQ fails, the schedule is not
  -- empty, the next identifier is new in the table dlq and the channel gives the message up at none
  -- of the receipts: if the delivery has fewer attempts than MaxAttempts and there are receipts
  -- enough to reach it, the delivery ends dead with MaxAttempts attempts, and the table dlq has
  -- exactly one more row, which names the delivery.
  pub exhausts :
      (gives_up : ℕ → Bool) (pool : List (Surroundings F)) (receipt n : ℕ) (t : Task) (w : World)
      → All (Fails max) pool
      → All (Takes t.endpoint_url) pool
      → fr.endpoint_id ≡ t.endpoint_id
      → n < max
      → max ≤ n + length pool
      → ((k : ℕ) → k < receipt + length pool → gives_up k ≡ false)
      → any (λ q. q.id == fr.uuid fr.drawn) fr.dlq ≡ false
      → Tracked t.delivery_id fr (HasAttempt n) w
      → Dead fr max t (live gives_up pool receipt t w)
  exhausts gives_up [] receipt n t w fails takes known below enough go_on fresh k =
      absurd (omega arith)
  exhausts gives_up (s ∷ later) receipt n t w (f, fails) (url, takes) known below enough go_on fresh
        k =
      elim (Bool-cases (ltb (n + 1) max)) [
        | inl more ↦
            let (v, same, k') =
              live_step gives_up s later receipt n t w f url known (ground arith)
                (go_on receipt (omega arith)) k in
            let rest =
              exhausts gives_up later (receipt + 1) (n + 1) t v fails takes known (ground arith)
                (omega arith) (λ j h. go_on j (omega arith)) fresh (Tracked-mono (λ d p. p.1) k') in
            subst (Dead fr max t) (sym same) rest
        | inr last ↦
            live_last gives_up s later receipt n t w f url known (ground arith)
              (go_on receipt (omega arith)) fresh k
      ]

-- ===== src/Harborctl/Traffic/Phase/Counting.antt =====
-- The counters of generateTrafficPhase of cmd/harborctl/cmd/traffic.go.
use harbor_hook.Common.{
  ℕ, zero, suc, ◌+◌, ◌≤◌, String, Bool, true, false, eqb, ltb, Option, none, some, Result, ok, err,
  ◌≡◌, refl, sym, subst, arith, Bool-cases, inl, inr,
}
use harbor_hook.Common.Exec.{Exec, pure, raise, branch, continue, ◌>>=◌}
use harbor_hook.Harborctl.{HttpResponse, Remote, Kit}
use harbor_hook.Harborctl.Settings.{Options}
use harbor_hook.Harborctl.Traffic.{TrafficConfig, Rates, TrafficSummary}
use harbor_hook.Harborctl.Traffic.Phase.{
  Clock, Name, normal, burst, Counts, no_counts, end_time, modulus, should_fail, counted,
  summarized, publish_traffic, round, rounds, summary_of, generate_traffic_phase,
}

module _ {S A B : Type 0} where
  continue-eq-ok :
      (p : Result A × S) (f : A → Exec S B) (v : S) (b : B)
      → continue p.0 f p.1 ≡ (ok b, v)
      → (a : A) × (t : S) × (p ≡ (ok a, t)) × (f a t ≡ (ok b, v))
  continue-eq-ok (ok a, t) f v b e = (a, t, refl, e)
  continue-eq-ok (err x, t) f v b e = absurd (cc e)

  -- What a bind that returns has run.
  pub bind-eq-ok :
      (m : Exec S A) (f : A → Exec S B) (s v : S) (b : B)
      → (m >>= f) s ≡ (ok b, v)
      → (a : A) × (t : S) × (m s ≡ (ok a, t)) × (f a t ≡ (ok b, v))
  unfolding ◌>>=◌
  bind-eq-ok m f s v b e = continue-eq-ok (m s) f v b e

pub finished :
    {S A : Type 0} (b : Bool) (d c : A) (t v : S)
    → branch b (raise "integer divide by zero") (pure d) t ≡ (ok c, v)
    → c ≡ d
unfolding branch raise pure
finished true d c t v h = absurd (cc h)
finished false d c t v h = cc h

returned :
    {S : Type 0} (c c' : Counts) (s v : S) → pure {S = S} (some c) s ≡ (ok (some c'), v) → c ≡ c'
unfolding pure
returned c c' s v e = cc e

-- Every request went to one of the endpoints; those that were accepted and those that were not make up all.
pub record IsConsistent {F : Type 0} (s : TrafficSummary F) : Type 0 where
  pub endpoints : s.good_endpoint_reqs + s.bad_endpoint_reqs ≡ s.total_requests
  pub answers : s.success_requests + s.failed_requests ≡ s.total_requests
  pub phases : s.normal_requests + s.burst_requests ≡ s.total_requests
  pub durations : s.normal_duration + s.burst_duration ≡ s.total_duration

record Inv (c : Counts) : Type 0 where
  endpoints : c.good + c.bad ≡ c.requests
  answers : c.success ≤ c.requests

counted-Inv :
    (c : Counts) (fails : Bool) (answer : Result HttpResponse)
    → Inv c
    → Inv (counted c fails answer)
counted-Inv c fails answer h = ground arith

summary_of-IsConsistent :
    {F : Type 0} (rates : Rates F) (clock : Clock) (name : Name) (c : Counts)
    → Inv c
    → IsConsistent (summary_of rates clock name c)
summary_of-IsConsistent rates clock normal c h = record {
  endpoints = h.endpoints;
  answers = omega (arith, h.answers);
  phases = omega arith;
  durations = omega arith;
}
summary_of-IsConsistent rates clock burst c h = record {
  endpoints = h.endpoints;
  answers = omega (arith, h.answers);
  phases = omega arith;
  durations = omega arith;
}

module _ {F S : Type 0} (rates : Rates F) (clock : Clock) (r : Remote S) (k : Kit) (g : Options)
    (config : TrafficConfig F) (volume : ℕ) where
  -- A round that returns has counted one request.
  pub round-counted :
      (c c' : Counts) (s v : S)
      → round rates clock r k g config volume c s ≡ (ok c', v)
      → (answer : Result HttpResponse) × (c'
          ≡ counted c (should_fail rates config c.requests) answer)
  unfolding round
  round-counted c c' s v e =
      let (answer, t, called, left) =
        bind-eq-ok (publish_traffic rates clock r k g config c.requests) _ s v c' e in
      (answer, finished (eqb (modulus volume) 0) _ c' t v left)

  rounds-Inv :
      (deadline fuel : ℕ) (c c' : Counts) (s v : S)
      → rounds rates clock r k g config volume deadline fuel c s ≡ (ok (some c'), v)
      → Inv c
      → Inv c'
  unfolding rounds pure branch
  rounds-Inv deadline zero c c' s v e h = absurd (cc e)
  rounds-Inv deadline (suc fuel) c c' s v e h =
      elim (Bool-cases (ltb (clock.at c.requests) deadline)) [
        | inl more ↦
            let (c1, t, once, rest) =
              bind-eq-ok (round rates clock r k g config volume c)
                (rounds rates clock r k g config volume deadline fuel) s v (some c')
                (rw more at e) in
            let (answer, same) = round-counted c c1 s t once in
            rounds-Inv deadline fuel c1 c' t v rest
              (subst Inv (sym same) (counted-Inv c (should_fail rates config c.requests) answer h))
        | inr done ↦ subst Inv (returned c c' s v (rw done at e)) h
      ]

guarded :
    {S A : Type 0} (b : Bool) (m : Exec S A) (s v : S) (a : A)
    → branch b (raise "integer divide by zero") m s ≡ (ok a, v)
    → m s ≡ (ok a, v)
unfolding branch raise
guarded true m s v a h = absurd (cc h)
guarded false m s v a h = h

module _ {F S : Type 0} (rates : Rates F) (clock : Clock) (r : Remote S) (k : Kit) (g : Options)
    (config : TrafficConfig F) (token : String) (volume duration : ℕ) (name : Name) (fuel : ℕ) where
  abbrev pub session : Options
  session = record g { jwt_token = token; use_http = true }

  -- the counters that a phase ended with
  abbrev pub Ended : S → TrafficSummary F → Type 0
  Ended s summary =
      (c : Counts) × (t : S) × (rounds rates clock r k session config volume
          (end_time clock.start duration) fuel no_counts s
        ≡ (ok (some c), t))
      × (summary ≡ summary_of rates clock name c)

  ended :
      (o : Option Counts) (s t v : S) (summary : TrafficSummary F)
      → rounds rates clock r k session config volume
          (end_time clock.start duration)
          fuel
          no_counts
          s
        ≡ (ok o, t)
      → pure {S = S} (summarized rates clock name o) t ≡ (ok (some summary), v)
      → Ended s summary
  unfolding pure
  ended none s t v summary e f = absurd (cc f)
  ended (some c) s t v summary e f = (c, t, e, cc f)

  pub phase-Ended :
      (s v : S) (summary : TrafficSummary F)
      → generate_traffic_phase rates clock r k g config token volume duration name fuel s
        ≡ (ok (some summary), v)
      → Ended s summary
  unfolding generate_traffic_phase
  phase-Ended s v summary e =
      let (o, t, ran, left) =
        bind-eq-ok
          (rounds rates clock r k session config volume (end_time clock.start duration) fuel
            no_counts)
          (λ counts. pure (summarized rates clock name counts)) s v (some summary)
          (guarded (eqb volume 0) _ s v (some summary) e) in
      ended o s t v summary ran left

  pub generate_traffic_phase-IsConsistent :
      (s v : S) (summary : TrafficSummary F)
      → generate_traffic_phase rates clock r k g config token volume duration name fuel s
        ≡ (ok (some summary), v)
      → IsConsistent summary
  generate_traffic_phase-IsConsistent s v summary e =
      let (c, t, ran, same) = phase-Ended s v summary e in
      let start : Inv no_counts = record { endpoints = refl; answers = omega arith } in
      subst IsConsistent (sym same) (
        summary_of-IsConsistent rates clock name c (
          rounds-Inv rates clock r k session config volume (end_time clock.start duration) fuel
            no_counts c s t ran start))

-- ===== src/Harborctl/Traffic/Phase/Pacing.antt =====
-- The loop of generateTrafficPhase of cmd/harborctl/cmd/traffic.go ends, and keeps to its rate.
use harbor_hook.Common.{
  ℕ, zero, suc, ◌+◌, ◌*◌, ◌^◌, ◌≤◌, ◌<◌, String, true, false, eqb, ltb, some, ok, ◌≡◌, refl, arith,
  Bool-cases, inl, inr,
}
use harbor_hook.Common.Exec.{pure, branch, ◌>>=◌}
use harbor_hook.Harborctl.{Remote, Kit}
use harbor_hook.Harborctl.Settings.{Options}
use harbor_hook.Harborctl.Traffic.{TrafficConfig, Rates, TrafficSummary}
use harbor_hook.Harborctl.Traffic.Collect.Usable.{Positive}
use harbor_hook.Harborctl.Traffic.Phase.{
  Clock, Name, normal, burst, Counts, no_counts, end_time, sleep_duration, modulus, should_fail,
  counted, summary_of, traffic_request, round, rounds, generate_traffic_phase,
}

-- The clock starts before the first round, and each round takes at least the sleep between requests.
pub record IsPaced (clock : Clock) (volume : ℕ) : Type 0 where
  pub starts : clock.start ≤ clock.at 0
  pub sleeps : (i : ℕ) → clock.at i + sleep_duration volume ≤ clock.at (suc i)

-- the duration of a phase in nanoseconds
abbrev pub nanoseconds : ℕ → ℕ
nanoseconds duration = duration * 1_000_000_000

module _ (clock : Clock) (volume : ℕ) (paced : IsPaced clock volume) where
  at-ge : (i : ℕ) → clock.start + i * sleep_duration volume ≤ clock.at i
  at-ge zero = omega (arith, paced.starts)
  at-ge (suc i) = omega (arith, at-ge i, paced.sleeps i)

-- An int64 between 1 and 2^63 - 1 times ten is not 0, whether it wraps round or not.
modulus-ne-zero : (volume : ℕ) → Positive volume → eqb (modulus volume) 0 ≡ false
modulus-ne-zero volume (more, less) = ground arith

end_time_fits :
    (start duration : ℕ)
    → nanoseconds duration < 2 ^ 63
    → end_time start duration ≡ start + nanoseconds duration
unfolding end_time
end_time_fits start duration h = ground arith

sleep-pos : (volume : ℕ) → 0 < volume → volume ≤ 1_000_000_000 → 0 < sleep_duration volume
sleep-pos volume h k = grind arith

-- one more request, with the time before its round
room_after :
    (n n' p d start now : ℕ) → n' ≡ n + 1 → start + n * p ≤ now → now < start + d → n' * p < d + p
room_after n n' p d start now one before inside =
    let split : n' * p ≡ n * p + p = rw one (grind arith) in omega arith

fuel_after : (n n' p d fuel : ℕ) → n' ≡ n + 1 → d + p ≤ (n + suc fuel) * p → d + p ≤ (n' + fuel) * p
fuel_after n n' p d fuel one h = let same : n' + fuel ≡ n + suc fuel = omega arith in rw same h

module _ {F S : Type 0} (rates : Rates F) (clock : Clock) (r : Remote S) (k : Kit) (g : Options)
    (config : TrafficConfig F) (volume : ℕ) where
  round-returns :
      (c : Counts) (s : S)
      → eqb (modulus volume) 0 ≡ false
      → (c1 : Counts) × (t : S) × (round rates clock r k g config volume c s ≡ (ok c1, t))
        × (c1.requests ≡ c.requests + 1)
  unfolding round branch pure ◌>>=◌
  round-returns c s h =
      let got = traffic_request rates clock r k g config c.requests s in
      (counted c (should_fail rates config c.requests) got.0, got.1, rw h refl, refl)

  rounds-returns :
      (d : ℕ)
      → IsPaced clock volume
      → eqb (modulus volume) 0 ≡ false
      → (fuel : ℕ) (c : Counts) (s : S)
      → c.requests * sleep_duration volume < d + sleep_duration volume
      → d + sleep_duration volume ≤ (c.requests + fuel) * sleep_duration volume
      → (c' : Counts) × (v : S) × (rounds rates clock r k g config volume (clock.start + d) fuel c s
          ≡ (ok (some c'), v))
        × (c'.requests * sleep_duration volume < d + sleep_duration volume)
  unfolding rounds branch pure ◌>>=◌
  rounds-returns d paced m zero c s few enough = absurd (omega arith)
  rounds-returns d paced m (suc fuel) c s few enough =
      elim (Bool-cases (ltb (clock.at c.requests) (clock.start + d))) [
        | inl more ↦
            let (c1, t, once, one) = round-returns c s m in
            let room : c1.requests * sleep_duration volume < d + sleep_duration volume =
              room_after c.requests c1.requests (sleep_duration volume) d clock.start
                (clock.at c.requests) one (at-ge clock volume paced c.requests) (ground arith) in
            let left : d + sleep_duration volume ≤ (c1.requests + fuel) * sleep_duration volume =
              fuel_after c.requests c1.requests (sleep_duration volume) d fuel one enough in
            let (c2, v, ran, bound) = rounds-returns d paced m fuel c1 t room left in
            (c2, v, rw (more, once) ran, bound)
        | inr done ↦ (c, s, rw done refl, few)
      ]

total_requests-summary_of :
    {F : Type 0} (rates : Rates F) (clock : Clock) (name : Name) (c : Counts)
    → (summary_of rates clock name c).total_requests ≡ c.requests
total_requests-summary_of rates clock normal c = refl
total_requests-summary_of rates clock burst c = refl

eqb-Positive : (volume : ℕ) → Positive volume → eqb volume 0 ≡ false
eqb-Positive volume (more, less) = ground arith

module _ {F S : Type 0} (rates : Rates F) (clock : Clock) (r : Remote S) (k : Kit) (g : Options)
    (config : TrafficConfig F) (token : String) (volume duration : ℕ) (name : Name) where
  -- A phase of traffic ends. With a volume between 1 and a thousand million requests per second, a
  -- duration whose nanoseconds fit an int64, and a clock that starts before the first round and
  -- passes the sleep between requests in each one: on fuel for the duration and one more sleep, the
  -- phase returns a summary, whatever the service answers, and the sleeps of its requests take less
  -- than the duration and one more sleep.
  pub generate_traffic_phase_paced :
      (fuel : ℕ) (s : S)
      → Positive volume
      → volume ≤ 1_000_000_000
      → nanoseconds duration < 2 ^ 63
      → IsPaced clock volume
      → nanoseconds duration + sleep_duration volume ≤ fuel * sleep_duration volume
      → (summary : TrafficSummary F) × (v : S) × (generate_traffic_phase rates clock r k g config
            token volume duration name fuel s
          ≡ (ok (some summary), v))
        × (summary.total_requests * sleep_duration volume
            < nanoseconds duration + sleep_duration volume)
  unfolding generate_traffic_phase branch pure ◌>>=◌
  generate_traffic_phase_paced fuel s usable slow fits paced enough =
      let start : 0 * sleep_duration volume < nanoseconds duration + sleep_duration volume =
        omega (arith, sleep-pos volume usable.0 slow) in
      let session = record g { jwt_token = token; use_http = true } in
      let (c, v, ran, bound) =
        rounds-returns rates clock r k session config volume (nanoseconds duration) paced
          (modulus-ne-zero volume usable) fuel no_counts s start
          (let same : 0 + fuel ≡ fuel = omega arith in rw same enough) in
      (
        summary_of rates clock name c,
        v,
        rw (eqb-Positive volume usable, end_time_fits clock.start duration fits, ran) refl,
        rw (total_requests-summary_of rates clock name c) bound,
      )

  -- A duration that wraps round to a negative one ends the loop before its first round.
  generate_traffic_phase_overflow :
      (fuel : ℕ) (s : S)
      → Positive volume
      → 2 ^ 63 ≤ nanoseconds duration
      → nanoseconds duration < 2 ^ 64
      → clock.start ≤ clock.at 0
      → generate_traffic_phase rates clock r k g config token volume duration name (suc fuel) s
        ≡ (ok (some (summary_of rates clock name no_counts)), s)
  unfolding generate_traffic_phase rounds end_time branch pure ◌>>=◌
  generate_traffic_phase_overflow fuel s usable over under starts =
      let ended : ltb (clock.at 0) (end_time clock.start duration) ≡ false = ground arith in
      rw (eqb-Positive volume usable, ended) refl

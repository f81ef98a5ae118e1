-- ===== src/Harborctl/Traffic/Collect/Usable.antt =====
-- What collectTrafficParameters of cmd/harborctl/cmd/traffic.go returns can be run.
use harbor_hook.Common.{
  ℕ, zero, suc, ◌^◌, ◌<◌, String, true, false, ◌==◌, Result, ok, err, ◌≡◌, ◌≢◌, refl, ◌⊎◌, inl, inr,
  arith, Bool-cases, eq_iff, ne_of_eq_false,
}
use harbor_hook.Common.Int.{ℤ, pos, negsuc}
use harbor_hook.Encoding.Decimal.{parse_int, parse_int-bound}
use harbor_hook.Config.{trim_space}
use harbor_hook.Harborctl.Traffic.{TrafficConfig, Rates}
use harbor_hook.Harborctl.Traffic.Collect.{
  Console, new_reader, read_string, positive, accepted, defaults, counted, rated, mode_of, says_yes,
  ask_burst, ask_common, ask_failures, collect_traffic_parameters,
}

-- a positive int64
abbrev pub Positive : ℕ → Type 0
Positive n = (0 < n) × (n < 2 ^ 63)

pub record IsUsable {F : Type 0} (r : Rates F) (config : TrafficConfig F) : Type 0 where
  pub duration : Positive config.duration
  pub volume : Positive config.volume
  pub rate : r.in_range config.failure_rate ≡ true
  pub mode : (config.mode ≡ "good") ⊎ ((config.mode ≡ "bad") × (config.burst ≡ false))
  pub bursts : config.burst ≡ true → Positive config.burst_volume × Positive config.burst_duration

positive-Positive :
    (o : Result ℤ) (def : ℕ)
    → ((n : ℕ) → o ≡ ok (pos n) → n < 2 ^ 63)
    → Positive def
    → Positive (positive o def)
positive-Positive (ok (pos zero)) def bound h = h
positive-Positive (ok (pos (suc n))) def bound h = (omega arith, bound (suc n) refl)
positive-Positive (ok (negsuc n)) def bound h = h
positive-Positive (err e) def bound h = h

counted-Positive : (input : String) (def : ℕ) → Positive def → Positive (counted input def)
unfolding counted
counted-Positive input def h = elim (Bool-cases (trim_space input == "")) [
  | inl e ↦ rw e h
  | inr e ↦
      rw e (
        positive-Positive (parse_int (trim_space input)) def (parse_int-bound (trim_space input)) h)
]

is_bad :
    (mode : String) → (mode ≡ "good") ⊎ (mode ≡ "bad") → (mode == "good") ≡ false → mode ≡ "bad"
is_bad mode (inl good) e = absurd (ne_of_eq_false mode "good" e good)
is_bad mode (inr bad) e = bad

bad-ne-good : ◌≢◌ {A = String} "bad" "good"
bad-ne-good e = ne_of_eq_false "bad" "good" refl e

module _ {F : Type 0} (r : Rates F) where
  -- what holds before the questions on failures and bursts
  record IsReady (config : TrafficConfig F) : Type 0 where
    duration : Positive config.duration
    volume : Positive config.volume
    rate : r.in_range config.failure_rate ≡ true
    mode : (config.mode ≡ "good") ⊎ (config.mode ≡ "bad")
    quiet : config.burst ≡ false
    burst_numbers :
        config.mode ≡ "good" → Positive config.burst_volume × Positive config.burst_duration

  accepted-in_range :
      (o : Result F) (def : F) → r.in_range def ≡ true → r.in_range (accepted r o def) ≡ true
  accepted-in_range (err e) def h = h
  accepted-in_range (ok rate) def h = elim (Bool-cases (r.in_range rate)) [
    | inl e ↦ rw e e
    | inr e ↦ rw e h
  ]

  rated-in_range :
      (input : String) (def : F) → r.in_range def ≡ true → r.in_range (rated r input def) ≡ true
  unfolding rated
  rated-in_range input def h = elim (Bool-cases (trim_space input == "")) [
    | inl e ↦ rw e h
    | inr e ↦ rw e (accepted-in_range (r.parse_float (trim_space input)) def h)
  ]

  ask_burst-IsUsable :
      (config : TrafficConfig F) (con : Console)
      → IsReady config
      → config.mode ≡ "good"
      → IsUsable r (ask_burst r config con).0
  unfolding ask_burst
  ask_burst-IsUsable config con h good = elim (Bool-cases (says_yes (read_string con).0)) [
    | inl e ↦ rw e (record {
      duration = h.duration;
      volume = h.volume;
      rate = h.rate;
      mode = inl good;
      bursts = λ _. (
        counted-Positive (read_string (read_string con).1).0 config.burst_volume
            (h.burst_numbers good).0,
        counted-Positive (read_string (read_string (read_string con).1).1).0 config.burst_duration
            (h.burst_numbers good).1,
      );
    })
    | inr e ↦ rw e (record {
      duration = h.duration;
      volume = h.volume;
      rate = h.rate;
      mode = inl good;
      bursts = λ b. absurd (cc (b, h.quiet));
    })
  ]

  ask_failures-IsUsable :
      (config : TrafficConfig F) (con : Console)
      → IsReady config
      → IsUsable r (ask_failures r config con).0
  unfolding ask_failures
  ask_failures-IsUsable config con h = elim (Bool-cases (config.mode == "good")) [
    | inl e ↦ rw e (
        ask_burst-IsUsable
          (record config { failure_rate = rated r (read_string con).0 config.failure_rate })
          (read_string con).1
          (record {
            duration = h.duration;
            volume = h.volume;
            rate = rated-in_range (read_string con).0 config.failure_rate h.rate;
            mode = h.mode;
            quiet = h.quiet;
            burst_numbers = h.burst_numbers;
          })
          ((eq_iff config.mode "good").0 e))
    | inr e ↦ rw e (record {
      duration = h.duration;
      volume = h.volume;
      rate = h.rate;
      mode = inr (is_bad config.mode h.mode e, h.quiet);
      bursts = λ b. absurd (cc (b, h.quiet));
    })
  ]

  defaults-IsReady :
      r.in_range r.zero_rate ≡ true
      → r.in_range r.five ≡ true
      → (mode : String) → IsReady (defaults r mode)
  defaults-IsReady zero_fits five_fits mode = elim (Bool-cases (mode == "bad")) [
    | inl e ↦ rw e (record {
      duration = (omega arith, omega arith);
      volume = (omega arith, omega arith);
      rate = zero_fits;
      mode = inr refl;
      quiet = refl;
      burst_numbers = λ good. absurd (bad-ne-good good);
    })
    | inr e ↦ rw e (record {
      duration = (omega arith, omega arith);
      volume = (omega arith, omega arith);
      rate = five_fits;
      mode = inl refl;
      quiet = refl;
      burst_numbers = λ good. ((omega arith, omega arith), (omega arith, omega arith));
    })
  ]

  ask_common-IsReady :
      (config : TrafficConfig F) (con : Console)
      → IsReady config
      → IsReady (ask_common r config con).0
  unfolding ask_common
  ask_common-IsReady config con h = record {
    duration = counted-Positive (read_string con).0 config.duration h.duration;
    volume = counted-Positive (read_string (read_string con).1).0 config.volume h.volume;
    rate = h.rate;
    mode = h.mode;
    quiet = h.quiet;
    burst_numbers = h.burst_numbers;
  }

  -- Whatever is typed, where 0 and 5 are rates in range, the dialogue gives parameters that the
  -- generator can use: a duration and a volume of at least 1 and below 2^63, a failure rate in
  -- range, the mode good, or bad without a burst, and with a burst, a volume and a duration of it in
  -- the same bounds.
  pub collect_traffic_parameters-IsUsable :
      (con : Console)
      → r.in_range r.zero_rate ≡ true
      → r.in_range r.five ≡ true
      → IsUsable r (collect_traffic_parameters r con).0
  unfolding collect_traffic_parameters
  collect_traffic_parameters-IsUsable con zero_fits five_fits =
      let answer = read_string (new_reader con) in
      let config = defaults r (mode_of answer.0) in
      ask_failures-IsUsable (ask_common r config answer.1).0 (ask_common r config answer.1).1 (
        ask_common-IsReady config answer.1
          (defaults-IsReady zero_fits five_fits (mode_of answer.0)))
